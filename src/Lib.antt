-- ===== src/Lib.antt =====
-- BilbyFs, the flash file system in impl/fs/bilby/c: its in-memory state and the object store.
--
-- BilbyFs keeps a log of objects in the erase-blocks (LEBs) of a flash device. The object store
-- (ostore.c) writes lists of objects as transactions and knows three summaries of the log: the
-- index (idx.c) finds the newest version of an object by its id, the garbage index (gim.c) counts
-- its outdated versions, and the free-space manager (fsm.c) counts the garbage of each block and
-- which blocks are in use. The two indexes are hash tables of red-black trees (rbt.c), and take
-- their nodes from a pool that is filled before a transaction (allocpool.c).
--
-- Which file models which part:
--   Types    structs, constants and error codes of bilbyfs.h
--   Ids      object ids: the id functions of bilbyfs.h (inum_from_id, data_id_init, ...)
--   Obj      object headers: get_obj_id, obj_has_id, get_obj_trans
--   Tree     the descents of idx.c and gim.c in a search tree, and rbt.c as a parameter
--   Pool     allocpool.c
--   Hash     the hash table that idx.c and gim.c have in common
--   Idx      idx.c
--   Gim      gim.c
--   Fsm      fsm.c but for fsm_alloc_eb, which is in Store/Alloc
--   Store    ostore.c: proc_obj, which the write path and the mount share; Store/Mount, how a mount
--            reads transactions and checks the super block; Store/Summary, the block's summary;
--            Store/Scan, how a mount goes through the blocks; Store/Alloc, fsm_alloc_eb;
--            Store/Init, ostore_init and ostore_clean
--   Dentarr  dentarr.c: looking a name up and adding one; Dentarr/Delete, removing one
--   Rdx      rdx.c, and dentarr_read of dentarr.c
--   Pack     packobj.c: inodes, data blocks and deletion objects, as records of their fields
--   Wbuf     wbuf.c: starting a write-buffer, writing an object into it, reading an erase-block
--   Fsop     fsop.c: Fsop/Name, looking names up and adding them; Fsop/Remove, removing them;
--            Fsop/Rename; Fsop/Page, reading and writing pages; Fsop/Attr, attributes and the size;
--            Fsop/Root, reading inodes, listing a directory and the size of the file system;
--            Fsop/Op, the operations as one type, for what holds of all; Fsop/Contract, what they
--            rely on of the object store
--   Prelude  names, lists and bit operations that the others share
--   Tests    the theorems at concrete states
--
-- A function has the name of the C function and gets the fields of `struct bilbyfs_info` that it
-- uses instead of the whole struct; it returns the new fields. A C integer is a natural number,
-- with its wrap-around written out where the code can reach it (u32 counts and sums, 64-bit sums);
-- an `int` that the code keeps nonnegative has none. An error code is a `Result`, and a failed
-- `bilbyfs_assert` is `none`.
--
-- Parameters: the balancing of rbt.c, a copy of the red-black tree of Linux, is the record
-- `Tree.Rbt`, whose laws say that it keeps the nodes' order; the kernel's allocator is a function
-- that says which request is granted. What the write-buffer finds in a block is a list of objects
-- for the object store, and its results are arguments there. The flash device is a function in Wbuf.
--
-- The file-system operations have the object store as an interface, `Fsop.Ostore`: reading an object
-- and writing a list of them. Inodes are in a memory, and an operation gets pointers to them, which
-- may be the same; it returns the new memory with its error code. What it takes from the kernel is
-- `Fsop.Kernel`, and the time, the user and the granted requests for memory are `Fsop.Call`.
--
-- Fuel: a clean-up of a bucket has the number of its nodes as fuel, the loop of gim_is_removable one
-- more than the nodes of its bucket, and the loop over the objects that a deletion covers two more:
-- each round goes on to a greater id of the bucket. The other loops are recursions on the number of
-- rounds or on what is left of a list; the one over the arrays of a directory takes its fuel as an
-- argument.
--
-- Not modelled: the packing of headers, super blocks and summaries, the commits of the write-buffer
-- and the reading of one object or summary in it, the garbage collector but for its buffer, the
-- mount and unmount of fsop.c, and of the object store the reading and writing of
-- objects, summaries and super blocks; the Linux glue under os/linux, debug.c, the Cogent version of
-- BilbyFs, and the compiler with its proofs.
pub mod Prelude
pub mod Types
pub mod Ids
pub mod Tree
pub mod Pool
pub mod Hash
pub mod Idx
pub mod Obj
pub mod Gim
pub mod Fsm
pub mod Store
pub mod Dentarr
pub mod Rdx
pub mod Pack
pub mod Wbuf
pub mod Fsop
pub mod Tests
