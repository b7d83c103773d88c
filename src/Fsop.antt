-- ===== src/Fsop.antt =====
-- impl/fs/bilby/c/fsop.c: the file-system operations, over the object store as an interface. An
-- inode is in memory behind a pointer, a number: two pointers that an operation gets may be the
-- same. A result `none` is a failed assertion, or what a read out of bounds may do.
pub mod Frame
pub mod Name
pub mod Remove
pub mod Rename
pub mod Page
pub mod Attr
pub mod Root
pub mod Contract
pub mod Op
use cogent.Prelude.{
  ℕ, zero, ◌+◌, ◌-◌, ◌%◌, ◌^◌, ◌<◌, ◌≤◌, ◌≡◌, bit_and, bit_or, Bool, true, false, ◌&&◌, not, List,
  [], ◌∷◌, ◌++◌, Option, none, some, ltb, ◌==◌, if◌then◌else◌,
}
use cogent.Types.{Result, ok, err, Errno, enfile}
use cogent.Dentarr.{FileModes}
use cogent.Pack.{Time, VfsFlags, Inode, Object, pack_obj_inode}
use cogent.Store.{Info}

-- What the operations take from the kernel: the file types and the bit S_ISGID of a mode, the link
-- counts of 32 bits, and `ALIGN`.
pub record Kernel : Type 0 where
  pub modes : FileModes
  pub s_isgid : ℕ
  pub inc_nlink : ℕ → ℕ
  pub drop_nlink : ℕ → ℕ
  pub drop-inc : (n : ℕ) → n < 2 ^ 32 → drop_nlink (inc_nlink n) ≡ n
  pub inc-drop : (n : ℕ) → zero < n → n < 2 ^ 32 → inc_nlink (drop_nlink n) ≡ n
  pub align : ℕ → ℕ → ℕ

-- The fields of `struct bilbyfs_info` that the operations use: those of the object store that its
-- index and accounting have are in `ostore`, the others, with the flash, in `rest`.
pub record Bi (σ : Type 0) : Type 0 where
  pub next_inum : ℕ
  pub next_sqnum : ℕ
  pub is_ro : Bool
  pub ostore : Info
  pub rest : σ

-- The object store, for a flash of any kind. A read is limited to a length.
pub record Ostore (σ : Type 0) : Type 0 where
  pub read_obj : Bi σ → ℕ → ℕ → Result Object
  pub write_obj_list : Bi σ → List Object → ℕ → Result (Unit {0}) × Bi σ

-- What of the current process and of the time an operation sees, and which of its requests for
-- memory are granted; `page` is what memory for a page holds when it is granted.
pub record Call : Type 0 where
  pub now : Time
  pub fsuid : ℕ
  pub fsgid : ℕ
  pub mem : ℕ → Bool
  pub page : List ℕ

pub record World (σ : Type 0) : Type 0 where
  pub bi : Bi σ
  pub inodes : ℕ → Inode

abbrev pub root_ino : ℕ
root_ino = 24

abbrev pub last_inum : ℕ
last_inum = 0xFFFFFF00

abbrev pub block_size : ℕ
block_size = 4096

abbrev pub orphan_fl : ℕ
orphan_fl = 1

abbrev pub append_fl : ℕ
append_fl = 2

abbrev pub immutable_fl : ℕ
immutable_fl = 4

-- `i_size += n` and `i_size -= n`, at 64 bits.
abbrev pub add64 : ℕ → ℕ → ℕ
add64 a b = (a + b) % 2 ^ 64

abbrev pub sub64 : ℕ → ℕ → ℕ
sub64 a b = (a + 2 ^ 64 - b) % 2 ^ 64

-- Whether a mode is of the type, `S_ISDIR` and `S_ISREG`.
abbrev pub is_type : FileModes → ℕ → ℕ → Bool
is_type k kind mode = bit_and mode k.s_ifmt == kind

-- `inode->flags & bit` is not zero.
abbrev pub has_fl : ℕ → ℕ → Bool
has_fl flags bit = not (bit_and flags bit == 0)

unfoldable pub set_inode_flags : Inode → Inode
set_inode_flags inode = record inode {
  i_flags = record i_flags {
    s_append = has_fl flags append_fl;
    s_immutable = has_fl flags immutable_fl;
  };
}
  where
    open inode use {i_flags, flags}

module _ {σ : Type 0} where
  -- The new number comes with the state.
  unfoldable pub next_sqnum : Bi σ → ℕ × Bi σ
  next_sqnum bi = let n = (bi.next_sqnum + 1) % 2 ^ 64 in (n, record bi { next_sqnum = n })

  unfoldable pub next_inum : Bi σ → ℕ × Bi σ
  next_inum bi = let n = (bi.next_inum + 1) % 2 ^ 32 in (n, record bi { next_inum = n })

  unfoldable pub ro_mode : Bi σ → Bi σ
  ro_mode bi = record bi { is_ro = true }

  -- A write through a pointer.
  unfoldable pub at : World σ → ℕ → (Inode → Inode) → World σ
  at w p change = record w { inodes = λ q. if q == p then change (w.inodes q) else w.inodes q }

  -- The outcome with what is undone after an error.
  unfoldable pub or_undo :
      (World σ → World σ) → Result (Unit {0}) × World σ → Result (Unit {0}) × World σ
  or_undo undo (ok u, w) = (ok u, w)
  or_undo undo (err e, w) = (err e, undo w)

-- `inode_init_perm`, with the mode of the directory if there is one.
unfoldable pub inode_init_perm : Kernel → Call → Option Inode → ℕ → Inode → Inode
inode_init_perm k call none mode inode = record inode {
  i_uid = call.fsuid;
  i_gid = call.fsgid;
  i_mode = mode % 2 ^ 16;
}
inode_init_perm k call (some dir) mode inode =
    if bit_and dir.i_mode k.s_isgid == 0
    then record inode { i_uid = call.fsuid; i_gid = call.fsgid; i_mode = mode % 2 ^ 16 }
    else record inode {
      i_uid = call.fsuid;
      i_gid = dir.i_gid;
      i_mode =
          (if is_type k.modes k.modes.s_ifdir mode then bit_or mode k.s_isgid else mode) % 2 ^ 16;
    }

-- What `init_inode` sets before it takes a number.
unfoldable pub init_fields : Kernel → Call → Option Inode → ℕ → Inode → Inode
init_fields k call dir mode inode =
    let nocmtime : VfsFlags = record i_flags { s_nocmtime = true } in
    let fresh : Inode = record inode { flags = 0; i_flags = nocmtime } in
    let owned : Inode = inode_init_perm k call dir mode fresh in
    set_inode_flags
      (record owned { i_ctime = call.now; i_atime = call.now; i_mtime = call.now; i_nlink = 1 })
  where
    open inode use {i_flags}

module _ (k : Kernel) {σ : Type 0} (store : Ostore σ) where
  -- The inode at `inode`, for the directory at the pointer `dir`, or for the root.
  unfoldable pub init_inode : Call → World σ → Option ℕ → ℕ → ℕ → Result (Unit {0}) × World σ
  init_inode call w none inode mode =
      let (sqnum, bi) = next_sqnum w.bi in
      let fields = at w inode (init_fields k call none mode) in
      (
        ok tt,
        at (record fields { bi = bi }) inode
            (λ i. record i { i_ino = root_ino; creat_sqnum = sqnum; i_nlink = 2 }),
      )
  init_inode call w (some dir) inode mode =
      let fields = at w inode (init_fields k call (some (w.inodes dir)) mode) in
      if ltb w.bi.next_inum last_inum
      then (let (inum, bi) = next_inum w.bi in
          let (sqnum, bi') = next_sqnum bi in
          (
            ok tt,
            at (record fields { bi = bi' }) inode
                (λ i. record i { i_ino = inum; creat_sqnum = sqnum }),
          ))
      else (err enfile, fields)

  unfoldable pub write_objects : World σ → List Object → ℕ → Result (Unit {0}) × World σ
  write_objects w objs osw_flag =
      let (r, bi) = store.write_obj_list w.bi objs osw_flag in (r, record w { bi = bi })

  -- The objects in the list, the inode and then its directory.
  unfoldable pub trans_commit_inodes :
      World σ → ℕ → ℕ → List Object → ℕ → Result (Unit {0}) × World σ
  trans_commit_inodes w dir inode objs osw_flag =
      write_objects w
        (objs ++ (pack_obj_inode (w.inodes inode) ∷ (pack_obj_inode (w.inodes dir) ∷ []))) osw_flag
