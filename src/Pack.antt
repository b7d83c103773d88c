-- ===== src/Pack.antt =====
-- impl/fs/bilby/c/packobj.c, and the inodes in memory of bilbyfs.h: an object is a record of the
-- fields of its struct, each cut to the width of its little-endian field. The header is left out:
-- its type is the constructor, and its length is that of the object, rounded up.
pub mod RoundTrip
use cogent.Prelude.{ℕ, ◌+◌, ◌%◌, ◌^◌, Bool, true, List, length}
use cogent.Ids.{inode_id_init}
use cogent.Dentarr.{Dentarr}
use cogent.Dentarr.Delete.{DentarrBuf, entries, removed}

-- `struct timespec64`.
pub record Time : Type 0 where
  pub tv_sec : ℕ
  pub tv_nsec : ℕ

-- The bits of `i_flags` that the file system touches.
pub record VfsFlags : Type 0 where
  pub s_append : Bool
  pub s_immutable : Bool
  pub s_nocmtime : Bool
  pub s_noatime : Bool

-- `struct bilbyfs_inode` with the `struct inode` in it.
pub record Inode : Type 0 where
  pub i_ino : ℕ
  pub i_mode : ℕ
  pub i_nlink : ℕ
  pub i_uid : ℕ
  pub i_gid : ℕ
  pub i_size : ℕ
  pub i_atime : Time
  pub i_mtime : Time
  pub i_ctime : Time
  pub i_flags : VfsFlags
  pub creat_sqnum : ℕ
  pub flags : ℕ

-- `struct obj_inode`.
pub record ObjInode : Type 0 where
  pub id : ℕ
  pub creat_sqnum : ℕ
  pub size : ℕ
  pub atime_sec : ℕ
  pub ctime_sec : ℕ
  pub mtime_sec : ℕ
  pub nlink : ℕ
  pub uid : ℕ
  pub gid : ℕ
  pub mode : ℕ
  pub flags : ℕ

-- `struct obj_data`, with the bytes behind it.
pub record ObjData : Type 0 where
  pub id : ℕ
  pub size : ℕ
  pub bytes : List ℕ

pub data Object : Type 0 where
  obj_inode : ObjInode → Object
  obj_dentarr : Dentarr → Object
  obj_data : ObjData → Object
  obj_del : ℕ → Object

-- The object that a buffer for an array holds.
unfoldable pub buf_object : DentarrBuf → Object
buf_object (entries dentarr) = obj_dentarr dentarr
buf_object (removed id) = obj_del id

-- The fields of a packed inode.
abbrev pub inode_fields : Inode → ObjInode
inode_fields inode = record {
  id = inode_id_init inode.i_ino;
  creat_sqnum = inode.creat_sqnum % 2 ^ 64;
  size = inode.i_size % 2 ^ 64;
  atime_sec = inode.i_atime.tv_sec % 2 ^ 64;
  ctime_sec = inode.i_ctime.tv_sec % 2 ^ 64;
  mtime_sec = inode.i_mtime.tv_sec % 2 ^ 64;
  nlink = inode.i_nlink % 2 ^ 32;
  uid = inode.i_uid % 2 ^ 32;
  gid = inode.i_gid % 2 ^ 32;
  mode = inode.i_mode % 2 ^ 32;
  flags = inode.flags % 2 ^ 32;
}

unfoldable pub pack_obj_inode : Inode → Object
pack_obj_inode inode = obj_inode (inode_fields inode)

-- `i_mode` has 16 bits. The number of the inode is not read.
unfoldable pub unpack_obj_inode : Inode → ObjInode → Inode
unpack_obj_inode inode ino = record inode {
  i_flags = record i_flags { s_nocmtime = true; s_noatime = true };
  i_nlink = ino.nlink;
  i_uid = ino.uid;
  i_gid = ino.gid;
  i_atime = record i_atime { tv_sec = ino.atime_sec };
  i_mtime = record i_mtime { tv_sec = ino.mtime_sec };
  i_ctime = record i_ctime { tv_sec = ino.ctime_sec };
  i_mode = ino.mode % 2 ^ 16;
  i_size = ino.size;
  flags = ino.flags;
  creat_sqnum = ino.creat_sqnum;
}
  where
    open inode use {i_flags, i_atime, i_mtime, i_ctime}

-- For the first `sz_data` of the bytes at `data`.
unfoldable pub pack_obj_data : ℕ → List ℕ → Object
pack_obj_data id bytes = obj_data (record { id = id; size = length bytes % 2 ^ 32; bytes = bytes })

unfoldable pub pack_obj_del : ℕ → Object
pack_obj_del id = obj_del id
