-- ===== src/Pack/RoundTrip.antt =====
-- A packed inode is unpacked.
use cogent.Prelude.{◌%◌, ◌^◌, ◌<◌, ◌≡◌, refl, arith, true}
use cogent.Pack.{Inode, inode_fields, unpack_obj_inode}

-- The fields have the widths of an object.
pub record Fits (i : Inode) : Type 0 where
  pub mode : i.i_mode < 2 ^ 16
  pub nlink : i.i_nlink < 2 ^ 32
  pub uid : i.i_uid < 2 ^ 32
  pub gid : i.i_gid < 2 ^ 32
  pub size : i.i_size < 2 ^ 64
  pub atime : i.i_atime.tv_sec < 2 ^ 64
  pub mtime : i.i_mtime.tv_sec < 2 ^ 64
  pub ctime : i.i_ctime.tv_sec < 2 ^ 64
  pub sqnum : i.creat_sqnum < 2 ^ 64
  pub flags : i.flags < 2 ^ 32

-- The inode `j` with the attributes of `i`; the number and the fractions of a second are its own.
abbrev pub reread : Inode → Inode → Inode
reread j i = record j {
  i_flags = record i_flags { s_nocmtime = true; s_noatime = true };
  i_nlink = i.i_nlink;
  i_uid = i.i_uid;
  i_gid = i.i_gid;
  i_atime = record i_atime { tv_sec = i.i_atime.tv_sec };
  i_mtime = record i_mtime { tv_sec = i.i_mtime.tv_sec };
  i_ctime = record i_ctime { tv_sec = i.i_ctime.tv_sec };
  i_mode = i.i_mode;
  i_size = i.i_size;
  flags = i.flags;
  creat_sqnum = i.creat_sqnum;
}
  where
    open j use {i_flags, i_atime, i_mtime, i_ctime}

pub unpack-pack : (j i : Inode) → Fits i → unpack_obj_inode j (inode_fields i) ≡ reread j i
unfolding unpack_obj_inode
unpack-pack j i h =
    let nlink : i.i_nlink % 2 ^ 32 ≡ i.i_nlink = omega (arith, h.nlink) in
    let uid : i.i_uid % 2 ^ 32 ≡ i.i_uid = omega (arith, h.uid) in
    let gid : i.i_gid % 2 ^ 32 ≡ i.i_gid = omega (arith, h.gid) in
    let mode : i.i_mode % 2 ^ 32 % 2 ^ 16 ≡ i.i_mode = omega (arith, h.mode) in
    let size : i.i_size % 2 ^ 64 ≡ i.i_size = omega (arith, h.size) in
    let atime : i.i_atime.tv_sec % 2 ^ 64 ≡ i.i_atime.tv_sec = omega (arith, h.atime) in
    let mtime : i.i_mtime.tv_sec % 2 ^ 64 ≡ i.i_mtime.tv_sec = omega (arith, h.mtime) in
    let ctime : i.i_ctime.tv_sec % 2 ^ 64 ≡ i.i_ctime.tv_sec = omega (arith, h.ctime) in
    let sqnum : i.creat_sqnum % 2 ^ 64 ≡ i.creat_sqnum = omega (arith, h.sqnum) in
    let flags : i.flags % 2 ^ 32 ≡ i.flags = omega (arith, h.flags) in
    rw (nlink, uid, gid, mode, size, atime, mtime, ctime, sqnum, flags) refl
