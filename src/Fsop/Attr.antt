-- ===== src/Fsop/Attr.antt =====
-- impl/fs/bilby/c/fsop.c: attributes of an inode, its size, and its end. The request for memory
-- number 2 is that of `fsop_truncate`.
use cogent.Prelude.{
  ℕ, ◌-◌, ◌/◌, ◌&&◌, not, List, [], ◌∷◌, ◌++◌, Option, none, some, take, ltb, ◌==◌, if◌then◌else◌,
}
use cogent.Types.{Result, ok, err, enomem, erofs, osw_none, osw_del}
use cogent.Ids.{inode_id_init, data_id_init}
use cogent.Pack.{Time, Inode, Object, pack_obj_inode, pack_obj_data, pack_obj_del}
use cogent.Fsop.{Kernel, Ostore, Call, World, block_size, is_type, at, or_undo, write_objects}
use cogent.Fsop.Rename.{restore}
use cogent.Fsop.Page.{fsop_readpage}

-- `struct iattr`: a field is given where its bit of `ia_valid` is set.
pub record Iattr : Type 0 where
  pub ia_size : Option ℕ
  pub ia_uid : Option ℕ
  pub ia_gid : Option ℕ
  pub ia_atime : Option Time
  pub ia_mtime : Option Time
  pub ia_ctime : Option Time
  pub ia_mode : Option ℕ

-- `struct kstat`.
pub record Kstat : Type 0 where
  pub ino : ℕ
  pub mode : ℕ
  pub nlink : ℕ
  pub uid : ℕ
  pub gid : ℕ
  pub size : ℕ
  pub atime : Time
  pub mtime : Time
  pub ctime : Time
  pub blksize : ℕ
  pub blocks : ℕ

abbrev pub given_or {ℓ} : {A : Type ℓ} → A → Option A → A
given_or old none = old
given_or old (some new) = new

-- The attributes that are given, in place of the old ones.
unfoldable pub set_attrs : Iattr → Inode → Inode
set_attrs attr inode = record inode {
  i_uid = given_or i_uid attr.ia_uid;
  i_gid = given_or i_gid attr.ia_gid;
  i_atime = given_or i_atime attr.ia_atime;
  i_mtime = given_or i_mtime attr.ia_mtime;
  i_ctime = given_or i_ctime attr.ia_ctime;
  i_mode = given_or i_mode attr.ia_mode;
}
  where
    open inode use {i_uid, i_gid, i_atime, i_mtime, i_ctime, i_mode}

unfoldable pub fsop_getattr : Kernel → Inode → Kstat
fsop_getattr k inode = record {
  ino = inode.i_ino;
  mode = inode.i_mode;
  nlink = inode.i_nlink;
  uid = inode.i_uid;
  gid = inode.i_gid;
  size = inode.i_size;
  atime = inode.i_atime;
  mtime = inode.i_mtime;
  ctime = inode.i_ctime;
  blksize = block_size;
  blocks =
      if is_type k.modes k.modes.s_ifreg inode.i_mode
      then k.align inode.i_size block_size / 512
      else 0;
}

module _ (k : Kernel) {σ : Type 0} (store : Ostore σ) where
  unfoldable pub fsop_write_inode : World σ → ℕ → Result (Unit {0}) × World σ
  fsop_write_inode w inode = write_objects k store w (pack_obj_inode (w.inodes inode) ∷ []) osw_none

  -- The deletion of the blocks behind the new size, and the write, with the objects before it.
  unfoldable pub write_truncated :
      World σ → World σ → ℕ → ℕ → List Object → Result (Unit {0}) × World σ
  write_truncated w sized inode new_aligned_size objs =
      let old = w.inodes inode in
      let deletes = ltb new_aligned_size old.i_size in
      let del =
        if deletes
        then pack_obj_del (data_id_init old.i_ino (new_aligned_size / block_size)) ∷ []
        else [] in
      or_undo
        (λ w'.
          at w' inode
            (λ i. record i { i_size = old.i_size; i_mtime = old.i_mtime; i_ctime = old.i_ctime }))
        (write_objects k store sized (objs ++ (del ++ (pack_obj_inode (sized.inodes inode) ∷ [])))
          (if deletes then osw_del else 0))

  -- The last block, which is written again up to the new size.
  unfoldable pub last_block_read :
      World σ → World σ → ℕ → ℕ → ℕ → Result (Unit {0}) × List ℕ → Result (Unit {0}) × World σ
  last_block_read w sized inode new_size new_aligned_size (err e, page) = (err e, sized)
  last_block_read w sized inode new_size new_aligned_size (ok u, page) =
      write_truncated w sized inode new_aligned_size (
        pack_obj_data (data_id_init (w.inodes inode).i_ino (new_size / block_size))
          (take (new_size - (new_aligned_size - block_size)) page)
        ∷ [])

  -- An error before the write leaves the new size and times.
  unfoldable pub fsop_truncate : Call → World σ → ℕ → ℕ → Result (Unit {0}) × World σ
  fsop_truncate call w inode new_size =
      let sized =
        at w inode (λ i. record i { i_ctime = call.now; i_mtime = call.now; i_size = new_size }) in
      let new_aligned_size = k.align new_size block_size in
      if not (new_size == new_aligned_size) && ltb new_size (w.inodes inode).i_size
      then (if not (call.mem 2)
          then (err enomem, sized)
          else last_block_read w sized inode new_size new_aligned_size
              (fsop_readpage k store sized inode (new_size / block_size) call.page))
      else write_truncated w sized inode new_aligned_size []

  unfoldable pub fsop_do_setattr : World σ → ℕ → Iattr → Result (Unit {0}) × World σ
  fsop_do_setattr w inode attr =
      or_undo (λ w'. at w' inode (restore (w.inodes inode)))
        (fsop_write_inode (at w inode (set_attrs attr)) inode)

  unfoldable pub set_given : Call → World σ → ℕ → Iattr → Option ℕ → Result (Unit {0}) × World σ
  set_given call w inode attr none = fsop_do_setattr w inode attr
  set_given call w inode attr (some size) = fsop_truncate call w inode size

  unfoldable pub fsop_setattr : Call → World σ → ℕ → Iattr → Result (Unit {0}) × World σ
  fsop_setattr call w inode attr =
      if w.bi.is_ro then (err erofs, w) else set_given call w inode attr attr.ia_size

  -- The deletion object covers all objects of the inode; an error is only reported.
  unfoldable pub fsop_evict_inode : World σ → ℕ → World σ
  fsop_evict_inode w inode =
      if w.bi.is_ro
      then w
      else if (w.inodes inode).i_nlink == 0
      then (let (r, w') =
            write_objects k store w (pack_obj_del (inode_id_init (w.inodes inode).i_ino) ∷ [])
              osw_none in
          w')
      else w
