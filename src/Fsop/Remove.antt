-- ===== src/Fsop/Remove.antt =====
-- impl/fs/bilby/c/fsop.c: the operations that remove names. The request for memory number 0 is that
-- of `dentarr_read`, and 2 that of `dentarr_del_dentry`; 3 is that of the array that
-- `check_dir_empty` reads.
use cogent.Prelude.{ℕ, List, [], ◌∷◌, Option, none, some, bit_or, ◌==◌, if◌then◌else◌}
use cogent.Types.{Result, ok, err, enoent, enotempty, erofs, osw_del}
use cogent.Ids.{dentarr_id_init}
use cogent.Dentarr.{Dentry}
use cogent.Dentarr.Delete.{DentarrBuf, dentarr_del_dentry}
use cogent.Rdx.{FsopReaddirCtx, dentarr_read, rdx_init, rdx_next_dentry}
use cogent.Pack.{Inode, buf_object}
use cogent.Fsop.{
  Kernel, Ostore, Call, World, add64, sub64, orphan_fl, at, or_undo, trans_commit_inodes,
}
use cogent.Fsop.Name.{read_array}

abbrev pub shrink : ℕ → Inode → Inode → Inode
shrink sz_change inode dir = record dir {
  i_size = sub64 i_size sz_change;
  i_mtime = inode.i_ctime;
  i_ctime = inode.i_ctime;
}
  where
    open dir use {i_size}

-- The orphan flag, set.
abbrev pub orphan : Inode → Inode
orphan inode = record inode { flags = bit_or flags orphan_fl }
  where
    open inode use {flags}

-- Whether the listing of a directory came to its end at once. Any other error counts as an entry.
abbrev pub empty_answer : Result (List Dentry) × FsopReaddirCtx → Result (Unit {0})
empty_answer (err enoent, rdx) = ok tt
empty_answer (err e, rdx) = err enotempty
empty_answer (ok des, rdx) = err enotempty

abbrev pub empty_from : Option (Result (List Dentry) × FsopReaddirCtx) → Option (Result (Unit {0}))
empty_from none = none
empty_from (some out) = some (empty_answer out)

-- The inode after its name is gone.
abbrev pub unlinked : Kernel → Call → Inode → Inode
unlinked k call inode =
    let dropped : Inode = record inode { i_ctime = call.now; i_nlink = k.drop_nlink i_nlink } in
    if dropped.i_nlink == 0 then orphan dropped else dropped
  where
    open inode use {i_nlink}

module _ (k : Kernel) {σ : Type 0} (store : Ostore σ) where
  unfoldable pub check_dir_empty : ℕ → Call → World σ → ℕ → Option (Result (Unit {0}))
  check_dir_empty fuel call w dir = empty_from (
      rdx_next_dentry (call.mem 3) (read_array k store w) w.bi.ostore fuel
        (rdx_init (w.inodes dir).i_ino))

  -- The buffer without the name, and the change of size.
  unfoldable pub del_name : Call → World σ → ℕ → List ℕ → Option (Result (ℕ × DentarrBuf))
  del_name call w dir name =
      elim (dentarr_read (call.mem 0)
        (read_array k store w (dentarr_id_init (w.inodes dir).i_ino name))) [
          | err e ↦ some (err e)
          | ok dentarr ↦ dentarr_del_dentry (call.mem 2) dentarr name
        ]

  -- An error brings back the size of the directory and the link count.
  unfoldable pub unlink_deleted :
      Call
      → World σ
      → ℕ
      → ℕ
      → Option (Result (ℕ × DentarrBuf))
      → Option (Result (Unit {0}) × World σ)
  unlink_deleted call w dir inode none = none
  unlink_deleted call w dir inode (some (err e)) = some (err e, w)
  unlink_deleted call w dir inode (some (ok (sz_change, buf))) =
      let saved_nlink = (w.inodes inode).i_nlink in
      let dropped = at w inode (unlinked k call) in
      let shrunk = at dropped dir (shrink sz_change (dropped.inodes inode)) in
      some (
        or_undo
          (λ w'.
            at (at w' dir (λ i. record i { i_size = add64 i.i_size sz_change })) inode
              (λ i. record i { i_nlink = saved_nlink }))
          (trans_commit_inodes k store shrunk dir inode (buf_object buf ∷ []) osw_del))

  unfoldable pub fsop_unlink :
      Call → World σ → ℕ → List ℕ → ℕ → Option (Result (Unit {0}) × World σ)
  fsop_unlink call w dir name inode =
      if w.bi.is_ro
      then some (err erofs, w)
      else unlink_deleted call w dir inode (del_name call w dir name)

  unfoldable pub rmdir_deleted :
      Call
      → World σ
      → ℕ
      → ℕ
      → Option (Result (ℕ × DentarrBuf))
      → Option (Result (Unit {0}) × World σ)
  rmdir_deleted call w dir inode none = none
  rmdir_deleted call w dir inode (some (err e)) = some (err e, w)
  rmdir_deleted call w dir inode (some (ok (sz_change, buf))) =
      let cleared = at w inode (λ i. orphan (record i { i_ctime = call.now; i_nlink = 0 })) in
      let counted = at cleared dir (λ i. record i { i_nlink = k.drop_nlink i.i_nlink }) in
      let shrunk = at counted dir (shrink sz_change (counted.inodes inode)) in
      let old = counted.inodes dir in
      some (
        or_undo
          (λ w'.
            at
              (at w' dir (λ i. record i {
                i_size = add64 i.i_size sz_change;
                i_mtime = old.i_mtime;
                i_ctime = old.i_ctime;
                i_nlink = k.inc_nlink i.i_nlink;
              }))
              inode (λ i. record i { i_nlink = 2 }))
          (trans_commit_inodes k store shrunk dir inode (buf_object buf ∷ []) osw_del))

  unfoldable pub rmdir_checked :
      Call
      → World σ
      → ℕ
      → List ℕ
      → ℕ
      → Option (Result (Unit {0}))
      → Option (Result (Unit {0}) × World σ)
  rmdir_checked call w dir name inode none = none
  rmdir_checked call w dir name inode (some (err e)) = some (err e, w)
  rmdir_checked call w dir name inode (some (ok u)) =
      rmdir_deleted call w dir inode (del_name call w dir name)

  -- The fuel is for the arrays that `check_dir_empty` goes through.
  unfoldable pub fsop_rmdir :
      ℕ → Call → World σ → ℕ → List ℕ → ℕ → Option (Result (Unit {0}) × World σ)
  fsop_rmdir fuel call w dir name inode =
      if w.bi.is_ro
      then some (err erofs, w)
      else rmdir_checked call w dir name inode (check_dir_empty fuel call w inode)
