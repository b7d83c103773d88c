-- ===== src/Fsop/Name.antt =====
-- impl/fs/bilby/c/fsop.c: the operations that look names up and add them. The request for memory
-- number 0 is that of `dentarr_read`, 1 that of `dentarr_read_or_create`, and 2 that of the
-- operation itself.
pub mod Found
use cogent.Prelude.{
  ℕ, ◌+◌, Bool, true, false, not, List, [], ◌∷◌, Option, none, some, length, ltb, bit_or,
  if◌then◌else◌,
}
use cogent.Types.{Result, ok, err, Errno, einval, enomem, erofs, enametoolong, osw_none}
use cogent.Ids.{dentarr_id_init, data_id_init}
use cogent.Dentarr.{Dentry, Dentarr, dentarr_lookup_nm, dentarr_add_dentry}
use cogent.Rdx.{max_nlen, max_dentarr_sz, dentarr_read, dentarr_read_or_create}
use cogent.Pack.{Inode, Object, obj_inode, obj_dentarr, obj_data, obj_del, pack_obj_data}
use cogent.Fsop.{
  Kernel, Bi, Ostore, Call, World, add64, sub64, block_size, at, or_undo, init_inode,
  trans_commit_inodes,
}

-- The array that a read put into the buffer.
abbrev pub array_of : Result Object → Result Dentarr
array_of (err e) = err e
array_of (ok (obj_dentarr dentarr)) = ok dentarr
array_of (ok other_object) = err einval

-- `sizeof(struct obj_data)`, and the limit of a data object.
abbrev pub data_sz : ℕ
data_sz = 40

abbrev pub max_data_sz : ℕ
max_data_sz = data_sz + block_size

unfoldable pub obj_data_size_with_data : ℕ → ℕ
obj_data_size_with_data data_size = data_sz + data_size

-- The changes of a directory whose entries grow by so many bytes, and back to the old times.
abbrev pub grow : ℕ → Inode → Inode → Inode
grow sz_change inode dir = record dir {
  i_size = add64 i_size sz_change;
  i_mtime = inode.i_ctime;
  i_ctime = inode.i_ctime;
}
  where
    open dir use {i_size}

abbrev pub shrink_back : ℕ → Inode → Inode → Inode
shrink_back sz_change old dir = record dir {
  i_size = sub64 i_size sz_change;
  i_mtime = old.i_mtime;
  i_ctime = old.i_ctime;
}
  where
    open dir use {i_size}

abbrev pub ino_of : Result Dentry → Result ℕ
ino_of (err e) = err e
ino_of (ok de) = ok de.ino

abbrev pub added_result : Option (ℕ × Dentarr) → Option (Result (ℕ × Dentarr))
added_result none = none
added_result (some out) = some (ok out)

module _ (k : Kernel) {σ : Type 0} (store : Ostore σ) where
  -- What a read of the array with this id puts into the buffer.
  unfoldable pub read_array : World σ → ℕ → Result Dentarr
  read_array w id = array_of (store.read_obj w.bi id max_dentarr_sz)

  unfoldable pub dir_lookup_nm : Call → World σ → ℕ → List ℕ → Result Dentry
  dir_lookup_nm call w dir name =
      elim (dentarr_read (call.mem 0) (read_array w (dentarr_id_init (w.inodes dir).i_ino name))) [
        | err e ↦ err e
        | ok dentarr ↦ dentarr_lookup_nm dentarr name
      ]

  unfoldable pub fsop_lookup : Call → World σ → ℕ → List ℕ → Result ℕ
  fsop_lookup call w dir name =
      if ltb max_nlen (length name)
      then err enametoolong
      else if not (call.mem 2)
      then err enomem
      else ino_of (dir_lookup_nm call w dir name)

  unfoldable pub array_for : Call → World σ → ℕ → List ℕ → Result Dentarr
  array_for call w dir name =
      let id = dentarr_id_init (w.inodes dir).i_ino name in
      dentarr_read_or_create (call.mem 0) (call.mem 1) id (read_array w id)

  -- The array for the name with its new entry, and the change of size.
  unfoldable pub add_name : Call → World σ → ℕ → ℕ → List ℕ → Option (Result (ℕ × Dentarr))
  add_name call w dir inode name = elim (array_for call w dir name) [
    | err e ↦ some (err e)
    | ok dentarr ↦
        added_result
          (dentarr_add_dentry k.modes dentarr (w.inodes inode).i_ino (w.inodes inode).i_mode name)
  ]

  -- From the change of the link count on.
  unfoldable pub link_added :
      Call → World σ → ℕ → ℕ → Option (Result (ℕ × Dentarr)) → Option (Result (Unit {0}) × World σ)
  link_added call w inode dir none = none
  link_added call w inode dir (some (err e)) = some (err e, w)
  link_added call w inode dir (some (ok (sz_change, dentarr))) =
      let linked =
        at w inode (λ i. record i { i_nlink = k.inc_nlink i.i_nlink; i_ctime = call.now }) in
      let grown = at linked dir (grow sz_change (linked.inodes inode)) in
      some (
        or_undo
          (λ w'.
            at (at w' dir (shrink_back sz_change (linked.inodes dir))) inode
              (λ i. record i { i_nlink = k.drop_nlink i.i_nlink }))
          (trans_commit_inodes k store grown dir inode (obj_dentarr dentarr ∷ []) osw_none))

  unfoldable pub fsop_link : Call → World σ → ℕ → ℕ → List ℕ → Option (Result (Unit {0}) × World σ)
  fsop_link call w inode dir name =
      if w.bi.is_ro
      then some (err erofs, w)
      else link_added call w inode dir (add_name call w dir inode name)

  -- From the write of the array on: what `fsop_create` and `fsop_symlink` have in common, with the
  -- objects that they write.
  unfoldable pub commit_entry : World σ → ℕ → ℕ → ℕ → List Object → Result (Unit {0}) × World σ
  commit_entry w dir inode sz_change objs =
      let grown = at w dir (grow sz_change (w.inodes inode)) in
      or_undo (λ w'. at w' dir (shrink_back sz_change (w.inodes dir)))
        (trans_commit_inodes k store grown dir inode objs osw_none)

  unfoldable pub create_added :
      World σ → ℕ → ℕ → Option (Result (ℕ × Dentarr)) → Option (Result (Unit {0}) × World σ)
  create_added w dir inode none = none
  create_added w dir inode (some (err e)) = some (err e, w)
  create_added w dir inode (some (ok (sz_change, dentarr))) =
      some (commit_entry w dir inode sz_change (obj_dentarr dentarr ∷ []))

  -- The rest of an operation where `init_inode` succeeds.
  unfoldable pub then_run :
      Result (Unit {0}) × World σ
      → (World σ → Option (Result (Unit {0}) × World σ))
      → Option (Result (Unit {0}) × World σ)
  then_run (err e, w) rest = some (err e, w)
  then_run (ok u, w) rest = rest w

  unfoldable pub with_inode :
      Call
      → World σ
      → ℕ
      → ℕ
      → ℕ
      → (World σ → Option (Result (Unit {0}) × World σ))
      → Option (Result (Unit {0}) × World σ)
  with_inode call w dir inode mode rest =
      then_run (init_inode k store call w (some dir) inode mode) rest

  unfoldable pub fsop_create :
      Call → World σ → ℕ → List ℕ → ℕ → ℕ → Option (Result (Unit {0}) × World σ)
  fsop_create call w dir name mode inode =
      if w.bi.is_ro
      then some (err erofs, w)
      else with_inode call w dir inode (bit_or k.modes.s_ifreg mode)
          (λ w'. create_added w' dir inode (add_name call w' dir inode name))

  -- The link counts of a new directory and of its parent grow, and only the latter is undone.
  unfoldable pub mkdir_added :
      World σ → ℕ → ℕ → Option (Result (ℕ × Dentarr)) → Option (Result (Unit {0}) × World σ)
  mkdir_added w dir inode none = none
  mkdir_added w dir inode (some (err e)) = some (err e, w)
  mkdir_added w dir inode (some (ok (sz_change, dentarr))) =
      let linked = at w inode (λ i. record i { i_nlink = k.inc_nlink i.i_nlink }) in
      let counted = at linked dir (λ i. record i { i_nlink = k.inc_nlink i.i_nlink }) in
      let grown = at counted dir (grow sz_change (counted.inodes inode)) in
      some (
        or_undo
          (λ w'.
            at (at w' dir (shrink_back sz_change (counted.inodes dir))) dir
              (λ i. record i { i_nlink = k.drop_nlink i.i_nlink }))
          (trans_commit_inodes k store grown dir inode (obj_dentarr dentarr ∷ []) osw_none))

  unfoldable pub fsop_mkdir :
      Call → World σ → ℕ → List ℕ → ℕ → ℕ → Option (Result (Unit {0}) × World σ)
  fsop_mkdir call w dir name mode inode =
      if w.bi.is_ro
      then some (err erofs, w)
      else with_inode call w dir inode (bit_or k.modes.s_ifdir mode)
          (λ w'. mkdir_added w' dir inode (add_name call w' dir inode name))

  -- The size of a link is set to that of its object and not undone.
  unfoldable pub symlink_added :
      Call
      → World σ
      → ℕ
      → ℕ
      → List ℕ
      → Option (Result (ℕ × Dentarr))
      → Option (Result (Unit {0}) × World σ)
  symlink_added call w dir inode symname none = none
  symlink_added call w dir inode symname (some (err e)) = some (err e, w)
  symlink_added call w dir inode symname (some (ok (sz_change, dentarr))) =
      if not (call.mem 2)
      then some (err enomem, w)
      else (let target = pack_obj_data (data_id_init (w.inodes inode).i_ino 0) symname in
          let sized =
            at w inode (λ i. record i { i_size = obj_data_size_with_data (length symname) }) in
          some (commit_entry sized dir inode sz_change (obj_dentarr dentarr ∷ (target ∷ []))))

  -- The permissions are S_IRWXUGO.
  unfoldable pub fsop_symlink :
      Call → World σ → ℕ → List ℕ → List ℕ → ℕ → Option (Result (Unit {0}) × World σ)
  fsop_symlink call w dir name symname inode =
      if w.bi.is_ro
      then some (err erofs, w)
      else if ltb max_data_sz (obj_data_size_with_data (length symname))
      then some (err enametoolong, w)
      else with_inode call w dir inode (bit_or k.modes.s_iflnk 511)
          (λ w'. symlink_added call w' dir inode symname (add_name call w' dir inode name))
