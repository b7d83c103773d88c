-- ===== src/Fsop/Rename.antt =====
-- impl/fs/bilby/c/fsop.c: `fsop_rename` and `bilbyfs_do_rename`. The pointers of the old and the new
-- directory may be the same, and so may the buffers of the old and the new array. The requests for
-- memory number 0 and 1 are those of the old array, 4 and 5 those of the new one, 2 and 6 those of
-- the two removals, and 7 that of the backup.
pub mod Parties
pub mod Backup
pub mod Undone
use cogent.Prelude.{
  ℕ, ◌+◌, ◌-◌, ◌%◌, ◌^◌, Bool, true, false, not, List, [], ◌∷◌, ◌++◌, Option, none, some, ◌==◌,
  if◌then◌else◌,
}
use cogent.Types.{Result, ok, err, Errno, enomem, erofs, osw_none}
use cogent.Ids.{dentarr_id_init}
use cogent.Dentarr.{Dentarr, dentarr_add_dentry}
use cogent.Dentarr.Delete.{DentarrBuf, entries, as_dentarr, dentarr_del_dentry}
use cogent.Rdx.{dentarr_read_or_create}
use cogent.Pack.{Inode, Object, obj_dentarr, buf_object, pack_obj_inode}
use cogent.Fsop.{Kernel, Ostore, Call, World, sub64, is_type, at, or_undo, write_objects}
use cogent.Fsop.Name.{read_array}
use cogent.Fsop.Remove.{orphan, check_dir_empty}

-- What an operation on a buffer gives: its result, and the buffer, which an error leaves as it is.
abbrev pub kept : DentarrBuf → Result (ℕ × DentarrBuf) → Result ℕ × DentarrBuf
kept buf (err e) = (err e, buf)
kept buf (ok (n, buf')) = (ok n, buf')

unfoldable pub del_in : Bool → List ℕ → DentarrBuf → Option (Result ℕ × DentarrBuf)
del_in granted name buf = elim (dentarr_del_dentry granted (as_dentarr buf) name) [
  | none ↦ none
  | some r ↦ some (kept buf r)
]

-- The results of the two removals and of the addition, and the two buffers; `shared` says that
-- there is only one, which is then both.
pub record Renamed : Type 0 where
  pub old_change : Result ℕ
  pub new_change : Result ℕ
  pub added : ℕ
  pub old_buf : DentarrBuf
  pub new_dentarr : Dentarr

abbrev pub is_some : Option ℕ → Bool
is_some none = false
is_some (some p) = true

-- The backup is a copy of `struct inode`, which the fields of BilbyFs lie behind.
abbrev pub restore : Inode → Inode → Inode
restore old inode = record old { creat_sqnum = inode.creat_sqnum; flags = inode.flags }

module _ (k : Kernel) where
  unfoldable pub add_renamed :
      Bool → Inode → List ℕ → DentarrBuf → Result ℕ → Result ℕ × DentarrBuf → Option Renamed
  add_renamed shared inode new_name old_buf old_change (new_change, new_buf) =
      elim (dentarr_add_dentry k.modes (as_dentarr new_buf) inode.i_ino inode.i_mode new_name) [
        | none ↦ none
        | some (n, dentarr) ↦ some (record {
          old_change = old_change;
          new_change = new_change;
          added = n;
          old_buf = if shared then entries dentarr else old_buf;
          new_dentarr = dentarr;
        })
      ]

  -- The new name is removed if an inode has it.
  unfoldable pub del_new :
      Call → Bool → Inode → List ℕ → Bool → Dentarr → Result ℕ × DentarrBuf → Option Renamed
  del_new call shared inode new_name replaces new_dentarr (old_change, old_buf) =
      let new_buf = if shared then old_buf else entries new_dentarr in
      elim (if replaces then del_in (call.mem 6) new_name new_buf else some (ok 0, new_buf)) [
        | none ↦ none
        | some out ↦ add_renamed shared inode new_name old_buf old_change out
      ]

  unfoldable pub rename_entries :
      Call → Inode → List ℕ → List ℕ → Bool → Bool → Dentarr → Dentarr → Option Renamed
  rename_entries call inode old_name new_name replaces shared old_dentarr new_dentarr =
      elim (del_in (call.mem 2) old_name (entries old_dentarr)) [
        | none ↦ none
        | some out ↦ del_new call shared inode new_name replaces new_dentarr out
      ]

module _ (k : Kernel) {σ : Type 0} (store : Ostore σ) where
  unfoldable pub read_or_create : Bool → Bool → World σ → ℕ → Result Dentarr
  read_or_create granted granted' w id =
      dentarr_read_or_create granted granted' id (read_array k store w id)

  -- `obj_list`, and the inodes with the sizes of the directories and the flag of the replaced one.
  abbrev pub orphan_new : World σ → Option ℕ → World σ
  orphan_new w none = w
  orphan_new w (some new_inode) = at w new_inode orphan

  abbrev pub replaced_obj : World σ → Option ℕ → List Object
  replaced_obj w none = []
  replaced_obj w (some new_inode) = pack_obj_inode (w.inodes new_inode) ∷ []

  unfoldable pub commit_rename :
      World σ → ℕ → ℕ → ℕ → Option ℕ → ℕ → ℕ → Renamed → Result (Unit {0}) × World σ
  commit_rename w old_dir old_inode new_dir new_inode old_change new_change r =
      let shrunk = at w old_dir (λ i. record i { i_size = sub64 i.i_size old_change }) in
      let grown =
        at shrunk new_dir
          (λ i. record i { i_size = (i.i_size + r.added + 2 ^ 64 - new_change) % 2 ^ 64 }) in
      let orphaned = orphan_new grown new_inode in
      let second =
        if (as_dentarr r.old_buf).id == r.new_dentarr.id
        then []
        else obj_dentarr r.new_dentarr ∷ [] in
      write_objects k store orphaned
        ((buf_object r.old_buf ∷ second)
          ++ (pack_obj_inode (grown.inodes old_dir)
              ∷ (replaced_obj orphaned new_inode
                  ++ (pack_obj_inode (orphaned.inodes new_dir)
                      ∷ (pack_obj_inode (orphaned.inodes old_inode) ∷ [])))))
        osw_none

  unfoldable pub renamed :
      World σ → ℕ → ℕ → ℕ → Option ℕ → Renamed → Result ℕ → Result ℕ → Result (Unit {0}) × World σ
  renamed w old_dir old_inode new_dir new_inode r (err e) new_change = (err e, w)
  renamed w old_dir old_inode new_dir new_inode r (ok n) (err e) = (err e, w)
  renamed w old_dir old_inode new_dir new_inode r (ok n) (ok m) =
      commit_rename w old_dir old_inode new_dir new_inode n m r

  -- Where the new array cannot be read, the cache is freed with the error pointer in it.
  unfoldable pub with_new :
      Call
      → World σ
      → ℕ
      → List ℕ
      → ℕ
      → ℕ
      → List ℕ
      → Option ℕ
      → Bool
      → Dentarr
      → Result Dentarr
      → Option (Result (Unit {0}) × World σ)
  with_new call w old_dir old_name old_inode new_dir new_name new_inode shared old_dentarr (err e) =
      none
  with_new call w old_dir old_name old_inode new_dir new_name new_inode shared old_dentarr
        (ok new_dentarr) =
      elim (rename_entries k call (w.inodes old_inode) old_name new_name (is_some new_inode) shared
        old_dentarr new_dentarr) [
          | none ↦ none
          | some r ↦
              some (renamed w old_dir old_inode new_dir new_inode r r.old_change r.new_change)
        ]

  -- Where the old array cannot be read, the cache reads an id through the error pointer.
  unfoldable pub do_rename :
      Call → World σ → ℕ → List ℕ → ℕ → ℕ → List ℕ → Option ℕ → Option (Result (Unit {0}) × World σ)
  do_rename call w old_dir old_name old_inode new_dir new_name new_inode =
      let old_id = dentarr_id_init (w.inodes old_dir).i_ino old_name in
      let new_id = dentarr_id_init (w.inodes new_dir).i_ino new_name in
      elim (read_or_create (call.mem 0) (call.mem 1) w old_id) [
        | err e ↦ none
        | ok old_dentarr ↦
            let shared = old_dentarr.id == new_id in
            with_new call w old_dir old_name old_inode new_dir new_name new_inode shared old_dentarr
              (if shared then ok old_dentarr else read_or_create (call.mem 4) (call.mem 5) w new_id)
      ]

  -- The link counts and times before the entries are touched.
  unfoldable pub unlink_new : Bool → World σ → ℕ → Option ℕ → World σ
  unlink_new is_dir w new_dir none = w
  unlink_new true w new_dir (some new_inode) =
      at (at w new_inode (λ i. record i { i_nlink = 0 })) new_dir
        (λ i. record i { i_nlink = k.drop_nlink i.i_nlink })
  unlink_new false w new_dir (some new_inode) =
      at w new_inode (λ i. record i { i_nlink = k.drop_nlink i.i_nlink })

  unfoldable pub move_links : Bool → World σ → ℕ → ℕ → World σ
  move_links is_dir w old_dir new_dir =
      if is_dir
      then at (at w old_dir (λ i. record i { i_nlink = k.drop_nlink i.i_nlink })) new_dir
          (λ i. record i { i_nlink = k.inc_nlink i.i_nlink })
      else w

  unfoldable pub stamp : Call → World σ → ℕ → ℕ → World σ
  stamp call w old_dir old_inode =
      at (at w old_inode (λ i. record i { i_ctime = call.now })) old_dir
        (λ i. record i { i_mtime = call.now; i_ctime = call.now })

  abbrev pub restore_new : World σ → World σ → Option ℕ → World σ
  restore_new w w' none = w'
  restore_new w w' (some new_inode) = at w' new_inode (restore (w.inodes new_inode))

  unfoldable pub restore_all : World σ → ℕ → ℕ → ℕ → Option ℕ → World σ → World σ
  restore_all w old_dir old_inode new_dir new_inode w' =
      restore_new w
        (at
          (at (at w' old_dir (restore (w.inodes old_dir))) old_inode (restore (w.inodes old_inode)))
          new_dir (restore (w.inodes new_dir)))
        new_inode

  abbrev pub undo_rename :
      (World σ → World σ)
      → Option (Result (Unit {0}) × World σ)
      → Option (Result (Unit {0}) × World σ)
  undo_rename undo none = none
  undo_rename undo (some out) = some (or_undo undo out)

  -- Once the directory that is replaced is known to be empty.
  unfoldable pub rename_checked :
      Call
      → World σ
      → ℕ
      → List ℕ
      → ℕ
      → ℕ
      → List ℕ
      → Option ℕ
      → Bool
      → Option (Result (Unit {0}))
      → Option (Result (Unit {0}) × World σ)
  rename_checked call w old_dir old_name old_inode new_dir new_name new_inode new_is_dir none = none
  rename_checked call w old_dir old_name old_inode new_dir new_name new_inode new_is_dir
        (some (err e)) =
      some (err e, w)
  rename_checked call w old_dir old_name old_inode new_dir new_name new_inode new_is_dir
        (some (ok u)) =
      let old_is_dir = is_type k.modes k.modes.s_ifdir (w.inodes old_inode).i_mode in
      let unlinked = unlink_new new_is_dir w new_dir new_inode in
      let moved = move_links old_is_dir unlinked old_dir new_dir in
      let stamped = stamp call moved old_dir old_inode in
      if not (call.mem 7)
      then some (err enomem, w)
      else undo_rename (restore_all w old_dir old_inode new_dir new_inode)
          (do_rename call stamped old_dir old_name old_inode new_dir new_name new_inode)

  abbrev new_is_dir : World σ → Option ℕ → Bool
  new_is_dir w none = false
  new_is_dir w (some new_inode) = is_type k.modes k.modes.s_ifdir (w.inodes new_inode).i_mode

  unfoldable pub empty_or_file : ℕ → Call → World σ → Option ℕ → Option (Result (Unit {0}))
  empty_or_file fuel call w none = some (ok tt)
  empty_or_file fuel call w (some new_inode) =
      if is_type k.modes k.modes.s_ifdir (w.inodes new_inode).i_mode
      then check_dir_empty k store fuel call w new_inode
      else some (ok tt)

  unfoldable pub fsop_rename :
      ℕ
      → Call
      → World σ
      → ℕ
      → List ℕ
      → ℕ
      → ℕ
      → List ℕ
      → Option ℕ
      → Option (Result (Unit {0}) × World σ)
  fsop_rename fuel call w old_dir old_name old_inode new_dir new_name new_inode =
      if w.bi.is_ro
      then some (err erofs, w)
      else rename_checked call w old_dir old_name old_inode new_dir new_name new_inode
          (new_is_dir w new_inode) (empty_or_file fuel call w new_inode)
