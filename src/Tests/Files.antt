-- ===== src/Tests/Files.antt =====
-- The file-system operations on a small directory.
use cogent.Prelude.{ℕ, ◌≡◌, refl, arith, List, [], ◌∷◌, Option, none, some, replicate}
use cogent.Types.{Result, ok, err, enospc}
use cogent.Fsop.{
  World, block_size, at, set_inode_flags, or_undo, write_objects, init_inode, init_fields,
  inode_init_perm, next_inum, next_sqnum, trans_commit_inodes,
}
use cogent.Dentarr.Delete.{dentarr_del_dentry, as_dentarr}
use cogent.Pack.{pack_obj_inode}
use cogent.Ids.{inode_id_init, dentarr_id_init, id_hash_nm}
use cogent.Fsop.{Ostore}
use cogent.Fsop.Op.Shape.{MaybeBack}
use cogent.Fsop.Op.Failed.{is_create, run-BackUnlessOk}
use cogent.Dentarr.{Dentarr, dentarr_add_dentry, inode_mode_to_dent_type}
use cogent.Rdx.{dentarr_read_or_create, dentarr_read, create_dentarr}
use cogent.Fsop.Name.{
  fsop_create, fsop_link, link_added, with_inode, then_run, add_name, array_for, read_array,
  create_added, commit_entry,
}
use cogent.Fsop.Op.{setattr, create, run}
use cogent.Fsop.Op.Reach.{IsNumbered, Runs, done, next, Runs-IsNumbered}
use cogent.Fsop.Rename.{
  fsop_rename, rename_checked, empty_or_file, do_rename, with_new, renamed, commit_rename,
  rename_entries, del_new, add_renamed, del_in, read_or_create, unlink_new, move_links, stamp,
  restore_all,
}
use cogent.Fsop.Rename.Undone.{MaybeFailed, fsop_rename-Undone}
use cogent.Fsop.Page.{fsop_write_end}
use cogent.Fsop.Attr.{Iattr, fsop_write_inode, fsop_setattr}
use cogent.Fsop.Root.{fsop_statfs}
use cogent.Fsop.Root.Space.{fsop_statfs-Counted}
use cogent.Tests.Space.{started-IsFsm}
use cogent.Tests.Disk.{kernel, Disk, disk_store, disk-TakesNoNumber, mounted, world, call}

world-IsNumbered : IsNumbered world
world-IsNumbered = record { below = λ p. ground arith; apart = λ p q e s. ground arith }

abbrev chmod : Iattr
chmod = record {
  ia_size = none;
  ia_uid = none;
  ia_gid = none;
  ia_atime = none;
  ia_mtime = none;
  ia_ctime = none;
  ia_mode = some 0x8180;
}

-- A new file behind pointer 3, and then a change of the mode of the other one.
abbrev world_of : Option (Result (Unit {0}) × World Disk) → World Disk
world_of none = world
world_of (some out) = out.1

abbrev after_create : World Disk
after_create = world_of (fsop_create kernel disk_store call world 1 (97 ∷ []) 0x1A4 3)

abbrev after_chmod : World Disk
after_chmod = (fsop_setattr kernel disk_store call after_create 2 chmod).1

create_run :
    run kernel disk_store call world (create 1 (97 ∷ []) 0x1A4 3) ≡ some (ok tt, after_create)
unfolding run fsop_create with_inode then_run init_inode init_fields inode_init_perm set_inode_flags
    next_inum next_sqnum at add_name array_for read_array dentarr_read_or_create dentarr_read
    create_dentarr dentarr_add_dentry inode_mode_to_dent_type create_added commit_entry
    trans_commit_inodes write_objects or_undo dentarr_id_init id_hash_nm
create_run = refl

chmod-Runs : Runs kernel disk_store world after_chmod
unfolding run
chmod-Runs = next call (create 1 (97 ∷ []) 0x1A4 3) (ok tt) create_run (
    next call (setattr 2 chmod) (fsop_setattr kernel disk_store call after_create 2 chmod).0 refl
      done)

Runs-IsNumbered_example : IsNumbered after_chmod
Runs-IsNumbered_example =
    Runs-IsNumbered kernel disk_store world after_chmod disk-TakesNoNumber chmod-Runs
      world-IsNumbered

abbrev page : List ℕ
page = replicate block_size 7

abbrev after_write : World Disk
after_write = (fsop_write_end kernel disk_store call world 2 4100 10 page).1

abbrev after_inode : World Disk
after_inode = (fsop_write_inode kernel disk_store world 2).1

fsop_statfs-Counted_example :
    fsop_statfs mounted ≡ some (record { f_blocks = 6; f_bfree = 2; f_bavail = 0 })
fsop_statfs-Counted_example =
    fsop_statfs-Counted mounted (omega arith) started-IsFsm (omega arith) (omega arith)

abbrev after_link : World Disk
after_link = world_of (fsop_link kernel disk_store call world 2 1 (97 ∷ []))

abbrev fresh : ℕ → Dentarr
fresh id = record { id = id; nb_dentry = 0; size = 40; dentries = [] }

abbrev dentarr_of : Dentarr → Result Dentarr → Dentarr
dentarr_of d (ok dentarr) = dentarr
dentarr_of d (err e) = d

-- A flash without room.
abbrev full_store : Ostore Disk
full_store = record disk_store { write_obj_list = λ bi objs flag. (err enospc, bi) }

run-BackUnlessOk_example :
    MaybeBack 1 3 world (run kernel full_store call world (create 1 (97 ∷ []) 0x1A4 3))
run-BackUnlessOk_example =
    run-BackUnlessOk kernel full_store call world (create 1 (97 ∷ []) 0x1A4 3) 1 3 (97 ∷ [])
      is_create refl (omega arith) (omega arith) (omega arith)

abbrev answer_of : Option (Result (Unit {0}) × World Disk) → Option (Result (Unit {0}))
answer_of none = none
answer_of (some out) = some (out.0)

-- The rename of a name that is there, to another one of its length, without room for the arrays.
fsop_rename-Undone_example :
    MaybeFailed 1 2 1 none after_link
      (fsop_rename kernel full_store 9 call after_link 1 (97 ∷ []) 2 1 (98 ∷ []) none)
fsop_rename-Undone_example =
    fsop_rename-Undone kernel full_store 9 call after_link 1 (97 ∷ []) 2 1 (98 ∷ []) none

rename_fails :
    answer_of (fsop_rename kernel full_store 9 call after_link 1 (97 ∷ []) 2 1 (98 ∷ []) none)
    ≡ some (err enospc)
unfolding fsop_rename rename_checked empty_or_file do_rename with_new renamed commit_rename
    rename_entries del_new add_renamed del_in read_or_create unlink_new move_links stamp restore_all
    fsop_link link_added at add_name array_for read_array dentarr_read_or_create dentarr_read
    create_dentarr dentarr_add_dentry inode_mode_to_dent_type trans_commit_inodes write_objects
    or_undo dentarr_id_init id_hash_nm pack_obj_inode inode_id_init dentarr_del_dentry as_dentarr
rename_fails = refl
