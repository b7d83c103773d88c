-- ===== src/Fsop/Op.antt =====
-- The operations of impl/fs/bilby/c/fsop.c that change inodes, as one type.
pub mod Numbers
pub mod Kept
pub mod Steps
pub mod Reach
pub mod Shape
pub mod Failed
use cogent.Prelude.{ℕ, List, Option, some}
use cogent.Types.{Result}
use cogent.Fsop.{Kernel, Ostore, Call, World}
use cogent.Fsop.Name.{fsop_link, fsop_create, fsop_mkdir, fsop_symlink}
use cogent.Fsop.Remove.{fsop_unlink, fsop_rmdir}
use cogent.Fsop.Rename.{fsop_rename}
use cogent.Fsop.Page.{fsop_write_end}
use cogent.Fsop.Attr.{Iattr, fsop_setattr}

-- An operation with its arguments: pointers of inodes, names, modes, and the fuel of a listing.
pub data Op : Type 0 where
  link : ℕ → ℕ → List ℕ → Op
  create : ℕ → List ℕ → ℕ → ℕ → Op
  mkdir : ℕ → List ℕ → ℕ → ℕ → Op
  symlink : ℕ → List ℕ → List ℕ → ℕ → Op
  unlink : ℕ → List ℕ → ℕ → Op
  rmdir : ℕ → ℕ → List ℕ → ℕ → Op
  rename : ℕ → ℕ → List ℕ → ℕ → ℕ → List ℕ → Option ℕ → Op
  write_end : ℕ → ℕ → ℕ → List ℕ → Op
  setattr : ℕ → Iattr → Op

module _ (k : Kernel) {σ : Type 0} (store : Ostore σ) (call : Call) (w : World σ) where
  unfoldable pub run : Op → Option (Result (Unit {0}) × World σ)
  run (link inode dir name) = fsop_link k store call w inode dir name
  run (create dir name mode inode) = fsop_create k store call w dir name mode inode
  run (mkdir dir name mode inode) = fsop_mkdir k store call w dir name mode inode
  run (symlink dir name symname inode) = fsop_symlink k store call w dir name symname inode
  run (unlink dir name inode) = fsop_unlink k store call w dir name inode
  run (rmdir fuel dir name inode) = fsop_rmdir k store fuel call w dir name inode
  run (rename fuel old_dir old_name old_inode new_dir new_name new_inode) =
      fsop_rename k store fuel call w old_dir old_name old_inode new_dir new_name new_inode
  run (write_end inode pos len page) = some (fsop_write_end k store call w inode pos len page)
  run (setattr inode attr) = some (fsop_setattr k store call w inode attr)
