-- ===== src/Obj.antt =====
-- Object headers: what impl/fs/bilby/c/bilbyfs.h and ostore.c read of an object on the flash. The
-- little-endian fields stand in host byte order.
use cogent.Prelude.{ℕ, ◌-◌, Bool, ◌||◌, Option, none, some, ◌==◌, if◌then◌else◌}
use cogent.Types.{inode_obj, data_obj, dentarr_obj, del_obj}

-- Positions in a transaction.
abbrev pub trans_st : ℕ
trans_st = 1

abbrev pub trans_in : ℕ
trans_in = 2

abbrev pub trans_end : ℕ
trans_end = 4

abbrev pub trans_atom : ℕ
trans_atom = 5

-- What the functions read of an object: the fields of `struct obj_ch` in host byte order, and what
-- `get_obj_id` finds behind it.
pub record ObjCh : Type 0 where
  pub kind : ℕ
  pub id : ℕ
  pub sqnum : ℕ
  pub len : ℕ
  pub trans : ℕ

unfoldable pub obj_has_id : ObjCh → Bool
obj_has_id obj =
    (obj.kind == inode_obj)
    || (obj.kind == dentarr_obj)
    || (obj.kind == data_obj)
    || (obj.kind == del_obj)

-- `none` is the failed `bilbyfs_assert` on an object without id.
unfoldable pub get_obj_id : ObjCh → Option ℕ
unfolding obj_has_id
get_obj_id obj = if obj_has_id obj then some obj.id else none

unfoldable pub get_obj_trans : ℕ → ℕ → ℕ
get_obj_trans count i =
    if count == 1
    then trans_atom
    else if i == 0
    then trans_st
    else if i == count - 1
    then trans_end
    else trans_in
