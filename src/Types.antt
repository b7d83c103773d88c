-- ===== src/Types.antt =====
-- The data that impl/fs/bilby/c/bilbyfs.h declares: constants, error codes, and the structs that
-- the components keep inside `struct bilbyfs_info`. A field of a C integer type is a number, and
-- the operations write out where it wraps. Fields that belong to one component form a record of
-- their own (`Fsm`), and the fields that no modelled function reads are left out.
use cogent.Prelude.{ℕ, ◌+◌, ◌-◌, ◌/◌, ◌%◌, ◌^◌, ◌≡◌, ◌⊎◌, inl, inr, refl, Bool, List, Option, ◌==◌}

-- Object types, which are the id types too.
abbrev pub inode_obj : ℕ
inode_obj = 0

abbrev pub data_obj : ℕ
data_obj = 1

abbrev pub dentarr_obj : ℕ
dentarr_obj = 2

abbrev pub sup_obj : ℕ
sup_obj = 3

abbrev pub pad_obj : ℕ
pad_obj = 4

abbrev pub del_obj : ℕ
del_obj = 5

abbrev pub sum_obj_type : ℕ
sum_obj_type = 6

-- The first erase-block of the log: those below it are never allocated.
abbrev pub log_fst_lnum : ℕ
log_fst_lnum = 3

abbrev pub min_usable_log_sz : ℕ
min_usable_log_sz = 2

abbrev pub max_obj_per_trans : ℕ
max_obj_per_trans = 2048

-- Flags of a write. They are single bits, tested by `&`.
abbrev pub osw_none : ℕ
osw_none = 0

abbrev pub osw_del : ℕ
osw_del = 1

abbrev pub osw_gc : ℕ
osw_gc = 2

abbrev pub osw_sync : ℕ
osw_sync = 4

-- `flags & bit`, for a bit that is a power of two.
abbrev pub has_flag : ℕ → ℕ → Bool
has_flag flags bit = (flags / bit) % 2 == 1

-- `u32` arithmetic.
abbrev pub add32 : ℕ → ℕ → ℕ
add32 a b = (a + b) % 2 ^ 32

abbrev pub sub32 : ℕ → ℕ → ℕ
sub32 a b = (a + 2 ^ 32 - b) % 2 ^ 32

-- The error codes that the code names; `other` is a code that the flash device returned.
pub data Errno : Type 0 where
  enoent enomem einval enospc eoverflow enodata erofs enotempty enametoolong enfile : Errno
  other : ℕ → Errno

-- What a function returning an error code gives besides its new state.
pub data Result {ℓ} (A : Type ℓ) : Type ℓ where
  ok : A → Result A
  err : Errno → Result A

-- `struct obj_addr`.
pub record ObjAddr : Type 0 where
  pub lnum : ℕ
  pub offs : ℕ
  pub len : ℕ
  pub sqnum : ℕ

-- What `memset(xnode, 0, sizeof(*xnode))` leaves in an index node.
abbrev pub zero_addr : ObjAddr
zero_addr = record { lnum = 0; offs = 0; len = 0; sqnum = 0 }

-- The fields of `struct gim_node` beside its key.
pub record Garbage : Type 0 where
  pub sqnum : ℕ
  pub count : ℕ

abbrev pub zero_garbage : Garbage
zero_garbage = record { sqnum = 0; count = 0 }

-- `struct bilbyfs_super`, without the uuid.
pub record Super : Type 0 where
  pub sqnum : ℕ
  pub leb_cnt : ℕ
  pub leb_size : ℕ
  pub nb_reserved_gc : ℕ
  pub nb_reserved_del : ℕ
  pub min_io_size : ℕ
  pub max_io_size : ℕ
  pub log_lnum : ℕ
  pub log_offs : ℕ
  pub last_inum : ℕ

-- `struct alloc_pool`. Of a node pointer only NULL (`false`) or not (`true`) is kept, and `arr`
-- is `none` where the C pointer is NULL. `calls` counts the requests to the kernel's allocator,
-- and `live` the slab objects that were handed out and not yet freed.
pub record Pool : Type 0 where
  pub tot_nodes_needed : ℕ
  pub arr : Option (List Bool)
  pub len : ℕ
  pub i : ℕ
  pub sz_obj : ℕ
  pub calls : ℕ
  pub live : ℕ

-- The free-space manager's fields of `struct bilbyfs_info`.
pub record Fsm : Type 0 where
  pub dirty_list : List ℕ
  pub used_leb_list : List Bool
  pub fsm_lnum : ℕ
  pub fsm_nb_free_eb : ℕ

-- To split on a computed result and keep the equation.
pub Result-cases {ℓ} :
    {A : Type ℓ} (r : Result A) → ((a : A) × (r ≡ ok a)) ⊎ ((e : Errno) × (r ≡ err e))
Result-cases (ok a) = inl (a, refl)
Result-cases (err e) = inr (e, refl)
