-- ===== src/Store/Alloc.antt =====
-- impl/fs/bilby/c/fsm.c: `fsm_alloc_eb`, which may call the garbage collector. The collector writes
-- objects and so calls `fsm_alloc_eb` in turn, with a flag that keeps that call from collecting
-- again: here it is an argument, `gc`. A result `none` is a failed `bilbyfs_assert`.
pub mod Reserve
use cogent.Prelude.{ℕ, Bool, true, false, not, ◌&&◌, Option, none, some, if◌then◌else◌}
use cogent.Types.{Fsm, Result, ok, err, Errno, enospc, osw_gc, has_flag}
use cogent.Fsm.{fsm_check_free_space, alloc_next}
use cogent.Store.{Info}

abbrev pub is_enospc : Errno → Bool
is_enospc enospc = true
is_enospc _ = false

-- The search for a block.
unfoldable pub alloc_block : Info → Option (Result (Unit {0}) × Info)
alloc_block info = elim (alloc_next info.super info.fsm) [
  | none ↦ none
  | some (r, fsm') ↦ some (r, record info { fsm = fsm' })
]

-- The second check, once the garbage collector has come back.
unfoldable pub check_again : Info → Result (Unit {0}) → Option (Result (Unit {0}) × Info)
unfolding alloc_block
check_again info (err e) = some (err e, info)
check_again info (ok u) = alloc_block info

-- The first error stays if the collector fails.
unfoldable pub after_gc :
    ℕ → Errno → Option (Result (Unit {0}) × Info) → Option (Result (Unit {0}) × Info)
unfolding check_again
after_gc osw_flag e none = none
after_gc osw_flag e (some (err e', info)) = some (err e, info)
after_gc osw_flag e (some (ok u, info)) =
    check_again info (fsm_check_free_space info.super info.fsm osw_flag)

module _ (gc : Info → Option (Result (Unit {0}) × Info)) where
  -- What follows the first check.
  unfoldable pub first_check : Info → ℕ → Result (Unit {0}) → Option (Result (Unit {0}) × Info)
  unfolding after_gc alloc_block
  first_check info osw_flag (ok u) = alloc_block info
  first_check info osw_flag (err e) =
      if is_enospc e && not (has_flag osw_flag osw_gc)
      then after_gc osw_flag e (gc info)
      else some (err e, info)

  unfoldable pub fsm_alloc_eb : Info → ℕ → Option (Result (Unit {0}) × Info)
  unfolding first_check
  fsm_alloc_eb info osw_flag =
      let info' : Info = record info { fsm = record info.fsm { fsm_lnum = 0 } } in
      first_check info' osw_flag (fsm_check_free_space info'.super info'.fsm osw_flag)
