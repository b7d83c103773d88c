-- ===== src/Tests/Space.antt =====
-- The free-space manager on a flash of six blocks, one of them in use.
use cogent.Prelude.{
  ℕ, zero, suc, ◌+◌, ◌-◌, ◌*◌, ◌%◌, ◌^◌, ◌≤◌, ◌<◌, ◌≡◌, ◌⊎◌, ◌↔◌, refl, true, false, none, some,
  arith, ◌==◌, if◌then◌else◌,
}
use cogent.Types.{Fsm, ok, log_fst_lnum, osw_gc, osw_del, has_flag}
use cogent.Fsm.{
  fsm_init, fsm_mark_used, fsm_mark_dirty, fsm_mark_erased, used_fsm, dirty_fsm, erased_fsm,
  is_used, dirt, alloc_next, fsm_get_free_space, fsm_get_available_space, fsm_get_dirtiest_eb,
  fsm_check_free_space,
}
use cogent.Fsm.Inv.{IsFsm, init-IsFsm, mark_used-IsFsm, mark_erased-IsFsm, mark_dirty-IsFsm}
use cogent.Fsm.Scan.{BlockTaken, Chosen, alloc_next-BlockTaken, fsm_get_dirtiest-Chosen}
use cogent.Fsm.Space.{
  fsm_get_free_space-nb_free, fsm_get_available_space-nb_free, fsm_check_free_space_iff,
  deletion_never_refused,
}
use cogent.Tests.Data.{small, started, addr_at}

pub started-IsFsm : IsFsm small started
started-IsFsm = record {
  fits = omega arith;
  used_len = refl;
  dirty_len = refl;
  counted = refl;
  clean = clean;
  reserved = reserved;
}
  where
    clean : (i : ℕ) → is_used started i ≡ false → dirt started i ≡ 0
    clean zero e = refl
    clean (suc zero) e = refl
    clean (suc (suc zero)) e = refl
    clean (suc (suc (suc zero))) e = cc e
    clean (suc (suc (suc (suc zero)))) e = refl
    clean (suc (suc (suc (suc (suc zero))))) e = refl
    clean (suc (suc (suc (suc (suc (suc i)))))) e = refl

    reserved : (i : ℕ) → i < log_fst_lnum → is_used started i ≡ false
    reserved zero h = refl
    reserved (suc zero) h = refl
    reserved (suc (suc zero)) h = refl
    reserved (suc (suc (suc i))) h = absurd (omega arith)

init-IsFsm_example :
    (fsm : Fsm) × (fsm_init small true true ≡ ok fsm) × IsFsm small fsm × (fsm.fsm_nb_free_eb ≡ 6)
init-IsFsm_example = init-IsFsm small (omega arith)

mark_used-IsFsm_example :
    (fsm_mark_used small started 4 ≡ some (used_fsm started 4)) × IsFsm small (used_fsm started 4)
mark_used-IsFsm_example =
    mark_used-IsFsm small started 4 started-IsFsm (omega arith) (omega arith) refl

mark_erased-IsFsm_example :
    (fsm_mark_erased small started 3 ≡ some (erased_fsm started 3))
    × IsFsm small (erased_fsm started 3)
    × (is_used (erased_fsm started 3) 3 ≡ false)
    × (dirt (erased_fsm started 3) 3 ≡ 0)
    × ((erased_fsm started 3).fsm_nb_free_eb ≡ 6)
mark_erased-IsFsm_example =
    mark_erased-IsFsm small started 3 started-IsFsm (omega arith) (omega arith) refl

mark_dirty-IsFsm_example :
    (fsm_mark_dirty small started (addr_at 3 7) ≡ some (dirty_fsm started (addr_at 3 7)))
    × IsFsm small (dirty_fsm started (addr_at 3 7))
    × ((i : ℕ)
        → dirt (dirty_fsm started (addr_at 3 7)) i
          ≡ (if 3 == i then dirt started i + 64 else dirt started i))
mark_dirty-IsFsm_example =
    mark_dirty-IsFsm small started (addr_at 3 7) started-IsFsm (omega arith) (omega arith) refl
      (omega arith)

alloc_next-BlockTaken_example : BlockTaken small started (alloc_next small started)
alloc_next-BlockTaken_example = alloc_next-BlockTaken small started (omega arith) started-IsFsm

fsm_get_dirtiest-Chosen_example : Chosen started none 0 3 3 (fsm_get_dirtiest_eb small started)
fsm_get_dirtiest-Chosen_example = fsm_get_dirtiest-Chosen small started

fsm_get_free_space-nb_free_example : fsm_get_free_space small started ≡ 4096 * 2 % 2 ^ 64
fsm_get_free_space-nb_free_example =
    fsm_get_free_space-nb_free small started (omega arith) started-IsFsm

fsm_get_available_space-nb_free_example :
    fsm_get_available_space small started ≡ 4096 * 2 - 2 * 4096
fsm_get_available_space-nb_free_example =
    fsm_get_available_space-nb_free small started (omega arith) started-IsFsm (omega arith)
      (omega arith)

fsm_check_free_space_iff_example :
    (fsm_check_free_space small started 0 ≡ ok tt)
    ↔ ((has_flag 0 osw_gc ≡ true) ⊎ ((1 ≤ 5) × ((has_flag 0 osw_del ≡ true) ⊎ (2 ≤ 5))))
fsm_check_free_space_iff_example = fsm_check_free_space_iff small started 0 (omega arith)

deletion_never_refused_example : fsm_check_free_space small started osw_del ≡ ok tt
deletion_never_refused_example =
    deletion_never_refused small started osw_del (omega arith) started-IsFsm (omega arith) refl
