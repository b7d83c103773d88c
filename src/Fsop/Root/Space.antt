-- ===== src/Fsop/Root/Space.antt =====
-- The assertions of `fsop_statfs`.
use cogent.Prelude.{
  ℕ, ◌+◌, ◌-◌, ◌*◌, ◌/◌, ◌%◌, ◌&&◌, ◌^◌, ◌≤◌, ◌<◌, ◌≡◌, refl, true, none, some, arith, leb,
  if◌then◌else◌,
}
use native.Mathlib.Nat.{mul-le-mul_left}
use cogent.Types.{log_fst_lnum}
use cogent.Fsm.{int_to_u64}
use cogent.Fsm.Inv.{IsFsm}
use cogent.Fsm.Space.{fsm_get_free_space-nb_free, fsm_get_available_space-nb_free}
use cogent.Store.{Info, ostore_get_free_space, ostore_get_available_space}
use cogent.Fsop.{block_size}
use cogent.Fsop.Root.{Kstatfs, fsop_statfs}

le→leb : (a b : ℕ) → a ≤ b → leb a b ≡ true
le→leb a b h = ground arith

-- The assertions, on numbers of bytes.
abbrev blocks_of : ℕ → ℕ → ℕ → Kstatfs
blocks_of total free avail = record {
  f_blocks = total / block_size;
  f_bfree = free / block_size;
  f_bavail = avail / block_size;
}

counted :
    (total free avail : ℕ)
    → total < 2 ^ 31
    → free ≤ total
    → avail ≤ free
    → (if leb (free % 2 ^ 64 / block_size) (int_to_u64 total / block_size)
          && leb (avail / block_size) (free % 2 ^ 64 / block_size)
        then some (blocks_of (int_to_u64 total) (free % 2 ^ 64) avail)
        else none)
      ≡ some (blocks_of total free avail)
counted total free avail small le le' =
    let whole : free % 2 ^ 64 ≡ free = omega arith in
    let unsigned : int_to_u64 total ≡ total = ground arith in
    rw
      (
        whole,
        unsigned,
        le→leb (free / block_size) (total / block_size) (omega arith),
        le→leb (avail / block_size) (free / block_size) (omega arith),
      )
      refl

-- As long as the flash has the blocks below the log and less than 2^31 bytes, the reserved blocks
-- together have less than 2^31 bytes too, and the state keeps the invariant, no assertion fails, and the three numbers are those of whole blocks in the flash, in the free blocks of the
-- log, and in those that are not reserved.
pub fsop_statfs-Counted :
    (info : Info)
    → log_fst_lnum ≤ info.super.leb_cnt
    → IsFsm info.super info.fsm
    → info.super.leb_size * info.super.leb_cnt < 2 ^ 31
    → (info.super.nb_reserved_gc + info.super.nb_reserved_del) * info.super.leb_size < 2 ^ 31
    → fsop_statfs info
      ≡ some (record {
        f_blocks = info.super.leb_size * info.super.leb_cnt / block_size;
        f_bfree = info.super.leb_size * (info.fsm.fsm_nb_free_eb - 3) / block_size;
        f_bavail =
            (info.super.leb_size * (info.fsm.fsm_nb_free_eb - 3)
              - (info.super.nb_reserved_gc + info.super.nb_reserved_del) * info.super.leb_size)
            / block_size;
      })
unfolding fsop_statfs ostore_get_free_space ostore_get_available_space
fsop_statfs-Counted info log v small reserved =
    let le : info.super.leb_size * (info.fsm.fsm_nb_free_eb - 3)
        ≤ info.super.leb_size * info.super.leb_cnt =
      mul-le-mul_left info.super.leb_size (omega (arith, v.counted)) in
    rw
      (
        fsm_get_free_space-nb_free info.super info.fsm log v,
        fsm_get_available_space-nb_free info.super info.fsm log v reserved (omega arith),
      )
      (counted (info.super.leb_size * info.super.leb_cnt)
        (info.super.leb_size * (info.fsm.fsm_nb_free_eb - 3)) _ small le (omega arith))
