-- ===== src/Store/Alloc/Reserve.antt =====
-- An allocation keeps the reserves of free blocks.
use cogent.Prelude.{
  ℕ, ◌+◌, ◌^◌, ◌≤◌, ◌<◌, ◌≡◌, refl, sym, true, false, not, ◌&&◌, Option, none, some, arith,
  Bool-cases, inl, inr,
}
use cogent.Types.{Super, Fsm, Result, ok, err, Errno, log_fst_lnum, osw_gc, osw_del, has_flag}
use cogent.Fsm.{fsm_check_free_space, alloc_next, is_used}
use cogent.Fsm.Inv.{IsFsm}
use cogent.Fsm.Scan.{BlockTaken, alloc_next-BlockTaken}
use cogent.Store.{Info}
use cogent.Store.Alloc.{is_enospc, alloc_block, check_again, after_gc, first_check, fsm_alloc_eb}

-- The free-space manager is in order, for a log of at least no block.
abbrev pub IsFree : Info → Type 0
IsFree info = (log_fst_lnum ≤ info.super.leb_cnt) × IsFsm info.super info.fsm

-- Before the block was taken enough were free for what the flag allows.
abbrev pub Reserved : Super → ℕ → ℕ → Type 0
Reserved sup osw_flag n_free =
    (has_flag osw_flag osw_gc ≡ false → sup.nb_reserved_gc ≤ n_free)
    × (has_flag osw_flag osw_gc ≡ false
        → has_flag osw_flag osw_del ≡ false
        → sup.nb_reserved_del + sup.nb_reserved_gc ≤ n_free)

-- An error leaves the manager in order; else the current block is one of the log, in use, and the
-- reserves were there.
abbrev pub BlockGiven : Super → ℕ → Option (Result (Unit {0}) × Info) → Type 0
BlockGiven sup osw_flag none = ⊥
BlockGiven sup osw_flag (some (err e, out)) = IsFree out × (out.super ≡ sup)
BlockGiven sup osw_flag (some (ok u, out)) =
    IsFree out
    × (out.super ≡ sup)
    × (log_fst_lnum ≤ out.fsm.fsm_lnum)
    × (out.fsm.fsm_lnum < sup.leb_cnt)
    × (is_used out.fsm out.fsm.fsm_lnum ≡ true)
    × Reserved sup osw_flag (out.fsm.fsm_nb_free_eb + 1)

-- The collector comes back, with the manager in order.
abbrev pub Collected : Super → Option (Result (Unit {0}) × Info) → Type 0
Collected sup none = ⊥
Collected sup (some (r, out)) = IsFree out × (out.super ≡ sup)

taken-BlockGiven :
    (info : Info) (osw_flag : ℕ) (o : Option (Result (Unit {0}) × Fsm))
    → IsFree info
    → Reserved info.super osw_flag info.fsm.fsm_nb_free_eb
    → BlockTaken info.super info.fsm o
    → BlockGiven info.super osw_flag
        (elim o [ none ↦ none | some (r, fsm') ↦ some (r, record info { fsm = fsm' }) ])
taken-BlockGiven info osw_flag none f r t = t
taken-BlockGiven info osw_flag (some (err e, fsm')) f r t = ((f.0, rw t.1 f.1), refl)
taken-BlockGiven info osw_flag (some (ok u, fsm')) f r t =
    ((f.0, t.0), refl, t.1, t.2, t.4, rw t.5 r)

alloc-BlockGiven :
    (info : Info) (osw_flag : ℕ)
    → IsFree info
    → Reserved info.super osw_flag info.fsm.fsm_nb_free_eb
    → BlockGiven info.super osw_flag (alloc_block info)
unfolding alloc_block
alloc-BlockGiven info osw_flag f r =
    taken-BlockGiven info osw_flag (alloc_next info.super info.fsm) f r
      (alloc_next-BlockTaken info.super info.fsm f.0 f.1)

-- A check that passes found the reserves.
check-Reserved :
    (sup : Super) (fsm : Fsm) (osw_flag : ℕ)
    → sup.nb_reserved_del + sup.nb_reserved_gc < 2 ^ 32
    → fsm_check_free_space sup fsm osw_flag ≡ ok tt
    → Reserved sup osw_flag fsm.fsm_nb_free_eb
unfolding fsm_check_free_space
check-Reserved sup fsm osw_flag h e = (λ g. ground (arith, g, e), λ g d. ground (arith, g, d, e))

again-BlockGiven :
    (info : Info) (osw_flag : ℕ) (r : Result (Unit {0}))
    → IsFree info
    → (r ≡ ok tt → Reserved info.super osw_flag info.fsm.fsm_nb_free_eb)
    → BlockGiven info.super osw_flag (check_again info r)
unfolding check_again
again-BlockGiven info osw_flag (err e) f k = (f, refl)
again-BlockGiven info osw_flag (ok u) f k = alloc-BlockGiven info osw_flag f (k refl)

gc-BlockGiven :
    (sup : Super) (osw_flag : ℕ) (e : Errno) (o : Option (Result (Unit {0}) × Info))
    → sup.nb_reserved_del + sup.nb_reserved_gc < 2 ^ 32
    → Collected sup o
    → BlockGiven sup osw_flag (after_gc osw_flag e o)
unfolding after_gc
gc-BlockGiven sup osw_flag e none h c = c
gc-BlockGiven sup osw_flag e (some (err e', out)) h c = c
gc-BlockGiven sup osw_flag e (some (ok u, out)) h c = rw (sym c.1) (
    again-BlockGiven out osw_flag (fsm_check_free_space out.super out.fsm osw_flag) c.0
      (check-Reserved out.super out.fsm osw_flag (rw c.1 h)))

module _ (gc : Info → Option (Result (Unit {0}) × Info)) where
  first-BlockGiven :
      (info : Info) (osw_flag : ℕ) (r : Result (Unit {0}))
      → info.super.nb_reserved_del + info.super.nb_reserved_gc < 2 ^ 32
      → IsFree info
      → (r ≡ ok tt → Reserved info.super osw_flag info.fsm.fsm_nb_free_eb)
      → Collected info.super (gc info)
      → BlockGiven info.super osw_flag (first_check gc info osw_flag r)
  unfolding first_check
  first-BlockGiven info osw_flag (ok u) h f k c = alloc-BlockGiven info osw_flag f (k refl)
  first-BlockGiven info osw_flag (err e) h f k c =
      elim (Bool-cases (is_enospc e && not (has_flag osw_flag osw_gc))) [
        | inl t ↦ rw (t, first_check) (gc-BlockGiven info.super osw_flag e (gc info) h c)
        | inr t ↦ rw (t, first_check) (f, refl)
      ]

  -- If the garbage collector comes back and keeps the free-space manager in order, so does
  -- `fsm_alloc_eb`, which fails no assertion. Where it succeeds, the current block is one of the log
  -- and in use, and before it was taken the blocks reserved for the collector counted as free,
  -- unless the collector asked, and those reserved for deletions with them, unless a deletion did.
  pub fsm_alloc_eb-BlockGiven :
      (info : Info) (osw_flag : ℕ)
      → info.super.nb_reserved_del + info.super.nb_reserved_gc < 2 ^ 32
      → IsFree info
      → Collected info.super (gc (record info { fsm = record info.fsm { fsm_lnum = 0 } }))
      → BlockGiven info.super osw_flag (fsm_alloc_eb gc info osw_flag)
  unfolding fsm_alloc_eb
  fsm_alloc_eb-BlockGiven info osw_flag h f c =
      let info' : Info = record info { fsm = record info.fsm { fsm_lnum = 0 } } in
      let v = f.1 in
      first-BlockGiven info' osw_flag (fsm_check_free_space info'.super info'.fsm osw_flag) h
        (
          f.0,
          record {
            fits = v.fits;
            used_len = v.used_len;
            dirty_len = v.dirty_len;
            counted = v.counted;
            clean = v.clean;
            reserved = v.reserved;
          },
        )
        (check-Reserved info'.super info'.fsm osw_flag h) c
