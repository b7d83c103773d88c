-- ===== src/Fsm/Scan.antt =====
-- The scans over the blocks of the log: the first free block, and the one with most garbage.
use cogent.Prelude.{
  ℕ, zero, suc, ◌+◌, ◌-◌, ◌≤◌, ◌<◌, ◌≡◌, refl, ◌⊎◌, Bool, true, false, not, ◌&&◌, Option, none,
  some, arith, length, ltb, ◌==◌, Bool-cases, inl, inr,
}
use native.Mathlib.Decide.{ℕ_discrete}
use cogent.Types.{Super, Fsm, Result, ok, err, enospc, log_fst_lnum}
use cogent.Fsm.{find_free, take_free, alloc_next, dirtiest_from, fsm_get_dirtiest_eb, is_used, dirt}
use cogent.Fsm.Inv.{used_count-mark, IsFsm, mark_used-IsFsm, get_or-set}

-- What the scan of `n` blocks from `i` on may find.
abbrev pub FirstFree : Fsm → ℕ → ℕ → Option ℕ → Type 0
FirstFree fsm i n none = (k : ℕ) → i ≤ k → k < i + n → is_used fsm k ≡ true
FirstFree fsm i n (some j) =
    (i ≤ j)
    × (j < i + n)
    × (is_used fsm j ≡ false)
    × ((k : ℕ) → i ≤ k → k < j → is_used fsm k ≡ true)

FirstFree-step :
    (fsm : Fsm) (i n : ℕ) (o : Option ℕ)
    → is_used fsm i ≡ true
    → FirstFree fsm (i + 1) n o
    → FirstFree fsm i (suc n) o
FirstFree-step fsm i n none e f =
    λ k lo hi. elim (ℕ_discrete k i) [ yes p ↦ rw p e | no p ↦ f k (omega arith) (omega arith) ]
FirstFree-step fsm i n (some j) e f = (
  omega arith,
  omega arith,
  f.2,
  λ k lo hi. elim (ℕ_discrete k i) [ yes p ↦ rw p e | no p ↦ f.3 k (omega arith) hi ],
)

find_free-FirstFree : (fsm : Fsm) (i n : ℕ) → FirstFree fsm i n (find_free fsm i n)
unfolding find_free
find_free-FirstFree fsm i zero = λ k lo hi. absurd (omega arith)
find_free-FirstFree fsm i (suc n) = elim (Bool-cases (is_used fsm i)) [
  | inl e ↦
      rw e (FirstFree-step fsm i n (find_free fsm (i + 1) n) e (find_free-FirstFree fsm (i + 1) n))
  | inr e ↦ rw e (omega arith, omega arith, e, λ k lo hi. absurd (omega arith))
]

-- How the allocation of a block may end: with nothing changed, every block of the log in use; or
-- with the first free block of the log taken into use and made the current one.
abbrev pub BlockTaken : Super → Fsm → Option (Result (Unit {0}) × Fsm) → Type 0
BlockTaken sup fsm none = ⊥
BlockTaken sup fsm (some (err e, fsm')) =
    (e ≡ enospc)
    × (fsm' ≡ fsm)
    × ((k : ℕ) → log_fst_lnum ≤ k → k < sup.leb_cnt → is_used fsm k ≡ true)
BlockTaken sup fsm (some (ok u, fsm')) =
    IsFsm sup fsm'
    × (log_fst_lnum ≤ fsm'.fsm_lnum)
    × (fsm'.fsm_lnum < sup.leb_cnt)
    × (is_used fsm fsm'.fsm_lnum ≡ false)
    × (is_used fsm' fsm'.fsm_lnum ≡ true)
    × (fsm'.fsm_nb_free_eb + 1 ≡ fsm.fsm_nb_free_eb)
    × ((k : ℕ) → log_fst_lnum ≤ k → k < fsm'.fsm_lnum → is_used fsm k ≡ true)

take_free-BlockTaken :
    (sup : Super) (fsm : Fsm) (o : Option ℕ)
    → log_fst_lnum ≤ sup.leb_cnt
    → IsFsm sup fsm
    → FirstFree fsm log_fst_lnum (sup.leb_cnt - log_fst_lnum) o
    → BlockTaken sup fsm (take_free sup fsm o)
unfolding take_free
take_free-BlockTaken sup fsm none h v f = (refl, refl, λ k lo hi. f k lo (omega arith))
take_free-BlockTaken sup fsm (some i) h v f =
    let inside : i < length fsm.used_leb_list = omega (arith, f.1, v.used_len) in
    let (marked, inv) = mark_used-IsFsm sup fsm i v f.0 (omega (arith, f.1)) f.2 in
    rw (marked, take_free)
      (
        record {
          fits = inv.fits;
          used_len = inv.used_len;
          dirty_len = inv.dirty_len;
          counted = inv.counted;
          clean = inv.clean;
          reserved = inv.reserved;
        },
        f.0,
        omega (arith, f.1),
        f.2,
        ground (arith, get_or-set fsm.used_leb_list i i true false inside),
        omega (arith, v.counted, inv.counted, used_count-mark fsm.used_leb_list i inside f.2),
        f.3,
      )

-- The allocation takes the first free block of the log, and reports -ENOSPC exactly when there is
-- none; it never fails an assertion, and it keeps the invariant.
pub alloc_next-BlockTaken :
    (sup : Super) (fsm : Fsm)
    → log_fst_lnum ≤ sup.leb_cnt
    → IsFsm sup fsm
    → BlockTaken sup fsm (alloc_next sup fsm)
unfolding alloc_next
alloc_next-BlockTaken sup fsm h v =
    take_free-BlockTaken sup fsm (find_free fsm log_fst_lnum (sup.leb_cnt - log_fst_lnum)) h v
      (find_free-FirstFree fsm log_fst_lnum (sup.leb_cnt - log_fst_lnum))

-- A block that the garbage collector may choose.
abbrev pub is_candidate : Fsm → ℕ → Bool
is_candidate fsm i = is_used fsm i && not (i == fsm.fsm_lnum)

-- Among `n` blocks from `i` on, `j` is a candidate with more garbage than `garbage`, and none has
-- more than it.
pub record IsDirtiest (fsm : Fsm) (garbage i n j : ℕ) : Type 0 where
  pub from : i ≤ j
  pub to : j < i + n
  pub candidate : is_candidate fsm j ≡ true
  pub dirty : garbage < dirt fsm j
  pub most : (k : ℕ) → i ≤ k → k < i + n → is_candidate fsm k ≡ true → dirt fsm k ≤ dirt fsm j

abbrev pub NoneDirty : Fsm → ℕ → ℕ → ℕ → Type 0
NoneDirty fsm garbage i n =
    (k : ℕ) → i ≤ k → k < i + n → is_candidate fsm k ≡ true → dirt fsm k ≤ garbage

abbrev pub Chosen : Fsm → Option ℕ → ℕ → ℕ → ℕ → Option ℕ → Type 0
Chosen fsm best garbage i n o =
    ((o ≡ best) × NoneDirty fsm garbage i n)
    ⊎ ((j : ℕ) × (o ≡ some j) × IsDirtiest fsm garbage i n j)

-- The block in front is no better than what was found before it.
skip_block :
    (fsm : Fsm) (best : Option ℕ) (garbage i n : ℕ) (o : Option ℕ)
    → (is_candidate fsm i ≡ true → dirt fsm i ≤ garbage)
    → Chosen fsm best garbage (i + 1) n o
    → Chosen fsm best garbage i (suc n) o
skip_block fsm best garbage i n o first (inl (e, low)) = inl (
  e,
  λ k lo hi c. elim (ℕ_discrete k i) [
    | yes p ↦ rw p (first (rw (← p) c))
    | no p ↦ low k (omega arith) (omega arith) c
  ],
)
skip_block fsm best garbage i n o first (inr (j, e, d)) = inr (
  j,
  e,
  record {
    from = omega (arith, d.from);
    to = omega (arith, d.to);
    candidate = d.candidate;
    dirty = d.dirty;
    most = λ k lo hi c. elim (ℕ_discrete k i) [
      | yes p ↦ rw p (omega (arith, first (rw (← p) c), d.dirty))
      | no p ↦ d.most k (omega arith) (omega arith) c
    ];
  },
)

take_block :
    (fsm : Fsm) (best : Option ℕ) (garbage i n : ℕ) (o : Option ℕ)
    → is_candidate fsm i ≡ true
    → garbage < dirt fsm i
    → Chosen fsm (some i) (dirt fsm i) (i + 1) n o
    → Chosen fsm best garbage i (suc n) o
take_block fsm best garbage i n o c more (inl (e, low)) = inr (
  i,
  e,
  record {
    from = omega arith;
    to = omega arith;
    candidate = c;
    dirty = more;
    most = λ k lo hi c'. elim (ℕ_discrete k i) [
      | yes p ↦ rw p (omega arith)
      | no p ↦ low k (omega arith) (omega arith) c'
    ];
  },
)
take_block fsm best garbage i n o c more (inr (j, e, d)) = inr (
  j,
  e,
  record {
    from = omega (arith, d.from);
    to = omega (arith, d.to);
    candidate = d.candidate;
    dirty = omega (arith, d.dirty);
    most = λ k lo hi c'. elim (ℕ_discrete k i) [
      | yes p ↦ rw p (omega (arith, d.dirty))
      | no p ↦ d.most k (omega arith) (omega arith) c'
    ];
  },
)

dirtiest_from-Chosen :
    (fsm : Fsm) (best : Option ℕ) (garbage i n : ℕ)
    → Chosen fsm best garbage i n (dirtiest_from fsm best garbage i n)
unfolding dirtiest_from
dirtiest_from-Chosen fsm best garbage i zero = inl (refl, λ k lo hi c. absurd (omega arith))
dirtiest_from-Chosen fsm best garbage i (suc n) =
    elim (Bool-cases (is_used fsm i && (not (i == fsm.fsm_lnum) && ltb garbage (dirt fsm i)))) [
      | inl e ↦ rw e (
          take_block fsm best garbage i n (dirtiest_from fsm (some i) (dirt fsm i) (i + 1) n)
            (ground (arith, e)) (ground (arith, e))
            (dirtiest_from-Chosen fsm (some i) (dirt fsm i) (i + 1) n))
      | inr e ↦ rw e (
          skip_block fsm best garbage i n (dirtiest_from fsm best garbage (i + 1) n)
            (ground (arith, e)) (dirtiest_from-Chosen fsm best garbage (i + 1) n))
    ]

-- The garbage collector gets the block of the log with the most garbage among those that are in
-- use and not the current one, or no block if none of these has any garbage.
pub fsm_get_dirtiest-Chosen :
    (sup : Super) (fsm : Fsm)
    → Chosen fsm none 0 log_fst_lnum (sup.leb_cnt - log_fst_lnum) (fsm_get_dirtiest_eb sup fsm)
unfolding fsm_get_dirtiest_eb
fsm_get_dirtiest-Chosen sup fsm =
    dirtiest_from-Chosen fsm none 0 log_fst_lnum (sup.leb_cnt - log_fst_lnum)
