-- ===== src/Fsm/Space.antt =====
-- How the count of free blocks, the free bytes and the test for free space hang together.
use cogent.Prelude.{
  ℕ, zero, suc, ◌+◌, ◌-◌, ◌*◌, ◌%◌, ◌^◌, ◌≤◌, ◌<◌, ◌≡◌, ◌↔◌, ◌⊎◌, refl, ap, ◌∙◌, Bool, true, false,
  List, [], ◌∷◌, arith, length, get_or, if◌then◌else◌, Bool-cases, inl, inr,
}
use native.Mathlib.Nat.{zero-add}
use cogent.Types.{Super, Fsm, ok, log_fst_lnum, osw_gc, osw_del, has_flag}
use cogent.Fsm.{
  fsm_check_free_space, free_space_from, fsm_get_free_space, fsm_get_available_space, is_used,
}
use cogent.Fsm.Inv.{IsFsm, used_count}

-- The free blocks among `n` from `i` on.
abbrev pub free_count : List Bool → ℕ → ℕ → ℕ
free_count used i zero = 0
free_count used i (suc n) = (if get_or used i false then 0 else 1) + free_count used (i + 1) n

free_count-cons :
    (u : Bool) (used : List Bool) (i n : ℕ) → free_count (u ∷ used) (suc i) n ≡ free_count used i n
free_count-cons u used i zero = refl
free_count-cons u used i (suc n) =
    ap (λ (k : ℕ). (if get_or used i false then 0 else 1) + k)
      (ap (λ (j : ℕ). free_count (u ∷ used) j n) (omega arith) ∙ free_count-cons u used (i + 1) n)

free_count-used :
    (used : List Bool) → free_count used 0 (length used) + used_count used ≡ length used
free_count-used [] = refl
free_count-used (true ∷ used) =
    omega (arith, free_count-used used, free_count-cons true used 0 (length used))
free_count-used (false ∷ used) =
    omega (arith, free_count-used used, free_count-cons false used 0 (length used))

-- Three free blocks stand below the log.
free_count-log :
    (used : List Bool)
    → log_fst_lnum ≤ length used
    → ((i : ℕ) → i < log_fst_lnum → get_or used i false ≡ false)
    → free_count used log_fst_lnum (length used - log_fst_lnum) + used_count used + 3 ≡ length used
free_count-log [] h r = absurd (omega arith)
free_count-log (a ∷ []) h r = absurd (omega arith)
free_count-log (a ∷ b ∷ []) h r = absurd (omega arith)
free_count-log (true ∷ b ∷ c ∷ used) h r = cc (r 0 (omega arith))
free_count-log (false ∷ true ∷ c ∷ used) h r = cc (r 1 (omega arith))
free_count-log (false ∷ false ∷ true ∷ used) h r = cc (r 2 (omega arith))
free_count-log (false ∷ false ∷ false ∷ used) h r =
    let n = length used in
    let e : suc (suc (suc n)) - 3 ≡ n = omega arith in
    rw e (
      omega (
        arith,
        free_count-used used,
        free_count-cons false (false ∷ false ∷ used) 2 n,
        free_count-cons false (false ∷ used) 1 n,
        free_count-cons false used 0 n,
      ))

-- The blocks that count as free are those of the log that are, and the three below it.
pub nb_free-free_count :
    (sup : Super) (fsm : Fsm)
    → log_fst_lnum ≤ sup.leb_cnt
    → IsFsm sup fsm
    → fsm.fsm_nb_free_eb
      ≡ free_count fsm.used_leb_list log_fst_lnum (sup.leb_cnt - log_fst_lnum) + 3
nb_free-free_count sup fsm h v =
    let c = free_count-log fsm.used_leb_list (omega (arith, v.used_len)) v.reserved in
    omega (arith, rw v.used_len at c, v.counted)

free_space_from-count :
    (sup : Super) (fsm : Fsm) (acc i n : ℕ)
    → acc < 2 ^ 64
    → free_space_from sup fsm acc i n
      ≡ (acc + sup.leb_size * free_count fsm.used_leb_list i n) % 2 ^ 64
unfolding free_space_from
free_space_from-count sup fsm acc i zero h = omega arith
free_space_from-count sup fsm acc i (suc n) h = elim (Bool-cases (is_used fsm i)) [
  | inl e ↦ rw e (rw zero-add (free_space_from-count sup fsm acc (i + 1) n h))
  | inr e ↦ rw e (
      omega (
        arith,
        free_space_from-count sup fsm ((acc + sup.leb_size) % 2 ^ 64) (i + 1) n (omega arith),
      ))
]

-- The free space that is reported is that of the free blocks of the log, which are three less than
-- the count of free blocks, at the width of the sum.
pub fsm_get_free_space-nb_free :
    (sup : Super) (fsm : Fsm)
    → log_fst_lnum ≤ sup.leb_cnt
    → IsFsm sup fsm
    → fsm_get_free_space sup fsm ≡ sup.leb_size * (fsm.fsm_nb_free_eb - 3) % 2 ^ 64
unfolding fsm_get_free_space
fsm_get_free_space-nb_free sup fsm h v =
    let n = free_count fsm.used_leb_list log_fst_lnum (sup.leb_cnt - log_fst_lnum) in
    let e : fsm.fsm_nb_free_eb - 3 ≡ n = omega (arith, nb_free-free_count sup fsm h v) in
    rw e (
      free_space_from-count sup fsm 0 log_fst_lnum (sup.leb_cnt - log_fst_lnum) (omega arith)
      ∙ ap (λ (k : ℕ). k % 2 ^ 64) (omega arith))

-- The available space leaves out the reserved blocks, and is 0 where the free space does not
-- cover them, as long as the sizes fit the C types.
pub fsm_get_available_space-nb_free :
    (sup : Super) (fsm : Fsm)
    → log_fst_lnum ≤ sup.leb_cnt
    → IsFsm sup fsm
    → (sup.nb_reserved_gc + sup.nb_reserved_del) * sup.leb_size < 2 ^ 31
    → sup.leb_size * (fsm.fsm_nb_free_eb - 3) < 2 ^ 64
    → fsm_get_available_space sup fsm
      ≡ sup.leb_size * (fsm.fsm_nb_free_eb - 3)
        - (sup.nb_reserved_gc + sup.nb_reserved_del) * sup.leb_size
unfolding fsm_get_available_space
fsm_get_available_space-nb_free sup fsm h v small small' =
    rw (fsm_get_free_space-nb_free sup fsm h v) (ground arith)

-- The test for free space passes exactly when enough blocks count as free: always for the garbage
-- collector, above its reserve for a deletion, and above both reserves for anything else.
pub fsm_check_free_space_iff :
    (sup : Super) (fsm : Fsm) (osw_flag : ℕ)
    → sup.nb_reserved_del + sup.nb_reserved_gc < 2 ^ 32
    → (fsm_check_free_space sup fsm osw_flag ≡ ok tt) ↔ (
        (has_flag osw_flag osw_gc ≡ true)
        ⊎ ((sup.nb_reserved_gc ≤ fsm.fsm_nb_free_eb)
            × ((has_flag osw_flag osw_del ≡ true)
                ⊎ (sup.nb_reserved_del + sup.nb_reserved_gc ≤ fsm.fsm_nb_free_eb))))
unfolding fsm_check_free_space
fsm_check_free_space_iff sup fsm osw_flag h = (λ e. ground arith, λ e. ground arith)

-- With a reserve of at most three blocks for the garbage collector, as the default is, a deletion
-- passes the test in every state, also when it takes the last free block of the log: the count of
-- free blocks includes the three that are never allocated.
pub deletion_never_refused :
    (sup : Super) (fsm : Fsm) (osw_flag : ℕ)
    → log_fst_lnum ≤ sup.leb_cnt
    → IsFsm sup fsm
    → sup.nb_reserved_gc ≤ 3
    → has_flag osw_flag osw_del ≡ true
    → fsm_check_free_space sup fsm osw_flag ≡ ok tt
unfolding fsm_check_free_space
deletion_never_refused sup fsm osw_flag h v few del = ground (arith, nb_free-free_count sup fsm h v)
