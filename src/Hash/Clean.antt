-- ===== src/Hash/Clean.antt =====
-- The clean-up loops end with every bucket empty, and free each node once.
use cogent.Prelude.{
  ℕ, zero, suc, ◌+◌, ◌-◌, ◌≤◌, ◌<◌, ◌≡◌, refl, ap, ◌∙◌, List, [], ◌∷◌, arith, length,
}
use native.Mathlib.Decide.{dec_lt}
use cogent.Types.{Pool}
use cogent.Pool.{allocpool_free_single}
use cogent.Tree.{Tree, entries, remove, first_key, IsSorted, Rbt}
use cogent.Hash.{Table, set_bucket, IsTable, clean_bucket, clean_buckets}
use cogent.Hash.Laws.{set_bucket-IsTable}

-- The nodes in the first `n` buckets.
abbrev pub node_count : {V : Type 0} → ℕ → Table V → ℕ
node_count zero table = 0
node_count (suc i) table = node_count i table + length (entries (table i))

remove-first : {V : Type 0} (k : ℕ) (v : V) (xs : List (ℕ × V)) → remove k ((k, v) ∷ xs) ≡ xs
remove-first k v xs = ground arith

module _ (rbt : Rbt) {V : Type 0} where
  clean_bucket-empty :
      (fuel : ℕ) (t : Tree V) (p : Pool) (xs : List (ℕ × V))
      → entries t ≡ xs
      → IsSorted xs
      → length xs ≤ fuel
      → (entries (clean_bucket rbt fuel t p).0 ≡ [])
        × ((clean_bucket rbt fuel t p).1.live ≡ p.live - length xs)
  unfolding clean_bucket allocpool_free_single
  clean_bucket-empty zero t p [] e s h = (e, omega arith)
  clean_bucket-empty zero t p ((k, v) ∷ xs) e s h = absurd (omega arith)
  clean_bucket-empty (suc fuel) t p [] e s h =
      rw (rbt.first_lem t ∙ ap first_key e, clean_bucket) (e, omega arith)
  clean_bucket-empty (suc fuel) t p ((k, v) ∷ xs) e s h =
      let rest : entries (rbt.erase t k) ≡ xs =
        rbt.entries-erase t k (rw e s) ∙ ap (remove k) e ∙ remove-first k v xs in
      let (empty, freed) =
        clean_bucket-empty fuel (rbt.erase t k) (allocpool_free_single p) xs rest s.1
          (omega arith) in
      rw (rbt.first_lem t ∙ ap first_key e, clean_bucket) (empty, omega arith)

  set_bucket_above :
      (n h : ℕ) (table : Table V) (t : Tree V)
      → n ≤ h
      → node_count n (set_bucket table h t) ≡ node_count n table
  set_bucket_above zero h table t le = refl
  set_bucket_above (suc n) h table t le = ground (arith, set_bucket_above n h table t)

  clean_buckets_keep :
      (n h : ℕ) (table : Table V) (p : Pool) → n ≤ h → (clean_buckets rbt n table p).0 h ≡ table h
  unfolding clean_buckets
  clean_buckets_keep zero h table p le = refl
  clean_buckets_keep (suc n) h table p le =
      let (t, p') = clean_bucket rbt (length (entries (table n))) (table n) p in
      ground (arith, clean_buckets_keep n h (set_bucket table n t) p')

  -- Cleaning `n` buckets empties each of them and frees as many nodes as they held.
  pub clean_buckets-empty :
      (n : ℕ) (table : Table V) (p : Pool)
      → IsTable table
      → ((h : ℕ) → h < n → entries ((clean_buckets rbt n table p).0 h) ≡ [])
        × ((clean_buckets rbt n table p).1.live ≡ p.live - node_count n table)
  unfolding clean_buckets
  clean_buckets-empty zero table p ok = (λ h lt. absurd (omega arith), omega arith)
  clean_buckets-empty (suc n) table p ok =
      let (t, p') = clean_bucket rbt (length (entries (table n))) (table n) p in
      let (empty, freed) =
        clean_bucket-empty (length (entries (table n))) (table n) p (entries (table n)) refl (ok n)
          (omega arith) in
      let sorted : IsSorted (entries t) = rw empty tt in
      let (all, count) =
        clean_buckets-empty n (set_bucket table n t) p' (set_bucket-IsTable table n t ok sorted) in
      let top : entries ((clean_buckets rbt n (set_bucket table n t) p').0 n) ≡ [] =
        rw (clean_buckets_keep n n (set_bucket table n t) p' (omega arith))
          (ground (arith, empty)) in
      (
        λ h lt. elim (dec_lt h n) [
          | yes below ↦ all h below
          | no above ↦ let e : h ≡ n = omega arith in rw e top
        ],
        omega (arith, set_bucket_above n n table t (omega arith)),
      )
