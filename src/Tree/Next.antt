-- ===== src/Tree/Next.antt =====
-- The descent for the next node finds the least key above a bound.
use cogent.Prelude.{
  ℕ, ◌<◌, ◌≡◌, refl, List, [], ◌∷◌, ◌++◌, Option, none, some, arith, ltb, if◌then◌else◌,
}
use cogent.Tree.{Tree, leaf, node, entries, find, IsSorted, next_greater}
use cogent.Tree.Entries.{split_around, find-Above}

module _ {V : Type 0} where
  -- The first listed node above `id`.
  abbrev pub first_above : ℕ → List (ℕ × V) → Option (ℕ × V)
  first_above id [] = none
  first_above id ((k, v) ∷ xs) = if ltb id k then some (k, v) else first_above id xs

  abbrev pub or_else : Option (ℕ × V) → Option (ℕ × V) → Option (ℕ × V)
  or_else none b = b
  or_else (some a) b = some a

  pub or_else-none : (o : Option (ℕ × V)) → or_else o none ≡ o
  or_else-none none = refl
  or_else-none (some a) = refl

  first_above-append :
      (id : ℕ) (xs : List (ℕ × V)) (k : ℕ) (v : V) (ys : List (ℕ × V))
      → IsSorted (xs ++ (k, v) ∷ ys)
      → first_above id (xs ++ (k, v) ∷ ys)
        ≡ (if ltb id k then or_else (first_above id xs) (some (k, v)) else first_above id ys)
  first_above-append id [] k v ys s = ground arith
  first_above-append id ((j, u) ∷ xs) k v ys s =
      let below = (split_around ((j, u) ∷ xs) k v ys s).1 in
      ground (arith, below, first_above-append id xs k v ys s.1)

  pub next_greater-first_above :
      (t : Tree V) (id : ℕ) (best : Option (ℕ × V))
      → IsSorted (entries t)
      → next_greater t id best ≡ or_else (first_above id (entries t)) best
  unfolding next_greater
  next_greater-first_above leaf id best s = refl
  next_greater-first_above (node l k v r) id best s =
      let (sl, bl, ar, sr) = split_around (entries l) k v (entries r) s in
      ground (
        arith,
        next_greater-first_above l id (some (k, v)) sl,
        next_greater-first_above r id best sr,
        first_above-append id (entries l) k v (entries r) s,
      )

  -- It is listed, above the bound, and nothing is listed between.
  pub first_above-some :
      (id : ℕ) (xs : List (ℕ × V)) {k : ℕ} {v : V}
      → first_above id xs ≡ some (k, v)
      → (id < k) × (find k xs ≡ some v)
  first_above-some id [] {k} {v} e = cc
  first_above-some id ((i, u) ∷ xs) {k} {v} e =
      ground (arith, first_above-some id xs {k = k} {v = v})

  pub first_above-least :
      (id j : ℕ) (xs : List (ℕ × V)) {k : ℕ} {v : V}
      → IsSorted xs
      → first_above id xs ≡ some (k, v)
      → id < j
      → j < k
      → find j xs ≡ none
  first_above-least id j [] s e p q = refl
  first_above-least id j ((i, u) ∷ xs) {k} {v} s e p q =
      ground (arith, first_above-least id j xs {k = k} {v = v} s.1, find-Above i j xs s.0)

  pub first_above-none :
      (id j : ℕ) (xs : List (ℕ × V)) → first_above id xs ≡ none → id < j → find j xs ≡ none
  first_above-none id j [] e h = refl
  first_above-none id j ((i, u) ∷ xs) e h = ground (arith, first_above-none id j xs)
