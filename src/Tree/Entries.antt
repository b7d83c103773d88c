-- ===== src/Tree/Entries.antt =====
-- Sorted lists of keyed values: what lookup, insertion, change and removal do to one another.
use cogent.Prelude.{
  ℕ, ◌<◌, ◌≤◌, ◌≡◌, refl, List, [], ◌∷◌, ◌++◌, Option, none, some, arith, ltb, ◌==◌, if◌then◌else◌,
}
use cogent.Tree.{find, remove, Above, Below, IsSorted}

module _ {V : Type 0} where
  -- Insertion of a key that may be there already, at its place.
  abbrev pub insert : ℕ → V → List (ℕ × V) → List (ℕ × V)
  insert id w [] = (id, w) ∷ []
  insert id w ((k, v) ∷ xs) =
      if ltb id k
      then (id, w) ∷ (k, v) ∷ xs
      else if id == k
      then (k, v) ∷ xs
      else (k, v) ∷ insert id w xs

  abbrev pub change : ℕ → (V → V) → List (ℕ × V) → List (ℕ × V)
  change id f [] = []
  change id f ((k, v) ∷ xs) = if id == k then (k, f v) ∷ xs else (k, v) ∷ change id f xs

  abbrev pub map_value : (V → V) → Option V → Option V
  map_value f none = none
  map_value f (some v) = some (f v)

  pub find-Above : (b id : ℕ) (xs : List (ℕ × V)) → Above b xs → id ≤ b → find id xs ≡ none
  find-Above b id [] a h = refl
  find-Above b id ((k, v) ∷ xs) a h = ground (arith, find-Above b id xs)

  pub find-Below : (b id : ℕ) (xs : List (ℕ × V)) → Below b xs → b ≤ id → find id xs ≡ none
  find-Below b id [] a h = refl
  find-Below b id ((k, v) ∷ xs) a h = ground (arith, find-Below b id xs)

  Above-imp : (b c : ℕ) (xs : List (ℕ × V)) → c ≤ b → Above b xs → Above c xs
  Above-imp b c [] h a = tt
  Above-imp b c ((k, v) ∷ xs) h a = ground (arith, Above-imp b c xs)

  -- Two sorted runs around a key.
  pub split_around :
      (xs : List (ℕ × V)) (k : ℕ) (v : V) (ys : List (ℕ × V))
      → IsSorted (xs ++ (k, v) ∷ ys)
      → IsSorted xs × Below k xs × Above k ys × IsSorted ys
  split_around [] k v ys s = (tt, tt, s.0, s.1)
  split_around ((j, w) ∷ xs) k v ys s =
      let (sx, bx, ay, sy) = split_around xs k v ys s.1 in
      ((front xs s.0, sx), (middle xs s.0, bx), ay, sy)
    where
      front : (zs : List (ℕ × V)) → Above j (zs ++ (k, v) ∷ ys) → Above j zs
      front [] a = tt
      front ((i, u) ∷ zs) a = (a.0, front zs a.1)

      middle : (zs : List (ℕ × V)) → Above j (zs ++ (k, v) ∷ ys) → j < k
      middle [] a = a.0
      middle ((i, u) ∷ zs) a = middle zs a.1

  pub find-append :
      (id : ℕ) (xs : List (ℕ × V)) (k : ℕ) (v : V) (ys : List (ℕ × V))
      → IsSorted (xs ++ (k, v) ∷ ys)
      → find id (xs ++ (k, v) ∷ ys)
        ≡ (if ltb id k then find id xs else if id == k then some v else find id ys)
  find-append id [] k v ys s = ground (arith, find-Above k id ys s.0)
  find-append id ((j, w) ∷ xs) k v ys s =
      let below = (split_around ((j, w) ∷ xs) k v ys s).1 in
      ground (arith, below, find-append id xs k v ys s.1)

  Above-insert :
      (b id : ℕ) (w : V) (xs : List (ℕ × V)) → b < id → Above b xs → Above b (insert id w xs)
  Above-insert b id w [] h a = (h, tt)
  Above-insert b id w ((k, v) ∷ xs) h a = ground (arith, Above-insert b id w xs)

  pub insert-IsSorted :
      (id : ℕ) (w : V) (xs : List (ℕ × V)) → IsSorted xs → IsSorted (insert id w xs)
  insert-IsSorted id w [] s = (tt, tt)
  insert-IsSorted id w ((k, v) ∷ xs) s =
      ground (arith, insert-IsSorted id w xs, Above-insert k id w xs, Above-imp k id xs)

  Above-remove : (b id : ℕ) (xs : List (ℕ × V)) → Above b xs → Above b (remove id xs)
  Above-remove b id [] a = tt
  Above-remove b id ((k, v) ∷ xs) a = ground (arith, Above-remove b id xs)

  pub remove-IsSorted : (id : ℕ) (xs : List (ℕ × V)) → IsSorted xs → IsSorted (remove id xs)
  remove-IsSorted id [] s = tt
  remove-IsSorted id ((k, v) ∷ xs) s = ground (arith, remove-IsSorted id xs, Above-remove k id xs)

  Above-change : (b id : ℕ) (f : V → V) (xs : List (ℕ × V)) → Above b xs → Above b (change id f xs)
  Above-change b id f [] a = tt
  Above-change b id f ((k, v) ∷ xs) a = ground (arith, Above-change b id f xs)

  pub change-IsSorted :
      (id : ℕ) (f : V → V) (xs : List (ℕ × V)) → IsSorted xs → IsSorted (change id f xs)
  change-IsSorted id f [] s = tt
  change-IsSorted id f ((k, v) ∷ xs) s =
      ground (arith, change-IsSorted id f xs, Above-change k id f xs)

  pub change-Above :
      (b id : ℕ) (f : V → V) (xs : List (ℕ × V)) → Above b xs → id ≤ b → change id f xs ≡ xs
  change-Above b id f [] a h = refl
  change-Above b id f ((k, v) ∷ xs) a h = ground (arith, change-Above b id f xs)

  pub find-insert :
      (id j : ℕ) (w : V) (xs : List (ℕ × V))
      → find id xs ≡ none
      → find j (insert id w xs) ≡ (if id == j then some w else find j xs)
  find-insert id j w [] e = ground arith
  find-insert id j w ((k, v) ∷ xs) e = ground (arith, find-insert id j w xs)

  pub find-change :
      (id j : ℕ) (f : V → V) (xs : List (ℕ × V))
      → find j (change id f xs) ≡ (if id == j then map_value f (find j xs) else find j xs)
  find-change id j f [] = ground arith
  find-change id j f ((k, v) ∷ xs) = ground (arith, find-change id j f xs)

  pub find-remove :
      (id j : ℕ) (xs : List (ℕ × V))
      → IsSorted xs
      → find j (remove id xs) ≡ (if id == j then none else find j xs)
  find-remove id j [] s = ground arith
  find-remove id j ((k, v) ∷ xs) s = ground (arith, find-remove id j xs s.1, find-Above k j xs s.0)
