-- ===== src/Tree/Search.antt =====
-- On a tree whose nodes are in order, the descents of the source do what the operations on its
-- sorted list of nodes do.
use cogent.Prelude.{ℕ, ◌≡◌, refl, List, [], ◌∷◌, ◌++◌, arith, ltb, ◌==◌, if◌then◌else◌}
use cogent.Tree.{Tree, leaf, node, entries, find, IsSorted, search, link, store}
use cogent.Tree.Entries.{insert, change, change-Above, split_around, find-append}

module _ {V : Type 0} where
  -- The search finds exactly what is listed.
  pub search-find : (t : Tree V) (id : ℕ) → IsSorted (entries t) → search t id ≡ find id (entries t)
  unfolding search
  search-find leaf id s = refl
  search-find (node l k v r) id s =
      let (sl, bl, ar, sr) = split_around (entries l) k v (entries r) s in
      ground (
        arith,
        search-find l id sl,
        search-find r id sr,
        find-append id (entries l) k v (entries r) s,
      )

  insert-append :
      (id : ℕ) (w : V) (xs : List (ℕ × V)) (k : ℕ) (v : V) (ys : List (ℕ × V))
      → IsSorted (xs ++ (k, v) ∷ ys)
      → insert id w (xs ++ (k, v) ∷ ys) ≡ (
          if ltb id k
          then insert id w xs ++ (k, v) ∷ ys
          else if id == k
          then xs ++ (k, v) ∷ ys
          else xs ++ (k, v) ∷ insert id w ys)
  insert-append id w [] k v ys s = ground arith
  insert-append id w ((j, u) ∷ xs) k v ys s =
      let below = (split_around ((j, u) ∷ xs) k v ys s).1 in
      ground (arith, below, insert-append id w xs k v ys s.1)

  -- Linking a node inserts it at its place in the order.
  pub entries-link :
      (t : Tree V) (id : ℕ) (w : V)
      → IsSorted (entries t)
      → entries (link t id w) ≡ insert id w (entries t)
  unfolding link
  entries-link leaf id w s = refl
  entries-link (node l k v r) id w s =
      let (sl, bl, ar, sr) = split_around (entries l) k v (entries r) s in
      ground (
        arith,
        entries-link l id w sl,
        entries-link r id w sr,
        insert-append id w (entries l) k v (entries r) s,
      )

  change-append :
      (id : ℕ) (f : V → V) (xs : List (ℕ × V)) (k : ℕ) (v : V) (ys : List (ℕ × V))
      → IsSorted (xs ++ (k, v) ∷ ys)
      → change id f (xs ++ (k, v) ∷ ys) ≡ (
          if ltb id k
          then change id f xs ++ (k, v) ∷ ys
          else if id == k
          then xs ++ (k, f v) ∷ ys
          else xs ++ (k, v) ∷ change id f ys)
  change-append id f [] k v ys s = ground (arith, change-Above k id f ys s.0)
  change-append id f ((j, u) ∷ xs) k v ys s =
      let below = (split_around ((j, u) ∷ xs) k v ys s).1 in
      ground (arith, below, change-append id f xs k v ys s.1)

  -- A write through a node's pointer changes that node in the order.
  pub entries-store :
      (t : Tree V) (id : ℕ) (f : V → V)
      → IsSorted (entries t)
      → entries (store t id f) ≡ change id f (entries t)
  unfolding store
  entries-store leaf id f s = refl
  entries-store (node l k v r) id f s =
      let (sl, bl, ar, sr) = split_around (entries l) k v (entries r) s in
      ground (
        arith,
        entries-store l id f sl,
        entries-store r id f sr,
        change-append id f (entries l) k v (entries r) s,
      )
