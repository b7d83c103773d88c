-- ===== src/Tree.antt =====
-- Trees of objects: the nodes that impl/fs/bilby/c/idx.c and gim.c hang into one bucket of their
-- hash table. The balancing of rbt.c, a copy of the Linux red-black tree, is a parameter: of
-- `rbt_insert_color` and `rbt_erase` the code uses that they keep the nodes' order. A node is
-- named by its id, which is unique in a tree; `link` is `rbt_link_node` at the place where the
-- descent ended.
pub mod Entries
pub mod Search
pub mod Next
use cogent.Prelude.{
  ℕ, ◌<◌, ◌≡◌, List, [], ◌∷◌, ◌++◌, Option, none, some, compare, Ordering, Bool, true, false, ltb,
  if◌then◌else◌, ◌==◌,
}

pub data Tree {ℓ} (V : Type ℓ) : Type ℓ where
  leaf : Tree V
  node : Tree V → ℕ → V → Tree V → Tree V

module _ {ℓ} {V : Type ℓ} where
  -- The nodes from left to right, `rbt_first` first.
  abbrev pub entries : Tree V → List (ℕ × V)
  entries leaf = []
  entries (node l k v r) = entries l ++ (k, v) ∷ entries r

  -- The first node of a list with the given id, and the list without it.
  abbrev pub find : ℕ → List (ℕ × V) → Option V
  find id [] = none
  find id ((k, v) ∷ xs) = if id == k then some v else find id xs

  abbrev pub remove : ℕ → List (ℕ × V) → List (ℕ × V)
  remove id [] = []
  remove id ((k, v) ∷ xs) = if id == k then xs else (k, v) ∷ remove id xs

  -- Every key is above `b`; below `b`; strictly ascending keys.
  abbrev pub Above : ℕ → List (ℕ × V) → Type 0
  Above b [] = Unit
  Above b ((k, v) ∷ xs) = (b < k) × Above b xs

  abbrev pub Below : ℕ → List (ℕ × V) → Type 0
  Below b [] = Unit
  Below b ((k, v) ∷ xs) = (k < b) × Below b xs

  abbrev pub IsSorted : List (ℕ × V) → Type 0
  IsSorted [] = Unit
  IsSorted ((k, v) ∷ xs) = Above k xs × IsSorted xs

  -- The loop of `idx_index_search` and of `gim_index_search`.
  unfoldable pub search : Tree V → ℕ → Option V
  search leaf id = none
  search (node l k v r) id = elim (compare id k) [
    | Ordering.lt ↦ search l id
    | Ordering.gt ↦ search r id
    | Ordering.eq ↦ some v
  ]

  -- Hangs a new node at the null link where the search for its id ends.
  unfoldable pub link : Tree V → ℕ → V → Tree V
  link leaf id w = node leaf id w leaf
  link (node l k v r) id w = elim (compare id k) [
    | Ordering.lt ↦ node (link l id w) k v r
    | Ordering.gt ↦ node l k v (link r id w)
    | Ordering.eq ↦ node l k v r
  ]

  -- A write through the pointer to the node with the given id.
  unfoldable pub store : Tree V → ℕ → (V → V) → Tree V
  store leaf id f = leaf
  store (node l k v r) id f = elim (compare id k) [
    | Ordering.lt ↦ node (store l id f) k v r
    | Ordering.gt ↦ node l k v (store r id f)
    | Ordering.eq ↦ node l k (f v) r
  ]

  -- The loop of `idx_next_obj_id` and of `gim_next_node`: the last node left of which it went.
  unfoldable pub next_greater : Tree V → ℕ → Option (ℕ × V) → Option (ℕ × V)
  next_greater leaf id best = best
  next_greater (node l k v r) id best = elim (ltb id k) [
    | true ↦ next_greater l id (some (k, v))
    | false ↦ next_greater r id best
  ]

  abbrev pub first_key : List (ℕ × V) → Option ℕ
  first_key [] = none
  first_key ((k, v) ∷ xs) = some k

-- rbt.c: `insert_color` after a link and `erase` keep the order of the other nodes, and `first` is
-- the first node in that order.
pub record Rbt : Type 1 where
  pub insert_color : {V : Type 0} → Tree V → ℕ → Tree V
  pub erase : {V : Type 0} → Tree V → ℕ → Tree V
  pub first : {V : Type 0} → Tree V → Option ℕ
  pub first_lem : {V : Type 0} (t : Tree V) → first t ≡ first_key (entries t)
  pub entries-insert_color :
      {V : Type 0} (t : Tree V) (id : ℕ) → entries (insert_color t id) ≡ entries t
  pub entries-erase :
      {V : Type 0} (t : Tree V) (id : ℕ)
      → IsSorted (entries t)
      → entries (erase t id) ≡ remove id (entries t)
