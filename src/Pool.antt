-- ===== src/Pool.antt =====
-- impl/fs/bilby/c/allocpool.c: the pool of index and garbage nodes that a transaction allocates in
-- advance. The kernel's allocator is a parameter: `mem n` says whether its n-th request is granted.
-- A result `none` is a failed `bilbyfs_assert` or a read through NULL.
pub mod Slots
pub mod Ready
use cogent.Prelude.{
  ℕ, zero, suc, ◌+◌, ◌-◌, Bool, true, false, List, [], ◌∷◌, map, Option, none, some, length,
  get_elem?, set, replicate, ltb, leb, ◌==◌, if◌then◌else◌,
}
use cogent.Types.{Pool, Result, ok, err, Errno, enomem}

-- The number of nodes in an array of slots.
abbrev pub held : List Bool → ℕ
held [] = 0
held (true ∷ slots) = suc (held slots)
held (false ∷ slots) = held slots

-- `memset(pool->arr, 0, …)`.
abbrev pub nulls : List Bool → List Bool
nulls = map (λ _. false)

unfoldable pub allocpool_empty : Pool → Option Pool
allocpool_empty p = elim p.arr [
  | none ↦ if p.len == 0 then some (record p { i = 0 }) else none
  | some slots ↦ some (record p { arr = some (nulls slots); live = p.live - held slots; i = 0 })
]

unfoldable pub allocpool_free_single : Pool → Pool
allocpool_free_single p = record p { live = p.live - 1 }

-- `allocpool_destroy`: the slab goes, and the array.
unfoldable pub allocpool_destroy : Pool → Pool
allocpool_destroy p = record p { arr = none }

-- What follows once the slots are filled, or one was refused.
unfoldable pub alloc_done : Bool × Pool × List Bool → Option (Result (Unit {0}) × Pool)
unfolding allocpool_empty
alloc_done (true, p, slots) = some (ok tt, record p { arr = some slots })
alloc_done (false, p, slots) = elim (allocpool_empty (record p { arr = some slots })) [
  | none ↦ none
  | some p' ↦ some (err enomem, p')
]

-- Takes the node at the next index.
unfoldable pub take_slot : Pool → Option Pool
take_slot p = elim p.arr [
  | none ↦ none
  | some slots ↦ elim (get_elem? slots p.i) [
    | some true ↦ some (record p { arr = some (set slots p.i false); i = p.i + 1 })
    | _ ↦ none
  ]
]

module _ (mem : ℕ → Bool) where
  -- `kmem_cache_alloc`.
  unfoldable pub cache_alloc : Pool → Bool × Pool
  cache_alloc p =
      let got = mem p.calls in
      (got, record p { calls = p.calls + 1; live = if got then p.live + 1 else p.live })

  -- The loop of `allocpool_alloc` over the slots that are left.
  unfoldable pub fill_slots : Pool → List Bool → Bool × Pool × List Bool
  unfolding cache_alloc
  fill_slots p [] = (true, p, [])
  fill_slots p (slot ∷ slots) =
      let (got, p') = cache_alloc p in
      let (filled, p'', rest) = fill_slots p' slots in
      if got then (filled, p'', true ∷ rest) else (false, p', false ∷ slots)

  -- The array grows if it is shorter than asked for.
  unfoldable pub grow : Pool → ℕ → ℕ → Pool
  grow p sz_pool sz_obj =
      if ltb p.len sz_pool
      then record p {
        sz_obj = sz_obj;
        len = sz_pool;
        arr = if mem p.calls then some (replicate sz_pool false) else none;
        calls = p.calls + 1;
      }
      else p

  -- The second half of `allocpool_alloc`, on the array of the pool that was grown.
  unfoldable pub fill_array : Option (List Bool) → Pool → Option (Result (Unit {0}) × Pool)
  unfolding alloc_done fill_slots
  fill_array none grown = some (err enomem, grown)
  fill_array (some slots) grown = alloc_done (fill_slots (record grown { i = 0 }) (nulls slots))

  unfoldable pub allocpool_alloc : Pool → ℕ → ℕ → Option (Result (Unit {0}) × Pool)
  unfolding grow fill_array
  allocpool_alloc p sz_pool sz_obj = let grown = grow p sz_pool sz_obj in fill_array grown.arr grown

  -- The refill of `allocpool_pop`, which asserts that it succeeded.
  unfoldable pub refill : Pool → Option Pool
  unfolding allocpool_alloc
  refill p =
      if leb p.len p.i
      then (elim (allocpool_alloc p p.len p.sz_obj) [ some (ok u, p') ↦ some p' | _ ↦ none ])
      else some p

  unfoldable pub allocpool_pop : Pool → Option Pool
  unfolding refill take_slot
  allocpool_pop p = elim (refill (record p { tot_nodes_needed = p.tot_nodes_needed + 1 })) [
    | none ↦ none
    | some p' ↦ take_slot p'
  ]
