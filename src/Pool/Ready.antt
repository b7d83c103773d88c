-- ===== src/Pool/Ready.antt =====
-- A pool that was allocated in advance hands out its nodes without asking the kernel, and what it
-- holds is accounted for.
use cogent.Prelude.{
  ℕ, suc, ◌+◌, ◌≤◌, ◌<◌, ◌≡◌, refl, ◌∙◌, Bool, true, false, List, [], ◌∷◌, Option, none, some,
  arith, length, get_elem?, set, length-set, length-map, length-replicate, Bool-cases, inl, inr,
}
use cogent.Pool.Slots.{
  FullFrom, FullFrom-get, FullFrom-set, held-set, held-nulls, held-FullFrom, FullFrom-at,
}
use native.Mathlib.Numerals.{add-one}
use cogent.Types.{Pool, Result, ok, err, enomem}
use cogent.Pool.{
  held, nulls, cache_alloc, fill_slots, grow, alloc_done, allocpool_alloc, fill_array, refill,
  take_slot, allocpool_pop, allocpool_free_single,
}

-- The slots of the array, if there is one.
abbrev pub slots_of : Option (List Bool) → List Bool
slots_of none = []
slots_of (some slots) = slots

-- An array that is there has the recorded length.
abbrev pub FitsLength : Option (List Bool) → ℕ → Type 0
FitsLength none n = Unit
FitsLength (some slots) n = length slots ≡ n

-- The array is there with the recorded length, and from the next index on it is full.
pub record IsReady (p : Pool) : Type 0 where
  pub present : p.arr ≡ some (slots_of p.arr)
  pub sized : length (slots_of p.arr) ≡ p.len
  pub full : FullFrom p.i (slots_of p.arr)

-- What the loop leaves, whether or not it was refused a node: it took as many nodes from the
-- kernel as the slots hold now, and changed nothing else that counts.
record Filled (p : Pool) (n : ℕ) (out : Bool × Pool × List Bool) : Type 0 where
  live : out.1.live ≡ p.live + held out.2
  len : out.1.len ≡ p.len
  next : out.1.i ≡ p.i
  size : length out.2 ≡ n

-- How `allocpool_alloc` may end: never by a failed assertion; refused by the kernel, with every
-- node that it took given back; or ready.
abbrev pub Allocated : ℕ → ℕ → Option (Result (Unit {0}) × Pool) → Type 0
Allocated live sz_pool none = ⊥
Allocated live sz_pool (some (err e, p)) = (e ≡ enomem) × (p.live ≡ live) × FitsLength p.arr p.len
Allocated live sz_pool (some (ok u, p)) =
    IsReady p × (p.i ≡ 0) × (sz_pool ≤ p.len) × (p.live ≡ live + p.len)

alloc_done-Allocated :
    (p : Pool) (sz_pool : ℕ) (out : Bool × Pool × List Bool)
    → sz_pool ≤ p.len
    → p.i ≡ 0
    → Filled p p.len out
    → (out.0 ≡ true → FullFrom 0 out.2)
    → Allocated p.live sz_pool (alloc_done out)
unfolding alloc_done
alloc_done-Allocated p sz_pool (true, q, slots) le z f full = (
  record {
    present = refl;
    sized = omega (arith, f.size, f.len);
    full = FullFrom-at q.i slots (omega (arith, f.next)) (full refl);
  },
  omega (arith, f.next),
  omega (arith, f.len),
  omega (arith, f.live, f.len, f.size, held-FullFrom slots (full refl)),
)
alloc_done-Allocated p sz_pool (false, q, slots) le z f full = (
  refl,
  omega (arith, f.live),
  omega (arith, length-map slots (λ (b : Bool). false), f.size, f.len),
)

-- What is left of a pool whose next node was taken.
abbrev pub popped : Pool → Pool
popped p = record p {
  tot_nodes_needed = p.tot_nodes_needed + 1;
  arr = some (set (slots_of p.arr) p.i false);
  i = p.i + 1;
}

popped-IsReady : (p : Pool) → IsReady p → IsReady (popped p)
popped-IsReady p r = record {
  present = refl;
  sized = length-set (slots_of p.arr) p.i false ∙ r.sized;
  full = let full' = FullFrom-set p.i (slots_of p.arr) r.full in rw add-one full';
}

take_slot-lem :
    (p : Pool) (slots : List Bool)
    → p.arr ≡ some slots
    → get_elem? slots p.i ≡ some true
    → take_slot p ≡ some (record p { arr = some (set slots p.i false); i = p.i + 1 })
unfolding take_slot
take_slot-lem p slots e g = ground arith

module _ (mem : ℕ → Bool) where
  fill_slots-Filled :
      (p : Pool) (slots : List Bool)
      → held slots ≡ 0
      → Filled p (length slots) (fill_slots mem p slots)
  unfolding fill_slots
  fill_slots-Filled p [] z = omega arith
  fill_slots-Filled p (true ∷ slots) z = absurd (omega arith)
  fill_slots-Filled p (false ∷ slots) z = elim (Bool-cases (mem p.calls)) [
    | inl e ↦ ground (arith, fill_slots-Filled (cache_alloc mem p).1 slots z)
    | inr e ↦ rw e (omega arith)
  ]

  fill_slots-FullFrom :
      (p : Pool) (slots : List Bool)
      → (fill_slots mem p slots).0 ≡ true
      → FullFrom 0 (fill_slots mem p slots).2
  unfolding fill_slots
  fill_slots-FullFrom p [] e = tt
  fill_slots-FullFrom p (slot ∷ slots) e =
      ground (arith, fill_slots-FullFrom (cache_alloc mem p).1 slots)

  fill-Allocated :
      (p : Pool) (sz_pool : ℕ) (slots : List Bool)
      → sz_pool ≤ p.len
      → p.i ≡ 0
      → length slots ≡ p.len
      → Allocated p.live sz_pool (alloc_done (fill_slots mem p (nulls slots)))
  fill-Allocated p sz_pool slots le z e =
      let n = length-map slots (λ (b : Bool). false) in
      let f = fill_slots-Filled p (nulls slots) (held-nulls slots) in
      alloc_done-Allocated p sz_pool (fill_slots mem p (nulls slots)) le z
        (record { live = f.live; len = f.len; next = f.next; size = omega (arith, f.size) })
        (fill_slots-FullFrom p (nulls slots))

  fill_array-Allocated :
      (arr : Option (List Bool)) (g : Pool) (sz_pool : ℕ)
      → sz_pool ≤ g.len
      → FitsLength arr g.len
      → FitsLength g.arr g.len
      → Allocated g.live sz_pool (fill_array mem arr g)
  unfolding fill_array
  fill_array-Allocated none g sz_pool le e f = (refl, refl, f)
  fill_array-Allocated (some slots) g sz_pool le e f =
      fill-Allocated (record g { i = 0 }) sz_pool slots le refl e

  grow-FitsLength :
      (p : Pool) (sz_pool sz_obj : ℕ)
      → FitsLength p.arr p.len
      → FitsLength (grow mem p sz_pool sz_obj).arr (grow mem p sz_pool sz_obj).len
  unfolding grow
  grow-FitsLength p sz_pool sz_obj f = ground (arith, length-replicate sz_pool false)

  grow-len :
      (p : Pool) (sz_pool sz_obj : ℕ)
      → (sz_pool ≤ (grow mem p sz_pool sz_obj).len) × ((grow mem p sz_pool sz_obj).live ≡ p.live)
  unfolding grow
  grow-len p sz_pool sz_obj = ground arith

  -- `allocpool_alloc` never fails an assertion. Refused, it reports -ENOMEM and holds no more
  -- nodes than before; granted, the pool is full from its first slot on, with as many slots as were
  -- asked for, and its nodes are counted as live.
  pub allocpool_alloc-Allocated :
      (p : Pool) (sz_pool sz_obj : ℕ)
      → FitsLength p.arr p.len
      → Allocated p.live sz_pool (allocpool_alloc mem p sz_pool sz_obj)
  unfolding allocpool_alloc
  allocpool_alloc-Allocated p sz_pool sz_obj fits =
      let g = grow mem p sz_pool sz_obj in
      let f = grow-FitsLength p sz_pool sz_obj fits in
      let (big, same) = grow-len p sz_pool sz_obj in
      rw same at (fill_array-Allocated g.arr g sz_pool big f f)

  refill-enough : (p : Pool) → p.i < p.len → refill mem p ≡ some p
  unfolding refill
  refill-enough p h = ground arith

  -- A ready pool with a node left hands it out, whatever the kernel would answer; it stays ready,
  -- and it holds one node less.
  pub allocpool_pop-IsReady :
      (p : Pool)
      → IsReady p
      → p.i < p.len
      → (allocpool_pop mem p ≡ some (popped p))
        × IsReady (popped p)
        × (held (slots_of (popped p).arr) + 1 ≡ held (slots_of p.arr))
  unfolding allocpool_pop
  allocpool_pop-IsReady p r h =
      let p1 : Pool = record p { tot_nodes_needed = p.tot_nodes_needed + 1 } in
      let g = FullFrom-get p.i (slots_of p.arr) r.full (omega (arith, r.sized)) in
      (
        rw (refill-enough p1 h, allocpool_pop) (take_slot-lem p1 (slots_of p.arr) r.present g),
        popped-IsReady p r,
        held-set p.i (slots_of p.arr) g,
      )

-- A ready pool with at least `n` nodes left.
pub record HasLeft (n : ℕ) (p : Pool) : Type 0 where
  pub ready : IsReady p
  pub room : p.i + n ≤ p.len

pub HasLeft-weaken : (n m : ℕ) (p : Pool) → m ≤ n → HasLeft n p → HasLeft m p
HasLeft-weaken n m p le h = record { ready = h.ready; room = omega (arith, h.room) }

pub free_single-HasLeft : (n : ℕ) (p : Pool) → HasLeft n p → HasLeft n (allocpool_free_single p)
unfolding allocpool_free_single
free_single-HasLeft n p h = record {
  ready = record { present = h.ready.present; sized = h.ready.sized; full = h.ready.full };
  room = h.room;
}

pub pop-HasLeft :
    (mem : ℕ → Bool) (n : ℕ) (p : Pool)
    → HasLeft (suc n) p
    → (allocpool_pop mem p ≡ some (popped p)) × HasLeft n (popped p)
pop-HasLeft mem n p h =
    let (e, r, c) = allocpool_pop-IsReady mem p h.ready (omega (arith, h.room)) in
    (e, record { ready = r; room = omega (arith, h.room) })
