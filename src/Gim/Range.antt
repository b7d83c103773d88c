-- ===== src/Gim/Range.antt =====
-- The loop of `gim_is_removable` over the garbage of an inode from an id on: what it answers, and
-- that its fuel is enough.
use cogent.Prelude.{
  ℕ, zero, suc, ◌+◌, ◌≤◌, ◌<◌, ◌≡◌, ◌≢◌, refl, sym, ap, ◌∙◌, Bool, true, false, ◌&&◌, List, [], ◌∷◌,
  Option, none, some, arith, ◌==◌, ltb, leb, if◌then◌else◌, Bool-cases, inl, inr, length,
}
use native.Mathlib.Decide.{dec_lt}
use cogent.Types.{Garbage}
use cogent.Ids.{inum_from_id}
use cogent.Tree.{entries}
use cogent.Tree.Next.{
  or_else-none, first_above, next_greater-first_above, first_above-some, first_above-least,
  first_above-none,
}
use cogent.Hash.{Table, bucket, IsTable, lookup}
use cogent.Gim.{gim_next_node, range_removable}

-- The listed ids above `id`.
abbrev pub above_count : ℕ → List (ℕ × Garbage) → ℕ
above_count id [] = 0
above_count id ((k, v) ∷ xs) = (if ltb id k then 1 else 0) + above_count id xs

above_count_mono : (a b : ℕ) (xs : List (ℕ × Garbage)) → a ≤ b → above_count b xs ≤ above_count a xs
above_count_mono a b [] h = omega arith
above_count_mono a b ((k, v) ∷ xs) h = ground (arith, above_count_mono a b xs)

above_count_next :
    (id : ℕ) (xs : List (ℕ × Garbage)) {k : ℕ} {v : Garbage}
    → first_above id xs ≡ some (k, v)
    → above_count k xs < above_count id xs
above_count_next id [] e = cc
above_count_next id ((i, u) ∷ xs) {k} {v} e =
    let above : id < k = (first_above-some id ((i, u) ∷ xs) e).0 in
    ground (arith, above, above_count_next id xs {k = k} {v = v}, above_count_mono id k xs)

pub above_count-length : (id : ℕ) (xs : List (ℕ × Garbage)) → above_count id xs ≤ length xs
above_count-length id [] = omega arith
above_count-length id ((k, v) ∷ xs) = ground (arith, above_count-length id xs)

-- More than one version of an object is garbage, none of them more recent than the deletion: it
-- still keeps an old version from coming back.
abbrev pub Holds : ℕ → Garbage → Type 0
Holds sqnum g = (g.sqnum ≤ sqnum) × (1 < g.count)

-- No object of the inode from `id` on needs the deletion object; or one does.
abbrev pub NoneHolds : Table Garbage → ℕ → ℕ → Type 0
NoneHolds table sqnum id =
    (j : ℕ) (g : Garbage)
    → id ≤ j
    → inum_from_id j ≡ inum_from_id id
    → lookup table j ≡ some g
    → Holds sqnum g
    → ⊥

pub record OneHolds (table : Table Garbage) (sqnum id : ℕ) : Type 0 where
  pub other : ℕ
  pub garbage : Garbage
  pub from : id ≤ other
  pub inode : inum_from_id other ≡ inum_from_id id
  pub known : lookup table other ≡ some garbage
  pub holds : Holds sqnum garbage

abbrev pub RangeAnswer : Table Garbage → ℕ → ℕ → Option Bool → Type 0
RangeAnswer table sqnum id none = ⊥
RangeAnswer table sqnum id (some true) = NoneHolds table sqnum id
RangeAnswer table sqnum id (some false) = OneHolds table sqnum id

next_node :
    (table : Table Garbage) (id : ℕ)
    → IsTable table
    → gim_next_node table id ≡ first_above id (entries (table (bucket id)))
unfolding gim_next_node
next_node table id v =
    next_greater-first_above (table (bucket id)) id none (v (bucket id))
    ∙ or_else-none (first_above id (entries (table (bucket id))))

inum_mono : (a b : ℕ) → a ≤ b → inum_from_id a ≤ inum_from_id b
unfolding inum_from_id
inum_mono a b h = omega arith

some-inj : {a b : Garbage} → some a ≡ some b → a ≡ b
some-inj e = cc e

not_here :
    (table : Table Garbage) (sqnum id j : ℕ) (g g' : Garbage)
    → lookup table id ≡ some g
    → (Holds sqnum g → ⊥)
    → (id < j → lookup table j ≡ none)
    → id ≤ j
    → lookup table j ≡ some g'
    → Holds sqnum g'
    → ⊥
not_here table sqnum id j g g' f not_g later le f' h' = elim (dec_lt id j) [
  | yes p ↦ cc (later p, f')
  | no p ↦
      let e : id ≡ j = omega arith in
      not_g (rw (some-inj (sym f ∙ ap (λ (k : ℕ). lookup table k) e ∙ f')) h')
]

stops :
    (fuel : ℕ) (table : Table Garbage) (sqnum inum id : ℕ) (g : Garbage)
    → 0 < fuel
    → inum_from_id id ≢ inum
    → range_removable fuel table sqnum inum (some (id, g)) ≡ some true
unfolding range_removable
stops zero table sqnum inum id g h ne = absurd (omega arith)
stops (suc fuel) table sqnum inum id g h ne = ground arith

runs_out :
    (fuel : ℕ) (table : Table Garbage) (sqnum inum : ℕ)
    → range_removable fuel table sqnum inum none ≡ some true
unfolding range_removable
runs_out fuel table sqnum inum = refl

step :
    (fuel : ℕ) (table : Table Garbage) (sqnum inum id : ℕ) (g : Garbage)
    → inum_from_id id ≡ inum
    → range_removable (suc fuel) table sqnum inum (some (id, g)) ≡ (
        if leb g.sqnum sqnum && ltb 1 g.count
        then some false
        else range_removable fuel table sqnum inum (gim_next_node table id))
unfolding range_removable
step fuel table sqnum inum id g i =
    let here : (inum_from_id id == inum) ≡ true = ground arith in rw here refl

test-Holds : (sqnum : ℕ) (g : Garbage) → (leb g.sqnum sqnum && ltb 1 g.count) ≡ true → Holds sqnum g
test-Holds sqnum g h = ground arith

test-no-Holds :
    (sqnum : ℕ) (g : Garbage) → (leb g.sqnum sqnum && ltb 1 g.count) ≡ false → Holds sqnum g → ⊥
test-no-Holds sqnum g h k = ground arith

-- The next node of the bucket belongs to a later inode.
past_inode :
    (table : Table Garbage) (id next : ℕ) {u : Garbage}
    → IsTable table
    → first_above id (entries (table (bucket id))) ≡ some (next, u)
    → inum_from_id next ≢ inum_from_id id
    → (j : ℕ) → id < j
    → inum_from_id j ≡ inum_from_id id
    → lookup table j ≡ none
past_inode table id next v e ne j h i =
    let xs = entries (table (bucket id)) in
    let above = (first_above-some id xs e).0 in
    let before : j < next = elim (dec_lt j next) [
      | yes p ↦ p
      | no p ↦
          absurd (omega (arith, inum_mono id next (omega arith), inum_mono next j (omega arith)))
    ] in
    rw i (first_above-least id j xs (v (bucket id)) e h before)

-- The answer from the next node on, of the same inode, is the answer from this node on.
from_next :
    (table : Table Garbage) (sqnum id next : ℕ) (g : Garbage) {u : Garbage} (o : Option Bool)
    → IsTable table
    → lookup table id ≡ some g
    → (Holds sqnum g → ⊥)
    → first_above id (entries (table (bucket id))) ≡ some (next, u)
    → inum_from_id next ≡ inum_from_id id
    → RangeAnswer table sqnum next o
    → RangeAnswer table sqnum id o
from_next table sqnum id next g none v f not_g e i a = a
from_next table sqnum id next g (some false) v f not_g e i a = record {
  other = a.other;
  garbage = a.garbage;
  from = omega (arith, (first_above-some id (entries (table (bucket id))) e).0, a.from);
  inode = a.inode ∙ i;
  known = a.known;
  holds = a.holds;
}
from_next table sqnum id next g (some true) v f not_g e i a = λ j g' le i' f' h'.
    elim (dec_lt j next) [
      | no p ↦ a j g' (omega arith) (i' ∙ sym i) f' h'
      | yes p ↦
          not_here table sqnum id j g g' f not_g
            (λ q.
              rw i' (first_above-least id j (entries (table (bucket id))) (v (bucket id)) e q p))
            le f' h'
    ]

-- The loop answers from any node of the inode on, with fuel for the nodes above it.
pub walk :
    (fuel : ℕ) (table : Table Garbage) (sqnum inum id : ℕ) (g : Garbage)
    → IsTable table
    → inum_from_id id ≡ inum
    → lookup table id ≡ some g
    → above_count id (entries (table (bucket id))) < fuel
    → RangeAnswer table sqnum id (range_removable fuel table sqnum inum (some (id, g)))
walk zero table sqnum inum id g v i f enough = absurd (omega arith)
walk (suc fuel) table sqnum inum id g v i f enough =
    elim (Bool-cases (leb g.sqnum sqnum && ltb 1 g.count)) [
      | inl h ↦
          rw (step fuel table sqnum inum id g i, h)
            (record {
              other = id;
              garbage = g;
              from = omega arith;
              inode = refl;
              known = f;
              holds = test-Holds sqnum g h;
            })
      | inr h ↦
          rw (step fuel table sqnum inum id g i, h, next_node table id v)
            (by_next (first_above id (entries (table (bucket id)))) refl (test-no-Holds sqnum g h)
              (λ next u i' f' less. walk fuel table sqnum inum next u v i' f' less))
    ]
  where
    by_next :
        (o : Option (ℕ × Garbage))
        → first_above id (entries (table (bucket id))) ≡ o
        → (Holds sqnum g → ⊥)
        → ((next : ℕ) (u : Garbage)
            → inum_from_id next ≡ inum
            → lookup table next ≡ some u
            → above_count next (entries (table (bucket next))) < fuel
            → RangeAnswer table sqnum next (range_removable fuel table sqnum inum (some (next, u))))
        → RangeAnswer table sqnum id (range_removable fuel table sqnum inum o)
    by_next none e not_g again = rw (runs_out fuel table sqnum inum) (λ j g' le i' f' h'.
        not_here table sqnum id j g g' f not_g
          (λ q. rw i' (first_above-none id j (entries (table (bucket id))) e q)) le f' h')
    by_next (some (next, u)) e not_g again =
        let less = above_count_next id (entries (table (bucket id))) e in
        elim (Bool-cases (inum_from_id next == inum)) [
          | inl same ↦
              let i' : inum_from_id next ≡ inum = ground (arith, same) in
              let k : inum_from_id next ≡ inum_from_id id = i' ∙ sym i in
              from_next table sqnum id next g
                (range_removable fuel table sqnum inum (some (next, u))) v f not_g e k
                (again next u i' (rw k (first_above-some id (entries (table (bucket id))) e).1)
                  (rw k (omega (arith, less, enough))))
          | inr other ↦
              let ne : inum_from_id next ≢ inum = ground (arith, other) in
              rw (stops fuel table sqnum inum next u (omega (arith, less, enough)) ne)
                (λ j g' le i' f' h'.
                  not_here table sqnum id j g g' f not_g
                    (λ q.
                      past_inode table id next v e
                        (λ (z : inum_from_id next ≡ inum_from_id id). ne (z ∙ i)) j q i')
                    le f' h')
        ]
