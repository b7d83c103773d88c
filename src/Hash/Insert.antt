-- ===== src/Hash/Insert.antt =====
-- `insert_or_replace` never runs out of nodes while its pool has one left, and leaves one node
-- for the id.
use cogent.Prelude.{
  ℕ, suc, ◌≡◌, sym, ap, ◌∙◌, Bool, true, false, Option, none, some, arith, ◌==◌, if◌then◌else◌,
  Option-cases, inl, inr,
}
use cogent.Types.{Pool}
use cogent.Pool.{allocpool_free_single}
use cogent.Pool.Ready.{HasLeft, HasLeft-weaken, free_single-HasLeft, pop-HasLeft, popped}
use cogent.Tree.{Rbt}
use cogent.Hash.{Table, IsTable, lookup, index_search, add_node, insert_or_replace}
use cogent.Hash.Laws.{index_search-lookup, add_node-lookup, add_node-IsTable}

module _ {V : Type 0} where
  abbrev pub value_or : V → Option V → V
  value_or d none = d
  value_or d (some v) = v

  -- The table has a node for `id`, zeroed if it is new, every other id is as it was, and `n` nodes
  -- are left in the pool.
  pub record HasNode (zeroed : V) (table : Table V) (id n : ℕ) (out : Pool × Table V) : Type 0 where
    pub is_table : IsTable out.1
    pub found :
        (j : ℕ)
        → lookup out.1 j
          ≡ (if id == j then some (value_or zeroed (lookup table id)) else lookup table j)
    pub left : HasLeft n out.0

  abbrev pub Inserted : V → Table V → ℕ → ℕ → Option (Pool × Table V) → Type 0
  Inserted zeroed table id n none = ⊥
  Inserted zeroed table id n (some out) = HasNode zeroed table id n out

-- How many nodes the pool must have for `n` to be left: one more if none came along.
abbrev pub needed : Bool → ℕ → ℕ
needed true n = n
needed false n = suc n

module _ (rbt : Rbt) (mem : ℕ → Bool) {V : Type 0} where
  old_node :
      (zeroed : V) (p : Pool) (table : Table V) (id n : ℕ) {v : V}
      → IsTable table
      → HasLeft n p
      → lookup table id ≡ some v
      → HasNode zeroed table id n (p, table)
  old_node zeroed p table id n ok h e = record {
    is_table = ok;
    found = λ j. rw e (ground (arith, e, ap (λ (k : ℕ). lookup table k)));
    left = h;
  }

  new_node :
      (zeroed : V) (p : Pool) (table : Table V) (id n : ℕ)
      → IsTable table
      → HasLeft n p
      → lookup table id ≡ none
      → HasNode zeroed table id n (p, add_node rbt zeroed table id)
  new_node zeroed p table id n ok h e = record {
    is_table = add_node-IsTable rbt zeroed table id ok;
    found = λ j. rw e (add_node-lookup rbt zeroed table id j ok e);
    left = h;
  }

  -- With no node given, a pool with one more node left suffices.
  pub insert-Inserted :
      (zeroed : V) (p : Pool) (table : Table V) (id n : ℕ)
      → IsTable table
      → HasLeft (suc n) p
      → Inserted zeroed table id n (insert_or_replace rbt mem zeroed p table id false)
  unfolding insert_or_replace
  insert-Inserted zeroed p table id n ok h = elim (Option-cases (index_search table id)) [
    | inl e ↦
        let (pops, left) = pop-HasLeft mem n p h in
        rw (e, pops, insert_or_replace)
          (new_node zeroed (popped p) table id n ok left
            (sym (index_search-lookup table id ok) ∙ e))
    | inr (v, e) ↦
        rw (e, insert_or_replace)
          (old_node zeroed p table id n ok (HasLeft-weaken (suc n) n p (omega arith) h)
            (sym (index_search-lookup table id ok) ∙ e))
  ]

  -- With a node given, any pool does.
  pub insert_given-Inserted :
      (zeroed : V) (p : Pool) (table : Table V) (id n : ℕ)
      → IsTable table
      → HasLeft n p
      → Inserted zeroed table id n (insert_or_replace rbt mem zeroed p table id true)
  unfolding insert_or_replace
  insert_given-Inserted zeroed p table id n ok h = elim (Option-cases (index_search table id)) [
    | inl e ↦
        rw (e, insert_or_replace)
          (new_node zeroed p table id n ok h (sym (index_search-lookup table id ok) ∙ e))
    | inr (v, e) ↦
        rw (e, insert_or_replace)
          (old_node zeroed (allocpool_free_single p) table id n ok (free_single-HasLeft n p h)
            (sym (index_search-lookup table id ok) ∙ e))
  ]

  pub insert_any-Inserted :
      (zeroed : V) (p : Pool) (table : Table V) (id : ℕ) (allocated : Bool) (n : ℕ)
      → IsTable table
      → HasLeft (needed allocated n) p
      → Inserted zeroed table id n (insert_or_replace rbt mem zeroed p table id allocated)
  insert_any-Inserted zeroed p table id true n = insert_given-Inserted zeroed p table id n
  insert_any-Inserted zeroed p table id false n = insert-Inserted zeroed p table id n
