-- ===== src/Gim/Count.antt =====
-- The garbage counts are a finite map from ids to what `gim_mark_garbage_cnt` added up.
use cogent.Prelude.{
  ℕ, ◌+◌, ◌%◌, ◌^◌, max, ◌≡◌, refl, sym, Bool, true, false, ◌||◌, Option, none, some, arith, ◌==◌,
  if◌then◌else◌, Bool-cases, inl, inr,
}
use cogent.Types.{
  ObjAddr, Garbage, zero_garbage, Pool, Result, ok, err, enoent, sub32, pad_obj, sum_obj_type,
}
use cogent.Obj.{ObjCh, obj_has_id, get_obj_id}
use cogent.Pool.Ready.{HasLeft, free_single-HasLeft}
use cogent.Tree.{Rbt}
use cogent.Hash.{Table, IsTable, lookup, index_search, store_node, insert_or_replace}
use cogent.Hash.Laws.{
  index_search-lookup, store_node-lookup, store_node-IsTable, erase_node-lookup, erase_node-IsTable,
}
use cogent.Hash.Insert.{HasNode, Inserted, insert_any-Inserted, needed, value_or}
use cogent.Gim.{
  write_garbage, add_garbage, dec_garbage, gim_mark_garbage_cnt, collect_node,
  gim_garbage_collected,
}

-- The entry of an id after `count` more garbage versions, the most recent of `sqnum`.
abbrev pub recorded : ℕ → ℕ → Option Garbage → Garbage
recorded sqnum count none = record { sqnum = sqnum; count = count % 2 ^ 32 }
recorded sqnum count (some g) = record {
  sqnum = max g.sqnum sqnum;
  count = (g.count + count) % 2 ^ 32;
}

add_garbage-recorded :
    (sqnum count : ℕ) (o : Option Garbage)
    → add_garbage sqnum count (value_or zero_garbage o) ≡ recorded sqnum count o
add_garbage-recorded sqnum count o = same_garbage (sqnums o) (counts o)
  where
    same_garbage : {a b : Garbage} → a.sqnum ≡ b.sqnum → a.count ≡ b.count → a ≡ b
    same_garbage p q i = record { sqnum = p i; count = q i }

    sqnums :
        (x : Option Garbage)
        → (add_garbage sqnum count (value_or zero_garbage x)).sqnum ≡ (recorded sqnum count x).sqnum
    sqnums none = ground arith
    sqnums (some g) = ground arith

    counts :
        (x : Option Garbage)
        → (add_garbage sqnum count (value_or zero_garbage x)).count ≡ (recorded sqnum count x).count
    counts none = ground arith
    counts (some g) = ground arith

-- A table in which `id` counts `count` more garbage versions, the most recent of them no older than
-- `sqnum`, every other id is as it was, and `n` nodes are left in the pool.
pub record IsMarked (table : Table Garbage) (id sqnum count n : ℕ) (out : Pool × Table Garbage)
    : Type 0 where
  pub is_table : IsTable out.1
  pub marked :
      (j : ℕ)
      → lookup out.1 j
        ≡ (if id == j then some (recorded sqnum count (lookup table id)) else lookup table j)
  pub left : HasLeft n out.0

abbrev pub MarkDone : Table Garbage → ℕ → ℕ → ℕ → ℕ → Option (Pool × Table Garbage) → Type 0
MarkDone table id sqnum count n none = ⊥
MarkDone table id sqnum count n (some out) = IsMarked table id sqnum count n out

mark-IsMarked :
    (table : Table Garbage) (id sqnum count n : ℕ) (out : Pool × Table Garbage)
    → HasNode zero_garbage table id n out
    → IsMarked table id sqnum count n (out.0, store_node out.1 id (add_garbage sqnum count))
mark-IsMarked table id sqnum count n out h = record {
  is_table = store_node-IsTable out.1 id (add_garbage sqnum count) h.is_table;
  marked = λ j. ground (
    arith,
    store_node-lookup out.1 id j (add_garbage sqnum count) h.is_table,
    h.found j,
    h.found id,
    add_garbage-recorded sqnum count (lookup table id),
  );
  left = h.left;
}

write-MarkDone :
    (table : Table Garbage) (id sqnum count n : ℕ) (o : Option (Pool × Table Garbage))
    → Inserted zero_garbage table id n o
    → MarkDone table id sqnum count n (write_garbage id sqnum count o)
unfolding write_garbage
write-MarkDone table id sqnum count n none i = i
write-MarkDone table id sqnum count n (some out) i = mark-IsMarked table id sqnum count n out i

module _ (rbt : Rbt) (mem : ℕ → Bool) where
  -- Marking garbage adds to the count of its id, raises the id's sequence number to the one given
  -- if it was lower, and changes no other id; with a node given, or one left in the pool, it cannot
  -- fail.
  pub gim_mark-IsMarked :
      (p : Pool) (table : Table Garbage) (id : ℕ) (addr : ObjAddr) (count : ℕ) (allocated : Bool)
      (n : ℕ)
      → IsTable table
      → HasLeft (needed allocated n) p
      → MarkDone table id addr.sqnum count n
          (gim_mark_garbage_cnt rbt mem p table id addr count allocated)
  unfolding gim_mark_garbage_cnt
  gim_mark-IsMarked p table id addr count allocated n v h =
      write-MarkDone table id addr.sqnum count n
        (insert_or_replace rbt mem zero_garbage p table id allocated)
        (insert_any-Inserted rbt mem zero_garbage p table id allocated n v h)

-- The entry of an id after one of its versions was erased from the flash.
abbrev pub collected : Option Garbage → Option Garbage
collected none = none
collected (some g) =
    if sub32 g.count 1 == 0 then none else some (record g { count = sub32 g.count 1 })

abbrev pub collect_result : Option Garbage → Result (Unit {0})
collect_result none = err enoent
collect_result (some g) = ok tt

abbrev pub Collected : Table Garbage → ℕ → ℕ → Result (Unit {0}) × Pool × Table Garbage → Type 0
Collected table id n (r, p, table') =
    (r ≡ collect_result (lookup table id))
    × IsTable table'
    × HasLeft n p
    × ((j : ℕ)
        → lookup table' j ≡ (if id == j then collected (lookup table id) else lookup table j))

abbrev pub CollectDone :
    Table Garbage → ℕ → ℕ → Option (Result (Unit {0}) × Pool × Table Garbage) → Type 0
CollectDone table id n none = ⊥
CollectDone table id n (some out) = Collected table id n out

indexed-kind :
    (obj : ObjCh)
    → obj_has_id obj ≡ true
    → ((obj.kind == pad_obj) || (obj.kind == sum_obj_type)) ≡ false
unfolding obj_has_id
indexed-kind obj h = ground arith

module _ (rbt : Rbt) where
  collect-Collected :
      (p : Pool) (table : Table Garbage) (id n : ℕ) (o : Option Garbage)
      → IsTable table
      → HasLeft n p
      → lookup table id ≡ o
      → Collected table id n (collect_node rbt p table id o)
  unfolding collect_node
  collect-Collected p table id n none v h f = (rw f refl, v, h, λ j. ground (arith, f))
  collect-Collected p table id n (some g) v h f =
      let table' = store_node table id dec_garbage in
      let v' : IsTable table' = store_node-IsTable table id dec_garbage v in
      elim (Bool-cases (sub32 g.count 1 == 0)) [
        | inl z ↦
            rw (z, collect_node)
              (
                rw f refl,
                erase_node-IsTable rbt table' id v',
                free_single-HasLeft n p h,
                λ j.
                    rw (f, z)
                      (ground (
                        arith,
                        erase_node-lookup rbt table' id j v',
                        store_node-lookup table id j dec_garbage v,
                      )),
              )
        | inr z ↦
            rw (z, collect_node)
              (
                rw f refl,
                v',
                h,
                λ j. rw (f, z) (ground (arith, f, store_node-lookup table id j dec_garbage v)),
              )
      ]

  -- Collecting a version of an id takes one from its count, forgets the id when no version is left,
  -- changes no other id, and fails exactly when the id has no garbage.
  pub gim_collected-Collected :
      (p : Pool) (table : Table Garbage) (obj : ObjCh) (n : ℕ)
      → IsTable table
      → HasLeft n p
      → obj_has_id obj ≡ true
      → CollectDone table obj.id n (gim_garbage_collected rbt p table obj)
  unfolding gim_garbage_collected get_obj_id
  gim_collected-Collected p table obj n v h k =
      rw (indexed-kind obj k, k)
        (collect-Collected p table obj.id n (index_search table obj.id) v h
          (sym (index_search-lookup table obj.id v)))
