-- ===== src/Idx/Map.antt =====
-- The index is a finite map from ids to addresses.
use cogent.Prelude.{
  ℕ, ◌≡◌, ◌≢◌, Bool, Option, none, some, arith, ◌==◌, if◌then◌else◌, Option-cases, inl, inr,
}
use cogent.Types.{ObjAddr, zero_addr, Pool, Result, ok, err, enoent}
use cogent.Pool.Ready.{HasLeft}
use cogent.Tree.{Rbt}
use cogent.Hash.{Table, IsTable, lookup, index_search, store_node, erase_node, insert_or_replace}
use cogent.Hash.Laws.{
  index_search-lookup, store_node-lookup, store_node-IsTable, erase_node-lookup, erase_node-IsTable,
}
use cogent.Hash.Insert.{HasNode, Inserted, insert_any-Inserted, needed}
use cogent.Idx.{write_addr, idx_get_obj_addr, idx_set_obj_addr, idx_del_obj_addr}

abbrev pub get_result : Option ObjAddr → Result ObjAddr
get_result none = err enoent
get_result (some addr) = ok addr

pub idx_get-lookup :
    (table : Table ObjAddr) (id : ℕ)
    → IsTable table
    → idx_get_obj_addr table id ≡ get_result (lookup table id)
unfolding idx_get_obj_addr
idx_get-lookup table id v = ground (arith, index_search-lookup table id v)

-- What a table is after an id was given an address: a table in which the id reads that address,
-- every other id reads what it did, and `n` nodes are left in the pool.
pub record IsWritten (table : Table ObjAddr) (id : ℕ) (addr : ObjAddr) (n : ℕ)
    (out : Pool × Table ObjAddr) : Type 0 where
  pub is_table : IsTable out.1
  pub reads :
      (j : ℕ) → idx_get_obj_addr out.1 j ≡ (if id == j then ok addr else idx_get_obj_addr table j)
  pub left : HasLeft n out.0

abbrev pub SetDone : Table ObjAddr → ℕ → ObjAddr → ℕ → Option (Pool × Table ObjAddr) → Type 0
SetDone table id addr n none = ⊥
SetDone table id addr n (some out) = IsWritten table id addr n out

-- What `idx_del_obj_addr` may leave: the node was missing, and the caller's assertion fails; or
-- the id is unknown now and every other id reads what it did.
abbrev pub Deleted : Table ObjAddr → ℕ → Option (Table ObjAddr) → Type 0
Deleted table id none = idx_get_obj_addr table id ≡ err enoent
Deleted table id (some table') =
    (idx_get_obj_addr table id ≢ err enoent)
    × IsTable table'
    × ((j : ℕ)
        → idx_get_obj_addr table' j ≡ (if id == j then err enoent else idx_get_obj_addr table j))

module _ (rbt : Rbt) where
  -- Deleting an id removes it alone, and fails exactly when the index does not have it.
  pub idx_del-Deleted :
      (table : Table ObjAddr) (id : ℕ)
      → IsTable table
      → Deleted table id (idx_del_obj_addr rbt table id)
  unfolding idx_del_obj_addr idx_get_obj_addr
  idx_del-Deleted table id v = elim (Option-cases (index_search table id)) [
    | inl e ↦ rw (e, idx_del_obj_addr) (ground (arith, e))
    | inr (addr, e) ↦
        rw (e, idx_del_obj_addr)
          (
            ground (arith, e),
            erase_node-IsTable rbt table id v,
            λ j. ground (
              arith,
              index_search-lookup table j v,
              index_search-lookup (erase_node rbt table id) j (erase_node-IsTable rbt table id v),
              erase_node-lookup rbt table id j v,
            ),
          )
  ]

set-IsWritten :
    (table : Table ObjAddr) (id : ℕ) (addr : ObjAddr) (n : ℕ) (out : Pool × Table ObjAddr)
    → IsTable table
    → HasNode zero_addr table id n out
    → IsWritten table id addr n (out.0, store_node out.1 id (λ old. addr))
set-IsWritten table id addr n out v h = record {
  is_table = store_node-IsTable out.1 id (λ old. addr) h.is_table;
  reads = λ j. ground (
    arith,
    idx_get-lookup table j v,
    idx_get-lookup (store_node out.1 id (λ old. addr)) j
        (store_node-IsTable out.1 id (λ (old : ObjAddr). addr) h.is_table),
    store_node-lookup out.1 id j (λ (old : ObjAddr). addr) h.is_table,
    h.found j,
    h.found id,
  );
  left = h.left;
}

write-SetDone :
    (table : Table ObjAddr) (id : ℕ) (addr : ObjAddr) (n : ℕ) (o : Option (Pool × Table ObjAddr))
    → IsTable table
    → Inserted zero_addr table id n o
    → SetDone table id addr n (write_addr id addr o)
unfolding write_addr
write-SetDone table id addr n none v i = i
write-SetDone table id addr n (some out) v i = set-IsWritten table id addr n out v i

module _ (rbt : Rbt) (mem : ℕ → Bool) where
  -- After an address was set the index reads it under its id and every other id as before; with a
  -- node given, or one left in the pool, the operation cannot fail.
  pub idx_set-IsWritten :
      (p : Pool) (table : Table ObjAddr) (id : ℕ) (addr : ObjAddr) (allocated : Bool) (n : ℕ)
      → IsTable table
      → HasLeft (needed allocated n) p
      → SetDone table id addr n (idx_set_obj_addr rbt mem p table id addr allocated)
  unfolding idx_set_obj_addr
  idx_set-IsWritten p table id addr allocated n v h =
      write-SetDone table id addr n (insert_or_replace rbt mem zero_addr p table id allocated) v
        (insert_any-Inserted rbt mem zero_addr p table id allocated n v h)
