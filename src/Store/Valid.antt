-- ===== src/Store/Valid.antt =====
-- An inode, a directory entry array or a data block of the log: the index ends up with its most
-- recent version.
use cogent.Prelude.{
  ℕ, suc, ◌≤◌, ◌≡◌, refl, sym, ◌∙◌, Bool, true, false, ◌||◌, Option, none, some, arith, ltb, ◌==◌,
  if◌then◌else◌, Bool-cases, inl, inr,
}
use cogent.Types.{ObjAddr, zero_addr, Pool, inode_obj, dentarr_obj, data_obj, pad_obj}
use cogent.Tree.{Rbt}
use cogent.Hash.{Table, IsTable, lookup, index_search, store_node, insert_or_replace}
use cogent.Hash.Laws.{index_search-lookup, store_node-lookup, store_node-IsTable}
use cogent.Hash.Insert.{HasNode, Inserted, insert_any-Inserted, value_or}
use cogent.Pool.Ready.{HasLeft, HasLeft-weaken}
use cogent.Idx.{index_insert_or_replace, idx_get_or_create_obj_addr_node}
use cogent.Fsm.{dirty_fsm}
use cogent.Store.{Info, waste, place_object, with_node, proc_valid, proc_obj}
use cogent.Store.Waste.{IsKept, IsStore, WasteDone, waste-WasteDone, wasted-IsStore}

-- The more recent of the address that the index had and a new one; a zero sequence number is that
-- of no object.
abbrev pub newer : Option ObjAddr → ObjAddr → ObjAddr
newer none addr = addr
newer (some old) addr =
    if old.sqnum == 0 then addr else if ltb old.sqnum addr.sqnum then addr else old

-- Whether the index had a version of the object.
abbrev pub was_known : Option ObjAddr → Bool
was_known none = false
was_known (some old) = if old.sqnum == 0 then false else true

-- The index has the more recent address of the id, every other id is as it was, and the dirt of the
-- new object's block grows by its length if the index had a version of it.
pub record IsPlaced (info : Info) (id : ℕ) (addr : ObjAddr) (n : ℕ) (out : Info) : Type 0 where
  pub store : IsStore out n
  pub placed :
      (j : ℕ)
      → lookup out.idx_hash j
        ≡ (if id == j then some (newer (lookup info.idx_hash id) addr) else lookup info.idx_hash j)
  pub dirtied :
      out.fsm ≡ (if was_known (lookup info.idx_hash id) then dirty_fsm info.fsm addr else info.fsm)
  pub same_super : out.super ≡ info.super

abbrev pub Placed : Info → ℕ → ObjAddr → ℕ → Option Info → Type 0
Placed info id addr n none = ⊥
Placed info id addr n (some out) = IsPlaced info id addr n out

-- The state once the index has a node for `id`.
abbrev noded : Info → Pool × Table ObjAddr → Info
noded info out = record info { node_pool = out.0; idx_hash = out.1 }

some-inj : {a b : ObjAddr} → some a ≡ some b → a ≡ b
some-inj e = cc e

IsStore-weaken : (info : Info) (n m : ℕ) → m ≤ n → IsStore info n → IsStore info m
IsStore-weaken info n m h s = record {
  idx_ok = s.idx_ok;
  gim_ok = s.gim_ok;
  left = HasLeft-weaken n m info.node_pool h s.left;
  kept = s.kept;
}

module _ (info : Info) (id : ℕ) (addr : ObjAddr) (n : ℕ) (s : IsStore info (suc (suc n)))
    (k : IsKept info addr) where
  -- A table that differs from the index in the address of `id` alone, which is `b`.
  abbrev Differs : Table ObjAddr → ObjAddr → Type 0
  Differs table b = (j : ℕ) → lookup table j ≡ (if id == j then some b else lookup info.idx_hash j)

  Differs-IsKept :
      (table : Table ObjAddr) (b : ObjAddr)
      → IsKept info b
      → Differs table b
      → (j : ℕ) (a : ObjAddr) → lookup table j ≡ some a
      → IsKept info a
  Differs-IsKept table b kb d j a e = elim (Bool-cases (id == j)) [
    | inl same ↦
        let f : lookup table j ≡ some b = rw (d j, same) refl in rw (some-inj (sym e ∙ f)) kb
    | inr other ↦
        let f : lookup table j ≡ lookup info.idx_hash j = rw (d j, other) refl in
        s.kept j a (sym f ∙ e)
  ]

  Differs-IsStore :
      (p : Pool) (table : Table ObjAddr) (b : ObjAddr)
      → IsTable table
      → HasLeft (suc n) p
      → IsKept info b
      → Differs table b
      → IsStore (noded info (p, table)) (suc n)
  Differs-IsStore p table b v left kb d = record {
    idx_ok = v;
    gim_ok = s.gim_ok;
    left = left;
    kept = Differs-IsKept table b kb d;
  }

  from_waste :
      (p : Pool) (table : Table ObjAddr) (b : ObjAddr) (o : Option Info)
      → IsStore (noded info (p, table)) (suc n)
      → Differs table b
      → newer (lookup info.idx_hash id) addr ≡ b
      → was_known (lookup info.idx_hash id) ≡ true
      → WasteDone (noded info (p, table)) id addr n o
      → Placed info id addr n o
  from_waste p table b none st d e known w = w
  from_waste p table b (some out) st d e known w = record {
    store = wasted-IsStore (noded info (p, table)) id addr n (suc n) out st w;
    placed = λ j. rw (w.same_idx, e) (d j);
    dirtied = rw (w.dirtied, known) refl;
    same_super = w.same_super;
  }

  set-Differs :
      (out : Pool × Table ObjAddr)
      → HasNode zero_addr info.idx_hash id (suc n) out
      → Differs (store_node out.1 id (λ old. addr)) addr
  set-Differs out h j = ground (
    arith,
    store_node-lookup out.1 id j (λ (old : ObjAddr). addr) h.is_table,
    h.found j,
    h.found id,
  )

  old-Differs :
      (out : Pool × Table ObjAddr) (old : ObjAddr)
      → HasNode zero_addr info.idx_hash id (suc n) out
      → lookup info.idx_hash id ≡ some old
      → Differs out.1 old
  old-Differs out old h e j = rw (h.found j, e) refl

  module _ (rbt : Rbt) (mem : ℕ → Bool) where
    -- A node without a version before.
    fresh-Placed :
        (out : Pool × Table ObjAddr) (node : ObjAddr)
        → HasNode zero_addr info.idx_hash id (suc n) out
        → (node.sqnum == 0) ≡ true
        → newer (lookup info.idx_hash id) addr ≡ addr
        → was_known (lookup info.idx_hash id) ≡ false
        → Placed info id addr n (place_object rbt mem (noded info out) id addr node)
    unfolding place_object
    fresh-Placed out node h z e known =
        let table = store_node out.1 id (λ (old : ObjAddr). addr) in
        let d = set-Differs out h in
        rw (z, place_object)
          (record {
            store = IsStore-weaken (noded info (out.0, table)) (suc n) n (omega arith) (
                Differs-IsStore out.0 table addr
                  (store_node-IsTable out.1 id (λ (old : ObjAddr). addr) h.is_table) h.left k d);
            placed = λ j. rw e (d j);
            dirtied = rw known refl;
            same_super = refl;
          })

    old-Placed :
        (out : Pool × Table ObjAddr) (old : ObjAddr)
        → HasNode zero_addr info.idx_hash id (suc n) out
        → lookup info.idx_hash id ≡ some old
        → (old.sqnum == 0) ≡ false
        → Placed info id addr n (place_object rbt mem (noded info out) id addr old)
    unfolding place_object
    old-Placed out old h f z = elim (Bool-cases (ltb old.sqnum addr.sqnum)) [
      | inl lt ↦
          let table = store_node out.1 id (λ (x : ObjAddr). addr) in
          let d = set-Differs out h in
          let st =
            Differs-IsStore out.0 table addr
              (store_node-IsTable out.1 id (λ (x : ObjAddr). addr) h.is_table) h.left k d in
          rw (z, lt, place_object)
            (from_waste out.0 table addr (waste rbt mem (noded info (out.0, table)) id addr false)
              st d (rw (f, z, lt) refl) (rw (f, z) refl)
              (waste-WasteDone rbt mem (noded info (out.0, table)) id addr false n st.gim_ok st.left
                k))
      | inr ge ↦
          let d = old-Differs out old h f in
          let st = Differs-IsStore out.0 out.1 old h.is_table h.left (s.kept id old f) d in
          rw (z, ge, place_object)
            (from_waste out.0 out.1 old (waste rbt mem (noded info out) id addr false) st d
              (rw (f, z, ge) refl) (rw (f, z) refl)
              (waste-WasteDone rbt mem (noded info out) id addr false n st.gim_ok st.left k))
    ]

    node-Placed :
        (out : Pool × Table ObjAddr) (o : Option ObjAddr)
        → HasNode zero_addr info.idx_hash id (suc n) out
        → lookup info.idx_hash id ≡ o
        → Placed info id addr n
            (place_object rbt mem (noded info out) id addr (value_or zero_addr o))
    node-Placed out none h f = fresh-Placed out zero_addr h refl (rw f refl) (rw f refl)
    node-Placed out (some old) h f = elim (Bool-cases (old.sqnum == 0)) [
      | inl z ↦ fresh-Placed out old h z (rw (f, z) refl) (rw (f, z) refl)
      | inr z ↦ old-Placed out old h f z
    ]

    with_node-Placed :
        (o : Option (Pool × Table ObjAddr))
        → Inserted zero_addr info.idx_hash id (suc n) o
        → Placed info id addr n (with_node rbt mem info id addr o)
    unfolding with_node
    with_node-Placed none h = h
    with_node-Placed (some out) h =
        let e : index_search out.1 id ≡ some (value_or zero_addr (lookup info.idx_hash id)) =
          index_search-lookup out.1 id h.is_table ∙ ground (arith, h.found id) in
        rw (e, with_node) (node-Placed out (lookup info.idx_hash id) h refl)

    -- Processing an inode, a directory entry array or a data block cannot fail as long as two nodes
    -- are left in the pool, the index points into blocks of the log in use, and so does the new
    -- address. The index then has the more recent of the two versions, and every other id as
    -- before; if a version was known the new object's block, whichever of the two is outdated,
    -- gets its length as dirt.
    pub proc_obj-Placed :
        (kind : ℕ)
        → ((kind == inode_obj) || (kind == dentarr_obj) || (kind == data_obj)) ≡ true
        → Placed info id addr n (proc_obj rbt mem info kind id addr)
    unfolding proc_obj proc_valid idx_get_or_create_obj_addr_node index_insert_or_replace
    proc_obj-Placed kind valid =
        let no_pad : (kind == pad_obj) ≡ false = ground (arith, valid) in
        rw (no_pad, valid)
          (with_node-Placed
            (insert_or_replace rbt mem zero_addr info.node_pool info.idx_hash id false)
            (insert_any-Inserted rbt mem zero_addr info.node_pool info.idx_hash id false (suc n)
              s.idx_ok s.left))
