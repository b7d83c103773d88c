-- ===== src/Store/Entry.antt =====
-- One object that a deletion object covers: it leaves the index if it is older.
use cogent.Prelude.{
  ℕ, ◌+◌, ◌≤◌, ◌≡◌, refl, ap, ◌∙◌, Bool, true, List, [], ◌∷◌, Option, none, some, arith, ltb, ◌==◌,
  if◌then◌else◌, Bool-cases, inl, inr,
}
use cogent.Types.{ObjAddr}
use cogent.Tree.{Rbt, entries, remove}
use cogent.Hash.{Table, IsTable, bucket, lookup, index_search, erase_node}
use cogent.Hash.Laws.{index_search-lookup, erase_node-lookup, erase_node-IsTable}
use cogent.Idx.{idx_del_obj_addr}
use cogent.Idx.Map.{get_result, idx_get-lookup}
use cogent.Store.{Info, waste, delete_indexed, delete_entry}
use cogent.Store.Waste.{IsKept, IsStore, WasteDone, waste-WasteDone, wasted-IsStore}

-- What is left of an indexed address after a deletion with the given sequence number.
abbrev pub survivor : ℕ → Option ObjAddr → Option ObjAddr
survivor sqnum none = none
survivor sqnum (some old) = if ltb old.sqnum sqnum then none else some old

-- The listed ids above `id`.
abbrev pub ids_above : ℕ → List (ℕ × ObjAddr) → ℕ
ids_above id [] = 0
ids_above id ((k, v) ∷ xs) = (if ltb id k then 1 else 0) + ids_above id xs

ids_above-remove :
    (id k : ℕ) (xs : List (ℕ × ObjAddr)) → ids_above id (remove k xs) ≤ ids_above id xs
ids_above-remove id k [] = omega arith
ids_above-remove id k ((j, v) ∷ xs) = ground (arith, ids_above-remove id k xs)

-- The blocks that are in use, and the constants, are the same.
pub record IsSameFlash (info out : Info) : Type 0 where
  pub same_super : out.super ≡ info.super
  pub same_used : out.fsm.used_leb_list ≡ info.fsm.used_leb_list

pub same-IsKept :
    (info out : Info) (addr : ObjAddr) → IsSameFlash info out → IsKept info addr → IsKept out addr
same-IsKept info out addr h k = rw (h.same_super, h.same_used) k

-- The id holds what survives the deletion, every other id is as it was, and the bucket has no more
-- ids above it than before.
pub record IsGone (info : Info) (id sqnum n : ℕ) (out : Info) : Type 0 where
  pub store : IsStore out n
  pub gone :
      (j : ℕ)
      → lookup out.idx_hash j
        ≡ (if id == j then survivor sqnum (lookup info.idx_hash id) else lookup info.idx_hash j)
  pub fewer :
      ids_above id (entries (out.idx_hash (bucket id)))
      ≤ ids_above id (entries (info.idx_hash (bucket id)))
  pub flash : IsSameFlash info out

abbrev pub Gone : Info → ℕ → ℕ → ℕ → Option Info → Type 0
Gone info id sqnum n none = ⊥
Gone info id sqnum n (some out) = IsGone info id sqnum n out

unchanged :
    (info : Info) (id sqnum n : ℕ)
    → IsStore info n
    → survivor sqnum (lookup info.idx_hash id) ≡ lookup info.idx_hash id
    → IsGone info id sqnum n info
unchanged info id sqnum n s e = record {
  store = s;
  gone = λ j. rw e (ground (arith, ap (λ (k : ℕ). lookup info.idx_hash k)));
  fewer = omega arith;
  flash = record { same_super = refl; same_used = refl };
}

module _ (rbt : Rbt) where
  erased-fewer :
      (table : Table ObjAddr) (id : ℕ)
      → IsTable table
      → ids_above id (entries (erase_node rbt table id (bucket id)))
        ≤ ids_above id (entries (table (bucket id)))
  unfolding erase_node
  erased-fewer table id v =
      let here : (bucket id == bucket id) ≡ true = ground arith in
      rw (here, rbt.entries-erase (table (bucket id)) id (v (bucket id)))
        (ids_above-remove id id (entries (table (bucket id))))

  erased-IsStore :
      (info : Info) (id n : ℕ)
      → IsStore info n
      → IsStore (record info { idx_hash = erase_node rbt info.idx_hash id }) n
  erased-IsStore info id n s = record {
    idx_ok = erase_node-IsTable rbt info.idx_hash id s.idx_ok;
    gim_ok = s.gim_ok;
    left = s.left;
    kept =
        λ j a e. s.kept j a (ground (arith, e, erase_node-lookup rbt info.idx_hash id j s.idx_ok));
  }

module _ (rbt : Rbt) (mem : ℕ → Bool) where
  from_waste :
      (info : Info) (id sqnum n : ℕ) (old : ObjAddr) (o : Option Info)
      → IsStore info n
      → survivor sqnum (lookup info.idx_hash id) ≡ none
      → WasteDone (record info { idx_hash = erase_node rbt info.idx_hash id }) id old n o
      → Gone info id sqnum n o
  from_waste info id sqnum n old none s e w = w
  from_waste info id sqnum n old (some out) s e w =
      let mid : Info = record info { idx_hash = erase_node rbt info.idx_hash id } in
      record {
        store = wasted-IsStore mid id old n n out (erased-IsStore rbt info id n s) w;
        gone = λ j. rw (w.same_idx, e) (erase_node-lookup rbt info.idx_hash id j s.idx_ok);
        fewer = rw w.same_idx (erased-fewer rbt info.idx_hash id s.idx_ok);
        flash = record { same_super = w.same_super; same_used = rw w.dirtied refl };
      }

  indexed-Gone :
      (info : Info) (addr : ObjAddr) (id n : ℕ) (o : Option ObjAddr)
      → IsStore info n
      → lookup info.idx_hash id ≡ o
      → Gone info id addr.sqnum n (delete_indexed rbt mem info addr id (get_result o))
  unfolding delete_indexed idx_del_obj_addr
  indexed-Gone info addr id n none s f = unchanged info id addr.sqnum n s (rw f refl)
  indexed-Gone info addr id n (some old) s f = elim (Bool-cases (ltb old.sqnum addr.sqnum)) [
    | inl lt ↦
        let e : index_search info.idx_hash id ≡ some old =
          index_search-lookup info.idx_hash id s.idx_ok ∙ f in
        let mid : Info = record info { idx_hash = erase_node rbt info.idx_hash id } in
        rw (lt, e, delete_indexed)
          (from_waste info id addr.sqnum n old (waste rbt mem mid id old true) s (rw (f, lt) refl)
            (waste-WasteDone rbt mem mid id old true n s.gim_ok s.left (s.kept id old f)))
    | inr ge ↦ rw (ge, delete_indexed) (unchanged info id addr.sqnum n s (rw (f, ge) refl))
  ]

  -- With a node of the index to reuse, no pool is needed.
  pub delete_entry-Gone :
      (info : Info) (addr : ObjAddr) (id n : ℕ)
      → IsStore info n
      → Gone info id addr.sqnum n (delete_entry rbt mem info addr id)
  unfolding delete_entry
  delete_entry-Gone info addr id n s =
      rw (idx_get-lookup info.idx_hash id s.idx_ok)
        (indexed-Gone info addr id n (lookup info.idx_hash id) s refl)
