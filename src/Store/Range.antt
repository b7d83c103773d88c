-- ===== src/Store/Range.antt =====
-- A deletion object: everything that it covers and that is older leaves the index.
use cogent.Prelude.{
  ℕ, ◌≤◌, ◌<◌, ◌≡◌, refl, sym, ap, ◌∙◌, Bool, ◌&&◌, List, [], ◌∷◌, Option, none, some, arith, leb,
  ◌==◌, if◌then◌else◌, length, Option-cases, inl, inr,
}
use cogent.Types.{ObjAddr, err, enoent}
use cogent.Ids.{inum_from_id}
use cogent.Tree.{entries, find}
use cogent.Hash.{Table, IsTable, bucket, lookup}
use cogent.Idx.{idx_get_obj_addr}
use cogent.Idx.Map.{get_result, idx_get-lookup}
use cogent.Idx.Next.{IsSuccessor}
use cogent.Store.{Info}
use cogent.Store.Waste.{IsStore}
use cogent.Store.Entry.{survivor, ids_above, IsSameFlash}

ids_above-found :
    (id k : ℕ) (v : ObjAddr) (xs : List (ℕ × ObjAddr))
    → id < k
    → find k xs ≡ some v
    → ids_above k xs < ids_above id xs
ids_above-found id k v [] h e = cc
ids_above-found id k v ((i, u) ∷ xs) h e =
    ground (arith, ids_above_mono xs, ids_above-found id k v xs)
  where
    ids_above_mono : (ys : List (ℕ × ObjAddr)) → ids_above k ys ≤ ids_above id ys
    ids_above_mono [] = omega arith
    ids_above_mono ((j, w) ∷ ys) = ground (arith, ids_above_mono ys)

pub ids_above-length : (id : ℕ) (xs : List (ℕ × ObjAddr)) → ids_above id xs ≤ length xs
ids_above-length id [] = omega arith
ids_above-length id ((k, v) ∷ xs) = ground (arith, ids_above-length id xs)

pub unknown :
    (table : Table ObjAddr) (j : ℕ)
    → IsTable table
    → idx_get_obj_addr table j ≡ err enoent
    → lookup table j ≡ none
unknown table j v e = elim (Option-cases (lookup table j)) [
  | inl f ↦ f
  | inr (a, f) ↦ absurd (clash a (ap get_result (sym f) ∙ sym (idx_get-lookup table j v) ∙ e))
]
  where
    clash : (a : ObjAddr) → get_result (some a) ≡ err enoent → ⊥
    clash a q = cc q

pub next_fewer :
    (table : Table ObjAddr) (id next : ℕ)
    → IsTable table
    → IsSuccessor table id next
    → ids_above next (entries (table (bucket next))) < ids_above id (entries (table (bucket id)))
next_fewer table id next v s = elim (Option-cases (lookup table next)) [
  | inl f ↦ absurd (s.known (rw (idx_get-lookup table next v, f) refl))
  | inr (a, f) ↦
      rw s.inode
        (ids_above-found id next a (entries (table (bucket id))) s.above (rw (sym s.inode) f))
]

-- The objects that a deletion object for `id` covers: those of its inode from `id` on.
abbrev pub covers : ℕ → ℕ → Bool
covers id j = leb id j && (inum_from_id id == inum_from_id j)

-- Every id that the deletion covers holds what survives it, and every other id is as it was.
pub record IsPurged (info : Info) (id sqnum n : ℕ) (out : Info) : Type 0 where
  pub store : IsStore out n
  pub purged :
      (j : ℕ)
      → lookup out.idx_hash j
        ≡ (if covers id j then survivor sqnum (lookup info.idx_hash j) else lookup info.idx_hash j)
  pub flash : IsSameFlash info out

abbrev pub Purged : Info → ℕ → ℕ → ℕ → Option Info → Type 0
Purged info id sqnum n none = ⊥
Purged info id sqnum n (some out) = IsPurged info id sqnum n out
