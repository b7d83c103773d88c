-- ===== src/Gim/Removable.antt =====
-- `gim_is_removable` on a deletion object that the garbage index covers.
use cogent.Prelude.{
  ℕ, suc, ◌≤◌, ◌<◌, ◌≡◌, ◌⊎◌, refl, ◌∙◌, Bool, true, false, ◌||◌, Option, some, arith, ◌==◌, ltb,
  Bool-cases, inl, inr, length,
}
use cogent.Types.{Garbage, inode_obj, data_obj, dentarr_obj, del_obj}
use cogent.Ids.{inum_from_id, type_from_id}
use cogent.Obj.{ObjCh, obj_has_id, get_obj_id}
use cogent.Tree.{entries}
use cogent.Hash.{Table, bucket, IsTable, lookup, index_search}
use cogent.Hash.Laws.{index_search-lookup}
use cogent.Gim.{del_removable, found_removable, gim_is_removable}
use cogent.Gim.Range.{above_count, above_count-length, RangeAnswer, walk}

-- The answer for a deletion object whose id is found in the garbage index, by the type of its id:
-- one of a name's entry may go; one of an inode or of its data may go exactly when no object of the
-- inode from its id on has several garbage versions, none of them more recent than the deletion.
abbrev pub DelAnswer : Table Garbage → ℕ → ℕ → Option Bool → Type 0
DelAnswer table sqnum id a =
    ((type_from_id id ≡ dentarr_obj) × (a ≡ some true))
    ⊎ (((type_from_id id ≡ inode_obj) ⊎ (type_from_id id ≡ data_obj))
        × RangeAnswer table sqnum id a)

del-DelAnswer :
    (table : Table Garbage) (obj : ObjCh) (g : Garbage)
    → IsTable table
    → lookup table obj.id ≡ some g
    → type_from_id obj.id ≤ dentarr_obj
    → DelAnswer table obj.sqnum obj.id (del_removable table obj g)
unfolding del_removable
del-DelAnswer table obj g v f small =
    let id = obj.id in
    let n = suc (length (entries (table (bucket id)))) in
    let enough : above_count id (entries (table (bucket id))) < n =
      omega (arith, above_count-length id (entries (table (bucket id)))) in
    let answer = walk n table obj.sqnum (inum_from_id id) id g v refl f enough in
    elim (Bool-cases (type_from_id id == dentarr_obj)) [
      | inl d ↦ rw d (inl (ground (arith, d), refl))
      | inr d ↦
          let is_range : ((type_from_id id == inode_obj) || (type_from_id id == data_obj)) ≡ true =
            ground (arith, d, small) in
          rw (d, is_range) (inr (ground (arith, d, small), answer))
    ]

-- A deletion object of a version that the garbage index covers is judged without running out of
-- fuel: removable if it deletes a name's entry, and otherwise exactly when no object of its inode
-- from its id on has two or more garbage versions none of which is more recent than the deletion.
pub gim_is_removable-DelAnswer :
    (table : Table Garbage) (obj : ObjCh) (g : Garbage)
    → IsTable table
    → obj.kind ≡ del_obj
    → lookup table obj.id ≡ some g
    → obj.sqnum ≤ g.sqnum
    → type_from_id obj.id ≤ dentarr_obj
    → DelAnswer table obj.sqnum obj.id (gim_is_removable table obj)
unfolding gim_is_removable get_obj_id obj_has_id found_removable
gim_is_removable-DelAnswer table obj g v k f old small =
    let e : index_search table obj.id ≡ some g = index_search-lookup table obj.id v ∙ f in
    let newer : ltb g.sqnum obj.sqnum ≡ false = ground arith in
    rw (k, e, newer, k) (del-DelAnswer table obj g v f small)
