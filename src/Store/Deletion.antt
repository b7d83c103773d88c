-- ===== src/Store/Deletion.antt =====
-- `proc_obj` for a deletion object.
use cogent.Prelude.{
  ℕ, suc, ◌+◌, ◌^◌, ◌≤◌, ◌<◌, ◌≡◌, ap, ◌∙◌, Bool, true, false, ◌||◌, Option, none, some, arith,
  ◌==◌, if◌then◌else◌, length, Bool-cases, inl, inr,
}
use cogent.Types.{ObjAddr, inode_obj, data_obj, dentarr_obj, del_obj}
use cogent.Ids.{inum_from_id, type_from_id}
use cogent.Tree.{Rbt, entries}
use cogent.Hash.{bucket, lookup}
use cogent.Store.{Info, delete_entry, delete_range, delete_covered, proc_del, proc_obj, waste}
use cogent.Store.Waste.{IsKept, IsStore, WasteDone, waste-WasteDone, wasted-IsStore}
use cogent.Store.Entry.{survivor, IsSameFlash, same-IsKept, Gone, delete_entry-Gone}
use cogent.Store.Range.{ids_above-length, covers, Purged}
use cogent.Store.Delete.{range-Purged}

-- What a deletion object for `id` covers: a directory entry array alone, or the objects of an inode
-- from `id` on.
abbrev pub del_covers : ℕ → ℕ → Bool
del_covers id j = if type_from_id id == dentarr_obj then id == j else covers id j

-- What the deletion object covers and is older has left the index, every other id is as it was, and
-- so are the blocks in use.
pub record IsDeleted (info : Info) (id sqnum n : ℕ) (out : Info) : Type 0 where
  pub store : IsStore out n
  pub deleted :
      (j : ℕ)
      → lookup out.idx_hash j ≡ (
          if del_covers id j
          then survivor sqnum (lookup info.idx_hash j)
          else lookup info.idx_hash j)
  pub flash : IsSameFlash info out

abbrev pub Deleted : Info → ℕ → ℕ → ℕ → Option Info → Type 0
Deleted info id sqnum n none = ⊥
Deleted info id sqnum n (some out) = IsDeleted info id sqnum n out

Gone-Deleted :
    (info : Info) (id sqnum n : ℕ) (o : Option Info)
    → (type_from_id id == dentarr_obj) ≡ true
    → Gone info id sqnum n o
    → Deleted info id sqnum n o
Gone-Deleted info id sqnum n none t g = g
Gone-Deleted info id sqnum n (some out) t g = record {
  store = g.store;
  deleted = λ j. rw t (g.gone j ∙ ground (arith, ap (λ (k : ℕ). lookup info.idx_hash k)));
  flash = g.flash;
}

Purged-Deleted :
    (info : Info) (id sqnum n : ℕ) (o : Option Info)
    → (type_from_id id == dentarr_obj) ≡ false
    → Purged info id sqnum n o
    → Deleted info id sqnum n o
Purged-Deleted info id sqnum n none t p = p
Purged-Deleted info id sqnum n (some out) t p = record {
  store = p.store;
  deleted = λ j. rw t (p.purged j);
  flash = p.flash;
}

WasteDone-Deleted :
    (info : Info) (id : ℕ) (addr : ObjAddr) (n : ℕ) (mid : Info) (o : Option Info)
    → IsDeleted info id addr.sqnum (suc n) mid
    → WasteDone mid id addr n o
    → Deleted info id addr.sqnum n o
WasteDone-Deleted info id addr n mid none d w = w
WasteDone-Deleted info id addr n mid (some out) d w = record {
  store = wasted-IsStore mid id addr n (suc n) out d.store w;
  deleted = λ j. rw w.same_idx (d.deleted j);
  flash = record {
    same_super = w.same_super ∙ d.flash.same_super;
    same_used = rw w.dirtied d.flash.same_used;
  };
}

module _ (rbt : Rbt) (mem : ℕ → Bool) where
  delete_covered-Deleted :
      (info : Info) (id : ℕ) (addr : ObjAddr) (n : ℕ)
      → IsStore info n
      → type_from_id id ≤ dentarr_obj
      → inum_from_id id + 1 < 2 ^ 32
      → Deleted info id addr.sqnum n (delete_covered rbt mem info id addr)
  unfolding delete_covered
  delete_covered-Deleted info id addr n s small inum =
      elim (Bool-cases (type_from_id id == dentarr_obj)) [
        | inl t ↦
            rw (t, delete_covered)
              (Gone-Deleted info id addr.sqnum n (delete_entry rbt mem info addr id) t
                (delete_entry-Gone rbt mem info addr id n s))
        | inr t ↦
            let fuel = length (entries (info.idx_hash (bucket id))) + 2 in
            let is_range : ((type_from_id id == inode_obj) || (type_from_id id == data_obj))
                ≡ true =
              ground (arith, t, small) in
            rw (t, is_range, delete_covered)
              (Purged-Deleted info id addr.sqnum n (delete_range rbt mem fuel info addr id) t (
                range-Purged rbt mem fuel info addr id n s inum
                  (omega (arith, ids_above-length id (entries (info.idx_hash (bucket id)))))))
      ]

  then_waste :
      (info : Info) (id : ℕ) (addr : ObjAddr) (n : ℕ) (o : Option Info)
      → IsKept info addr
      → Deleted info id addr.sqnum (suc n) o
      → Deleted info id addr.sqnum n
          (elim o [ none ↦ none | some mid ↦ waste rbt mem mid id addr false ])
  then_waste info id addr n none k d = d
  then_waste info id addr n (some mid) k d =
      WasteDone-Deleted info id addr n mid (waste rbt mem mid id addr false) d (
        waste-WasteDone rbt mem mid id addr false n d.store.gim_ok d.store.left
          (same-IsKept info mid addr d.flash k))

  -- Processing a deletion object cannot fail as long as a node is left in the pool, the index points
  -- into blocks of the log in use, so does the address of the deletion object, and its id is of one
  -- of the three types, of an inode below the greatest. Of the ids that it covers, those of an older
  -- version leave the index; every other id is as it was, and so are the blocks in use.
  pub proc_obj-Deleted :
      (info : Info) (id : ℕ) (addr : ObjAddr) (n : ℕ)
      → IsStore info (suc n)
      → IsKept info addr
      → type_from_id id ≤ dentarr_obj
      → inum_from_id id + 1 < 2 ^ 32
      → Deleted info id addr.sqnum n (proc_obj rbt mem info del_obj id addr)
  unfolding proc_obj proc_del
  proc_obj-Deleted info id addr n s k small inum =
      then_waste info id addr n (delete_covered rbt mem info id addr) k
        (delete_covered-Deleted info id addr (suc n) s small inum)
