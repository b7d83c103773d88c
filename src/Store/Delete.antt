-- ===== src/Store/Delete.antt =====
-- The loop over the objects that a deletion object covers, and `proc_obj` for a deletion object.
use cogent.Prelude.{
  ℕ, zero, suc, ◌+◌, ◌^◌, ◌<◌, ◌≡◌, ◌≢◌, refl, sym, ap, ◌∙◌, Bool, true, false, Option, none, some,
  arith, ◌==◌, if◌then◌else◌, Bool-cases, inl, inr,
}
use native.Mathlib.Decide.{dec_lt}
use cogent.Types.{ObjAddr, err, enoent}
use cogent.Ids.{inum_from_id, nil_id}
use cogent.Tree.{Rbt, entries}
use cogent.Hash.{bucket, lookup}
use cogent.Idx.{idx_get_obj_addr, idx_next_obj_id}
use cogent.Idx.Next.{NoNext, IsSuccessor, idx_next-IsSuccessor}
use cogent.Store.{Info, delete_entry, delete_range}
use cogent.Store.Waste.{IsStore}
use cogent.Store.Entry.{survivor, ids_above, IsGone, Gone, delete_entry-Gone}
use cogent.Store.Range.{unknown, next_fewer, covers, IsPurged, Purged}

survivor-none : (sqnum : ℕ) (o : Option ObjAddr) → o ≡ none → survivor sqnum o ≡ o
survivor-none sqnum none e = refl
survivor-none sqnum (some a) e = cc e

module _ (info : Info) (id sqnum n : ℕ) (mid : Info) (g : IsGone info id sqnum n mid) where
  other_id : (j : ℕ) → id ≢ j → lookup mid.idx_hash j ≡ lookup info.idx_hash j
  other_id j ne = let e : (id == j) ≡ false = ground (arith, ne) in rw (g.gone j, e) refl

  this_id : lookup mid.idx_hash id ≡ survivor sqnum (lookup info.idx_hash id)
  this_id = let e : (id == id) ≡ true = ground arith in rw (g.gone id, e) refl

  -- The ids, one by one: `id` itself, those that it covers behind it, and the others.
  pointwise :
      (look : ℕ → Option ObjAddr)
      → look id ≡ survivor sqnum (lookup info.idx_hash id)
      → ((j : ℕ)
          → id < j
          → inum_from_id id ≡ inum_from_id j
          → look j ≡ survivor sqnum (lookup info.idx_hash j))
      → ((j : ℕ) → id ≢ j → covers id j ≡ false → look j ≡ lookup info.idx_hash j)
      → (j : ℕ)
      → look j
        ≡ (if covers id j then survivor sqnum (lookup info.idx_hash j) else lookup info.idx_hash j)
  pointwise look here behind apart j = elim (Bool-cases (covers id j)) [
    | inr c ↦ rw c (apart j (λ e. cc (self, c, ap (λ (k : ℕ). covers id k) e)) c)
    | inl c ↦ rw c (elim (dec_lt id j) [
      | yes p ↦ behind j p (ground (arith, c))
      | no p ↦ let e : id ≡ j = ground (arith, c, p) in rw (sym e) here
    ])
  ]
    where
      self : covers id id ≡ true
      self = ground arith

  unknown_behind :
      (j : ℕ)
      → id < j
      → idx_get_obj_addr mid.idx_hash j ≡ err enoent
      → lookup mid.idx_hash j ≡ survivor sqnum (lookup info.idx_hash j)
  unknown_behind j p e =
      let o = other_id j (omega arith) in
      o
      ∙ sym (
          survivor-none sqnum (lookup info.idx_hash j)
            (sym o ∙ unknown mid.idx_hash j g.store.idx_ok e))

  -- The loop ends after `id`.
  last-IsPurged : NoNext mid.idx_hash id → IsPurged info id sqnum n mid
  last-IsPurged last = record {
    store = g.store;
    purged =
        pointwise (λ j. lookup mid.idx_hash j) this_id
          (λ j p i. unknown_behind j p (last j p (sym i))) (λ j ne c. other_id j ne);
    flash = g.flash;
  }

  -- The loop goes on at `next`.
  more-IsPurged :
      (next : ℕ) (out : Info)
      → IsSuccessor mid.idx_hash id next
      → IsPurged mid next sqnum n out
      → IsPurged info id sqnum n out
  more-IsPurged next out s p = record {
    store = p.store;
    purged = pointwise (λ j. lookup out.idx_hash j) here behind apart;
    flash = record {
      same_super = p.flash.same_super ∙ g.flash.same_super;
      same_used = p.flash.same_used ∙ g.flash.same_used;
    };
  }
    where
      skipped : (j : ℕ) → covers next j ≡ false → lookup out.idx_hash j ≡ lookup mid.idx_hash j
      skipped j c = rw (p.purged j, c) refl

      here : lookup out.idx_hash id ≡ survivor sqnum (lookup info.idx_hash id)
      here = let c : covers next id ≡ false = ground (arith, s.above) in skipped id c ∙ this_id

      behind :
          (j : ℕ)
          → id < j
          → inum_from_id id ≡ inum_from_id j
          → lookup out.idx_hash j ≡ survivor sqnum (lookup info.idx_hash j)
      behind j lo i = elim (dec_lt j next) [
        | yes hi ↦
            let c : covers next j ≡ false = ground (arith, hi) in
            skipped j c ∙ unknown_behind j lo (s.least j lo hi)
        | no hi ↦
            let i' : inum_from_id next ≡ inum_from_id j = s.inode ∙ i in
            let c : covers next j ≡ true = ground (arith, hi, i') in
            rw (p.purged j, c, other_id j (omega arith)) refl
      ]

      apart :
          (j : ℕ) → id ≢ j → covers id j ≡ false → lookup out.idx_hash j ≡ lookup info.idx_hash j
      apart j ne d =
          let c : covers next j ≡ false = ground (arith, s.inode, s.above, d) in
          skipped j c ∙ other_id j ne

no_nil : (id : ℕ) → inum_from_id id + 1 < 2 ^ 32 → (id == nil_id) ≡ false
unfolding inum_from_id
no_nil id h = ground arith

module _ (rbt : Rbt) (mem : ℕ → Bool) where
  nil_range :
      (fuel : ℕ) (info : Info) (addr : ObjAddr)
      → 0 < fuel
      → delete_range rbt mem fuel info addr nil_id ≡ some info
  unfolding delete_range
  nil_range zero info addr h = absurd (omega arith)
  nil_range (suc fuel) info addr h = refl

  -- From the state after the first id on: either there is no next id, or the loop goes on.
  rest-Purged :
      (fuel : ℕ) (info : Info) (addr : ObjAddr) (id n : ℕ) (mid : Info)
      → IsGone info id addr.sqnum n mid
      → ids_above id (entries (info.idx_hash (bucket id))) < fuel
      → ((next : ℕ)
          → inum_from_id next ≡ inum_from_id id
          → 1 + ids_above next (entries (mid.idx_hash (bucket next))) < fuel
          → Purged mid next addr.sqnum n (delete_range rbt mem fuel mid addr next))
      → Purged info id addr.sqnum n
          (delete_range rbt mem fuel mid addr (idx_next_obj_id mid.idx_hash id))
  rest-Purged fuel info addr id n mid g enough again =
      elim (idx_next-IsSuccessor mid.idx_hash id g.store.idx_ok) [
        | inl (e, last) ↦
            rw (e, nil_range fuel mid addr (omega arith))
              (last-IsPurged info id addr.sqnum n mid g last)
        | inr s ↦
            let next = idx_next_obj_id mid.idx_hash id in
            go next s (delete_range rbt mem fuel mid addr next) (
              again next s.inode
                (omega (arith, next_fewer mid.idx_hash id next g.store.idx_ok s, g.fewer)))
      ]
    where
      go :
          (next : ℕ)
          → IsSuccessor mid.idx_hash id next
          → (o : Option Info) → Purged mid next addr.sqnum n o
          → Purged info id addr.sqnum n o
      go next s none q = q
      go next s (some out) q = more-IsPurged info id addr.sqnum n mid g next out s q

  -- The loop ends before the fuel does, and purges what it covers.
  pub range-Purged :
      (fuel : ℕ) (info : Info) (addr : ObjAddr) (id n : ℕ)
      → IsStore info n
      → inum_from_id id + 1 < 2 ^ 32
      → 1 + ids_above id (entries (info.idx_hash (bucket id))) < fuel
      → Purged info id addr.sqnum n (delete_range rbt mem fuel info addr id)
  unfolding delete_range
  range-Purged zero info addr id n s small enough = absurd (omega arith)
  range-Purged (suc fuel) info addr id n s small enough =
      rw (no_nil id small, delete_range)
        (go (delete_entry rbt mem info addr id) (delete_entry-Gone rbt mem info addr id n s)
          (λ mid g.
            rest-Purged fuel info addr id n mid g (omega arith) (λ next i more.
              range-Purged fuel mid addr next n g.store (rw i small) (omega arith))))
    where
      go :
          (o : Option Info)
          → Gone info id addr.sqnum n o
          → ((mid : Info)
              → IsGone info id addr.sqnum n mid
              → Purged info id addr.sqnum n
                  (delete_range rbt mem fuel mid addr (idx_next_obj_id mid.idx_hash id)))
          → Purged info id addr.sqnum n (elim o [
            | none ↦ none
            | some mid ↦ delete_range rbt mem fuel mid addr (idx_next_obj_id mid.idx_hash id)
          ])
      go none g f = g
      go (some mid) g f = f mid g
