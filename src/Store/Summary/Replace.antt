-- ===== src/Store/Summary/Replace.antt =====
-- `sum_obj` writes one entry, and only over one that the new object supersedes.
use cogent.Prelude.{
  ℕ, zero, suc, ◌+◌, ◌≤◌, ◌<◌, ◌≡◌, ◌≢◌, inl, inr, refl, sym, Bool, true, false, not, ◌&&◌, List,
  [], ◌∷◌, Option, none, some, arith, length, get_elem?, ltb, ◌==◌, Bool-cases,
}
use cogent.Types.{ObjAddr, dentarr_obj}
use cogent.Ids.{inum_from_id, type_from_id}
use cogent.Store.Summary.{SumEntry, obj_sum_entry_is_del, sum_del_at, sum_valid_at}

-- An entry that the object of `oid` at `addr` has to do with: one of its id, unless the entry is a
-- deletion that the object does not end; for a deletion object that covers a range, an older one of
-- a greater id of its inode.
pub data Concerns (oid : ℕ) (addr : ObjAddr) (is_del : Bool) (entry : SumEntry) : Type 0 where
  same :
      entry.id ≡ oid
      → (is_del ≡ true → type_from_id oid ≡ dentarr_obj)
      → (is_del ≡ false → type_from_id oid ≢ dentarr_obj → obj_sum_entry_is_del entry ≡ false)
      → Concerns oid addr is_del entry
  covered :
      is_del ≡ true
      → type_from_id oid ≢ dentarr_obj
      → oid < entry.id
      → inum_from_id entry.id ≡ inum_from_id oid
      → entry.sqnum < addr.sqnum
      → Concerns oid addr is_del entry

-- An entry that it may overwrite.
pub record IsSuperseded (oid : ℕ) (addr : ObjAddr) (is_del : Bool) (entry : SumEntry) : Type 0 where
  pub older : entry.sqnum ≤ addr.sqnum
  pub concerns : Concerns oid addr is_del entry

-- No entry before this place concerns it.
abbrev pub NoneBefore : ℕ → ObjAddr → Bool → List SumEntry → ℕ → Type 0
NoneBefore oid addr is_del entries j =
    (m : ℕ) (entry : SumEntry)
    → m < j
    → get_elem? entries m ≡ some entry
    → ¬ Concerns oid addr is_del entry

-- Where the loops stop, counted from `i`, always at the first entry that concerns the object, or
-- behind the last: never, because that entry is more recent, or there.
abbrev pub Position : ℕ → ObjAddr → Bool → List SumEntry → ℕ → Option ℕ → Type 0
Position oid addr is_del entries i none =
    (j : ℕ) × (entry : SumEntry) × (get_elem? entries j ≡ some entry)
    × Concerns oid addr is_del entry
    × (addr.sqnum < entry.sqnum)
    × NoneBefore oid addr is_del entries j
Position oid addr is_del entries i (some k) =
    (j : ℕ) × (k ≡ i + j)
    × (j ≤ length entries)
    × ((entry : SumEntry) → get_elem? entries j ≡ some entry → IsSuperseded oid addr is_del entry)
    × NoneBefore oid addr is_del entries j

pub some-inj : {a b : SumEntry} → some a ≡ some b → a ≡ b
some-inj e = cc e

module _ (oid : ℕ) (addr : ObjAddr) (is_del : Bool) where
  at_end : (i : ℕ) → Position oid addr is_del [] i (some i)
  at_end i = (0, omega arith, omega arith, λ entry e. cc e, λ m entry lt e. absurd (omega arith))

  at_head :
      (entry : SumEntry) (entries : List SumEntry) (i : ℕ)
      → IsSuperseded oid addr is_del entry
      → Position oid addr is_del (entry ∷ entries) i (some i)
  at_head entry entries i s = (
    0,
    omega arith,
    omega arith,
    λ other e. rw (sym (some-inj e)) s,
    λ m other lt e. absurd (omega arith),
  )

  newer_head :
      (entry : SumEntry) (entries : List SumEntry) (i : ℕ)
      → Concerns oid addr is_del entry
      → addr.sqnum < entry.sqnum
      → Position oid addr is_del (entry ∷ entries) i none
  newer_head entry entries i e h = (0, entry, refl, e, h, λ m other lt q. absurd (omega arith))

  one_more :
      (entry : SumEntry) (entries : List SumEntry) (j : ℕ)
      → ¬ Concerns oid addr is_del entry
      → NoneBefore oid addr is_del entries j
      → NoneBefore oid addr is_del (entry ∷ entries) (suc j)
  one_more entry entries j off f zero other lt e = rw (sym (some-inj e)) off
  one_more entry entries j off f (suc m) other lt e = f m other (omega arith) e

  behind :
      (entry : SumEntry) (entries : List SumEntry) (i : ℕ) (o : Option ℕ)
      → ¬ Concerns oid addr is_del entry
      → Position oid addr is_del entries (i + 1) o
      → Position oid addr is_del (entry ∷ entries) i o
  behind entry entries i none off (j, e, g, c, h, f) =
      (suc j, e, g, c, h, one_more entry entries j off f)
  behind entry entries i (some k) off (j, e, h, g, f) =
      (suc j, omega arith, omega arith, g, one_more entry entries j off f)

-- The tests of the loops, as refutations.
range_del-same :
    (oid : ℕ) (addr : ObjAddr) (entry : SumEntry)
    → (type_from_id oid == dentarr_obj) ≡ false
    → (inum_from_id entry.id == inum_from_id oid) && ltb oid entry.id ≡ false
    → ¬ Concerns oid addr true entry
range_del-same oid addr entry t apart (same e d n) = ground (arith, t, d refl)
range_del-same oid addr entry t apart (covered e d lt inum old) = ground (arith, apart, lt, inum)

range_del-newer :
    (oid : ℕ) (addr : ObjAddr) (entry : SumEntry)
    → (type_from_id oid == dentarr_obj) ≡ false
    → ltb entry.sqnum addr.sqnum ≡ false
    → ¬ Concerns oid addr true entry
range_del-newer oid addr entry t new (same e d n) = ground (arith, t, d refl)
range_del-newer oid addr entry t new (covered e d lt inum old) = ground (arith, new, old)

dentarr_del-other :
    (oid : ℕ) (addr : ObjAddr) (entry : SumEntry)
    → (type_from_id oid == dentarr_obj) ≡ true
    → (entry.id == oid) ≡ false
    → ¬ Concerns oid addr true entry
dentarr_del-other oid addr entry t other (same e d n) = ground (arith, other, e)
dentarr_del-other oid addr entry t other (covered e d lt inum old) = d (ground (arith, t))

valid-other :
    (oid : ℕ) (addr : ObjAddr) (entry : SumEntry)
    → (entry.id == oid) ≡ false
    → ¬ Concerns oid addr false entry
valid-other oid addr entry other (same e d n) = ground (arith, other, e)
valid-other oid addr entry other (covered e d lt inum old) = cc e

valid-deletion :
    (oid : ℕ) (addr : ObjAddr) (entry : SumEntry)
    → obj_sum_entry_is_del entry && not (type_from_id oid == dentarr_obj) ≡ true
    → ¬ Concerns oid addr false entry
valid-deletion oid addr entry del (same e d n) =
    go (obj_sum_entry_is_del entry) (type_from_id oid == dentarr_obj) del refl refl
  where
    go :
        (b c : Bool)
        → b && not c ≡ true
        → obj_sum_entry_is_del entry ≡ b
        → (type_from_id oid == dentarr_obj) ≡ c
        → ⊥
    go true true q r t = cc q
    go true false q r t = let s = n refl (λ u. ground (arith, t, u)) in cc
    go false c q r t = cc q
valid-deletion oid addr entry del (covered e d lt inum old) = cc e

pub del-Position :
    (entries : List SumEntry) (oid : ℕ) (addr : ObjAddr) (i : ℕ)
    → Position oid addr true entries i (sum_del_at entries oid addr i)
unfolding sum_del_at
del-Position [] oid addr i = at_end oid addr true i
del-Position (entry ∷ entries) oid addr i =
    let next = del-Position entries oid addr (i + 1) in
    let o = sum_del_at entries oid addr (i + 1) in
    elim (Bool-cases (type_from_id oid == dentarr_obj)) [
      | inl t ↦ elim (Bool-cases (entry.id == oid)) [
        | inl e ↦
            let own : Concerns oid addr true entry =
              same (ground (arith, e)) (λ d. ground (arith, t)) (λ d. cc d) in
            elim (Bool-cases (ltb addr.sqnum entry.sqnum)) [
              | inl new ↦
                  rw (t, e, new, sum_del_at)
                    (newer_head oid addr true entry entries i own (ground (arith, new)))
              | inr old ↦
                  rw (t, e, old, sum_del_at)
                    (at_head oid addr true entry entries i
                      (record { older = ground (arith, old); concerns = own }))
            ]
        | inr other ↦
            rw (t, other, sum_del_at)
              (behind oid addr true entry entries i o (dentarr_del-other oid addr entry t other)
                next)
      ]
      | inr t ↦
          elim (Bool-cases ((inum_from_id entry.id == inum_from_id oid) && ltb oid entry.id)) [
            | inl above ↦ elim (Bool-cases (ltb entry.sqnum addr.sqnum)) [
              | inl old ↦
                  rw (t, above, old, sum_del_at)
                    (at_head oid addr true entry entries i (record {
                      older = ground (arith, old);
                      concerns =
                          covered refl (λ d. ground (arith, t, d)) (ground (arith, above))
                            (ground (arith, above)) (ground (arith, old));
                    }))
              | inr new ↦
                  rw (t, above, new, sum_del_at)
                    (behind oid addr true entry entries i o (range_del-newer oid addr entry t new)
                      next)
            ]
            | inr apart ↦
                rw (t, apart, sum_del_at)
                  (behind oid addr true entry entries i o (range_del-same oid addr entry t apart)
                    next)
          ]
    ]

pub valid-Position :
    (entries : List SumEntry) (oid : ℕ) (addr : ObjAddr) (i : ℕ)
    → Position oid addr false entries i (sum_valid_at entries oid addr i)
unfolding sum_valid_at
valid-Position [] oid addr i = at_end oid addr false i
valid-Position (entry ∷ entries) oid addr i =
    let next = valid-Position entries oid addr (i + 1) in
    let o = sum_valid_at entries oid addr (i + 1) in
    elim (Bool-cases (obj_sum_entry_is_del entry && not (type_from_id oid == dentarr_obj))) [
      | inl del ↦
          rw (del, sum_valid_at)
            (behind oid addr false entry entries i o (valid-deletion oid addr entry del) next)
      | inr live ↦ elim (Bool-cases (entry.id == oid)) [
        | inl e ↦
            let own : Concerns oid addr false entry =
              same (ground (arith, e)) (λ d. cc d) (λ d t. ground (arith, live, t)) in
            elim (Bool-cases (ltb addr.sqnum entry.sqnum)) [
              | inl new ↦
                  rw (live, e, new, sum_valid_at)
                    (newer_head oid addr false entry entries i own (ground (arith, new)))
              | inr old ↦
                  rw (live, e, old, sum_valid_at)
                    (at_head oid addr false entry entries i
                      (record { older = ground (arith, old); concerns = own }))
            ]
        | inr other ↦
            rw (live, other, sum_valid_at)
              (behind oid addr false entry entries i o (valid-other oid addr entry other) next)
      ]
    ]
