-- ===== src/Idx/Next.antt =====
-- `idx_next_obj_id` walks the objects of one inode in the order of their ids.
use cogent.Prelude.{
  ℕ, ◌<◌, ◌≤◌, ◌≡◌, ◌≢◌, refl, ◌⊎◌, Option, none, some, arith, ◌==◌, Bool-cases, inl, inr,
}
use native.Mathlib.Decide.{dec_lt}
use cogent.Types.{ObjAddr, err, enoent}
use cogent.Ids.{inum_from_id, nil_id}
use cogent.Tree.{entries, find}
use cogent.Tree.Next.{
  or_else-none, first_above, next_greater-first_above, first_above-some, first_above-least,
  first_above-none,
}
use cogent.Hash.{Table, bucket, IsTable}
use cogent.Idx.{idx_get_obj_addr, idx_next_obj_id, same_inum}
use cogent.Idx.Map.{idx_get-lookup}

-- No object of the inode of `id` has a greater id.
abbrev pub NoNext : Table ObjAddr → ℕ → Type 0
NoNext table id =
    (j : ℕ) → id < j → inum_from_id j ≡ inum_from_id id → idx_get_obj_addr table j ≡ err enoent

-- `next` is the least id above `id` that the index has, and it belongs to the same inode.
pub record IsSuccessor (table : Table ObjAddr) (id next : ℕ) : Type 0 where
  pub above : id < next
  pub inode : inum_from_id next ≡ inum_from_id id
  pub known : idx_get_obj_addr table next ≢ err enoent
  pub least : (j : ℕ) → id < j → j < next → idx_get_obj_addr table j ≡ err enoent

absent :
    (table : Table ObjAddr) (id j : ℕ)
    → IsTable table
    → inum_from_id j ≡ inum_from_id id
    → find j (entries (table (bucket id))) ≡ none
    → idx_get_obj_addr table j ≡ err enoent
absent table id j v e f = rw (idx_get-lookup table j v, e, f)

inum_mono : (a b : ℕ) → a ≤ b → inum_from_id a ≤ inum_from_id b
unfolding inum_from_id
inum_mono a b h = omega arith

none-NoNext :
    (table : Table ObjAddr) (id : ℕ)
    → IsTable table
    → first_above id (entries (table (bucket id))) ≡ none
    → NoNext table id
none-NoNext table id v e j h i =
    absent table id j v i (first_above-none id j (entries (table (bucket id))) e h)

-- The next node of the bucket belongs to a later inode.
later-NoNext :
    (table : Table ObjAddr) (id next : ℕ) {addr : ObjAddr}
    → IsTable table
    → first_above id (entries (table (bucket id))) ≡ some (next, addr)
    → inum_from_id next ≢ inum_from_id id
    → NoNext table id
later-NoNext table id next v e ne j h i =
    let xs = entries (table (bucket id)) in
    let above = (first_above-some id xs e).0 in
    let before : j < next = elim (dec_lt j next) [
      | yes p ↦ p
      | no p ↦
          absurd (omega (arith, inum_mono id next (omega arith), inum_mono next j (omega arith)))
    ] in
    absent table id j v i (first_above-least id j xs (v (bucket id)) e h before)

some-IsSuccessor :
    (table : Table ObjAddr) (id next : ℕ) {addr : ObjAddr}
    → IsTable table
    → first_above id (entries (table (bucket id))) ≡ some (next, addr)
    → inum_from_id next ≡ inum_from_id id
    → IsSuccessor table id next
some-IsSuccessor table id next v e i =
    let xs = entries (table (bucket id)) in
    let (above, found) = first_above-some id xs e in
    record {
      above = above;
      inode = i;
      known = rw (idx_get-lookup table next v, i, found) (λ q. cc);
      least = λ j lo hi.
          absent table id j v
            (omega (arith, inum_mono id j (omega arith), inum_mono j next (omega arith)))
            (first_above-least id j xs (v (bucket id)) e lo hi);
    }

pub idx_next-IsSuccessor :
    (table : Table ObjAddr) (id : ℕ)
    → IsTable table
    → ((idx_next_obj_id table id ≡ nil_id) × NoNext table id)
      ⊎ IsSuccessor table id (idx_next_obj_id table id)
unfolding idx_next_obj_id
idx_next-IsSuccessor table id v =
    rw (next_greater-first_above (table (bucket id)) id none (v (bucket id)), or_else-none)
      (by_node (first_above id (entries (table (bucket id)))) refl)
  where
    by_node :
        (o : Option (ℕ × ObjAddr))
        → first_above id (entries (table (bucket id))) ≡ o
        → ((same_inum id o ≡ nil_id) × NoNext table id) ⊎ IsSuccessor table id (same_inum id o)
    by_node none e = inl (refl, none-NoNext table id v e)
    by_node (some (next, addr)) e = elim (Bool-cases (inum_from_id id == inum_from_id next)) [
      | inl same ↦ rw same (inr (some-IsSuccessor table id next v e (ground (arith, same))))
      | inr other ↦ rw other (inl (refl, later-NoNext table id next v e (ground (arith, other))))
    ]
