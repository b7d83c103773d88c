-- ===== src/Store/Summary.antt =====
-- impl/fs/bilby/c/ostore.c: the summary of the erase-block that is being written, one entry for
-- each object that a mount has to know, and how a mount reads it back. `nb_sum_entry` is the length
-- of the list of entries, and the entries stand in host byte order, which is the code's own
-- assumption where it stores an id.
pub mod Replace
pub mod Written
use cogent.Prelude.{
  ℕ, zero, suc, ◌+◌, ◌-◌, ◌*◌, ◌/◌, ◌%◌, ◌^◌, bit_or, Bool, true, false, not, ◌&&◌, List, [], ◌∷◌,
  ◌++◌, Option, none, some, length, set, get_elem?, ltb, ◌==◌, if◌then◌else◌,
}
use cogent.Types.{
  ObjAddr, Result, ok, err, Errno, einval, dentarr_obj, del_obj, sum_obj_type, add32,
}
use cogent.Ids.{inum_from_id, type_from_id}
use cogent.Obj.{ObjCh, get_obj_id}
use cogent.Tree.{Rbt}
use cogent.Gim.{gim_mark_garbage_cnt}
use cogent.Store.{Info, proc_obj, mark_dirty}
use cogent.Store.Mount.{ListObjDel, Mounting, found_del, and_then, with_info}

pub record SumEntry : Type 0 where
  pub id : ℕ
  pub sqnum : ℕ
  pub len : ℕ
  pub del_flag_and_offs : ℕ
  pub count : ℕ

-- The highest of 32 bits flags a deletion, and the others are the offset.
unfoldable pub obj_sum_entry_offs : SumEntry → ℕ
obj_sum_entry_offs entry = entry.del_flag_and_offs % 2 ^ 31

unfoldable pub obj_sum_entry_is_del : SumEntry → Bool
obj_sum_entry_is_del entry = entry.del_flag_and_offs / 2 ^ 31 % 2 == 1

-- The loop for a deletion object: the index of the entry to write, or `none` for an early return.
unfoldable pub sum_del_at : List SumEntry → ℕ → ObjAddr → ℕ → Option ℕ
sum_del_at [] oid addr i = some i
sum_del_at (entry ∷ entries) oid addr i =
    let rest = sum_del_at entries oid addr (i + 1) in
    if type_from_id oid == dentarr_obj
    then (if entry.id == oid then (if ltb addr.sqnum entry.sqnum then none else some i) else rest)
    else if (inum_from_id entry.id == inum_from_id oid) && ltb oid entry.id
    then (if ltb entry.sqnum addr.sqnum then some i else rest)
    else rest

-- The loop for the other objects.
unfoldable pub sum_valid_at : List SumEntry → ℕ → ObjAddr → ℕ → Option ℕ
sum_valid_at [] oid addr i = some i
sum_valid_at (entry ∷ entries) oid addr i =
    let rest = sum_valid_at entries oid addr (i + 1) in
    if obj_sum_entry_is_del entry && not (type_from_id oid == dentarr_obj)
    then rest
    else if entry.id == oid
    then (if ltb addr.sqnum entry.sqnum then none else some i)
    else rest

abbrev pub sum_entry : ℕ → ObjAddr → Bool → ℕ → SumEntry
sum_entry oid addr is_del count = record {
  id = oid;
  sqnum = addr.sqnum;
  len = addr.len;
  del_flag_and_offs = bit_or (if is_del then 2 ^ 31 else 0) addr.offs;
  count = count;
}

-- The writes behind the loops, to a new entry or over the one at `i`, whose 16-bit count goes up.
unfoldable pub write_entry : List SumEntry → ℕ → ObjAddr → Bool → ℕ → List SumEntry
write_entry entries oid addr is_del i = elim (get_elem? entries i) [
  | none ↦ entries ++ sum_entry oid addr is_del 0 ∷ []
  | some old ↦ set entries i (sum_entry oid addr is_del ((old.count + 1) % 2 ^ 16))
]

unfoldable pub sum_at : List SumEntry → ℕ → ObjAddr → Bool → Option ℕ
unfolding sum_del_at sum_valid_at
sum_at entries oid addr is_del =
    if is_del then sum_del_at entries oid addr 0 else sum_valid_at entries oid addr 0

unfoldable pub write_at : List SumEntry → ℕ → ObjAddr → Bool → Option ℕ → List SumEntry
unfolding write_entry
write_at entries oid addr is_del none = entries
write_at entries oid addr is_del (some i) = write_entry entries oid addr is_del i

-- `none` is the failed `bilbyfs_assert` of `get_obj_id`.
unfoldable pub sum_obj : List SumEntry → ObjCh → ObjAddr → Option (List SumEntry)
unfolding get_obj_id write_at sum_at
sum_obj entries obj addr = elim (get_obj_id obj) [
  | none ↦ none
  | some oid ↦
      let is_del = obj.kind == del_obj in
      some (write_at entries oid addr is_del (sum_at entries oid addr is_del))
]

-- The address that an entry stands for, in a block.
abbrev pub entry_addr : ℕ → SumEntry → ObjAddr
entry_addr lnum entry = record {
  lnum = lnum;
  offs = obj_sum_entry_offs entry;
  len = entry.len;
  sqnum = entry.sqnum;
}

module _ (rbt : Rbt) (mem : ℕ → Bool) (node_size : ℕ) where
  -- The garbage versions of an entry's id.
  unfoldable pub count_garbage :
      SumEntry → ObjAddr → Mounting → Option (Result (Unit {0}) × Mounting)
  unfolding with_info
  count_garbage entry addr m =
      elim (gim_mark_garbage_cnt rbt mem m.info.node_pool m.info.gim_hash entry.id addr entry.count
        false) [
          | none ↦ none
          | some (p, table) ↦ with_info m (some (record m.info { node_pool = p; gim_hash = table }))
        ]

  unfoldable pub proc_entry : Mounting → ℕ → SumEntry → Option (Result (Unit {0}) × Mounting)
  unfolding count_garbage with_info
  proc_entry m lnum entry =
      let addr = entry_addr lnum entry in
      and_then
        (if obj_sum_entry_is_del entry
          then some (found_del rbt mem node_size m entry.id addr)
          else with_info m (proc_obj rbt mem m.info (type_from_id entry.id) entry.id addr))
        (count_garbage entry addr)

  -- The loop over the entries, with the space they use.
  unfoldable pub proc_entries : Mounting → ℕ → List SumEntry → Option (Result (Unit {0}) × Mounting)
  unfolding proc_entry
  proc_entries m lnum [] = some (ok tt, m)
  proc_entries m lnum (entry ∷ entries) =
      and_then (proc_entry m lnum entry) (λ m'. proc_entries m' lnum entries)

  unfoldable pub tot_used : List SumEntry → ℕ
  tot_used [] = 0
  tot_used (entry ∷ entries) = add32 entry.len (tot_used entries)

  -- What the header's check answers is given; the rest of the block counts as dirt.
  unfoldable pub mount_proc_sum :
      Mounting
      → ℕ
      → Result (Unit {0})
      → ObjCh
      → List SumEntry
      → Option (Result (Unit {0}) × Mounting)
  unfolding proc_entries with_info tot_used
  mount_proc_sum m lnum (err e) ch entries = some (err e, m)
  mount_proc_sum m lnum (ok u) ch entries =
      if not (ch.kind == sum_obj_type)
      then some (err einval, m)
      else and_then (proc_entries m lnum entries) (λ m'. with_info m' (
          mark_dirty m'.info (record {
            lnum = lnum;
            offs = 0;
            len = (m'.info.super.leb_size + 2 ^ 32 - tot_used entries) % 2 ^ 32;
            sqnum = 0;
          })))
