-- ===== src/Store/Summary/Written.antt =====
-- What `sum_obj` leaves in the summary.
use cogent.Prelude.{ℕ, ◌≤◌, ◌<◌, ◌≡◌, ◌≢◌, ◌⊎◌, Bool, List, Option, none, some, length, get_elem?}
use cogent.Types.{ObjAddr}
use cogent.Store.Summary.{SumEntry, obj_sum_entry_offs, obj_sum_entry_is_del}
use cogent.Store.Summary.Replace.{Concerns, IsSuperseded, NoneBefore}

-- The entry reads back as the object that was summed up.
pub record IsEntry (oid : ℕ) (addr : ObjAddr) (is_del : Bool) (entry : SumEntry) : Type 0 where
  pub same_id : entry.id ≡ oid
  pub same_sqnum : entry.sqnum ≡ addr.sqnum
  pub same_len : entry.len ≡ addr.len
  pub same_offs : obj_sum_entry_offs entry ≡ addr.offs
  pub same_del : obj_sum_entry_is_del entry ≡ is_del

-- One entry was written, over one that is superseded or behind the last, and no other changed.
pub record IsWritten (entries : List SumEntry) (oid : ℕ) (addr : ObjAddr) (is_del : Bool)
    (out : List SumEntry) : Type 0 where
  pub place : ℕ
  pub entry : SumEntry
  pub inside : place ≤ length entries
  pub superseded :
      (old : SumEntry) → get_elem? entries place ≡ some old → IsSuperseded oid addr is_del old
  pub first : NoneBefore oid addr is_del entries place
  pub found : get_elem? out place ≡ some entry
  pub is_entry : IsEntry oid addr is_del entry
  pub others : (j : ℕ) → place ≢ j → get_elem? out j ≡ get_elem? entries j

-- The first entry that concerns the object is more recent.
abbrev pub HasNewer : List SumEntry → ℕ → ObjAddr → Bool → Type 0
HasNewer entries oid addr is_del =
    (j : ℕ) × (entry : SumEntry) × (get_elem? entries j ≡ some entry)
    × Concerns oid addr is_del entry
    × (addr.sqnum < entry.sqnum)
    × NoneBefore oid addr is_del entries j

abbrev pub Summed : List SumEntry → ℕ → ObjAddr → Bool → Option (List SumEntry) → Type 0
Summed entries oid addr is_del none = ⊥
Summed entries oid addr is_del (some out) =
    ((out ≡ entries) × HasNewer entries oid addr is_del) ⊎ IsWritten entries oid addr is_del out
