-- ===== src/Tests/Store.antt =====
-- The object store with one inode and its first data block in the index.
use cogent.Prelude.{
  not, List, Option, some, ◌+◌, ◌++◌, ℕ, ◌≡◌, inl, inr, refl, sym, true, false, [], ◌∷◌, none, some,
  arith, ◌==◌, Bool-cases,
}
use cogent.Types.{Result, ok, err, enoent, ObjAddr, Fsm, inode_obj, del_obj}
use cogent.Ids.{inum_from_id, type_from_id}
use cogent.Tree.{find}
use cogent.Hash.{bucket, lookup}
use cogent.Store.{Info, proc_obj}
use cogent.Store.Waste.{IsKept, IsStore}
use cogent.Store.Valid.{Placed, proc_obj-Placed}
use cogent.Store.Deletion.{Deleted, proc_obj-Deleted}
use cogent.Obj.{get_obj_trans}
use cogent.Store.Scan.{Flash, check_flash_empty}
use cogent.Store.Scan.Empty.{Answer, check_flash_empty-Answer}
use cogent.Store.Init.{NothingLeft, ostore_init, ostore_init-NothingLeft}
use cogent.Store.Mount.{Found, Mounting, check_trans_pos, mount_scan_rbuf}
use cogent.Store.Mount.Atomic.{log, label, proc_all, mount_scan-proc_all, check-get_obj_trans}
use cogent.Store.Summary.{SumEntry}
use cogent.Store.Alloc.{fsm_alloc_eb}
use cogent.Store.Alloc.Reserve.{BlockGiven, fsm_alloc_eb-BlockGiven}
use cogent.Tests.Space.{started-IsFsm}
use cogent.Tests.Data.{
  started, naive, granted, ready, ready-HasLeft, inode25, block25, addr_at, index, index-IsTable,
  garbage, garbage-IsTable, small,
}

abbrev two_used : Fsm
two_used = record {
  dirty_list = 0 ∷ 0 ∷ 0 ∷ 0 ∷ 0 ∷ 0 ∷ [];
  used_leb_list = false ∷ false ∷ false ∷ true ∷ true ∷ false ∷ [];
  fsm_lnum = 4;
  fsm_nb_free_eb = 4;
}

abbrev mounted : Info
mounted = record {
  super = small;
  fsm = two_used;
  node_pool = ready;
  idx_hash = index;
  gim_hash = garbage;
}

listed-IsKept :
    (j : ℕ) (addr : ObjAddr)
    → find j ((inode25, addr_at 3 7) ∷ (block25, addr_at 4 8) ∷ []) ≡ some addr
    → IsKept mounted addr
listed-IsKept j addr e = elim (Bool-cases (j == inode25)) [
  | inl a ↦ rw (sym (some-inj (rw a at e))) refl
  | inr a ↦ elim (Bool-cases (j == block25)) [
    | inl b ↦ rw (sym (some-inj (rw (a, b) at e))) refl
    | inr b ↦ absurd (clash (rw (a, b) at e))
  ]
]
  where
    some-inj : {a b : ObjAddr} → some a ≡ some b → a ≡ b
    some-inj q = cc q

    clash : none ≡ some addr → ⊥
    clash q = cc q

mounted-IsStore : IsStore mounted 4
mounted-IsStore = record {
  idx_ok = index-IsTable;
  gim_ok = garbage-IsTable;
  left = ready-HasLeft;
  kept = kept;
}
  where
    clash : (addr : ObjAddr) → none ≡ some addr → ⊥
    clash addr q = cc q

    kept : (j : ℕ) (addr : ObjAddr) → lookup index j ≡ some addr → IsKept mounted addr
    kept j addr e = elim (Bool-cases (bucket j == 25)) [
      | inl b ↦ listed-IsKept j addr (rw b at e)
      | inr b ↦ absurd (clash addr (rw b at e))
    ]

proc_obj-Placed_example :
    Placed mounted inode25
      (addr_at 4 9)
      2
      (proc_obj naive granted mounted inode_obj inode25 (addr_at 4 9))
proc_obj-Placed_example =
    proc_obj-Placed mounted inode25 (addr_at 4 9) 2 mounted-IsStore refl naive granted inode_obj
      refl

proc_obj-Deleted_example :
    Deleted mounted inode25 9 3 (proc_obj naive granted mounted del_obj inode25 (addr_at 4 9))
unfolding inum_from_id type_from_id
proc_obj-Deleted_example =
    proc_obj-Deleted naive granted mounted inode25 (addr_at 4 9) 3 mounted-IsStore refl
      (omega arith) (omega arith)

-- A transaction of two objects, and one that was cut short behind its first object.
abbrev found_at : ℕ → ℕ → Found
found_at offs id = record {
  addr = record { lnum = 4; offs = offs; len = 64; sqnum = 9 };
  obj = record { kind = 0; id = id; sqnum = 9; len = 64; trans = 0 };
}

abbrev mounting : Mounting
mounting = record { info = mounted; del_list = [] }

abbrev one_trans : List (List Found)
one_trans = (found_at 0 inode25 ∷ found_at 64 inode25 ∷ []) ∷ []

mount_scan-proc_all_example :
    mount_scan_rbuf naive granted 64 mounting
      (record { lnum = 4; offs = 0; len = 0; sqnum = 0 })
      true
      (log one_trans ++ label 3 0 (found_at 128 inode25 ∷ []))
      enoent
    ≡ proc_all naive granted 64 enoent mounting one_trans
mount_scan-proc_all_example =
    mount_scan-proc_all naive granted 64 enoent mounting
      (record { lnum = 4; offs = 0; len = 0; sqnum = 0 }) one_trans 3 (found_at 128 inode25 ∷ [])
      refl (omega arith, omega arith, tt) (omega arith) (omega arith)

check-get_obj_trans_example : check_trans_pos 1 (get_obj_trans 3 1) ≡ ok (1 + 1 == 3)
check-get_obj_trans_example = check-get_obj_trans 3 1 (omega arith)

abbrev entry_of : ℕ → ℕ → SumEntry
entry_of id sqnum = record { id = id; sqnum = sqnum; len = 64; del_flag_and_offs = 128; count = 0 }

abbrev summary : List SumEntry
summary = entry_of block25 8 ∷ entry_of inode25 7 ∷ []

-- A state with a block in use and two that are free, and a collector that finds nothing to do.
abbrev opened : Info
opened = record mounted { fsm = started }

abbrev idle_gc : Info → Option (Result (Unit {0}) × Info)
idle_gc info = some (err enoent, info)

fsm_alloc_eb-BlockGiven_example : BlockGiven small 0 (fsm_alloc_eb idle_gc opened 0)
fsm_alloc_eb-BlockGiven_example =
    fsm_alloc_eb-BlockGiven idle_gc opened 0 (omega arith) (omega arith, started-IsFsm)
      ((omega arith, started-IsFsm), refl)

-- A flash of which block 3 is mapped.
abbrev flash : Flash
flash = record {
  is_mapped = λ lnum. ok (lnum == 3);
  read_sum = λ lnum. err enoent;
  read_leb = λ lnum. err enoent;
}

check_flash_empty-Answer_example : Answer flash 0 6 (check_flash_empty flash 6)
check_flash_empty-Answer_example = check_flash_empty-Answer flash 6

ostore_init-NothingLeft_example : NothingLeft (ostore_init (λ r. not (r == 6)))
ostore_init-NothingLeft_example = ostore_init-NothingLeft (λ r. not (r == 6))
