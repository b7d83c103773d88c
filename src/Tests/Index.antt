-- ===== src/Tests/Index.antt =====
-- The pool, the ids and the index at concrete states.
use cogent.Prelude.{ℕ, ◌+◌, ◌*◌, ◌^◌, ◌%◌, ◌<◌, ◌-◌, ◌≡◌, refl, true, false, [], ◌∷◌, some, arith}
use cogent.Ids.{
  inum_from_id, type_from_id, xinfo_from_id, id_hash_nm, is_data_id, is_inode_id, is_dentarr_id,
  data_id_init, dentarr_id_init, inode_id_init,
}
use cogent.Ids.Fields.{data_id_fields, dentarr_id_fields, ids_ordered}
use cogent.Pool.{held, allocpool_alloc, allocpool_pop}
use cogent.Pool.Ready.{
  slots_of, IsReady, Allocated, popped, allocpool_alloc-Allocated, allocpool_pop-IsReady,
}
use cogent.Hash.{clean_buckets}
use cogent.Hash.Clean.{node_count, clean_buckets-empty}
use cogent.Tree.{entries}
use cogent.Idx.{idx_set_obj_addr, idx_del_obj_addr}
use cogent.Idx.Map.{SetDone, Deleted, idx_set-IsWritten, idx_del-Deleted}
use cogent.Tests.Data.{
  naive, granted, ready, ready-IsReady, ready-HasLeft, inode25, addr_at, index, index-IsTable,
}

idx_set-IsWritten_example :
    SetDone index
      (26 * 2 ^ 32)
      (addr_at 5 9)
      3
      (idx_set_obj_addr naive granted ready index (26 * 2 ^ 32) (addr_at 5 9) false)
idx_set-IsWritten_example =
    idx_set-IsWritten naive granted ready index (26 * 2 ^ 32) (addr_at 5 9) false 3 index-IsTable
      ready-HasLeft

idx_del-Deleted_example : Deleted index inode25 (idx_del_obj_addr naive index inode25)
idx_del-Deleted_example = idx_del-Deleted naive index inode25 index-IsTable

allocpool_alloc-Allocated_example : Allocated 6 8 (allocpool_alloc granted ready 8 64)
allocpool_alloc-Allocated_example = allocpool_alloc-Allocated granted ready 8 64 refl

allocpool_pop-IsReady_example :
    (allocpool_pop granted ready ≡ some (popped ready))
    × IsReady (popped ready)
    × (held (slots_of (popped ready).arr) + 1 ≡ 4)
allocpool_pop-IsReady_example = allocpool_pop-IsReady granted ready ready-IsReady (omega arith)

clean_buckets-empty_example :
    ((h : ℕ) → h < 26 → entries ((clean_buckets naive 26 index ready).0 h) ≡ [])
    × ((clean_buckets naive 26 index ready).1.live ≡ 6 - node_count 26 index)
clean_buckets-empty_example = clean_buckets-empty naive 26 index ready index-IsTable

data_id_fields_example :
    (inum_from_id (data_id_init 25 3) ≡ 25)
    × (type_from_id (data_id_init 25 3) ≡ 1)
    × (data_id_init 25 3 % 2 ^ 29 ≡ 3)
    × (is_data_id (data_id_init 25 3) ≡ true)
    × (is_inode_id (data_id_init 25 3) ≡ false)
    × (is_dentarr_id (data_id_init 25 3) ≡ false)
data_id_fields_example = data_id_fields 25 3 (omega arith) (omega arith)

dentarr_id_fields_example :
    (inum_from_id (dentarr_id_init 25 (104 ∷ 105 ∷ [])) ≡ 25)
    × (type_from_id (dentarr_id_init 25 (104 ∷ 105 ∷ [])) ≡ 2)
    × (xinfo_from_id (dentarr_id_init 25 (104 ∷ 105 ∷ [])) ≡ id_hash_nm (104 ∷ 105 ∷ []))
    × (id_hash_nm (104 ∷ 105 ∷ []) < 2 ^ 25)
    × (inum_from_id (inode_id_init 25) ≡ 25)
    × (type_from_id (inode_id_init 25) ≡ 0)
dentarr_id_fields_example = dentarr_id_fields 25 (104 ∷ 105 ∷ []) (omega arith)

ids_ordered_example :
    (inode_id_init 25 < data_id_init 25 3)
    × (data_id_init 25 3 < data_id_init 25 4)
    × (data_id_init 25 4 < dentarr_id_init 25 (104 ∷ []))
    × (dentarr_id_init 25 (104 ∷ []) < inode_id_init 26)
ids_ordered_example = ids_ordered 25 3 4 (104 ∷ []) (omega arith) (omega arith) (omega arith)
