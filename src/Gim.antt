-- ===== src/Gim.antt =====
-- impl/fs/bilby/c/gim.c: the garbage index, which counts how many versions of an id are garbage on
-- the flash and how recent they are. A function gets the fields of `struct bilbyfs_info` that it
-- uses: `gim_hash` as `table` and `node_pool` as `p`. A `gim_node` pointer is the id of its node.
pub mod Count
pub mod Range
pub mod Removable
use cogent.Prelude.{
  ℕ, zero, suc, ◌+◌, ◌%◌, ◌^◌, Bool, true, false, ◌&&◌, ◌||◌, Option, none, some, ltb, leb, ◌==◌,
  if◌then◌else◌, length,
}
use cogent.Types.{
  ObjAddr, Garbage, zero_garbage, Pool, Result, ok, err, Errno, enoent, enomem, add32, sub32,
  inode_obj, data_obj, dentarr_obj, pad_obj, sum_obj_type, del_obj,
}
use cogent.Obj.{ObjCh, get_obj_id}
use cogent.Ids.{inum_from_id, type_from_id}
use cogent.Pool.{allocpool_free_single}
use cogent.Tree.{Tree, Rbt, next_greater, entries}
use cogent.Hash.{
  Table, bucket, empty_table, hash_size, index_search, store_node, erase_node, insert_or_replace,
  clean_buckets,
}

-- `vmalloc` granted or not.
unfoldable pub gim_init : Bool → Result (Table Garbage)
gim_init granted = if granted then ok empty_table else err enomem

unfoldable pub gim_clean : Rbt → Table Garbage → Pool → Table Garbage × Pool
gim_clean rbt table p = clean_buckets rbt hash_size table p

-- The two assignments of `gim_mark_garbage_cnt`.
abbrev pub add_garbage : ℕ → ℕ → Garbage → Garbage
add_garbage sqnum count g = record {
  sqnum = if ltb g.sqnum sqnum then sqnum else g.sqnum;
  count = add32 g.count count;
}

unfoldable pub write_garbage :
    ℕ → ℕ → ℕ → Option (Pool × Table Garbage) → Option (Pool × Table Garbage)
write_garbage id sqnum count none = none
write_garbage id sqnum count (some (p, table)) =
    some (p, store_node table id (add_garbage sqnum count))

module _ (rbt : Rbt) (mem : ℕ → Bool) where
  unfoldable pub gim_insert_or_replace :
      Pool → Table Garbage → ℕ → Bool → Option (Pool × Table Garbage)
  gim_insert_or_replace p table id allocated =
      insert_or_replace rbt mem zero_garbage p table id allocated

  unfoldable pub gim_mark_garbage_cnt :
      Pool → Table Garbage → ℕ → ObjAddr → ℕ → Bool → Option (Pool × Table Garbage)
  unfolding gim_insert_or_replace write_garbage
  gim_mark_garbage_cnt p table id addr count allocated =
      write_garbage id addr.sqnum count (gim_insert_or_replace p table id allocated)

  unfoldable pub gim_mark_garbage :
      Pool → Table Garbage → ℕ → ObjAddr → Bool → Option (Pool × Table Garbage)
  unfolding gim_mark_garbage_cnt
  gim_mark_garbage p table id addr allocated = gim_mark_garbage_cnt p table id addr 1 allocated

unfoldable pub gim_next_node : Table Garbage → ℕ → Option (ℕ × Garbage)
gim_next_node table id = next_greater (table (bucket id)) id none

-- The loop of `gim_is_removable` over the nodes from a first one on, which belongs to the inode
-- `inum` if the loop goes on. The previous node has the inode of the first.
unfoldable pub range_removable : ℕ → Table Garbage → ℕ → ℕ → Option (ℕ × Garbage) → Option Bool
range_removable fuel table sqnum inum none = some true
range_removable zero table sqnum inum (some (id, g)) = none
range_removable (suc fuel) table sqnum inum (some (id, g)) =
    let rest = range_removable fuel table sqnum inum (gim_next_node table id) in
    if inum_from_id id == inum
    then (if leb g.sqnum sqnum && ltb 1 g.count then some false else rest)
    else some true

-- The nodes of the bucket are fuel for the loop, which stops before it runs out. Else `none` is the
-- failed `bilbyfs_assert` on a deletion object with an id of another type.
unfoldable pub del_removable : Table Garbage → ObjCh → Garbage → Option Bool
unfolding range_removable gim_next_node
del_removable table obj g =
    let id_type = type_from_id obj.id in
    if id_type == dentarr_obj
    then some true
    else if (id_type == inode_obj) || (id_type == data_obj)
    then range_removable (suc (length (entries (table (bucket obj.id))))) table obj.sqnum
        (inum_from_id obj.id) (some (obj.id, g))
    else none

-- What follows the search, for the object's id and the node that was found.
unfoldable pub found_removable : Table Garbage → ObjCh → Option Garbage → Option Bool
unfolding del_removable
found_removable table obj none = some false
found_removable table obj (some g) =
    if ltb g.sqnum obj.sqnum
    then some false
    else if obj.kind == del_obj
    then del_removable table obj g
    else some true

-- Here and below `none` is the failed `bilbyfs_assert` of `get_obj_id`, too.
unfoldable pub gim_is_removable : Table Garbage → ObjCh → Option Bool
unfolding found_removable get_obj_id
gim_is_removable table obj =
    if (obj.kind == pad_obj) || (obj.kind == sum_obj_type)
    then some true
    else elim (get_obj_id obj) [
      | none ↦ none
      | some id ↦ found_removable table obj (index_search table id)
    ]

abbrev pub dec_garbage : Garbage → Garbage
dec_garbage g = record g { count = sub32 g.count 1 }

module _ (rbt : Rbt) where
  -- The count is unsigned: it is at most 0 when it is 0.
  unfoldable pub collect_node :
      Pool → Table Garbage → ℕ → Option Garbage → Result (Unit {0}) × Pool × Table Garbage
  collect_node p table id none = (err enoent, p, table)
  collect_node p table id (some g) =
      let table' = store_node table id dec_garbage in
      if sub32 g.count 1 == 0
      then (ok tt, allocpool_free_single p, erase_node rbt table' id)
      else (ok tt, p, table')

  unfoldable pub gim_garbage_collected :
      Pool → Table Garbage → ObjCh → Option (Result (Unit {0}) × Pool × Table Garbage)
  unfolding collect_node get_obj_id
  gim_garbage_collected p table obj =
      if (obj.kind == pad_obj) || (obj.kind == sum_obj_type)
      then some (ok tt, p, table)
      else elim (get_obj_id obj) [
        | none ↦ none
        | some id ↦ some (collect_node p table id (index_search table id))
      ]
