-- ===== src/Idx.antt =====
-- impl/fs/bilby/c/idx.c: the index, from an object's id to its address on the flash. A function
-- gets the fields of `struct bilbyfs_info` that it uses: `idx_hash` as `table` and `node_pool` as
-- `p`. An `idx_node` pointer is the id of its node, which the table holds once.
pub mod Map
pub mod Next
use cogent.Prelude.{ℕ, Bool, true, false, Option, none, some, ◌==◌, if◌then◌else◌, ◌≤◌}
use cogent.Types.{ObjAddr, zero_addr, Pool, Result, ok, err, Errno, enoent, enomem}
use cogent.Ids.{inum_from_id, nil_id}
use cogent.Tree.{Tree, Rbt, next_greater}
use cogent.Hash.{
  Table, bucket, empty_table, hash_size, index_search, store_node, erase_node, insert_or_replace,
  clean_buckets,
}

-- `vmalloc` granted or not.
unfoldable pub idx_init : Bool → Result (Table ObjAddr)
idx_init granted = if granted then ok empty_table else err enomem

unfoldable pub idx_clean : Rbt → Table ObjAddr → Pool → Table ObjAddr × Pool
idx_clean rbt table p = clean_buckets rbt hash_size table p

unfoldable pub idx_get_obj_addr : Table ObjAddr → ℕ → Result ObjAddr
idx_get_obj_addr table id = elim (index_search table id) [ none ↦ err enoent | some addr ↦ ok addr ]

-- What `idx_next_obj_id` makes of the node where its descent last went left.
abbrev same_inum : ℕ → Option (ℕ × ObjAddr) → ℕ
same_inum id none = nil_id
same_inum id (some (next, addr)) = if inum_from_id id == inum_from_id next then next else nil_id

unfoldable pub idx_next_obj_id : Table ObjAddr → ℕ → ℕ
idx_next_obj_id table id = same_inum id (next_greater (table (bucket id)) id none)

-- The node's pointer, which the caller passes on, is not NULL.
unfoldable pub idx_del_obj_addr : Rbt → Table ObjAddr → ℕ → Option (Table ObjAddr)
idx_del_obj_addr rbt table id = elim (index_search table id) [
  | none ↦ none
  | some addr ↦ some (erase_node rbt table id)
]

-- `xnode->addr = *addr`.
unfoldable pub write_addr :
    ℕ → ObjAddr → Option (Pool × Table ObjAddr) → Option (Pool × Table ObjAddr)
write_addr id addr none = none
write_addr id addr (some (p, table)) = some (p, store_node table id (λ old. addr))

module _ (rbt : Rbt) (mem : ℕ → Bool) where
  unfoldable pub index_insert_or_replace :
      Pool → Table ObjAddr → ℕ → Bool → Option (Pool × Table ObjAddr)
  index_insert_or_replace p table id allocated =
      insert_or_replace rbt mem zero_addr p table id allocated

  unfoldable pub idx_set_obj_addr :
      Pool → Table ObjAddr → ℕ → ObjAddr → Bool → Option (Pool × Table ObjAddr)
  unfolding index_insert_or_replace write_addr
  idx_set_obj_addr p table id addr allocated =
      write_addr id addr (index_insert_or_replace p table id allocated)

  unfoldable pub idx_get_or_create_obj_addr_node :
      Pool → Table ObjAddr → ℕ → Option (Pool × Table ObjAddr)
  unfolding index_insert_or_replace
  idx_get_or_create_obj_addr_node p table id = index_insert_or_replace p table id false
