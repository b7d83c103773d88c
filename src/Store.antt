-- ===== src/Store.antt =====
-- impl/fs/bilby/c/ostore.c: how the object store accounts for an object of the log, `proc_obj`,
-- which the write path and the mount share. `Info` has the fields of `struct bilbyfs_info` that it
-- changes. A result `none` is a failed `bilbyfs_assert`.
pub mod Waste
pub mod Valid
pub mod Entry
pub mod Range
pub mod Delete
pub mod Deletion
pub mod Mount
pub mod Summary
pub mod Alloc
pub mod Scan
pub mod Init
use cogent.Prelude.{
  List, [], ◌∷◌, ℕ, zero, suc, ◌+◌, Bool, true, false, ◌||◌, Option, none, some, length, ltb, ◌==◌,
  if◌then◌else◌,
}
use cogent.Types.{
  add32, ObjAddr, Garbage, Super, Fsm, Pool, Result, ok, err, inode_obj, data_obj, dentarr_obj,
  pad_obj, del_obj, log_fst_lnum,
}
use cogent.Ids.{inum_from_id, type_from_id, nil_id}
use cogent.Obj.{ObjCh}
use cogent.Tree.{Rbt, entries}
use cogent.Hash.{Table, bucket, index_search, store_node}
use cogent.Idx.{
  idx_get_obj_addr, idx_get_or_create_obj_addr_node, idx_next_obj_id, idx_del_obj_addr,
}
use cogent.Gim.{gim_mark_garbage}
use cogent.Fsm.{
  fsm_mark_dirty, fsm_check_free_space, alloc_next, fsm_mark_erased, fsm_get_free_space,
  fsm_get_available_space,
}

pub record Info : Type 0 where
  pub super : Super
  pub fsm : Fsm
  pub node_pool : Pool
  pub idx_hash : Table ObjAddr
  pub gim_hash : Table Garbage

unfoldable pub ostore_get_obj_size : Info → ℕ → Result ℕ
ostore_get_obj_size info id = elim (idx_get_obj_addr info.idx_hash id) [
  | err e ↦ err e
  | ok addr ↦ ok addr.len
]

unfoldable pub ostore_next_obj_id : Info → ℕ → ℕ
ostore_next_obj_id info id =
    let next = idx_next_obj_id info.idx_hash id in
    if inum_from_id id == inum_from_id next then next else nil_id

unfoldable pub ostore_get_free_space : Info → ℕ
ostore_get_free_space info = fsm_get_free_space info.super info.fsm

unfoldable pub ostore_get_available_space : Info → ℕ
ostore_get_available_space info = fsm_get_available_space info.super info.fsm

-- The sum of the lengths, of 32 bits.
unfoldable pub obj_list_serial_size : List ObjCh → ℕ
obj_list_serial_size [] = 0
obj_list_serial_size (obj ∷ objs) = add32 obj.len (obj_list_serial_size objs)

unfoldable pub mark_dirty : Info → ObjAddr → Option Info
mark_dirty info addr = elim (fsm_mark_dirty info.super info.fsm addr) [
  | none ↦ none
  | some fsm' ↦ some (record info { fsm = fsm' })
]

-- `idx_node->addr = *addr`.
abbrev pub set_addr : Info → ℕ → ObjAddr → Info
set_addr info id addr = record info { idx_hash = store_node info.idx_hash id (λ old. addr) }

module _ (rbt : Rbt) (mem : ℕ → Bool) where
  -- The call of `gim_mark_garbage` and the call of `fsm_mark_dirty` after it.
  unfoldable pub waste : Info → ℕ → ObjAddr → Bool → Option Info
  unfolding mark_dirty
  waste info id addr allocated =
      elim (gim_mark_garbage rbt mem info.node_pool info.gim_hash id addr allocated) [
        | none ↦ none
        | some (p, table) ↦ mark_dirty (record info { node_pool = p; gim_hash = table }) addr
      ]

  -- What follows once the index has a node for the object, with the address it holds.
  unfoldable pub place_object : Info → ℕ → ObjAddr → ObjAddr → Option Info
  unfolding waste
  place_object info id addr node =
      if node.sqnum == 0
      then some (set_addr info id addr)
      else if ltb node.sqnum addr.sqnum
      then waste (set_addr info id addr) id addr false
      else waste info id addr false

  -- The node is there, so the read through its pointer succeeds.
  unfoldable pub with_node : Info → ℕ → ObjAddr → Option (Pool × Table ObjAddr) → Option Info
  unfolding place_object
  with_node info id addr none = none
  with_node info id addr (some (p, table)) = elim (index_search table id) [
    | none ↦ none
    | some node ↦ place_object (record info { node_pool = p; idx_hash = table }) id addr node
  ]

  -- The case of an inode, a directory entry array or a data block.
  unfoldable pub proc_valid : Info → ℕ → ObjAddr → Option Info
  unfolding with_node
  proc_valid info id addr =
      with_node info id addr
        (idx_get_or_create_obj_addr_node rbt mem info.node_pool info.idx_hash id)

  -- An object that the deletion object at `addr` covers: its index node becomes its garbage node.
  unfoldable pub delete_indexed : Info → ObjAddr → ℕ → Result ObjAddr → Option Info
  unfolding waste
  delete_indexed info addr id (err e) = some info
  delete_indexed info addr id (ok old_addr) =
      if ltb old_addr.sqnum addr.sqnum
      then (elim (idx_del_obj_addr rbt info.idx_hash id) [
        | none ↦ none
        | some table ↦ waste (record info { idx_hash = table }) id old_addr true
      ])
      else some info

  unfoldable pub delete_entry : Info → ObjAddr → ℕ → Option Info
  unfolding delete_indexed
  delete_entry info addr id = delete_indexed info addr id (idx_get_obj_addr info.idx_hash id)

  -- The loop over the objects of an inode from `curr_id` on.
  unfoldable pub delete_range : ℕ → Info → ObjAddr → ℕ → Option Info
  unfolding delete_entry
  delete_range zero info addr curr_id = none
  delete_range (suc fuel) info addr curr_id = elim (curr_id == nil_id) [
    | true ↦ some info
    | false ↦ elim (delete_entry info addr curr_id) [
      | none ↦ none
      | some info' ↦ delete_range fuel info' addr (idx_next_obj_id info'.idx_hash curr_id)
    ]
  ]

  -- The inner `switch`. The loop meets the first id and then nodes of its bucket, at most.
  unfoldable pub delete_covered : Info → ℕ → ObjAddr → Option Info
  unfolding delete_range delete_entry
  delete_covered info id addr =
      let id_type = type_from_id id in
      if id_type == dentarr_obj
      then delete_entry info addr id
      else if (id_type == inode_obj) || (id_type == data_obj)
      then delete_range (length (entries (info.idx_hash (bucket id))) + 2) info addr id
      else none

  unfoldable pub proc_del : Info → ℕ → ObjAddr → Option Info
  unfolding delete_covered waste
  proc_del info id addr = elim (delete_covered info id addr) [
    | none ↦ none
    | some info' ↦ waste info' id addr false
  ]

  unfoldable pub proc_obj : Info → ℕ → ℕ → ObjAddr → Option Info
  unfolding proc_valid proc_del mark_dirty
  proc_obj info kind id addr =
      if kind == pad_obj
      then mark_dirty info addr
      else if (kind == inode_obj) || (kind == dentarr_obj) || (kind == data_obj)
      then proc_valid info id addr
      else if kind == del_obj
      then proc_del info id addr
      else none

-- The write-buffer's `wbuf_erase` is given by its result.
unfoldable pub ostore_erase : Info → ℕ → Result (Unit {0}) → Option (Result (Unit {0}) × Info)
ostore_erase info lnum (err e) = some (err e, info)
ostore_erase info lnum (ok u) = elim (fsm_mark_erased info.super info.fsm lnum) [
  | none ↦ none
  | some fsm' ↦ some (ok tt, record info { fsm = fsm' })
]
