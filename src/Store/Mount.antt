-- ===== src/Store/Mount.antt =====
-- impl/fs/bilby/c/ostore.c: how a mount reads the objects of an erase-block, transaction by
-- transaction. What `wbuf_next_obj_addr` finds in the block, one call after the other, is the list
-- of `Found` objects, and `last` is the error that ends it. A result `none` is a failed
-- `bilbyfs_assert`.
pub mod Atomic
use cogent.Prelude.{
  ℕ, zero, suc, ◌+◌, ◌*◌, ◌-◌, ◌%◌, ◌^◌, Bool, true, false, not, ◌&&◌, ◌||◌, List, [], ◌∷◌, ◌++◌,
  Option, none, some, length, ltb, ◌==◌, if◌then◌else◌,
}
use cogent.Types.{
  ObjAddr, Super, Pool, Result, ok, err, Errno, einval, enomem, del_obj, pad_obj, sum_obj_type,
  max_obj_per_trans, min_usable_log_sz,
}
use cogent.Obj.{ObjCh, get_obj_id, trans_st, trans_in, trans_end, trans_atom}
use cogent.Pool.{allocpool_alloc, allocpool_empty}
use cogent.Tree.{Rbt}
use cogent.Store.{Info, proc_obj}

-- `struct list_obj_del`, whose `type` is never used.
pub record ListObjDel : Type 0 where
  pub id : ℕ
  pub addr : ObjAddr

pub record Found : Type 0 where
  pub addr : ObjAddr
  pub obj : ObjCh

-- The state of a mount.
pub record Mounting : Type 0 where
  pub info : Info
  pub del_list : List ListObjDel

-- `true` if it is the last object of its transaction.
unfoldable pub check_trans_pos : ℕ → ℕ → Result Bool
check_trans_pos trans_nb_obj pos =
    if pos == trans_atom
    then (if trans_nb_obj == 0 then ok true else err einval)
    else if pos == trans_st
    then (if trans_nb_obj == 0 then ok false else err einval)
    else if pos == trans_in
    then (if trans_nb_obj == 0 then err einval else ok false)
    else if pos == trans_end
    then (if trans_nb_obj == 0 then err einval else ok true)
    else err einval

-- The sizes are `int`s, of which `min_io_size` and `max_io_size` come from the flash device and are
-- not 0. The sum of the reserves is taken not to overflow.
unfoldable pub mount_check_super : Super → ℕ → Result (Unit {0})
mount_check_super sup usable_leb_size =
    if not (sup.leb_size == usable_leb_size)
    then err einval
    else if ltb sup.leb_size sup.min_io_size
        || ltb sup.leb_size sup.max_io_size
        || ltb sup.max_io_size sup.min_io_size
        || not (sup.max_io_size % sup.min_io_size == 0)
        || not (sup.leb_size % sup.min_io_size == 0)
        || not (sup.leb_size % sup.max_io_size == 0)
    then err einval
    else if ltb sup.leb_cnt (sup.nb_reserved_gc + sup.nb_reserved_del + min_usable_log_sz)
    then err einval
    else ok tt

-- The new node goes to the front of the list.
unfoldable pub add_to_del_list : Bool → List ListObjDel → ℕ → ObjAddr → Result (List ListObjDel)
add_to_del_list granted del_list id addr =
    if granted then ok (record { id = id; addr = addr } ∷ del_list) else err enomem

-- A call of the kernel's allocator.
abbrev pub count_call : Info → Info
count_call info = record info {
  node_pool = record info.node_pool { calls = info.node_pool.calls + 1 };
}

unfoldable pub with_info : Mounting → Option Info → Option (Result (Unit {0}) × Mounting)
with_info m none = none
with_info m (some info) = some (ok tt, record m { info = info })

-- What goes on only where no error came back.
abbrev pub and_then :
    Option (Result (Unit {0}) × Mounting)
    → (Mounting → Option (Result (Unit {0}) × Mounting))
    → Option (Result (Unit {0}) × Mounting)
and_then none k = none
and_then (some (err e, m)) k = some (err e, m)
and_then (some (ok u, m)) k = k m

module _ (rbt : Rbt) (mem : ℕ → Bool) (node_size : ℕ) where
  unfoldable pub found_del : Mounting → ℕ → ObjAddr → Result (Unit {0}) × Mounting
  unfolding add_to_del_list
  found_del m id addr =
      let m' : Mounting = record m { info = count_call m.info } in
      elim (add_to_del_list (mem m.info.node_pool.calls) m.del_list id addr) [
        | err e ↦ (err e, m')
        | ok dels ↦ (ok tt, record m' { del_list = dels })
      ]

  -- The body of the loop over the objects of a transaction.
  unfoldable pub proc_found : Mounting → Found → Option (Result (Unit {0}) × Mounting)
  unfolding found_del get_obj_id with_info
  proc_found m x =
      if x.obj.kind == del_obj
      then (elim (get_obj_id x.obj) [ none ↦ none | some id ↦ some (found_del m id x.addr) ])
      else if x.obj.kind == pad_obj
      then with_info m (proc_obj rbt mem m.info x.obj.kind 0 x.addr)
      else if x.obj.kind == sum_obj_type
      then some (ok tt, m)
      else elim (get_obj_id x.obj) [
        | none ↦ none
        | some id ↦ with_info m (proc_obj rbt mem m.info x.obj.kind id x.addr)
      ]

  unfoldable pub proc_queue : Mounting → List Found → Option (Result (Unit {0}) × Mounting)
  unfolding proc_found
  proc_queue m [] = some (ok tt, m)
  proc_queue m (x ∷ xs) = and_then (proc_found m x) (λ m'. proc_queue m' xs)

  -- The pool is emptied, whether the loop failed or not.
  unfoldable pub empty_pool :
      Option (Result (Unit {0}) × Mounting) → Option (Result (Unit {0}) × Mounting)
  unfolding allocpool_empty
  empty_pool none = none
  empty_pool (some (r, m)) = elim (allocpool_empty m.info.node_pool) [
    | none ↦ none
    | some p ↦ some (r, record m { info = record m.info { node_pool = p } })
  ]

  -- What follows the last object of a transaction.
  unfoldable pub proc_trans : Mounting → List Found → Option (Result (Unit {0}) × Mounting)
  unfolding proc_queue empty_pool
  proc_trans m queue = elim (allocpool_alloc mem m.info.node_pool (length queue * 2) node_size) [
    | none ↦ none
    | some (err e, p) ↦ some (err e, record m { info = record m.info { node_pool = p } })
    | some (ok u, p) ↦
        empty_pool (proc_queue (record m { info = record m.info { node_pool = p } }) queue)
  ]

  -- The loop of `mount_scan_rbuf`, with the objects of the transaction so far in `queue`.
  unfoldable pub scan_objs :
      Mounting → List Found → List Found → Errno → Option (Result (Unit {0}) × Mounting)
  scan_objs m queue [] last = some (err last, m)
  scan_objs m queue (x ∷ xs) last = elim (check_trans_pos (length queue) x.obj.trans) [
    | err e ↦ scan_objs m [] xs last
    | ok false ↦
        scan_objs m (if length queue + 1 == max_obj_per_trans then [] else queue ++ x ∷ []) xs last
    | ok true ↦ and_then (proc_trans m (queue ++ x ∷ [])) (λ m'. scan_objs m' [] xs last)
  ]

  -- The address to start with has no length yet, and `bi->addrs` is there or not.
  unfoldable pub mount_scan_rbuf :
      Mounting → ObjAddr → Bool → List Found → Errno → Option (Result (Unit {0}) × Mounting)
  unfolding scan_objs
  mount_scan_rbuf m addr addrs found last =
      if not (addr.len == 0)
      then none
      else if not addrs
      then some (err enomem, m)
      else scan_objs m [] found last
