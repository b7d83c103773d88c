-- ===== src/Store/Scan.antt =====
-- impl/fs/bilby/c/ostore.c: how a mount goes through the blocks of the flash. What the write-buffer
-- reads from the flash is given for each block. Freeing the list of deletion objects, which the
-- code does on most of the ways out, and the counters that are only printed are left out. A result
-- `none` is a failed `bilbyfs_assert`.
pub mod Empty
use cogent.Prelude.{
  ℕ, zero, suc, ◌+◌, ◌-◌, ◌%◌, ◌^◌, Bool, true, false, List, [], ◌∷◌, Option, none, some,
  if◌then◌else◌,
}
use cogent.Types.{ObjAddr, Result, ok, err, Errno, enoent, del_obj, log_fst_lnum}
use cogent.Obj.{ObjCh}
use cogent.Tree.{Rbt}
use cogent.Fsm.{fsm_mark_used}
use cogent.Store.{Info, mark_dirty, proc_obj}
use cogent.Store.Mount.{ListObjDel, Found, Mounting, and_then, with_info, mount_scan_rbuf}
use cogent.Store.Summary.{SumEntry, mount_proc_sum}

-- The objects of a block, the error that ends them, and the offset where they end.
pub record Block : Type 0 where
  pub found : List Found
  pub last : Errno
  pub end_offs : ℕ

-- A summary, and what `check_obj_header` says of it.
pub record ReadSum : Type 0 where
  pub checked : Result (Unit {0})
  pub ch : ObjCh
  pub entries : List SumEntry

-- `ubi_is_mapped`, `wbuf_read_sum` and `wbuf_read_leb`, by the number of the block.
pub record Flash : Type 0 where
  pub is_mapped : ℕ → Result Bool
  pub read_sum : ℕ → Result ReadSum
  pub read_leb : ℕ → Result Block

-- The loop of `check_flash_empty` over `n` blocks from `lnum` on.
unfoldable pub empty_from : Flash → ℕ → ℕ → Result Bool
empty_from flash lnum zero = ok true
empty_from flash lnum (suc n) =
    let rest = empty_from flash (lnum + 1) n in
    elim (flash.is_mapped lnum) [ err e ↦ err e | ok mapped ↦ if mapped then ok false else rest ]

unfoldable pub check_flash_empty : Flash → ℕ → Result Bool
unfolding empty_from
check_flash_empty flash leb_cnt = empty_from flash 0 leb_cnt

-- An error of `ubi_is_mapped` is not 0, and counts as mapped here.
abbrev pub skipped : Result Bool → Bool
skipped (ok false) = true
skipped (ok true) = false
skipped (err e) = false

-- What is behind the last object of a block is dirt.
unfoldable pub after_scan :
    ℕ → ℕ → Option (Result (Unit {0}) × Mounting) → Option (Result (Unit {0}) × Mounting)
unfolding with_info
after_scan lnum end_offs none = none
after_scan lnum end_offs (some (ok u, m)) = some (ok tt, m)
after_scan lnum end_offs (some (err enoent, m)) = with_info m (
    mark_dirty m.info (record {
      lnum = lnum;
      offs = end_offs;
      len = (m.info.super.leb_size + 2 ^ 32 - end_offs) % 2 ^ 32;
      sqnum = 0;
    }))
after_scan lnum end_offs (some (err e, m)) = some (err e, m)

module _ (rbt : Rbt) (mem : ℕ → Bool) (node_size : ℕ) (flash : Flash) (no_summary : Bool) where
  unfoldable pub scan_block : Mounting → ℕ → Result Block → Option (Result (Unit {0}) × Mounting)
  unfolding after_scan
  scan_block m lnum (err e) = some (err e, m)
  scan_block m lnum (ok block) = after_scan lnum block.end_offs (
      mount_scan_rbuf rbt mem node_size m (record { lnum = lnum; offs = 0; len = 0; sqnum = 0 })
        true block.found block.last)

  -- A block without a summary is scanned; any other error ends the mount.
  unfoldable pub sum_block : Mounting → ℕ → Result ReadSum → Option (Result (Unit {0}) × Mounting)
  unfolding scan_block
  sum_block m lnum (ok sum) = mount_proc_sum rbt mem node_size m lnum sum.checked sum.ch sum.entries
  sum_block m lnum (err enoent) = scan_block m lnum (flash.read_leb lnum)
  sum_block m lnum (err e) = some (err e, m)

  -- The body of the loop, for a block that is mapped.
  unfoldable pub mapped_block : Mounting → ℕ → Option (Result (Unit {0}) × Mounting)
  unfolding sum_block scan_block
  mapped_block m lnum = elim (fsm_mark_used m.info.super m.info.fsm lnum) [
    | none ↦ none
    | some fsm ↦
        let m' : Mounting = record m { info = record m.info { fsm = fsm } } in
        if no_summary
        then scan_block m' lnum (flash.read_leb lnum)
        else sum_block m' lnum (flash.read_sum lnum)
  ]

  -- `n` blocks from `lnum` on.
  unfoldable pub scan_blocks : ℕ → Mounting → ℕ → Option (Result (Unit {0}) × Mounting)
  unfolding mapped_block
  scan_blocks zero m lnum = some (ok tt, m)
  scan_blocks (suc n) m lnum =
      and_then (if skipped (flash.is_mapped lnum) then some (ok tt, m) else mapped_block m lnum)
        (λ m'. scan_blocks n m' (lnum + 1))

  -- The loop over the deletion objects, the last that was read first.
  unfoldable pub proc_dels : Mounting → List ListObjDel → Option (Result (Unit {0}) × Mounting)
  unfolding with_info
  proc_dels m [] = some (ok tt, m)
  proc_dels m (curr ∷ dels) =
      and_then (with_info m (proc_obj rbt mem m.info del_obj curr.id curr.addr))
        (λ m'. proc_dels m' dels)

  unfoldable pub mount_scan : Info → Option (Result (Unit {0}) × Mounting)
  unfolding scan_blocks proc_dels
  mount_scan info =
      let started : Info = record info {
        node_pool = record info.node_pool { tot_nodes_needed = 0 };
      } in
      and_then
        (scan_blocks (info.super.leb_cnt - log_fst_lnum) (record { info = started; del_list = [] })
          log_fst_lnum)
        (λ m. proc_dels m m.del_list)
