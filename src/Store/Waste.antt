-- ===== src/Store/Waste.antt =====
-- What `waste` does to the state, and the invariant of the state.
use cogent.Prelude.{ℕ, ◌≡◌, refl, sym, Bool, true, ◌&&◌, Option, none, some}
use cogent.Types.{ObjAddr, Garbage, Pool}
use cogent.Tree.{Rbt}
use cogent.Hash.{Table, IsTable, lookup}
use cogent.Hash.Insert.{needed}
use cogent.Pool.Ready.{HasLeft}
use cogent.Gim.{gim_mark_garbage, gim_mark_garbage_cnt}
use cogent.Gim.Count.{IsMarked, MarkDone, gim_mark-IsMarked}
use cogent.Fsm.{fsm_mark_dirty, dirty_fsm, in_log, is_used}
use cogent.Store.{Info, waste, mark_dirty}

-- The address lies in a block of the log that is in use.
abbrev pub IsKept : Info → ObjAddr → Type 0
IsKept info addr = (in_log info.super addr.lnum && is_used info.fsm addr.lnum) ≡ true

-- Both tables are tables, `n` nodes are left in the pool, and the index points into blocks that
-- are in use.
pub record IsStore (info : Info) (n : ℕ) : Type 0 where
  pub idx_ok : IsTable info.idx_hash
  pub gim_ok : IsTable info.gim_hash
  pub left : HasLeft n info.node_pool
  pub kept : (j : ℕ) (addr : ObjAddr) → lookup info.idx_hash j ≡ some addr → IsKept info addr

-- The object at `addr` was counted as a garbage version of `id` and as dirt of its block, and
-- nothing else but the pool changed.
pub record IsWasted (info : Info) (id : ℕ) (addr : ObjAddr) (n : ℕ) (out : Info) : Type 0 where
  pub same_super : out.super ≡ info.super
  pub same_idx : out.idx_hash ≡ info.idx_hash
  pub dirtied : out.fsm ≡ dirty_fsm info.fsm addr
  pub counted : IsMarked info.gim_hash id addr.sqnum 1 n (out.node_pool, out.gim_hash)

abbrev pub WasteDone : Info → ℕ → ObjAddr → ℕ → Option Info → Type 0
WasteDone info id addr n none = ⊥
WasteDone info id addr n (some out) = IsWasted info id addr n out

mark_dirty-IsKept :
    (info : Info) (addr : ObjAddr)
    → IsKept info addr
    → mark_dirty info addr ≡ some (record info { fsm = dirty_fsm info.fsm addr })
unfolding mark_dirty fsm_mark_dirty
mark_dirty-IsKept info addr k = rw (k, mark_dirty, fsm_mark_dirty) refl

module _ (rbt : Rbt) (mem : ℕ → Bool) where
  pub waste-WasteDone :
      (info : Info) (id : ℕ) (addr : ObjAddr) (allocated : Bool) (n : ℕ)
      → IsTable info.gim_hash
      → HasLeft (needed allocated n) info.node_pool
      → IsKept info addr
      → WasteDone info id addr n (waste rbt mem info id addr allocated)
  unfolding waste gim_mark_garbage
  waste-WasteDone info id addr allocated n v h k =
      go (gim_mark_garbage_cnt rbt mem info.node_pool info.gim_hash id addr 1 allocated)
        (gim_mark-IsMarked rbt mem info.node_pool info.gim_hash id addr 1 allocated n v h)
    where
      go :
          (o : Option (Pool × Table Garbage))
          → MarkDone info.gim_hash id addr.sqnum 1 n o
          → WasteDone info id addr n (elim o [
            | none ↦ none
            | some (p, table) ↦ mark_dirty (record info { node_pool = p; gim_hash = table }) addr
          ])
      go none d = d
      go (some (p, table)) d =
          rw (mark_dirty-IsKept (record info { node_pool = p; gim_hash = table }) addr k)
            (record { same_super = refl; same_idx = refl; dirtied = refl; counted = d })

-- The invariant survives, with `n` nodes left.
pub wasted-IsStore :
    (info : Info) (id : ℕ) (addr : ObjAddr) (n m : ℕ) (out : Info)
    → IsStore info m
    → IsWasted info id addr n out
    → IsStore out n
wasted-IsStore info id addr n m out s w = record {
  idx_ok = rw w.same_idx s.idx_ok;
  gim_ok = w.counted.is_table;
  left = w.counted.left;
  kept = λ j a e. rw (w.same_super, w.dirtied) (s.kept j a (rw (sym w.same_idx) e));
}
