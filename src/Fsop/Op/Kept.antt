-- ===== src/Fsop/Op/Kept.antt =====
-- Renaming, writing and setting attributes keep the numbers of inodes.
use cogent.Prelude.{
  ℕ, ◌/◌, refl, Bool, ◌&&◌, not, List, [], Option, none, some, ltb, ◌==◌, Bool-cases, inl, inr,
  if-both, ap, sym, ◌∙◌, ==_iff,
}
use cogent.Types.{Result, ok, err, enomem}
use cogent.Fsop.Frame.{at_self, at-other}
use cogent.Pack.{Inode}
use cogent.Fsop.{Kernel, Ostore, Call, World, at, is_type, block_size}
use cogent.Fsop.Rename.{restore, restore_new, restore_all, undo_rename, rename_checked}
use cogent.Fsop.Rename.Parties.{IsStable, do_rename-stable, prepared-stable}
use cogent.Fsop.Remove.{orphan}
use cogent.Fsop.Page.{fsop_write_end, fsop_readpage}
use cogent.Fsop.Attr.{
  Iattr, set_attrs, fsop_write_inode, write_truncated, last_block_read, fsop_truncate,
  fsop_do_setattr, set_given, fsop_setattr,
}
use cogent.Fsop.Op.Numbers.{
  TakesNoNumber, IsKept, Out, refl-IsKept, at-IsKept, undo-IsKept, write-IsKept,
}

module _ (k : Kernel) {σ : Type 0} (store : Ostore σ) (law : TakesNoNumber store) where
  kept-IsStable :
      (w : World σ) (old_dir old_inode new_dir : ℕ) (new_inode : Option ℕ)
      → IsStable k store old_dir old_inode new_dir new_inode (IsKept w)
  kept-IsStable w old_dir old_inode new_dir new_inode = record {
    change = λ v p f party c h. at-IsKept p f c.ino h;
    flag = λ v p e h. at-IsKept p orphan (λ i. refl) h;
    write = λ v objs osw_flag h. write-IsKept k store law v objs osw_flag h;
  }

  -- To go back to an old inode is to go back to its number.
  restore-IsKept :
      (w : World σ) (v : World σ) (p : ℕ) → IsKept w v → IsKept w (at v p (restore (w.inodes p)))
  restore-IsKept w v p h = record {
    next = unfold at in h.next;
    same = λ q. elim (Bool-cases (q == p)) [
      | inl e ↦
          ap (λ i. i.i_ino) (at_self v p q (restore (w.inodes p)) e)
          ∙ ap (λ n. (w.inodes n).i_ino) (sym ((==_iff q p).0 e))
      | inr e ↦ ap (λ i. i.i_ino) (at-other v p q (restore (w.inodes p)) e) ∙ h.same q
    ];
  }

  restore_new-IsKept :
      (w v : World σ) (p : Option ℕ) → IsKept w v → IsKept w (restore_new k store w v p)
  restore_new-IsKept w v none h = h
  restore_new-IsKept w v (some p) h = restore-IsKept w v p h

  restore_all-IsKept :
      (w v : World σ) (old_dir old_inode new_dir : ℕ) (new_inode : Option ℕ)
      → IsKept w v
      → IsKept w (restore_all k store w old_dir old_inode new_dir new_inode v)
  unfolding restore_all
  restore_all-IsKept w v old_dir old_inode new_dir new_inode h =
      restore_new-IsKept w _ new_inode
        (restore-IsKept w _ new_dir (restore-IsKept w _ old_inode (restore-IsKept w _ old_dir h)))

  pub write_end-IsKept :
      (call : Call) (w : World σ) (inode pos len : ℕ) (page : List ℕ)
      → IsKept w (fsop_write_end k store call w inode pos len page).1
  unfolding fsop_write_end
  write_end-IsKept call w inode pos len page =
      if-both (λ (out : Result (Unit {0}) × World σ). IsKept w out.1) w.bi.is_ro (refl-IsKept w)
        (undo-IsKept _ _ (λ v h. at-IsKept inode _ (λ i. refl) h)
          (write-IsKept k store law _ _ _ (at-IsKept inode _ (λ i. refl) (refl-IsKept w))))

  truncated-IsKept :
      (w v : World σ) (inode size : ℕ) (objs : _)
      → IsKept w v
      → IsKept w (write_truncated k store w v inode size objs).1
  unfolding write_truncated
  truncated-IsKept w v inode size objs h =
      undo-IsKept _ _ (λ v h. at-IsKept inode _ (λ i. refl) h) (write-IsKept k store law _ _ _ h)

  last_block-IsKept :
      (w v : World σ) (inode new_size aligned : ℕ) (x : _)
      → IsKept w v
      → IsKept w (last_block_read k store w v inode new_size aligned x).1
  unfolding last_block_read
  last_block-IsKept w v inode new_size aligned (err e, page) h = h
  last_block-IsKept w v inode new_size aligned (ok u, page) h =
      truncated-IsKept w v inode aligned _ h

  truncate-IsKept :
      (call : Call) (w : World σ) (inode size : ℕ)
      → IsKept w (fsop_truncate k store call w inode size).1
  unfolding fsop_truncate
  truncate-IsKept call w inode size =
      let P = λ (out : Result (Unit {0}) × World σ). IsKept w out.1 in
      let sized =
        λ (i : Inode). record i { i_ctime = call.now; i_mtime = call.now; i_size = size } in
      let h : IsKept w (at w inode sized) = at-IsKept inode sized (λ i. refl) (refl-IsKept w) in
      let aligned = k.align size block_size in
      let partial = not (size == aligned) && ltb size (w.inodes inode).i_size in
      if-both P partial
        (if-both P (not (call.mem 2)) h (
          last_block-IsKept w (at w inode sized) inode size aligned
            (fsop_readpage k store (at w inode sized) inode (size / block_size) call.page) h))
        (truncated-IsKept w (at w inode sized) inode aligned [] h)

  do_setattr-IsKept :
      (w : World σ) (inode : ℕ) (attr : Iattr) → IsKept w (fsop_do_setattr k store w inode attr).1
  unfolding fsop_do_setattr fsop_write_inode set_attrs
  do_setattr-IsKept w inode attr =
      undo-IsKept _ _ (λ v h. restore-IsKept w v inode h)
        (write-IsKept k store law _ _ _ (at-IsKept inode _ (λ i. refl) (refl-IsKept w)))

  set_given-IsKept :
      (call : Call) (w : World σ) (inode : ℕ) (attr : Iattr) (size : Option ℕ)
      → IsKept w (set_given k store call w inode attr size).1
  unfolding set_given
  set_given-IsKept call w inode attr none = do_setattr-IsKept w inode attr
  set_given-IsKept call w inode attr (some size) = truncate-IsKept call w inode size

  pub setattr-IsKept :
      (call : Call) (w : World σ) (inode : ℕ) (attr : Iattr)
      → IsKept w (fsop_setattr k store call w inode attr).1
  unfolding fsop_setattr
  setattr-IsKept call w inode attr =
      if-both (λ (out : Result (Unit {0}) × World σ). IsKept w out.1) w.bi.is_ro (refl-IsKept w)
        (set_given-IsKept call w inode attr attr.ia_size)

  undo_rename-IsKept :
      {u : World σ} (undo : World σ → World σ) (x : Option (Result (Unit {0}) × World σ))
      → ((v : World σ) → IsKept u v → IsKept u (undo v))
      → Out (IsKept u) x
      → Out (IsKept u) (undo_rename k store undo x)
  undo_rename-IsKept undo none f h = tt
  undo_rename-IsKept undo (some out) f h = undo-IsKept undo out f h

  pub rename_checked-IsKept :
      (call : Call) (w : World σ) (old_dir : ℕ) (old_name : List ℕ) (old_inode new_dir : ℕ)
      (new_name : List ℕ) (new_inode : Option ℕ) (is_dir : Bool) (x : _)
      → Out (IsKept w) (
          rename_checked k store call w old_dir old_name old_inode new_dir new_name new_inode is_dir
            x)
  unfolding rename_checked
  rename_checked-IsKept call w old_dir old_name old_inode new_dir new_name new_inode is_dir none =
      tt
  rename_checked-IsKept call w old_dir old_name old_inode new_dir new_name new_inode is_dir
        (some (err e)) =
      refl-IsKept w
  rename_checked-IsKept call w old_dir old_name old_inode new_dir new_name new_inode is_dir
        (some (ok u)) =
      if-both (Out (IsKept w)) (not (call.mem 7)) {x = some (err enomem, w)} (refl-IsKept w) (
        undo_rename-IsKept _ _ (λ v h. restore_all-IsKept w v old_dir old_inode new_dir new_inode h)
          (do_rename-stable k store old_dir old_inode new_dir new_inode (IsKept w)
            (kept-IsStable w old_dir old_inode new_dir new_inode) call _ old_name new_name
            (prepared-stable k store old_dir old_inode new_dir new_inode (IsKept w)
              (kept-IsStable w old_dir old_inode new_dir new_inode) call w
              (is_type k.modes k.modes.s_ifdir (w.inodes old_inode).i_mode) is_dir
              (refl-IsKept w))))
