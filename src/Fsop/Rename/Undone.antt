-- ===== src/Fsop/Rename/Undone.antt =====
-- What a failed rename leaves of the inodes.
use cogent.Prelude.{
  ℕ, ◌≡◌, refl, sym, ap, ◌∙◌, Bool, not, List, Option, none, some, ◌==◌, if-both, Bool-cases, inl,
  inr, ==_iff,
}
use mathlib.Core.Path.{subst}
use cogent.Types.{Result, ok, err, erofs, enomem}
use cogent.Pack.{Inode}
use cogent.Fsop.{Kernel, Ostore, Call, World, or_undo, is_type, write_objects}
use cogent.Fsop.Frame.{at-keeps, at-other}
use cogent.Fsop.Remove.{orphan}
use cogent.Fsop.Rename.{restore, restore_all, undo_rename, rename_checked, fsop_rename}
use cogent.Fsop.Rename.Backup.{party-Restored, Any-Restored, IsParty-cases}
use cogent.Fsop.Rename.Parties.{
  IsParty, is_new_inode, IsStable, Outcome, do_rename-stable, prepared-stable,
}

module _ {σ : Type 0} (old_dir old_inode new_dir : ℕ) (new_inode : Option ℕ) where
  -- Between two states only the parties change, and of the fields of BilbyFs only the flags of the
  -- inode that is replaced.
  pub record IsNear (w v : World σ) : Type 0 where
    pub others : (q : ℕ) → ¬ IsParty old_dir old_inode new_dir new_inode q → v.inodes q ≡ w.inodes q
    pub sqnum : (q : ℕ) → (v.inodes q).creat_sqnum ≡ (w.inodes q).creat_sqnum
    pub flags : (q : ℕ) → ¬ (new_inode ≡ some q) → (v.inodes q).flags ≡ (w.inodes q).flags

  -- Every inode is as it was, but for the flags of the one that is replaced.
  pub record IsUndone (w v : World σ) : Type 0 where
    pub same : (q : ℕ) → ¬ (new_inode ≡ some q) → v.inodes q ≡ w.inodes q
    pub replaced :
        (q : ℕ)
        → new_inode ≡ some q
        → v.inodes q ≡ record (w.inodes q) { flags = (v.inodes q).flags }

  -- A failed operation leaves such a state; one that succeeds does not matter here.
  abbrev pub Failed : World σ → Result (Unit {0}) × World σ → Type 0
  Failed w (ok u, v) = Unit
  Failed w (err e, v) = IsUndone w v

  abbrev pub MaybeFailed : World σ → Option (Result (Unit {0}) × World σ) → Type 0
  MaybeFailed w none = Unit
  MaybeFailed w (some out) = Failed w out

module _ (k : Kernel) {σ : Type 0} (store : Ostore σ) (old_dir old_inode new_dir : ℕ)
    (new_inode : Option ℕ) where
  refl-IsUndone : (w : World σ) → IsUndone old_dir old_inode new_dir new_inode w w
  refl-IsUndone w = record { same = λ q h. refl; replaced = λ q e. refl }

  IsNear-IsStable :
      (w : World σ)
      → IsStable k store old_dir old_inode new_dir new_inode
          (IsNear old_dir old_inode new_dir new_inode w)
  unfolding write_objects
  IsNear-IsStable w = record {
    change = λ v p f party c h. record {
      others = λ q other. elim (Bool-cases (q == p)) [
        | inl e ↦ absurd (
            other
              (subst (IsParty old_dir old_inode new_dir new_inode) (sym ((==_iff q p).0 e)) party))
        | inr e ↦ at-other v p q f e ∙ h.others q other
      ];
      sqnum = λ q. at-keeps (λ i. i.creat_sqnum) f c.sqnum v p q ∙ h.sqnum q;
      flags = λ q n. at-keeps (λ i. i.flags) f c.flags v p q ∙ h.flags q n;
    };
    flag = λ v p new h. record {
      others = λ q other. elim (Bool-cases (q == p)) [
        | inl e ↦
            absurd (other (is_new_inode (new ∙ ap (λ (x : ℕ). some x) (sym ((==_iff q p).0 e)))))
        | inr e ↦ at-other v p q orphan e ∙ h.others q other
      ];
      sqnum = λ q. at-keeps (λ i. i.creat_sqnum) orphan (λ i. refl) v p q ∙ h.sqnum q;
      flags = λ q n. elim (Bool-cases (q == p)) [
        | inl e ↦ absurd (n (new ∙ ap (λ (x : ℕ). some x) (sym ((==_iff q p).0 e))))
        | inr e ↦ ap (λ (i : Inode). i.flags) (at-other v p q orphan e) ∙ h.flags q n
      ];
    };
    write = λ v objs osw_flag h. record { others = h.others; sqnum = h.sqnum; flags = h.flags };
  }

  restore_all-IsUndone :
      (w v : World σ)
      → IsNear old_dir old_inode new_dir new_inode w v
      → IsUndone old_dir old_inode new_dir new_inode w
          (restore_all k store w old_dir old_inode new_dir new_inode v)
  restore_all-IsUndone w v h = record {
    same = λ q n. elim (IsParty-cases old_dir old_inode new_dir new_inode q) [
      | inl party ↦
          party-Restored k store w v old_dir old_inode new_dir new_inode q party ∙ back q n
      | inr other ↦ elim (Any-Restored k store w v old_dir old_inode new_dir new_inode q) [
        | inl e ↦ e ∙ h.others q other
        | inr e ↦ e ∙ back q n
      ]
    ];
    replaced = λ q e.
        let r = party-Restored k store w v old_dir old_inode new_dir new_inode q (is_new_inode e) in
        r
        ∙ (ap (λ (n : ℕ). record (w.inodes q) { creat_sqnum = n; flags = (v.inodes q).flags })
              (h.sqnum q)
            ∙ ap (λ (n : ℕ). record (w.inodes q) { flags = n })
                (sym (ap (λ (i : Inode). i.flags) r)));
  }
    where
      back : (q : ℕ) → ¬ (new_inode ≡ some q) → restore (w.inodes q) (v.inodes q) ≡ w.inodes q
      back q n =
          ap (λ (x : ℕ). record (w.inodes q) { creat_sqnum = x; flags = (v.inodes q).flags })
            (h.sqnum q)
          ∙ ap (λ (x : ℕ). record (w.inodes q) { flags = x }) (h.flags q n)

  undo_rename-Failed :
      (w : World σ) (x : Option (Result (Unit {0}) × World σ))
      → Outcome k store old_dir old_inode new_dir new_inode
          (IsNear old_dir old_inode new_dir new_inode w)
          x
      → MaybeFailed old_dir old_inode new_dir new_inode w
          (undo_rename k store (restore_all k store w old_dir old_inode new_dir new_inode) x)
  unfolding or_undo
  undo_rename-Failed w none h = tt
  undo_rename-Failed w (some (ok u, v)) h = tt
  undo_rename-Failed w (some (err e, v)) h = restore_all-IsUndone w v h

  rename_checked-Failed :
      (call : Call) (w : World σ) (old_name new_name : List ℕ) (is_dir : Bool)
      (x : Option (Result (Unit {0})))
      → MaybeFailed old_dir old_inode new_dir new_inode w (
          rename_checked k store call w old_dir old_name old_inode new_dir new_name new_inode is_dir
            x)
  unfolding rename_checked
  rename_checked-Failed call w old_name new_name is_dir none = tt
  rename_checked-Failed call w old_name new_name is_dir (some (err e)) = refl-IsUndone w
  rename_checked-Failed call w old_name new_name is_dir (some (ok u)) =
      if-both (MaybeFailed old_dir old_inode new_dir new_inode w) (not (call.mem 7))
        {x = some (err enomem, w)} (refl-IsUndone w)
        (undo_rename-Failed w _ (
          do_rename-stable k store old_dir old_inode new_dir new_inode _ (IsNear-IsStable w) call _
            old_name new_name
            (prepared-stable k store old_dir old_inode new_dir new_inode _ (IsNear-IsStable w) call
              w (is_type k.modes k.modes.s_ifdir (w.inodes old_inode).i_mode) is_dir
              (record { others = λ q n. refl; sqnum = λ q. refl; flags = λ q n. refl }))))

-- A rename that fails leaves every inode as it was, also where the pointers of the directories and
-- inodes are the same, but for the flags of the inode that was to be replaced.
pub fsop_rename-Undone :
    (k : Kernel) {σ : Type 0} (store : Ostore σ) (fuel : ℕ) (call : Call) (w : World σ)
    (old_dir : ℕ) (old_name : List ℕ) (old_inode new_dir : ℕ) (new_name : List ℕ)
    (new_inode : Option ℕ)
    → MaybeFailed old_dir old_inode new_dir new_inode w
        (fsop_rename k store fuel call w old_dir old_name old_inode new_dir new_name new_inode)
unfolding fsop_rename
fsop_rename-Undone k store fuel call w old_dir old_name old_inode new_dir new_name new_inode =
    if-both (MaybeFailed old_dir old_inode new_dir new_inode w) w.bi.is_ro {x = some (err erofs, w)}
      (refl-IsUndone k store old_dir old_inode new_dir new_inode w)
      (rename_checked-Failed k store old_dir old_inode new_dir new_inode call w old_name new_name _
        _)
