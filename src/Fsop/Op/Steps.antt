-- ===== src/Fsop/Op/Steps.antt =====
-- Inode numbers over any sequence of operations: each is given out once.
use cogent.Prelude.{
  ℕ, ◌+◌, ◌%◌, ◌^◌, ◌<◌, ◌≡◌, refl, ◌∙◌, ap, arith, false, List, Option, none, some, ltb, bit_and,
  ◌==◌, if-both, if-cases, ltb→lt, ==_iff,
}
use cogent.Types.{Result, ok, err, erofs, enametoolong}
use cogent.Pack.{Inode}
use cogent.Fsop.{
  Kernel, Ostore, Call, World, last_inum, at, init_inode, init_fields, inode_init_perm, next_inum,
  next_sqnum, set_inode_flags,
}
use cogent.Fsop.Frame.{at_self, at-other}
use cogent.Fsop.Name.{
  add_name, then_run, with_inode, fsop_link, fsop_create, fsop_mkdir, fsop_symlink,
}
use cogent.Fsop.Remove.{fsop_unlink, fsop_rmdir, rmdir_checked, check_dir_empty, del_name}
use cogent.Fsop.Rename.{fsop_rename}
use cogent.Fsop.Op.{
  Op, link, create, mkdir, symlink, unlink, rmdir, rename, write_end, setattr, run,
}
use cogent.Fsop.Op.Numbers.{
  TakesNoNumber, IsKept, Out, refl-IsKept, at-IsKept, link_added-IsKept, create_added-IsKept,
  mkdir_added-IsKept, symlink_added-IsKept, unlink_deleted-IsKept, rmdir_deleted-IsKept,
}
use cogent.Fsop.Op.Kept.{write_end-IsKept, setattr-IsKept, rename_checked-IsKept}

module _ {σ : Type 0} where
  -- The inode behind the pointer has got the next number.
  pub record IsTaken (p : ℕ) (w w' : World σ) : Type 0 where
    pub room : w.bi.next_inum < last_inum
    pub next : w'.bi.next_inum ≡ w.bi.next_inum + 1
    pub new : (w'.inodes p).i_ino ≡ w.bi.next_inum + 1
    pub same : (q : ℕ) → (q == p) ≡ false → (w'.inodes q).i_ino ≡ (w.inodes q).i_ino

  -- What an operation does with the numbers of inodes.
  infix 40 ◌⟶◌
  pub data ◌⟶◌ : World σ → World σ → Type 0 where
    keep : {w w' : World σ} → IsKept w w' → w ⟶ w'
    take : {w w' : World σ} (p : ℕ) → IsTaken p w w' → w ⟶ w'

  IsTaken-IsKept : {w v u : World σ} (p : ℕ) → IsTaken p w v → IsKept v u → IsTaken p w u
  IsTaken-IsKept p t h = record {
    room = t.room;
    next = h.next ∙ t.next;
    new = h.same p ∙ t.new;
    same = λ q e. h.same q ∙ t.same q e;
  }

  Out-keep :
      (w : World σ) (x : Option (Result (Unit {0}) × World σ))
      → Out (IsKept w) x
      → Out (λ w'. w ⟶ w') x
  Out-keep w none h = tt
  Out-keep w (some out) h = keep h

  Out-take :
      (w v : World σ) (p : ℕ) (x : Option (Result (Unit {0}) × World σ))
      → IsTaken p w v
      → Out (IsKept v) x
      → Out (λ w'. w ⟶ w') x
  Out-take w v p none t h = tt
  Out-take w v p (some out) t h = take p (IsTaken-IsKept p t h)

init_perm-ino :
    (k : Kernel) (call : Call) (dir : Option Inode) (mode : ℕ) (i : Inode)
    → (inode_init_perm k call dir mode i).i_ino ≡ i.i_ino
unfolding inode_init_perm
init_perm-ino k call none mode i = refl
init_perm-ino k call (some dir) mode i =
    if-both (λ (j : Inode). j.i_ino ≡ i.i_ino) (bit_and dir.i_mode k.s_isgid == 0) refl refl

init_fields-ino :
    (k : Kernel) (call : Call) (dir : Option Inode) (mode : ℕ) (i : Inode)
    → (init_fields k call dir mode i).i_ino ≡ i.i_ino
unfolding init_fields set_inode_flags
init_fields-ino k call dir mode i = init_perm-ino k call dir mode _

module _ {σ : Type 0} where
  -- A new inode has the next number, or there is none left and nothing is numbered.
  abbrev Inited : ℕ → World σ → Result (Unit {0}) × World σ → Type 0
  Inited p w (ok u, w') = IsTaken p w w'
  Inited p w (err e, w') = IsKept w w'

module _ {σ : Type 0} where
  -- The last write of `init_inode`: the number that next_inum gives.
  number-IsTaken :
      (w v : World σ) (p sqnum : ℕ)
      → w.bi.next_inum < last_inum
      → v.bi.next_inum ≡ (next_inum w.bi).0
      → IsKept w (record v { bi = w.bi })
      → IsTaken p w (at v p (λ i. record i { i_ino = (next_inum w.bi).0; creat_sqnum = sqnum }))
  unfolding next_inum at
  number-IsTaken w v p sqnum room next h =
      let f = λ (i : Inode). record i { i_ino = (next_inum w.bi).0; creat_sqnum = sqnum } in
      let fits : (w.bi.next_inum + 1) % 2 ^ 32 ≡ w.bi.next_inum + 1 = omega arith in
      record {
        room = room;
        next = next ∙ fits;
        new = ap (λ (i : Inode). i.i_ino) (at_self v p p f ((==_iff p p).1 refl)) ∙ fits;
        same = λ q e. ap (λ (i : Inode). i.i_ino) (at-other v p q f e) ∙ h.same q;
      }

module _ (k : Kernel) {σ : Type 0} (store : Ostore σ) (law : TakesNoNumber store) where
  init_inode-Inited :
      (call : Call) (w : World σ) (dir inode mode : ℕ)
      → Inited inode w (init_inode k store call w (some dir) inode mode)
  unfolding init_inode next_sqnum next_inum
  init_inode-Inited call w dir inode mode =
      let kept : IsKept w (at w inode (init_fields k call (some (w.inodes dir)) mode)) =
        at-IsKept inode _ (λ i. init_fields-ino k call (some (w.inodes dir)) mode i)
          (refl-IsKept w) in
      let v : World σ = record {
        bi = (next_sqnum (next_inum w.bi).1).1;
        inodes = (at w inode (init_fields k call (some (w.inodes dir)) mode)).inodes;
      } in
      if-cases (Inited inode w) (ltb w.bi.next_inum last_inum)
        (λ e.
          number-IsTaken w v inode (next_sqnum (next_inum w.bi).1).0
            (ltb→lt w.bi.next_inum last_inum e) refl (record { next = refl; same = kept.same }))
        (λ e. kept)

  then_run-⟶ :
      (w : World σ) (p : ℕ) (out : Result (Unit {0}) × World σ)
      (rest : World σ → Option (Result (Unit {0}) × World σ))
      → Inited p w out
      → ((v : World σ) → Out (IsKept v) (rest v))
      → Out (λ w'. w ⟶ w') (then_run k store out rest)
  unfolding then_run
  then_run-⟶ w p (ok u, v) rest t f = Out-take w v p (rest v) t (f v)
  then_run-⟶ w p (err e, v) rest h f = keep h

  with_inode-⟶ :
      (call : Call) (w : World σ) (dir inode mode : ℕ)
      (rest : World σ → Option (Result (Unit {0}) × World σ))
      → ((v : World σ) → Out (IsKept v) (rest v))
      → Out (λ w'. w ⟶ w') (with_inode k store call w dir inode mode rest)
  unfolding with_inode
  with_inode-⟶ call w dir inode mode rest f =
      then_run-⟶ w inode (init_inode k store call w (some dir) inode mode) rest
        (init_inode-Inited call w dir inode mode) f

  rmdir_checked-IsKept :
      (call : Call) (w : World σ) (dir : ℕ) (name : List ℕ) (inode : ℕ) (x : _)
      → Out (IsKept w) (rmdir_checked k store call w dir name inode x)
  unfolding rmdir_checked
  rmdir_checked-IsKept call w dir name inode none = tt
  rmdir_checked-IsKept call w dir name inode (some (err e)) = refl-IsKept w
  rmdir_checked-IsKept call w dir name inode (some (ok u)) =
      rmdir_deleted-IsKept k store law call w dir inode _

  -- Whatever its outcome, an operation numbers no inode, or one, with the next number.
  pub run-⟶ : (call : Call) (w : World σ) (op : Op) → Out (λ w'. w ⟶ w') (run k store call w op)
  unfolding run fsop_link fsop_create fsop_mkdir fsop_symlink fsop_unlink fsop_rmdir fsop_rename
  run-⟶ call w (link inode dir name) =
      if-both (Out (λ w'. w ⟶ w')) w.bi.is_ro {x = some (err erofs, w)} (keep (refl-IsKept w)) (
        Out-keep w _
          (link_added-IsKept k store law call w inode dir (add_name k store call w dir inode name)))
  run-⟶ call w (create dir name mode inode) =
      if-both (Out (λ w'. w ⟶ w')) w.bi.is_ro {x = some (err erofs, w)} (keep (refl-IsKept w)) (
        with_inode-⟶ call w dir inode _ _ (λ v.
          create_added-IsKept k store law v dir inode (add_name k store call v dir inode name)))
  run-⟶ call w (mkdir dir name mode inode) =
      if-both (Out (λ w'. w ⟶ w')) w.bi.is_ro {x = some (err erofs, w)} (keep (refl-IsKept w)) (
        with_inode-⟶ call w dir inode _ _ (λ v.
          mkdir_added-IsKept k store law v dir inode (add_name k store call v dir inode name)))
  run-⟶ call w (symlink dir name symname inode) =
      if-both (Out (λ w'. w ⟶ w')) w.bi.is_ro {x = some (err erofs, w)} (keep (refl-IsKept w)) (
        if-both (Out (λ w'. w ⟶ w')) _ {x = some (err enametoolong, w)} (keep (refl-IsKept w)) (
          with_inode-⟶ call w dir inode _ _ (λ v.
            symlink_added-IsKept k store law call v dir inode symname
              (add_name k store call v dir inode name))))
  run-⟶ call w (unlink dir name inode) =
      if-both (Out (λ w'. w ⟶ w')) w.bi.is_ro {x = some (err erofs, w)} (keep (refl-IsKept w)) (
        Out-keep w _
          (unlink_deleted-IsKept k store law call w dir inode (del_name k store call w dir name)))
  run-⟶ call w (rmdir fuel dir name inode) =
      if-both (Out (λ w'. w ⟶ w')) w.bi.is_ro {x = some (err erofs, w)} (keep (refl-IsKept w)) (
        Out-keep w _
          (rmdir_checked-IsKept call w dir name inode (check_dir_empty k store fuel call w inode)))
  run-⟶ call w (rename fuel old_dir old_name old_inode new_dir new_name new_inode) =
      if-both (Out (λ w'. w ⟶ w')) w.bi.is_ro {x = some (err erofs, w)} (keep (refl-IsKept w)) (
        Out-keep w _ (
          rename_checked-IsKept k store law call w old_dir old_name old_inode new_dir new_name
            new_inode _ _))
  run-⟶ call w (write_end inode pos len page) =
      keep (write_end-IsKept k store law call w inode pos len page)
  run-⟶ call w (setattr inode attr) = keep (setattr-IsKept k store law call w inode attr)
