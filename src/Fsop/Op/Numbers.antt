-- ===== src/Fsop/Op/Numbers.antt =====
-- How an operation changes the numbers of inodes: it keeps them all, or gives one a new number.
use cogent.Prelude.{ℕ, ◌≡◌, refl, ◌∙◌, List, Option, none, some, ◌==◌, Bool-cases, inl, inr}
use cogent.Types.{Result, ok, err}
use cogent.Pack.{Inode}
use cogent.Fsop.{Kernel, Bi, Ostore, Call, World, at, or_undo, write_objects, trans_commit_inodes}
use cogent.Fsop.Frame.{at-keeps}
use cogent.Fsop.Name.{link_added, create_added, commit_entry, mkdir_added, symlink_added}
use cogent.Fsop.Remove.{unlinked, unlink_deleted, rmdir_deleted}

-- Writing objects takes no inode numbers.
pub record TakesNoNumber {σ : Type 0} (store : Ostore σ) : Type 0 where
  pub kept :
      (bi : Bi σ) (objs : _) (flag : ℕ)
      → (store.write_obj_list bi objs flag).1.next_inum ≡ bi.next_inum

module _ {σ : Type 0} where
  -- The same numbers, and the same next one.
  pub record IsKept (w w' : World σ) : Type 0 where
    pub next : w'.bi.next_inum ≡ w.bi.next_inum
    pub same : (q : ℕ) → (w'.inodes q).i_ino ≡ (w.inodes q).i_ino

  abbrev pub Out : (World σ → Type 0) → Option (Result (Unit {0}) × World σ) → Type 0
  Out P none = Unit
  Out P (some out) = P out.1

  pub refl-IsKept : (w : World σ) → IsKept w w
  refl-IsKept w = record { next = refl; same = λ q. refl }

  pub at-IsKept :
      {w v : World σ} (p : ℕ) (change : Inode → Inode)
      → ((i : Inode) → (change i).i_ino ≡ i.i_ino)
      → IsKept w v
      → IsKept w (at v p change)
  unfolding at
  at-IsKept {v = v} p change kept h = record {
    next = h.next;
    same = λ q. at-keeps (λ i. i.i_ino) change kept v p q ∙ h.same q;
  }

  pub undo-IsKept :
      {w : World σ} (undo : World σ → World σ) (out : Result (Unit {0}) × World σ)
      → ((v : World σ) → IsKept w v → IsKept w (undo v))
      → IsKept w out.1
      → IsKept w (or_undo undo out).1
  unfolding or_undo
  undo-IsKept undo (ok u, v) f h = h
  undo-IsKept undo (err e, v) f h = f v h

unlinked-ino : (k : Kernel) (call : Call) (i : Inode) → (unlinked k call i).i_ino ≡ i.i_ino
unlinked-ino k call i = elim (Bool-cases (k.drop_nlink i.i_nlink == 0)) [
  | inl e ↦ rw e refl
  | inr e ↦ rw e refl
]

module _ (k : Kernel) {σ : Type 0} (store : Ostore σ) (law : TakesNoNumber store) where
  pub write-IsKept :
      {w : World σ} (v : World σ) (objs : _) (flag : ℕ)
      → IsKept w v
      → IsKept w (write_objects k store v objs flag).1
  unfolding write_objects
  write-IsKept v objs flag h = record { next = law.kept v.bi objs flag ∙ h.next; same = h.same }

  commit-IsKept :
      {w : World σ} (v : World σ) (dir inode : ℕ) (objs : _) (flag : ℕ)
      → IsKept w v
      → IsKept w (trans_commit_inodes k store v dir inode objs flag).1
  unfolding trans_commit_inodes
  commit-IsKept v dir inode objs flag h = write-IsKept v _ flag h

  pub link_added-IsKept :
      (call : Call) (w : World σ) (inode dir : ℕ) (x : _)
      → Out (IsKept w) (link_added k store call w inode dir x)
  unfolding link_added
  link_added-IsKept call w inode dir none = tt
  link_added-IsKept call w inode dir (some (err e)) = refl-IsKept w
  link_added-IsKept call w inode dir (some (ok (n, d))) =
      undo-IsKept _ _ (λ v h. at-IsKept inode _ (λ i. refl) (at-IsKept dir _ (λ i. refl) h))
        (commit-IsKept _ dir inode _ _
          (at-IsKept dir _ (λ i. refl) (at-IsKept inode _ (λ i. refl) (refl-IsKept w))))

  pub create_added-IsKept :
      (w : World σ) (dir inode : ℕ) (x : _) → Out (IsKept w) (create_added k store w dir inode x)
  unfolding create_added commit_entry
  create_added-IsKept w dir inode none = tt
  create_added-IsKept w dir inode (some (err e)) = refl-IsKept w
  create_added-IsKept w dir inode (some (ok (n, d))) =
      undo-IsKept _ _ (λ v h. at-IsKept dir _ (λ i. refl) h)
        (commit-IsKept _ dir inode _ _ (at-IsKept dir _ (λ i. refl) (refl-IsKept w)))

  pub mkdir_added-IsKept :
      (w : World σ) (dir inode : ℕ) (x : _) → Out (IsKept w) (mkdir_added k store w dir inode x)
  unfolding mkdir_added
  mkdir_added-IsKept w dir inode none = tt
  mkdir_added-IsKept w dir inode (some (err e)) = refl-IsKept w
  mkdir_added-IsKept w dir inode (some (ok (n, d))) =
      undo-IsKept _ _ (λ v h. at-IsKept dir _ (λ i. refl) (at-IsKept dir _ (λ i. refl) h))
        (commit-IsKept _ dir inode _ _ (
          at-IsKept dir _ (λ i. refl)
            (at-IsKept dir _ (λ i. refl) (at-IsKept inode _ (λ i. refl) (refl-IsKept w)))))

  pub symlink_added-IsKept :
      (call : Call) (w : World σ) (dir inode : ℕ) (symname : List ℕ) (x : _)
      → Out (IsKept w) (symlink_added k store call w dir inode symname x)
  unfolding symlink_added commit_entry
  symlink_added-IsKept call w dir inode symname none = tt
  symlink_added-IsKept call w dir inode symname (some (err e)) = refl-IsKept w
  symlink_added-IsKept call w dir inode symname (some (ok (n, d))) =
      elim (Bool-cases (call.mem 2)) [
        | inl e ↦ rw e (
            undo-IsKept _ _ (λ v h. at-IsKept dir _ (λ i. refl) h)
              (commit-IsKept _ dir inode _ _
                (at-IsKept dir _ (λ i. refl) (at-IsKept inode _ (λ i. refl) (refl-IsKept w)))))
        | inr e ↦ rw e (refl-IsKept w)
      ]

  pub unlink_deleted-IsKept :
      (call : Call) (w : World σ) (dir inode : ℕ) (x : _)
      → Out (IsKept w) (unlink_deleted k store call w dir inode x)
  unfolding unlink_deleted
  unlink_deleted-IsKept call w dir inode none = tt
  unlink_deleted-IsKept call w dir inode (some (err e)) = refl-IsKept w
  unlink_deleted-IsKept call w dir inode (some (ok (n, d))) =
      undo-IsKept _ _ (λ v h. at-IsKept inode _ (λ i. refl) (at-IsKept dir _ (λ i. refl) h))
        (commit-IsKept _ dir inode _ _ (
          at-IsKept dir _ (λ i. refl)
            (at-IsKept inode _ (λ i. unlinked-ino k call i) (refl-IsKept w))))

  pub rmdir_deleted-IsKept :
      (call : Call) (w : World σ) (dir inode : ℕ) (x : _)
      → Out (IsKept w) (rmdir_deleted k store call w dir inode x)
  unfolding rmdir_deleted
  rmdir_deleted-IsKept call w dir inode none = tt
  rmdir_deleted-IsKept call w dir inode (some (err e)) = refl-IsKept w
  rmdir_deleted-IsKept call w dir inode (some (ok (n, d))) =
      undo-IsKept _ _ (λ v h. at-IsKept inode _ (λ i. refl) (at-IsKept dir _ (λ i. refl) h))
        (commit-IsKept _ dir inode _ _ (
          at-IsKept dir _ (λ i. refl)
            (at-IsKept dir _ (λ i. refl) (at-IsKept inode _ (λ i. refl) (refl-IsKept w)))))
