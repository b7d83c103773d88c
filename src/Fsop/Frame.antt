-- ===== src/Fsop/Frame.antt =====
-- What a write through a pointer leaves as it is.
use cogent.Prelude.{ℕ, ◌^◌, ◌<◌, ◌≡◌, refl, true, false, Bool-cases, inl, inr, arith, ◌==◌}
use cogent.Pack.{Inode}
use cogent.Fsop.{Ostore, Kernel, World, at, add64, sub64, write_objects}

module _ {σ : Type 0} where
  -- A part of the inodes that a change keeps is kept behind every pointer.
  pub at-keeps {ℓ} :
      {A : Type ℓ} (part : Inode → A) (change : Inode → Inode)
      → ((i : Inode) → part (change i) ≡ part i)
      → (w : World σ) (p q : ℕ) → part ((at w p change).inodes q) ≡ part (w.inodes q)
  unfolding at
  at-keeps part change kept w p q = elim (Bool-cases (q == p)) [
    | inl e ↦ rw e (kept (w.inodes q))
    | inr e ↦ rw e refl
  ]

  pub at-other :
      (w : World σ) (p q : ℕ) (change : Inode → Inode)
      → (q == p) ≡ false
      → (at w p change).inodes q ≡ w.inodes q
  unfolding at
  at-other w p q change e = rw e refl

  pub at_self :
      (w : World σ) (p q : ℕ) (change : Inode → Inode)
      → (q == p) ≡ true
      → (at w p change).inodes q ≡ change (w.inodes q)
  unfolding at
  at_self w p q change e = rw e refl

pub sub64-add64 : (a b : ℕ) → a < 2 ^ 64 → b < 2 ^ 64 → sub64 (add64 a b) b ≡ a
sub64-add64 a b h h' = omega arith

pub add64-sub64 : (a b : ℕ) → a < 2 ^ 64 → b < 2 ^ 64 → add64 (sub64 a b) b ≡ a
add64-sub64 a b h h' = omega arith

module _ (k : Kernel) {σ : Type 0} (store : Ostore σ) where
  -- A write of objects changes no inode in memory.
  pub write-inodes :
      (w : World σ) (objs : _) (flag : ℕ) → (write_objects k store w objs flag).1.inodes ≡ w.inodes
  unfolding write_objects
  write-inodes w objs flag = refl
