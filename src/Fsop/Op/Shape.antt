-- ===== src/Fsop/Op/Shape.antt =====
-- States in which only a directory and another inode changed.
use cogent.Prelude.{
  ℕ, ◌^◌, ◌<◌, ◌≡◌, refl, sym, ap, ◌∙◌, false, Option, none, some, ◌==◌, Bool-cases, inl, inr,
  ==_iff,
}
use cogent.Types.{Result, ok, err}
use cogent.Pack.{Inode}
use cogent.Fsop.{World, at, or_undo}
use cogent.Fsop.Frame.{at_self, at-other, sub64-add64}
use cogent.Fsop.Name.{grow, shrink_back}

module _ {σ : Type 0} (dir inode : ℕ) where
  -- The directory is `d`, and the inodes other than the two are as in `w`.
  pub record IsShaped (w : World σ) (d : Inode) (v : World σ) : Type 0 where
    pub others : (q : ℕ) → (q == inode) ≡ false → (q == dir) ≡ false → v.inodes q ≡ w.inodes q
    pub here : v.inodes dir ≡ d

  -- An operation that fails leaves every inode but the one that it is about as it was.
  abbrev pub BackUnlessOk : World σ → Result (Unit {0}) × World σ → Type 0
  BackUnlessOk w (ok u, v) = Unit
  BackUnlessOk w (err e, v) = (q : ℕ) → (q == inode) ≡ false → v.inodes q ≡ w.inodes q

  abbrev pub MaybeBack : World σ → Option (Result (Unit {0}) × World σ) → Type 0
  MaybeBack w none = Unit
  MaybeBack w (some out) = BackUnlessOk w out

  pub refl-IsShaped : (w : World σ) → IsShaped w (w.inodes dir) w
  refl-IsShaped w = record { others = λ q a b. refl; here = refl }

  pub IsShaped-dir :
      {w v : World σ} {d : Inode} (f : Inode → Inode)
      → IsShaped w d v
      → IsShaped w (f d) (at v dir f)
  IsShaped-dir {v = v} f h = record {
    others = λ q a b. at-other v dir q f b ∙ h.others q a b;
    here = at_self v dir dir f ((==_iff dir dir).1 refl) ∙ ap f h.here;
  }

  pub IsShaped-inode :
      {w v : World σ} {d : Inode} (f : Inode → Inode)
      → (dir == inode) ≡ false
      → IsShaped w d v
      → IsShaped w d (at v inode f)
  IsShaped-inode {v = v} f apart h = record {
    others = λ q a b. at-other v inode q f a ∙ h.others q a b;
    here = at-other v inode dir f apart ∙ h.here;
  }

  pub IsShaped-back :
      {w v : World σ} {d : Inode}
      → IsShaped w d v
      → d ≡ w.inodes dir
      → (q : ℕ) → (q == inode) ≡ false
      → v.inodes q ≡ w.inodes q
  IsShaped-back {w = w} {v = v} h e q a = elim (Bool-cases (q == dir)) [
    | inl b ↦
        ap v.inodes ((==_iff q dir).0 b) ∙ (h.here ∙ (e ∙ ap w.inodes (sym ((==_iff q dir).0 b))))
    | inr b ↦ h.others q a b
  ]

  -- What is undone after a write that failed.
  pub undo-Back :
      (w g : World σ) (d : Inode) (undo : World σ → World σ) (out : Result (Unit {0}) × World σ)
      → out.1.inodes ≡ g.inodes
      → IsShaped w d g
      → ((v : World σ)
          → IsShaped w d v
          → (q : ℕ) → (q == inode) ≡ false
          → (undo v).inodes q ≡ w.inodes q)
      → BackUnlessOk w (or_undo undo out)
  unfolding or_undo
  undo-Back w g d undo (ok u, v) e h f = tt
  undo-Back w g d undo (err x, v) e h f = f v (record {
    others = λ q a b. ap (λ (i : ℕ → Inode). i q) e ∙ h.others q a b;
    here = ap (λ (i : ℕ → Inode). i dir) e ∙ h.here;
  })

-- A directory that grew and shrank back is as it was.
pub grow-back :
    (n : ℕ) (inode old d : Inode)
    → n < 2 ^ 64
    → d.i_size < 2 ^ 64
    → old ≡ d
    → shrink_back n old (grow n inode d) ≡ d
grow-back n inode old d small fits e =
    ap (λ (o : Inode). shrink_back n o (grow n inode d)) e
    ∙ ap (λ (s : ℕ). record d { i_size = s }) (sub64-add64 d.i_size n fits small)
