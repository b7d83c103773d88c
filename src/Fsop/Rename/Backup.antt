-- ===== src/Fsop/Rename/Backup.antt =====
-- What the backup of a rename brings back.
use cogent.Prelude.{
  ℕ, ◌≡◌, ◌⊎◌, refl, sym, ap, ◌∙◌, false, Option, none, some, ◌==◌, Bool-cases, inl, inr, ==_iff,
  arith,
}
use mathlib.Core.Path.{subst}
use cogent.Fsop.{Kernel, Ostore, World, at}
use cogent.Fsop.Frame.{at_self, at-other}
use cogent.Fsop.Rename.{restore, restore_new, restore_all}
use cogent.Fsop.Rename.Parties.{IsParty, is_old_dir, is_old_inode, is_new_dir, is_new_inode}

module _ {σ : Type 0} (w v : World σ) (q : ℕ) where
  -- The inode behind `q` is restored in `u`, or it is as in `v`.
  abbrev pub Restored : World σ → Type 0
  Restored u = u.inodes q ≡ restore (w.inodes q) (v.inodes q)

  abbrev pub Any : World σ → Type 0
  Any u = (u.inodes q ≡ v.inodes q) ⊎ Restored u

  -- A restored inode stays so.
  restore_again : (u : World σ) (p : ℕ) → Restored u → Restored (at u p (restore (w.inodes p)))
  restore_again u p h = elim (Bool-cases (q == p)) [
    | inl e ↦
        at_self u p q (restore (w.inodes p)) e
        ∙ (ap (λ (x : ℕ). restore (w.inodes x) (u.inodes q)) (sym ((==_iff q p).0 e))
            ∙ ap (restore (w.inodes q)) h)
    | inr e ↦ at-other u p q (restore (w.inodes p)) e ∙ h
  ]

  restore_own : (u : World σ) → Any u → Restored (at u q (restore (w.inodes q)))
  restore_own u (inl h) =
      at_self u q q (restore (w.inodes q)) ((==_iff q q).1 refl) ∙ ap (restore (w.inodes q)) h
  restore_own u (inr h) = restore_again u q h

  restore-Any : (u : World σ) (p : ℕ) → Any u → Any (at u p (restore (w.inodes p)))
  restore-Any u p (inr h) = inr (restore_again u p h)
  restore-Any u p (inl h) = elim (Bool-cases (q == p)) [
    | inl e ↦ inr (
        at_self u p q (restore (w.inodes p)) e
        ∙ (ap (λ (x : ℕ). restore (w.inodes x) (u.inodes q)) (sym ((==_iff q p).0 e))
            ∙ ap (restore (w.inodes q)) h))
    | inr e ↦ inl (at-other u p q (restore (w.inodes p)) e ∙ h)
  ]

module _ (k : Kernel) {σ : Type 0} (store : Ostore σ) (w v : World σ) where
  new_again :
      (q : ℕ) (u : World σ) (x : Option ℕ)
      → Restored w v q u
      → Restored w v q (restore_new k store w u x)
  new_again q u none h = h
  new_again q u (some p) h = restore_again w v q u p h

  new_own :
      (q : ℕ) (u : World σ) (x : Option ℕ)
      → x ≡ some q
      → Any w v q u
      → Restored w v q (restore_new k store w u x)
  new_own q u x e h = rw e (restore_own w v q u h)

  new-Any :
      (q : ℕ) (u : World σ) (x : Option ℕ) → Any w v q u → Any w v q (restore_new k store w u x)
  new-Any q u none h = h
  new-Any q u (some p) h = restore-Any w v q u p h

  -- Every party is restored, whichever of them are the same.
  pub party-Restored :
      (old_dir old_inode new_dir : ℕ) (new_inode : Option ℕ) (q : ℕ)
      → IsParty old_dir old_inode new_dir new_inode q
      → Restored w v q (restore_all k store w old_dir old_inode new_dir new_inode v)
  unfolding restore_all
  party-Restored old_dir old_inode new_dir new_inode q is_old_dir = new_again q _ new_inode (
      restore_again w v q _ new_dir
        (restore_again w v q _ old_inode (restore_own w v q v (inl refl))))
  party-Restored old_dir old_inode new_dir new_inode q is_old_inode =
      new_again q _ new_inode (
        restore_again w v q _ new_dir
          (restore_own w v q _ (restore-Any w v q v old_dir (inl refl))))
  party-Restored old_dir old_inode new_dir new_inode q is_new_dir =
      new_again q _ new_inode (
        restore_own w v q _
          (restore-Any w v q _ old_inode (restore-Any w v q v old_dir (inl refl))))
  party-Restored old_dir old_inode new_dir new_inode q (is_new_inode e) = new_own q _ new_inode e (
      restore-Any w v q _ new_dir
        (restore-Any w v q _ old_inode (restore-Any w v q v old_dir (inl refl))))

  -- Any other inode may stay as it is.
  pub Any-Restored :
      (old_dir old_inode new_dir : ℕ) (new_inode : Option ℕ) (q : ℕ)
      → Any w v q (restore_all k store w old_dir old_inode new_dir new_inode v)
  unfolding restore_all
  Any-Restored old_dir old_inode new_dir new_inode q = new-Any q _ new_inode (
      restore-Any w v q _ new_dir
        (restore-Any w v q _ old_inode (restore-Any w v q v old_dir (inl refl))))

abbrev value_or : ℕ → Option ℕ → ℕ
value_or d none = d
value_or d (some n) = n

-- Every pointer is a party's or not.
option-is : (x : Option ℕ) (q : ℕ) → (x ≡ some q) ⊎ ¬ (x ≡ some q)
option-is none q = inr (λ e. cc e)
option-is (some p) q = elim (Bool-cases (q == p)) [
  | inl e ↦ inl (ap (λ (n : ℕ). some n) (sym ((==_iff q p).0 e)))
  | inr e ↦ inr (λ h. cc (e, (==_iff q p).1 (ap (value_or 0) (sym h))))
]

not-IsParty :
    (old_dir old_inode new_dir : ℕ) (new_inode : Option ℕ) (q : ℕ)
    → (q == old_dir) ≡ false
    → (q == old_inode) ≡ false
    → (q == new_dir) ≡ false
    → ¬ (new_inode ≡ some q)
    → ¬ IsParty old_dir old_inode new_dir new_inode q
not-IsParty old_dir old_inode new_dir new_inode q a b c n is_old_dir = ground arith
not-IsParty old_dir old_inode new_dir new_inode q a b c n is_old_inode = ground arith
not-IsParty old_dir old_inode new_dir new_inode q a b c n is_new_dir = ground arith
not-IsParty old_dir old_inode new_dir new_inode q a b c n (is_new_inode e) = n e

pub IsParty-cases :
    (old_dir old_inode new_dir : ℕ) (new_inode : Option ℕ) (q : ℕ)
    → IsParty old_dir old_inode new_dir new_inode q
      ⊎ ¬ IsParty old_dir old_inode new_dir new_inode q
IsParty-cases old_dir old_inode new_dir new_inode q =
    let P = λ (x : ℕ). IsParty old_dir old_inode new_dir new_inode x in
    elim (Bool-cases (q == old_dir)) [
      | inl e ↦ inl (subst P (sym ((==_iff q old_dir).0 e)) is_old_dir)
      | inr a ↦ elim (Bool-cases (q == old_inode)) [
        | inl e ↦ inl (subst P (sym ((==_iff q old_inode).0 e)) is_old_inode)
        | inr b ↦ elim (Bool-cases (q == new_dir)) [
          | inl e ↦ inl (subst P (sym ((==_iff q new_dir).0 e)) is_new_dir)
          | inr c ↦ elim (option-is new_inode q) [
            | inl e ↦ inl (is_new_inode e)
            | inr n ↦ inr (not-IsParty old_dir old_inode new_dir new_inode q a b c n)
          ]
        ]
      ]
    ]
