-- ===== src/Fsop/Op/Reach.antt =====
-- Any sequence of operations keeps the numbers of inodes apart.
use cogent.Prelude.{
  ℕ, ◌≤◌, ◌≡◌, ◌∙◌, sym, ap, arith, false, Option, some, ◌==◌, Bool-cases, inl, inr, ==_iff,
}
use mathlib.Core.Path.{subst}
use cogent.Types.{Result}
use cogent.Fsop.{Kernel, Ostore, Call, World}
use cogent.Fsop.Op.{Op, run}
use cogent.Fsop.Op.Numbers.{TakesNoNumber, IsKept, Out}
use cogent.Fsop.Op.Steps.{IsTaken, ◌⟶◌, keep, take, run-⟶}

-- No number is above the last one given out, and two inodes have the same number only if they have
-- none.
pub record IsNumbered {σ : Type 0} (w : World σ) : Type 0 where
  pub below : (p : ℕ) → (w.inodes p).i_ino ≤ w.bi.next_inum
  pub apart :
      (p q : ℕ)
      → (p == q) ≡ false
      → (w.inodes p).i_ino ≡ (w.inodes q).i_ino
      → (w.inodes p).i_ino ≡ 0

-- What a sequence of operations leads to, each with its own outcome and its own requests.
pub data Runs (k : Kernel) {σ : Type 0} (store : Ostore σ) : World σ → World σ → Type 0 where
  done : {w : World σ} → Runs k store w w
  next :
      {w v u : World σ} (call : Call) (op : Op) (r : Result (Unit {0}))
      → run k store call w op ≡ some (r, v)
      → Runs k store v u
      → Runs k store w u

==_false_sym : (p q : ℕ) → (p == q) ≡ false → (q == p) ≡ false
==_false_sym p q h = ground arith

module _ {σ : Type 0} where
  kept-IsNumbered : (w v : World σ) → IsKept w v → IsNumbered w → IsNumbered v
  kept-IsNumbered w v h n = record {
    below = λ p. omega (arith, h.same p, h.next, n.below p);
    apart = λ p q e s. h.same p ∙ n.apart p q e (sym (h.same p) ∙ (s ∙ h.same q));
  }

  taken-IsNumbered : (w v : World σ) (x : ℕ) → IsTaken x w v → IsNumbered w → IsNumbered v
  taken-IsNumbered w v x t n = record {
    below = λ p. elim (Bool-cases (p == x)) [
      | inl e ↦
          (let at_x : (v.inodes p).i_ino ≡ (v.inodes x).i_ino =
              ap (λ (y : ℕ). (v.inodes y).i_ino) ((==_iff p x).0 e) in
            omega (arith, at_x, t.new, t.next))
      | inr e ↦ omega (arith, t.same p e, t.next, n.below p)
    ];
    apart = λ p q e s. elim (Bool-cases (p == x)) [
      | inl h ↦
          (let at_x : (v.inodes p).i_ino ≡ (v.inodes x).i_ino =
              ap (λ (y : ℕ). (v.inodes y).i_ino) ((==_iff p x).0 h) in
            let other : (q == x) ≡ false = ground (arith, (==_iff p x).0 h) in
            absurd (omega (arith, at_x, s, t.new, t.same q other, n.below q)))
      | inr h ↦ elim (Bool-cases (q == x)) [
        | inl h' ↦
            (let at_x : (v.inodes q).i_ino ≡ (v.inodes x).i_ino =
                ap (λ (y : ℕ). (v.inodes y).i_ino) ((==_iff q x).0 h') in
              absurd (omega (arith, at_x, s, t.new, t.same p h, n.below p)))
        | inr h' ↦ t.same p h ∙ n.apart p q e (sym (t.same p h) ∙ (s ∙ t.same q h'))
      ]
    ];
  }

  step-IsNumbered : (w v : World σ) → w ⟶ v → IsNumbered w → IsNumbered v
  step-IsNumbered w v (keep h) n = kept-IsNumbered w v h n
  step-IsNumbered w v (take x t) n = taken-IsNumbered w v x t n

  Out-IsNumbered :
      (w : World σ) (x : Option (Result (Unit {0}) × World σ)) (r : Result (Unit {0})) (v : World σ)
      → x ≡ some (r, v)
      → Out (λ u. w ⟶ u) x
      → IsNumbered w
      → IsNumbered v
  Out-IsNumbered w x r v e h n = step-IsNumbered w v (subst (Out (λ u. w ⟶ u)) e h) n

-- Where no number is above the last one given out, and no two inodes have the same number, every
-- sequence of operations, whether they succeed or fail, leads to a state where this holds too, as
-- long as the object store takes no numbers itself.
pub Runs-IsNumbered :
    (k : Kernel) {σ : Type 0} (store : Ostore σ) (w v : World σ)
    → TakesNoNumber store
    → Runs k store w v
    → IsNumbered w
    → IsNumbered v
Runs-IsNumbered k store w v law done n = n
Runs-IsNumbered k store w v law (next {v = u} call op r e rest) n =
    Runs-IsNumbered k store u v law rest
      (Out-IsNumbered w (run k store call w op) r u e (run-⟶ k store law call w op) n)
