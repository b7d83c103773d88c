-- ===== src/Pool/Slots.antt =====
-- The slots of a pool as a list: which are full from an index on, and how many hold a node.
use cogent.Prelude.{
  ℕ, zero, suc, ◌+◌, ◌<◌, ◌≡◌, refl, ap, Bool, true, false, List, [], ◌∷◌, some, arith, length,
  get_elem?, set,
}
use cogent.Pool.{held, nulls}

-- Every slot from index `i` on holds a node.
abbrev pub FullFrom : ℕ → List Bool → Type 0
FullFrom i [] = Unit
FullFrom zero (slot ∷ slots) = (slot ≡ true) × FullFrom zero slots
FullFrom (suc i) (slot ∷ slots) = FullFrom i slots

pub FullFrom-get :
    (i : ℕ) (slots : List Bool)
    → FullFrom i slots
    → i < length slots
    → get_elem? slots i ≡ some true
FullFrom-get i [] f h = elim h [ ]
FullFrom-get zero (slot ∷ slots) f h = ap' f.0
  where
    ap' : slot ≡ true → some slot ≡ some true
    ap' e = cc
FullFrom-get (suc i) (slot ∷ slots) f h = FullFrom-get i slots f (omega arith)

pub FullFrom-set :
    (i : ℕ) (slots : List Bool) → FullFrom i slots → FullFrom (suc i) (set slots i false)
FullFrom-set i [] f = tt
FullFrom-set zero (slot ∷ slots) f = f.1
FullFrom-set (suc i) (slot ∷ slots) f = FullFrom-set i slots f

pub held-set :
    (i : ℕ) (slots : List Bool)
    → get_elem? slots i ≡ some true
    → held (set slots i false) + 1 ≡ held slots
held-set i [] e = cc
held-set zero (true ∷ slots) e = omega arith
held-set zero (false ∷ slots) e = cc
held-set (suc i) (true ∷ slots) e = omega (arith, held-set i slots e)
held-set (suc i) (false ∷ slots) e = held-set i slots e

pub held-nulls : (slots : List Bool) → held (nulls slots) ≡ 0
held-nulls [] = refl
held-nulls (slot ∷ slots) = held-nulls slots

pub held-FullFrom : (slots : List Bool) → FullFrom 0 slots → held slots ≡ length slots
held-FullFrom [] f = refl
held-FullFrom (true ∷ slots) f = ap suc (held-FullFrom slots f.1)
held-FullFrom (false ∷ slots) f = cc

pub FullFrom-at : (i : ℕ) (slots : List Bool) → i ≡ 0 → FullFrom 0 slots → FullFrom i slots
FullFrom-at zero slots e f = f
FullFrom-at (suc i) slots e f = absurd (omega arith)
