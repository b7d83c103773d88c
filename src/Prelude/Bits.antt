-- ===== src/Prelude/Bits.antt =====
-- `|` of disjoint fields and `&` with a mask of low ones, as arithmetic at every width.
use Prim.Native.Nat.{
  ℕ, zero, suc, ◌+◌, ◌-◌, ◌*◌, ◌/◌, ◌%◌, ◌^◌, ◌≤◌, ◌<◌, min, max, bit_and, bit_or, digits,
  bit_and-bitwise, bit_or-bitwise,
}
use mathlib.Core.Path.{◌≡◌, refl, ap}
use native.Mathlib.Nat.{pow-suc, one-le-pow}
use native.Mathlib.Omega.{arith}

-- Both operations recur on digits with a bound; the bound may be any that is large enough.
module _ (low : ℕ → ℕ) (op : ℕ → ℕ → ℕ) where
  digits_bound : (n m a b : ℕ) → a ≤ n → a ≤ m → digits low op n a b ≡ digits low op m a b
  digits_bound zero zero a b p q = refl
  digits_bound zero (suc m) zero b p q = refl
  digits_bound zero (suc m) (suc a) b p q = absurd (omega arith)
  digits_bound (suc n) zero zero b p q = refl
  digits_bound (suc n) zero (suc a) b p q = absurd (omega arith)
  digits_bound (suc n) (suc m) zero b p q = refl
  digits_bound (suc n) (suc m) (suc a) b p q =
      omega (arith, digits_bound n m (suc a / 2) (b / 2) (omega arith) (omega arith))

bit_and_halve : (a b : ℕ) → bit_and a b ≡ bit_and (a / 2) (b / 2) * 2 + min (a % 2) (b % 2)
bit_and_halve zero b = omega (arith, bit_and-bitwise 0 b, bit_and-bitwise 0 (b / 2))
bit_and_halve (suc a) b = omega (
  arith,
  bit_and-bitwise (suc a) b,
  bit_and-bitwise (suc a / 2) (b / 2),
  digits_bound (λ b. zero) min a (suc a / 2) (suc a / 2) (b / 2) (omega arith) (omega arith),
)

bit_or_halve : (a b : ℕ) → bit_or a b ≡ bit_or (a / 2) (b / 2) * 2 + max (a % 2) (b % 2)
bit_or_halve zero b = omega (arith, bit_or-bitwise 0 b, bit_or-bitwise 0 (b / 2))
bit_or_halve (suc a) b = omega (
  arith,
  bit_or-bitwise (suc a) b,
  bit_or-bitwise (suc a / 2) (b / 2),
  digits_bound (λ b. b) max a (suc a / 2) (suc a / 2) (b / 2) (omega arith) (omega arith),
)

bit_and_none : (n a : ℕ) → a ≤ n → bit_and a 0 ≡ 0
bit_and_none n zero h = refl
bit_and_none zero (suc a) h = absurd (omega arith)
bit_and_none (suc n) (suc a) h =
    omega (arith, bit_and_halve (suc a) 0, bit_and_none n (suc a / 2) (omega arith))

bit_or_none : (n a : ℕ) → a ≤ n → bit_or a 0 ≡ a
bit_or_none n zero h = refl
bit_or_none zero (suc a) h = absurd (omega arith)
bit_or_none (suc n) (suc a) h =
    omega (arith, bit_or_halve (suc a) 0, bit_or_none n (suc a / 2) (omega arith))

times-two-pow : (q k : ℕ) → q * 2 ^ suc k ≡ 2 * (q * 2 ^ k)
times-two-pow q k = omega (arith, ap (λ (t : ℕ). q * t) (pow-suc 2 k))

-- A field above bit `k` joined by `|` to one below it is their sum.
pub bit_or_disjoint : (k q r : ℕ) → r < 2 ^ k → bit_or (q * 2 ^ k) r ≡ q * 2 ^ k + r
bit_or_disjoint zero q r fits = ground (arith, bit_or_none q q)
bit_or_disjoint (suc k) q r fits = ground (
  arith,
  bit_or_halve (q * 2 ^ suc k) r,
  times-two-pow q k,
  bit_or_disjoint k q (r / 2) (omega arith),
)

-- `& (2^k - 1)` drops a field above bit `k`.
mask_disjoint : (k q r : ℕ) → r < 2 ^ k → bit_and (q * 2 ^ k + r) (2 ^ k - 1) ≡ r
mask_disjoint zero q r fits = omega (arith, bit_and_none (q * 1 + r) (q * 1 + r))
mask_disjoint (suc k) q r fits = ground (
  arith,
  times-two-pow q k,
  pow-suc 2 k,
  one-le-pow k 2,
  bit_and_halve (q * 2 ^ suc k + r) (2 ^ suc k - 1),
  mask_disjoint k q (r / 2) (omega arith),
)

-- `& (2^k - 1)` is the remainder by `2^k`.
pub bit_and_low : (k a : ℕ) → bit_and a (2 ^ k - 1) ≡ a % 2 ^ k
bit_and_low k a = ground (arith, one-le-pow k 2, mask_disjoint k (a / 2 ^ k) (a % 2 ^ k))

-- `&` with one bit.
pub bit_and_two : (a : ℕ) → bit_and a 2 ≡ a / 2 % 2 * 2
bit_and_two a = omega (arith, bit_and_halve a 2, bit_and_low 1 (a / 2))

pub bit_and_four : (a : ℕ) → bit_and a 4 ≡ a / 4 % 2 * 4
bit_and_four a = omega (arith, bit_and_halve a 4, bit_and_two (a / 2))
