-- ===== src/Store/Scan/Empty.antt =====
-- The test for an empty flash.
use cogent.Prelude.{ℕ, zero, suc, ◌+◌, ◌≤◌, ◌<◌, ◌≡◌, refl, Bool, true, false, arith}
use native.Mathlib.Decide.{ℕ_discrete}
use cogent.Types.{Result, ok, err}
use cogent.Store.Scan.{Flash, empty_from, check_flash_empty}

-- The blocks from `lnum` up to `k` are not mapped.
abbrev pub NoneMapped : Flash → ℕ → ℕ → Type 0
NoneMapped flash lnum k = (j : ℕ) → lnum ≤ j → j < k → flash.is_mapped j ≡ ok false

-- The answer: no block is mapped; or the first one that is not unmapped is mapped, or could not be
-- asked about.
abbrev pub Answer : Flash → ℕ → ℕ → Result Bool → Type 0
Answer flash lnum n (ok true) = NoneMapped flash lnum (lnum + n)
Answer flash lnum n (ok false) =
    (k : ℕ) × (lnum ≤ k) × (k < lnum + n) × (flash.is_mapped k ≡ ok true) × NoneMapped flash lnum k
Answer flash lnum n (err e) =
    (k : ℕ) × (lnum ≤ k) × (k < lnum + n) × (flash.is_mapped k ≡ err e) × NoneMapped flash lnum k

NoneMapped-step :
    (flash : Flash) (lnum k : ℕ)
    → flash.is_mapped lnum ≡ ok false
    → NoneMapped flash (lnum + 1) k
    → NoneMapped flash lnum k
NoneMapped-step flash lnum k e f j lo hi = elim (ℕ_discrete j lnum) [
  | yes p ↦ rw p e
  | no p ↦ f j (omega arith) hi
]

Answer-step :
    (flash : Flash) (lnum n : ℕ) (r : Result Bool)
    → flash.is_mapped lnum ≡ ok false
    → Answer flash (lnum + 1) n r
    → Answer flash lnum (suc n) r
Answer-step flash lnum n (ok true) e a =
    λ j lo hi. NoneMapped-step flash lnum (lnum + 1 + n) e a j lo (omega arith)
Answer-step flash lnum n (ok false) e (k, lo, hi, m, f) =
    (k, omega arith, omega arith, m, NoneMapped-step flash lnum k e f)
Answer-step flash lnum n (err x) e (k, lo, hi, m, f) =
    (k, omega arith, omega arith, m, NoneMapped-step flash lnum k e f)

from-Answer : (flash : Flash) (lnum n : ℕ) → Answer flash lnum n (empty_from flash lnum n)
unfolding empty_from
from-Answer flash lnum zero = λ j lo hi. absurd (omega arith)
from-Answer flash lnum (suc n) = go (flash.is_mapped lnum) refl (from-Answer flash (lnum + 1) n)
  where
    go :
        (r : Result Bool)
        → flash.is_mapped lnum ≡ r
        → Answer flash (lnum + 1) n (empty_from flash (lnum + 1) n)
        → Answer flash lnum (suc n) (empty_from flash lnum (suc n))
    go (err e) q a =
        rw (q, empty_from) (lnum, omega arith, omega arith, q, λ j lo hi. absurd (omega arith))
    go (ok true) q a =
        rw (q, empty_from) (lnum, omega arith, omega arith, q, λ j lo hi. absurd (omega arith))
    go (ok false) q a =
        rw (q, empty_from) (Answer-step flash lnum n (empty_from flash (lnum + 1) n) q a)

-- The flash is taken as empty exactly if none of its blocks is mapped. Else the first block that is
-- not known to be unmapped gives the answer: that the flash is not empty, or the error.
pub check_flash_empty-Answer :
    (flash : Flash) (leb_cnt : ℕ) → Answer flash 0 leb_cnt (check_flash_empty flash leb_cnt)
unfolding check_flash_empty
check_flash_empty-Answer flash leb_cnt = from-Answer flash 0 leb_cnt
