-- ===== src/Dentarr/Bytes.antt =====
-- Directory entries as bytes: an entry that is written is read back.
use cogent.Prelude.{
  ℕ, zero, suc, ◌+◌, ◌^◌, ◌≤◌, ◌<◌, ◌≡◌, refl, sym, ap, arith, false, List, [], ◌∷◌, ◌++◌, some,
  length, length-append, drop, ltb, append_assoc, drop-append_left,
}
use cogent.Dentarr.{Dentry}
use cogent.Dentarr.Delete.{
  le_bytes, le_value, dentry_bytes, dentries_bytes, size_at, c_string, dentry_at, dentries_at,
}

-- No byte of a name is NUL.
abbrev pub NoNul : List ℕ → Type 0
NoNul [] = Unit
NoNul (c ∷ name) = (zero < c) × NoNul name

-- The fields have the widths of `struct obj_dentry`, and the length is that of the name.
pub record IsPacked (de : Dentry) : Type 0 where
  pub ino : de.ino < 2 ^ 32
  pub nlen : de.nlen ≡ length de.name
  pub short : de.nlen < 2 ^ 16
  pub name : NoNul de.name

abbrev pub AllPacked : List Dentry → Type 0
AllPacked [] = Unit
AllPacked (de ∷ des) = IsPacked de × AllPacked des

c_string-name : (name rest : List ℕ) → NoNul name → c_string (name ++ (0 ∷ rest)) ≡ name
c_string-name [] rest h = refl
c_string-name (zero ∷ name) rest (h, t) = absurd (omega arith)
c_string-name (suc c ∷ name) rest (h, t) =
    ap (λ (r : List ℕ). suc c ∷ r) (c_string-name name rest t)

pub length-dentry_bytes : (de : Dentry) → length (dentry_bytes de) ≡ 8 + length de.name
length-dentry_bytes de = omega (arith, length-append de.name (0 ∷ []))

pub size_at-dentry :
    (de : Dentry) (rest : List ℕ)
    → IsPacked de
    → size_at (dentry_bytes de ++ rest) ≡ 8 + length de.name
size_at-dentry de rest h = omega (arith, h.nlen, h.short)

dentry_at-bytes :
    (de : Dentry) (rest : List ℕ) → IsPacked de → dentry_at (dentry_bytes de ++ rest) ≡ de
dentry_at-bytes de rest h =
    let ino : le_value (le_bytes 4 de.ino) ≡ de.ino = omega (arith, h.ino) in
    let nlen : le_value (le_bytes 2 de.nlen) ≡ de.nlen = omega (arith, h.short) in
    let name : c_string ((de.name ++ (0 ∷ [])) ++ rest) ≡ de.name =
      rw (append_assoc de.name (0 ∷ []) rest) (c_string-name de.name rest h.name) in
    rw (ino, nlen, name) refl

dentries_at_step :
    (n size : ℕ) (all rest : List ℕ) (de : Dentry) (des : List Dentry)
    → size_at all ≡ size
    → zero < size
    → size ≤ length all
    → dentry_at all ≡ de
    → drop size all ≡ rest
    → dentries_at n rest ≡ some des
    → dentries_at (suc n) all ≡ some (de ∷ des)
dentries_at_step n size [] rest de des s z l d r e = absurd (omega arith)
dentries_at_step n size (b ∷ bytes) rest de des s z l d r e =
    let fits : ltb (length (b ∷ bytes)) size ≡ false = ground arith in rw (s, fits, d, r, e) refl

-- Entries that were written are read back.
pub dentries_at-bytes :
    (n : ℕ) (des : List Dentry)
    → length des ≤ n
    → AllPacked des
    → dentries_at n (dentries_bytes des) ≡ some des
dentries_at-bytes zero [] h p = refl
dentries_at-bytes (suc n) [] h p = refl
dentries_at-bytes zero (de ∷ des) h p = absurd (omega arith)
dentries_at-bytes (suc n) (de ∷ des) h (p, ps) =
    dentries_at_step n (8 + length de.name) _ (dentries_bytes des) de des
      (size_at-dentry de (dentries_bytes des) p) (omega arith)
      (omega (arith, length-append (dentry_bytes de) (dentries_bytes des), length-dentry_bytes de))
      (dentry_at-bytes de (dentries_bytes des) p)
      (drop-append_left (8 + length de.name) (dentry_bytes de) (dentries_bytes des)
        (sym (length-dentry_bytes de)))
      (dentries_at-bytes n des (omega arith) ps)
