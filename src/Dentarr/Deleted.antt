-- ===== src/Dentarr/Deleted.antt =====
-- Removing an entry, where those behind it have names of its length.
use cogent.Prelude.{
  ℕ, ◌+◌, ◌-◌, ◌≤◌, ◌≡◌, refl, sym, ap, ◌∙◌, arith, true, false, List, [], ◌∷◌, ◌++◌, some, length,
  length-append, append_assoc, take-append_left, drop-append_left, take, drop, ltb, ◌==◌,
  if◌then◌else◌, if-cases, Bool-cases, inl, inr,
}
use mathlib.Core.Path.{subst}
use cogent.Types.{ok}
use cogent.Dentarr.{
  Dentry, Dentarr, dentarr_sz, obj_dentarr_size, obj_dentry_size, obj_dentry_size_from_nm,
  same_name,
}
use cogent.Dentarr.Names.{IsDentarr, total_size, same_name_self}
use cogent.Dentarr.Delete.{
  dentry_bytes, dentries_bytes, size_at, dentries_at, shift_dentries, delete_from, DentarrBuf,
  entries, removed, repack, dentarr_del_dentry,
}
use cogent.Dentarr.Bytes.{
  IsPacked, AllPacked, length-dentry_bytes, size_at-dentry, dentries_at-bytes,
}

-- Entries whose names have this length, and entries without the name.
abbrev pub AllOfLength : ℕ → List Dentry → Type 0
AllOfLength n [] = Unit
AllOfLength n (de ∷ des) = (length de.name ≡ n) × AllOfLength n des

abbrev pub NoneNamed : List ℕ → List Dentry → Type 0
NoneNamed name [] = Unit
NoneNamed name (de ∷ des) = (same_name de.name name ≡ false) × NoneNamed name des

ltb-ge : (a b : ℕ) → b ≤ a → ltb a b ≡ false
ltb-ge a b h = ground arith

-- One round of the loop.
shift_step :
    (bytes rest : List ℕ) (de : Dentry) (des : List Dentry) (delen : ℕ) (first : List ℕ)
    → size_at bytes ≡ delen
    → delen ≤ length (dentries_bytes (de ∷ des))
    → take delen (dentries_bytes (de ∷ des)) ≡ first
    → shift_dentries (drop delen bytes) des ≡ some rest
    → shift_dentries bytes (de ∷ des) ≡ some (first ++ rest)
unfolding shift_dentries
shift_step bytes rest de des delen first s l t r =
    let fits : ltb (length (dentries_bytes (de ∷ des))) delen ≡ false =
      ltb-ge (length (dentries_bytes (de ∷ des))) delen l in
    rw (s, fits, t, r) refl

bytes-size : (n : ℕ) (de : Dentry) → length de.name ≡ n → 8 + n ≡ length (dentry_bytes de)
bytes-size n de e = omega (arith, length-dentry_bytes de, e)

-- The loop moves the entries down, and leaves the bytes of the last one behind them.
shift-equal :
    (n : ℕ) (de : Dentry) (des : List Dentry)
    → IsPacked de
    → length de.name ≡ n
    → AllPacked des
    → AllOfLength n des
    → (stale : List ℕ) × (shift_dentries (dentries_bytes (de ∷ des)) des
        ≡ some (dentries_bytes des ++ stale))
unfolding shift_dentries
shift-equal n de [] p len ps lens = (dentries_bytes (de ∷ []), refl)
shift-equal n de (c ∷ des) p len (q, ps) (len', lens) =
    let (stale, ih) = shift-equal n c des q len' ps lens in
    let rest = dentries_bytes (c ∷ des) in
    let moved : drop (8 + n) (dentries_bytes (de ∷ (c ∷ des))) ≡ rest =
      drop-append_left (8 + n) (dentry_bytes de) rest (bytes-size n de len) in
    (
      stale,
      shift_step (dentries_bytes (de ∷ (c ∷ des))) (dentries_bytes des ++ stale) c des (8 + n)
            (dentry_bytes c) (size_at-dentry de rest p ∙ ap (λ (x : ℕ). 8 + x) len)
            (omega
              (arith, length-append (dentry_bytes c) (dentries_bytes des), bytes-size n c len'))
            (take-append_left (8 + n) (dentry_bytes c) (dentries_bytes des) (bytes-size n c len'))
            (rw moved ih)
          ∙ ap (λ (b : List ℕ). some b)
              (sym (append_assoc (dentry_bytes c) (dentries_bytes des) stale)),
    )

-- All entries but the first of the name, and stale bytes.
delete_from-kept :
    (name : List ℕ) (before after : List Dentry) (de : Dentry)
    → NoneNamed name before
    → de.name ≡ name
    → IsPacked de
    → AllPacked after
    → AllOfLength (length name) after
    → (stale : List ℕ) × (delete_from (before ++ (de ∷ after)) name
        ≡ some (dentries_bytes (before ++ after) ++ stale))
unfolding delete_from
delete_from-kept name [] after de none_before named p ps lens =
    let (stale, e) =
      shift-equal (length name) de after p (ap (λ (x : List ℕ). length x) named) ps lens in
    let same : same_name de.name name ≡ true = rw named (same_name_self name) in
    (
      stale,
      if-cases (λ r. r ≡ some (dentries_bytes after ++ stale)) (same_name de.name name) (λ h. e)
          (λ h. cc (same, h)),
    )
delete_from-kept name (d ∷ before) after de (n, none_before) named p ps lens =
    let (stale, ih) = delete_from-kept name before after de none_before named p ps lens in
    (
      stale,
      rw (n, ih)
          (ap (λ (b : List ℕ). some b)
            (sym (append_assoc (dentry_bytes d) (dentries_bytes (before ++ after)) stale))),
    )

length-dentries_bytes :
    (des : List Dentry) → AllPacked des → length (dentries_bytes des) ≡ total_size des
unfolding obj_dentry_size
length-dentries_bytes [] p = refl
length-dentries_bytes (de ∷ des) (p, ps) = omega (
  arith,
  length-append (dentry_bytes de) (dentries_bytes des),
  length-dentry_bytes de,
  p.nlen,
  length-dentries_bytes des ps,
)

-- The array without the entry.
abbrev pub without : Dentarr → List ℕ → List Dentry → Dentarr
without dentarr name des = record {
  id = dentarr.id;
  nb_dentry = dentarr.nb_dentry - 1;
  size = obj_dentarr_size dentarr - obj_dentry_size_from_nm name;
  dentries = des;
}

-- What its buffer holds: the array, or the deletion object once it is empty.
abbrev pub buf_without : Dentarr → List ℕ → List Dentry → DentarrBuf
buf_without dentarr name des =
    if dentarr.nb_dentry - 1 == 0 then removed dentarr.id else entries (without dentarr name des)

repack-kept :
    (dentarr : Dentarr) (name : List ℕ) (kept : List Dentry) (stale : List ℕ)
    → AllPacked kept
    → length kept ≡ dentarr.nb_dentry - 1
    → obj_dentarr_size dentarr - obj_dentry_size_from_nm name - dentarr_sz
      ≡ length (dentries_bytes kept)
    → repack dentarr (obj_dentry_size_from_nm name) (some (dentries_bytes kept ++ stale))
      ≡ some (ok (obj_dentry_size_from_nm name, buf_without dentarr name kept))
unfolding repack
repack-kept dentarr name kept stale p count size =
    let all = dentries_at-bytes (dentarr.nb_dentry - 1) kept (omega arith) p in
    let bytes = obj_dentarr_size dentarr - obj_dentry_size_from_nm name - dentarr_sz in
    let read : dentries_at (dentarr.nb_dentry - 1) (take bytes (dentries_bytes kept ++ stale))
        ≡ some kept =
      rw (take-append_left bytes (dentries_bytes kept) stale size) all in
    elim (Bool-cases (dentarr.nb_dentry - 1 == 0)) [ inl e ↦ rw e refl | inr e ↦ rw (e, read) refl ]

total_size-middle :
    (before after : List Dentry) (de : Dentry)
    → total_size (before ++ (de ∷ after)) ≡ total_size (before ++ after) + obj_dentry_size de
total_size-middle [] after de = omega arith
total_size-middle (d ∷ before) after de = omega (arith, total_size-middle before after de)

AllPacked-kept :
    (before after : List Dentry) (de : Dentry)
    → AllPacked (before ++ (de ∷ after))
    → AllPacked (before ++ after) × IsPacked de × AllPacked after
AllPacked-kept [] after de (p, ps) = (ps, p, ps)
AllPacked-kept (d ∷ before) after de (p, ps) =
    let (kept, q, rest) = AllPacked-kept before after de ps in ((p, kept), q, rest)

size-from_nm :
    (de : Dentry) (name : List ℕ)
    → IsPacked de
    → length de.name ≡ length name
    → obj_dentry_size de ≡ obj_dentry_size_from_nm name
unfolding obj_dentry_size obj_dentry_size_from_nm
size-from_nm de name p e = omega (arith, p.nlen, e)

left-size :
    (size change total : ℕ)
    → size ≡ dentarr_sz + total + change
    → (if size - change == 0 then dentarr_sz else size - change) ≡ dentarr_sz + total
left-size size change total e = ground arith

without-size :
    (dentarr : Dentarr) (name : List ℕ) (des : List Dentry)
    → obj_dentarr_size dentarr ≡ dentarr_sz + total_size des + obj_dentry_size_from_nm name
    → obj_dentarr_size (without dentarr name des) ≡ dentarr_sz + total_size des
unfolding obj_dentarr_size
without-size dentarr name des e = left-size _ _ (total_size des) e

-- Removing the first entry of a name, from an array whose count and size are right and whose
-- entries are packed, where the names behind it have its length and memory for the copy is granted,
-- takes away that entry alone and keeps the count and the size right. Where it was the only entry
-- the buffer holds a deletion object instead.
pub dentarr_del-Deleted :
    (dentarr : Dentarr) (name : List ℕ) (before after : List Dentry) (de : Dentry)
    → IsDentarr dentarr
    → dentarr.dentries ≡ before ++ (de ∷ after)
    → AllPacked dentarr.dentries
    → NoneNamed name before
    → de.name ≡ name
    → AllOfLength (length name) after
    → (dentarr_del_dentry true dentarr name
        ≡ some (ok (obj_dentry_size_from_nm name, buf_without dentarr name (before ++ after))))
      × IsDentarr (without dentarr name (before ++ after))
unfolding dentarr_del_dentry
dentarr_del-Deleted dentarr name before after de v e ps n named lens =
    let all : AllPacked (before ++ (de ∷ after)) = subst AllPacked e ps in
    let (kept, p, qs) = AllPacked-kept before after de all in
    let (stale, shifted) = delete_from-kept name before after de n named p qs lens in
    let size : length de.name ≡ length name = ap (λ (x : List ℕ). length x) named in
    let count : length (before ++ after) ≡ dentarr.nb_dentry - 1 = omega (
      arith,
      v.counted,
      ap (λ (x : List Dentry). length x) e,
      length-append before (de ∷ after),
      length-append before after,
    ) in
    let some_left : (dentarr.nb_dentry == 0) ≡ false =
      ground (
        arith,
        v.counted,
        ap (λ (x : List Dentry). length x) e,
        length-append before (de ∷ after),
      ) in
    let total : obj_dentarr_size dentarr
        ≡ dentarr_sz + total_size (before ++ after) + obj_dentry_size_from_nm name =
      omega (
        arith,
        v.sized,
        ap total_size e,
        total_size-middle before after de,
        size-from_nm de name p size,
      ) in
    let bytes : obj_dentarr_size dentarr - obj_dentry_size_from_nm name - dentarr_sz
        ≡ length (dentries_bytes (before ++ after)) =
      omega (arith, total, length-dentries_bytes (before ++ after) kept) in
    (
      rw (some_left, e, shifted)
          (repack-kept dentarr name (before ++ after) stale kept count bytes),
      record { counted = sym count; sized = without-size dentarr name (before ++ after) total },
    )
