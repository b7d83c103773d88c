-- ===== src/Dentarr/Names.antt =====
-- A name that was added is found, unless an entry had it before.
use cogent.Prelude.{
  ℕ, ◌+◌, ◌%◌, ◌^◌, ◌<◌, ◌≡◌, refl, ◌∙◌, true, false, List, [], ◌∷◌, ◌++◌, Option, none, some,
  arith, length, length-append, ◌==◌, if◌then◌else◌, Bool-cases, inl, inr,
}
use cogent.Types.{Result, ok, err, enoent}
use cogent.Dentarr.{
  Dentry, Dentarr, dentarr_sz, obj_dentry_size, obj_dentarr_size, obj_dentry_size_from_nm,
  FileModes, inode_mode_to_dent_type, dentarr_first_dentry, same_name, lookup_from,
  dentarr_lookup_nm, pack_obj_dentry,
}

abbrev pub total_size : List Dentry → ℕ
total_size [] = 0
total_size (de ∷ des) = obj_dentry_size de + total_size des

-- The count and the size are those of the entries; a size of 0 stands for the bare header.
pub record IsDentarr (dentarr : Dentarr) : Type 0 where
  pub counted : dentarr.nb_dentry ≡ length dentarr.dentries
  pub sized : obj_dentarr_size dentarr ≡ dentarr_sz + total_size dentarr.dentries

-- What a lookup finds after an entry for `name` went to the end.
abbrev pub found_or : Dentry → List ℕ → List ℕ → Result Dentry → Result Dentry
found_or new name other_name (ok de) = ok de
found_or new name other_name (err e) = if same_name name other_name then ok new else err enoent

-- The new entry has the name, the number and the type of the inode, and every lookup finds what it found before, or else the new entry.
pub record IsAdded (ino kind : ℕ) (dentarr : Dentarr) (name : List ℕ) (out : ℕ × Dentarr)
    : Type 0 where
  pub new : Dentry
  pub same : new.name ≡ name
  pub numbered : new.ino ≡ ino % 2 ^ 32
  pub typed : new.kind ≡ kind
  pub ok_after : IsDentarr out.1
  pub grown : obj_dentarr_size out.1 ≡ obj_dentarr_size dentarr + out.0
  pub found :
      (other_name : List ℕ)
      → dentarr_lookup_nm out.1 other_name
        ≡ found_or new name other_name (dentarr_lookup_nm dentarr other_name)

abbrev pub Added : FileModes → ℕ → ℕ → Dentarr → List ℕ → Option (ℕ × Dentarr) → Type 0
Added k ino mode dentarr name none = inode_mode_to_dent_type k mode ≡ none
Added k ino mode dentarr name (some out) =
    (kind : ℕ) × (inode_mode_to_dent_type k mode ≡ some kind) × IsAdded ino kind dentarr name out

total_size-append :
    (des : List Dentry) (de : Dentry)
    → total_size (des ++ de ∷ []) ≡ total_size des + obj_dentry_size de
total_size-append [] de = omega arith
total_size-append (x ∷ des) de = omega (arith, total_size-append des de)

pub lookup-append :
    (des : List Dentry) (new : Dentry) (name : List ℕ)
    → lookup_from (des ++ new ∷ []) name ≡ found_or new new.name name (lookup_from des name)
unfolding lookup_from
lookup-append [] new name = refl
lookup-append (de ∷ des) new name = elim (Bool-cases (same_name de.name name)) [
  | inl e ↦ rw e refl
  | inr e ↦ rw e (lookup-append des new name)
]

-- With the count right the walk starts at the first entry.
pub first-lem :
    (dentarr : Dentarr)
    → dentarr.nb_dentry ≡ length dentarr.dentries
    → dentarr_first_dentry dentarr ≡ dentarr.dentries
unfolding dentarr_first_dentry
first-lem dentarr e = go dentarr.dentries e
  where
    go :
        (des : List Dentry)
        → dentarr.nb_dentry ≡ length des
        → (if dentarr.nb_dentry == 0 then [] else des) ≡ des
    go [] q = ground arith
    go (de ∷ des) q =
        let some_left : (dentarr.nb_dentry == 0) ≡ false = ground (arith, q) in rw some_left refl

abbrev pub added : Dentarr → ℕ → ℕ → List ℕ → Dentarr
added dentarr ino kind name = record dentarr {
  nb_dentry = dentarr.nb_dentry + 1;
  size = obj_dentarr_size dentarr + obj_dentry_size_from_nm name;
  dentries = dentarr.dentries ++ pack_obj_dentry ino kind name ∷ [];
}

pub added_size :
    (dentarr : Dentarr) (ino kind : ℕ) (name : List ℕ)
    → obj_dentarr_size (added dentarr ino kind name)
      ≡ obj_dentarr_size dentarr + obj_dentry_size_from_nm name
unfolding obj_dentarr_size obj_dentry_size_from_nm
added_size dentarr ino kind name = ground arith

packed_size :
    (ino kind : ℕ) (name : List ℕ)
    → length name < 2 ^ 16
    → obj_dentry_size (pack_obj_dentry ino kind name) ≡ obj_dentry_size_from_nm name
unfolding obj_dentry_size pack_obj_dentry obj_dentry_size_from_nm
packed_size ino kind name h = omega arith

pub added-IsDentarr :
    (dentarr : Dentarr) (ino kind : ℕ) (name : List ℕ)
    → IsDentarr dentarr
    → length name < 2 ^ 16
    → IsDentarr (added dentarr ino kind name)
added-IsDentarr dentarr ino kind name v h =
    let new = pack_obj_dentry ino kind name in
    record {
      counted = omega (arith, v.counted, length-append dentarr.dentries (new ∷ []));
      sized = omega (
        arith,
        added_size dentarr ino kind name,
        packed_size ino kind name h,
        total_size-append dentarr.dentries new,
        v.sized,
      );
    }

pub same_name_self : (name : List ℕ) → same_name name name ≡ true
same_name_self [] = refl
same_name_self (c ∷ name) = ground (arith, same_name_self name)

-- A new name is found.
pub added-found :
    (dentarr : Dentarr) (ino kind : ℕ) (name : List ℕ)
    → IsDentarr dentarr
    → length name < 2 ^ 16
    → dentarr_lookup_nm dentarr name ≡ err enoent
    → dentarr_lookup_nm (added dentarr ino kind name) name ≡ ok (pack_obj_dentry ino kind name)
unfolding dentarr_lookup_nm pack_obj_dentry
added-found dentarr ino kind name v h absent =
    rw (first-lem (added dentarr ino kind name) (added-IsDentarr dentarr ino kind name v h).counted)
      (lookup-append dentarr.dentries (pack_obj_dentry ino kind name) name
        ∙ (rw (rw (first-lem dentarr v.counted) at absent, same_name_self name) refl))
