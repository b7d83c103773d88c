-- ===== src/Dentarr/Delete.antt =====
-- impl/fs/bilby/c/dentarr.c: `dentarr_del_dentry`, on the bytes of the entries, since it copies with
-- the sizes of other entries. Before each copy the bytes from `de` on are still the old ones: those
-- that were written lie before `de`. The copy that it reads from is the old array, of which a
-- suffix is left. A result `none` is a read behind the array or through an error pointer, or bytes
-- that are no entries any more.
use cogent.Prelude.{
  ℕ, zero, suc, ◌+◌, ◌-◌, ◌*◌, ◌/◌, ◌%◌, Bool, not, List, [], ◌∷◌, ◌++◌, Option, none, some, length,
  take, drop, get_or, ltb, ◌==◌, if◌then◌else◌,
}
use cogent.Types.{Result, ok, err, enomem}
use cogent.Dentarr.{
  Dentry, Dentarr, dentarr_sz, obj_dentarr_size, obj_dentry_size_from_nm, dentarr_first_dentry,
  same_name,
}

-- A little-endian number of so many bytes.
abbrev pub le_bytes : ℕ → ℕ → List ℕ
le_bytes zero v = []
le_bytes (suc n) v = (v % 256) ∷ le_bytes n (v / 256)

abbrev pub le_value : List ℕ → ℕ
le_value [] = 0
le_value (b ∷ bytes) = b + 256 * le_value bytes

-- The layout of `struct obj_dentry`, with the NUL of its name.
abbrev pub dentry_bytes : Dentry → List ℕ
dentry_bytes de = le_bytes 4 de.ino ++ (de.kind ∷ (le_bytes 2 de.nlen ++ (de.name ++ (0 ∷ []))))

abbrev pub dentries_bytes : List Dentry → List ℕ
dentries_bytes [] = []
dentries_bytes (de ∷ des) = dentry_bytes de ++ dentries_bytes des

-- `obj_dentry_size` of the entry whose bytes these are.
abbrev pub size_at : List ℕ → ℕ
size_at bytes = 8 + le_value (take 2 (drop 5 bytes))

abbrev pub c_string : List ℕ → List ℕ
c_string [] = []
c_string (zero ∷ bytes) = []
c_string (suc c ∷ bytes) = suc c ∷ c_string bytes

abbrev pub dentry_at : List ℕ → Dentry
dentry_at bytes = record {
  ino = le_value (take 4 bytes);
  kind = get_or bytes 4 0;
  nlen = le_value (take 2 (drop 5 bytes));
  name = c_string (drop 7 bytes);
}

abbrev pub cons_dentry : Dentry → Option (List Dentry) → Option (List Dentry)
cons_dentry de none = none
cons_dentry de (some des) = some (de ∷ des)

-- The entries whose bytes these are, at most so many.
abbrev pub dentries_at : ℕ → List ℕ → Option (List Dentry)
dentries_at n [] = some []
dentries_at zero (b ∷ bytes) = none
dentries_at (suc n) (b ∷ bytes) =
    let all = b ∷ bytes in
    let rest = dentries_at n (drop (size_at all) all) in
    if ltb (length all) (size_at all) then none else cons_dentry (dentry_at all) rest

abbrev pub join : List ℕ → Option (List ℕ) → Option (List ℕ)
join bytes none = none
join bytes (some rest) = some (bytes ++ rest)

-- The loop, from `de` on, for the entries of the copy from `copy_de` on.
unfoldable pub shift_dentries : List ℕ → List Dentry → Option (List ℕ)
shift_dentries bytes [] = some bytes
shift_dentries bytes (copy_de ∷ des) =
    let delen = size_at bytes in
    let source = dentries_bytes (copy_de ∷ des) in
    let rest = shift_dentries (drop delen bytes) des in
    if ltb (length source) delen then none else join (take delen source) rest

-- The bytes of all entries after the loop.
unfoldable pub delete_from : List Dentry → List ℕ → Option (List ℕ)
unfolding shift_dentries
delete_from [] name = none
delete_from (de ∷ des) name =
    let rest = delete_from des name in
    if same_name de.name name
    then shift_dentries (dentries_bytes (de ∷ des)) des
    else join (dentry_bytes de) rest

-- What the buffer of an array holds: the array, or the deletion object that takes its place.
pub data DentarrBuf : Type 0 where
  entries : Dentarr → DentarrBuf
  removed : ℕ → DentarrBuf

-- The array that is read from the buffer, where only the id is left of a removed one.
unfoldable pub as_dentarr : DentarrBuf → Dentarr
as_dentarr (entries dentarr) = dentarr
as_dentarr (removed id) = record { id = id; nb_dentry = 0; size = 0; dentries = [] }

-- The new header over the shifted bytes.
unfoldable pub repack : Dentarr → ℕ → Option (List ℕ) → Option (Result (ℕ × DentarrBuf))
unfolding obj_dentarr_size
repack dentarr sz_change none = none
repack dentarr sz_change (some bytes) =
    let nb_dentry = dentarr.nb_dentry - 1 in
    let size = obj_dentarr_size dentarr - sz_change in
    if nb_dentry == 0
    then some (ok (sz_change, removed dentarr.id))
    else (elim (dentries_at nb_dentry (take (size - dentarr_sz) bytes)) [
      | none ↦ none
      | some des ↦ some (
          ok (
            sz_change,
            entries
                (record { id = dentarr.id; nb_dentry = nb_dentry; size = size; dentries = des }),
          ))
    ])

-- The change of size, and the buffer. The copy is granted or not.
unfoldable pub dentarr_del_dentry : Bool → Dentarr → List ℕ → Option (Result (ℕ × DentarrBuf))
unfolding obj_dentry_size_from_nm repack delete_from dentarr_first_dentry
dentarr_del_dentry granted dentarr name =
    if not granted
    then some (err enomem)
    else if dentarr.nb_dentry == 0
    then some (ok (0, entries dentarr))
    else repack dentarr (obj_dentry_size_from_nm name)
        (delete_from (dentarr_first_dentry dentarr) name)
