-- ===== src/Dentarr.antt =====
-- impl/fs/bilby/c/dentarr.c: arrays of directory entries, the names of a directory that share a
-- hash. The packed entries behind the header are a list, a pointer to an entry is the list from
-- that entry on, and NULL is the empty list: that is what the byte offsets of the code say as long
-- as `size` is the size of the header and the entries (`Dentarr.Names.IsDentarr`). `ch.len`, which
-- these functions do not read, is left out. A name is the list of its bytes without the NUL.
pub mod Names
pub mod Bytes
pub mod Deleted
pub mod Delete
use cogent.Prelude.{
  ℕ, zero, suc, ◌+◌, ◌%◌, ◌^◌, bit_and, Bool, true, false, ◌&&◌, List, [], ◌∷◌, ◌++◌, Option, none,
  some, length, ltb, ◌==◌, if◌then◌else◌,
}
use cogent.Types.{Result, ok, err, Errno, enoent, enotempty}

pub record Dentry : Type 0 where
  pub ino : ℕ
  pub kind : ℕ
  pub nlen : ℕ
  pub name : List ℕ

pub record Dentarr : Type 0 where
  pub id : ℕ
  pub nb_dentry : ℕ
  pub size : ℕ
  pub dentries : List Dentry

-- `sizeof(struct obj_dentarr)` and `sizeof(struct obj_dentry)`, which are packed.
abbrev pub dentarr_sz : ℕ
dentarr_sz = 40

abbrev pub dentry_sz : ℕ
dentry_sz = 7

abbrev pub max_dentarr_entries : ℕ
max_dentarr_entries = 16

unfoldable pub obj_dentry_size : Dentry → ℕ
obj_dentry_size de = dentry_sz + de.nlen + 1

unfoldable pub obj_dentarr_size : Dentarr → ℕ
obj_dentarr_size dentarr = if dentarr.size == 0 then dentarr_sz else dentarr.size

unfoldable pub obj_dentry_size_from_nm : List ℕ → ℕ
obj_dentry_size_from_nm name = dentry_sz + length name + 1

unfoldable pub obj_dentarr_size_with_nm : Dentarr → List ℕ → ℕ
unfolding obj_dentarr_size obj_dentry_size_from_nm
obj_dentarr_size_with_nm dentarr name = obj_dentarr_size dentarr + obj_dentry_size_from_nm name

-- The file types of the kernel's `i_mode`.
pub record FileModes : Type 0 where
  pub s_ifmt : ℕ
  pub s_ifreg : ℕ
  pub s_ifdir : ℕ
  pub s_iflnk : ℕ
  pub s_ifsock : ℕ
  pub s_ififo : ℕ
  pub s_ifblk : ℕ
  pub s_ifchr : ℕ

-- The results are the values of `BILBYFS_ITYPE_REG` and so on; `none` is the failed assertion.
unfoldable pub inode_mode_to_dent_type : FileModes → ℕ → Option ℕ
inode_mode_to_dent_type k mode =
    let m = bit_and mode k.s_ifmt in
    if m == k.s_ifreg
    then some 0
    else if m == k.s_ifdir
    then some 1
    else if m == k.s_iflnk
    then some 2
    else if m == k.s_ifsock
    then some 6
    else if m == k.s_ififo
    then some 5
    else if m == k.s_ifblk
    then some 3
    else if m == k.s_ifchr
    then some 4
    else none

unfoldable pub dentarr_first_dentry : Dentarr → List Dentry
dentarr_first_dentry dentarr = if dentarr.nb_dentry == 0 then [] else dentarr.dentries

unfoldable pub dentarr_next_dentry : List Dentry → List Dentry
dentarr_next_dentry [] = []
dentarr_next_dentry (de ∷ des) = des

unfoldable pub dentarr_check_empty : Dentarr → Result (Unit {0})
unfolding dentarr_first_dentry
dentarr_check_empty dentarr = elim (dentarr_first_dentry dentarr) [
  | [] ↦ ok tt
  | de ∷ des ↦ err enotempty
]

-- `!strcmp(a, b)`.
abbrev pub same_name : List ℕ → List ℕ → Bool
same_name [] [] = true
same_name [] (d ∷ b) = false
same_name (c ∷ a) [] = false
same_name (c ∷ a) (d ∷ b) = (c == d) && same_name a b

-- The loop of `dentarr_lookup_nm`.
unfoldable pub lookup_from : List Dentry → List ℕ → Result Dentry
lookup_from [] name = err enoent
lookup_from (de ∷ des) name =
    let rest = lookup_from des name in if same_name de.name name then ok de else rest

unfoldable pub dentarr_lookup_nm : Dentarr → List ℕ → Result Dentry
unfolding lookup_from
dentarr_lookup_nm dentarr name = lookup_from (dentarr_first_dentry dentarr) name

-- The entry's fields have 32, 8 and 16 bits.
unfoldable pub pack_obj_dentry : ℕ → ℕ → List ℕ → Dentry
pack_obj_dentry ino kind name = record {
  ino = ino % 2 ^ 32;
  kind = kind;
  nlen = length name % 2 ^ 16;
  name = name;
}

-- The new entry goes to the end, for an inode's number and mode; the result comes with the change
-- of size.
unfoldable pub dentarr_add_dentry : FileModes → Dentarr → ℕ → ℕ → List ℕ → Option (ℕ × Dentarr)
unfolding obj_dentarr_size obj_dentry_size_from_nm pack_obj_dentry
dentarr_add_dentry k dentarr ino mode name = elim (inode_mode_to_dent_type k mode) [
  | none ↦ none
  | some kind ↦
      let sz_change = obj_dentry_size_from_nm name in
      some (
        sz_change,
        record dentarr {
          nb_dentry = dentarr.nb_dentry + 1;
          size = obj_dentarr_size dentarr + sz_change;
          dentries = dentarr.dentries ++ pack_obj_dentry ino kind name ∷ [];
        },
      )
]
