-- ===== src/Ids.antt =====
-- Object ids: the inline functions of impl/fs/bilby/c/bilbyfs.h that build and take apart a 64-bit
-- `obj_id`. A name is the list of its bytes without the terminating NUL; `<<` is a product and
-- `>>` a quotient by a power of two, wrapped at the width of the C type.
pub mod Fields
use cogent.Prelude.{
  ℕ, ◌+◌, ◌-◌, ◌*◌, ◌/◌, ◌%◌, ◌^◌, bit_and, bit_or, Bool, List, [], ◌∷◌, ltb, ◌==◌, if◌then◌else◌,
}
use cogent.Types.{inode_obj, data_obj, dentarr_obj}

-- `(u64)~0`.
abbrev pub nil_id : ℕ
nil_id = 2 ^ 64 - 1

abbrev pub id_xinfo_bits : ℕ
id_xinfo_bits = 29

abbrev pub id_xinfo_mask : ℕ
id_xinfo_mask = 0x1FFFFFF

unfoldable pub inum_from_id : ℕ → ℕ
inum_from_id id = id / 2 ^ 32

unfoldable pub type_from_id : ℕ → ℕ
type_from_id id = bit_and (id / 2 ^ id_xinfo_bits) 7

unfoldable pub xinfo_from_id : ℕ → ℕ
xinfo_from_id id = bit_and id id_xinfo_mask

unfoldable pub inode_id_init : ℕ → ℕ
inode_id_init ino = (ino * 2 ^ 32) % 2 ^ 64

-- `*str << 4` and `*str >> 4` of a `signed char` that is promoted to `int`, converted to
-- `uint32_t`. A byte from 128 on stands for a negative number, and `>>` rounds down.
abbrev shl_char : ℕ → ℕ
shl_char c = if ltb c 128 then c * 16 else 2 ^ 32 - (256 - c) * 16

abbrev shr_char : ℕ → ℕ
shr_char c = if ltb c 128 then c / 16 else 2 ^ 32 - (256 - c + 15) / 16

-- One round of the loop of the R5 hash.
hash_char : ℕ → ℕ → ℕ
hash_char a c =
    let added = (a + shl_char c) % 2 ^ 32 in
    let mixed = (added + shr_char c) % 2 ^ 32 in mixed * 11 % 2 ^ 32

hash_chars : ℕ → List ℕ → ℕ
unfolding hash_char
hash_chars a [] = a
hash_chars a (c ∷ name) = hash_chars (hash_char a c) name

unfoldable pub id_hash_nm : List ℕ → ℕ
unfolding hash_chars
id_hash_nm name = bit_and (hash_chars 0 name) id_xinfo_mask

unfoldable pub dentarr_id_init : ℕ → List ℕ → ℕ
unfolding id_hash_nm
dentarr_id_init ino name =
    bit_or (bit_or ((ino * 2 ^ 32) % 2 ^ 64) (dentarr_obj * 2 ^ id_xinfo_bits)) (id_hash_nm name)

unfoldable pub data_id_init : ℕ → ℕ → ℕ
data_id_init ino block =
    bit_or (bit_or ((ino * 2 ^ 32) % 2 ^ 64) (data_obj * 2 ^ id_xinfo_bits)) block

unfoldable pub is_inode_id : ℕ → Bool
unfolding type_from_id
is_inode_id id = type_from_id id == inode_obj

unfoldable pub is_dentarr_id : ℕ → Bool
unfolding type_from_id
is_dentarr_id id = type_from_id id == dentarr_obj

unfoldable pub is_data_id : ℕ → Bool
unfolding type_from_id
is_data_id id = type_from_id id == data_obj
