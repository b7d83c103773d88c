-- ===== src/Ids/Fields.antt =====
-- The fields of a built id read back, and ids of one inode lie between those of its neighbours.
use cogent.Prelude.{
  ℕ, ◌+◌, ◌*◌, ◌/◌, ◌%◌, ◌^◌, ◌<◌, bit_or, ◌≡◌, List, true, false, arith, bit_or_disjoint,
  bit_and_low,
}
use cogent.Types.{inode_obj, data_obj, dentarr_obj}
use cogent.Ids.{
  inum_from_id, type_from_id, xinfo_from_id, inode_id_init, id_hash_nm, dentarr_id_init,
  data_id_init, hash_chars, is_inode_id, is_dentarr_id, is_data_id,
}

pub type_from_id-eq : (id : ℕ) → type_from_id id ≡ id / 2 ^ 29 % 8
unfolding type_from_id
type_from_id-eq id = bit_and_low 3 (id / 2 ^ 29)

-- An id with type bits `t` and low field `x` is a sum of its three fields.
id_sum :
    (ino t x : ℕ)
    → ino < 2 ^ 32
    → t < 8
    → x < 2 ^ 29
    → bit_or (bit_or ((ino * 2 ^ 32) % 2 ^ 64) (t * 2 ^ 29)) x ≡ ino * 2 ^ 32 + t * 2 ^ 29 + x
id_sum ino t x hi ht hx =
    ground
      (arith, bit_or_disjoint 32 (ino % 2 ^ 32) (t * 2 ^ 29), bit_or_disjoint 29 (ino * 8 + t) x)

pub hash-lt : (name : List ℕ) → id_hash_nm name < 2 ^ 25
unfolding id_hash_nm
hash-lt name = omega (arith, bit_and_low 25 (hash_chars 0 name))

pub data_id-sum :
    (ino block : ℕ)
    → ino < 2 ^ 32
    → block < 2 ^ 29
    → data_id_init ino block ≡ ino * 2 ^ 32 + 2 ^ 29 + block
unfolding data_id_init
data_id-sum ino block hi hb = id_sum ino 1 block hi (omega arith) hb

pub dentarr_id-sum :
    (ino : ℕ) (name : List ℕ)
    → ino < 2 ^ 32
    → dentarr_id_init ino name ≡ ino * 2 ^ 32 + 2 * 2 ^ 29 + id_hash_nm name
unfolding dentarr_id_init
dentarr_id-sum ino name hi =
    id_sum ino 2 (id_hash_nm name) hi (omega arith) (omega (arith, hash-lt name))

-- The id of a data block reads back as it was built, for an inode number of 32 bits and a block
-- index of 29: the inode number, the type, the block in the low 29 bits, and no other type.
pub data_id_fields :
    (ino block : ℕ)
    → ino < 2 ^ 32
    → block < 2 ^ 29
    → (inum_from_id (data_id_init ino block) ≡ ino)
      × (type_from_id (data_id_init ino block) ≡ data_obj)
      × (data_id_init ino block % 2 ^ 29 ≡ block)
      × (is_data_id (data_id_init ino block) ≡ true)
      × (is_inode_id (data_id_init ino block) ≡ false)
      × (is_dentarr_id (data_id_init ino block) ≡ false)
unfolding inum_from_id is_data_id is_inode_id is_dentarr_id
data_id_fields ino block hi hb =
    let s = data_id-sum ino block hi hb in
    let ty = type_from_id-eq (data_id_init ino block) in
    (omega arith, omega arith, omega arith, ground arith, ground arith, ground arith)

-- The id of a directory entry array reads back the inode number and the type whatever the name
-- is, and its hash field has 25 bits; an inode id reads back its number and type.
pub dentarr_id_fields :
    (ino : ℕ) (name : List ℕ)
    → ino < 2 ^ 32
    → (inum_from_id (dentarr_id_init ino name) ≡ ino)
      × (type_from_id (dentarr_id_init ino name) ≡ dentarr_obj)
      × (xinfo_from_id (dentarr_id_init ino name) ≡ id_hash_nm name)
      × (id_hash_nm name < 2 ^ 25)
      × (inum_from_id (inode_id_init ino) ≡ ino)
      × (type_from_id (inode_id_init ino) ≡ inode_obj)
unfolding inum_from_id xinfo_from_id inode_id_init
dentarr_id_fields ino name hi =
    let s = dentarr_id-sum ino name hi in
    let small = hash-lt name in
    let ty = type_from_id-eq (dentarr_id_init ino name) in
    let ty' = type_from_id-eq (inode_id_init ino) in
    (
      omega arith,
      omega arith,
      omega (arith, bit_and_low 25 (dentarr_id_init ino name)),
      small,
      omega arith,
      unfold inode_id_init in omega (arith, type_from_id-eq ((ino * 2 ^ 32) % 2 ^ 64)),
    )

-- The ids of one inode are contiguous: its inode id comes first, then its data blocks in the order
-- of their index, then its directory entry arrays, all below the next inode's id.
pub ids_ordered :
    (ino a b : ℕ) (name : List ℕ)
    → ino + 1 < 2 ^ 32
    → a < b
    → b < 2 ^ 29
    → (inode_id_init ino < data_id_init ino a)
      × (data_id_init ino a < data_id_init ino b)
      × (data_id_init ino b < dentarr_id_init ino name)
      × (dentarr_id_init ino name < inode_id_init (ino + 1))
unfolding inode_id_init
ids_ordered ino a b name hi hab hb = omega (
  arith,
  hash-lt name,
  dentarr_id-sum ino name (omega arith),
  data_id-sum ino a (omega arith) (omega arith),
  data_id-sum ino b (omega arith) hb,
)
