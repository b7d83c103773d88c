-- ===== src/Hash.antt =====
-- The hash tables of impl/fs/bilby/c/idx.c and gim.c. Both files hash an id by its inode number
-- into an array of trees, and their insertions and clean-ups are the same code but for the node's
-- type, so it stands here once, for any type `V` of what a node holds. The array is a function of
-- the bucket's number, which is always below the array's size.
pub mod Laws
pub mod Clean
pub mod Insert
use cogent.Prelude.{
  ℕ, zero, suc, ◌+◌, ◌-◌, ◌%◌, ◌≡◌, Bool, true, false, List, [], ◌∷◌, Option, none, some, length,
  ◌==◌, if◌then◌else◌,
}
use cogent.Types.{Pool}
use cogent.Ids.{inum_from_id}
use cogent.Pool.{allocpool_pop, allocpool_free_single}
use cogent.Tree.{Tree, leaf, entries, find, IsSorted, search, link, store, Rbt}

-- `IDX_HASH_SIZE` and `GIM_HASH_SIZE`.
abbrev pub hash_size : ℕ
hash_size = 2048

unfoldable pub hash_inum : ℕ → ℕ
hash_inum inum = inum % hash_size

abbrev pub Table : Type 0 → Type 0
Table V = ℕ → Tree V

-- The bucket of an id.
abbrev pub bucket : ℕ → ℕ
bucket id = hash_inum (inum_from_id id)

module _ {V : Type 0} where
  abbrev pub set_bucket : Table V → ℕ → Tree V → Table V
  set_bucket table h t i = if i == h then t else table i

  abbrev pub empty_table : Table V
  empty_table i = leaf

  -- Every bucket is a search tree.
  abbrev pub IsTable : Table V → Type 0
  IsTable table = (h : ℕ) → IsSorted (entries (table h))

  -- What the table holds for an id.
  abbrev pub lookup : Table V → ℕ → Option V
  lookup table id = find id (entries (table (bucket id)))

  -- The search in the bucket of the id.
  unfoldable pub index_search : Table V → ℕ → Option V
  index_search table id = search (table (bucket id)) id

  -- A write through the pointer to the node of an id.
  unfoldable pub store_node : Table V → ℕ → (V → V) → Table V
  store_node table id f = set_bucket table (bucket id) (store (table (bucket id)) id f)

module _ (rbt : Rbt) {V : Type 0} where
  -- Links a zeroed node and rebalances.
  unfoldable pub add_node : V → Table V → ℕ → Table V
  add_node zeroed table id =
      set_bucket table (bucket id) (rbt.insert_color (link (table (bucket id)) id zeroed) id)

  unfoldable pub erase_node : Table V → ℕ → Table V
  erase_node table id = set_bucket table (bucket id) (rbt.erase (table (bucket id)) id)

  -- One bucket of a clean-up: erases and frees the first node while there is one. The fuel is the
  -- number of nodes. idx.c gives a node back to the slab by `kfree`, gim.c by
  -- `allocpool_free_single`.
  unfoldable pub clean_bucket : ℕ → Tree V → Pool → Tree V × Pool
  clean_bucket zero t p = (t, p)
  clean_bucket (suc fuel) t p = elim (rbt.first t) [
    | none ↦ (t, p)
    | some id ↦ clean_bucket fuel (rbt.erase t id) (allocpool_free_single p)
  ]

  -- The buckets from the last of `n` to the first. They do not depend on one another.
  unfoldable pub clean_buckets : ℕ → Table V → Pool → Table V × Pool
  unfolding clean_bucket
  clean_buckets zero table p = (table, p)
  clean_buckets (suc i) table p =
      let (t, p') = clean_bucket (length (entries (table i))) (table i) p in
      clean_buckets i (set_bucket table i t) p'

module _ (rbt : Rbt) (mem : ℕ → Bool) {V : Type 0} where
  -- A node for the id: the one that is there, and then a node that came along is freed; else the
  -- one that came along, or one from the pool, zeroed and linked. `none` is a pool that ran dry.
  unfoldable pub insert_or_replace : V → Pool → Table V → ℕ → Bool → Option (Pool × Table V)
  insert_or_replace zeroed p table id allocated = elim (index_search table id) [
    | some v ↦ some (if allocated then allocpool_free_single p else p, table)
    | none ↦ elim (if allocated then some p else allocpool_pop mem p) [
      | none ↦ none
      | some p' ↦ some (p', add_node rbt zeroed table id)
    ]
  ]
