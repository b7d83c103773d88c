-- ===== src/Hash/Laws.antt =====
-- What the table holds after each operation.
use cogent.Prelude.{ℕ, ◌≡◌, ◌∙◌, List, Option, none, some, arith, ◌==◌, if◌then◌else◌}
use cogent.Tree.{Tree, entries, find, IsSorted, link, store, Rbt}
use cogent.Tree.Entries.{
  insert, change, map_value, insert-IsSorted, remove-IsSorted, change-IsSorted, find-insert,
  find-change, find-remove,
}
use cogent.Tree.Search.{search-find, entries-link, entries-store}
use cogent.Hash.{
  Table, bucket, set_bucket, IsTable, lookup, index_search, store_node, add_node, erase_node,
}

module _ {V : Type 0} where
  pub set_bucket-IsTable :
      (table : Table V) (h : ℕ) (t : Tree V)
      → IsTable table
      → IsSorted (entries t)
      → IsTable (set_bucket table h t)
  set_bucket-IsTable table h t ok s i = ground (arith, ok i)

  -- A change of one bucket that changes what is found under one id.
  lookup-set_bucket :
      (table : Table V) (id j : ℕ) (t : Tree V) (v : Option V)
      → ((k : ℕ)
          → find k (entries t) ≡ (if id == k then v else find k (entries (table (bucket id)))))
      → lookup (set_bucket table (bucket id) t) j ≡ (if id == j then v else lookup table j)
  lookup-set_bucket table id j t v h = ground (arith, h j)

  pub index_search-lookup :
      (table : Table V) (id : ℕ) → IsTable table → index_search table id ≡ lookup table id
  unfolding index_search
  index_search-lookup table id ok = search-find (table (bucket id)) id (ok (bucket id))

  find-change_at :
      (id k : ℕ) (f : V → V) (xs : List (ℕ × V))
      → find k (change id f xs) ≡ (if id == k then map_value f (find id xs) else find k xs)
  find-change_at id k f xs = ground (arith, find-change id k f xs)

  -- A write through a node's pointer changes what that id holds, and nothing else.
  pub store_node-lookup :
      (table : Table V) (id j : ℕ) (f : V → V)
      → IsTable table
      → lookup (store_node table id f) j
        ≡ (if id == j then map_value f (lookup table id) else lookup table j)
  unfolding store_node
  store_node-lookup table id j f ok =
      lookup-set_bucket table id j (store (table (bucket id)) id f) (map_value f (lookup table id))
        λ k.
          rw (entries-store (table (bucket id)) id f (ok (bucket id)))
            (find-change_at id k f (entries (table (bucket id))))

  pub store_node-IsTable :
      (table : Table V) (id : ℕ) (f : V → V) → IsTable table → IsTable (store_node table id f)
  unfolding store_node
  store_node-IsTable table id f ok =
      set_bucket-IsTable table (bucket id) (store (table (bucket id)) id f) ok (
        rw (entries-store (table (bucket id)) id f (ok (bucket id)))
          (change-IsSorted id f (entries (table (bucket id))) (ok (bucket id))))

module _ (rbt : Rbt) {V : Type 0} where
  entries-add :
      (t : Tree V) (id : ℕ) (w : V)
      → IsSorted (entries t)
      → entries (rbt.insert_color (link t id w) id) ≡ insert id w (entries t)
  entries-add t id w s = rbt.entries-insert_color (link t id w) id ∙ entries-link t id w s

  pub add_node-IsTable :
      (zeroed : V) (table : Table V) (id : ℕ)
      → IsTable table
      → IsTable (add_node rbt zeroed table id)
  unfolding add_node
  add_node-IsTable zeroed table id ok =
      let t = table (bucket id) in
      set_bucket-IsTable table (bucket id) (rbt.insert_color (link t id zeroed) id) ok (
        rw (entries-add t id zeroed (ok (bucket id)))
          (insert-IsSorted id zeroed (entries t) (ok (bucket id))))

  pub erase_node-IsTable :
      (table : Table V) (id : ℕ) → IsTable table → IsTable (erase_node rbt table id)
  unfolding erase_node
  erase_node-IsTable table id ok =
      let t = table (bucket id) in
      set_bucket-IsTable table (bucket id) (rbt.erase t id) ok (
        rw (rbt.entries-erase t id (ok (bucket id)))
          (remove-IsSorted id (entries t) (ok (bucket id))))

  pub add_node-lookup :
      (zeroed : V) (table : Table V) (id j : ℕ)
      → IsTable table
      → lookup table id ≡ none
      → lookup (add_node rbt zeroed table id) j ≡ (if id == j then some zeroed else lookup table j)
  unfolding add_node
  add_node-lookup zeroed table id j ok e =
      let t = table (bucket id) in
      lookup-set_bucket table id j (rbt.insert_color (link t id zeroed) id) (some zeroed)
        λ k. rw (entries-add t id zeroed (ok (bucket id))) (find-insert id k zeroed (entries t) e)

  pub erase_node-lookup :
      (table : Table V) (id j : ℕ)
      → IsTable table
      → lookup (erase_node rbt table id) j ≡ (if id == j then none else lookup table j)
  unfolding erase_node
  erase_node-lookup table id j ok =
      let t = table (bucket id) in
      lookup-set_bucket table id j (rbt.erase t id) none λ k.
        rw (rbt.entries-erase t id (ok (bucket id))) (find-remove id k (entries t) (ok (bucket id)))
