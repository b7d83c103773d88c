-- ===== src/Fsop/Op/Failed.antt =====
-- What a failed operation that adds a name leaves of the inodes.
use cogent.Prelude.{
  ℕ, ◌^◌, ◌<◌, ◌≡◌, refl, ap, ◌∙◌, arith, false, not, List, length, Option, none, some, ltb, ◌==◌,
  if-both,
}
use cogent.Types.{Result, ok, err, erofs, enametoolong, enomem}
use cogent.Dentarr.{Dentarr, obj_dentry_size_from_nm}
use cogent.Pack.{Inode}
use cogent.Fsop.{
  Kernel, Ostore, Call, World, at, init_inode, init_fields, write_objects, trans_commit_inodes,
  last_inum,
}
use cogent.Fsop.Name.{
  grow, shrink_back, then_run, with_inode, link_added, create_added, commit_entry, mkdir_added,
  symlink_added, fsop_link, fsop_create, fsop_mkdir, fsop_symlink,
}
use cogent.Fsop.Name.Found.{NameAdded, add_name-NameAdded}
use cogent.Fsop.Op.{Op, link, create, mkdir, symlink, run}
use cogent.Fsop.Op.Shape.{
  IsShaped, BackUnlessOk, MaybeBack, refl-IsShaped, IsShaped-dir, IsShaped-inode, IsShaped-back,
  undo-Back, grow-back,
}

-- The directory, the inode and the name of an operation that adds a name.
pub data IsAdding : Op → ℕ → ℕ → List ℕ → Type 0 where
  is_link : {inode dir : ℕ} {name : List ℕ} → IsAdding (link inode dir name) dir inode name
  is_create :
      {dir mode inode : ℕ} {name : List ℕ} → IsAdding (create dir name mode inode) dir inode name
  is_mkdir :
      {dir mode inode : ℕ} {name : List ℕ} → IsAdding (mkdir dir name mode inode) dir inode name
  is_symlink :
      {dir inode : ℕ} {name symname : List ℕ}
      → IsAdding (symlink dir name symname inode) dir inode name

small-change :
    (n : ℕ) (name : List ℕ) → n ≡ obj_dentry_size_from_nm name → length name < 2 ^ 32 → n < 2 ^ 64
unfolding obj_dentry_size_from_nm
small-change n name e h = omega (arith, e)

module _ (k : Kernel) {σ : Type 0} (store : Ostore σ) (dir inode : ℕ)
    (apart : (dir == inode) ≡ false) (name : List ℕ) (short : length name < 2 ^ 32) where
  commit-inodes :
      (g : World σ) (objs : _) (flag : ℕ)
      → (trans_commit_inodes k store g dir inode objs flag).1.inodes ≡ g.inodes
  unfolding trans_commit_inodes write_objects
  commit-inodes g objs flag = refl

  link_added-Back :
      (call : Call) (w : World σ) (r : Result Dentarr) (ino : ℕ) (x : Option (Result (ℕ × Dentarr)))
      → (w.inodes dir).i_size < 2 ^ 64
      → NameAdded r ino name x
      → MaybeBack dir inode w (link_added k store call w inode dir x)
  unfolding link_added
  link_added-Back call w r ino none fits a = tt
  link_added-Back call w r ino (some (err e)) fits a = λ q h. refl
  link_added-Back call w r ino (some (ok (n, d))) fits (d', kind, was, same, sz) =
      let counted =
        λ (i : Inode). record i { i_nlink = k.inc_nlink i.i_nlink; i_ctime = call.now } in
      let linked : World σ = at w inode counted in
      let shaped : IsShaped dir inode w (w.inodes dir) linked =
        IsShaped-inode dir inode counted apart (refl-IsShaped dir inode w) in
      undo-Back dir inode w _ _ _ _ (commit-inodes _ _ _)
        (IsShaped-dir dir inode (grow n (linked.inodes inode)) shaped)
        (λ v h.
          IsShaped-back dir inode
            (IsShaped-inode dir inode _ apart
              (IsShaped-dir dir inode (shrink_back n (linked.inodes dir)) h))
            (grow-back n (linked.inodes inode) (linked.inodes dir) (w.inodes dir)
              (small-change n name sz short) fits shaped.here))

  -- The same for a new inode, which is there in `v`.
  commit_entry-Back :
      (w v : World σ) (n : ℕ) (objs : _)
      → IsShaped dir inode w (w.inodes dir) v
      → (w.inodes dir).i_size < 2 ^ 64
      → n < 2 ^ 64
      → BackUnlessOk dir inode w (commit_entry k store v dir inode n objs)
  unfolding commit_entry
  commit_entry-Back w v n objs shaped fits small =
      undo-Back dir inode w _ _ _ _ (commit-inodes _ _ _)
        (IsShaped-dir dir inode (grow n (v.inodes inode)) shaped)
        (λ u h.
          IsShaped-back dir inode (IsShaped-dir dir inode (shrink_back n (v.inodes dir)) h)
            (grow-back n (v.inodes inode) (v.inodes dir) (w.inodes dir) small fits shaped.here))

  create_added-Back :
      (w v : World σ) (r : Result Dentarr) (ino : ℕ) (x : Option (Result (ℕ × Dentarr)))
      → IsShaped dir inode w (w.inodes dir) v
      → (w.inodes dir).i_size < 2 ^ 64
      → NameAdded r ino name x
      → MaybeBack dir inode w (create_added k store v dir inode x)
  unfolding create_added
  create_added-Back w v r ino none shaped fits a = tt
  create_added-Back w v r ino (some (err e)) shaped fits a = IsShaped-back dir inode shaped refl
  create_added-Back w v r ino (some (ok (n, d))) shaped fits (d', kind, was, same, sz) =
      commit_entry-Back w v n _ shaped fits (small-change n name sz short)

  symlink_added-Back :
      (call : Call) (w v : World σ) (symname : List ℕ) (r : Result Dentarr) (ino : ℕ)
      (x : Option (Result (ℕ × Dentarr)))
      → IsShaped dir inode w (w.inodes dir) v
      → (w.inodes dir).i_size < 2 ^ 64
      → NameAdded r ino name x
      → MaybeBack dir inode w (symlink_added k store call v dir inode symname x)
  unfolding symlink_added
  symlink_added-Back call w v symname r ino none shaped fits a = tt
  symlink_added-Back call w v symname r ino (some (err e)) shaped fits a =
      IsShaped-back dir inode shaped refl
  symlink_added-Back call w v symname r ino (some (ok (n, d))) shaped fits
        (d', kind, was, same, sz) =
      if-both (MaybeBack dir inode w) (not (call.mem 2)) {x = some (err enomem, v)}
        (IsShaped-back dir inode shaped refl)
        (commit_entry-Back w _ n _ (IsShaped-inode dir inode _ apart shaped) fits
          (small-change n name sz short))

  mkdir_added-Back :
      (w v : World σ) (r : Result Dentarr) (ino : ℕ) (x : Option (Result (ℕ × Dentarr)))
      → IsShaped dir inode w (w.inodes dir) v
      → (w.inodes dir).i_size < 2 ^ 64
      → (w.inodes dir).i_nlink < 2 ^ 32
      → NameAdded r ino name x
      → MaybeBack dir inode w (mkdir_added k store v dir inode x)
  unfolding mkdir_added
  mkdir_added-Back w v r ino none shaped fits links a = tt
  mkdir_added-Back w v r ino (some (err e)) shaped fits links a =
      IsShaped-back dir inode shaped refl
  mkdir_added-Back w v r ino (some (ok (n, d))) shaped fits links (d', kind, was, same, sz) =
      let inc = λ (i : Inode). record i { i_nlink = k.inc_nlink i.i_nlink } in
      let linked : World σ = at v inode inc in
      let counted : World σ = at linked dir inc in
      let shaped' : IsShaped dir inode w (inc (w.inodes dir)) counted =
        IsShaped-dir dir inode inc (IsShaped-inode dir inode inc apart shaped) in
      undo-Back dir inode w _ _ _ _ (commit-inodes _ _ _)
        (IsShaped-dir dir inode (grow n (counted.inodes inode)) shaped')
        (λ u h.
          IsShaped-back dir inode
            (IsShaped-dir dir inode _
              (IsShaped-dir dir inode (shrink_back n (counted.inodes dir)) h))
            (ap (λ (i : Inode). record i { i_nlink = k.drop_nlink i.i_nlink })
                (grow-back n (counted.inodes inode) (counted.inodes dir) (inc (w.inodes dir))
                  (small-change n name sz short) fits shaped'.here)
              ∙ ap (λ (m : ℕ). record (w.inodes dir) { i_nlink = m })
                  (k.drop-inc (w.inodes dir).i_nlink links)))

  init_inode-IsShaped :
      (call : Call) (w : World σ) (mode : ℕ)
      → IsShaped dir inode w (w.inodes dir) (init_inode k store call w (some dir) inode mode).1
  unfolding init_inode
  init_inode-IsShaped call w mode =
      let fields = init_fields k call (some (w.inodes dir)) mode in
      let shaped : IsShaped dir inode w (w.inodes dir) (at w inode fields) =
        IsShaped-inode dir inode fields apart (refl-IsShaped dir inode w) in
      if-both (λ (out : Result (Unit {0}) × World σ). IsShaped dir inode w (w.inodes dir) out.1)
        (ltb w.bi.next_inum last_inum)
        (IsShaped-inode dir inode _ apart (record { others = shaped.others; here = shaped.here }))
        shaped

  then_run-Back :
      (w : World σ) (out : Result (Unit {0}) × World σ)
      (rest : World σ → Option (Result (Unit {0}) × World σ))
      → IsShaped dir inode w (w.inodes dir) out.1
      → ((v : World σ) → IsShaped dir inode w (w.inodes dir) v → MaybeBack dir inode w (rest v))
      → MaybeBack dir inode w (then_run k store out rest)
  unfolding then_run
  then_run-Back w (ok u, v) rest h f = f v h
  then_run-Back w (err e, v) rest h f = IsShaped-back dir inode h refl

  with_inode-Back :
      (call : Call) (w : World σ) (mode : ℕ) (rest : World σ → Option (Result (Unit {0}) × World σ))
      → ((v : World σ) → IsShaped dir inode w (w.inodes dir) v → MaybeBack dir inode w (rest v))
      → MaybeBack dir inode w (with_inode k store call w dir inode mode rest)
  unfolding with_inode
  with_inode-Back call w mode rest f =
      then_run-Back w (init_inode k store call w (some dir) inode mode) rest
        (init_inode-IsShaped call w mode) f

-- An operation that adds a name and fails leaves every inode as it was but for the one that it
-- creates or links, as long as that is not the directory, the name is shorter than 2^32 bytes, and
-- the size and the link count of the directory have their widths.
pub run-BackUnlessOk :
    (k : Kernel) {σ : Type 0} (store : Ostore σ) (call : Call) (w : World σ) (op : Op)
    (dir inode : ℕ) (name : List ℕ)
    → IsAdding op dir inode name
    → (dir == inode) ≡ false
    → length name < 2 ^ 32
    → (w.inodes dir).i_size < 2 ^ 64
    → (w.inodes dir).i_nlink < 2 ^ 32
    → MaybeBack dir inode w (run k store call w op)
unfolding run fsop_link fsop_create fsop_mkdir fsop_symlink
run-BackUnlessOk k store call w _ dir inode name is_link apart short size links =
    if-both (MaybeBack dir inode w) w.bi.is_ro {x = some (err erofs, w)} (λ q h. refl)
      (link_added-Back k store dir inode apart name short call w _ _ _ size
        (add_name-NameAdded k store call w dir inode name))
run-BackUnlessOk k store call w _ dir inode name is_create apart short size links =
    if-both (MaybeBack dir inode w) w.bi.is_ro {x = some (err erofs, w)} (λ q h. refl)
      (with_inode-Back k store dir inode apart name short call w _ _ (λ v h.
        create_added-Back k store dir inode apart name short w v _ _ _ h size
          (add_name-NameAdded k store call v dir inode name)))
run-BackUnlessOk k store call w _ dir inode name is_mkdir apart short size links =
    if-both (MaybeBack dir inode w) w.bi.is_ro {x = some (err erofs, w)} (λ q h. refl)
      (with_inode-Back k store dir inode apart name short call w _ _ (λ v h.
        mkdir_added-Back k store dir inode apart name short w v _ _ _ h size links
          (add_name-NameAdded k store call v dir inode name)))
run-BackUnlessOk k store call w _ dir inode name (is_symlink {symname = symname}) apart short size
      links =
    if-both (MaybeBack dir inode w) w.bi.is_ro {x = some (err erofs, w)} (λ q h. refl)
      (if-both (MaybeBack dir inode w) _ {x = some (err enametoolong, w)} (λ q h. refl)
        (with_inode-Back k store dir inode apart name short call w _ _ (λ v h.
          symlink_added-Back k store dir inode apart name short call w v symname _ _ _ h size
            (add_name-NameAdded k store call v dir inode name))))
