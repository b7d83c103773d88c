-- ===== src/Fsop/Name/Found.antt =====
-- A name that was linked is looked up.
use cogent.Prelude.{
  ℕ, ◌+◌, ◌≤◌, ◌<◌, ◌≡◌, refl, List, [], ◌∷◌, Option, none, some, Option-cases, inl, inr,
}
use cogent.Types.{Result, ok, err, enoent, osw_none, Result-cases}
use cogent.Dentarr.{
  Dentarr, max_dentarr_entries, obj_dentarr_size, dentarr_lookup_nm, dentarr_add_dentry,
  inode_mode_to_dent_type, obj_dentry_size_from_nm,
}
use cogent.Dentarr.Names.{IsDentarr, added}
use cogent.Rdx.{max_dentarr_sz}
use cogent.Pack.{Inode, obj_dentarr, pack_obj_inode}
use cogent.Fsop.{Kernel, Ostore, Call, World}
use cogent.Fsop.Name.{array_for, add_name, added_result}

-- An array that a name can be added to: the one for it, with its count and size right, and with
-- room for one more entry in the buffer that it is read into.
pub record HasRoom (id : ℕ) (name : List ℕ) (dentarr : Dentarr) : Type 0 where
  pub id_same : dentarr.id ≡ id
  pub right : IsDentarr dentarr
  pub entries : dentarr.nb_dentry < max_dentarr_entries
  pub bytes : obj_dentarr_size dentarr + obj_dentry_size_from_nm name ≤ max_dentarr_sz
  pub absent : dentarr_lookup_nm dentarr name ≡ err enoent

-- What is added is an entry of some kind.
abbrev AddedTo : Dentarr → ℕ → List ℕ → Option (ℕ × Dentarr) → Type 0
AddedTo dentarr ino name none = Unit
AddedTo dentarr ino name (some (n, out)) =
    (kind : ℕ) × (out ≡ added dentarr ino kind name) × (n ≡ obj_dentry_size_from_nm name)

add_dentry-AddedTo :
    (k : Kernel) (dentarr : Dentarr) (ino mode : ℕ) (name : List ℕ)
    → AddedTo dentarr ino name (dentarr_add_dentry k.modes dentarr ino mode name)
unfolding dentarr_add_dentry
add_dentry-AddedTo k dentarr ino mode name =
    elim (Option-cases (inode_mode_to_dent_type k.modes mode)) [
      | inl e ↦ rw (e, AddedTo) tt
      | inr (kind, e) ↦ rw (e, AddedTo) (kind, refl, refl)
    ]

-- What an addition by `add_name` says.
abbrev pub NameAdded : Result Dentarr → ℕ → List ℕ → Option (Result (ℕ × Dentarr)) → Type 0
NameAdded r ino name none = Unit
NameAdded r ino name (some (err e)) = Unit
NameAdded r ino name (some (ok (n, out))) =
    (dentarr : Dentarr) × (kind : ℕ) × (r ≡ ok dentarr)
    × (out ≡ added dentarr ino kind name)
    × (n ≡ obj_dentry_size_from_nm name)

with_array :
    (r : Result Dentarr) (dentarr : Dentarr) (ino : ℕ) (name : List ℕ) (x : Option (ℕ × Dentarr))
    → r ≡ ok dentarr
    → AddedTo dentarr ino name x
    → NameAdded r ino name (added_result x)
with_array r dentarr ino name none e h = tt
with_array r dentarr ino name (some (n, out)) e (kind, same, sz) = (dentarr, kind, e, same, sz)

module _ (k : Kernel) {σ : Type 0} (store : Ostore σ) where
  pub add_name-NameAdded :
      (call : Call) (w : World σ) (dir inode : ℕ) (name : List ℕ)
      → NameAdded
          (array_for k store call w dir name)
          (w.inodes inode).i_ino
          name
          (add_name k store call w dir inode name)
  unfolding add_name
  add_name-NameAdded call w dir inode name =
      elim (Result-cases (array_for k store call w dir name)) [
        | inl (d, e) ↦
            rw (e, NameAdded)
              (with_array (array_for k store call w dir name) d (w.inodes inode).i_ino name _ e
                (add_dentry-AddedTo k d (w.inodes inode).i_ino (w.inodes inode).i_mode name))
        | inr (x, e) ↦ rw (e, NameAdded) tt
      ]

  -- What `link_added` says where it succeeds.
  record IsLinked (w v : World σ) (dir inode : ℕ) (x : Option (Result (ℕ × Dentarr))) : Type 0 where
    change : ℕ
    dentarr : Dentarr
    was : x ≡ some (ok (change, dentarr))
    dir_ino : (v.inodes dir).i_ino ≡ (w.inodes dir).i_ino
    i : Inode
    j : Inode
    wrote :
        store.write_obj_list w.bi
          (obj_dentarr dentarr ∷ (pack_obj_inode i ∷ (pack_obj_inode j ∷ [])))
          osw_none
        ≡ (ok tt, v.bi)
