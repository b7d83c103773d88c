-- ===== src/Tests/Names.antt =====
-- A directory entry array with one name, and a second one.
use cogent.Prelude.{ℕ, ◌<◌, ◌≡◌, true, some, refl, [], ◌∷◌, arith}
use cogent.Types.{ok}
use cogent.Dentarr.Delete.{dentarr_del_dentry}
use cogent.Dentarr.Bytes.{IsPacked}
use cogent.Dentarr.Deleted.{without, buf_without, dentarr_del-Deleted}
use cogent.Dentarr.{Dentry, obj_dentry_size_from_nm, Dentarr, obj_dentarr_size, obj_dentry_size}
use cogent.Dentarr.Names.{IsDentarr}

abbrev one_name : Dentarr
one_name = record {
  id = 5;
  nb_dentry = 1;
  size = 49;
  dentries = record { ino = 25; kind = 0; nlen = 1; name = 97 ∷ [] } ∷ [];
}

abbrev entry : ℕ → Dentry
entry c = record { ino = 25; kind = 0; nlen = 1; name = c ∷ [] }

-- Three names of one byte, the second of which is removed.
abbrev three_names : Dentarr
three_names = record {
  id = 5;
  nb_dentry = 3;
  size = 67;
  dentries = entry 97 ∷ (entry 98 ∷ (entry 99 ∷ []));
}

three_names-IsDentarr : IsDentarr three_names
unfolding obj_dentarr_size obj_dentry_size
three_names-IsDentarr = record { counted = refl; sized = refl }

entry-IsPacked : (c : ℕ) → 0 < c → IsPacked (entry c)
entry-IsPacked c h = record { ino = omega arith; nlen = refl; short = omega arith; name = (h, tt) }

dentarr_del-Deleted_example :
    (dentarr_del_dentry true three_names (98 ∷ [])
      ≡ some (
          ok (
            obj_dentry_size_from_nm (98 ∷ []),
            buf_without three_names (98 ∷ []) (entry 97 ∷ (entry 99 ∷ [])),
          )))
    × IsDentarr (without three_names (98 ∷ []) (entry 97 ∷ (entry 99 ∷ [])))
dentarr_del-Deleted_example =
    dentarr_del-Deleted three_names (98 ∷ []) (entry 97 ∷ []) (entry 99 ∷ []) (entry 98)
      three_names-IsDentarr refl
      (
        entry-IsPacked 97 (omega arith),
        (entry-IsPacked 98 (omega arith), (entry-IsPacked 99 (omega arith), tt)),
      )
      (refl, tt) refl (refl, tt)
