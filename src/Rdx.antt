-- ===== src/Rdx.antt =====
-- impl/fs/bilby/c/rdx.c: listing a directory, one directory entry array after the other, and the
-- reading of an array in dentarr.c. What `ostore_read_obj` puts into the buffer for an id is given
-- by `read`. A pointer to an entry is the list from that entry on, and NULL is the empty list.
use cogent.Prelude.{
  ℕ, zero, suc, ◌+◌, ◌*◌, Bool, true, false, not, ◌||◌, List, [], ◌∷◌, Option, none, some, ltb,
  ◌==◌, if◌then◌else◌,
}
use cogent.Types.{Result, ok, err, enoent, enomem, einval}
use cogent.Ids.{nil_id, inode_id_init, is_dentarr_id}
use cogent.Dentarr.{
  Dentry, Dentarr, dentarr_sz, dentry_sz, max_dentarr_entries, dentarr_first_dentry,
  dentarr_next_dentry,
}
use cogent.Store.{Info, ostore_next_obj_id}

abbrev pub max_nlen : ℕ
max_nlen = 255

abbrev pub max_dentarr_sz : ℕ
max_dentarr_sz = dentarr_sz + max_dentarr_entries * (dentry_sz + max_nlen + 1)

-- The buffer granted or not, and what was read into it.
unfoldable pub dentarr_read : Bool → Result Dentarr → Result Dentarr
dentarr_read granted (err e) = if granted then err e else err enomem
dentarr_read granted (ok dentarr) =
    if not granted
    then err enomem
    else if ltb max_dentarr_entries dentarr.nb_dentry || ltb max_dentarr_sz dentarr.size
    then err einval
    else ok dentarr

unfoldable pub create_dentarr : Bool → ℕ → Result Dentarr → Result Dentarr
create_dentarr granted id (ok dentarr) = ok dentarr
create_dentarr granted id (err enoent) =
    if granted
    then ok (record { id = id; nb_dentry = 0; size = dentarr_sz; dentries = [] })
    else err enomem
create_dentarr granted id (err e) = err e

unfoldable pub dentarr_read_or_create : Bool → Bool → ℕ → Result Dentarr → Result Dentarr
unfolding dentarr_read create_dentarr
dentarr_read_or_create granted granted' id r = create_dentarr granted' id (dentarr_read granted r)

-- `struct fsop_readdir_ctx`.
pub record FsopReaddirCtx : Type 0 where
  pub id : ℕ
  pub dentarr : Option Dentarr
  pub de : List Dentry

unfoldable pub rdx_init : ℕ → FsopReaddirCtx
rdx_init ino = record { id = inode_id_init ino; dentarr = none; de = [] }

unfoldable pub rdx_clean : FsopReaddirCtx → FsopReaddirCtx
rdx_clean rdx = record { id = nil_id; dentarr = none; de = [] }

-- The entry that is found, `rdx->de` set to it or to NULL.
abbrev pub set_de : Result (List Dentry) → FsopReaddirCtx → Result (List Dentry) × FsopReaddirCtx
set_de (err e) rdx = (err e, record rdx { de = [] })
set_de (ok des) rdx = (ok des, record rdx { de = des })

module _ (granted : Bool) (read : ℕ → Result Dentarr) (info : Info) where
  -- The loop goes on to a greater id in each round; a fuel that runs out gives `none`.
  unfoldable pub next_dentarr_dentry :
      ℕ → FsopReaddirCtx → Option (Result (List Dentry) × FsopReaddirCtx)
  next_dentarr_dentry zero rdx = none
  next_dentarr_dentry (suc fuel) rdx =
      let id = ostore_next_obj_id info rdx.id in
      let rdx' : FsopReaddirCtx = record rdx { id = id; dentarr = none } in
      elim (not (is_dentarr_id id) || (id == nil_id)) [
        | true ↦ some (err enoent, rdx')
        | false ↦ elim (dentarr_read granted (read id)) [
          | err e ↦ some (err e, rdx')
          | ok dentarr ↦ elim (dentarr_first_dentry dentarr) [
            | [] ↦ next_dentarr_dentry fuel (record rdx' { dentarr = some dentarr })
            | de ∷ des ↦ some (ok (de ∷ des), record rdx' { dentarr = some dentarr })
          ]
        ]
      ]

  -- Goes on to the next array.
  unfoldable pub next_array : ℕ → FsopReaddirCtx → Option (Result (List Dentry) × FsopReaddirCtx)
  unfolding next_dentarr_dentry
  next_array fuel rdx = elim (next_dentarr_dentry fuel rdx) [
    | none ↦ none
    | some (r, rdx') ↦ some (set_de r rdx')
  ]

  unfoldable pub rdx_next_dentry :
      ℕ → FsopReaddirCtx → Option (Result (List Dentry) × FsopReaddirCtx)
  unfolding next_array
  rdx_next_dentry fuel rdx = elim rdx.dentarr [
    | none ↦ next_array fuel rdx
    | some dentarr ↦ elim (dentarr_next_dentry rdx.de) [
      | [] ↦ next_array fuel (record rdx { de = [] })
      | de ∷ des ↦ some (ok (de ∷ des), record rdx { de = de ∷ des })
    ]
  ]
