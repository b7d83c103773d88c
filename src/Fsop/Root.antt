-- ===== src/Fsop/Root.antt =====
-- impl/fs/bilby/c/fsop.c: reading an inode, listing a directory, the size of the file system,
-- synchronisation, and the first objects of an empty flash.
pub mod Space
pub mod Reread
use cogent.Prelude.{
  ℕ, zero, suc, ◌+◌, ◌*◌, ◌/◌, ◌%◌, ◌^◌, Bool, true, false, ◌&&◌, not, List, [], ◌∷◌, Option, none,
  some, ltb, leb, ◌==◌, if◌then◌else◌,
}
use cogent.Types.{Result, ok, err, Errno, enoent, einval, enomem, erofs}
use cogent.Ids.{inode_id_init}
use cogent.Dentarr.{Dentry}
use cogent.Rdx.{FsopReaddirCtx, max_nlen, rdx_init, rdx_clean, rdx_next_dentry}
use cogent.Fsm.{int_to_u64}
use cogent.Store.{Info, ostore_get_free_space, ostore_get_available_space}
use cogent.Pack.{Inode, ObjInode, Object, obj_inode, unpack_obj_inode}
use cogent.Fsop.{
  Kernel, Bi, Ostore, Call, World, root_ino, block_size, at, set_inode_flags, ro_mode, init_inode,
}
use cogent.Fsop.Name.{read_array}
use cogent.Fsop.Attr.{fsop_write_inode}

-- `sizeof(struct obj_inode)`.
abbrev pub inode_sz : ℕ
inode_sz = 96

abbrev pub max_file_sz : ℕ
max_file_sz = 2 ^ 41

unfoldable pub validate_inode : Inode → Result (Unit {0})
validate_inode inode = if ltb max_file_sz inode.i_size then err einval else ok tt

-- The flags of the kernel are set in an inode that is valid.
abbrev pub with_flags : Result (Unit {0}) → Inode → Result (Unit {0}) × Inode
with_flags (err e) inode = (err e, inode)
with_flags (ok u) inode = (ok u, set_inode_flags inode)

-- The answer and the inode, once its object is read.
unfoldable pub inode_read : Inode → ObjInode → Result (Unit {0}) × Inode
inode_read inode ino =
    let read = unpack_obj_inode inode ino in with_flags (validate_inode read) read

-- What `dir_emit` gets, `kind` as the kernel counts it.
pub record Emitted : Type 0 where
  pub name : List ℕ
  pub len : ℕ
  pub ino : ℕ
  pub kind : ℕ

-- What a call of `fsop_readdir` leaves: its answer, where it stands, and what it emitted.
pub record Listing : Type 0 where
  pub answer : Result (Unit {0})
  pub rdx : Option FsopReaddirCtx
  pub pos : ℕ
  pub emitted : List Emitted

unfoldable pub at_end : FsopReaddirCtx → ℕ → Errno → Listing
at_end rdx pos enoent = record { answer = ok tt; rdx = some rdx; pos = 2; emitted = [] }
at_end rdx pos e = record { answer = err e; rdx = some rdx; pos = pos; emitted = [] }

-- The kernel's numbers of the file types.
pub record DentTypes : Type 0 where
  pub dt_reg : ℕ
  pub dt_dir : ℕ
  pub dt_lnk : ℕ
  pub dt_blk : ℕ
  pub dt_chr : ℕ
  pub dt_fifo : ℕ
  pub dt_sock : ℕ

unfoldable pub vfs_dent_type : DentTypes → ℕ → Option ℕ
vfs_dent_type t kind =
    if kind == 0
    then some t.dt_reg
    else if kind == 1
    then some t.dt_dir
    else if kind == 2
    then some t.dt_lnk
    else if kind == 3
    then some t.dt_blk
    else if kind == 4
    then some t.dt_chr
    else if kind == 5
    then some t.dt_fifo
    else if kind == 6
    then some t.dt_sock
    else none

abbrev pub emit : Emitted → Option Listing → Option Listing
emit e none = none
emit e (some listing) = some (record listing { emitted = e ∷ emitted })
  where
    open listing use {emitted}

-- `struct kstatfs`, without the id, which is made of the uuid, and the constants.
pub record Kstatfs : Type 0 where
  pub f_blocks : ℕ
  pub f_bfree : ℕ
  pub f_bavail : ℕ

-- The product is one of `int`. The outcome `none` is a failed assertion.
unfoldable pub fsop_statfs : Info → Option Kstatfs
fsop_statfs info =
    let f_blocks = int_to_u64 (info.super.leb_size * info.super.leb_cnt) / block_size in
    let f_bfree = ostore_get_free_space info / block_size in
    let f_bavail = ostore_get_available_space info / block_size in
    if leb f_bfree f_blocks && leb f_bavail f_bfree
    then some (record { f_blocks = f_blocks; f_bfree = f_bfree; f_bavail = f_bavail })
    else none

module _ (k : Kernel) {σ : Type 0} (store : Ostore σ) where
  -- Any error but that of the validation makes the file system read-only.
  unfoldable pub with_object : World σ → ℕ → Result Object → Result (Unit {0}) × World σ
  with_object w inode (err e) = (err e, record w { bi = ro_mode w.bi })
  with_object w inode (ok (obj_inode ino)) =
      let (r, read) = inode_read (w.inodes inode) ino in (r, at w inode (λ i. read))
  with_object w inode (ok other_object) = (err einval, w)

  unfoldable pub fsop_iget : World σ → ℕ → ℕ → Result (Unit {0}) × World σ
  fsop_iget w inum inode = with_object w inode (store.read_obj w.bi (inode_id_init inum) inode_sz)

  -- The kernel has room for so many entries. One for which it has none is not given back.
  unfoldable pub readdir_loop :
      DentTypes → ℕ → ℕ → Call → World σ → ℕ → ℕ → FsopReaddirCtx → Option Listing
  readdir_loop t fuel zero call w pos room rdx = none
  readdir_loop t fuel (suc rounds) call w pos room rdx =
      elim (rdx_next_dentry (call.mem 0) (read_array k store w) w.bi.ostore fuel rdx) [
        | none ↦ none
        | some (r, rdx') ↦ elim r [
          | err e ↦ some (at_end rdx' pos e)
          | ok des ↦ elim des [
            | [] ↦ none
            | de ∷ rest ↦ elim (vfs_dent_type t de.kind) [
              | none ↦ none
              | some kind ↦ elim room [
                | zero ↦
                    some (record { answer = ok tt; rdx = some rdx'; pos = pos + 1; emitted = [] })
                | suc room' ↦
                    emit (record { name = de.name; len = de.nlen; ino = de.ino; kind = kind })
                      (readdir_loop t fuel rounds call w (pos + 1) room' rdx')
              ]
            ]
          ]
        ]
      ]

  unfoldable pub fsop_readdir :
      DentTypes → ℕ → ℕ → Call → World σ → ℕ → ℕ → ℕ → Option FsopReaddirCtx → Option Listing
  fsop_readdir t fuel rounds call w dir pos room (some rdx) =
      readdir_loop t fuel rounds call w pos room rdx
  fsop_readdir t fuel rounds call w dir pos room none =
      if not (call.mem 2)
      then some (record { answer = err enomem; rdx = none; pos = pos; emitted = [] })
      else readdir_loop t fuel rounds call w pos room (rdx_init (w.inodes dir).i_ino)

  -- The super block's write comes as a function.
  unfoldable pub fsop_format_default :
      (Bi σ → Result (Unit {0}) × Bi σ) → Call → World σ → ℕ → ℕ → Result (Unit {0}) × World σ
  fsop_format_default write_super call w root mode =
      if w.bi.is_ro
      then (err erofs, w)
      else (let (r, w') = init_inode k store call w none root mode in
          elim r [
            | err e ↦ (err e, w')
            | ok u ↦
                let (r', bi) = write_super w'.bi in
                elim r' [
                  | err e ↦ (err e, record w' { bi = bi })
                  | ok u' ↦ fsop_write_inode k store (record w' { bi = bi }) root
                ]
          ])

  -- The synchronisations of the object store and of the flash come as functions.
  unfoldable pub fsop_sync_fs :
      (Bi σ → Result (Unit {0}) × Bi σ)
      → (Bi σ → Result (Unit {0}) × Bi σ)
      → World σ
      → Bool
      → Result (Unit {0}) × World σ
  fsop_sync_fs ostore_sync ubi_sync w wait =
      if not wait
      then (ok tt, w)
      else (let (r, bi) = ostore_sync w.bi in
          elim r [
            | err e ↦ (err e, record w { bi = bi })
            | ok u ↦ (let (r', bi') = ubi_sync bi in (r', record w { bi = bi' }))
          ])
