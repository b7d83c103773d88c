-- ===== src/Fsop/Page.antt =====
-- impl/fs/bilby/c/fsop.c: reading and writing a page of a file. PAGE_SIZE is the size of a block,
-- as the code asserts. A page is the list of its bytes; sizes are below 2^63, where `loff_t` and
-- its unsigned counterpart agree; the position and the length of a write, with their sum, are below
-- 2^31, as the `int`s of the code.
pub mod Written
use cogent.Prelude.{
  ℕ, ◌+◌, ◌-◌, ◌/◌, ◌%◌, ◌^◌, Bool, ◌&&◌, List, [], ◌∷◌, ◌++◌, Option, none, some, take, replicate,
  ltb, ◌==◌, if◌then◌else◌,
}
use cogent.Types.{Result, ok, err, Errno, enoent, einval, erofs, osw_none}
use cogent.Ids.{data_id_init}
use cogent.Pack.{Inode, ObjData, Object, obj_data, pack_obj_inode, pack_obj_data}
use cogent.Fsop.{Kernel, Ostore, Call, World, block_size, at, or_undo, write_objects}
use cogent.Fsop.Name.{max_data_sz}

abbrev pub zero_page : List ℕ
zero_page = replicate block_size 0

-- What a read of a data block leaves in the page. No data id leads to an object of another type.
unfoldable pub fill_page : List ℕ → Result Object → Result (Unit {0}) × List ℕ
fill_page page (err enoent) = (ok tt, replicate block_size 0)
fill_page page (err e) = (err e, page)
fill_page page (ok (obj_data odata)) =
    if ltb block_size odata.size
    then (err einval, page)
    else (ok tt, take odata.size odata.bytes ++ replicate (block_size - odata.size) 0)
fill_page page (ok other_object) = (err einval, page)

-- A page behind the end of the file is no error of `fsop_write_begin`.
abbrev pub allow_hole : Result (Unit {0}) × List ℕ → Result (Unit {0}) × List ℕ
allow_hole (err enoent, page) = (ok tt, page)
allow_hole (r, page) = (r, page)

module _ (k : Kernel) {σ : Type 0} (store : Ostore σ) where
  unfoldable pub read_block : World σ → ℕ → List ℕ → ℕ → Result (Unit {0}) × List ℕ
  read_block w inode page block =
      fill_page page (store.read_obj w.bi (data_id_init (w.inodes inode).i_ino block) max_data_sz)

  -- At the end of a file of whole blocks the page is left as it is.
  unfoldable pub fsop_readpage : World σ → ℕ → ℕ → List ℕ → Result (Unit {0}) × List ℕ
  fsop_readpage w inode block page =
      let limit = (w.inodes inode).i_size / block_size in
      if ltb limit block
      then (err enoent, replicate block_size 0)
      else if (block == limit) && ((w.inodes inode).i_size % block_size == 0)
      then (ok tt, page)
      else read_block w inode page block

  -- The outcome `none` is the failed assertion on the length.
  unfoldable pub fsop_write_begin :
      World σ → ℕ → ℕ → ℕ → List ℕ → Option (Result (Unit {0}) × List ℕ)
  fsop_write_begin w inode pos len page =
      if w.bi.is_ro
      then some (err erofs, page)
      else if ltb block_size len
      then none
      else some (allow_hole (fsop_readpage w inode (pos / block_size) page))

  -- `inode_size` has 32 bits.
  unfoldable pub fsop_write_end : Call → World σ → ℕ → ℕ → ℕ → List ℕ → Result (Unit {0}) × World σ
  fsop_write_end call w inode pos len page =
      let last = pos % block_size + len in
      let old = w.inodes inode in
      let inode_size = old.i_size % 2 ^ 32 in
      let sized = at w inode (λ i. record i {
        i_size = if ltb inode_size (pos + len) then pos + len else i.i_size;
        i_mtime = call.now;
      }) in
      if w.bi.is_ro
      then (err erofs, w)
      else or_undo
          (λ w'. at w' inode (λ i. record i { i_mtime = old.i_mtime; i_size = inode_size }))
          (write_objects k store sized
            (pack_obj_inode (sized.inodes inode)
              ∷ (pack_obj_data (data_id_init old.i_ino (pos / block_size)) (take last page) ∷ []))
            osw_none)

  -- The path of a link is at most a block long.
  unfoldable pub fsop_follow_link : World σ → ℕ → List ℕ → Result (Unit {0}) × List ℕ
  fsop_follow_link w inode path = read_block w inode path 0
