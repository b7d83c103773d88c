-- ===== src/Wbuf.antt =====
-- impl/fs/bilby/c/wbuf.c: the start of a write-buffer, the writing of an object into it, and the
-- reading of a whole erase-block, one page after the other. A result `none` is an assertion that
-- fails. An object's bytes are at least as many as its length says. The flash
-- device is a parameter: `ubi_read lnum offs len` gives the code that it returns and the bytes
-- that it stores in the buffer, also where it fails. The counts and sizes are ints of an
-- erase-block, below 2^31. `wbuf_read_leb_fast` compares the first eight bytes of a page.
pub mod Whole
pub mod Objects
use cogent.Prelude.{
  ℕ, zero, suc, ◌+◌, ◌-◌, ◌/◌, ◌%◌, ◌&&◌, Option, none, some, ltb, Bool, true, false, List, [], ◌∷◌,
  ◌++◌, length, take, drop, ◌==◌, if◌then◌else◌,
}
use cogent.Types.{Super, Result, ok, err, einval}

-- `struct bilbyfs_rbuf`.
pub record Rbuf : Type 0 where
  pub buf : List ℕ
  pub size : ℕ
  pub offs : ℕ

-- `struct bilbyfs_wbuf`.
pub record Wbuf : Type 0 where
  pub buf : List ℕ
  pub size : ℕ
  pub avail : ℕ
  pub used : ℕ
  pub sync_offs : ℕ

-- The buffer with these bytes stored from a position on.
abbrev pub store_bytes : List ℕ → ℕ → List ℕ → List ℕ
store_bytes buf zero bytes = bytes ++ drop (length bytes) buf
store_bytes [] (suc offs) bytes = []
store_bytes (b ∷ buf) (suc offs) bytes = b ∷ store_bytes buf offs bytes

abbrev pub all_ff : List ℕ → Bool
all_ff [] = true
all_ff (b ∷ bytes) = (b == 255) && all_ff bytes

-- The page at this position starts as an erased one.
abbrev pub starts_erased : List ℕ → ℕ → Bool
starts_erased buf offs = all_ff (take 8 (drop offs buf))

-- A read that fails ends the loop.
abbrev pub after_read :
    Result (Unit {0}) → List ℕ → Result (Unit {0}) × List ℕ → Result (Unit {0}) × List ℕ
after_read (err e) buf rest = (err e, buf)
after_read (ok u) buf rest = rest

-- `usable_leb_size` is UBI's field of that name.
unfoldable pub wbuf_start : Super → ℕ → Wbuf → Option Wbuf
wbuf_start super usable_leb_size wbuf =
    if super.leb_size == usable_leb_size
    then some
        (record wbuf { used = 0; sync_offs = 0; avail = super.leb_size; size = super.leb_size })
    else none

unfoldable pub wbuf_write_obj : List ℕ → ℕ → Wbuf → Option (Result (Unit {0}) × Wbuf)
wbuf_write_obj obj objlen wbuf =
    if objlen % 8 == 0
    then some (
        if ltb wbuf.avail objlen then (err einval, wbuf) else (
          ok tt,
          record wbuf {
            buf = store_bytes wbuf.buf wbuf.used (take objlen obj);
            avail = wbuf.avail - objlen;
            used = wbuf.used + objlen;
          },
        ))
    else none

module _ (ubi_read : ℕ → ℕ → ℕ → Result (Unit {0}) × List ℕ) where
  -- The loop of `wbuf_read_leb`, for so many pages.
  unfoldable pub read_pages : ℕ → ℕ → ℕ → ℕ → List ℕ → Result (Unit {0}) × List ℕ
  read_pages zero io_sz lnum offs buf = (ok tt, buf)
  read_pages (suc n) io_sz lnum offs buf =
      let (r, bytes) = ubi_read lnum offs io_sz in
      let buf' = store_bytes buf offs bytes in
      let rest = read_pages n io_sz lnum (offs + io_sz) buf' in after_read r buf' rest

  -- The loop of `wbuf_read_leb_fast`.
  unfoldable pub read_pages_fast : ℕ → ℕ → ℕ → ℕ → List ℕ → Result (Unit {0}) × List ℕ
  read_pages_fast zero io_sz lnum offs buf = (ok tt, buf)
  read_pages_fast (suc n) io_sz lnum offs buf =
      let (r, bytes) = ubi_read lnum offs io_sz in
      let buf' = store_bytes buf offs bytes in
      let rest = read_pages_fast n io_sz lnum (offs + io_sz) buf' in
      after_read r buf' (if starts_erased buf' offs then (ok tt, buf') else rest)

  -- The buffer's own position is reset where no read failed.
  abbrev pub leb_read : Rbuf → Result (Unit {0}) × List ℕ → Result (Unit {0}) × Rbuf
  leb_read rbuf (err e, buf) = (err e, record rbuf { buf = buf })
  leb_read rbuf (ok u, buf) = (ok u, record rbuf { buf = buf; offs = 0 })

  unfoldable pub wbuf_read_leb : Super → ℕ → Rbuf → Option (Result (Unit {0}) × Rbuf)
  wbuf_read_leb super lnum rbuf =
      if rbuf.size == super.leb_size
      then some (
          leb_read rbuf
            (read_pages (super.leb_size / super.min_io_size) super.min_io_size lnum 0 rbuf.buf))
      else none

  unfoldable pub wbuf_read_leb_fast : Super → ℕ → Rbuf → Option (Result (Unit {0}) × Rbuf)
  wbuf_read_leb_fast super lnum rbuf =
      if rbuf.size == super.leb_size
      then some (
          leb_read rbuf (
            read_pages_fast (super.leb_size / super.min_io_size) super.min_io_size lnum 0 rbuf.buf))
      else none
