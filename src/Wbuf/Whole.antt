-- ===== src/Wbuf/Whole.antt =====
-- `wbuf_read_leb` of impl/fs/bilby/c/wbuf.c against one read of the whole erase-block.
use cogent.Prelude.{
  ℕ, zero, suc, ◌∙◌, ◌+◌, ◌*◌, ◌/◌, ◌≤◌, ◌≡◌, refl, sym, ap, arith, List, [], ◌∷◌, ◌++◌, length,
  length-append, length-take, length-drop, take, drop, some, append-nil, zero_add, suc_add,
  take-add, drop-add, take_all, drop_all, ==_iff,
}
use cogent.Types.{Super, Result, ok}
use cogent.Wbuf.{Rbuf, store_bytes, read_pages, wbuf_read_leb}

-- The device reads an erase-block with these contents, at every position.
abbrev pub Holds : (ℕ → ℕ → ℕ → Result (Unit {0}) × List ℕ) → ℕ → List ℕ → Type 0
Holds ubi_read lnum leb =
    (offs len : ℕ)
    → offs + len ≤ length leb
    → ubi_read lnum offs len ≡ (ok tt, take len (drop offs leb))

zero_mul : (m : ℕ) → 0 * m ≡ 0
zero_mul m = omega arith

store_bytes-behind :
    (buf a b : List ℕ)
    → length a ≤ length buf
    → store_bytes (a ++ drop (length a) buf) (length a) b ≡ (a ++ b) ++ drop (length (a ++ b)) buf
store_bytes-behind buf [] b h = refl
store_bytes-behind [] (x ∷ a) b h = absurd (omega arith)
store_bytes-behind (y ∷ buf) (x ∷ a) b h =
    ap (λ (r : List ℕ). x ∷ r) (store_bytes-behind buf a b (omega arith))

store_bytes-store_bytes :
    (buf : List ℕ) (offs : ℕ) (a b : List ℕ)
    → offs + length a ≤ length buf
    → store_bytes (store_bytes buf offs a) (offs + length a) b ≡ store_bytes buf offs (a ++ b)
store_bytes-store_bytes buf zero a b h =
    rw (zero_add (length a)) (store_bytes-behind buf a b (omega arith))
store_bytes-store_bytes [] (suc offs) a b h = absurd (omega arith)
store_bytes-store_bytes (x ∷ buf) (suc offs) a b h =
    rw (suc_add offs (length a))
      (ap (λ (r : List ℕ). x ∷ r) (store_bytes-store_bytes buf offs a b (omega arith)))

pub length-store_bytes :
    (buf : List ℕ) (offs : ℕ) (a : List ℕ)
    → offs + length a ≤ length buf
    → length (store_bytes buf offs a) ≡ length buf
length-store_bytes buf zero a h =
    omega (arith, length-append a (drop (length a) buf), length-drop (length a) buf)
length-store_bytes [] (suc offs) a h = absurd (omega arith)
length-store_bytes (x ∷ buf) (suc offs) a h = ap suc (length-store_bytes buf offs a (omega arith))

store_bytes_nothing : (buf : List ℕ) (offs : ℕ) → store_bytes buf offs [] ≡ buf
store_bytes_nothing buf zero = refl
store_bytes_nothing [] (suc offs) = refl
store_bytes_nothing (x ∷ buf) (suc offs) = ap (λ (r : List ℕ). x ∷ r) (store_bytes_nothing buf offs)

suc_mul : (n m : ℕ) → suc n * m ≡ m + n * m
suc_mul n m = omega arith

length-page :
    (leb : List ℕ) (offs n : ℕ) → offs + n ≤ length leb → length (take n (drop offs leb)) ≡ n
length-page leb offs n h = omega (arith, length-take n (drop offs leb), length-drop offs leb)

-- A page and the stretch behind it are one stretch.
joined :
    (leb buf : List ℕ) (offs n m : ℕ)
    → offs + n ≤ length leb
    → length buf ≡ length leb
    → store_bytes
        (store_bytes buf offs (take n (drop offs leb)))
        (offs + n)
        (take m (drop (offs + n) leb))
      ≡ store_bytes buf offs (take (n + m) (drop offs leb))
joined leb buf offs n m fits same =
    rw (take-add n m (drop offs leb), sym (drop-add offs n leb))
      (ap
          (λ (k : ℕ).
            store_bytes (store_bytes buf offs (take n (drop offs leb))) (offs + k)
              (take m (drop (offs + n) leb)))
          (sym (length-page leb offs n fits))
        ∙ store_bytes-store_bytes buf offs (take n (drop offs leb)) (take m (drop (offs + n) leb))
            (omega (arith, length-page leb offs n fits)))

-- The pages that are read one after the other are one stretch of the block.
stretch :
    (ubi_read : ℕ → ℕ → ℕ → Result (Unit {0}) × List ℕ) (n io_sz lnum offs : ℕ) (leb buf : List ℕ)
    → Holds ubi_read lnum leb
    → offs + n * io_sz ≤ length leb
    → length buf ≡ length leb
    → read_pages ubi_read n io_sz lnum offs buf
      ≡ (ok tt, store_bytes buf offs (take (n * io_sz) (drop offs leb)))
unfolding read_pages
stretch ubi_read zero io_sz lnum offs leb buf holds fits same =
    rw (zero_mul io_sz, store_bytes_nothing buf offs)
stretch ubi_read (suc n) io_sz lnum offs leb buf holds fits same =
    rw (holds offs io_sz (omega (arith, suc_mul n io_sz)), suc_mul n io_sz)
      (stretch ubi_read n io_sz lnum (offs + io_sz) leb
          (store_bytes buf offs (take io_sz (drop offs leb))) holds (omega (arith, suc_mul n io_sz))
          (length-store_bytes buf offs (take io_sz (drop offs leb)) (
              omega (
                arith,
                suc_mul n io_sz,
                length-page leb offs io_sz (omega (arith, suc_mul n io_sz)),
              ))
            ∙ same)
        ∙ ap (λ (b : List ℕ). (ok tt, b))
            (joined leb buf offs io_sz (n * io_sz) (omega (arith, suc_mul n io_sz)) same))

-- Where the device holds an erase-block of whole pages, and the read buffer has its size, by
-- its field too, `wbuf_read_leb` passes its assertion, reads one page after the other and leaves what one read of the whole erase-block
-- gives: the buffer is the erase-block, and its position is 0.
pub wbuf_read_leb-Whole :
    (ubi_read : ℕ → ℕ → ℕ → Result (Unit {0}) × List ℕ) (super : Super) (lnum : ℕ) (rbuf : Rbuf)
    (leb : List ℕ)
    → Holds ubi_read lnum leb
    → length leb ≡ super.leb_size
    → rbuf.size ≡ super.leb_size
    → length rbuf.buf ≡ super.leb_size
    → super.leb_size / super.min_io_size * super.min_io_size ≡ super.leb_size
    → wbuf_read_leb ubi_read super lnum rbuf
      ≡ some (
        (ubi_read lnum 0 super.leb_size).0,
        record rbuf { buf = (ubi_read lnum 0 super.leb_size).1; offs = 0 },
      )
unfolding wbuf_read_leb
wbuf_read_leb-Whole ubi_read super lnum rbuf leb holds whole sized same pages = rw (
  (==_iff rbuf.size super.leb_size).1 sized,
  holds 0 super.leb_size (omega arith),
  stretch ubi_read (super.leb_size / super.min_io_size) super.min_io_size lnum 0 leb rbuf.buf holds
      (omega (arith, pages)) (same ∙ sym whole),
  pages,
  take_all super.leb_size leb (omega arith),
  drop_all (length leb) rbuf.buf (omega arith),
  append-nil leb,
)
