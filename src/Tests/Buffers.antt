-- ===== src/Tests/Buffers.antt =====
-- The theorems on the buffers at a write-buffer of 16 bytes, and on an erase-block of two pages.
use cogent.Prelude.{ℕ, ◌≡◌, refl, arith, List, [], ◌∷◌, take, drop, some}
use cogent.Types.{Super, Result, ok}
use cogent.Wbuf.{Rbuf, Wbuf, wbuf_write_obj, wbuf_read_leb}
use cogent.Wbuf.Objects.{IsWbuf, Written, wbuf_write_obj-Written}
use cogent.Wbuf.Whole.{wbuf_read_leb-Whole}

abbrev half_full : Wbuf
half_full = record {
  buf =
      1
      ∷ (2
          ∷ (3 ∷ (4 ∷ (5 ∷ (6 ∷ (7 ∷ (8 ∷ (0 ∷ (0 ∷ (0 ∷ (0 ∷ (0 ∷ (0 ∷ (0 ∷ (0 ∷ [])))))))))))))));
  size = 16;
  avail = 8;
  used = 8;
  sync_offs = 0;
}

half_full-IsWbuf : IsWbuf half_full
half_full-IsWbuf = record { whole = refl; counted = refl; synced = omega arith }

abbrev eight : List ℕ
eight = 9 ∷ (9 ∷ (9 ∷ (9 ∷ (9 ∷ (9 ∷ (9 ∷ (9 ∷ [])))))))

wbuf_write_obj-Written_example : Written eight 8 half_full (wbuf_write_obj eight 8 half_full)
wbuf_write_obj-Written_example =
    wbuf_write_obj-Written eight 8 half_full half_full-IsWbuf (omega arith) refl

abbrev two_pages : Super
two_pages = record {
  sqnum = 1;
  leb_cnt = 8;
  leb_size = 8;
  nb_reserved_gc = 1;
  nb_reserved_del = 1;
  min_io_size = 4;
  max_io_size = 4;
  log_lnum = 3;
  log_offs = 0;
  last_inum = 24;
}

abbrev block : List ℕ
block = 1 ∷ (2 ∷ (3 ∷ (4 ∷ (5 ∷ (6 ∷ (7 ∷ (8 ∷ [])))))))

abbrev read_block : ℕ → ℕ → ℕ → Result (Unit {0}) × List ℕ
read_block lnum offs len = (ok tt, take len (drop offs block))

abbrev dirty_buffer : Rbuf
dirty_buffer = record { buf = eight; size = 8; offs = 4 }

wbuf_read_leb-Whole_example :
    wbuf_read_leb read_block two_pages 3 dirty_buffer
    ≡ some (ok tt, record dirty_buffer { buf = block; offs = 0 })
wbuf_read_leb-Whole_example =
    wbuf_read_leb-Whole read_block two_pages 3 dirty_buffer block (λ offs len h. refl) refl refl
      refl refl
