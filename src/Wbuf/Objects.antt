-- ===== src/Wbuf/Objects.antt =====
-- `wbuf_write_obj` of impl/fs/bilby/c/wbuf.c: the used part of a write-buffer is the
-- objects that were written, one behind the other.
use cogent.Prelude.{
  ℕ, zero, suc, ◌+◌, ◌-◌, ◌%◌, ◌≤◌, ◌<◌, ◌≡◌, ◌∙◌, refl, sym, ap, arith, List, [], ◌∷◌, ◌++◌,
  length, ltb, length-take, take, drop, Option, some, zero_add, suc_add, take-append_left, ==_iff,
  if-cases, ltb→lt,
}
use cogent.Types.{Result, ok, err, einval}
use cogent.Wbuf.{Wbuf, store_bytes, wbuf_write_obj}
use cogent.Wbuf.Whole.{length-store_bytes}

-- The counters of a write-buffer fit its size, and what is on the flash has been used.
pub record IsWbuf (wbuf : Wbuf) : Type 0 where
  pub whole : length wbuf.buf ≡ wbuf.size
  pub counted : wbuf.used + wbuf.avail ≡ wbuf.size
  pub synced : wbuf.sync_offs ≤ wbuf.used

abbrev pub used_bytes : Wbuf → List ℕ
used_bytes wbuf = take wbuf.used wbuf.buf

-- Either the object does not fit, and nothing is changed, or its bytes are behind the used ones.
pub data Written (obj : List ℕ) (objlen : ℕ) (wbuf : Wbuf)
    : Option (Result (Unit {0}) × Wbuf) → Type 0 where
  full : wbuf.avail < objlen → Written obj objlen wbuf (some (err einval, wbuf))
  behind :
      (written : Wbuf)
      → objlen ≤ wbuf.avail
      → IsWbuf written
      → used_bytes written ≡ used_bytes wbuf ++ take objlen obj
      → written.sync_offs ≡ wbuf.sync_offs
      → Written obj objlen wbuf (some (ok tt, written))

take-store_bytes :
    (buf : List ℕ) (offs : ℕ) (a : List ℕ)
    → offs + length a ≤ length buf
    → take (offs + length a) (store_bytes buf offs a) ≡ take offs buf ++ a
take-store_bytes buf zero a h =
    rw (zero_add (length a)) (take-append_left (length a) a (drop (length a) buf) refl)
take-store_bytes [] (suc offs) a h = absurd (omega arith)
take-store_bytes (x ∷ buf) (suc offs) a h =
    rw (suc_add offs (length a))
      (ap (λ (r : List ℕ). x ∷ r) (take-store_bytes buf offs a (omega arith)))

length-object :
    (obj : List ℕ) (objlen : ℕ) → objlen ≤ length obj → length (take objlen obj) ≡ objlen
length-object obj objlen h = omega (arith, length-take objlen obj)

fitting-Written :
    (obj : List ℕ) (objlen : ℕ) (wbuf : Wbuf)
    → IsWbuf wbuf
    → objlen ≤ length obj
    → objlen ≤ wbuf.avail
    → Written obj objlen wbuf (
        some (
          ok tt,
          record wbuf {
            buf = store_bytes wbuf.buf wbuf.used (take objlen obj);
            avail = wbuf.avail - objlen;
            used = wbuf.used + objlen;
          },
        ))
fitting-Written obj objlen wbuf h long fits =
    let n = length-object obj objlen long in
    let room : wbuf.used + length (take objlen obj) ≤ length wbuf.buf =
      omega (arith, n, h.whole, h.counted) in
    behind _ fits
      record {
        whole = length-store_bytes wbuf.buf wbuf.used (take objlen obj) room ∙ h.whole;
        counted = omega (arith, h.counted);
        synced = omega (arith, h.synced);
      }
      (ap (λ (k : ℕ). take (wbuf.used + k) (store_bytes wbuf.buf wbuf.used (take objlen obj)))
          (sym n)
        ∙ take-store_bytes wbuf.buf wbuf.used (take objlen obj) room)
      refl

-- Where the counters of the write-buffer fit its size, and the length of the object is a multiple of
-- 8 and at most that of its bytes, `wbuf_write_obj` passes its assertion. An object that is longer
-- than the room left gives EINVAL and changes nothing. Any other is put behind the bytes that were
-- used, which stay as they were, the counters still fit, and nothing more counts as synchronised.
pub wbuf_write_obj-Written :
    (obj : List ℕ) (objlen : ℕ) (wbuf : Wbuf)
    → IsWbuf wbuf
    → objlen ≤ length obj
    → objlen % 8 ≡ 0
    → Written obj objlen wbuf (wbuf_write_obj obj objlen wbuf)
unfolding wbuf_write_obj
wbuf_write_obj-Written obj objlen wbuf h long padded = rw ((==_iff (objlen % 8) 0).1 padded) (
    if-cases (λ x. Written obj objlen wbuf (some x)) (ltb wbuf.avail objlen)
      (λ small. full (ltb→lt wbuf.avail objlen small))
      (λ fits. fitting-Written obj objlen wbuf h long (ground arith)))
