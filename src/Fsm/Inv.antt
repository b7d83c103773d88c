-- ===== src/Fsm/Inv.antt =====
-- The invariant of the free-space manager: the count of free blocks is right, free blocks hold no
-- garbage, and the blocks below the log are never in use.
use cogent.Prelude.{
  ℕ, zero, suc, ◌+◌, ◌^◌, ◌≤◌, ◌<◌, ◌≡◌, refl, ap, ◌∙◌, Bool, true, false, List, [], ◌∷◌, some,
  arith, length, get_or, set, replicate, length-set, length-replicate, ◌==◌, if◌then◌else◌,
}
use cogent.Types.{ObjAddr, Super, Fsm, ok, log_fst_lnum, add32}
use cogent.Fsm.{
  fsm_init, fsm_mark_used, fsm_mark_dirty, fsm_mark_erased, used_fsm, dirty_fsm, erased_fsm,
  is_used, dirt,
}

-- The number of blocks in use.
abbrev pub used_count : List Bool → ℕ
used_count [] = 0
used_count (true ∷ used) = suc (used_count used)
used_count (false ∷ used) = used_count used

pub record IsFsm (sup : Super) (fsm : Fsm) : Type 0 where
  pub fits : sup.leb_cnt < 2 ^ 31
  pub used_len : length fsm.used_leb_list ≡ sup.leb_cnt
  pub dirty_len : length fsm.dirty_list ≡ sup.leb_cnt
  pub counted : fsm.fsm_nb_free_eb + used_count fsm.used_leb_list ≡ sup.leb_cnt
  pub clean : (i : ℕ) → is_used fsm i ≡ false → dirt fsm i ≡ 0
  pub reserved : (i : ℕ) → i < log_fst_lnum → is_used fsm i ≡ false

module _ {A : Type 0} where
  pub get_or-set :
      (xs : List A) (i j : ℕ) (v d : A)
      → i < length xs
      → get_or (set xs i v) j d ≡ (if i == j then v else get_or xs j d)
  get_or-set [] i j v d h = absurd (omega arith)
  get_or-set (x ∷ xs) zero zero v d h = ground arith
  get_or-set (x ∷ xs) zero (suc j) v d h = ground arith
  get_or-set (x ∷ xs) (suc i) zero v d h = ground arith
  get_or-set (x ∷ xs) (suc i) (suc j) v d h = ground (arith, get_or-set xs i j v d)

  pub get_or-replicate : (n i : ℕ) (v : A) → get_or (replicate n v) i v ≡ v
  get_or-replicate zero i v = refl
  get_or-replicate (suc n) zero v = refl
  get_or-replicate (suc n) (suc i) v = get_or-replicate n i v

used_count-replicate : (n : ℕ) → used_count (replicate n false) ≡ 0
used_count-replicate zero = refl
used_count-replicate (suc n) = used_count-replicate n

pub used_count-mark :
    (used : List Bool) (i : ℕ)
    → i < length used
    → get_or used i false ≡ false
    → used_count (set used i true) ≡ used_count used + 1
used_count-mark [] i h e = absurd (omega arith)
used_count-mark (true ∷ used) zero h e = cc
used_count-mark (false ∷ used) zero h e = omega arith
used_count-mark (true ∷ used) (suc i) h e = omega (arith, used_count-mark used i (omega arith) e)
used_count-mark (false ∷ used) (suc i) h e = used_count-mark used i (omega arith) e

pub used_count-unmark :
    (used : List Bool) (i : ℕ)
    → i < length used
    → get_or used i false ≡ true
    → used_count (set used i false) + 1 ≡ used_count used
used_count-unmark [] i h e = absurd (omega arith)
used_count-unmark (true ∷ used) zero h e = omega arith
used_count-unmark (false ∷ used) zero h e = cc
used_count-unmark (true ∷ used) (suc i) h e =
    omega (arith, used_count-unmark used i (omega arith) e)
used_count-unmark (false ∷ used) (suc i) h e = used_count-unmark used i (omega arith) e

pub used_count-le : (used : List Bool) → used_count used ≤ length used
used_count-le [] = omega arith
used_count-le (true ∷ used) = omega (arith, used_count-le used)
used_count-le (false ∷ used) = omega (arith, used_count-le used)

-- A fresh manager meets the invariant, with every block free.
pub init-IsFsm :
    (sup : Super)
    → sup.leb_cnt < 2 ^ 31
    → (fsm : Fsm) × (fsm_init sup true true ≡ ok fsm)
      × IsFsm sup fsm
      × (fsm.fsm_nb_free_eb ≡ sup.leb_cnt)
unfolding fsm_init
init-IsFsm sup h = (
  record {
    dirty_list = replicate sup.leb_cnt 0;
    used_leb_list = replicate sup.leb_cnt false;
    fsm_lnum = 0;
    fsm_nb_free_eb = sup.leb_cnt;
  },
  refl,
  record {
    fits = h;
    used_len = length-replicate sup.leb_cnt false;
    dirty_len = length-replicate sup.leb_cnt 0;
    counted = omega (arith, used_count-replicate sup.leb_cnt);
    clean = λ i e. get_or-replicate sup.leb_cnt i 0;
    reserved = λ i e. get_or-replicate sup.leb_cnt i false;
  },
  refl,
)

module _ (sup : Super) (fsm : Fsm) (lnum : ℕ) (v : IsFsm sup fsm) where
  -- Taking a free block of the log into use passes the assertion and keeps the invariant.
  pub mark_used-IsFsm :
      log_fst_lnum ≤ lnum
      → lnum < sup.leb_cnt
      → is_used fsm lnum ≡ false
      → (fsm_mark_used sup fsm lnum ≡ some (used_fsm fsm lnum)) × IsFsm sup (used_fsm fsm lnum)
  unfolding fsm_mark_used
  mark_used-IsFsm lo hi free =
      let inside : lnum < length fsm.used_leb_list = omega (arith, v.used_len) in
      let count = used_count-mark fsm.used_leb_list lnum inside free in
      let le = used_count-le fsm.used_leb_list in
      (
        ground arith,
        record {
          fits = v.fits;
          used_len = length-set fsm.used_leb_list lnum true ∙ v.used_len;
          dirty_len = v.dirty_len;
          counted = omega (
            arith,
            v.counted,
            v.fits,
            used_count-le (set fsm.used_leb_list lnum true),
            length-set fsm.used_leb_list lnum true,
          );
          clean = λ i e.
              ground (arith, get_or-set fsm.used_leb_list lnum i true false inside, v.clean i);
          reserved = λ i h.
              ground (arith, get_or-set fsm.used_leb_list lnum i true false inside, v.reserved i h);
        },
      )

  -- Erasing a block of the log that is in use passes the assertions, keeps the invariant, and
  -- leaves the block free and without garbage.
  pub mark_erased-IsFsm :
      log_fst_lnum ≤ lnum
      → lnum < sup.leb_cnt
      → is_used fsm lnum ≡ true
      → (fsm_mark_erased sup fsm lnum ≡ some (erased_fsm fsm lnum))
        × IsFsm sup (erased_fsm fsm lnum)
        × (is_used (erased_fsm fsm lnum) lnum ≡ false)
        × (dirt (erased_fsm fsm lnum) lnum ≡ 0)
        × ((erased_fsm fsm lnum).fsm_nb_free_eb ≡ fsm.fsm_nb_free_eb + 1)
  unfolding fsm_mark_erased
  mark_erased-IsFsm lo hi busy =
      let inside : lnum < length fsm.used_leb_list = omega (arith, v.used_len) in
      let inside' : lnum < length fsm.dirty_list = omega (arith, v.dirty_len) in
      let count = used_count-unmark fsm.used_leb_list lnum inside busy in
      let used_at = λ (i : ℕ). get_or-set fsm.used_leb_list lnum i false false inside in
      let dirt_at = λ (i : ℕ). get_or-set fsm.dirty_list lnum i 0 0 inside' in
      (
        ground arith,
        record {
          fits = v.fits;
          used_len = length-set fsm.used_leb_list lnum false ∙ v.used_len;
          dirty_len = length-set fsm.dirty_list lnum 0 ∙ v.dirty_len;
          counted = omega (arith, v.counted, v.fits);
          clean = λ i e. ground (arith, used_at i, dirt_at i, v.clean i);
          reserved = λ i h. ground (arith, used_at i, v.reserved i h);
        },
        ground (arith, used_at lnum),
        ground (arith, dirt_at lnum),
        omega (arith, v.counted, v.fits),
      )

module _ (sup : Super) (fsm : Fsm) (addr : ObjAddr) (v : IsFsm sup fsm) where
  -- Counting garbage in a used block of the log passes the assertions, keeps the invariant, adds
  -- the object's length to that block's garbage as long as it fits 32 bits, and leaves the other
  -- blocks' garbage alone.
  pub mark_dirty-IsFsm :
      log_fst_lnum ≤ addr.lnum
      → addr.lnum < sup.leb_cnt
      → is_used fsm addr.lnum ≡ true
      → dirt fsm addr.lnum + addr.len < 2 ^ 32
      → (fsm_mark_dirty sup fsm addr ≡ some (dirty_fsm fsm addr))
        × IsFsm sup (dirty_fsm fsm addr)
        × ((i : ℕ)
            → dirt (dirty_fsm fsm addr) i
              ≡ (if addr.lnum == i then dirt fsm i + addr.len else dirt fsm i))
  unfolding fsm_mark_dirty
  mark_dirty-IsFsm lo hi busy small =
      let inside : addr.lnum < length fsm.dirty_list = omega (arith, v.dirty_len) in
      let w = add32 (dirt fsm addr.lnum) addr.len in
      let dirt_at = λ (i : ℕ). get_or-set fsm.dirty_list addr.lnum i w 0 inside in
      (
        ground arith,
        record {
          fits = v.fits;
          used_len = v.used_len;
          dirty_len = length-set fsm.dirty_list addr.lnum w ∙ v.dirty_len;
          counted = v.counted;
          clean = λ i e. ground (arith, dirt_at i, v.clean i);
          reserved = v.reserved;
        },
        λ i. ground (arith, dirt_at i, ap (λ (k : ℕ). dirt fsm k)),
      )
