-- ===== src/Fsm.antt =====
-- impl/fs/bilby/c/fsm.c: the free-space manager, which counts the garbage of each erase-block and
-- knows which ones are in use. A function gets the fields of `struct bilbyfs_info` that it uses,
-- `super` and those of `Fsm`; counts and sizes that the source keeps in an `int` are natural
-- numbers. A result `none` is a failed `bilbyfs_assert`.
pub mod Inv
pub mod Scan
pub mod Space
use cogent.Prelude.{
  ℕ, zero, suc, ◌+◌, ◌-◌, ◌*◌, ◌/◌, ◌%◌, ◌^◌, Bool, true, false, not, ◌&&◌, List, Option, none,
  some, get_or, set, replicate, ltb, leb, ◌==◌, if◌then◌else◌,
}
use cogent.Types.{
  ObjAddr, Super, Fsm, Result, ok, err, Errno, enomem, enospc, log_fst_lnum, osw_gc, osw_del,
  has_flag, add32, sub32,
}

-- The two requests to `kmalloc`, granted or not.
unfoldable pub fsm_init : Super → Bool → Bool → Result Fsm
fsm_init sup granted granted' =
    if not granted
    then err enomem
    else if not granted'
    then err enomem
    else ok (record {
      dirty_list = replicate sup.leb_cnt 0;
      used_leb_list = replicate sup.leb_cnt false;
      fsm_lnum = 0;
      fsm_nb_free_eb = sup.leb_cnt;
    })

unfoldable pub fsm_check_free_space : Super → Fsm → ℕ → Result (Unit {0})
fsm_check_free_space sup fsm osw_flag =
    let n_gc = sup.nb_reserved_gc in
    let n_del = sup.nb_reserved_del in
    let n_free = fsm.fsm_nb_free_eb in
    if ltb n_free n_gc && not (has_flag osw_flag osw_gc)
    then err enospc
    else if ltb n_free (add32 n_del n_gc)
        && (not (has_flag osw_flag osw_del) && not (has_flag osw_flag osw_gc))
    then err enospc
    else ok tt

-- A block of the log.
abbrev pub in_log : Super → ℕ → Bool
in_log sup lnum = leb log_fst_lnum lnum && ltb lnum sup.leb_cnt

abbrev pub is_used : Fsm → ℕ → Bool
is_used fsm lnum = get_or fsm.used_leb_list lnum false

abbrev pub dirt : Fsm → ℕ → ℕ
dirt fsm lnum = get_or fsm.dirty_list lnum 0

-- The writes of `fsm_mark_used`, `fsm_mark_dirty` and `fsm_mark_erased` behind their assertions.
abbrev pub used_fsm : Fsm → ℕ → Fsm
used_fsm fsm lnum = record fsm {
  used_leb_list = set fsm.used_leb_list lnum true;
  fsm_nb_free_eb = sub32 fsm.fsm_nb_free_eb 1;
}

abbrev pub dirty_fsm : Fsm → ObjAddr → Fsm
dirty_fsm fsm addr = record fsm {
  dirty_list = set fsm.dirty_list addr.lnum (add32 (dirt fsm addr.lnum) addr.len);
}

abbrev pub erased_fsm : Fsm → ℕ → Fsm
erased_fsm fsm lnum = record fsm {
  used_leb_list = set fsm.used_leb_list lnum false;
  fsm_nb_free_eb = add32 fsm.fsm_nb_free_eb 1;
  dirty_list = set fsm.dirty_list lnum 0;
}

unfoldable pub fsm_mark_used : Super → Fsm → ℕ → Option Fsm
fsm_mark_used sup fsm lnum = if in_log sup lnum then some (used_fsm fsm lnum) else none

unfoldable pub fsm_mark_dirty : Super → Fsm → ObjAddr → Option Fsm
fsm_mark_dirty sup fsm addr =
    if in_log sup addr.lnum && is_used fsm addr.lnum then some (dirty_fsm fsm addr) else none

unfoldable pub fsm_mark_erased : Super → Fsm → ℕ → Option Fsm
fsm_mark_erased sup fsm lnum =
    if in_log sup lnum && is_used fsm lnum then some (erased_fsm fsm lnum) else none

unfoldable pub fsm_get_lnum : Fsm → ℕ
fsm_get_lnum fsm = fsm.fsm_lnum

-- The loop of `fsm_alloc_eb` from block `i` on, with `n` blocks left to look at.
unfoldable pub find_free : Fsm → ℕ → ℕ → Option ℕ
find_free fsm i zero = none
find_free fsm i (suc n) =
    let rest = find_free fsm (i + 1) n in if is_used fsm i then rest else some i

-- The end of `fsm_alloc_eb`: the first free block of the log becomes the current one.
unfoldable pub take_free : Super → Fsm → Option ℕ → Option (Result (Unit {0}) × Fsm)
take_free sup fsm none = some (err enospc, fsm)
take_free sup fsm (some i) = elim (fsm_mark_used sup fsm i) [
  | none ↦ none
  | some fsm' ↦ some (ok tt, record fsm' { fsm_lnum = i })
]

unfoldable pub alloc_next : Super → Fsm → Option (Result (Unit {0}) × Fsm)
unfolding take_free find_free
alloc_next sup fsm = take_free sup fsm (find_free fsm log_fst_lnum (sup.leb_cnt - log_fst_lnum))

-- The loop of `fsm_get_free_space`, with its `unsigned long long` sum.
unfoldable pub free_space_from : Super → Fsm → ℕ → ℕ → ℕ → ℕ
free_space_from sup fsm acc i zero = acc
free_space_from sup fsm acc i (suc n) =
    free_space_from sup fsm (if is_used fsm i then acc else (acc + sup.leb_size) % 2 ^ 64) (i + 1) n

unfoldable pub fsm_get_free_space : Super → Fsm → ℕ
unfolding free_space_from
fsm_get_free_space sup fsm = free_space_from sup fsm 0 log_fst_lnum (sup.leb_cnt - log_fst_lnum)

-- An `int` product, wrapped at 32 bits, in a comparison with an `unsigned long long`.
abbrev pub int_to_u64 : ℕ → ℕ
int_to_u64 x = let w = x % 2 ^ 32 in if ltb w (2 ^ 31) then w else 2 ^ 64 - (2 ^ 32 - w)

unfoldable pub fsm_get_available_space : Super → Fsm → ℕ
fsm_get_available_space sup fsm =
    let reserved = int_to_u64 ((sup.nb_reserved_gc + sup.nb_reserved_del) * sup.leb_size) in
    let freespace = fsm_get_free_space sup fsm in
    if ltb freespace reserved then 0 else freespace - reserved

-- The loop of `fsm_get_dirtiest_eb`: the best block so far, `none` for -1, and its garbage.
unfoldable pub dirtiest_from : Fsm → Option ℕ → ℕ → ℕ → ℕ → Option ℕ
dirtiest_from fsm best garbage i zero = best
dirtiest_from fsm best garbage i (suc n) =
    let better = is_used fsm i && (not (i == fsm.fsm_lnum) && ltb garbage (dirt fsm i)) in
    dirtiest_from fsm (if better then some i else best) (if better then dirt fsm i else garbage)
      (i + 1) n

unfoldable pub fsm_get_dirtiest_eb : Super → Fsm → Option ℕ
unfolding dirtiest_from
fsm_get_dirtiest_eb sup fsm = dirtiest_from fsm none 0 log_fst_lnum (sup.leb_cnt - log_fst_lnum)
