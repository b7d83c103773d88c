-- ===== src/Store/Init.antt =====
-- impl/fs/bilby/c/ostore.c: `ostore_init` and `ostore_clean`, with the `_init` and `_clean` functions
-- that they call, as what they hold of the kernel's memory: a list of what was allocated and not yet
-- freed (hence their `_mem`). `granted` says which request the kernel grants. A result `none` is the
-- freeing of what is not allocated. The nodes of the tables are left out here.
use cogent.Prelude.{
  ℕ, ◌≡◌, Bool, not, Option, none, some, List, [], ◌∷◌, ◌==◌, if◌then◌else◌, arith,
}
use cogent.Types.{Result, ok, err, Errno, enomem}

-- What can be allocated, by the name of the field or variable that points to it.
abbrev pub wbuf_buf : ℕ
wbuf_buf = 0

abbrev pub sup_wbuf_buf : ℕ
sup_wbuf_buf = 1

abbrev pub summary : ℕ
summary = 2

abbrev pub node_slab : ℕ
node_slab = 3

abbrev pub idx_hash : ℕ
idx_hash = 4

abbrev pub dirty_list : ℕ
dirty_list = 5

abbrev pub used_leb_list : ℕ
used_leb_list = 6

abbrev pub rbuf_buf : ℕ
rbuf_buf = 7

abbrev pub gim_hash : ℕ
gim_hash = 8

abbrev pub gc_buf : ℕ
gc_buf = 9

abbrev pub Outcome : Type 0
Outcome = Option (Result (Unit {0}) × List ℕ)

abbrev pub keep : ℕ → Option (List ℕ) → Option (List ℕ)
keep x none = none
keep x (some held) = some (x ∷ held)

-- `kfree`, `vfree` and `kmem_cache_destroy`.
abbrev pub free : ℕ → List ℕ → Option (List ℕ)
free r [] = none
free r (x ∷ held) = let rest = keep x (free r held) in if r == x then some held else rest

abbrev pub free_all : List ℕ → List ℕ → Option (List ℕ)
free_all [] held = some held
free_all (r ∷ rs) held = elim (free r held) [ none ↦ none | some left ↦ free_all rs left ]

-- A return of the error once this is freed.
abbrev pub fails : Errno → Option (List ℕ) → Outcome
fails e none = none
fails e (some held) = some (err e, held)

-- What stands in the branch of `if (!err)`.
abbrev pub if_ok : Outcome → (List ℕ → Outcome) → Outcome
if_ok none go_on = none
if_ok (some (err e, held)) go_on = some (err e, held)
if_ok (some (ok u, held)) go_on = go_on held

-- A clean-up that is reached only on an error.
abbrev pub or_clean : (List ℕ → Option (List ℕ)) → Outcome → Outcome
or_clean clean none = none
or_clean clean (some (ok u, held)) = some (ok u, held)
or_clean clean (some (err e, held)) = fails e (clean held)

-- A component that makes one request.
abbrev pub request : (ℕ → Bool) → ℕ → List ℕ → Outcome
request granted r held = if granted r then some (ok tt, r ∷ held) else some (err enomem, held)

abbrev pub allocpool_init_mem : (ℕ → Bool) → List ℕ → Outcome
allocpool_init_mem granted held = request granted node_slab held

-- The array of the pool, which is freed too, is NULL here.
abbrev pub allocpool_destroy_mem : List ℕ → Option (List ℕ)
allocpool_destroy_mem held = free node_slab held

abbrev pub idx_init_mem : (ℕ → Bool) → List ℕ → Outcome
idx_init_mem granted held = request granted idx_hash held

abbrev pub idx_clean_mem : List ℕ → Option (List ℕ)
idx_clean_mem held = free idx_hash held

abbrev pub fsm_init_mem : (ℕ → Bool) → List ℕ → Outcome
fsm_init_mem granted held =
    if not (granted dirty_list)
    then some (err enomem, held)
    else if not (granted used_leb_list)
    then fails enomem (free dirty_list (dirty_list ∷ held))
    else some (ok tt, used_leb_list ∷ (dirty_list ∷ held))

abbrev pub fsm_clean_mem : List ℕ → Option (List ℕ)
fsm_clean_mem held = free_all (dirty_list ∷ (used_leb_list ∷ [])) held

-- Refused, it calls `wbuf_clean`, which then frees NULL.
abbrev pub wbuf_init_mem : (ℕ → Bool) → List ℕ → Outcome
wbuf_init_mem granted held = request granted rbuf_buf held

abbrev pub wbuf_clean_mem : List ℕ → Option (List ℕ)
wbuf_clean_mem held = free rbuf_buf held

abbrev pub gim_init_mem : (ℕ → Bool) → List ℕ → Outcome
gim_init_mem granted held = request granted gim_hash held

abbrev pub gim_clean_mem : List ℕ → Option (List ℕ)
gim_clean_mem held = free gim_hash held

abbrev pub gc_init_mem : (ℕ → Bool) → List ℕ → Outcome
gc_init_mem granted held = request granted gc_buf held

abbrev pub gc_clean_mem : List ℕ → Option (List ℕ)
gc_clean_mem held = free gc_buf held

-- The nested branches of `ostore_init`, each with the clean-up behind it, from the inside out.
abbrev pub init_gim : (ℕ → Bool) → List ℕ → Outcome
init_gim granted held =
    if_ok (gim_init_mem granted held) (λ held'. or_clean gim_clean_mem (gc_init_mem granted held'))

abbrev pub init_wbuf : (ℕ → Bool) → List ℕ → Outcome
init_wbuf granted held =
    if_ok (wbuf_init_mem granted held) (λ held'. or_clean wbuf_clean_mem (init_gim granted held'))

abbrev pub init_fsm : (ℕ → Bool) → List ℕ → Outcome
init_fsm granted held =
    if_ok (fsm_init_mem granted held) (λ held'. or_clean fsm_clean_mem (init_wbuf granted held'))

abbrev pub init_idx : (ℕ → Bool) → List ℕ → Outcome
init_idx granted held =
    if_ok (idx_init_mem granted held) (λ held'. or_clean idx_clean_mem (init_fsm granted held'))

abbrev pub init_pool : (ℕ → Bool) → List ℕ → Outcome
init_pool granted held =
    if_ok (allocpool_init_mem granted held)
      (λ held'. or_clean allocpool_destroy_mem (init_idx granted held'))

unfoldable pub ostore_init : (ℕ → Bool) → Outcome
ostore_init granted =
    if not (granted wbuf_buf)
    then some (err enomem, [])
    else if not (granted sup_wbuf_buf)
    then fails enomem (free wbuf_buf (wbuf_buf ∷ []))
    else if not (granted summary)
    then fails enomem (free_all (wbuf_buf ∷ (sup_wbuf_buf ∷ [])) (sup_wbuf_buf ∷ (wbuf_buf ∷ [])))
    else or_clean (free_all (wbuf_buf ∷ (sup_wbuf_buf ∷ (summary ∷ []))))
        (init_pool granted (summary ∷ (sup_wbuf_buf ∷ (wbuf_buf ∷ []))))

abbrev pub and_clean : Option (List ℕ) → (List ℕ → Option (List ℕ)) → Option (List ℕ)
and_clean none clean = none
and_clean (some held) clean = clean held

unfoldable pub ostore_clean : List ℕ → Option (List ℕ)
ostore_clean held = and_clean (free_all (wbuf_buf ∷ (sup_wbuf_buf ∷ (summary ∷ []))) held) (λ a.
    and_clean (idx_clean_mem a) (λ b. and_clean (fsm_clean_mem b) (λ c.
      and_clean (wbuf_clean_mem c) (λ d.
        and_clean (gim_clean_mem d) (λ e. and_clean (gc_clean_mem e) allocpool_destroy_mem)))))

-- What is left after an attempt to set up: nothing if memory ran out, and nothing once it is cleaned
-- up otherwise.
abbrev pub NothingLeft : Outcome → Type 0
NothingLeft none = ⊥
NothingLeft (some (ok u, held)) = ostore_clean held ≡ some []
NothingLeft (some (err e, held)) = (e ≡ enomem) × (held ≡ [])

-- Whichever requests are granted, setting the object store up frees nothing that is not allocated.
-- It either fails with ENOMEM and with nothing held, or holds what `ostore_clean` frees to the last.
pub ostore_init-NothingLeft : (granted : ℕ → Bool) → NothingLeft (ostore_init granted)
unfolding ostore_init ostore_clean
ostore_init-NothingLeft granted = ground arith
