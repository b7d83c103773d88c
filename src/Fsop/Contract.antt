-- ===== src/Fsop/Contract.antt =====
-- What the file-system operations rely on of the object store: an object that was written is read
-- back under its id, unless it is a deletion object, whose id the store forgets.
use cogent.Prelude.{
  ℕ, ◌+◌, ◌%◌, ◌≤◌, ◌<◌, length, ◌≡◌, sym, ap, ◌≢◌, Bool, true, false, Option, none, some, List, [],
  ◌∷◌, ◌++◌, if◌then◌else◌,
}
use mathlib.Core.Path.{subst}
use cogent.Types.{Result, ok, err, Errno}
use cogent.Dentarr.Names.{IsDentarr}
use cogent.Pack.{Object, obj_inode, obj_dentarr, obj_data, obj_del}
use cogent.Fsop.{Kernel, Bi, Ostore, World, or_undo, write_objects}

abbrev IsErr : Result (Unit {0}) → Type 0
IsErr (ok u) = ⊥
IsErr (err e) = Unit

abbrev pub object_id : Object → ℕ
object_id (obj_inode ino) = ino.id
object_id (obj_dentarr dentarr) = dentarr.id
object_id (obj_data odata) = odata.id
object_id (obj_del id) = id

-- The sizes of the structs, with the entries or the bytes behind them.
abbrev pub object_size : Object → ℕ
object_size (obj_inode ino) = 96
object_size (obj_dentarr dentarr) = dentarr.size
object_size (obj_data odata) = 40 + odata.size
object_size (obj_del id) = 32

-- No deletion object, and another id.
abbrev pub IsApart : ℕ → Object → Type 0
IsApart id (obj_inode ino) = id ≢ ino.id
IsApart id (obj_dentarr dentarr) = id ≢ dentarr.id
IsApart id (obj_data odata) = id ≢ odata.id
IsApart id (obj_del other_id) = ⊥

abbrev pub AllApart : ℕ → List Object → Type 0
AllApart id [] = Unit
AllApart id (obj ∷ objs) = IsApart id obj × AllApart id objs

-- An object that stays in the log under its id, with the size of what it holds. As everywhere, its
-- numbers are those of its C fields.
abbrev pub IsStored : Object → Type 0
IsStored (obj_inode ino) = Unit
IsStored (obj_dentarr dentarr) = IsDentarr dentarr × (0 < dentarr.size)
IsStored (obj_data odata) = odata.size ≡ length odata.bytes
IsStored (obj_del id) = ⊥

-- The limit of a read is a multiple of the padding of objects.
pub record ReadsBack {σ : Type 0} (store : Ostore σ) : Type 0 where
  pub read_back :
      (bi bi' : Bi σ) (before after : List Object) (obj : Object) (flag limit : ℕ)
      → store.write_obj_list bi (before ++ (obj ∷ after)) flag ≡ (ok tt, bi')
      → IsStored obj
      → AllApart (object_id obj) (before ++ after)
      → object_size obj ≤ limit
      → limit % 8 ≡ 0
      → store.read_obj bi' (object_id obj) limit ≡ ok obj

abbrev pub IsOkOutcome {ℓ} : {A : Type ℓ} → Option (Result (Unit {0}) × A) → Type 0
IsOkOutcome none = ⊥
IsOkOutcome (some (ok u, v)) = Unit
IsOkOutcome (some (err e, v)) = ⊥

module _ {σ : Type 0} where
  -- The outcome, for one that is there.
  abbrev pub outcome_or :
      Result (Unit {0}) × World σ
      → Option (Result (Unit {0}) × World σ)
      → Result (Unit {0}) × World σ
  outcome_or d none = d
  outcome_or d (some out) = out

  pub or_undo-ok :
      (undo : World σ → World σ) (out : Result (Unit {0}) × World σ) (v : World σ)
      → or_undo undo out ≡ (ok tt, v)
      → out ≡ (ok tt, v)
  unfolding or_undo
  or_undo-ok undo (ok u, w) v h = h
  or_undo-ok undo (err e, w) v h =
      absurd (subst IsErr (ap (λ (out : Result (Unit {0}) × World σ). out.0) h) tt)

  -- A success came from the branch that has one.
  pub unless-ok :
      (b : Bool) (e : Errno) (w v : World σ) (out : Result (Unit {0}) × World σ)
      → (if b then (err e, w) else out) ≡ (ok tt, v)
      → out ≡ (ok tt, v)
  unless-ok true e w v out h =
      absurd (subst IsErr (ap (λ (out : Result (Unit {0}) × World σ). out.0) h) tt)
  unless-ok false e w v out h = h

  pub unless-some :
      (b : Bool) (e : Errno) (w v : World σ) (out : Option (Result (Unit {0}) × World σ))
      → (if b then some (err e, w) else out) ≡ some (ok tt, v)
      → out ≡ some (ok tt, v)
  unless-some true e w v out h = absurd (subst IsOkOutcome (sym h) tt)
  unless-some false e w v out h = h

module _ (k : Kernel) {σ : Type 0} (store : Ostore σ) where
  -- What a write that succeeds tells.
  pub written :
      (w v : World σ) (objs : List Object) (flag : ℕ)
      → write_objects k store w objs flag ≡ (ok tt, v)
      → (store.write_obj_list w.bi objs flag ≡ (ok tt, v.bi)) × (w.inodes ≡ v.inodes)
  unfolding write_objects
  written w v objs flag h = (
    ap (λ (out : Result (Unit {0}) × World σ). (out.0, out.1.bi)) h,
    ap (λ (out : Result (Unit {0}) × World σ). out.1.inodes) h,
  )
