-- ===== src/Fsop/Rename/Parties.antt =====
-- The steps of a rename change the inodes of its four parties, and keep the fields that are not of
-- the kernel but for the flags of the inode that is replaced.
use cogent.Prelude.{
  ℕ, ◌≡◌, refl, Bool, true, false, List, Option, none, some, Option-cases, inl, inr,
}
use cogent.Types.{Result, ok, err, Result-cases}
use cogent.Ids.{dentarr_id_init}
use cogent.Dentarr.{Dentarr}
use cogent.Pack.{Inode}
use cogent.Fsop.{Kernel, Ostore, Call, World, at, write_objects}
use cogent.Fsop.Remove.{orphan}
use cogent.Fsop.Rename.{
  Renamed, is_some, orphan_new, commit_rename, renamed, with_new, do_rename, unlink_new, move_links,
  stamp, rename_entries, read_or_create,
}

pub data IsParty (old_dir old_inode new_dir : ℕ) (new_inode : Option ℕ) : ℕ → Type 0 where
  is_old_dir : IsParty old_dir old_inode new_dir new_inode old_dir
  is_old_inode : IsParty old_dir old_inode new_dir new_inode old_inode
  is_new_dir : IsParty old_dir old_inode new_dir new_inode new_dir
  is_new_inode : {p : ℕ} → new_inode ≡ some p → IsParty old_dir old_inode new_dir new_inode p

-- A change of the fields of `struct inode` other than its number.
pub record IsVfsChange (change : Inode → Inode) : Type 0 where
  pub ino : (i : Inode) → (change i).i_ino ≡ i.i_ino
  pub sqnum : (i : Inode) → (change i).creat_sqnum ≡ i.creat_sqnum
  pub flags : (i : Inode) → (change i).flags ≡ i.flags

module _ (k : Kernel) {σ : Type 0} (store : Ostore σ) (old_dir old_inode new_dir : ℕ)
    (new_inode : Option ℕ) where
  -- A property of states that such changes, the orphan flag and writes keep.
  pub record IsStable (R : World σ → Type 0) : Type 0 where
    pub change :
        (w : World σ) (p : ℕ) (f : Inode → Inode)
        → IsParty old_dir old_inode new_dir new_inode p
        → IsVfsChange f
        → R w
        → R (at w p f)
    pub flag : (w : World σ) (p : ℕ) → new_inode ≡ some p → R w → R (at w p orphan)
    pub write :
        (w : World σ) (objs : _) (osw_flag : ℕ) → R w → R (write_objects k store w objs osw_flag).1

  abbrev pub Outcome : (World σ → Type 0) → Option (Result (Unit {0}) × World σ) → Type 0
  Outcome R none = Unit
  Outcome R (some out) = R out.1

module _ (k : Kernel) {σ : Type 0} (store : Ostore σ) (old_dir old_inode new_dir : ℕ)
    (new_inode : Option ℕ) (R : World σ → Type 0)
    (stable : IsStable k store old_dir old_inode new_dir new_inode R) where
  flag_new : (w : World σ) (x : Option ℕ) → new_inode ≡ x → R w → R (orphan_new k store w x)
  flag_new w none e h = h
  flag_new w (some p) e h = stable.flag w p e h

  renamed-stable :
      (w : World σ) (r : Renamed) (x y : Result ℕ)
      → R w
      → R (renamed k store w old_dir old_inode new_dir new_inode r x y).1
  unfolding renamed commit_rename
  renamed-stable w r (err e) y h = h
  renamed-stable w r (ok n) (err e) h = h
  renamed-stable w r (ok n) (ok m) h = stable.write _ _ _ (
      flag_new _ new_inode refl (
        stable.change _ new_dir _ is_new_dir
          (record { ino = λ i. refl; sqnum = λ i. refl; flags = λ i. refl })
          (stable.change w old_dir _ is_old_dir
            (record { ino = λ i. refl; sqnum = λ i. refl; flags = λ i. refl }) h)))

  with_new-stable :
      (call : Call) (w : World σ) (old_name new_name : List ℕ) (shared : Bool)
      (old_dentarr : Dentarr) (x : Result Dentarr)
      → R w
      → Outcome k store old_dir old_inode new_dir new_inode R (
          with_new k store call w old_dir old_name old_inode new_dir new_name new_inode shared
            old_dentarr x)
  unfolding with_new
  with_new-stable call w old_name new_name shared d (err e) h = tt
  with_new-stable call w old_name new_name shared d (ok d') h =
      elim (Option-cases (
        rename_entries k call (w.inodes old_inode) old_name new_name (is_some new_inode) shared d
          d')) [
            | inl e ↦ rw (e, Outcome) tt
            | inr (r, e) ↦ rw (e, Outcome) (renamed-stable w r r.old_change r.new_change h)
          ]

  pub do_rename-stable :
      (call : Call) (w : World σ) (old_name new_name : List ℕ)
      → R w
      → Outcome k store old_dir old_inode new_dir new_inode R
          (do_rename k store call w old_dir old_name old_inode new_dir new_name new_inode)
  unfolding do_rename
  do_rename-stable call w old_name new_name h =
      elim (Result-cases (
        read_or_create k store (call.mem 0) (call.mem 1) w
          (dentarr_id_init (w.inodes old_dir).i_ino old_name))) [
            | inl (d, e) ↦ rw (e, Outcome) (with_new-stable call w old_name new_name _ d _ h)
            | inr (x, e) ↦ rw (e, Outcome) tt
          ]

  unlink_new-stable :
      (is_dir : Bool) (w : World σ) (x : Option ℕ)
      → new_inode ≡ x
      → R w
      → R (unlink_new k store is_dir w new_dir x)
  unfolding unlink_new
  unlink_new-stable is_dir w none e h = h
  unlink_new-stable true w (some p) e h =
      stable.change _ new_dir _ is_new_dir
        (record { ino = λ i. refl; sqnum = λ i. refl; flags = λ i. refl })
        (stable.change w p _ (is_new_inode e)
          (record { ino = λ i. refl; sqnum = λ i. refl; flags = λ i. refl }) h)
  unlink_new-stable false w (some p) e h =
      stable.change w p _ (is_new_inode e)
        (record { ino = λ i. refl; sqnum = λ i. refl; flags = λ i. refl }) h

  move_links-stable :
      (is_dir : Bool) (w : World σ) → R w → R (move_links k store is_dir w old_dir new_dir)
  unfolding move_links
  move_links-stable true w h =
      stable.change _ new_dir _ is_new_dir
        (record { ino = λ i. refl; sqnum = λ i. refl; flags = λ i. refl })
        (stable.change w old_dir _ is_old_dir
          (record { ino = λ i. refl; sqnum = λ i. refl; flags = λ i. refl }) h)
  move_links-stable false w h = h

  stamp-stable : (call : Call) (w : World σ) → R w → R (stamp k store call w old_dir old_inode)
  unfolding stamp
  stamp-stable call w h =
      stable.change _ old_dir _ is_old_dir
        (record { ino = λ i. refl; sqnum = λ i. refl; flags = λ i. refl })
        (stable.change w old_inode _ is_old_inode
          (record { ino = λ i. refl; sqnum = λ i. refl; flags = λ i. refl }) h)

  -- The state before the entries are touched.
  pub prepared-stable :
      (call : Call) (w : World σ) (old_is_dir new_is_dir : Bool)
      → R w
      → R (
          stamp k store call
            (move_links k store old_is_dir
              (unlink_new k store new_is_dir w new_dir new_inode)
              old_dir
              new_dir)
            old_dir
            old_inode)
  prepared-stable call w old_is_dir new_is_dir h =
      stamp-stable call _
        (move_links-stable old_is_dir _ (unlink_new-stable new_is_dir w new_inode refl h))
