-- ===== src/Tests/Data.antt =====
-- Data for the tests, and a tree without balancing in place of rbt.c.
use cogent.Prelude.{ℕ, ◌+◌, ◌*◌, ◌^◌, ◌≡◌, refl, ap, Bool, true, false, List, [], ◌∷◌, some, arith}
use cogent.Types.{ObjAddr, Garbage, Super, Fsm, Pool}
use cogent.Obj.{ObjCh}
use cogent.Tree.{Tree, leaf, node, entries, remove, Rbt, first_key}
use cogent.Hash.{Table, empty_table, set_bucket, IsTable}
use cogent.Hash.Laws.{set_bucket-IsTable}
use cogent.Dentarr.{FileModes}
use cogent.Pool.Ready.{IsReady, HasLeft}

module _ {A : Type 0} where
  abbrev pub spine : List (ℕ × A) → Tree A
  spine [] = leaf
  spine ((k, v) ∷ xs) = node leaf k v (spine xs)

  pub entries-spine : (xs : List (ℕ × A)) → entries (spine xs) ≡ xs
  entries-spine [] = refl
  entries-spine ((k, v) ∷ xs) = ap (λ (ys : List (ℕ × A)). (k, v) ∷ ys) (entries-spine xs)

abbrev pub naive : Rbt
naive = record {
  insert_color = λ {V} t id. t;
  erase = λ {V} t id. spine (remove id (entries t));
  first = λ {V} t. first_key (entries t);
  first_lem = λ {V} t. refl;
  entries-insert_color = λ {V} t id. refl;
  entries-erase = λ {V} t id s. entries-spine (remove id (entries t));
}

abbrev pub granted : ℕ → Bool
granted n = true

abbrev pub ready : Pool
ready = record {
  tot_nodes_needed = 0;
  arr = some (true ∷ true ∷ true ∷ true ∷ []);
  len = 4;
  i = 0;
  sz_obj = 64;
  calls = 5;
  live = 6;
}

pub ready-IsReady : IsReady ready
ready-IsReady = record { present = refl; sized = refl; full = (refl, (refl, (refl, (refl, tt)))) }

pub ready-HasLeft : HasLeft 4 ready
ready-HasLeft = record { ready = ready-IsReady; room = omega arith }

-- Inode 25 and its first data block.
abbrev pub inode25 : ℕ
inode25 = 25 * 2 ^ 32

abbrev pub block25 : ℕ
block25 = 25 * 2 ^ 32 + 2 ^ 29

abbrev pub addr_at : ℕ → ℕ → ObjAddr
addr_at lnum sqnum = record { lnum = lnum; offs = 0; len = 64; sqnum = sqnum }

abbrev pub index : Table ObjAddr
index = set_bucket empty_table 25 (spine ((inode25, addr_at 3 7) ∷ (block25, addr_at 4 8) ∷ []))

pub index-IsTable : IsTable index
index-IsTable =
    set_bucket-IsTable empty_table 25 (spine ((inode25, addr_at 3 7) ∷ (block25, addr_at 4 8) ∷ []))
      (λ h. tt) ((omega arith, tt), (tt, tt))

abbrev pub versions : ℕ → ℕ → Garbage
versions sqnum count = record { sqnum = sqnum; count = count }

abbrev pub garbage : Table Garbage
garbage = set_bucket empty_table 25 (spine ((inode25, versions 9 1) ∷ (block25, versions 8 2) ∷ []))

pub garbage-IsTable : IsTable garbage
garbage-IsTable =
    set_bucket-IsTable empty_table 25
      (spine ((inode25, versions 9 1) ∷ (block25, versions 8 2) ∷ [])) (λ h. tt)
      ((omega arith, tt), (tt, tt))

-- A deletion object for inode 25 and everything behind it.
abbrev pub deletion : ObjCh
deletion = record { kind = 5; id = inode25; sqnum = 9; len = 32; trans = 5 }

abbrev pub small : Super
small = record {
  sqnum = 1;
  leb_cnt = 6;
  leb_size = 4096;
  nb_reserved_gc = 1;
  nb_reserved_del = 1;
  min_io_size = 512;
  max_io_size = 2048;
  log_lnum = 3;
  log_offs = 0;
  last_inum = 24;
}

-- One block of the log in use, with garbage.
abbrev pub started : Fsm
started = record {
  dirty_list = 0 ∷ 0 ∷ 0 ∷ 100 ∷ 0 ∷ 0 ∷ [];
  used_leb_list = false ∷ false ∷ false ∷ true ∷ false ∷ false ∷ [];
  fsm_lnum = 0;
  fsm_nb_free_eb = 5;
}

-- The values of Linux.
abbrev pub linux : FileModes
linux = record {
  s_ifmt = 0xF000;
  s_ifreg = 0x8000;
  s_ifdir = 0x4000;
  s_iflnk = 0xA000;
  s_ifsock = 0xC000;
  s_ififo = 0x1000;
  s_ifblk = 0x6000;
  s_ifchr = 0x2000;
}
