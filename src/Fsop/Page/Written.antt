-- ===== src/Fsop/Page/Written.antt =====
-- A page that was written is read back.
use cogent.Prelude.{ℕ, ◌+◌, ◌%◌, ◌^◌, ltb, if◌then◌else◌}
use cogent.Pack.{Inode}
use cogent.Fsop.{Kernel, Ostore, Call, World, at}

module _ (k : Kernel) {σ : Type 0} (store : Ostore σ) where
  abbrev size_change : Call → World σ → ℕ → ℕ → ℕ → Inode → Inode
  size_change call w inode pos len i = record i {
    i_size = if ltb ((w.inodes inode).i_size % 2 ^ 32) (pos + len) then pos + len else i.i_size;
    i_mtime = call.now;
  }

  -- The state that is written.
  abbrev sized : Call → World σ → ℕ → ℕ → ℕ → World σ
  sized call w inode pos len = at w inode (size_change call w inode pos len)
