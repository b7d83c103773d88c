-- ===== src/Fsop/Root/Reread.antt =====
-- An inode that was written is read back.
use cogent.Prelude.{◌/◌, ◌%◌, true, ◌==◌}
use cogent.Pack.{Inode}
use cogent.Pack.RoundTrip.{reread}

-- The inode that is expected: what was written, append-only and immutable where the bits 1 and 2 of
-- the flags say so, and without times of its own.
abbrev pub reread_flagged : Inode → Inode → Inode
reread_flagged j i = record (reread j i) {
  i_flags = record {
    s_append = i.flags / 2 % 2 == 1;
    s_immutable = i.flags / 4 % 2 == 1;
    s_nocmtime = true;
    s_noatime = true;
  };
}
