-- ===== src/Tests/Disk.antt =====
-- A kernel, and an object store that keeps its objects in a function, for the tests of the
-- file-system operations.
use cogent.Prelude.{
  ℕ, ◌+◌, ◌-◌, ◌*◌, ◌/◌, ◌%◌, ◌^◌, ◌≤◌, ◌≡◌, refl, sym, ap, ◌∙◌, arith, true, false, List, [], ◌∷◌,
  ◌++◌, Option, none, some, ltb, ◌==◌, if◌then◌else◌, ==_iff,
}
use cogent.Types.{Result, ok, err, enoent, einval}
use cogent.Pack.{Time, Inode, Object, obj_inode, obj_dentarr, obj_data, obj_del}
use cogent.Store.{Info}
use cogent.Fsop.{Kernel, Bi, Ostore, Call, World}
use cogent.Fsop.Contract.{object_id, object_size, IsApart, AllApart, ReadsBack}
use cogent.Fsop.Op.Numbers.{TakesNoNumber}
use cogent.Tests.Data.{linux, small, started, ready, index, garbage}

abbrev pub kernel : Kernel
kernel = record {
  modes = linux;
  s_isgid = 0x400;
  inc_nlink = λ n. (n + 1) % 2 ^ 32;
  drop_nlink = λ n. (n + 2 ^ 32 - 1) % 2 ^ 32;
  drop-inc = λ n h. omega arith;
  inc-drop = λ n h h'. omega arith;
  align = λ n a. (n + a - 1) / a * a;
}

abbrev pub Disk : Type 0
Disk = ℕ → Option Object

abbrev pub put : Object → Disk → Disk
put obj disk id = if id == object_id obj then some obj else disk id

abbrev pub put_all : List Object → Disk → Disk
put_all [] disk = disk
put_all (obj ∷ objs) disk = put_all objs (put obj disk)

abbrev pub get : ℕ → Option Object → Result Object
get limit none = err enoent
get limit (some obj) = if ltb limit (object_size obj) then err einval else ok obj

abbrev pub disk_store : Ostore Disk
disk_store = record {
  read_obj = λ bi id limit. get limit (bi.rest id);
  write_obj_list = λ bi objs flag. (ok tt, record bi { rest = put_all objs bi.rest });
}

pub disk-TakesNoNumber : TakesNoNumber disk_store
disk-TakesNoNumber = record { kept = λ bi objs flag. refl }

put-apart : (id : ℕ) (obj : Object) (disk : Disk) → IsApart id obj → put obj disk id ≡ disk id
put-apart id (obj_inode ino) disk h = ground (arith, (==_iff id ino.id).0)
put-apart id (obj_dentarr dentarr) disk h = ground (arith, (==_iff id dentarr.id).0)
put-apart id (obj_data odata) disk h = ground (arith, (==_iff id odata.id).0)
put-apart id (obj_del other_id) disk h = absurd h

put_all-apart :
    (id : ℕ) (objs : List Object) (disk : Disk) → AllApart id objs → put_all objs disk id ≡ disk id
put_all-apart id [] disk h = refl
put_all-apart id (obj ∷ objs) disk (a, h) =
    put_all-apart id objs (put obj disk) h ∙ put-apart id obj disk a

put_self : (obj : Object) (disk : Disk) → put obj disk (object_id obj) ≡ some obj
put_self obj disk = ground (arith, (==_iff (object_id obj) (object_id obj)).1 refl)

put_all-lookup :
    (before after : List Object) (obj : Object) (disk : Disk)
    → AllApart (object_id obj) (before ++ after)
    → put_all (before ++ (obj ∷ after)) disk (object_id obj) ≡ some obj
put_all-lookup [] after obj disk h =
    put_all-apart (object_id obj) after (put obj disk) h ∙ put_self obj disk
put_all-lookup (other ∷ before) after obj disk (a, h) =
    put_all-lookup before after obj (put other disk) h

get-small : (limit : ℕ) (obj : Object) → object_size obj ≤ limit → get limit (some obj) ≡ ok obj
get-small limit obj h = let e : ltb limit (object_size obj) ≡ false = ground arith in rw e refl

pub disk-ReadsBack : ReadsBack disk_store
disk-ReadsBack = record {
  read_back = λ bi bi' before after obj flag limit h stored apart fits whole.
      let rest = ap (λ (out : Result (Unit {0}) × Bi Disk). out.1.rest (object_id obj)) h in
      rw (sym rest, put_all-lookup before after obj bi.rest apart) (get-small limit obj fits);
}

abbrev pub no_time : Time
no_time = record { tv_sec = 0; tv_nsec = 0 }

abbrev pub free_inode : Inode
free_inode = record {
  i_ino = 0;
  i_mode = 0;
  i_nlink = 0;
  i_uid = 0;
  i_gid = 0;
  i_size = 0;
  i_atime = no_time;
  i_mtime = no_time;
  i_ctime = no_time;
  i_flags = record { s_append = false; s_immutable = false; s_nocmtime = false; s_noatime = false };
  creat_sqnum = 0;
  flags = 0;
}

-- The root directory behind pointer 1, and a file behind pointer 2.
abbrev pub root_dir : Inode
root_dir = record free_inode { i_ino = 24; i_mode = 0x41ED; i_nlink = 2 }

abbrev pub file : Inode
file = record free_inode { i_ino = 26; i_mode = 0x81A4; i_nlink = 1; i_size = 100 }

abbrev pub inode_at : ℕ → Inode
inode_at p = if p == 1 then root_dir else if p == 2 then file else free_inode

abbrev pub mounted : Info
mounted = record {
  super = small;
  fsm = started;
  node_pool = ready;
  idx_hash = index;
  gim_hash = garbage;
}

abbrev pub world : World Disk
world = record {
  bi = record {
    next_inum = 26;
    next_sqnum = 9;
    is_ro = false;
    ostore = mounted;
    rest = λ id. none;
  };
  inodes = inode_at;
}

abbrev pub call : Call
call = record {
  now = record { tv_sec = 7; tv_nsec = 0 };
  fsuid = 0;
  fsgid = 0;
  mem = λ n. true;
  page = [];
}
