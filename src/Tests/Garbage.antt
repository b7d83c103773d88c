-- ===== src/Tests/Garbage.antt =====
-- The garbage index at a concrete state: one garbage version of inode 25 and two of its first block.
use cogent.Prelude.{◌*◌, ◌^◌, refl, false, arith}
use cogent.Obj.{obj_has_id}
use cogent.Gim.{gim_mark_garbage_cnt, gim_garbage_collected, gim_is_removable}
use cogent.Gim.Count.{MarkDone, CollectDone, gim_mark-IsMarked, gim_collected-Collected}
use cogent.Gim.Removable.{DelAnswer, gim_is_removable-DelAnswer}
use cogent.Hash.{hash_inum}
use cogent.Ids.{inum_from_id, type_from_id}
use cogent.Tests.Data.{
  naive, granted, ready, ready-HasLeft, inode25, addr_at, garbage, garbage-IsTable, versions,
  deletion,
}

gim_mark-IsMarked_example :
    MarkDone garbage
      (26 * 2 ^ 32)
      9
      2
      3
      (gim_mark_garbage_cnt naive granted ready garbage (26 * 2 ^ 32) (addr_at 5 9) 2 false)
gim_mark-IsMarked_example =
    gim_mark-IsMarked naive granted ready garbage (26 * 2 ^ 32) (addr_at 5 9) 2 false 3
      garbage-IsTable ready-HasLeft

gim_collected-Collected_example :
    CollectDone garbage inode25 4 (gim_garbage_collected naive ready garbage deletion)
unfolding obj_has_id
gim_collected-Collected_example =
    gim_collected-Collected naive ready garbage deletion 4 garbage-IsTable ready-HasLeft refl

gim_is_removable-DelAnswer_example : DelAnswer garbage 9 inode25 (gim_is_removable garbage deletion)
unfolding hash_inum inum_from_id type_from_id
gim_is_removable-DelAnswer_example =
    gim_is_removable-DelAnswer garbage deletion (versions 9 1) garbage-IsTable refl refl
      (omega arith) (omega arith)
