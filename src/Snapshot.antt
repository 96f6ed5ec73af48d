-- ===== src/Snapshot.antt =====
-- module/snapshot.c in the standalone build, which freezes the devices one at a time: taking and
-- releasing the trackers of a snapshot, and the check of its devices. The trackers stand in the array
-- of their snapshot, since the devices of a snapshot differ.
pub mod Store
pub mod Registry
pub mod Take
pub mod Release
pub mod Stuck
mod Tests
use blksnap.Prelude.{
  ℕ, ◌+◌, ◌-◌, ◌==◌, Bool, true, false, not, ◌&&◌, ◌||◌, Option, none, some, List, [], ◌∷◌,
  if◌then◌else◌,
}
use blksnap.Kernel.{Errno, einval, Ret, ok, err, Params, Rounding}
use blksnap.Cbt.{Memory}
use blksnap.Area.Data.{DiffArea}
use blksnap.Tracker.{Tracker, tracker_take_snapshot, tracker_release_snapshot}

-- A tracker of the array, whether its queue is frozen, how often its file system is, and what the
-- kernel answers for the device: whether its file system is frozen and thawed, when the snapshot is
-- taken and when it is released again, and for the map.
pub record Device : Type 0 where
  pub tracker : Tracker
  pub queue_frozen : Bool
  pub fs_frozen : ℕ
  pub can_freeze : Bool
  pub can_thaw : Bool
  pub can_freeze_again : Bool
  pub can_thaw_again : Bool
  pub memory : Memory
  pub uuid : ℕ
  pub capacity : ℕ

-- `freeze_bdev` counts, and `thaw_bdev` counts back; each may fail and change nothing. The second is
-- an error where nothing is frozen.
abbrev pub freeze_bdev : (works : Bool) → Device → Device
freeze_bdev works d = if works then record d { fs_frozen = d.fs_frozen + 1 } else d

abbrev pub thaw_bdev : (works : Bool) → Device → Device
thaw_bdev works d = if works then record d { fs_frozen = d.fs_frozen - 1 } else d

-- How a loop over the array ends: with a result, on the lock of a queue that is frozen already, or
-- at a null pointer.
pub data Run : Type 0 where
  done : Ret → List (Option Device) → Run
  blocks faults : Run

abbrev pub after : Option Device → Run → Run
after d (done ret ds) = done ret (d ∷ ds)
after d blocks = blocks
after d faults = faults

-- `tracker_release_snapshot` with the file system frozen around it; `none` where it blocks.
pub release_device : (always_thaw : Bool) → Device → Option Device
release_device always_thaw d =
    let frozen = freeze_bdev d.can_freeze_again d in
    if d.queue_frozen
    then none
    else (let released = record frozen { tracker = tracker_release_snapshot frozen.tracker } in
        some (
          if always_thaw || d.can_freeze_again
          then thaw_bdev d.can_thaw_again released
          else released))

-- One device that was taken is released again, since a later one failed.
pub undo : Device → Run → Run
unfolding release_device
undo d (done ok ds) = done ok (some d ∷ ds)
undo d (done (err e) ds) = elim (release_device true d) [
  | none ↦ blocks
  | some d' ↦ done (err e) (some d' ∷ ds)
]
undo d blocks = blocks
undo d faults = faults

-- The loop of `snapshot_take_trackers`, and the second loop that undoes it.
pub take_loop : Rounding → Params → List (Option Device) → Run
unfolding undo
take_loop K P [] = done ok []
take_loop K P (none ∷ ds) = after none (take_loop K P ds)
take_loop K P (some d ∷ ds) =
    let rest = take_loop K P ds in
    elim d.tracker.diff_area [
      | none ↦ faults
      | some _ ↦
          let frozen = freeze_bdev d.can_freeze d in
          elim (tracker_take_snapshot K P d.memory d.uuid d.capacity d.tracker) [
            | none ↦ faults
            | some (err e, t, queue_frozen) ↦
                done (err e)
                  (some (record frozen { tracker = t; queue_frozen = queue_frozen }) ∷ ds)
            | some (ok, t, queue_frozen) ↦
                let taken = record frozen { tracker = t; queue_frozen = queue_frozen } in
                undo (if d.can_freeze then thaw_bdev d.can_thaw taken else taken) rest
          ]
    ]

-- Whether `is_taken` was set.
abbrev pub with_flag : Run → Run × Bool
with_flag (done ok ds) = (done ok ds, true)
with_flag (done (err e) ds) = (done (err e) ds, false)
with_flag blocks = (blocks, false)
with_flag faults = (faults, false)

-- The array after it, and whether `is_taken` was set.
pub snapshot_take_trackers : Rounding → Params → List (Option Device) → Run × Bool
unfolding take_loop
snapshot_take_trackers K P ds = with_flag (take_loop K P ds)

pub snapshot_release_trackers : List (Option Device) → Run
unfolding release_device
snapshot_release_trackers [] = done ok []
snapshot_release_trackers (none ∷ ds) = after none (snapshot_release_trackers ds)
snapshot_release_trackers (some d ∷ ds) =
    let rest = snapshot_release_trackers ds in
    elim d.tracker.diff_area [
      | none ↦ after (some d) rest
      | some _ ↦ elim (release_device false d) [ none ↦ blocks | some d' ↦ after (some d') rest ]
    ]

-- `struct blk_snap_dev`: the major and the minor number.
abbrev pub BlkSnapDev : Type 0
BlkSnapDev = ℕ × ℕ

pub blk_snap_dev_is_equal : BlkSnapDev → BlkSnapDev → Bool
blk_snap_dev_is_equal (mj, mn) (mj', mn') = mj == mj' && mn == mn'

-- The inner loop of `check_same_devices`, and both.
pub occurs : BlkSnapDev → List BlkSnapDev → Bool
unfolding blk_snap_dev_is_equal
occurs first [] = false
occurs first (second ∷ rest) = blk_snap_dev_is_equal first second || occurs first rest

pub check_same_devices : List BlkSnapDev → Ret
unfolding occurs
check_same_devices [] = ok
check_same_devices (first ∷ rest) =
    if occurs first rest then err einval else check_same_devices rest
