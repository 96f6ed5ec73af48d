-- ===== src/Snapshot/Tests.antt =====
-- Runs of module/snapshot.c, and the theorems at them.
use blksnap.Prelude.{ℕ, ◌≤◌, ◌≡◌, refl, Bool, true, false, Option, some, List, [], ◌∷◌, All, arith}
use blksnap.Kernel.{Errno, einval, Ret, ok, err, dividing, default_params}
use blksnap.Cbt.Tests.{device, device-IsValid, starved}
use blksnap.Area.Tests.{two_chunks}
use blksnap.Tracker.Tests.{tracker}
use blksnap.Snapshot.{
  Device, done, blocks, snapshot_take_trackers, snapshot_release_trackers, check_same_devices,
  occurs, blk_snap_dev_is_equal,
}
use blksnap.Snapshot.Take.{IsReady, On, AllOrNone, take_all_or_none}
use blksnap.Snapshot.Release.{Released, take_then_release}

-- A device whose map has the size `cap` or not, without memory for another map.
abbrev a_device : (cap : ℕ) → Device
a_device cap = record {
  tracker = tracker false;
  queue_frozen = false;
  fs_frozen = 0;
  can_freeze = true;
  can_thaw = true;
  can_freeze_again = true;
  can_thaw_again = true;
  memory = starved;
  uuid = 9;
  capacity = cap;
}

abbrev two_devices : List (Option Device)
two_devices = some (a_device 32) ∷ some (a_device 40) ∷ []

a_device-IsReady : (cap : ℕ) → cap ≤ 100 → IsReady (a_device cap)
a_device-IsReady cap small = record {
  area = two_chunks;
  map = device 3;
  has_area = refl;
  has_map = refl;
  valid = device-IsValid 3 (omega arith) (omega arith);
  fits = omega arith;
  no_snapshot = refl;
  queue_runs = refl;
  fs_runs = refl;
}

two_devices-IsReady : All (On IsReady) two_devices
two_devices-IsReady = (a_device-IsReady 32 (omega arith), (a_device-IsReady 40 (omega arith), tt))

same_device_twice : check_same_devices ((8, 1) ∷ (8, 2) ∷ (8, 1) ∷ []) ≡ err einval
unfolding check_same_devices occurs blk_snap_dev_is_equal
same_device_twice = refl

-- What taking the two devices comes to.
abbrev taking :
    (ret : Ret) × (ds' : List (Option Device)) × (flag : Bool) × (snapshot_take_trackers dividing
        default_params two_devices
      ≡ (done ret ds', flag))
    × AllOrNone ret ds' flag
taking = take_all_or_none dividing two_devices two_devices-IsReady

take_then_release_example :
    (taking.0 ≡ ok → Released (snapshot_release_trackers taking.1))
    × ((e : Errno) → taking.0 ≡ err e → snapshot_release_trackers taking.1 ≡ blocks)
take_then_release_example =
    take_then_release dividing two_devices taking.1 taking.0 taking.2 two_devices-IsReady taking.3
