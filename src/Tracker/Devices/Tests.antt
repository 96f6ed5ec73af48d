-- ===== src/Tracker/Devices/Tests.antt =====
-- Runs of the lists of module/tracker.c, and the theorems at them.
use blksnap.Prelude.{◌≡◌, refl, true, none, some, [], ◌∷◌, arith}
use blksnap.Kernel.{ok, dividing, default_params}
use blksnap.Cbt.{CbtMap}
use blksnap.Cbt.Inv.{IsValid}
use blksnap.Cbt.Tests.{device, memory}
use blksnap.BdevFilter.{BlockDevice, bdev_filter_get, bdev_filter_get_by_bdev}
use blksnap.BdevFilter.Refs.{IsKept}
use blksnap.BdevFilter.History.{unused, unused-IsKept, Steps-IsKept}
use blksnap.BdevFilter.Tests.{attached_7, Steps-7}
use blksnap.BdevFilter.Life.{IsBare-unused}
use blksnap.Tracker.Devices.{
  World, opened, Making, got, new_tracker, listed, tracker_put, tracker_create_or_get,
  tracker_remove, tracker_read_cbt_bitmap, tracker_mark_dirty_blocks, tracker_collect,
}
use blksnap.Tracker.Devices.Refs.{IsUntouched, Keeps, queries_keep_refs}
use blksnap.Tracker.Devices.Life.{create_remove_lem}

abbrev a_disk : BlockDevice
a_disk = record { bd_dev = 8; address = 100 }

abbrev empty_world : World
empty_world = record {
  filters = unused.filters;
  trackers = λ _. new_tracker 0 none;
  next = 7;
  tracked_device_list = 3 ∷ [];
  freed = 0;
  trackers_counter = 1;
}

abbrev plenty : Making
plenty = record {
  tr_dev_alloc = true;
  tracker_alloc = true;
  map_alloc = true;
  ext_alloc = true;
  memory = memory;
  capacity = 1000;
}

two_do_not_fit : listed 1 0 (3 ∷ 4 ∷ []) ≡ none
unfolding listed
two_do_not_fit = refl

create_remove_lem_example :
    (c : CbtMap) × (w1 : World) × (tracker_create_or_get dividing default_params plenty
        (opened a_disk)
        empty_world
      ≡ some (got 7, w1))
    × (w1.trackers 7 ≡ new_tracker 8 (some c))
    × IsValid c
    × (w1.filters.kref 7 ≡ 2)
    × (w1.tracked_device_list ≡ 3 ∷ 8 ∷ [])
    × (tracker_create_or_get dividing default_params plenty (opened a_disk) w1
        ≡ some (got 7, record w1 { filters = bdev_filter_get 7 w1.filters }))
    × ((w2 : World) × (tracker_remove ok 8 (opened a_disk) (tracker_put 7 w1) ≡ (ok, w2))
        × (w2.tracked_device_list ≡ 3 ∷ [])
        × (w2.filters.released ≡ 7 ∷ [])
        × (bdev_filter_get_by_bdev a_disk w2.filters ≡ (none, w2.filters)))
create_remove_lem_example =
    create_remove_lem dividing plenty plenty a_disk empty_world ok
      (record { for_tr_dev = refl; for_tracker = refl; for_map = refl; for_ext = refl })
      (omega arith) (IsBare-unused a_disk) refl

-- The disk has the filter 7, whose tracker has a snapshot.
abbrev tracking : World
tracking = record empty_world {
  filters = attached_7.filters;
  trackers = λ _. record (new_tracker 8 (some (device 3))) { snapshot_is_taken = true };
}

tracking-IsKept : IsKept tracking.filters attached_7.held attached_7.made
tracking-IsKept = (Steps-IsKept unused attached_7 Steps-7 unused-IsKept (λ _. omega arith)).0

queries_keep_refs_example :
    IsUntouched tracking (tracker_read_cbt_bitmap (opened a_disk) 0 4 0 tracking).1
    × Keeps tracking (tracker_mark_dirty_blocks (opened a_disk) ((6, 4) ∷ []) tracking)
    × IsUntouched tracking (tracker_collect (λ _. opened a_disk) 4 true tracking).3
queries_keep_refs_example =
    queries_keep_refs tracking attached_7.held attached_7.made (opened a_disk) 0 4 0 ((6, 4) ∷ [])
      (λ _. opened a_disk) 4 true tracking-IsKept
