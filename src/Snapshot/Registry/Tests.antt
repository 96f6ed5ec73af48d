-- ===== src/Snapshot/Registry/Tests.antt =====
-- Runs of the list of snapshots of module/snapshot.c, and the theorems at them.
use blksnap.Prelude.{
  ℕ, ◌+◌, ◌*◌, ◌==◌, ◌≡◌, refl, Bool, true, false, Option, none, some, List, [], ◌∷◌, arith,
  if◌then◌else◌,
}
use blksnap.Kernel.{ok, dividing, default_params}
use blksnap.Cbt.Tests.{memory}
use blksnap.Storage.{DiffStorage, diff_storage_new}
use blksnap.Tracker.Devices.{World, Making, opened, new_tracker}
use blksnap.Snapshot.{check_same_devices}
use blksnap.Snapshot.Store.{linking, Image, Snapshot, Store, Answers, Environment, Res, returns}
use blksnap.Snapshot.Registry.{
  made, new_object, snapshot_new, fill_snapshot, finish_create, add_trackers, snapshot_create,
  lookup, entries,
}
use blksnap.Snapshot.Registry.Listed.{no_entry, one_entry, as_list, found_in}
use blksnap.Snapshot.Registry.History.{Registered}
use blksnap.Snapshot.Registry.Created.{LeftAlone, create_hides_others}
use blksnap.Snapshot.Registry.Reached.{start, create, one_listed}
use blksnap.Snapshot.Registry.Taking.{snapshot_take}
use blksnap.Snapshot.Registry.Taking.Outcomes.{TakesFound, take_outcomes}

abbrev pub an_answer : Answers
an_answer = record {
  can_freeze = true;
  can_thaw = true;
  can_freeze_again = true;
  can_thaw_again = true;
  memory = memory;
  uuid = 9;
  bdev = record { dev = 8; bdev_nr_sectors = 1000; bdev_io_min = 4096 };
  area = record { opened = ok; area_alloc = true; chunk_alloc_ok = λ _. true; insert = λ _. ok };
  image = record {
    image_alloc = true;
    task = ok;
    disk_alloc = true;
    name_fits = true;
    add_disk = ok;
    free_disk = λ added. added;
  };
  image_disk = 259;
  meanwhile = λ a. a;
}

abbrev plenty : Making
plenty = record {
  tr_dev_alloc = true;
  tracker_alloc = true;
  map_alloc = true;
  ext_alloc = true;
  memory = memory;
  capacity = 1000;
}

-- The kernel gives the identifier `id` to a new snapshot.
abbrev pub kernel : (id : ℕ) → Environment
kernel id = record {
  lists = linking;
  rounding = dividing;
  params = default_params;
  fuel = 35;
  mkdev = λ mj mn. mj * 1048576 + mn;
  snapshot_alloc = true;
  tracker_array_alloc = true;
  snapimage_array_alloc = true;
  storage_alloc = true;
  alarm = record { alloc = true; time = 0 };
  uuid_gen = id;
  open_dev = λ dev. opened (record { bd_dev = dev; address = 100 + dev });
  making = λ _. plenty;
  device = λ _. an_answer;
}

abbrev no_storage : DiffStorage
no_storage = record {
  storage_bdevs = [];
  empty_blocks = [];
  filled_blocks = [];
  capacity = 0;
  filled = 0;
  requested = 0;
  low_space_flag = 0;
  overflow_flag = 0;
  event_queue = [];
}

abbrev pub an_object : (id : ℕ) → Bool → List (Option ℕ) → List (Option Image) → Snapshot
an_object id taken trackers images = record {
  id = id;
  is_taken = taken;
  diff_storage = no_storage;
  tracker_array = trackers;
  snapimage_array = images;
}

abbrev pub no_world : World
no_world = record {
  filters = record { bdev_extension_list = []; kref = λ _. 0; released = [] };
  trackers = λ _. new_tracker 0 none;
  next = 1;
  tracked_device_list = [];
  freed = 0;
  trackers_counter = 0;
}

abbrev pub no_snapshots : Store
no_snapshots = record {
  snapshots = record { next = λ _. 0; prev = λ _. 0 };
  objects = λ _. an_object 0 false [] [];
  kref = λ _. 0;
  next_snapshot = 1;
  world = no_world;
  queue_frozen = λ _. false;
  fs_frozen = λ _. 0;
  area_kref = λ _. 0;
  freed = [];
  areas_freed = [];
}

pub no_snapshots-Registered : Registered no_snapshots none
no_snapshots-Registered = record {
  at_most = no_entry refl refl;
  below = tt;
  positive = omega arith;
}

abbrev store_of : {A : Type 0} → Res A → Store
store_of (returns a st) = st
store_of Res.blocks = no_snapshots
store_of Res.faults = no_snapshots
store_of Res.no_fuel = no_snapshots

-- One snapshot with a tracker, which is not taken.
abbrev pub one_snapshot : Store
one_snapshot = record no_snapshots {
  snapshots = record { next = λ x. if x == 0 then 1 else 0; prev = λ x. if x == 0 then 1 else 0 };
  objects = λ _. an_object 7 false (some 3 ∷ []) (none ∷ []);
  kref = λ _. 1;
  next_snapshot = 2;
}

pub one_snapshot-Registered : Registered one_snapshot (some 1)
one_snapshot-Registered = record {
  at_most = one_entry (ground arith) refl refl refl refl;
  below = omega arith;
  positive = omega arith;
}

-- A second snapshot, with the identifier 8, is created beside it.
abbrev two_created : Store
two_created = store_of (snapshot_create (kernel 8) [] one_snapshot)

creates_second : snapshot_create (kernel 8) [] one_snapshot ≡ returns (made 2) two_created
unfolding snapshot_create snapshot_new new_object fill_snapshot add_trackers finish_create
    check_same_devices diff_storage_new
creates_second = refl

-- The first snapshot, with the identifier 7, is no longer found.
create_hides_others_example :
    (◌≡◌ {A = ℕ} 2 one_snapshot.next_snapshot)
    × (lookup (kernel 8) 7 two_created ≡ returns (if 8 == 7 then some 2 else none) two_created)
    × LeftAlone 2 one_snapshot two_created
create_hides_others_example =
    create_hides_others (kernel 8) (kernel 8) [] one_snapshot two_created (some 1) 2 7
      one_snapshot-Registered (omega arith) creates_second

abbrev one_created : Store
one_created = store_of (snapshot_create (kernel 8) [] no_snapshots)

creates_first : snapshot_create (kernel 8) [] no_snapshots ≡ returns (made 1) one_created
unfolding snapshot_create snapshot_new new_object fill_snapshot add_trackers finish_create
    check_same_devices diff_storage_new
creates_first = refl

one_listed_example :
    (o : Option ℕ) × (entries 2 one_created.snapshots (one_created.snapshots.next 0)
      ≡ some (as_list o))
one_listed_example =
    one_listed one_created 2
      (create (kernel 8) [] (made 1) (start no_snapshots refl refl (omega arith)) creates_first)
      (omega arith)

take_outcomes_example :
    TakesFound
      (kernel 8)
      one_snapshot
      (found_in one_snapshot.objects 7 (some 1))
      (snapshot_take (kernel 8) 7 one_snapshot)
take_outcomes_example =
    take_outcomes (kernel 8) 7 one_snapshot (some 1) (omega arith) one_snapshot-Registered
      (λ s _. refl)
