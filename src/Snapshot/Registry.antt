-- ===== src/Snapshot/Registry.antt =====
-- The list of snapshots in module/snapshot.c: making, finding, releasing and destroying a snapshot,
-- and the calls that only look at the list. The lock of the list makes each walk one step.
pub mod Listed
pub mod Keeps
pub mod History
pub mod Created
pub mod Calls
pub mod Taking
pub mod Reached
pub mod Tests
use blksnap.Prelude.{
  ℕ, zero, suc, ◌+◌, ◌-◌, ◌==◌, ltb, leb, Bool, true, false, not, ◌&&◌, Option, none, some, List,
  [], ◌∷◌, ◌++◌, length, if◌then◌else◌,
}
use blksnap.Kernel.{Errno, enomem, enodev, esrch, enodata, Ret, ok, err}
use blksnap.Events.{Wait, Waited, error, event_wait}
use blksnap.Storage.{DiffStorage, UserRange, diff_storage_new, diff_storage_append_block}
use blksnap.Storage
use blksnap.Cbt.{cbt_map_mark_dirty_blocks}
use blksnap.Tracker.Devices.{World, got, failed, tracker_put, tracker_create_or_get, write_tracker}
use blksnap.Snapshot.{Device, Run, done, BlkSnapDev, snapshot_release_trackers, check_same_devices}
use blksnap.Snapshot
use blksnap.Snapshot.Store.{
  Links, Image, Snapshot, Store, Environment, Res, returns, blocks, faults, no_fuel, M, ◌>>=◌, ◌>>◌,
  pure, update, get_object, put_object, gather, scatter,
}

-- `kref_put` of the area of a tracker; the last one frees it.
pub diff_area_put : ℕ → M (Unit {0})
diff_area_put f st =
    let st' = record st { area_kref = update st.area_kref f (st.area_kref f - 1) } in
    returns tt
      (if st.area_kref f == 1 then record st' { areas_freed = st.areas_freed ++ (f ∷ []) } else st')

-- `snapimage_free`, of which the snapshot sees the reference to the area.
pub snapimage_free : Image → M (Unit {0})
unfolding diff_area_put
snapimage_free image = diff_area_put image.tracker

pub free_images : List (Option Image) → M (Unit {0})
unfolding snapimage_free
free_images [] = pure tt
free_images (none ∷ images) = free_images images
free_images (some image ∷ images) = do snapimage_free image; free_images images

-- `snapshot_release_trackers` on the trackers of the store.
pub release_trackers : Environment → List (Option ℕ) → M (Unit {0})
release_trackers e fs st = elim (snapshot_release_trackers (gather e st fs)) [
  | done ret ds ↦ returns tt (scatter fs ds st)
  | Snapshot.blocks ↦ blocks
  | Snapshot.faults ↦ faults
]

-- The reference of the snapshot, whose pointer may be null.
pub put_area : ℕ → M (Unit {0})
unfolding diff_area_put
put_area f st = elim (st.world.trackers f).diff_area [
  | none ↦ returns tt st
  | some _ ↦ diff_area_put f st
]

pub drop_tracker : ℕ → M (Unit {0})
drop_tracker f st =
    let t = record (st.world.trackers f) { diff_area = none } in
    returns tt (record st { world = tracker_put f (write_tracker f t st.world) })

-- The last loop of `snapshot_release`.
pub put_trackers : List (Option ℕ) → M (Unit {0})
unfolding put_area drop_tracker
put_trackers [] = pure tt
put_trackers (none ∷ fs) = put_trackers fs
put_trackers (some f ∷ fs) = do put_area f; drop_tracker f; put_trackers fs

pub snapshot_release : Environment → ℕ → M (Unit {0})
unfolding free_images release_trackers put_trackers
snapshot_release e s = do
  o ← get_object s
  free_images o.snapimage_array
  release_trackers e o.tracker_array
  put_trackers o.tracker_array

-- What stays of the object is no longer of use.
pub snapshot_free : Environment → ℕ → M (Unit {0})
unfolding snapshot_release
snapshot_free e s = do
  snapshot_release e s
  (λ st. returns tt (record st { freed = st.freed ++ (s ∷ []) }))

pub snapshot_get : ℕ → M (Unit {0})
snapshot_get s st = returns tt (record st { kref = update st.kref s (st.kref s + 1) })

pub snapshot_put : Environment → ℕ → M (Unit {0})
unfolding snapshot_free
snapshot_put e s st =
    let st' = record st { kref = update st.kref s (st.kref s - 1) } in
    elim (st.kref s == 1) [ true ↦ snapshot_free e s st' | false ↦ returns tt st' ]

-- A pointer to a snapshot, or an error pointer.
pub data Made : Type 0 where
  made : ℕ → Made
  refused : Errno → Made

pub new_object : Environment → DiffStorage → M Made
new_object e d st =
    let s = st.next_snapshot in
    returns (made s) (record st {
      snapshots = e.lists.init_list_head s st.snapshots;
      objects = update st.objects s (record {
        id = e.uuid_gen;
        is_taken = false;
        diff_storage = d;
        tracker_array = [];
        snapimage_array = [];
      });
      kref = update st.kref s 1;
      next_snapshot = s + 1;
    })

pub snapshot_new : Environment → M Made
unfolding new_object
snapshot_new e =
    if not (e.snapshot_alloc && e.tracker_array_alloc && e.snapimage_array_alloc)
    then pure (refused enomem)
    else elim (diff_storage_new e.params e.storage_alloc e.alarm) [
      | none ↦ pure (refused enomem)
      | some d ↦ new_object e d
    ]

-- The loop of `snapshot_create`.
pub add_trackers : Environment → ℕ → List BlkSnapDev → M Ret
add_trackers e s [] st = returns ok st
add_trackers e s ((mj, mn) ∷ devs) st =
    let dev = e.mkdev mj mn in
    elim (tracker_create_or_get e.rounding e.params (e.making dev) (e.open_dev dev) st.world) [
      | none ↦ no_fuel
      | some (failed x, w) ↦ returns (err x) (record st { world = w })
      | some (got f, w) ↦
          let o = st.objects s in
          let o' = record o {
            tracker_array = o.tracker_array ++ (some f ∷ []);
            snapimage_array = o.snapimage_array ++ (none ∷ []);
          } in
          add_trackers e s devs (record st { world = w; objects = update st.objects s o' })
    ]

-- The part of `snapshot_create` after the loop. The call of `list_add_tail` has the head of the list
-- as its new entry, and the snapshot as the head.
pub finish_create : Environment → ℕ → Ret → M Made
unfolding snapshot_put
finish_create e s (err x) st = (do snapshot_put e s; pure (refused x)) st
finish_create e s ok st =
    returns (made s) (record st { snapshots = e.lists.list_add_tail 0 s st.snapshots })

-- The part of it after `snapshot_new`.
pub fill_snapshot : Environment → List BlkSnapDev → Made → M Made
unfolding add_trackers finish_create
fill_snapshot e devs (refused x) st = returns (refused x) st
fill_snapshot e devs (made s) st = (do ret ← add_trackers e s devs; finish_create e s ret) st

-- The snapshot is named by its number; the caller gets its identifier.
pub snapshot_create : Environment → List BlkSnapDev → M Made
unfolding snapshot_new fill_snapshot
snapshot_create e devs = elim (check_same_devices devs) [
  | err x ↦ pure (refused x)
  | ok ↦ do new ← snapshot_new e; fill_snapshot e devs new
]

-- The walk of `list_for_each_entry` from an entry to the head; `none` is the end of the fuel.
pub entries : (fuel : ℕ) → Links → (pos : ℕ) → Option (List ℕ)
entries zero l pos = none
entries (suc fuel) l pos = elim (pos == 0) [
  | true ↦ some []
  | false ↦ elim (entries fuel l (l.next pos)) [ none ↦ none | some rest ↦ some (pos ∷ rest) ]
]

-- The same walk with the test of the identifier, which ends at the first that is equal.
pub find_by_id : (fuel : ℕ) → (ℕ → Snapshot) → Links → (id pos : ℕ) → Option (Option ℕ)
find_by_id zero objects l id pos = none
find_by_id (suc fuel) objects l id pos = elim (pos == 0) [
  | true ↦ some none
  | false ↦ elim ((objects pos).id == id) [
    | true ↦ some (some pos)
    | false ↦ find_by_id fuel objects l id (l.next pos)
  ]
]

-- An empty list is the walk that ends at once.
pub lookup : Environment → ℕ → M (Option ℕ)
unfolding find_by_id
lookup e id st = elim (find_by_id e.fuel st.objects st.snapshots id (st.snapshots.next 0)) [
  | none ↦ no_fuel
  | some found ↦ returns found st
]

pub snapshot_get_by_id : Environment → ℕ → M (Option ℕ)
unfolding lookup snapshot_get
snapshot_get_by_id e id = do
  found ← lookup e id
  elim found [ none ↦ pure none | some s ↦ do snapshot_get s; pure (some s) ]

pub unlink : Environment → ℕ → M (Unit {0})
unlink e s st = returns tt (record st { snapshots = e.lists.list_del s st.snapshots })

pub snapshot_destroy : Environment → ℕ → M Ret
unfolding lookup unlink snapshot_put
snapshot_destroy e id = do
  found ← lookup e id
  elim found [ none ↦ pure (err enodev) | some s ↦ do unlink e s; snapshot_put e s; pure ok ]
