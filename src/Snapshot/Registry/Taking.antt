-- ===== src/Snapshot/Registry/Taking.antt =====
-- `snapshot_take` of module/snapshot.c as a whole: the areas, the trackers, the check for corruption
-- and the images, with what follows an error; and the end of the module.
pub mod Kept
pub mod Refs
pub mod Ends
pub mod Outcomes
pub mod Frozen
pub mod Blocked
pub mod Tests
use blksnap.Prelude.{
  ℕ, zero, suc, ◌+◌, ◌==◌, Bool, true, false, not, Option, none, some, List, [], ◌∷◌, length,
  if◌then◌else◌,
}
use blksnap.Kernel.{Errno, enodev, esrch, ealready, efault, Ret, ok, err}
use blksnap.Area.Data.{DiffArea, diff_area_is_corrupted}
use blksnap.Area.Size.{Outcome, area, wild, diff_area_new}
use blksnap.Area.Size
use blksnap.Tracker.Devices.{World, write_tracker}
use blksnap.SnapImage.{Held, snapimage_create}
use blksnap.Snapshot.{Device, Run, done, snapshot_take_trackers}
use blksnap.Snapshot
use blksnap.Snapshot.Store.{
  Image, Snapshot, Store, Environment, Res, returns, blocks, faults, no_fuel, M, ◌>>=◌, ◌>>◌, pure,
  update, get_object, put_object, gather, scatter,
}
use blksnap.Snapshot.Registry.{snapshot_put, snapshot_get_by_id, unlink}

abbrev pub set_area : ℕ → Option DiffArea → Store → Store
set_area f a st = record st {
  world = write_tracker f (record (st.world.trackers f) { diff_area = a }) st.world;
}

-- The loop that makes the areas.
pub make_areas : Environment → (s : ℕ) → List (Option ℕ) → M Ret
make_areas e s [] st = returns ok st
make_areas e s (none ∷ fs) st = make_areas e s fs st
make_areas e s (some f ∷ fs) st =
    let k = e.device f in
    elim (diff_area_new e.rounding e.params e.fuel k.area k.bdev (st.objects s).diff_storage) [
      | area a ↦
          make_areas e s fs
            (record (set_area f (some a) st) { area_kref = update st.area_kref f 1 })
      | Outcome.error x _ ↦ returns (err x) st
      | wild ↦ faults
      | Outcome.no_fuel ↦ no_fuel
    ]

-- The store after the loops over the trackers, with `is_taken` if it was set.
abbrev pub after_run : (s : ℕ) → List (Option ℕ) → Store → Run → (flag : Bool) → Res Ret
after_run s fs st (done ret ds) flag =
    let st' = scatter fs ds st in
    let o = st'.objects s in
    returns ret (record st' {
      objects = if flag then update st'.objects s (record o { is_taken = true }) else st'.objects;
    })
after_run s fs st Snapshot.blocks flag = blocks
after_run s fs st Snapshot.faults flag = faults

-- `snapshot_take_trackers` on the trackers of the store.
pub take_trackers : Environment → (s : ℕ) → List (Option ℕ) → M Ret
take_trackers e s fs st =
    let out = snapshot_take_trackers e.rounding e.params (gather e st fs) in
    after_run s fs st out.0 out.1

-- The check whether an area is corrupted, with what other threads made of it meanwhile.
pub check_areas : Environment → List (Option ℕ) → M Ret
check_areas e [] st = returns ok st
check_areas e (none ∷ fs) st = check_areas e fs st
check_areas e (some f ∷ fs) st = elim (st.world.trackers f).diff_area [
  | none ↦ faults
  | some a ↦
      let a' = (e.device f).meanwhile a in
      let st' = set_area f (some a') st in
      elim (diff_area_is_corrupted a') [
        | true ↦ returns (err efault) st'
        | false ↦ check_areas e fs st'
      ]
]

-- The entries of the array that the loop does not reach.
abbrev pub blank : List (Option ℕ) → List (Option Image)
blank [] = []
blank (_ ∷ fs) = none ∷ blank fs

abbrev pub with_image : Image → Res (Ret × List (Option Image)) → Res (Ret × List (Option Image))
with_image image (returns (ret, is) st) = returns (ret, some image ∷ is) st
with_image image blocks = blocks
with_image image faults = faults
with_image image no_fuel = no_fuel

-- What `snapimage_create` does to the references of the area of the tracker.
abbrev pub image_made : Environment → ℕ → Store → Ret × Store
image_made e f st =
    let held : Held = record {
      area_kref = st.area_kref f;
      map_kref = 0;
      snapimages = 0;
      workers = 0;
      disks = 0;
    } in
    let out = snapimage_create (e.device f).image held in
    (out.0, record st { area_kref = update st.area_kref f out.1.area_kref })

-- One image, and the loop after it. An error ends the loop; `left` are the entries after this one.
pub make_image :
    Environment
    → ℕ
    → (left : List (Option Image)) → M (Ret × List (Option Image))
    → M (Ret × List (Option Image))
make_image e f left rest st =
    let out = image_made e f st in
    elim out.0 [
      | err x ↦ returns (err x, none ∷ left) out.1
      | ok ↦ with_image (record { disk = (e.device f).image_disk; tracker = f }) (rest out.1)
    ]

-- The result of the loop and the images that it made. A null tracker is read.
pub make_images : Environment → List (Option ℕ) → M (Ret × List (Option Image))
unfolding make_image
make_images e [] st = returns (ok, []) st
make_images e (none ∷ fs) st = faults
make_images e (some f ∷ fs) st = elim (st.world.trackers f).diff_area [
  | none ↦ faults
  | some _ ↦ elim (st.world.trackers f).cbt_map [
    | none ↦ faults
    | some _ ↦ make_image e f (blank fs) (make_images e fs) st
  ]
]

-- What follows an error, from the label `fail` on.
pub fail_take : Environment → (s : ℕ) → Errno → M Ret
unfolding unlink
fail_take e s x = do unlink e s; snapshot_put e s; snapshot_put e s; pure (err x)

-- The last loop, whose error is returned while the snapshot stays taken.
pub finish_take : Environment → (s : ℕ) → M Ret
unfolding make_images
finish_take e s = do
  o ← get_object s
  made ← make_images e o.tracker_array
  o' ← get_object s
  put_object s (record o' { snapimage_array = made.1 })
  snapshot_put e s
  pure made.0

-- The steps from the areas to the check, each after the one before returned 0.
pub take_steps : Environment → (s : ℕ) → (fs : List (Option ℕ)) → M Ret
unfolding make_areas take_trackers check_areas
take_steps e s fs = do
  ret ← make_areas e s fs
  elim ret [
    | err x ↦ pure (err x)
    | ok ↦ do
      ret' ← take_trackers e s fs
      elim ret' [ err x ↦ pure (err x) | ok ↦ check_areas e fs ]
  ]

-- The part of `snapshot_take` after the snapshot was found.
pub take_found : Environment → (s : ℕ) → M Ret
unfolding take_steps fail_take finish_take
take_found e s = do
  o ← get_object s
  elim o.is_taken [
    | true ↦ do snapshot_put e s; pure (err ealready)
    | false ↦ elim (length o.tracker_array == 0) [
      | true ↦ do snapshot_put e s; pure (err enodev)
      | false ↦ do
        ret ← take_steps e s o.tracker_array
        elim ret [ err x ↦ fail_take e s x | ok ↦ finish_take e s ]
    ]
  ]

pub after_find : Environment → Option ℕ → M Ret
unfolding take_found
after_find e none = pure (err esrch)
after_find e (some s) = take_found e s

pub snapshot_take : Environment → (id : ℕ) → M Ret
unfolding after_find
snapshot_take e id = do found ← snapshot_get_by_id e id; after_find e found

-- `snapshot_done`: the first entry is taken off and put, until none is left.
pub snapshot_done : (fuel : ℕ) → Environment → M (Unit {0})
snapshot_done zero e st = no_fuel
snapshot_done (suc fuel) e st =
    let s = st.snapshots.next 0 in
    elim (s == 0) [
      | true ↦ returns tt st
      | false ↦
          elim (snapshot_put e s (record st { snapshots = e.lists.list_del s st.snapshots })) [
            | returns _ st' ↦ snapshot_done fuel e st'
            | blocks ↦ blocks
            | faults ↦ faults
            | no_fuel ↦ no_fuel
          ]
    ]
