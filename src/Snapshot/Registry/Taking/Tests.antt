-- ===== src/Snapshot/Registry/Taking/Tests.antt =====
-- A run of `snapshot_take` of module/snapshot.c that blocks, and the theorem at it.
use blksnap.Prelude.{◌≡◌, refl, ap, ◌∙◌, true, false, none, some, [], ◌∷◌, All, arith}
use blksnap.Kernel.{ok, err, enomem, dividing, default_params}
use blksnap.Cbt.Tests.{device, device-IsValid, starved}
use blksnap.Area.Data.{DiffArea}
use blksnap.Area.Size.{diff_area_new, area}
use blksnap.Area.Size.Made.{diff_area_new_lem}
use blksnap.Area.Tests.{disk, storage}
use blksnap.Tracker.Tests.{tracker}
use blksnap.Cbt.{CbtMap, cbt_map_reset}
use blksnap.Cbt.Size.{reset_lem}
use blksnap.Tracker.Take.{take_stopped}
use blksnap.Snapshot.{Device, done, with_flag, snapshot_take_trackers}
use blksnap.Snapshot.Take.{IsReady, On, with_tracker, loop_err}
use blksnap.Snapshot.Store.{Store, Environment, returns, blocks, update, device_of, gather}
use blksnap.Snapshot.Registry.Tests.{
  kernel, an_answer, an_object, one_snapshot, one_snapshot-Registered,
}
use blksnap.Snapshot.Registry.History.{Registered}
use blksnap.Snapshot.Registry.Taking.{set_area, make_areas, snapshot_take}
use blksnap.Snapshot.Registry.Taking.Kept.{makes}
use blksnap.Snapshot.Registry.Taking.Ends.{with_reference}
use blksnap.Snapshot.Registry.Taking.Blocked.{IsWaiting, take_blocks_for_ever}

-- There is no memory for the map of a device that has changed its size.
abbrev short_of_memory : Environment
short_of_memory = record (kernel 8) {
  device = λ _. record an_answer { memory = starved; bdev = disk };
}

-- The snapshot 1 has a storage with room and one tracker, the map of which is of another size.
abbrev waiting : Store
waiting = record one_snapshot {
  objects = λ _. record (an_object 7 false (some 3 ∷ []) (none ∷ [])) { diff_storage = storage };
  world = record one_snapshot.world { trackers = λ _. record (tracker false) { diff_area = none } };
}

waiting-IsWaiting : IsWaiting 1 waiting
waiting-IsWaiting = record { first = refl; images = refl; listed_only = refl; distinct = (tt, tt) }

waiting-Registered : Registered waiting (some 1)
waiting-Registered = record {
  at_most = one_snapshot-Registered.at_most;
  below = one_snapshot-Registered.below;
  positive = one_snapshot-Registered.positive;
}

abbrev area_is_made :
    (a : DiffArea) × (diff_area_new dividing default_params 35 an_answer.area disk storage ≡ area a)
area_is_made =
    let (_, has_room) =
      diff_area_new_lem dividing an_answer.area disk storage refl refl (λ _. refl) (λ _. refl)
        (omega arith) (omega arith) (omega arith) in
    let (a, is, _, _, _, _) = has_room (omega arith) in (a, is)

abbrev with_area : (a : DiffArea) → Store
with_area a =
    let st = with_reference 1 waiting in
    record (set_area 3 (some a) st) { area_kref = update st.area_kref 3 1 }

makes_area :
    (a : DiffArea)
    → diff_area_new dividing default_params 35 an_answer.area disk storage ≡ area a
    → make_areas short_of_memory 1 (some 3 ∷ []) (with_reference 1 waiting)
      ≡ returns ok (with_area a)
unfolding make_areas
makes_area a is = ap (makes short_of_memory 1 3 [] (with_reference 1 waiting)) is

is_ready : (a : DiffArea) → All (On IsReady) (gather short_of_memory (with_area a) (some 3 ∷ []))
is_ready a = (
  record {
    area = a;
    map = device 3;
    has_area = refl;
    has_map = refl;
    valid = device-IsValid 3 (omega arith) (omega arith);
    fits = omega arith;
    no_snapshot = refl;
    queue_runs = refl;
    fs_runs = refl;
  },
  tt,
)

abbrev device_three : (a : DiffArea) → Device
device_three a = device_of short_of_memory (with_area a) 3

no_memory :
    (c' : CbtMap) × (cbt_map_reset dividing default_params starved (device 3) 1000000
      ≡ some (err enomem, c'))
no_memory =
    let (ret, c', run, _, _, _, _, bad) =
      reset_lem dividing starved 1000000 (omega arith) (device 3) in
    let (refused, _, _) = bad refl in (c', run ∙ ap (λ r. some (r, c')) refused)

fails :
    (a : DiffArea) (c' : CbtMap)
    → cbt_map_reset dividing default_params starved (device 3) 1000000 ≡ some (err enomem, c')
    → (snapshot_take_trackers dividing default_params
        (gather short_of_memory (with_area a) (some 3 ∷ []))).0
      ≡ done (err enomem) (
          some (
            with_tracker
              (device_three a)
              (record (device_three a).tracker { cbt_map = some c' })
              true)
          ∷ [])
unfolding snapshot_take_trackers
fails a c' reset =
    let d = device_three a in
    let t = record d.tracker { cbt_map = some c' } in
    ap (λ r. (with_flag r).0)
      (loop_err dividing d [] a t refl enomem
        (take_stopped dividing starved 9 1000000 d.tracker (device 3) a c' refl refl reset))

take_blocks_for_ever_example : snapshot_take short_of_memory 7 waiting ≡ blocks
take_blocks_for_ever_example =
    take_blocks_for_ever short_of_memory 7 1 waiting (with_area area_is_made.0) enomem
      (some (
          with_tracker (device_three area_is_made.0)
            (record (device_three area_is_made.0).tracker { cbt_map = some no_memory.0 }) true)
        ∷ [])
      (omega arith) refl waiting-Registered refl waiting-IsWaiting
      (makes_area area_is_made.0 area_is_made.1) (is_ready area_is_made.0)
      (fails area_is_made.0 no_memory.0 no_memory.1)
