-- ===== src/Tracker/Devices.antt =====
-- The devices under tracking (module/tracker.c): making, finding and removing trackers, reading and
-- marking their maps, and freeing them in the worker. A tracker is named by the number of its filter.
pub mod Refs
pub mod Life
mod Tests
use blksnap.Prelude.{
  ℕ, ◌+◌, ◌-◌, ◌*◌, ◌%◌, ◌^◌, ◌==◌, Bool, true, false, Option, none, some, List, [], ◌∷◌, ◌++◌,
  length, drop, leb, if◌then◌else◌,
}
use blksnap.Kernel.{
  Errno, enomem, enodata, ebusy, eperm, enodev, enobufs, Ret, ok, err, Params, Rounding, u64,
}
use blksnap.Cbt.{
  CbtMap, Memory, cbt_map_create, cbt_map_read_to_user, cbt_map_mark_dirty_blocks, cbt_map_blk_size,
}
use blksnap.BdevFilter.{
  Filters, BlockDevice, bdev_filter_init, bdev_filter_get, bdev_filter_put, bdev_filter_attach,
  bdev_filter_detach, lp_bdev_filter_detach, bdev_filter_get_by_bdev,
}
use blksnap.Tracker.{Tracker}

-- The trackers by their numbers, the next number, the list of tracked devices, how many of the
-- released trackers are freed, and the counter of trackers.
pub record World : Type 0 where
  pub filters : Filters
  pub trackers : ℕ → Tracker
  pub next : ℕ
  pub tracked_device_list : List ℕ
  pub freed : ℕ
  pub trackers_counter : ℕ

abbrev pub write_tracker : ℕ → Tracker → World → World
write_tracker f t w = record w { trackers = λ x. if x == f then t else w.trackers x }

-- The answer of `blkdev_get_by_dev`.
pub data Opened : Type 0 where
  opened : BlockDevice → Opened
  refused : Errno → Opened

-- The other answers of the kernel.
pub record Making : Type 0 where
  pub tr_dev_alloc : Bool
  pub tracker_alloc : Bool
  pub map_alloc : Bool
  pub ext_alloc : Bool
  pub memory : Memory
  pub capacity : ℕ

-- A pointer to a tracker, or an error pointer.
pub data Got : Type 0 where
  got : ℕ → Got
  failed : Errno → Got

pub tracker_put : ℕ → World → World
tracker_put f w = record w { filters = bdev_filter_put f w.filters }

pub tracker_get_by_dev : BlockDevice → World → Option ℕ × World
tracker_get_by_dev d w =
    let (found, filters) = bdev_filter_get_by_bdev d w.filters in
    (found, record w { filters = filters })

-- The file system is frozen before the filter is attached and thawed after, if that can be done.
pub tracker_filter_attach : (alloc : Bool) → BlockDevice → ℕ → World → Ret × World
tracker_filter_attach alloc d f w =
    let (ret, filters) = bdev_filter_attach alloc d f w.filters in
    (ret, record w { filters = filters })

pub tracker_filter_detach : BlockDevice → World → World
tracker_filter_detach d w = record w { filters = bdev_filter_detach d w.filters }

abbrev pub new_tracker : ℕ → Option CbtMap → Tracker
new_tracker dev map = record {
  dev_id = dev;
  snapshot_is_taken = false;
  cbt_map = map;
  diff_area = none;
  is_frozen = false;
}

-- `none` is the end of the fuel of the block size.
pub tracker_new : Rounding → Params → Making → BlockDevice → World → Option (Got × World)
unfolding tracker_put tracker_filter_attach
tracker_new K P k d w =
    if k.tracker_alloc
    then (let f = w.next in
        let w' = write_tracker f (new_tracker d.bd_dev none) (record w {
          filters = bdev_filter_init f w.filters;
          next = f + 1;
          trackers_counter = w.trackers_counter + 1;
        }) in
        elim (cbt_map_create K P k.map_alloc k.memory k.capacity) [
          | none ↦ none
          | some none ↦ some (failed enomem, tracker_put f w')
          | some (some c) ↦
              let (ret, w'') =
                tracker_filter_attach k.ext_alloc d f
                  (write_tracker f (new_tracker d.bd_dev (some c)) w') in
              elim ret [ ok ↦ some (got f, w'') | err e ↦ some (failed e, tracker_put f w'') ]
        ])
    else some (failed enomem, w)

pub tracker_create_or_get : Rounding → Params → Making → Opened → World → Option (Got × World)
unfolding tracker_get_by_dev tracker_new
tracker_create_or_get K P k (refused e) w = some (failed e, w)
tracker_create_or_get K P k (opened d) w =
    let (found, w') = tracker_get_by_dev d w in
    elim found [
      | some f ↦ some (got f, w')
      | none ↦
          if k.tr_dev_alloc
          then elim (tracker_new K P k d w') [
            | none ↦ none
            | some (failed e, w'') ↦ some (failed e, w'')
            | some (got f, w'') ↦ some (
              got f,
              record w'' {
                filters = bdev_filter_get f w''.filters;
                tracked_device_list = w''.tracked_device_list ++ (d.bd_dev ∷ []);
              },
            )
          ]
          else some (failed enomem, w')
    ]

-- The list without the first entry of the device.
pub remove_first : ℕ → List ℕ → List ℕ
remove_first dev [] = []
remove_first dev (x ∷ xs) = let rest = remove_first dev xs in if x == dev then xs else x ∷ rest

-- `ret` is what the variable of that name holds before it is set, which is the result on success.
pub tracker_remove : (ret : Ret) → (dev : ℕ) → Opened → World → Ret × World
unfolding tracker_get_by_dev tracker_filter_detach remove_first tracker_put
tracker_remove ret dev (refused e) w =
    let (res, filters) = lp_bdev_filter_detach dev w.filters in
    (res, record w { filters = filters })
tracker_remove ret dev (opened d) w =
    let (found, w') = tracker_get_by_dev d w in
    elim found [
      | none ↦ (err enodata, w')
      | some f ↦
          if (w'.trackers f).snapshot_is_taken
          then (err ebusy, tracker_put f w')
          else (let w'' = tracker_filter_detach d w' in
              (
                ret,
                tracker_put f
                    (record w'' { tracked_device_list = remove_first dev w''.tracked_device_list }),
              ))
    ]

-- The result with the size read and the bytes of the user; `none` is an access out of bounds or
-- through a null pointer.
pub tracker_read_cbt_bitmap :
    Opened → (offset length left : ℕ) → World → Option (Ret × ℕ × List ℕ) × World
unfolding tracker_get_by_dev tracker_put
tracker_read_cbt_bitmap (refused e) offset length left w = (some (err e, 0, []), w)
tracker_read_cbt_bitmap (opened d) offset length left w =
    let (found, w') = tracker_get_by_dev d w in
    elim found [
      | none ↦ (some (err enodata, 0, []), w')
      | some f ↦
          let t = w'.trackers f in
          let out =
            if t.snapshot_is_taken
            then elim t.cbt_map [ none ↦ none | some c ↦ cbt_map_read_to_user c offset length left ]
            else some (err eperm, 0, []) in
          (out, tracker_put f w')
    ]

pub tracker_mark_dirty_blocks : Opened → List (ℕ × ℕ) → World → Option (Ret × World)
unfolding tracker_get_by_dev tracker_put
tracker_mark_dirty_blocks (refused e) ranges w = some (err e, w)
tracker_mark_dirty_blocks (opened d) ranges w =
    let (found, w') = tracker_get_by_dev d w in
    elim found [
      | none ↦ some (err enodev, w')
      | some f ↦
          let t = w'.trackers f in
          elim t.cbt_map [
            | none ↦ none
            | some c ↦ elim (cbt_map_mark_dirty_blocks c ranges) [
              | none ↦ none
              | some (ret, c') ↦
                  some (ret, tracker_put f (write_tracker f (record t { cbt_map = some c' }) w'))
            ]
          ]
    ]

-- `struct blk_snap_cbt_info`, with what the user left in the fields that are not written.
pub record CbtInfo : Type 0 where
  pub dev_id : ℕ
  pub device_capacity : ℕ
  pub blk_size : ℕ
  pub blk_count : ℕ
  pub snap_number : ℕ
  pub generation_id : ℕ

pub collect_cbt_info : Opened → CbtInfo → World → CbtInfo × World
unfolding tracker_get_by_dev tracker_put
collect_cbt_info (refused e) info w = (info, w)
collect_cbt_info (opened d) info w =
    let (found, w') = tracker_get_by_dev d w in
    elim found [
      | none ↦ (info, w')
      | some f ↦ elim (w'.trackers f).cbt_map [
        | none ↦ (info, tracker_put f w')
        | some c ↦ (
          record info {
            device_capacity = u64 (c.device_capacity * 512);
            blk_size = cbt_map_blk_size c % 2 ^ 32;
            blk_count = c.blk_count % 2 ^ 32;
            snap_number = c.snap_number_previous % 256;
            generation_id = c.generation_id;
          },
          tracker_put f w',
        )
      ]
    ]

-- `tracker_release_work`: `tracker_free` for each tracker on the list.
pub tracker_release_work : World → World
tracker_release_work w =
    let pending = drop w.freed w.filters.released in
    record w {
      freed = length w.filters.released;
      trackers_counter = w.trackers_counter - length pending;
    }

-- The first loop of `tracker_collect`; `none` where there are more devices than `max_count`.
pub listed : (max_count count : ℕ) → List ℕ → Option (List ℕ)
listed max_count count [] = some []
listed max_count count (dev ∷ devs) = elim (leb max_count count) [
  | true ↦ none
  | false ↦ elim (listed max_count (count + 1) devs) [ none ↦ none | some rest ↦ some (dev ∷ rest) ]
]

abbrev pub zero_info : ℕ → CbtInfo
zero_info dev = record {
  dev_id = dev;
  device_capacity = 0;
  blk_size = 0;
  blk_count = 0;
  snap_number = 0;
  generation_id = 0;
}

-- The second loop. The caller's array is zeroed, and each device is opened again.
pub collect_all : (ℕ → Opened) → List ℕ → World → List CbtInfo × World
unfolding collect_cbt_info
collect_all open_dev [] w = ([], w)
collect_all open_dev (dev ∷ devs) w =
    let (info, w') = collect_cbt_info (open_dev dev) (zero_info dev) w in
    let (infos, w'') = collect_all open_dev devs w' in (info ∷ infos, w'')

-- `has_array` is whether the caller gave an array. The result comes with the count and the array,
-- which mean nothing after an error: the source leaves the count unset then.
pub tracker_collect :
    (ℕ → Opened) → (max_count : ℕ) → (has_array : Bool) → World → Ret × ℕ × List CbtInfo × World
unfolding listed collect_all
tracker_collect open_dev max_count false w = (ok, length w.tracked_device_list, [], w)
tracker_collect open_dev max_count true w = elim (listed max_count 0 w.tracked_device_list) [
  | none ↦ (err enobufs, 0, [], w)
  | some devs ↦ let (infos, w') = collect_all open_dev devs w in (ok, length devs, infos, w')
]
