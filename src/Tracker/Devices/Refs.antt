-- ===== src/Tracker/Devices/Refs.antt =====
-- The queries about a tracked device (module/tracker.c) leave the references of its tracker alone.
use blksnap.Prelude.{
  ℕ, ◌<◌, ◌≡◌, refl, ◌∙◌, inl, inr, Bool, true, false, Option, none, some, List, [], ◌∷◌,
  Option-cases,
}
use blksnap.Kernel.{Ret}
use blksnap.Cbt.{cbt_map_mark_dirty_blocks}
use blksnap.BdevFilter.{BlockDevice, bdev_filter_get_by_bdev, bdev_filter_get, bdev_filter_put}
use blksnap.BdevFilter.Refs.{IsKept}
use blksnap.BdevFilter.Lookup.{get_by_bdev-cases, IsSame, self-IsSame, get_put-IsSame}
use blksnap.Tracker.Devices.{
  World, Opened, opened, refused, CbtInfo, zero_info, listed, tracker_get_by_dev, tracker_put,
  tracker_read_cbt_bitmap, tracker_mark_dirty_blocks, collect_cbt_info, collect_all,
  tracker_collect,
}

-- The filters and the list of tracked devices are as they were.
pub record IsUntouched (w w' : World) : Type 0 where
  pub filters_same : IsSame w.filters w'.filters
  pub devices_same : w'.tracked_device_list ≡ w.tracked_device_list

self-IsUntouched : (w : World) → IsUntouched w w
self-IsUntouched w = record { filters_same = self-IsSame w.filters; devices_same = refl }

trans-IsUntouched : (a b c : World) → IsUntouched a b → IsUntouched b c → IsUntouched a c
trans-IsUntouched a b c f g = record {
  filters_same = record {
    list_same = g.filters_same.list_same ∙ f.filters_same.list_same;
    kref_same = λ x. g.filters_same.kref_same x ∙ f.filters_same.kref_same x;
    released_same = g.filters_same.released_same ∙ f.filters_same.released_same;
  };
  devices_same = g.devices_same ∙ f.devices_same;
}

got_put-IsSame :
    (d : BlockDevice) (w : World) (f : ℕ)
    → 0 < w.filters.kref f
    → bdev_filter_get_by_bdev d w.filters ≡ (some f, bdev_filter_get f w.filters)
    → IsSame w.filters (bdev_filter_put f (bdev_filter_get_by_bdev d w.filters).1)
got_put-IsSame d w f some_ref e = rw e (get_put-IsSame w.filters f some_ref)

read-IsUntouched :
    (o : Opened) (offset len left : ℕ) (w : World) (held made : ℕ → ℕ)
    → IsKept w.filters held made
    → IsUntouched w (tracker_read_cbt_bitmap o offset len left w).1
unfolding tracker_read_cbt_bitmap tracker_get_by_dev tracker_put
read-IsUntouched (refused e) offset len left w held made k = self-IsUntouched w
read-IsUntouched (opened d) offset len left w held made k =
    elim (get_by_bdev-cases d w.filters held made k) [
      | inl e ↦ rw (e, tracker_read_cbt_bitmap) (rw (e, tracker_get_by_dev) (self-IsUntouched w))
      | inr (f, some_ref, e) ↦
          rw (e, tracker_read_cbt_bitmap)
            (record { filters_same = got_put-IsSame d w f some_ref e; devices_same = refl })
    ]

collect-IsUntouched :
    (o : Opened) (info : CbtInfo) (w : World) (held made : ℕ → ℕ)
    → IsKept w.filters held made
    → IsUntouched w (collect_cbt_info o info w).1
unfolding collect_cbt_info tracker_get_by_dev tracker_put
collect-IsUntouched (refused e) info w held made k = self-IsUntouched w
collect-IsUntouched (opened d) info w held made k =
    elim (get_by_bdev-cases d w.filters held made k) [
      | inl e ↦ rw (e, collect_cbt_info) (rw (e, tracker_get_by_dev) (self-IsUntouched w))
      | inr (f, some_ref, e) ↦
          let same : IsUntouched w (tracker_put f (tracker_get_by_dev d w).1) = record {
            filters_same = got_put-IsSame d w f some_ref e;
            devices_same = refl;
          } in
          elim (Option-cases (w.trackers f).cbt_map) [
            | inl no_map ↦ rw (e, no_map, collect_cbt_info) same
            | inr (c, map) ↦ rw (e, map, collect_cbt_info) same
          ]
    ]

-- The same references go on being counted.
IsUntouched-IsKept :
    (w w' : World) (held made : ℕ → ℕ)
    → IsUntouched w w'
    → IsKept w.filters held made
    → IsKept w'.filters held made
IsUntouched-IsKept w w' held made u k = record {
  distinct = λ dev. rw u.filters_same.list_same (k.distinct dev);
  refs = record {
    counted = λ f. rw u.filters_same.list_same (u.filters_same.kref_same f ∙ k.refs.counted f);
    once = λ f. rw (u.filters_same.list_same, u.filters_same.released_same) (k.refs.once f);
  };
}

collect_all-IsUntouched :
    (open_dev : ℕ → Opened) (devs : List ℕ) (w : World) (held made : ℕ → ℕ)
    → IsKept w.filters held made
    → IsUntouched w (collect_all open_dev devs w).1
unfolding collect_all
collect_all-IsUntouched open_dev [] w held made k = self-IsUntouched w
collect_all-IsUntouched open_dev (dev ∷ devs) w held made k =
    let w' = (collect_cbt_info (open_dev dev) (zero_info dev) w).1 in
    let u = collect-IsUntouched (open_dev dev) (zero_info dev) w held made k in
    trans-IsUntouched w w' (collect_all open_dev devs w').1 u
      (collect_all-IsUntouched open_dev devs w' held made (IsUntouched-IsKept w w' held made u k))

-- Where the marking of blocks comes to an end, it left the references alone.
abbrev pub Keeps : World → Option (Ret × World) → Type 0
Keeps w none = Unit
Keeps w (some (_, w')) = IsUntouched w w'

mark-Keeps :
    (o : Opened) (ranges : List (ℕ × ℕ)) (w : World) (held made : ℕ → ℕ)
    → IsKept w.filters held made
    → Keeps w (tracker_mark_dirty_blocks o ranges w)
unfolding tracker_mark_dirty_blocks tracker_get_by_dev tracker_put
mark-Keeps (refused e) ranges w held made k = self-IsUntouched w
mark-Keeps (opened d) ranges w held made k = elim (get_by_bdev-cases d w.filters held made k) [
  | inl e ↦ rw (e, tracker_mark_dirty_blocks) (rw (e, tracker_get_by_dev) (self-IsUntouched w))
  | inr (f, some_ref, e) ↦ elim (Option-cases (w.trackers f).cbt_map) [
    | inl no_map ↦ rw (e, no_map, tracker_mark_dirty_blocks) tt
    | inr (c, map) ↦ elim (Option-cases (cbt_map_mark_dirty_blocks c ranges)) [
      | inl faulted ↦ rw (e, map, faulted, tracker_mark_dirty_blocks) tt
      | inr ((ret, c'), marked) ↦
          rw (e, map, marked, tracker_mark_dirty_blocks)
            (record { filters_same = got_put-IsSame d w f some_ref e; devices_same = refl })
    ]
  ]
]

collected-IsUntouched :
    (open_dev : ℕ → Opened) (max_count : ℕ) (has_array : Bool) (w : World) (held made : ℕ → ℕ)
    → IsKept w.filters held made
    → IsUntouched w (tracker_collect open_dev max_count has_array w).3
unfolding tracker_collect
collected-IsUntouched open_dev max_count false w held made k = self-IsUntouched w
collected-IsUntouched open_dev max_count true w held made k =
    elim (Option-cases (listed max_count 0 w.tracked_device_list)) [
      | inl too_many ↦ rw (too_many, tracker_collect) (self-IsUntouched w)
      | inr (devs, all) ↦
          rw (all, tracker_collect) (collect_all-IsUntouched open_dev devs w held made k)
    ]

-- In a state where the references of the filters are counted, reading the map of a device, marking
-- blocks in it, or collecting the devices leaves every counter, the list of extensions, the released
-- filters and the list of tracked devices as they were, whether the device opens, has a tracker, has
-- a snapshot, or its query ends with an error; the marking, unless it reads through a null pointer.
pub queries_keep_refs :
    (w : World) (held made : ℕ → ℕ) (o : Opened) (offset len left : ℕ) (ranges : List (ℕ × ℕ))
    (open_dev : ℕ → Opened) (max_count : ℕ) (has_array : Bool)
    → IsKept w.filters held made
    → IsUntouched w (tracker_read_cbt_bitmap o offset len left w).1
      × Keeps w (tracker_mark_dirty_blocks o ranges w)
      × IsUntouched w (tracker_collect open_dev max_count has_array w).3
queries_keep_refs w held made o offset len left ranges open_dev max_count has_array k = (
  read-IsUntouched o offset len left w held made k,
  mark-Keeps o ranges w held made k,
  collected-IsUntouched open_dev max_count has_array w held made k,
)
