-- ===== src/Tracker/Devices/Life.antt =====
-- The life of a tracker (module/tracker.c): made for a device that had none, found again, put by the
-- snapshot, and removed.
use blksnap.Prelude.{
  ℕ, ◌+◌, ◌≤◌, ◌≡◌, refl, ap, ◌∙◌, inl, inr, Bool, true, false, ◌&&◌, none, some, List, [], ◌∷◌,
  ◌++◌, ◌==◌, arith, Bool-cases, if◌then◌else◌,
}
use blksnap.Kernel.{Ret, ok, Rounding, default_params}
use blksnap.Cbt.{CbtMap, cbt_map_create}
use blksnap.Cbt.Inv.{IsValid}
use blksnap.Cbt.Size.{create_lem, max_capacity}
use blksnap.BdevFilter.{
  BlockDevice, bdev_filter_init, bdev_filter_get, bdev_filter_put, bdev_filter_attach,
  bdev_filter_get_by_bdev,
}
use blksnap.BdevFilter.Life.{IsBare, lookup_bare, attached_filter, detached_filter, life_lem}
use blksnap.Tracker.Devices.{
  World, opened, Making, got, new_tracker, tracker_put, tracker_get_by_dev, tracker_filter_attach,
  tracker_filter_detach, tracker_new, tracker_create_or_get, remove_first, tracker_remove,
}

-- The kernel has memory for all that a tracker needs.
pub record HasMemory (k : Making) : Type 0 where
  pub for_tr_dev : k.tr_dev_alloc ≡ true
  pub for_tracker : k.tracker_alloc ≡ true
  pub for_map : k.map_alloc && k.memory.read_ok && k.memory.write_ok ≡ true
  pub for_ext : k.ext_alloc ≡ true

-- The device is not on the list.
abbrev pub is_tracked : ℕ → List ℕ → Bool
is_tracked dev [] = false
is_tracked dev (x ∷ xs) = if x == dev then true else is_tracked dev xs

remove_first-append :
    (dev : ℕ) (xs : List ℕ) → is_tracked dev xs ≡ false → remove_first dev (xs ++ (dev ∷ [])) ≡ xs
unfolding remove_first
remove_first-append dev [] h = ground arith
remove_first-append dev (x ∷ xs) h = elim (Bool-cases (x == dev)) [
  | inl this ↦ ground (arith, this, h)
  | inr other ↦ rw other (ap (λ l. x ∷ l) (remove_first-append dev xs (ground (arith, other, h))))
]

-- The state in which the device has a new tracker with the map.
abbrev tracked : World → BlockDevice → CbtMap → World
tracked w d c = record {
  filters = attached_filter d w.next w.filters;
  trackers = λ x.
      if x == w.next
      then new_tracker d.bd_dev (some c)
      else if x == w.next
      then new_tracker d.bd_dev none
      else w.trackers x;
  next = w.next + 1;
  tracked_device_list = w.tracked_device_list ++ (d.bd_dev ∷ []);
  freed = w.freed;
  trackers_counter = w.trackers_counter + 1;
}

create-eq :
    (K : Rounding) (k : Making) (d : BlockDevice) (w : World) (c : CbtMap)
    → HasMemory k
    → cbt_map_create K default_params k.map_alloc k.memory k.capacity ≡ some (some c)
    → (bdev_filter_attach true d w.next (bdev_filter_init w.next w.filters)).0 ≡ ok
    → bdev_filter_get_by_bdev d w.filters ≡ (none, w.filters)
    → tracker_create_or_get K default_params k (opened d) w ≡ some (got w.next, tracked w d c)
unfolding tracker_create_or_get tracker_get_by_dev tracker_new tracker_filter_attach
create-eq K k d w c m made attached bare =
    ground (arith, m.for_tr_dev, m.for_tracker, m.for_ext, made, attached, bare)

again-eq :
    (K : Rounding) (k : Making) (d : BlockDevice) (w : World) (f : ℕ)
    → bdev_filter_get_by_bdev d w.filters ≡ (some f, bdev_filter_get f w.filters)
    → tracker_create_or_get K default_params k (opened d) w
      ≡ some (got f, record w { filters = bdev_filter_get f w.filters })
unfolding tracker_create_or_get tracker_get_by_dev
again-eq K k d w f found =
    rw (found, tracker_create_or_get) (ap (λ r. some (got f, record w { filters = r.1 })) found)

remove-eq :
    (ret : Ret) (d : BlockDevice) (w : World) (f : ℕ)
    → bdev_filter_get_by_bdev d w.filters ≡ (some f, bdev_filter_get f w.filters)
    → (w.trackers f).snapshot_is_taken ≡ false
    → tracker_remove ret d.bd_dev (opened d) w ≡ (
      ret,
      record w {
        filters = detached_filter d f w.filters;
        tracked_device_list = remove_first d.bd_dev w.tracked_device_list;
      },
    )
unfolding tracker_remove tracker_get_by_dev tracker_filter_detach tracker_put
remove-eq ret d w f found idle = rw (found, tracker_remove) (ground (arith, idle, found))

-- For a device of at most 2^64 - 2^55 sectors that opens, is not on the list and for which the filter
-- module has no extension, with memory for all: tracker_create_or_get makes a tracker under the next
-- number, with a valid map and no snapshot, two references, and the device at the end of the list.
-- Asked again it gives the same tracker with one reference more. After the first caller has put its
-- reference, tracker_remove finds the tracker, takes the device off the list so that it is as it was
-- before, and releases the tracker, once; the filter of the device is gone. What it returns then is
-- what the unset variable held.
pub create_remove_lem :
    (K : Rounding) (k k' : Making) (d : BlockDevice) (w : World) (ret : Ret)
    → HasMemory k
    → k.capacity ≤ max_capacity
    → IsBare d w.filters
    → is_tracked d.bd_dev w.tracked_device_list ≡ false
    → (c : CbtMap) × (w1 : World) × (tracker_create_or_get K default_params k (opened d) w
        ≡ some (got w.next, w1))
      × (w1.trackers w.next ≡ new_tracker d.bd_dev (some c))
      × IsValid c
      × (w1.filters.kref w.next ≡ 2)
      × (w1.tracked_device_list ≡ w.tracked_device_list ++ (d.bd_dev ∷ []))
      × (tracker_create_or_get K default_params k' (opened d) w1
          ≡ some (got w.next, record w1 { filters = bdev_filter_get w.next w1.filters }))
      × ((w2 : World) × (tracker_remove ret d.bd_dev (opened d) (tracker_put w.next w1) ≡ (ret, w2))
          × (w2.tracked_device_list ≡ w.tracked_device_list)
          × (w2.filters.released ≡ w.filters.released ++ (w.next ∷ []))
          × (bdev_filter_get_by_bdev d w2.filters ≡ (none, w2.filters)))
unfolding tracker_put
create_remove_lem K k k' d w ret m small bare new =
    let (attached, two, found, found', released, gone) = life_lem d w.filters bare w.next in
    let (c, made, v, _, _, _, _, _, _) = create_lem K k.memory k.capacity small k.map_alloc in
    let made' = made ∙ ap (λ b. some (if b then some c else none)) m.for_map in
    let w1 = tracked w d c in
    (
      c,
      w1,
      create-eq K k d w c m made' attached (lookup_bare d w.filters bare),
      ground arith,
      v,
      two,
      refl,
      again-eq K k' d w1 w.next found,
      (
        record w1 {
          filters = detached_filter d w.next (bdev_filter_put w.next w1.filters);
          tracked_device_list = remove_first d.bd_dev w1.tracked_device_list;
        },
        remove-eq ret d (tracker_put w.next w1) w.next found' (ground arith),
        remove_first-append d.bd_dev w.tracked_device_list new,
        released,
        gone,
      ),
    )
