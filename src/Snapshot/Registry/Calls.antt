-- ===== src/Snapshot/Registry/Calls.antt =====
-- The calls of module/snapshot.c that use a snapshot or look at the list of them: appending storage,
-- waiting for an event, collecting, and marking blocks through the device of an image.
pub mod Marks
use blksnap.Prelude.{
  ℕ, ◌+◌, ◌==◌, ltb, leb, Bool, true, false, not, Option, none, some, List, [], ◌∷◌, length,
  if◌then◌else◌,
}
use blksnap.Kernel.{Errno, enodev, esrch, enodata, enomem, Ret, ok, err}
use blksnap.Events.{Wait, Waited, error, event_wait}
use blksnap.Storage.{Opened, UserRange, diff_storage_append_block}
use blksnap.Cbt.{cbt_map_mark_dirty_blocks}
use blksnap.Tracker.Devices.{write_tracker}
use blksnap.Snapshot.{BlkSnapDev}
use blksnap.Snapshot.Store.{
  Image, Snapshot, Store, Environment, Res, returns, blocks, faults, no_fuel, M, ◌>>=◌, ◌>>◌, pure,
  update, get_object, put_object,
}
use blksnap.Snapshot.Registry.{snapshot_put, snapshot_get_by_id, entries}

pub snapshot_append_storage :
    Environment → (id : ℕ) → BlkSnapDev → Opened → (bdev_alloc : Bool) → List UserRange → M Ret
snapshot_append_storage e id (mj, mn) o bdev_alloc ranges = do
  found ← snapshot_get_by_id e id
  elim found [
    | none ↦ pure (err esrch)
    | some s ↦ do
      x ← get_object s
      let (ret, d) = diff_storage_append_block o bdev_alloc x.diff_storage (e.mkdev mj mn) ranges
      put_object s (record x { diff_storage = d })
      snapshot_put e s
      pure ret
  ]

-- `wait` is what the wait comes to; an empty queue is read as in `event_wait`.
pub snapshot_wait_event : Environment → (id : ℕ) → Wait → M Waited
snapshot_wait_event e id wait = do
  found ← snapshot_get_by_id e id
  elim found [
    | none ↦ pure (error esrch)
    | some s ↦ do
      x ← get_object s
      elim (event_wait wait x.diff_storage.event_queue) [
        | none ↦ λ st. faults
        | some (out, q) ↦ do
          put_object s (record x { diff_storage = record x.diff_storage { event_queue = q } })
          snapshot_put e s
          pure out
      ]
  ]

-- The entries of the list, from its first on.
pub listed : Environment → M (List ℕ)
unfolding entries
listed e st = elim (entries e.fuel st.snapshots (st.snapshots.next 0)) [
  | none ↦ no_fuel
  | some ss ↦ returns ss st
]

-- The second loop of `snapshot_collect`: the result, the count, and the identifiers written to the
-- user, of which `copied` says whether one can be written.
collect_ids : (copied : ℕ → Bool) → (ℕ → Snapshot) → (pcount inx : ℕ) → List ℕ → Ret × ℕ × List ℕ
collect_ids copied objects pcount inx [] = (ok, inx, [])
collect_ids copied objects pcount inx (s ∷ ss) =
    let (ret, n, ids) = collect_ids copied objects pcount (inx + 1) ss in
    if leb pcount inx
    then (err enodata, inx, [])
    else if not (copied inx)
    then (ok, inx, [])
    else (ret, n, (objects s).id ∷ ids)

pub snapshot_collect :
    Environment → (copied : ℕ → Bool) → (has_array : Bool) → (pcount : ℕ) → M (Ret × ℕ × List ℕ)
unfolding collect_ids listed
snapshot_collect e copied false pcount = do ss ← listed e; pure (ok, length ss, [])
snapshot_collect e copied true pcount = do
  ss ← listed e
  (λ st. returns (collect_ids copied st.objects pcount 0 ss) st)

-- `struct blk_snap_image_info`, with 0 where the entry was not filled.
abbrev pub ImageInfo : Type 0
ImageInfo = ℕ × ℕ

image_infos : (dev_id : ℕ → ℕ) → List (Option ℕ) → List (Option Image) → List ImageInfo
image_infos dev_id [] images = []
image_infos dev_id (f ∷ fs) [] =
    (elim f [ none ↦ 0 | some t ↦ dev_id t ], 0) ∷ image_infos dev_id fs []
image_infos dev_id (f ∷ fs) (i ∷ is) =
    (elim f [ none ↦ 0 | some t ↦ dev_id t ], elim i [ none ↦ 0 | some image ↦ image.disk ])
    ∷ image_infos dev_id fs is

-- The body of `snapshot_collect_images`: the result and what was copied to the user.
images_of :
    (alloc copied has_array : Bool) → (pcount : ℕ) → (ℕ → ℕ) → Snapshot → Ret × List ImageInfo
unfolding image_infos
images_of alloc copied has_array pcount dev_id x =
    if not x.is_taken
    then (err enodev, [])
    else if not has_array
    then (ok, [])
    else if ltb pcount (length x.tracker_array)
    then (err enodata, [])
    else if not alloc
    then (err enomem, [])
    else if not copied
    then (err enodata, [])
    else (ok, image_infos dev_id x.tracker_array x.snapimage_array)

-- The result, the new `*pcount` where the snapshot was found, and the array.
pub snapshot_collect_images :
    Environment
    → (alloc copied has_array : Bool) → (id pcount : ℕ) → M (Ret × Option ℕ × List ImageInfo)
unfolding images_of
snapshot_collect_images e alloc copied has_array id pcount = do
  found ← snapshot_get_by_id e id
  elim found [
    | none ↦ pure (err esrch, none, [])
    | some s ↦ do
      x ← get_object s
      out ← (λ st.
          returns (images_of alloc copied has_array pcount (λ t. (st.world.trackers t).dev_id) x)
            st)
      snapshot_put e s
      pure (out.0, some (length x.tracker_array), out.1)
  ]

-- The inner loop of `snapshot_mark_dirty_blocks`: whether an image has the device; `none` where it
-- reads a null pointer, an image that is not there.
pub scan_images : (dev : ℕ) → List (Option Image) → Option (Option Image)
scan_images dev [] = some none
scan_images dev (none ∷ is) = none
scan_images dev (some i ∷ is) =
    let rest = scan_images dev is in if i.disk == dev then some (some i) else rest

-- Both loops, with what was found so far. The outer one goes on to the end.
pub scan_snapshots : (ℕ → Snapshot) → (dev : ℕ) → Option Image → List ℕ → Option (Option Image)
unfolding scan_images
scan_snapshots objects dev found [] = some found
scan_snapshots objects dev found (s ∷ ss) = elim (scan_images dev (objects s).snapimage_array) [
  | none ↦ none
  | some none ↦ scan_snapshots objects dev found ss
  | some (some i) ↦ scan_snapshots objects dev (some i) ss
]

-- The map of an image is that of its tracker.
pub mark_image : List (ℕ × ℕ) → Image → M Ret
mark_image ranges i st = elim (st.world.trackers i.tracker).cbt_map [
  | none ↦ faults
  | some c ↦ elim (cbt_map_mark_dirty_blocks c ranges) [
    | none ↦ faults
    | some (ret, c') ↦
        let t = record (st.world.trackers i.tracker) { cbt_map = some c' } in
        returns ret (record st { world = write_tracker i.tracker t st.world })
  ]
]

-- The part of it after the test for an empty list.
pub mark_listed : (dev : ℕ) → List (ℕ × ℕ) → List ℕ → M Ret
unfolding scan_snapshots mark_image
mark_listed dev ranges ss st = elim (scan_snapshots st.objects dev none ss) [
  | none ↦ faults
  | some none ↦ returns (err enodev) st
  | some (some i) ↦ mark_image ranges i st
]

pub snapshot_mark_dirty_blocks : Environment → (dev : ℕ) → List (ℕ × ℕ) → M Ret
unfolding listed mark_listed
snapshot_mark_dirty_blocks e dev ranges = do
  ss ← listed e
  elim ss [ [] ↦ pure ok | s ∷ rest ↦ mark_listed dev ranges (s ∷ rest) ]
