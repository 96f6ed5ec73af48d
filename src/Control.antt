-- ===== src/Control.antt =====
-- The control device of module/main.c: the calls of user space and their table, in the standalone
-- build, with the structures of module/blksnap.h as they stand at the address of the argument.
pub mod Snapshots
pub mod Dispatch
pub mod Dirty
mod Tests
use blksnap.Prelude.{
  ℕ, ◌+◌, ◌-◌, ◌==◌, ltb, leb, Bool, true, false, not, ◌&&◌, Option, none, some, List, [], ◌∷◌,
  get_elem?, take, length, if◌then◌else◌,
}
use blksnap.Kernel.{Errno, enodata, enomem, einval, enodev, enospc, enotty, Ret, ok, err}
use blksnap.Events.{Event, Wait, Waited, event, error}
use blksnap.Storage.{UserRange, Opened as StorageOpened}
use blksnap.Tracker.Devices.{
  World, Opened, CbtInfo, tracker_remove, tracker_collect, tracker_read_cbt_bitmap,
  tracker_mark_dirty_blocks,
}
use blksnap.Snapshot.{BlkSnapDev}
use blksnap.Snapshot.Store.{
  Snapshot, Store, Environment, Res, returns, blocks, faults, no_fuel, M, ◌>>=◌, ◌>>◌, pure,
}
use blksnap.Snapshot.Registry.{Made, made, refused, snapshot_create, snapshot_destroy}
use blksnap.Snapshot.Registry.Calls.{
  ImageInfo, snapshot_append_storage, snapshot_wait_event, snapshot_collect,
  snapshot_collect_images, snapshot_mark_dirty_blocks,
}
use blksnap.Snapshot.Registry.Taking.{snapshot_take}

-- What stands at the argument, by the fields of the structures. The arrays have `count` entries.
pub record Argument : Type 0 where
  pub dev_id : BlkSnapDev
  pub id : ℕ
  pub count : ℕ
  pub has_array : Bool
  pub offset : ℕ
  pub length : ℕ
  pub dirty_blocks : List (ℕ × ℕ)
  pub devices : List BlkSnapDev
  pub ranges : List UserRange
  pub timeout_ms : ℕ

-- The answers of the kernel to the copies and to the allocation of a call, how a wait of so many
-- milliseconds ends, what is opened as storage, and what the unset `ret` of `tracker_remove` holds.
pub record Copies : Type 0 where
  pub argument_in : Bool
  pub array_in : Bool
  pub array_out : Bool
  pub argument_out : Bool
  pub entry_out : ℕ → Bool
  pub not_copied : ℕ
  pub alloc : Bool
  pub bdev_alloc : Bool
  pub storage : StorageOpened
  pub wait : ℕ → Wait
  pub unset : Ret

-- What is written to the user.
pub data Output : Type 0 where
  nothing version modification : Output
  infos : (count : ℕ) → List CbtInfo → Output
  bytes : (size : ℕ) → List ℕ → Output
  snapshot_id : ℕ → Output
  ids : (count : ℕ) → List ℕ → Output
  images : Option ℕ → List ImageInfo → Output
  an_event : (code time : ℕ) → List ℕ → Output

abbrev pub Handler : Type 0
Handler = Environment → Copies → Argument → M (Ret × Output)

abbrev pub fails : Errno → M (Ret × Output)
fails x = pure (err x, nothing)

-- The call of a function of module/tracker.c.
abbrev on_world : {A : Type 0} → (World → A × World) → M A
on_world f st = let (a, w) = f st.world in returns a (record st { world = w })

pub ioctl_version : Handler
ioctl_version e k a = if k.argument_out then pure (ok, version) else fails enodata

pub ioctl_tracker_remove : Handler
ioctl_tracker_remove e k a = elim k.argument_in [
  | false ↦ fails enodata
  | true ↦ do
    let dev = e.mkdev a.dev_id.0 a.dev_id.1
    ret ← on_world (tracker_remove k.unset dev (e.open_dev dev))
    pure (ret, nothing)
]

abbrev collected :
    Environment → (max_count : ℕ) → (has_array : Bool) → World → (Ret × ℕ × List CbtInfo) × World
collected e max_count has_array w =
    let (ret, count, out, w') = tracker_collect e.open_dev max_count has_array w in
    ((ret, count, out), w')

-- The copies of the array and of the argument.
collected_out : Copies → Ret × ℕ × List CbtInfo → Ret × Output
collected_out k (err x, count, out) = (err x, nothing)
collected_out k (ok, count, out) =
    if k.array_out && k.argument_out then (ok, infos count out) else (err enodata, nothing)

pub ioctl_tracker_collect : Handler
unfolding collected_out
ioctl_tracker_collect e k a = elim k.argument_in [
  | false ↦ fails enodata
  | true ↦ elim a.has_array [
    | false ↦ do
      out ← on_world (collected e 0 false)
      pure (if k.argument_out then (ok, infos out.1 []) else (err enodata, nothing))
    | true ↦ elim k.alloc [
      | false ↦ fails enomem
      | true ↦ do out ← on_world (collected e a.count true); pure (collected_out k out)
    ]
  ]
]

-- The size that was read is the result of the call.
read_out : Option (Ret × ℕ × List ℕ) → M (Ret × Output)
read_out none st = faults
read_out (some (err x, size, out)) st = returns (err x, nothing) st
read_out (some (ok, size, out)) st = returns (ok, bytes size out) st

pub ioctl_tracker_read_cbt_map : Handler
unfolding read_out
ioctl_tracker_read_cbt_map e k a = elim k.argument_in [
  | false ↦ fails enodata
  | true ↦ do
    let dev = e.mkdev a.dev_id.0 a.dev_id.1
    out ← on_world (tracker_read_cbt_bitmap (e.open_dev dev) a.offset a.length k.not_copied)
    read_out out
]

pub is_enodev : Ret → Bool
is_enodev ok = false
is_enodev (err enodev) = true
is_enodev (err _) = false

-- The tracker is asked only where the snapshots gave ENODEV.
pub mark_dirty_blocks : Environment → (dev : ℕ) → List (ℕ × ℕ) → M Ret
unfolding is_enodev
mark_dirty_blocks e dev ranges = do
  ret ← snapshot_mark_dirty_blocks e dev ranges
  elim (is_enodev ret) [
    | false ↦ pure ret
    | true ↦ λ st. elim (tracker_mark_dirty_blocks (e.open_dev dev) ranges st.world) [
      | none ↦ faults
      | some (ret', w) ↦ returns ret' (record st { world = w })
    ]
  ]

pub ioctl_tracker_mark_dirty_blocks : Handler
unfolding mark_dirty_blocks
ioctl_tracker_mark_dirty_blocks e k a = elim k.argument_in [
  | false ↦ fails enodata
  | true ↦ elim k.alloc [
    | false ↦ fails enomem
    | true ↦ elim k.array_in [
      | false ↦ fails enodata
      | true ↦ do
        ret ← mark_dirty_blocks e (e.mkdev a.dev_id.0 a.dev_id.1) a.dirty_blocks
        pure (ret, nothing)
    ]
  ]
]
