-- ===== src/Control/Snapshots.antt =====
-- The calls of module/main.c for snapshots.
use blksnap.Prelude.{ℕ, ltb, ◌==◌, true, false, if◌then◌else◌}
use blksnap.Kernel.{enodata, enomem, einval, Ret, ok, err}
use blksnap.Events.{Event, Waited, event, error}
use blksnap.Storage.{low_free_space}
use blksnap.Snapshot.Store.{Environment, returns, faults, M, ◌>>=◌, pure}
use blksnap.Snapshot.Registry.{Made, made, refused, snapshot_create, snapshot_destroy}
use blksnap.Snapshot.Registry.Calls.{
  snapshot_append_storage, snapshot_wait_event, snapshot_collect, snapshot_collect_images,
}
use blksnap.Snapshot.Registry.Taking.{snapshot_take}
use blksnap.Control.{Copies, Output, nothing, snapshot_id, ids, images, an_event, Handler, fails}

-- The copy of the identifier of the new snapshot.
created_out : Environment → Copies → Made → Ret × Output
created_out e k (refused x) = (err x, nothing)
created_out e k (made s) =
    if k.argument_out then (ok, snapshot_id e.uuid_gen) else (err enodata, nothing)

pub ioctl_snapshot_create : Handler
unfolding created_out
ioctl_snapshot_create e k a = elim k.argument_in [
  | false ↦ fails enodata
  | true ↦ elim k.alloc [
    | false ↦ fails enomem
    | true ↦ elim k.array_in [
      | false ↦ fails enodata
      | true ↦ do m ← snapshot_create e a.devices; pure (created_out e k m)
    ]
  ]
]

pub ioctl_snapshot_destroy : Handler
ioctl_snapshot_destroy e k a = elim k.argument_in [
  | false ↦ fails enodata
  | true ↦ do ret ← snapshot_destroy e a.id; pure (ret, nothing)
]

pub ioctl_snapshot_append_storage : Handler
ioctl_snapshot_append_storage e k a = elim k.argument_in [
  | false ↦ fails einval
  | true ↦ do
    ret ← snapshot_append_storage e a.id a.dev_id k.storage k.bdev_alloc a.ranges
    pure (ret, nothing)
]

pub ioctl_snapshot_take : Handler
ioctl_snapshot_take e k a = elim k.argument_in [
  | false ↦ fails enodata
  | true ↦ do ret ← snapshot_take e a.id; pure (ret, nothing)
]

-- The bytes of `data` in `struct blk_snap_snapshot_event`.
abbrev data_bytes : ℕ
data_bytes = 4064

-- The bytes of the data of an event, `data_size`: a 64-bit number of sectors for low space, else the two
-- numbers of the device and the error, of 32 bits each.
abbrev data_size : Event → ℕ
data_size ev = if ev.code == low_free_space then 8 else 12

-- The part of `ioctl_snapshot_wait_event` after the wait. An event with more bytes than `data` is
-- copied whole by `memcpy`, beyond the end of the structure.
event_out : Copies → Waited → M (Ret × Output)
event_out k (error x) st = returns (err x, nothing) st
event_out k (event ev) st =
    if ltb data_bytes (data_size ev)
    then faults
    else returns
        (if k.argument_out then (ok, an_event ev.code ev.time ev.body) else (err einval, nothing))
        st

-- Only the identifier is copied from the user; `timeout_ms` is that of the zeroed structure.
pub ioctl_snapshot_wait_event : Handler
unfolding event_out
ioctl_snapshot_wait_event e k a = elim k.alloc [
  | false ↦ fails enomem
  | true ↦ elim k.argument_in [
    | false ↦ fails einval
    | true ↦ do out ← snapshot_wait_event e a.id (k.wait 0); event_out k out
  ]
]

pub ioctl_snapshot_collect : Handler
ioctl_snapshot_collect e k a = elim k.argument_in [
  | false ↦ fails enodata
  | true ↦ do
    out ← snapshot_collect e k.entry_out a.has_array a.count
    pure (if k.argument_out then (out.0, ids out.1 out.2) else (err enodata, nothing))
]

pub ioctl_snapshot_collect_images : Handler
ioctl_snapshot_collect_images e k a = elim k.argument_in [
  | false ↦ fails enodata
  | true ↦ do
    out ← snapshot_collect_images e k.alloc k.array_out a.has_array a.id a.count
    pure (if k.argument_out then (out.0, images out.1 out.2) else (err enodata, nothing))
]
