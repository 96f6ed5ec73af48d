-- ===== src/Control/Tests.antt =====
-- Runs of module/main.c, and the theorems at them.
use blksnap.Prelude.{List, ℕ, ◌<◌, ◌≡◌, refl, true, Option, none, some, [], ◌∷◌, get_elem?, arith}
use blksnap.Kernel.{Ret, ok, err, enotty}
use blksnap.Events.{timeout}
use blksnap.Storage.{refused}
use blksnap.Kernel.{enodev}
use blksnap.Tracker.Devices.{World, tracker_mark_dirty_blocks}
use blksnap.Snapshot.Store.{Image, returns, faults}
use blksnap.Snapshot.Registry.Calls.{scan_images}
use blksnap.Snapshot.Registry.Tests.{kernel, no_snapshots, no_snapshots-Registered}
use blksnap.Control.{Argument, Copies, nothing, Handler, fails, ioctl_tracker_mark_dirty_blocks}
use blksnap.Control.Dirty.{marked_only_with_snapshot}
use blksnap.Control.Dispatch.{blk_snap_ioctl_table, ioctl_mod, ctrl_unlocked_ioctl, dispatch_lem}

abbrev all_copied : Copies
all_copied = record {
  argument_in = true;
  array_in = true;
  array_out = true;
  argument_out = true;
  entry_out = λ _. true;
  not_copied = 0;
  alloc = true;
  bdev_alloc = true;
  storage = refused enodev;
  wait = λ _. timeout;
  unset = ok;
}

-- Sixteen sectors of the device 8:0.
abbrev an_argument : Argument
an_argument = record {
  dev_id = (8, 0);
  id = 7;
  count = 1;
  has_array = true;
  offset = 0;
  length = 16;
  dirty_blocks = (0, 16) ∷ [];
  devices = [];
  ranges = [];
  timeout_ms = 1000;
}

marked_only_with_snapshot_example :
    (◌≡◌ {A = Option ℕ} none none
      → ioctl_tracker_mark_dirty_blocks (kernel 8) all_copied an_argument no_snapshots
        ≡ returns (ok, nothing) no_snapshots)
    × ((s : ℕ) (ret : Ret) (w : World)
        → ◌≡◌ {A = Option ℕ} none (some s)
        → scan_images 8388608 (no_snapshots.objects s).snapimage_array ≡ some none
        → tracker_mark_dirty_blocks ((kernel 8).open_dev 8388608) ((0, 16) ∷ []) no_snapshots.world
          ≡ some (ret, w)
        → ioctl_tracker_mark_dirty_blocks (kernel 8) all_copied an_argument no_snapshots
          ≡ returns (ret, nothing) (record no_snapshots { world = w }))
    × ((s : ℕ) (images : List (Option Image))
        → ◌≡◌ {A = Option ℕ} none (some s)
        → (no_snapshots.objects s).snapimage_array ≡ none ∷ images
        → ioctl_tracker_mark_dirty_blocks (kernel 8) all_copied an_argument no_snapshots ≡ faults)
marked_only_with_snapshot_example =
    marked_only_with_snapshot (kernel 8) all_copied an_argument no_snapshots none
      (record { argument_is_in = refl; array_is_in = refl; there = refl }) (omega arith)
      no_snapshots-Registered

no_log : Handler
no_log e k a = fails enotty

dispatch_lem_example :
    (◌<◌ 12 12
      → (handler : Handler) × (get_elem? blk_snap_ioctl_table 12 ≡ some handler)
        × (ctrl_unlocked_ioctl no_log 12 (kernel 8) all_copied an_argument no_snapshots
            ≡ handler (kernel 8) all_copied an_argument no_snapshots))
    × (◌≡◌ {A = ℕ} 12 12
        → ctrl_unlocked_ioctl no_log 12 (kernel 8) all_copied an_argument no_snapshots ≡ faults)
    × (◌≡◌ {A = ℕ} 12 32
        → ctrl_unlocked_ioctl no_log 12 (kernel 8) all_copied an_argument no_snapshots
          ≡ ioctl_mod (kernel 8) all_copied an_argument no_snapshots)
    × (◌≡◌ {A = ℕ} 12 33
        → ctrl_unlocked_ioctl no_log 12 (kernel 8) all_copied an_argument no_snapshots
          ≡ no_log (kernel 8) all_copied an_argument no_snapshots)
    × (◌≡◌ {A = ℕ} 12 34
        → ctrl_unlocked_ioctl no_log 12 (kernel 8) all_copied an_argument no_snapshots
          ≡ returns (err enotty, nothing) no_snapshots)
    × (◌<◌ 12 12
        → 12 < 32
        → ctrl_unlocked_ioctl no_log 12 (kernel 8) all_copied an_argument no_snapshots
          ≡ returns (err enotty, nothing) no_snapshots)
    × (34 < 12
        → ctrl_unlocked_ioctl no_log 12 (kernel 8) all_copied an_argument no_snapshots
          ≡ returns (err enotty, nothing) no_snapshots)
dispatch_lem_example = dispatch_lem no_log 12 (kernel 8) all_copied an_argument no_snapshots
