-- ===== src/Control/Dirty.antt =====
-- Marking dirty blocks from user space (`ioctl_tracker_mark_dirty_blocks` of module/main.c), which asks
-- the snapshots first and then the trackers.
use blksnap.Prelude.{◌∷◌, ℕ, ◌≤◌, ◌≡◌, ap, ◌∙◌, true, Option, none, some, List, arith}
use blksnap.Kernel.{enodev, Ret, ok, err}
use blksnap.Tracker.Devices.{World, tracker_mark_dirty_blocks}
use blksnap.Snapshot.Store.{Image, Store, Environment, returns, faults}
use blksnap.Snapshot.Registry.Calls.{scan_images, snapshot_mark_dirty_blocks}
use blksnap.Snapshot.Registry.Calls.Marks.{Marked, MarkedOn, mark-MarkedOn, scan_none}
use blksnap.Snapshot.Registry.Keeps.{faults->>=, returns->>=}
use blksnap.Snapshot.Registry.History.{Registered}
use blksnap.Control.{
  Argument, Copies, nothing, is_enodev, mark_dirty_blocks, ioctl_tracker_mark_dirty_blocks,
}

-- All that the call copies and allocates succeeds.
pub record Copied (k : Copies) : Type 0 where
  pub argument_is_in : k.argument_in ≡ true
  pub array_is_in : k.array_in ≡ true
  pub there : k.alloc ≡ true

marked_is :
    (e : Environment) (dev : ℕ) (ranges : List (ℕ × ℕ)) (st : Store)
    → snapshot_mark_dirty_blocks e dev ranges st ≡ returns ok st
    → mark_dirty_blocks e dev ranges st ≡ returns ok st
unfolding mark_dirty_blocks is_enodev
marked_is e dev ranges st h = returns->>= (snapshot_mark_dirty_blocks e dev ranges) _ st st ok h

tracked_is :
    (e : Environment) (dev : ℕ) (ranges : List (ℕ × ℕ)) (st : Store) (out : Option (Ret × World))
    → snapshot_mark_dirty_blocks e dev ranges st ≡ returns (err enodev) st
    → tracker_mark_dirty_blocks (e.open_dev dev) ranges st.world ≡ out
    → mark_dirty_blocks e dev ranges st
      ≡ elim out [ none ↦ faults | some (ret, w) ↦ returns ret (record st { world = w }) ]
unfolding mark_dirty_blocks is_enodev
tracked_is e dev ranges st none h t =
    returns->>= (snapshot_mark_dirty_blocks e dev ranges) _ st st (err enodev) h ∙ ground (arith, t)
tracked_is e dev ranges st (some (ret, w)) h t =
    returns->>= (snapshot_mark_dirty_blocks e dev ranges) _ st st (err enodev) h ∙ ground (arith, t)

handled :
    (e : Environment) (k : Copies) (a : Argument) (st st' : Store) (ret : Ret)
    → Copied k
    → mark_dirty_blocks e (e.mkdev a.dev_id.0 a.dev_id.1) a.dirty_blocks st ≡ returns ret st'
    → ioctl_tracker_mark_dirty_blocks e k a st ≡ returns (ret, nothing) st'
unfolding ioctl_tracker_mark_dirty_blocks
handled e k a st st' ret c h =
    rw (c.argument_is_in, ioctl_tracker_mark_dirty_blocks, c.there, c.array_is_in)
      (returns->>= (mark_dirty_blocks e (e.mkdev a.dev_id.0 a.dev_id.1) a.dirty_blocks) _ st st' ret
        h)

crashed :
    (e : Environment) (k : Copies) (a : Argument) (st : Store)
    → Copied k
    → mark_dirty_blocks e (e.mkdev a.dev_id.0 a.dev_id.1) a.dirty_blocks st ≡ faults
    → ioctl_tracker_mark_dirty_blocks e k a st ≡ faults
unfolding ioctl_tracker_mark_dirty_blocks
crashed e k a st c h =
    rw (c.argument_is_in, ioctl_tracker_mark_dirty_blocks, c.there, c.array_is_in)
      (faults->>= (mark_dirty_blocks e (e.mkdev a.dev_id.0 a.dev_id.1) a.dirty_blocks) _ st h)

mark_crashed :
    (e : Environment) (dev : ℕ) (ranges : List (ℕ × ℕ)) (st : Store)
    → snapshot_mark_dirty_blocks e dev ranges st ≡ faults
    → mark_dirty_blocks e dev ranges st ≡ faults
unfolding mark_dirty_blocks
mark_crashed e dev ranges st h = faults->>= (snapshot_mark_dirty_blocks e dev ranges) _ st h

-- The call ioctl_tracker_mark_dirty_blocks with all its copies made, two rounds of the walk or more,
-- and at most one snapshot on the list. With no snapshot it returns 0 and marks no map, also where
-- the device is tracked. With a snapshot none of whose images has the device, the result and the new
-- trackers are those of tracker_mark_dirty_blocks for the device. With a snapshot whose first image
-- is not there, as before it is taken, the call reads a null pointer.
pub marked_only_with_snapshot :
    (e : Environment) (k : Copies) (a : Argument) (st : Store) (o : Option ℕ)
    → Copied k
    → 2 ≤ e.fuel
    → Registered st o
    → (o ≡ none → ioctl_tracker_mark_dirty_blocks e k a st ≡ returns (ok, nothing) st)
      × ((s : ℕ) (ret : Ret) (w : World)
          → o ≡ some s
          → scan_images (e.mkdev a.dev_id.0 a.dev_id.1) (st.objects s).snapimage_array ≡ some none
          → tracker_mark_dirty_blocks
              (e.open_dev (e.mkdev a.dev_id.0 a.dev_id.1))
              a.dirty_blocks
              st.world
            ≡ some (ret, w)
          → ioctl_tracker_mark_dirty_blocks e k a st
            ≡ returns (ret, nothing) (record st { world = w }))
      × ((s : ℕ) (images : List (Option Image))
          → o ≡ some s
          → (st.objects s).snapimage_array ≡ none ∷ images
          → ioctl_tracker_mark_dirty_blocks e k a st ≡ faults)
marked_only_with_snapshot e k a st o c enough r =
    let dev = e.mkdev a.dev_id.0 a.dev_id.1 in
    let h = mark-MarkedOn e dev a.dirty_blocks st o enough r in
    (
      λ empty.
          handled e k a st st ok c
            (marked_is e dev a.dirty_blocks st (h ∙ ap (MarkedOn dev a.dirty_blocks st) empty)),
      λ s ret w one other tracked.
          handled e k a st (record st { world = w }) ret c
            (tracked_is e dev a.dirty_blocks st (some (ret, w))
              (h ∙ ap (MarkedOn dev a.dirty_blocks st) one ∙ ap (Marked a.dirty_blocks st) other)
              tracked),
      λ s images one missing. crashed e k a st c (
          mark_crashed e dev a.dirty_blocks st (
            h
            ∙ ap (MarkedOn dev a.dirty_blocks st) one
            ∙ ap (λ is. Marked a.dirty_blocks st (scan_images dev is)) missing
            ∙ ap (Marked a.dirty_blocks st) (scan_none dev images))),
    )
