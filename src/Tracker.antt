-- ===== src/Tracker.antt =====
-- module/tracker.c and module/tracker.h in the standalone build: what a tracker does with each bio of
-- its device, and how it takes and releases a snapshot. The filter's lock makes taking and releasing
-- a step each.
pub mod Devices
pub mod Submit
pub mod Passed
pub mod Take
pub mod Tests
use blksnap.Prelude.{ℕ, ◌==◌, Bool, true, false, not, ◌||◌, Option, none, some, if◌then◌else◌}
use blksnap.Kernel.{
  Errno, eagain, einval, enomem, enospc, efault, eio, enoent, eintr, ebusy, enodata, enodev, eperm,
  enobufs, esrch, ealready, enotty, other, Ret, ok, err, Params, Rounding, sub64,
}
use blksnap.Cbt.{CbtMap, Memory, cbt_map_set, cbt_map_reset, cbt_map_switch}
use blksnap.Area.Data.{DiffArea, Answers, diff_area_is_corrupted}
use blksnap.Area.Copy.{Run, done, sleeps, no_fuel, diff_area_copy, diff_area_wait}

-- `struct tracker` without its filter; `none` is a null pointer.
pub record Tracker : Type 0 where
  pub dev_id : ℕ
  pub snapshot_is_taken : Bool
  pub cbt_map : Option CbtMap
  pub diff_area : Option DiffArea
  pub is_frozen : Bool

-- What the tracker reads of a bio. `is_diff_io`: `bi_end_io` is `diff_io_endio`.
pub record Bio : Type 0 where
  pub is_diff_io : Bool
  pub is_write : Bool
  pub is_nowait : Bool
  pub is_remapped : Bool
  pub bi_sector : ℕ
  pub sectors : ℕ
  pub bd_start_sect : ℕ

-- The tracker lets the bio pass, completes it with `bio_wouldblock_error`, or sleeps on a chunk; or
-- a null pointer is read, or the fuel is used up.
pub data Submitted : Type 0 where
  passes completed waits : Tracker → Submitted
  faults out_of_fuel : Submitted

-- What comes from outside: the fuel of the loops, what the kernel answers for each chunk, and what
-- the I/O and other threads make of the area before the wait.
pub record Outside : Type 0 where
  pub fuel : ℕ
  pub copying : ℕ → Answers
  pub meanwhile : DiffArea → DiffArea
  pub waiting : ℕ → Answers

pub is_eagain : Errno → Bool
is_eagain eagain = true
is_eagain einval = false
is_eagain enomem = false
is_eagain enospc = false
is_eagain efault = false
is_eagain eio = false
is_eagain enoent = false
is_eagain eintr = false
is_eagain ebusy = false
is_eagain enodata = false
is_eagain enodev = false
is_eagain eperm = false
is_eagain enobufs = false
is_eagain esrch = false
is_eagain ealready = false
is_eagain enotty = false
is_eagain (other _) = false

abbrev pub with_area : Tracker → DiffArea → Tracker
with_area t a = record t { diff_area = some a }

-- An error other than EAGAIN lets the bio pass.
pub give_up : Tracker → Errno → Submitted
unfolding is_eagain
give_up t e = if is_eagain e then completed t else passes t

pub sector_of : Bio → ℕ
sector_of b = if b.is_remapped then sub64 b.bi_sector b.bd_start_sect else b.bi_sector

module _ (K : Rounding) (P : Params) (o : Outside) where
  -- The part of `tracker_submit_bio` from `diff_area_wait` on.
  pub wait_for : Tracker → DiffArea → Bio → Submitted
  unfolding give_up sector_of
  wait_for t a b =
      elim (diff_area_wait K P o.fuel o.waiting a (sector_of b) b.sectors b.is_nowait) [
        | no_fuel ↦ out_of_fuel
        | sleeps _ a' ↦ waits (with_area t a')
        | done ok a' ↦ passes (with_area t a')
        | done (err e) a' ↦ give_up (with_area t a') e
      ]

  -- The part of it from `diff_area_copy` on.
  pub copy_for : Tracker → DiffArea → Bio → Submitted
  unfolding wait_for
  copy_for t a b =
      elim (diff_area_copy K P o.fuel o.copying a (sector_of b) b.sectors b.is_nowait) [
        | no_fuel ↦ out_of_fuel
        | sleeps _ a' ↦ waits (with_area t a')
        | done (err e) a' ↦ give_up (with_area t a') e
        | done ok a' ↦ wait_for t (o.meanwhile a') b
      ]

  -- The part of it after `cbt_map_set` returned 0.
  pub protect : Tracker → Bio → Submitted
  unfolding copy_for
  protect t b = if not t.snapshot_is_taken then passes t else elim t.diff_area [
    | none ↦ faults
    | some a ↦ if diff_area_is_corrupted a then passes t else copy_for t a b
  ]

  pub tracker_submit_bio : Tracker → Bio → Submitted
  unfolding protect
  tracker_submit_bio t b =
      if b.is_diff_io
      then passes t
      else if not b.is_write
      then passes t
      else if b.sectors == 0
      then passes t
      else elim t.cbt_map [
        | none ↦ faults
        | some c ↦ elim (cbt_map_set c (sector_of b) b.sectors) [
          | none ↦ faults
          | some (err _, c') ↦ passes (record t { cbt_map = some c' })
          | some (ok, c') ↦ protect (record t { cbt_map = some c' }) b
        ]
      ]

-- The result with the tracker, and whether its queue is still frozen at the end; `none` is a null
-- pointer, or the end of the fuel of the block size. `capacity` is the number of sectors of the original device now.
pub tracker_take_snapshot :
    Rounding → Params → Memory → (uuid capacity : ℕ) → Tracker → Option (Ret × Tracker × Bool)
tracker_take_snapshot K P m uuid capacity t = elim t.diff_area [
  | none ↦ none
  | some _ ↦ elim t.cbt_map [
    | none ↦ none
    | some c ↦
        let reset_needed = c.is_corrupted || not (c.device_capacity == capacity) in
        elim (if reset_needed then cbt_map_reset K P m c capacity else some (ok, c)) [
          | none ↦ none
          | some (err e, c') ↦ some (err e, record t { cbt_map = some c' }, true)
          | some (ok, c') ↦ elim (cbt_map_switch uuid c') [
            | none ↦ none
            | some c'' ↦ some (ok, record t { cbt_map = some c''; snapshot_is_taken = true }, false)
          ]
        ]
  ]
]

-- The queue is frozen and thawed again.
unfoldable pub tracker_release_snapshot : Tracker → Tracker
tracker_release_snapshot t = record t { snapshot_is_taken = false }
