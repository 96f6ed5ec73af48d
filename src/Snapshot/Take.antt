-- ===== src/Snapshot/Take.antt =====
-- Taking the trackers of a snapshot (module/snapshot.c): all of them or none, and what a failure
-- leaves behind.
use blksnap.Prelude.{
  ℕ, ◌+◌, ◌-◌, ◌≤◌, ◌≡◌, ◌⊎◌, refl, ap, ◌∙◌, inl, inr, Bool, true, false, Option, none, some, List,
  [], ◌∷◌, All, arith, if◌then◌else◌, ◌&&◌, ◌||◌,
}
use blksnap.Kernel.{Errno, enomem, Ret, ok, err, Rounding, default_params}
use blksnap.Cbt.{CbtMap}
use blksnap.Cbt.Inv.{IsValid}
use blksnap.Cbt.Size.{max_capacity}
use blksnap.Area.Data.{DiffArea}
use blksnap.Tracker.{Tracker, tracker_take_snapshot, tracker_release_snapshot}
use blksnap.Tracker.Take.{take_snapshot_lem}
use blksnap.Snapshot.{
  Device, freeze_bdev, thaw_bdev, Run, done, blocks, faults, after, release_device, undo, take_loop,
  snapshot_take_trackers,
}

-- The tracker has an area and a valid map, no snapshot, and nothing is frozen.
pub record IsReady (d : Device) : Type 0 where
  pub area : DiffArea
  pub map : CbtMap
  pub has_area : d.tracker.diff_area ≡ some area
  pub has_map : d.tracker.cbt_map ≡ some map
  pub valid : IsValid map
  pub fits : d.capacity ≤ max_capacity
  pub no_snapshot : d.tracker.snapshot_is_taken ≡ false
  pub queue_runs : d.queue_frozen ≡ false
  pub fs_runs : d.fs_frozen ≡ 0

-- The tracker has an area; whether it has a snapshot, whether its queue is frozen, and how often its
-- file system is.
pub record IsAt (taken queue : Bool) (fs : ℕ) (d : Device) : Type 0 where
  pub area : DiffArea
  pub has_area : d.tracker.diff_area ≡ some area
  pub taken_is : d.tracker.snapshot_is_taken ≡ taken
  pub queue_is : d.queue_frozen ≡ queue
  pub fs_is : d.fs_frozen ≡ fs

abbrev pub On {ℓ} : (Device → Type ℓ) → Option Device → Type ℓ
On P none = Unit
On P (some d) = P d

-- The tracker that failed: its queue is frozen, and its file system if it could be.
abbrev pub IsStuck : Device → Type 0
IsStuck d = IsAt false true (if d.can_freeze then 1 else 0) d

abbrev pub Stuck : Option Device → Type 0
Stuck none = ⊥
Stuck (some d) = IsStuck d

-- How often the file system stays frozen after the device was taken, and after it was released again:
-- not at all where the thawing works each time.
abbrev pub left_taken : Device → ℕ
left_taken d = if d.can_freeze then (if d.can_thaw then 0 else 1) else 0

abbrev pub left_released : (always_thaw : Bool) → Device → ℕ
left_released always_thaw d =
    if d.can_freeze_again
    then (if d.can_thaw_again then left_taken d else left_taken d + 1)
    else (if always_thaw && d.can_thaw_again then left_taken d - 1 else left_taken d)

-- The tracker has the snapshot; it has none since it was released again; it was not reached.
abbrev pub IsTaken : Device → Type 0
IsTaken d = IsAt true false (left_taken d) d

abbrev pub IsReleased : (always_thaw : Bool) → Device → Type 0
IsReleased always_thaw d = IsAt false false (left_released always_thaw d) d

abbrev pub IsIdle : Device → Type 0
IsIdle d = IsAt false false 0 d

-- One tracker failed; those before it were released again, and those after it were not reached.
abbrev pub OneStuck : List (Option Device) → Type 0
OneStuck [] = ⊥
OneStuck (d ∷ ds) = (Stuck d × All (On IsIdle) ds) ⊎ (On (IsReleased true) d × OneStuck ds)

abbrev pub Ended : Run → Type 0
Ended (done ok ds) = All (On IsTaken) ds
Ended (done (err e) ds) = (e ≡ enomem) × OneStuck ds
Ended blocks = ⊥
Ended faults = ⊥

ready-IsAt : (d : Option Device) → On IsReady d → On IsIdle d
ready-IsAt none r = tt
ready-IsAt (some d) r = record {
  area = r.area;
  has_area = r.has_area;
  taken_is = r.no_snapshot;
  queue_is = r.queue_runs;
  fs_is = r.fs_runs;
}

All-IsReady-IsAt : (ds : List (Option Device)) → All (On IsReady) ds → All (On IsIdle) ds
All-IsReady-IsAt [] h = tt
All-IsReady-IsAt (d ∷ ds) (h, hs) = (ready-IsAt d h, All-IsReady-IsAt ds hs)

-- The release does not block on a queue that runs.
pub release-IsAt :
    (d : Device) (always : Bool)
    → IsTaken d
    → (d' : Device) × (release_device always d ≡ some d') × IsReleased always d'
unfolding release_device tracker_release_snapshot
release-IsAt d always a =
    let frozen = freeze_bdev d.can_freeze_again d in
    let released = record frozen { tracker = tracker_release_snapshot frozen.tracker } in
    (
      if always || d.can_freeze_again then thaw_bdev d.can_thaw_again released else released,
      ground (arith, a.queue_is),
      record {
        area = a.area;
        has_area = ground (arith, a.has_area);
        taken_is = ground arith;
        queue_is = ground (arith, a.queue_is);
        fs_is = ground (arith, a.fs_is);
      },
    )

after-Ended : (r : Run) → Ended r → Ended (after none r)
after-Ended (done ok ds) h = (tt, h)
after-Ended (done (err e) ds) (is, h) = (is, inr (tt, h))
after-Ended blocks h = h
after-Ended faults h = h

undo-Ended : (d : Device) (r : Run) → IsTaken d → Ended r → Ended (undo d r)
unfolding undo
undo-Ended d (done ok ds) a h = (a, h)
undo-Ended d (done (err e) ds) a (is, h) =
    let (d', released, idle) = release-IsAt d true a in rw (released, undo) (is, inr (idle, h))
undo-Ended d blocks a h = h
undo-Ended d faults a h = h

-- The device after its tracker took the snapshot, and after it did not.
abbrev pub with_tracker : Device → Tracker → Bool → Device
with_tracker d t frozen = record (freeze_bdev d.can_freeze d) { tracker = t; queue_frozen = frozen }

abbrev pub thawed : Device → Device → Device
thawed d taken = if d.can_freeze then thaw_bdev d.can_thaw taken else taken

module _ (K : Rounding) (d : Device) (ds : List (Option Device)) (a : DiffArea) (t : Tracker)
    (has : d.tracker.diff_area ≡ some a) where
  pub loop_ok :
      tracker_take_snapshot K default_params d.memory d.uuid d.capacity d.tracker
        ≡ some (ok, t, false)
      → take_loop K default_params (some d ∷ ds)
        ≡ undo (thawed d (with_tracker d t false)) (take_loop K default_params ds)
  unfolding take_loop
  loop_ok takes = ground (arith, has, takes)

  pub loop_err :
      (e : Errno)
      → tracker_take_snapshot K default_params d.memory d.uuid d.capacity d.tracker
        ≡ some (err e, t, true)
      → take_loop K default_params (some d ∷ ds) ≡ done (err e) (some (with_tracker d t true) ∷ ds)
  unfolding take_loop
  loop_err e takes = ground (arith, has, takes)

thawed-IsTaken :
    (d : Device) (t : Tracker) (r : IsReady d)
    → t.diff_area ≡ some r.area
    → t.snapshot_is_taken ≡ true
    → IsTaken (thawed d (with_tracker d t false))
thawed-IsTaken d t r area taken = record {
  area = r.area;
  has_area = ground (arith, area);
  taken_is = ground (arith, taken);
  queue_is = ground arith;
  fs_is = ground (arith, r.fs_runs);
}

IsStuck-with_tracker :
    (d : Device) (t : Tracker) (r : IsReady d)
    → t.diff_area ≡ some r.area
    → t.snapshot_is_taken ≡ false
    → IsStuck (with_tracker d t true)
IsStuck-with_tracker d t r area taken = record {
  area = r.area;
  has_area = ground (arith, area);
  taken_is = ground (arith, taken);
  queue_is = ground arith;
  fs_is = ground (arith, r.fs_runs);
}

pub take_loop-Ended :
    (K : Rounding) (ds : List (Option Device))
    → All (On IsReady) ds
    → Ended (take_loop K default_params ds)
unfolding take_loop
take_loop-Ended K [] h = tt
take_loop-Ended K (none ∷ ds) (_, hs) =
    after-Ended (take_loop K default_params ds) (take_loop-Ended K ds hs)
take_loop-Ended K (some d ∷ ds) (r, hs) =
    let (ret, t, frozen, takes, outcome) =
      take_snapshot_lem K d.memory d.uuid d.capacity d.tracker r.map r.area r.fits r.has_area
        r.has_map r.valid in
    elim outcome [
      | inl (fine, taken, area, running, _) ↦
          let takes' =
            takes ∙ ap (λ x. some (x, t, frozen)) fine ∙ ap (λ x. some (ok, t, x)) running in
          rw (loop_ok K d ds r.area t r.has_area takes') (
            undo-Ended (thawed d (with_tracker d t false)) (take_loop K default_params ds)
              (thawed-IsTaken d t r (area ∙ r.has_area) taken) (take_loop-Ended K ds hs))
      | inr (fails, _, _, stopped, (c', is, _, _)) ↦
          let takes' =
            takes
            ∙ ap (λ x. some (x, t, frozen)) fails
            ∙ ap (λ x. some (err enomem, t, x)) stopped in
          rw (loop_err K d ds r.area t r.has_area enomem takes') (
            refl,
            inl (
              IsStuck-with_tracker d t r (ap (λ x. x.diff_area) is ∙ r.has_area)
                  (ap (λ x. x.snapshot_is_taken) is ∙ r.no_snapshot),
              All-IsReady-IsAt ds hs,
            ),
          )
    ]

-- What taking comes to: all trackers have the snapshot, or one failed and no other has it.
abbrev pub AllOrNone : Ret → List (Option Device) → Bool → Type 0
AllOrNone ret ds flag =
    ((ret ≡ ok) × (flag ≡ true) × All (On IsTaken) ds)
    ⊎ ((ret ≡ err enomem) × (flag ≡ false) × OneStuck ds)

pub take_all_or_none :
    (K : Rounding) (ds : List (Option Device))
    → All (On IsReady) ds
    → (ret : Ret) × (ds' : List (Option Device)) × (flag : Bool) × (snapshot_take_trackers K
          default_params ds
        ≡ (done ret ds', flag))
      × AllOrNone ret ds' flag
unfolding snapshot_take_trackers
take_all_or_none K ds ready = go (take_loop K default_params ds) refl (take_loop-Ended K ds ready)
  where
    go :
        (r : Run)
        → take_loop K default_params ds ≡ r
        → Ended r
        → (ret : Ret) × (ds' : List (Option Device)) × (flag : Bool) × (snapshot_take_trackers K
              default_params ds
            ≡ (done ret ds', flag))
          × AllOrNone ret ds' flag
    go (done ok ds') e h = (ok, ds', true, rw (e, snapshot_take_trackers) refl, inl (refl, refl, h))
    go (done (err x) ds') e (is, h) =
        (err x, ds', false, rw (e, snapshot_take_trackers) refl, inr (ap err is, refl, h))
    go blocks e h = elim h [ ]
    go faults e h = elim h [ ]
