-- ===== src/Snapshot/Release.antt =====
-- Releasing the trackers of a snapshot (module/snapshot.c) after they were taken, or were not.
use blksnap.Prelude.{
  ◌≡◌, refl, sym, ap, ◌∙◌, inl, inr, Bool, false, Option, none, some, List, [], ◌∷◌, All, arith,
}
use blksnap.Kernel.{Errno, Ret, ok, err, Rounding, default_params}
use blksnap.Area.Data.{DiffArea}
use blksnap.Snapshot.{
  Device, Run, done, blocks, faults, after, release_device, snapshot_take_trackers,
  snapshot_release_trackers,
}
use blksnap.Snapshot.Take.{IsReady, IsTaken, IsReleased, On, release-IsAt, take_all_or_none}
use blksnap.Snapshot.Stuck.{OneStuck-Frozen, snapshot_release_trackers-Frozen}

-- The trackers were released.
abbrev pub Released : Run → Type 0
Released (done ret ds) = (ret ≡ ok) × All (On (IsReleased false)) ds
Released blocks = ⊥
Released faults = ⊥

after-Released :
    (d : Option Device) (r : Run) → On (IsReleased false) d → Released r → Released (after d r)
after-Released d (done ret ds) a (is, h) = (is, (a, h))
after-Released d blocks a h = h
after-Released d faults a h = h

release_next :
    (d d' : Device) (ds : List (Option Device)) (a : DiffArea)
    → d.tracker.diff_area ≡ some a
    → release_device false d ≡ some d'
    → snapshot_release_trackers (some d ∷ ds) ≡ after (some d') (snapshot_release_trackers ds)
unfolding snapshot_release_trackers
release_next d d' ds a has released = ground (arith, has, released)

release-Released :
    (ds : List (Option Device)) → All (On IsTaken) ds → Released (snapshot_release_trackers ds)
unfolding snapshot_release_trackers
release-Released [] h = (refl, tt)
release-Released (none ∷ ds) (_, hs) =
    after-Released none (snapshot_release_trackers ds) tt (release-Released ds hs)
release-Released (some d ∷ ds) (a, hs) =
    let (d', released, idle) = release-IsAt d false a in
    rw (release_next d d' ds a.area a.has_area released)
      (after-Released (some d') (snapshot_release_trackers ds) idle (release-Released ds hs))

abbrev ret_of : Run → Ret
ret_of (done ret ds) = ret
ret_of blocks = ok
ret_of faults = ok

abbrev array_of : Run → List (Option Device)
array_of (done ret ds) = ds
array_of blocks = []
array_of faults = []

-- The trackers of a snapshot as for take_all_or_none. Where snapshot_take_trackers returned 0,
-- snapshot_release_trackers comes to an end and leaves every tracker without the snapshot and with a
-- running queue, and its file system frozen once for each thaw that failed after a freeze, and so not
-- at all where each thaw works. Where it returned an error, the release, which snapshot_take then
-- runs, blocks for ever, on the queue that the failed tracker left frozen.
pub take_then_release :
    (K : Rounding) (ds ds' : List (Option Device)) (ret : Ret) (flag : Bool)
    → All (On IsReady) ds
    → snapshot_take_trackers K default_params ds ≡ (done ret ds', flag)
    → (ret ≡ ok → Released (snapshot_release_trackers ds'))
      × ((e : Errno) → ret ≡ err e → snapshot_release_trackers ds' ≡ blocks)
take_then_release K ds ds' ret flag ready h =
    let (ret', es, flag', e, outcome) = take_all_or_none K ds ready in
    let same : (done ret ds', flag) ≡ (done ret' es, flag') = sym h ∙ e in
    let rets : ret ≡ ret' = ap (λ r. ret_of r.0) same in
    let arrays : ds' ≡ es = ap (λ r. array_of r.0) same in
    elim outcome [
      | inl (fine, _, all) ↦
          ((λ _. rw arrays (release-Released es all)), λ x fails. ground (arith, fine, rets, fails))
      | inr (failed, _, one) ↦ (
        (λ fine. ground (arith, failed, rets, fine)),
        λ x _. rw arrays (snapshot_release_trackers-Frozen es (OneStuck-Frozen es one)),
      )
    ]
