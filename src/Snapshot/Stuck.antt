-- ===== src/Snapshot/Stuck.antt =====
-- A queue that stays frozen after a failed take (module/snapshot.c): which devices keep their places in
-- the array, and that the release blocks on such a queue.
use blksnap.Prelude.{
  ◌≡◌, ◌⊎◌, ap, ◌∙◌, inl, inr, true, false, Option, none, some, List, [], ◌∷◌, All, arith,
  Option-cases,
}
use blksnap.Kernel.{Errno, enomem, ok, err, Rounding, default_params}
use blksnap.Area.Data.{DiffArea}
use blksnap.Tracker.Take.{take_snapshot_lem}
use blksnap.Snapshot.{
  Device, Run, done, blocks, faults, after, release_device, undo, take_loop,
  snapshot_release_trackers,
}
use blksnap.Snapshot.Take.{IsReady, On, OneStuck, loop_ok, loop_err, thawed, with_tracker}

-- The second array has its devices where the first has them.
abbrev pub Shape : List (Option Device) → List (Option Device) → Type 0
Shape [] [] = Unit
Shape (none ∷ ds) (none ∷ es) = Shape ds es
Shape (some d ∷ ds) (some e ∷ es) = Shape ds es
Shape [] (e ∷ es) = ⊥
Shape (d ∷ ds) [] = ⊥
Shape (none ∷ ds) (some e ∷ es) = ⊥
Shape (some d ∷ ds) (none ∷ es) = ⊥

pub Shape-refl : (ds : List (Option Device)) → Shape ds ds
Shape-refl [] = tt
Shape-refl (none ∷ ds) = Shape-refl ds
Shape-refl (some d ∷ ds) = Shape-refl ds

abbrev pub Shaped : List (Option Device) → Run → Type 0
Shaped ds (done ret es) = Shape ds es
Shaped ds blocks = Unit
Shaped ds faults = Unit

released-Shaped :
    (d : Device) (e : Errno) (ds es : List (Option Device)) (o : Option Device)
    → Shape ds es
    → Shaped (some d ∷ ds) (elim o [ none ↦ blocks | some d' ↦ done (err e) (some d' ∷ es) ])
released-Shaped d e ds es none h = tt
released-Shaped d e ds es (some d') h = h

undo-Shaped :
    (c d : Device) (ds : List (Option Device)) (r : Run)
    → Shaped ds r
    → Shaped (some c ∷ ds) (undo d r)
unfolding undo
undo-Shaped c d ds (done ok es) h = h
undo-Shaped c d ds (done (err e) es) h = released-Shaped c e ds es (release_device true d) h
undo-Shaped c d ds blocks h = tt
undo-Shaped c d ds faults h = tt

after-Shaped :
    (ds : List (Option Device)) (r : Run) → Shaped ds r → Shaped (none ∷ ds) (after none r)
after-Shaped ds (done ret es) h = h
after-Shaped ds blocks h = tt
after-Shaped ds faults h = tt

pub take_loop-Shaped :
    (K : Rounding) (ds : List (Option Device))
    → All (On IsReady) ds
    → Shaped ds (take_loop K default_params ds)
unfolding take_loop
take_loop-Shaped K [] h = tt
take_loop-Shaped K (none ∷ ds) (_, hs) =
    after-Shaped ds (take_loop K default_params ds) (take_loop-Shaped K ds hs)
take_loop-Shaped K (some d ∷ ds) (r, hs) =
    let (ret, t, frozen, takes, outcome) =
      take_snapshot_lem K d.memory d.uuid d.capacity d.tracker r.map r.area r.fits r.has_area
        r.has_map r.valid in
    elim outcome [
      | inl (fine, _, _, running, _) ↦
          let takes' =
            takes ∙ ap (λ x. some (x, t, frozen)) fine ∙ ap (λ x. some (ok, t, x)) running in
          rw (loop_ok K d ds r.area t r.has_area takes', Shaped)
            (undo-Shaped d (thawed d (with_tracker d t false)) ds (take_loop K default_params ds)
              (take_loop-Shaped K ds hs))
      | inr (fails, _, _, stopped, _) ↦
          let takes' =
            takes
            ∙ ap (λ x. some (x, t, frozen)) fails
            ∙ ap (λ x. some (err enomem, t, x)) stopped in
          rw (loop_err K d ds r.area t r.has_area enomem takes', Shaped) (Shape-refl ds)
    ]

-- A device has an area and a frozen queue.
abbrev pub Frozen : List (Option Device) → Type 0
Frozen [] = ⊥
Frozen (none ∷ ds) = Frozen ds
Frozen (some d ∷ ds) =
    ((a : DiffArea) × (d.tracker.diff_area ≡ some a) × (d.queue_frozen ≡ true)) ⊎ Frozen ds

pub OneStuck-Frozen : (ds : List (Option Device)) → OneStuck ds → Frozen ds
OneStuck-Frozen [] h = h
OneStuck-Frozen (none ∷ ds) (inl (s, _)) = elim s [ ]
OneStuck-Frozen (none ∷ ds) (inr (_, h)) = OneStuck-Frozen ds h
OneStuck-Frozen (some d ∷ ds) (inl (a, _)) = inl (a.area, a.has_area, a.queue_is)
OneStuck-Frozen (some d ∷ ds) (inr (_, h)) = inr (OneStuck-Frozen ds h)

first_frozen : (d : Device) → d.queue_frozen ≡ true → release_device false d ≡ none
unfolding release_device
first_frozen d h = ground (arith, h)

-- The release blocks, wherever the device stands.
pub snapshot_release_trackers-Frozen :
    (ds : List (Option Device)) → Frozen ds → snapshot_release_trackers ds ≡ blocks
unfolding snapshot_release_trackers
snapshot_release_trackers-Frozen [] h = elim h [ ]
snapshot_release_trackers-Frozen (none ∷ ds) h =
    ap (after none) (snapshot_release_trackers-Frozen ds h)
snapshot_release_trackers-Frozen (some d ∷ ds) (inl (a, has, frozen)) =
    ground (arith, has, first_frozen d frozen)
snapshot_release_trackers-Frozen (some d ∷ ds) (inr h) = elim (Option-cases d.tracker.diff_area) [
  | inl no_area ↦ ground (arith, no_area, snapshot_release_trackers-Frozen ds h)
  | inr (a, has) ↦ elim (Option-cases (release_device false d)) [
    | inl stuck ↦ ground (arith, has, stuck)
    | inr (d', released) ↦ ground (arith, has, released, snapshot_release_trackers-Frozen ds h)
  ]
]
