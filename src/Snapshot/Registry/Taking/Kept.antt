-- ===== src/Snapshot/Registry/Taking/Kept.antt =====
-- `snapshot_take` of module/snapshot.c and the list of snapshots: only an error before the images takes
-- the snapshot off.
use blksnap.Prelude.{
  ℕ, refl, inl, inr, Bool, true, false, Option, none, some, List, [], ◌∷◌, Option-cases,
}
use blksnap.Kernel.{efault, Ret, err, Ret-cases}
use blksnap.Area.Data.{DiffArea, diff_area_is_corrupted}
use blksnap.Area.Size.{Outcome, area, wild, diff_area_new}
use blksnap.Snapshot.{Device, Run, done, snapshot_take_trackers}
use blksnap.Snapshot
use blksnap.Snapshot.Store.{
  Image, Store, Environment, Res, returns, blocks, faults, no_fuel, M, update, gather, scatter,
}
use blksnap.Snapshot.Registry.Keeps.{
  Ensures, Same, Same-refl, Same-trans, Keeps, weaken, scatter-Same, update-ids, update-taken,
}
use blksnap.Snapshot.Registry.Taking.{
  set_area, after_run, with_image, image_made, make_areas, take_trackers, check_areas, make_image,
  make_images, blank,
}

abbrev pub makes : Environment → ℕ → ℕ → List (Option ℕ) → Store → Outcome → Res Ret
makes e s f fs st (area a) =
    make_areas e s fs (record (set_area f (some a) st) { area_kref = update st.area_kref f 1 })
makes e s f fs st (Outcome.error x _) = returns (err x) st
makes e s f fs st wild = faults
makes e s f fs st Outcome.no_fuel = no_fuel

makes-Keeps :
    (e : Environment) (s f : ℕ) (fs : List (Option ℕ)) (st : Store) (out : Outcome)
    → Keeps (make_areas e s fs)
    → Ensures (Same st) (makes e s f fs st out)
makes-Keeps e s f fs st (area a) h =
    let st' = record (set_area f (some a) st) { area_kref = update st.area_kref f 1 } in
    weaken {b = st'} (make_areas e s fs st')
      (record { links = refl; next_is = refl; ids = λ s. refl; taken = λ s h. h }) (h st')
makes-Keeps e s f fs st (Outcome.error x _) h = Same-refl st
makes-Keeps e s f fs st wild h = tt
makes-Keeps e s f fs st Outcome.no_fuel h = tt

pub make_areas-Keeps : (e : Environment) (s : ℕ) (fs : List (Option ℕ)) → Keeps (make_areas e s fs)
unfolding make_areas
make_areas-Keeps e s [] st = Same-refl st
make_areas-Keeps e s (none ∷ fs) st = make_areas-Keeps e s fs st
make_areas-Keeps e s (some f ∷ fs) st =
    let k = e.device f in
    makes-Keeps e s f fs st
      (diff_area_new e.rounding e.params e.fuel k.area k.bdev (st.objects s).diff_storage)
      (make_areas-Keeps e s fs)

pub marked-Same :
    (s : ℕ) (fs : List (Option ℕ)) (st : Store) (run : Run) (flag : Bool)
    → Ensures (Same st) (after_run s fs st run flag)
marked-Same s fs st (done ret ds) true =
    let st' = scatter fs ds st in
    Same-trans (scatter-Same fs ds st) (record {
      links = refl;
      next_is = refl;
      ids = update-ids st'.objects s (record (st'.objects s) { is_taken = true }) refl;
      taken = update-taken st'.objects s (record (st'.objects s) { is_taken = true }) (λ _. refl);
    })
marked-Same s fs st (done ret ds) false =
    Same-trans (scatter-Same fs ds st)
      (record { links = refl; next_is = refl; ids = λ s. refl; taken = λ s h. h })
marked-Same s fs st Snapshot.blocks flag = tt
marked-Same s fs st Snapshot.faults flag = tt

take_trackers-Keeps :
    (e : Environment) (s : ℕ) (fs : List (Option ℕ)) → Keeps (take_trackers e s fs)
unfolding take_trackers
take_trackers-Keeps e s fs st =
    let out = snapshot_take_trackers e.rounding e.params (gather e st fs) in
    marked-Same s fs st out.0 out.1

check-Keeps :
    (e : Environment) (f : ℕ) (fs : List (Option ℕ)) (st : Store) (a : DiffArea) (bad : Bool)
    → Keeps (check_areas e fs)
    → Ensures (Same st) (elim bad [
      | true ↦ returns (err efault) (set_area f (some a) st)
      | false ↦ check_areas e fs (set_area f (some a) st)
    ])
check-Keeps e f fs st a true h = record {
  links = refl;
  next_is = refl;
  ids = λ s. refl;
  taken = λ s h. h;
}
check-Keeps e f fs st a false h =
    weaken {b = set_area f (some a) st} (check_areas e fs (set_area f (some a) st))
      (record { links = refl; next_is = refl; ids = λ s. refl; taken = λ s h. h })
      (h (set_area f (some a) st))

pub check_areas-Keeps : (e : Environment) (fs : List (Option ℕ)) → Keeps (check_areas e fs)
unfolding check_areas
check_areas-Keeps e [] st = Same-refl st
check_areas-Keeps e (none ∷ fs) st = check_areas-Keeps e fs st
check_areas-Keeps e (some f ∷ fs) st = elim (Option-cases (st.world.trackers f).diff_area) [
  | inl no_area ↦ rw (no_area, Ensures) tt
  | inr (a, has) ↦
      rw (has, Ensures)
        (check-Keeps e f fs st ((e.device f).meanwhile a)
          (diff_area_is_corrupted ((e.device f).meanwhile a)) (check_areas-Keeps e fs))
]

with_image-Keeps :
    (image : Image) (st : Store) (r : Res (Ret × List (Option Image)))
    → Ensures (Same st) r
    → Ensures (Same st) (with_image image r)
with_image-Keeps image st (returns (ret, is) st') h = h
with_image-Keeps image st blocks h = tt
with_image-Keeps image st faults h = tt
with_image-Keeps image st no_fuel h = tt

make_image-Keeps :
    (e : Environment) (f : ℕ) (left : List (Option Image)) (rest : M (Ret × List (Option Image)))
    → Keeps rest
    → Keeps (make_image e f left rest)
unfolding make_image
make_image-Keeps e f left rest h st =
    let out = image_made e f st in
    let same : Same st out.1 = record {
      links = refl;
      next_is = refl;
      ids = λ s. refl;
      taken = λ s h. h;
    } in
    elim (Ret-cases out.0) [
      | inl fine ↦
          rw (fine, Ensures)
            (with_image-Keeps (record { disk = (e.device f).image_disk; tracker = f }) st
              (rest out.1) (weaken {b = out.1} (rest out.1) same (h out.1)))
      | inr (x, fails) ↦ rw (fails, Ensures) same
    ]

pub make_images-Keeps : (e : Environment) (fs : List (Option ℕ)) → Keeps (make_images e fs)
unfolding make_images
make_images-Keeps e [] st = Same-refl st
make_images-Keeps e (none ∷ fs) st = tt
make_images-Keeps e (some f ∷ fs) st = elim (Option-cases (st.world.trackers f).diff_area) [
  | inl no_area ↦ rw (no_area, Ensures) tt
  | inr (a, has) ↦ elim (Option-cases (st.world.trackers f).cbt_map) [
    | inl no_map ↦ rw (has, Ensures, no_map) tt
    | inr (c, there) ↦
        rw (has, Ensures, there)
          (make_image-Keeps e f (blank fs) (make_images e fs) (make_images-Keeps e fs) st)
  ]
]
