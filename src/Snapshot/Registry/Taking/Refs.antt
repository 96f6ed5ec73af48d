-- ===== src/Snapshot/Registry/Taking/Refs.antt =====
-- The steps of `snapshot_take` of module/snapshot.c leave the counters of the snapshots alone, and what
-- putting a reference comes to.
use blksnap.Prelude.{
  ℕ, ◌-◌, ◌==◌, ◌≡◌, refl, ap, ◌∙◌, inl, inr, Bool, true, false, Option, none, some, List, [], ◌∷◌,
  Option-cases,
}
use blksnap.Kernel.{Errno, efault, Ret, ok, err, Ret-cases}
use blksnap.Area.Data.{DiffArea, diff_area_is_corrupted}
use blksnap.Snapshot.{Run, done, with_flag, take_loop, snapshot_take_trackers}
use blksnap.Snapshot
use blksnap.Snapshot.Store.{
  Image, Store, Environment, Res, returns, blocks, faults, no_fuel, M, ◌>>=◌, pure, update, gather,
}
use blksnap.Snapshot.Registry.{snapshot_put, snapshot_free, unlink}
use blksnap.Snapshot.Registry.Keeps.{Ensures, returns->>=}
use blksnap.Snapshot.Registry.History.{After, After-bind}
use blksnap.Snapshot.Registry.Taking.{
  set_area, after_run, with_image, image_made, make_areas, take_trackers, check_areas, make_image,
  make_images, take_steps, fail_take, blank,
}
use blksnap.Snapshot.Registry.Taking.Frozen.{
  update-at, SameObjects, scatter-SameObjects, make_areas-SameObjects,
}

-- The counters are those of the first store.
abbrev pub SameRefs : {A : Type 0} → Store → Res A → Type 0
SameRefs st r = After (λ _ st'. st'.kref ≡ st.kref) r

run-SameRefs :
    (s : ℕ) (fs : List (Option ℕ)) (st : Store) (run : Run)
    → SameRefs st (after_run s fs st (with_flag run).0 (with_flag run).1)
run-SameRefs s fs st (done ok ds) = (scatter-SameObjects fs ds st).1
run-SameRefs s fs st (done (err x) ds) = (scatter-SameObjects fs ds st).1
run-SameRefs s fs st Snapshot.blocks = tt
run-SameRefs s fs st Snapshot.faults = tt

take_trackers-SameRefs :
    (e : Environment) (s : ℕ) (fs : List (Option ℕ)) (st : Store)
    → SameRefs st (take_trackers e s fs st)
unfolding take_trackers snapshot_take_trackers
take_trackers-SameRefs e s fs st =
    run-SameRefs s fs st (take_loop e.rounding e.params (gather e st fs))

check-SameRefs :
    (e : Environment) (f : ℕ) (fs : List (Option ℕ)) (st : Store) (a : DiffArea) (bad : Bool)
    → SameRefs st (check_areas e fs (set_area f (some a) st))
    → SameRefs st (elim bad [
      | true ↦ returns (err efault) (set_area f (some a) st)
      | false ↦ check_areas e fs (set_area f (some a) st)
    ])
check-SameRefs e f fs st a true h = refl
check-SameRefs e f fs st a false h = h

check_areas-SameRefs :
    (e : Environment) (fs : List (Option ℕ)) (st : Store) → SameRefs st (check_areas e fs st)
unfolding check_areas
check_areas-SameRefs e [] st = refl
check_areas-SameRefs e (none ∷ fs) st = check_areas-SameRefs e fs st
check_areas-SameRefs e (some f ∷ fs) st = elim (Option-cases (st.world.trackers f).diff_area) [
  | inl no_area ↦ rw (no_area, After) tt
  | inr (a, has) ↦
      let a' = (e.device f).meanwhile a in
      rw (has, After)
        (check-SameRefs e f fs st a' (diff_area_is_corrupted a')
          (check_areas-SameRefs e fs (set_area f (some a') st)))
]

with_image-SameRefs :
    (image : Image) (st : Store) (r : Res (Ret × List (Option Image)))
    → SameRefs st r
    → SameRefs st (with_image image r)
with_image-SameRefs image st (returns (ret, is) st') h = h
with_image-SameRefs image st blocks h = tt
with_image-SameRefs image st faults h = tt
with_image-SameRefs image st no_fuel h = tt

make_image-SameRefs :
    (e : Environment) (f : ℕ) (left : List (Option Image)) (rest : M (Ret × List (Option Image)))
    (st : Store)
    → ((st' : Store) → SameRefs st' (rest st'))
    → SameRefs st (make_image e f left rest st)
unfolding make_image
make_image-SameRefs e f left rest st h =
    let out = image_made e f st in
    elim (Ret-cases out.0) [
      | inl fine ↦
          rw (fine, After)
            (with_image-SameRefs (record { disk = (e.device f).image_disk; tracker = f }) st
              (rest out.1) (h out.1))
      | inr (x, fails) ↦ rw (fails, After) refl
    ]

pub make_images-SameRefs :
    (e : Environment) (fs : List (Option ℕ)) (st : Store) → SameRefs st (make_images e fs st)
unfolding make_images
make_images-SameRefs e [] st = refl
make_images-SameRefs e (none ∷ fs) st = tt
make_images-SameRefs e (some f ∷ fs) st = elim (Option-cases (st.world.trackers f).diff_area) [
  | inl no_area ↦ rw (no_area, After) tt
  | inr (a, has) ↦ elim (Option-cases (st.world.trackers f).cbt_map) [
    | inl no_map ↦ rw (has, After, no_map) tt
    | inr (c, there) ↦
        rw (has, After, there)
          (make_image-SameRefs e f (blank fs) (make_images e fs) st (make_images-SameRefs e fs))
  ]
]

on_from :
    {A : Type 0} (st st' : Store) (r : Res A) → st'.kref ≡ st.kref → SameRefs st' r → SameRefs st r
on_from st st' (returns a st'') h k = k ∙ h
on_from st st' blocks h k = tt
on_from st st' faults h k = tt
on_from st st' no_fuel h k = tt

areas_made :
    (e : Environment) (s : ℕ) (fs : List (Option ℕ)) (st : Store)
    → SameRefs st (make_areas e s fs st)
areas_made e s fs st = go (make_areas e s fs st) (make_areas-SameObjects e s fs st)
  where
    go : (r : Res Ret) → Ensures (SameObjects st) r → SameRefs st r
    go (returns ret st') h = h.1
    go blocks h = tt
    go faults h = tt
    go no_fuel h = tt

pub take_steps-SameRefs :
    (e : Environment) (s : ℕ) (fs : List (Option ℕ)) (st : Store)
    → SameRefs st (take_steps e s fs st)
unfolding take_steps
take_steps-SameRefs e s fs st =
    After-bind (λ _ st'. st'.kref ≡ st.kref) (λ _ st'. st'.kref ≡ st.kref) (make_areas e s fs st) _
      (areas_made e s fs st) after_areas
  where
    checked :
        (ret : Ret) (st' : Store)
        → st'.kref ≡ st.kref
        → SameRefs st
            ((elim ret as (λ _. M Ret) [ err x ↦ pure (err x) | ok ↦ check_areas e fs ]) st')
    checked (err x) st' h = h
    checked ok st' h = on_from st st' (check_areas e fs st') h (check_areas-SameRefs e fs st')

    after_areas :
        (ret : Ret) (st' : Store)
        → st'.kref ≡ st.kref
        → SameRefs st (
            (elim ret as (λ _. M Ret) [
              | err x ↦ pure (err x)
              | ok ↦ do
                ret' ← take_trackers e s fs
                elim ret' [ err x ↦ pure (err x) | ok ↦ check_areas e fs ]
            ])
              st')
    after_areas (err x) st' h = h
    after_areas ok st' h =
        After-bind (λ _ st''. st''.kref ≡ st'.kref) (λ _ st''. st''.kref ≡ st.kref)
          (take_trackers e s fs st')
          (λ ret'. elim ret' [ err x ↦ pure (err x) | ok ↦ check_areas e fs ])
          (take_trackers-SameRefs e s fs st') (λ ret st'' k. checked ret st'' (k ∙ h))

-- What a put comes to, by the counter before it.
abbrev put_from : Environment → ℕ → Store → (refs : ℕ) → Res (Unit {0})
put_from e s st refs =
    let st' = record st { kref = update st.kref s (refs - 1) } in
    elim (refs == 1) [ true ↦ snapshot_free e s st' | false ↦ returns tt st' ]

put_lem : (e : Environment) (s : ℕ) (st : Store) → snapshot_put e s st ≡ put_from e s st (st.kref s)
unfolding snapshot_put
put_lem e s st = refl

-- The store after one of two references was put.
abbrev pub one_left : ℕ → Store → Store
one_left s st = record st { kref = update st.kref s 1 }

pub put_more :
    (e : Environment) (s : ℕ) (st : Store)
    → st.kref s ≡ 2
    → snapshot_put e s st ≡ returns tt (one_left s st)
put_more e s st two = put_lem e s st ∙ ap (put_from e s st) two

-- The store when the last reference to a snapshot, which was taken off the list, is put.
abbrev pub dropped : Environment → ℕ → Store → Store
dropped e s st = record st {
  snapshots = e.lists.list_del s st.snapshots;
  kref = update (update st.kref s 1) s 0;
}

-- The call returns the error when the snapshot was freed.
abbrev pub after_free : Errno → Res (Unit {0}) → Res Ret
after_free x (returns _ st) = returns (err x) st
after_free x blocks = blocks
after_free x faults = faults
after_free x no_fuel = no_fuel

free_then :
    (x : Errno) (r : Res (Unit {0}))
    → elim r as (λ _. Res Ret) [
      | returns _ st ↦ returns (err x) st
      | blocks ↦ blocks
      | faults ↦ faults
      | no_fuel ↦ no_fuel
    ]
      ≡ after_free x r
free_then x (returns _ st) = refl
free_then x blocks = refl
free_then x faults = refl
free_then x no_fuel = refl

-- With two references, both are put, and the snapshot is freed.
pub fail_frees :
    (e : Environment) (s : ℕ) (x : Errno) (st : Store)
    → st.kref s ≡ 2
    → fail_take e s x st ≡ after_free x (snapshot_free e s (dropped e s st))
unfolding fail_take unlink
fail_frees e s x st two =
    let st' = record st { snapshots = e.lists.list_del s st.snapshots } in
    let last =
      put_lem e s (one_left s st') ∙ ap (put_from e s (one_left s st')) (update-at st.kref s 1) in
    returns->>= (snapshot_put e s) _ st' (one_left s st') tt (put_more e s st' two)
    ∙ ap
        (λ r. elim r as (λ _. Res Ret) [
          | returns _ st'' ↦ returns (err x) st''
          | blocks ↦ blocks
          | faults ↦ faults
          | no_fuel ↦ no_fuel
        ])
        last
    ∙ free_then x (snapshot_free e s (dropped e s st))
