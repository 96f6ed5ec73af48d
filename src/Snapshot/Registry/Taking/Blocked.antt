-- ===== src/Snapshot/Registry/Taking/Blocked.antt =====
-- `snapshot_take` of module/snapshot.c where a tracker cannot be taken: the snapshot is released while
-- the queue of that tracker is frozen.
use mathlib.Core.Path.{subst}
use blksnap.Prelude.{
  ℕ, ◌+◌, ◌≤◌, ◌==◌, ◌≡◌, refl, sym, ap, ◌∙◌, true, false, Option, none, some, List, [], ◌∷◌, All,
  arith, length, if◌then◌else◌,
}
use blksnap.Kernel.{Errno, ok, err, default_params}
use blksnap.Snapshot.{
  Device, Run, done, with_flag, take_loop, snapshot_take_trackers, snapshot_release_trackers,
}
use blksnap.Snapshot
use blksnap.Snapshot.Store.{
  Store, Environment, Res, returns, blocks, faults, no_fuel, M, ◌>>=◌, gather, scatter,
}
use blksnap.Snapshot.Take.{IsReady, On, Ended, take_loop-Ended}
use blksnap.Snapshot.Stuck.{
  Shaped, Frozen, OneStuck-Frozen, take_loop-Shaped, snapshot_release_trackers-Frozen,
}
use blksnap.Snapshot.Registry.{
  free_images, release_trackers, snapshot_release, snapshot_free, snapshot_get_by_id,
}
use blksnap.Snapshot.Registry.Keeps.{Ensures, returns->>=}
use blksnap.Snapshot.Registry.History.{Registered, lookup-Registered}
use blksnap.Snapshot.Registry.Taking.{
  after_run, make_areas, take_trackers, take_steps, fail_take, take_found, after_find,
  snapshot_take, blank,
}
use blksnap.Snapshot.Registry.Taking.Refs.{dropped, after_free, fail_frees}
use blksnap.Snapshot.Registry.Taking.Ends.{with_reference, get_looked}
use blksnap.Snapshot.Registry.Taking.Frozen.{
  Distinct, update-at, Fits, gather-Fits, scatter-Frozen, SameObjects, scatter-SameObjects,
  make_areas-SameObjects,
}

-- The rest of a block is not reached after a call that blocks.
blocks->>= :
    {A B : Type 0} (m : M A) (f : A → M B) (st : Store) → m st ≡ blocks → (m >>= f) st ≡ blocks
blocks->>= m f st h =
    ap (λ r. elim r [ returns x s ↦ f x s | blocks ↦ blocks | faults ↦ faults | no_fuel ↦ no_fuel ])
      h

free_images-blank : (fs : List (Option ℕ)) (st : Store) → free_images (blank fs) st ≡ returns tt st
unfolding free_images
free_images-blank [] st = refl
free_images-blank (f ∷ fs) st = free_images-blank fs st

release_trackers-Frozen :
    (e : Environment) (fs : List (Option ℕ)) (st : Store)
    → Frozen (gather e st fs)
    → release_trackers e fs st ≡ blocks
unfolding release_trackers
release_trackers-Frozen e fs st h =
    ap
      (λ r. elim r as (λ _. Res (Unit {0})) [
        | done ret ds ↦ returns tt (scatter fs ds st)
        | Snapshot.blocks ↦ blocks
        | Snapshot.faults ↦ faults
      ])
      (snapshot_release_trackers-Frozen (gather e st fs) h)

-- A snapshot without images, one tracker of which has a frozen queue.
record IsStuck (e : Environment) (s : ℕ) (fs : List (Option ℕ)) (st : Store) : Type 0 where
  trackers : (st.objects s).tracker_array ≡ fs
  images : (st.objects s).snapimage_array ≡ blank fs
  stuck : Frozen (gather e st fs)

release-IsStuck :
    (e : Environment) (s : ℕ) (fs : List (Option ℕ)) (st : Store)
    → IsStuck e s fs st
    → snapshot_free e s st ≡ blocks
unfolding snapshot_free snapshot_release
release-IsStuck e s fs st h =
    let o = st.objects s in
    blocks->>= (snapshot_release e s) _ st (
      returns->>= (free_images o.snapimage_array) _ st st tt
        (ap (λ images. free_images images st) h.images ∙ free_images-blank fs st)
      ∙ blocks->>= (release_trackers e o.tracker_array) _ st
          (ap (λ x. release_trackers e x st) h.trackers ∙ release_trackers-Frozen e fs st h.stuck))

fail_blocks :
    (e : Environment) (s : ℕ) (fs : List (Option ℕ)) (x : Errno) (st : Store)
    → st.kref s ≡ 2
    → IsStuck e s fs (dropped e s st)
    → fail_take e s x st ≡ blocks
fail_blocks e s fs x st two h =
    fail_frees e s x st two ∙ ap (after_free x) (release-IsStuck e s fs (dropped e s st) h)

whole_run : (r : Run) → (with_flag r).0 ≡ r
whole_run (done ok ds) = refl
whole_run (done (err x) ds) = refl
whole_run Snapshot.blocks = refl
whole_run Snapshot.faults = refl

length-Fits :
    (fs : List (Option ℕ)) (ds : List (Option Device))
    → Fits fs ds
    → Frozen ds
    → (length fs == 0) ≡ false
length-Fits [] [] fits h = elim h [ ]
length-Fits [] (d ∷ ds) fits h = elim fits [ ]
length-Fits (f ∷ fs) ds fits h = ground arith

-- The devices of an array after a loop that failed.
record Failed (e : Environment) (fs : List (Option ℕ)) (ds : List (Option Device)) : Type 0 where
  fits : Fits fs ds
  frozen : Frozen ds

loop-Failed :
    (e : Environment) (fs : List (Option ℕ)) (st : Store) (x : Errno) (ds : List (Option Device))
    → All (On IsReady) (gather e st fs)
    → take_loop e.rounding default_params (gather e st fs) ≡ done (err x) ds
    → Failed e fs ds
loop-Failed e fs st x ds ready ends = record {
  fits =
      gather-Fits e st fs ds
        (subst (Shaped (gather e st fs)) ends (take_loop-Shaped e.rounding (gather e st fs) ready));
  frozen =
      OneStuck-Frozen ds (subst Ended ends (take_loop-Ended e.rounding (gather e st fs) ready)).1;
}

trackers_fail :
    (e : Environment) (s : ℕ) (fs : List (Option ℕ)) (st : Store) (x : Errno)
    (ds : List (Option Device))
    → take_loop e.rounding e.params (gather e st fs) ≡ done (err x) ds
    → take_trackers e s fs st ≡ returns (err x) (scatter fs ds st)
unfolding take_trackers snapshot_take_trackers
trackers_fail e s fs st x ds ends = ap (λ r. after_run s fs st (with_flag r).0 (with_flag r).1) ends

steps_fail :
    (e : Environment) (s : ℕ) (fs : List (Option ℕ)) (st st1 : Store) (x : Errno)
    (ds : List (Option Device))
    → make_areas e s fs st ≡ returns ok st1
    → take_loop e.rounding e.params (gather e st1 fs) ≡ done (err x) ds
    → take_steps e s fs st ≡ returns (err x) (scatter fs ds st1)
unfolding take_steps
steps_fail e s fs st st1 x ds makes ends =
    returns->>= (make_areas e s fs) _ st st1 ok makes
    ∙ returns->>= (take_trackers e s fs) _ st1 (scatter fs ds st1) (err x)
        (trackers_fail e s fs st1 x ds ends)

found_fails :
    (e : Environment) (s : ℕ) (st st2 : Store) (x : Errno)
    → (st.objects s).is_taken ≡ false
    → (length (st.objects s).tracker_array == 0) ≡ false
    → take_steps e s (st.objects s).tracker_array st ≡ returns (err x) st2
    → take_found e s st ≡ fail_take e s x st2
unfolding take_found
found_fails e s st st2 x first some_trackers fails =
    rw (first, some_trackers)
      (returns->>= (take_steps e s (st.objects s).tracker_array) _ st st2 (err x) fails)

makes-SameObjects :
    (e : Environment) (s : ℕ) (fs : List (Option ℕ)) (st st1 : Store)
    → make_areas e s fs st ≡ returns ok st1
    → SameObjects st st1
makes-SameObjects e s fs st st1 makes =
    subst (Ensures (SameObjects st)) makes (make_areas-SameObjects e s fs st)

-- The snapshot is registered, was not taken, has no images, and no reference but that of the list.
pub record IsWaiting (s : ℕ) (st : Store) : Type 0 where
  pub first : (st.objects s).is_taken ≡ false
  pub images : (st.objects s).snapimage_array ≡ blank (st.objects s).tracker_array
  pub listed_only : st.kref s ≡ 1
  pub distinct : Distinct (st.objects s).tracker_array

found_blocks :
    (e : Environment) (s : ℕ) (st st1 : Store) (x : Errno) (ds : List (Option Device))
    → e.params ≡ default_params
    → IsWaiting s st
    → make_areas e s (st.objects s).tracker_array (with_reference s st) ≡ returns ok st1
    → All (On IsReady) (gather e st1 (st.objects s).tracker_array)
    → take_loop e.rounding e.params (gather e st1 (st.objects s).tracker_array) ≡ done (err x) ds
    → take_found e s (with_reference s st) ≡ blocks
found_blocks e s st st1 x ds params w makes ready ends =
    let fs = (st.objects s).tracker_array in
    let st2 = scatter fs ds st1 in
    let failed : Failed e fs ds =
      loop-Failed e fs st1 x ds ready
        (ap (λ p. take_loop e.rounding p (gather e st1 fs)) (sym params) ∙ ends) in
    let (objects1, kref1) = makes-SameObjects e s fs (with_reference s st) st1 makes in
    let (objects2, kref2) = scatter-SameObjects fs ds st1 in
    let object : st2.objects s ≡ st.objects s = ap (λ g. g s) (objects2 ∙ objects1) in
    let refs : st2.kref s ≡ st.kref s + 1 =
      ap (λ g. g s) (kref2 ∙ kref1) ∙ update-at st.kref s (st.kref s + 1) in
    found_fails e s (with_reference s st) st2 x w.first
      (length-Fits fs ds failed.fits failed.frozen)
      (steps_fail e s fs (with_reference s st) st1 x ds makes ends)
    ∙ fail_blocks e s fs x st2 (refs ∙ ap (λ n. n + 1) w.listed_only) (record {
      trackers = ap (λ o. o.tracker_array) object;
      images = ap (λ o. o.snapimage_array) object ∙ w.images;
      stuck =
          scatter-Frozen e fs ds st1 (dropped e s st2) (λ f. (refl, refl)) failed.fits w.distinct
            failed.frozen;
    })

-- The run of the loop whose result snapshot_take_trackers gives.
loop_ends :
    (e : Environment) (ds : List (Option Device)) (run : Run)
    → (snapshot_take_trackers e.rounding e.params ds).0 ≡ run
    → take_loop e.rounding e.params ds ≡ run
unfolding snapshot_take_trackers
loop_ends e ds run ends = sym (whole_run (take_loop e.rounding e.params ds)) ∙ ends

-- snapshot_take, with two rounds of the walk or more and the default parameters, on a list whose one
-- snapshot is found, was not taken, has no images, no reference but that of the list, and no tracker
-- twice. Where its areas are made, and then snapshot_take_trackers on its trackers, each of which is
-- ready, returns an error, the call of snapshot_take does not return: it blocks for ever.
pub take_blocks_for_ever :
    (e : Environment) (id s : ℕ) (st st1 : Store) (x : Errno) (ds : List (Option Device))
    → 2 ≤ e.fuel
    → e.params ≡ default_params
    → Registered st (some s)
    → ((st.objects s).id == id) ≡ true
    → IsWaiting s st
    → make_areas e s (st.objects s).tracker_array (with_reference s st) ≡ returns ok st1
    → All (On IsReady) (gather e st1 (st.objects s).tracker_array)
    → (snapshot_take_trackers e.rounding e.params (gather e st1 (st.objects s).tracker_array)).0
      ≡ done (err x) ds
    → snapshot_take e id st ≡ blocks
unfolding snapshot_take after_find
take_blocks_for_ever e id s st st1 x ds enough params r same w makes ready ends =
    let looked = lookup-Registered e st (some s) id enough r in
    let found = ap (λ b. returns (if b then some s else none) st) same in
    returns->>= (snapshot_get_by_id e id) (after_find e) st (with_reference s st) (some s)
      (get_looked e id st (some s) (looked ∙ found))
    ∙ found_blocks e s st st1 x ds params w makes ready
        (loop_ends e (gather e st1 (st.objects s).tracker_array) (done (err x) ds) ends)
