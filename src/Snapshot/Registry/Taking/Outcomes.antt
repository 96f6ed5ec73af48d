-- ===== src/Snapshot/Registry/Taking/Outcomes.antt =====
-- What `snapshot_take` of module/snapshot.c comes to, and what it leaves on the list of snapshots.
use mathlib.Core.Path.{subst}
use blksnap.Prelude.{
  ℕ, ◌+◌, ◌≤◌, ◌==◌, ◌≡◌, refl, sym, ap, ◌∙◌, true, false, Option, none, some, List, length,
}
use blksnap.Kernel.{Errno, enodev, esrch, ealready, Ret, ok, err}
use blksnap.Snapshot.Store.{
  Image, Snapshot, Store, Environment, Res, returns, blocks, faults, no_fuel, M, ◌>>=◌, ◌>>◌, pure,
  update, get_object, put_object,
}
use blksnap.Snapshot.Registry.{snapshot_free, snapshot_put, snapshot_get_by_id}
use blksnap.Snapshot.Registry.Listed.{found_in}
use blksnap.Snapshot.Registry.Keeps.{
  Ensures, Same, returns->>=, update-ids, update-taken, snapshot_free-Keeps,
}
use blksnap.Snapshot.Registry.History.{
  Registered, After, Same-Registered, lookup-Registered, unlinked, found_is,
}
use blksnap.Snapshot.Registry.Taking.{
  make_images, take_steps, fail_take, finish_take, take_found, after_find, snapshot_take,
}
use blksnap.Snapshot.Registry.Taking.Ends.{
  Marked, take_steps-Marked, IsTaken, IsTaken-on, with_reference, referred, get_looked,
}
use blksnap.Snapshot.Registry.Taking.Frozen.{update-at}
use blksnap.Snapshot.Registry.Taking.Refs.{
  SameRefs, make_images-SameRefs, take_steps-SameRefs, one_left, put_more, dropped, after_free,
  fail_frees,
}
use blksnap.Snapshot.Registry.Taking.Kept.{make_images-Keeps}

-- The store with the images that were made, and one of two references put.
abbrev pub with_images : ℕ → List (Option Image) → Store → Store
with_images s images st = one_left s (record st {
  objects = update st.objects s (record (st.objects s) { snapimage_array = images });
})

with_images-IsTaken :
    (s : ℕ) (images : List (Option Image)) (st : Store)
    → IsTaken s st
    → IsTaken s (with_images s images st)
with_images-IsTaken s images st = IsTaken-on (record {
  links = refl;
  next_is = refl;
  ids = update-ids st.objects s (record (st.objects s) { snapimage_array = images }) refl;
  taken = update-taken st.objects s (record (st.objects s) { snapimage_array = images }) (λ t. t);
})

-- What the call comes to after the loop that makes the images: it returns the result of the loop.
abbrev pub Imaged : (s : ℕ) → Res (Ret × List (Option Image)) → Res Ret → Type 0
Imaged s (returns (ret, images) st2) r =
    (r ≡ returns ret (with_images s images st2)) × IsTaken s (with_images s images st2)
Imaged s blocks r = r ≡ blocks
Imaged s faults r = r ≡ faults
Imaged s no_fuel r = r ≡ no_fuel

-- What it comes to with an error, by what freeing the snapshot comes to.
abbrev pub Freed : Errno → Res (Unit {0}) → Res Ret → Type 0
Freed x (returns _ st2) r = (r ≡ returns (err x) st2) × Registered st2 none
Freed x blocks r = r ≡ blocks
Freed x faults r = r ≡ faults
Freed x no_fuel r = r ≡ no_fuel

-- What it comes to after the steps before the images.
abbrev pub Concluded : Environment → (s : ℕ) → Res Ret → Res Ret → Type 0
Concluded e s (returns ok st1) r = Imaged s (make_images e (st1.objects s).tracker_array st1) r
Concluded e s (returns (err x) st1) r = Freed x (snapshot_free e s (dropped e s st1)) r
Concluded e s blocks r = r ≡ blocks
Concluded e s faults r = r ≡ faults
Concluded e s no_fuel r = r ≡ no_fuel

after_free-Freed :
    (x : Errno) (st : Store) (r : Res (Unit {0}))
    → Registered st none
    → Ensures (Same st) r
    → Freed x r (after_free x r)
after_free-Freed x st (returns _ st2) h same = (refl, Same-Registered same h)
after_free-Freed x st blocks h same = refl
after_free-Freed x st faults h same = refl
after_free-Freed x st no_fuel h same = refl

fail-Freed :
    (e : Environment) (s : ℕ) (x : Errno) (st : Store)
    → st.kref s ≡ 2
    → Registered st (some s)
    → Freed x (snapshot_free e s (dropped e s st)) (fail_take e s x st)
fail-Freed e s x st two r =
    let off : Registered (dropped e s st) none =
      Same-Registered (record { links = refl; next_is = refl; ids = λ s. refl; taken = λ s h. h })
        (unlinked e st s r) in
    subst (Freed x (snapshot_free e s (dropped e s st))) (sym (fail_frees e s x st two)) (
      after_free-Freed x (dropped e s st) (snapshot_free e s (dropped e s st)) off
        (snapshot_free-Keeps e s (dropped e s st)))

finish-Imaged :
    (e : Environment) (s : ℕ) (st : Store)
    → st.kref s ≡ 2
    → IsTaken s st
    → Imaged s (make_images e (st.objects s).tracker_array st) (finish_take e s st)
unfolding finish_take
finish-Imaged e s st two h =
    let fs = (st.objects s).tracker_array in
    imaged (make_images e fs st) (make_images-Keeps e fs st) (make_images-SameRefs e fs st)
  where
    imaged :
        (r : Res (Ret × List (Option Image)))
        → Ensures (Same st) r
        → SameRefs st r
        → Imaged s r (elim r [
          | returns made st2 ↦
              (do
                o' ← get_object s
                put_object s (record o' { snapimage_array = made.1 })
                snapshot_put e s
                pure made.0)
                st2
          | blocks ↦ blocks
          | faults ↦ faults
          | no_fuel ↦ no_fuel
        ])
    imaged (returns (ret, images) st2) same refs =
        let o : Snapshot = record (st2.objects s) { snapimage_array = images } in
        let st3 = record st2 { objects = update st2.objects s o } in
        let two' : st3.kref s ≡ 2 = ap (λ g. g s) refs ∙ two in
        (
          returns->>= (snapshot_put e s) (λ _. pure ret) st3 (one_left s st3) tt
              (put_more e s st3 two'),
          with_images-IsTaken s images st2 (IsTaken-on same h),
        )
    imaged blocks same refs = refl
    imaged faults same refs = refl
    imaged no_fuel same refs = refl

conclude :
    (e : Environment) (s : ℕ) (st : Store) (steps : Res Ret)
    → st.kref s ≡ 2
    → Registered st (some s)
    → After (Marked s st) steps
    → SameRefs st steps
    → Concluded e s steps (elim steps [
      | returns ret st' ↦
          (elim ret as (λ _. M Ret) [ err x ↦ fail_take e s x | ok ↦ finish_take e s ]) st'
      | blocks ↦ blocks
      | faults ↦ faults
      | no_fuel ↦ no_fuel
    ])
conclude e s st (returns ok st1) two r (same, t) refs =
    finish-Imaged e s st1 (ap (λ g. g s) refs ∙ two) (Same-Registered same r, t)
conclude e s st (returns (err x) st1) two r same refs =
    fail-Freed e s x st1 (ap (λ g. g s) refs ∙ two) (Same-Registered same r)
conclude e s st blocks two r h refs = refl
conclude e s st faults two r h refs = refl
conclude e s st no_fuel two r h refs = refl

refuse :
    (e : Environment) (s : ℕ) (x : Errno) (st : Store)
    → st.kref s ≡ 2
    → (do snapshot_put e s; pure (err x)) st ≡ returns (err x) (one_left s st)
refuse e s x st two =
    returns->>= (snapshot_put e s) (λ _. pure (err x)) st (one_left s st) tt (put_more e s st two)

-- What snapshot_take comes to in a store that has the snapshot it found, with the reference taken.
abbrev pub Takes : Environment → ℕ → Store → Res Ret → Type 0
Takes e s st r =
    ((st.objects s).is_taken ≡ true → r ≡ returns (err ealready) (one_left s st))
    × ((st.objects s).is_taken ≡ false
        → (length (st.objects s).tracker_array == 0) ≡ true
        → r ≡ returns (err enodev) (one_left s st))
    × ((st.objects s).is_taken ≡ false
        → (length (st.objects s).tracker_array == 0) ≡ false
        → Concluded e s (take_steps e s (st.objects s).tracker_array st) r)

found-Takes :
    (e : Environment) (s : ℕ) (st : Store)
    → st.kref s ≡ 2
    → Registered st (some s)
    → Takes e s st (take_found e s st)
unfolding take_found
found-Takes e s st two r = (
  λ again. rw again (refuse e s ealready st two),
  λ first empty. rw (first, empty) (refuse e s enodev st two),
  λ first devices.
      rw (first, devices)
        (conclude e s st (take_steps e s (st.objects s).tracker_array st) two r
          (take_steps-Marked e s (st.objects s).tracker_array st)
          (take_steps-SameRefs e s (st.objects s).tracker_array st)),
)

abbrev pub TakesFound : Environment → Store → Option ℕ → Res Ret → Type 0
TakesFound e st none r = r ≡ returns (err esrch) st
TakesFound e st (some s) r = Takes e s (with_reference s st) r

take_looked :
    (e : Environment) (id : ℕ) (st : Store) (found : Option ℕ)
    → snapshot_get_by_id e id st ≡ referred st found
    → ((s : ℕ) → found ≡ some s → Registered st (some s) × (st.kref s ≡ 1))
    → TakesFound e st found (snapshot_take e id st)
unfolding snapshot_take
take_looked e id st none looked r = returns->>= (snapshot_get_by_id e id) _ st st none looked
take_looked e id st (some s) looked r =
    let (listed, one) = r s refl in
    let st' = with_reference s st in
    let two : st'.kref s ≡ 2 = update-at st.kref s (st.kref s + 1) ∙ ap (λ n. n + 1) one in
    subst (Takes e s st')
      (sym (returns->>= (snapshot_get_by_id e id) (after_find e) st st' (some s) looked))
      (found-Takes e s st' two (
        Same-Registered (record { links = refl; next_is = refl; ids = λ s. refl; taken = λ s h. h })
          listed))

-- snapshot_take, with two rounds of the walk or more, on a list of at most one snapshot, which nothing
-- but the list refers to. Where the identifier is not found it returns ESRCH and changes nothing.
-- A snapshot that is taken gives EALREADY and one without trackers ENODEV, and all stays as it was.
-- Otherwise the areas are made, the trackers taken and the areas checked, and where one of these steps
-- does not return, neither does the call. Where they return an error, the snapshot is taken off the
-- list and freed: where that returns, the call returns the error and the list is empty, and where it
-- does not return, as on a frozen queue, neither does the call. Where they return 0, the images are
-- made: where that loop returns, the call returns its result, 0 or an error, with the images that were
-- made, and the snapshot is taken and stays on the list; where it faults, so does the call.
pub take_outcomes :
    (e : Environment) (id : ℕ) (st : Store) (o : Option ℕ)
    → 2 ≤ e.fuel
    → Registered st o
    → ((s : ℕ) → o ≡ some s → st.kref s ≡ 1)
    → TakesFound e st (found_in st.objects id o) (snapshot_take e id st)
take_outcomes e id st o enough r one =
    take_looked e id st (found_in st.objects id o)
      (get_looked e id st (found_in st.objects id o) (lookup-Registered e st o id enough r))
      (λ s is. (subst (Registered st) (found_is st o id s is) r, one s (found_is st o id s is)))
