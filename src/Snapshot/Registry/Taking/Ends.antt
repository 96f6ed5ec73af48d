-- ===== src/Snapshot/Registry/Taking/Ends.antt =====
-- What `snapshot_take` of module/snapshot.c leaves on the list of snapshots wherever it returns.
use mathlib.Core.Path.{subst}
use blksnap.Prelude.{
  ℕ, ◌+◌, ◌≤◌, ◌==◌, ◌≡◌, refl, sym, ap, true, false, Option, none, some, List, arith, length,
}
use blksnap.Kernel.{Errno, enodev, esrch, ealready, Ret, ok, err}
use blksnap.Snapshot.{Device, Run, done, with_flag, take_loop, snapshot_take_trackers}
use blksnap.Snapshot
use blksnap.Snapshot.Store.{
  Snapshot, Store, Environment, Res, returns, blocks, faults, no_fuel, M, ◌>>=◌, ◌>>◌, pure, update,
  get_object, put_object, gather, scatter,
}
use blksnap.Snapshot.Registry.{snapshot_put, snapshot_get, snapshot_get_by_id, lookup, unlink}
use blksnap.Snapshot.Registry.Listed.{found_in}
use blksnap.Snapshot.Registry.Keeps.{
  Ensures, Same, Same-trans, returns->>=, update-ids, update-taken, snapshot_put-Keeps,
  scatter-Same,
}
use blksnap.Snapshot.Registry.History.{
  Registered, After, After-bind, After-keeps, Same-Registered, lookup-Registered, unlinked,
  found_is,
}
use blksnap.Snapshot.Registry.Taking.{
  after_run, make_areas, take_trackers, check_areas, make_images, take_steps, fail_take,
  finish_take, take_found, after_find, snapshot_take,
}
use blksnap.Snapshot.Registry.Taking.Kept.{
  make_areas-Keeps, marked-Same, check_areas-Keeps, make_images-Keeps,
}

-- The snapshot is taken where the result is 0.
abbrev pub Marked : (s : ℕ) → Store → Ret → Store → Type 0
Marked s st ok st' = Same st st' × ((st'.objects s).is_taken ≡ true)
Marked s st (err x) st' = Same st st'

update_self : (g : ℕ → Snapshot) (s : ℕ) (o : Snapshot) → update g s o s ≡ o
update_self g s o = ground arith

run-Marked :
    (s : ℕ) (fs : List (Option ℕ)) (st : Store) (run : Run)
    → After (Marked s st) (after_run s fs st (with_flag run).0 (with_flag run).1)
run-Marked s fs st (done ok ds) = (
  marked-Same s fs st (done ok ds) true,
  ap (λ o. o.is_taken)
      (update_self (scatter fs ds st).objects s
        (record ((scatter fs ds st).objects s) { is_taken = true })),
)
run-Marked s fs st (done (err x) ds) = scatter-Same fs ds st
run-Marked s fs st Snapshot.blocks = tt
run-Marked s fs st Snapshot.faults = tt

take_trackers-Marked :
    (e : Environment) (s : ℕ) (fs : List (Option ℕ)) (st : Store)
    → After (Marked s st) (take_trackers e s fs st)
unfolding take_trackers snapshot_take_trackers
take_trackers-Marked e s fs st = run-Marked s fs st (take_loop e.rounding e.params (gather e st fs))

Marked-after :
    (s : ℕ) (st st' st'' : Store) (ret : Ret)
    → Same st st'
    → Marked s st' ret st''
    → Marked s st ret st''
Marked-after s st st' st'' ok h (k, t) = (Same-trans h k, t)
Marked-after s st st' st'' (err x) h k = Same-trans h k

checked-Marked :
    (e : Environment) (s : ℕ) (fs : List (Option ℕ)) (st st' : Store) (ret : Ret)
    → Marked s st ret st'
    → After
        (Marked s st)
        ((elim ret as (λ _. M Ret) [ err x ↦ pure (err x) | ok ↦ check_areas e fs ]) st')
checked-Marked e s fs st st' (err x) h = h
checked-Marked e s fs st st' ok (same, taken) =
    checked (check_areas e fs st') (check_areas-Keeps e fs st')
  where
    checked : (r : Res Ret) → Ensures (Same st') r → After (Marked s st) r
    checked (returns ok st'') k = (Same-trans same k, k.taken s taken)
    checked (returns (err x) st'') k = Same-trans same k
    checked blocks k = tt
    checked faults k = tt
    checked no_fuel k = tt

steps-After :
    (e : Environment) (s : ℕ) (fs : List (Option ℕ)) (st st' : Store) (ret : Ret)
    → Same st st'
    → After (Marked s st) (
        (elim ret as (λ _. M Ret) [
          | err x ↦ pure (err x)
          | ok ↦ do
            ret' ← take_trackers e s fs
            elim ret' [ err x ↦ pure (err x) | ok ↦ check_areas e fs ]
        ])
          st')
steps-After e s fs st st' (err x) h = h
steps-After e s fs st st' ok h =
    After-bind (Marked s st') (Marked s st) (take_trackers e s fs st')
      (λ ret'. elim ret' [ err x ↦ pure (err x) | ok ↦ check_areas e fs ])
      (take_trackers-Marked e s fs st')
      (λ ret' st'' k. checked-Marked e s fs st st'' ret' (Marked-after s st st' st'' ret' h k))

pub take_steps-Marked :
    (e : Environment) (s : ℕ) (fs : List (Option ℕ)) (st : Store)
    → After (Marked s st) (take_steps e s fs st)
unfolding take_steps
take_steps-Marked e s fs st =
    After-bind (λ _ st'. Same st st') (Marked s st) (make_areas e s fs st)
      (λ ret. elim ret [
        | err x ↦ pure (err x)
        | ok ↦ do
          ret' ← take_trackers e s fs
          elim ret' [ err x ↦ pure (err x) | ok ↦ check_areas e fs ]
      ])
      (After-keeps st (make_areas e s fs st) (make_areas-Keeps e s fs st))
      (λ ret st' h. steps-After e s fs st st' ret h)

fail-Registered :
    (e : Environment) (s : ℕ) (x : Errno) (st : Store)
    → Registered st (some s)
    → After (λ ret st'. (ret ≡ err x) × Registered st' none) (fail_take e s x st)
unfolding fail_take unlink
fail-Registered e s x st r =
    let st' = record st { snapshots = e.lists.list_del s st.snapshots } in
    After-bind (λ _ st''. Same st' st'') (λ ret st''. (ret ≡ err x) × Registered st'' none)
      (snapshot_put e s st') (λ _. do snapshot_put e s; pure (err x))
      (After-keeps st' (snapshot_put e s st') (snapshot_put-Keeps e s st'))
      (λ _ st1 same.
        After-bind (λ _ st''. Same st1 st'') (λ ret st''. (ret ≡ err x) × Registered st'' none)
          (snapshot_put e s st1) (λ _. pure (err x))
          (After-keeps st1 (snapshot_put e s st1) (snapshot_put-Keeps e s st1))
          (λ _ st2 same'. (refl, Same-Registered (Same-trans same same') (unlinked e st s r))))

-- The snapshot is listed and taken.
abbrev pub IsTaken : ℕ → Store → Type 0
IsTaken s st = Registered st (some s) × ((st.objects s).is_taken ≡ true)

pub IsTaken-on : {s : ℕ} {st st' : Store} → Same st st' → IsTaken s st → IsTaken s st'
IsTaken-on {s} same (r, t) = (Same-Registered same r, same.taken s t)

finish-IsTaken :
    (e : Environment) (s : ℕ) (st : Store)
    → IsTaken s st
    → After (λ _ st'. IsTaken s st') (finish_take e s st)
unfolding finish_take
finish-IsTaken e s st h =
    let images = make_images e (st.objects s).tracker_array in
    After-bind (λ _ st1. Same st st1) (λ _ st'. IsTaken s st') (images st)
      (λ made. do
        o' ← get_object s
        put_object s (record o' { snapimage_array = made.1 })
        snapshot_put e s
        pure made.0)
      (After-keeps st (images st) (make_images-Keeps e (st.objects s).tracker_array st))
      (λ made st1 same.
        let o : Snapshot = record (st1.objects s) { snapimage_array = made.1 } in
        let st2 = record st1 { objects = update st1.objects s o } in
        let stored : Same st1 st2 = record {
          links = refl;
          next_is = refl;
          ids = update-ids st1.objects s o refl;
          taken = update-taken st1.objects s o (λ t. t);
        } in
        After-bind (λ _ st3. Same st2 st3) (λ _ st'. IsTaken s st') (snapshot_put e s st2)
          (λ _. pure made.0) (After-keeps st2 (snapshot_put e s st2) (snapshot_put-Keeps e s st2))
          (λ _ st3 put. IsTaken-on put (IsTaken-on stored (IsTaken-on same h))))

-- What the call comes to after the steps before the images.
abbrev pub Concluded : (s : ℕ) → Res Ret → Res Ret → Type 0
Concluded s (returns ok st1) r = After (λ _ st'. IsTaken s st') r
Concluded s (returns (err x) st1) r = After (λ ret st'. (ret ≡ err x) × Registered st' none) r
Concluded s blocks r = r ≡ blocks
Concluded s faults r = r ≡ faults
Concluded s no_fuel r = r ≡ no_fuel

conclude :
    (e : Environment) (s : ℕ) (st : Store) (steps : Res Ret)
    → Registered st (some s)
    → After (Marked s st) steps
    → Concluded s steps (elim steps [
      | returns ret st' ↦
          (elim ret as (λ _. M Ret) [ err x ↦ fail_take e s x | ok ↦ finish_take e s ]) st'
      | blocks ↦ blocks
      | faults ↦ faults
      | no_fuel ↦ no_fuel
    ])
conclude e s st (returns ok st1) r (same, t) = finish-IsTaken e s st1 (Same-Registered same r, t)
conclude e s st (returns (err x) st1) r same = fail-Registered e s x st1 (Same-Registered same r)
conclude e s st blocks r h = refl
conclude e s st faults r h = refl
conclude e s st no_fuel r h = refl

refuse :
    (e : Environment) (s : ℕ) (x : Errno) (st : Store)
    → Registered st (some s)
    → After
        (λ ret st'. (ret ≡ err x) × Registered st' (some s))
        ((do snapshot_put e s; pure (err x)) st)
refuse e s x st r =
    After-bind (λ _ st'. Same st st') (λ ret st'. (ret ≡ err x) × Registered st' (some s))
      (snapshot_put e s st) (λ _. pure (err x))
      (After-keeps st (snapshot_put e s st) (snapshot_put-Keeps e s st))
      (λ _ st' same. (refl, Same-Registered same r))

-- What snapshot_take comes to in a store that has the snapshot it found, with the reference taken.
abbrev pub Takes : Environment → ℕ → Store → Res Ret → Type 0
Takes e s st r =
    ((st.objects s).is_taken ≡ true
      → After (λ ret st'. (ret ≡ err ealready) × Registered st' (some s)) r)
    × ((st.objects s).is_taken ≡ false
        → (length (st.objects s).tracker_array == 0) ≡ true
        → After (λ ret st'. (ret ≡ err enodev) × Registered st' (some s)) r)
    × ((st.objects s).is_taken ≡ false
        → (length (st.objects s).tracker_array == 0) ≡ false
        → Concluded s (take_steps e s (st.objects s).tracker_array st) r)

found-Takes :
    (e : Environment) (s : ℕ) (st : Store)
    → Registered st (some s)
    → Takes e s st (take_found e s st)
unfolding take_found
found-Takes e s st r = (
  λ again. rw (again, After) (refuse e s ealready st r),
  λ first empty. rw (first, After, empty) (refuse e s enodev st r),
  λ first devices.
      rw (first, devices)
        (conclude e s st (take_steps e s (st.objects s).tracker_array st) r
          (take_steps-Marked e s (st.objects s).tracker_array st)),
)

-- The store with one more reference to the snapshot.
abbrev pub with_reference : ℕ → Store → Store
with_reference s st = record st { kref = update st.kref s (st.kref s + 1) }

abbrev pub TakesFound : Environment → Store → Option ℕ → Res Ret → Type 0
TakesFound e st none r = r ≡ returns (err esrch) st
TakesFound e st (some s) r = Takes e s (with_reference s st) r

-- What snapshot_get_by_id comes to.
abbrev pub referred : Store → Option ℕ → Res (Option ℕ)
referred st none = returns none st
referred st (some s) = returns (some s) (with_reference s st)

pub get_looked :
    (e : Environment) (id : ℕ) (st : Store) (found : Option ℕ)
    → lookup e id st ≡ returns found st
    → snapshot_get_by_id e id st ≡ referred st found
unfolding snapshot_get_by_id snapshot_get
get_looked e id st none looked = returns->>= (lookup e id) _ st st none looked
get_looked e id st (some s) looked = returns->>= (lookup e id) _ st st (some s) looked

take_looked :
    (e : Environment) (id : ℕ) (st : Store) (found : Option ℕ)
    → snapshot_get_by_id e id st ≡ referred st found
    → ((s : ℕ) → found ≡ some s → Registered st (some s))
    → TakesFound e st found (snapshot_take e id st)
unfolding snapshot_take
take_looked e id st none looked r = returns->>= (snapshot_get_by_id e id) _ st st none looked
take_looked e id st (some s) looked r =
    subst (Takes e s (with_reference s st))
      (sym (
        returns->>= (snapshot_get_by_id e id) (after_find e) st (with_reference s st) (some s)
          looked))
      (found-Takes e s (with_reference s st) (
        Same-Registered (record { links = refl; next_is = refl; ids = λ s. refl; taken = λ s h. h })
          (r s refl)))

-- With two rounds of the walk or more, on a list of at most one snapshot, for any counters.
pub snapshot_take-Listed :
    (e : Environment) (id : ℕ) (st : Store) (o : Option ℕ)
    → 2 ≤ e.fuel
    → Registered st o
    → TakesFound e st (found_in st.objects id o) (snapshot_take e id st)
snapshot_take-Listed e id st o enough r =
    take_looked e id st (found_in st.objects id o)
      (get_looked e id st (found_in st.objects id o) (lookup-Registered e st o id enough r))
      (λ s is. subst (Registered st) (found_is st o id s is) r)
