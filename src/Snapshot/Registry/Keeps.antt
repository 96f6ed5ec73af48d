-- ===== src/Snapshot/Registry/Keeps.antt =====
-- Which parts of the store the steps of module/snapshot.c leave alone: the list of snapshots and the
-- identifiers change only where a snapshot is made, linked or unlinked.
use blksnap.Prelude.{
  ℕ, ◌-◌, ◌==◌, ◌≡◌, refl, sym, ap, ◌∙◌, inl, inr, Bool, true, false, Option, none, some, List, [],
  ◌∷◌, ◌++◌, arith, Bool-cases, Option-cases,
}
use blksnap.Kernel.{err}
use blksnap.Tracker.Devices.{World, Got, got, failed, tracker_create_or_get}
use blksnap.Snapshot.{Device, Run, done, BlkSnapDev, snapshot_release_trackers}
use blksnap.Snapshot
use blksnap.Snapshot.Store.{
  Image, Snapshot, Store, Environment, Res, returns, blocks, faults, no_fuel, M, ◌>>=◌, ◌>>◌,
  update, gather, scatter, write_device,
}
use blksnap.Snapshot.Registry.{
  diff_area_put, free_images, snapimage_free, release_trackers, put_area, drop_tracker,
  put_trackers, snapshot_release, snapshot_free, snapshot_put, add_trackers,
}

-- What holds of the store where the call returns.
abbrev pub Ensures : {A : Type 0} → (Store → Type 0) → Res A → Type 0
Ensures P (returns a st) = P st
Ensures P blocks = Unit
Ensures P faults = Unit
Ensures P no_fuel = Unit

-- The second store has the list, the numbers and the identifiers of the first, and every snapshot
-- that was taken is taken.
pub record Same (st st' : Store) : Type 0 where
  pub links : st'.snapshots ≡ st.snapshots
  pub next_is : st'.next_snapshot ≡ st.next_snapshot
  pub ids : (s : ℕ) → (st'.objects s).id ≡ (st.objects s).id
  pub taken : (s : ℕ) → (st.objects s).is_taken ≡ true → (st'.objects s).is_taken ≡ true

abbrev pub Keeps : {A : Type 0} → M A → Type 0
Keeps m = (st : Store) → Ensures (Same st) (m st)

pub Same-refl : (st : Store) → Same st st
Same-refl st = record { links = refl; next_is = refl; ids = λ s. refl; taken = λ s h. h }

pub Same-trans : {a b c : Store} → Same a b → Same b c → Same a c
Same-trans h k = record {
  links = k.links ∙ h.links;
  next_is = k.next_is ∙ h.next_is;
  ids = λ s. k.ids s ∙ h.ids s;
  taken = λ s t. k.taken s (h.taken s t);
}

pub weaken :
    {A : Type 0} {a b : Store} (r : Res A) → Same a b → Ensures (Same b) r → Ensures (Same a) r
weaken (returns x st) h k = Same-trans h k
weaken blocks h k = tt
weaken faults h k = tt
weaken no_fuel h k = tt

bind :
    {A B : Type 0} (st : Store) (r : Res A) (f : A → M B)
    → Ensures (Same st) r
    → ((a : A) → Keeps (f a))
    → Ensures
        (Same st)
        (elim r [ returns a st' ↦ f a st' | blocks ↦ blocks | faults ↦ faults | no_fuel ↦ no_fuel ])
bind st (returns a st') f h k = weaken (f a st') h (k a st')
bind st blocks f h k = tt
bind st faults f h k = tt
bind st no_fuel f h k = tt

Keeps->>= :
    {A B : Type 0} (m : M A) (f : A → M B) → Keeps m → ((a : A) → Keeps (f a)) → Keeps (m >>= f)
Keeps->>= m f h k st = bind st (m st) f (h st) k

-- The rest of a block is not reached after a null pointer.
pub faults->>= :
    {A B : Type 0} (m : M A) (f : A → M B) (st : Store) → m st ≡ faults → (m >>= f) st ≡ faults
faults->>= m f st h =
    ap (λ r. elim r [ returns x s ↦ f x s | blocks ↦ blocks | faults ↦ faults | no_fuel ↦ no_fuel ])
      h

-- The rest of a block after a call that returned.
pub returns->>= :
    {A B : Type 0} (m : M A) (f : A → M B) (st st' : Store) (a : A)
    → m st ≡ returns a st'
    → (m >>= f) st ≡ f a st'
returns->>= m f st st' a h =
    ap (λ r. elim r [ returns x s ↦ f x s | blocks ↦ blocks | faults ↦ faults | no_fuel ↦ no_fuel ])
      h

diff_area_put-Keeps : (f : ℕ) → Keeps (diff_area_put f)
unfolding diff_area_put
diff_area_put-Keeps f st = elim (Bool-cases (st.area_kref f == 1)) [
  | inl last ↦ rw last (record { links = refl; next_is = refl; ids = λ s. refl; taken = λ s h. h })
  | inr more ↦ rw more (record { links = refl; next_is = refl; ids = λ s. refl; taken = λ s h. h })
]

free_images-Keeps : (images : List (Option Image)) → Keeps (free_images images)
unfolding free_images snapimage_free
free_images-Keeps [] st = Same-refl st
free_images-Keeps (none ∷ images) st = free_images-Keeps images st
free_images-Keeps (some image ∷ images) st =
    bind st (diff_area_put image.tracker st) (λ _. free_images images)
      (diff_area_put-Keeps image.tracker st) (λ _. free_images-Keeps images)

pub scatter-Same :
    (fs : List (Option ℕ)) (ds : List (Option Device)) (st : Store) → Same st (scatter fs ds st)
scatter-Same [] ds st = Same-refl st
scatter-Same (none ∷ fs) [] st = Same-refl st
scatter-Same (some f ∷ fs) [] st = Same-refl st
scatter-Same (none ∷ fs) (d ∷ ds) st = scatter-Same fs ds st
scatter-Same (some f ∷ fs) (none ∷ ds) st = scatter-Same fs ds st
scatter-Same (some f ∷ fs) (some d ∷ ds) st =
    Same-trans (record { links = refl; next_is = refl; ids = λ s. refl; taken = λ s h. h })
      (scatter-Same fs ds (write_device f d st))

released-Keeps :
    (fs : List (Option ℕ)) (st : Store) (r : Run)
    → Ensures (Same st) (elim r [
      | done ret ds ↦ returns tt (scatter fs ds st)
      | Snapshot.blocks ↦ blocks
      | Snapshot.faults ↦ faults
    ])
released-Keeps fs st (done ret ds) = scatter-Same fs ds st
released-Keeps fs st Snapshot.blocks = tt
released-Keeps fs st Snapshot.faults = tt

release_trackers-Keeps : (e : Environment) (fs : List (Option ℕ)) → Keeps (release_trackers e fs)
unfolding release_trackers
release_trackers-Keeps e fs st = released-Keeps fs st (snapshot_release_trackers (gather e st fs))

put_area-Keeps : (f : ℕ) → Keeps (put_area f)
unfolding put_area
put_area-Keeps f st = elim (Option-cases (st.world.trackers f).diff_area) [
  | inl no_area ↦ rw (no_area, Ensures) (Same-refl st)
  | inr (a, has) ↦ rw (has, Ensures) (diff_area_put-Keeps f st)
]

drop_tracker-Keeps : (f : ℕ) → Keeps (drop_tracker f)
unfolding drop_tracker
drop_tracker-Keeps f st = record { links = refl; next_is = refl; ids = λ s. refl; taken = λ s h. h }

put_trackers-Keeps : (fs : List (Option ℕ)) → Keeps (put_trackers fs)
unfolding put_trackers
put_trackers-Keeps [] st = Same-refl st
put_trackers-Keeps (none ∷ fs) st = put_trackers-Keeps fs st
put_trackers-Keeps (some f ∷ fs) st =
    bind st (put_area f st) (λ _. drop_tracker f >> put_trackers fs) (put_area-Keeps f st)
      (λ _.
        Keeps->>= (drop_tracker f) (λ _. put_trackers fs) (drop_tracker-Keeps f)
          (λ _. put_trackers-Keeps fs))

snapshot_release-Keeps : (e : Environment) (s : ℕ) → Keeps (snapshot_release e s)
unfolding snapshot_release
snapshot_release-Keeps e s st =
    let o = st.objects s in
    bind st (free_images o.snapimage_array st) _ (free_images-Keeps o.snapimage_array st) (λ _.
      Keeps->>= (release_trackers e o.tracker_array) (λ _. put_trackers o.tracker_array)
        (release_trackers-Keeps e o.tracker_array) (λ _. put_trackers-Keeps o.tracker_array))

pub snapshot_free-Keeps : (e : Environment) (s : ℕ) → Keeps (snapshot_free e s)
unfolding snapshot_free
snapshot_free-Keeps e s st =
    bind st (snapshot_release e s st) _ (snapshot_release-Keeps e s st)
      (λ _ st'. record { links = refl; next_is = refl; ids = λ s. refl; taken = λ s h. h })

put-Keeps :
    (e : Environment) (s : ℕ) (st st' : Store) (last : Bool)
    → Same st st'
    → Ensures (Same st) (elim last [ true ↦ snapshot_free e s st' | false ↦ returns tt st' ])
put-Keeps e s st st' true h = weaken (snapshot_free e s st') h (snapshot_free-Keeps e s st')
put-Keeps e s st st' false h = h

pub snapshot_put-Keeps : (e : Environment) (s : ℕ) → Keeps (snapshot_put e s)
unfolding snapshot_put
snapshot_put-Keeps e s st =
    put-Keeps e s st (record st { kref = update st.kref s (st.kref s - 1) }) (st.kref s == 1)
      (record { links = refl; next_is = refl; ids = λ s. refl; taken = λ s h. h })

-- A new object with the identifier of the old one.
pub update-ids :
    (g : ℕ → Snapshot) (s : ℕ) (o : Snapshot)
    → o.id ≡ (g s).id
    → (t : ℕ) → (update g s o t).id ≡ (g t).id
update-ids g s o same t = elim (Bool-cases (t == s)) [
  | inl eq ↦ let is : t ≡ s = ground (arith, eq) in rw eq (same ∙ ap (λ x. (g x).id) (sym is))
  | inr ne ↦ rw ne refl
]

pub update-taken :
    (g : ℕ → Snapshot) (s : ℕ) (o : Snapshot)
    → ((g s).is_taken ≡ true → o.is_taken ≡ true)
    → (t : ℕ) → (g t).is_taken ≡ true
    → (update g s o t).is_taken ≡ true
update-taken g s o keeps t h = elim (Bool-cases (t == s)) [
  | inl eq ↦
      let is : t ≡ s = ground (arith, eq) in rw eq (keeps (ap (λ x. (g x).is_taken) (sym is) ∙ h))
  | inr ne ↦ rw ne h
]

added-Keeps :
    (e : Environment) (s : ℕ) (devs : List BlkSnapDev) (st : Store) (out : Option (Got × World))
    → Keeps (add_trackers e s devs)
    → Ensures (Same st) (elim out [
      | none ↦ no_fuel
      | some (failed x, w) ↦ returns (err x) (record st { world = w })
      | some (got f, w) ↦
          let o = st.objects s in
          let o' = record o {
            tracker_array = o.tracker_array ++ (some f ∷ []);
            snapimage_array = o.snapimage_array ++ (none ∷ []);
          } in
          add_trackers e s devs (record st { world = w; objects = update st.objects s o' })
    ])
added-Keeps e s devs st none h = tt
added-Keeps e s devs st (some (failed x, w)) h = record {
  links = refl;
  next_is = refl;
  ids = λ s. refl;
  taken = λ s h. h;
}
added-Keeps e s devs st (some (got f, w)) h =
    weaken _
      (record {
        links = refl;
        next_is = refl;
        ids = update-ids st.objects s _ refl;
        taken = update-taken st.objects s _ (λ h. h);
      })
      (h _)

pub add_trackers-Keeps :
    (e : Environment) (s : ℕ) (devs : List BlkSnapDev) → Keeps (add_trackers e s devs)
unfolding add_trackers
add_trackers-Keeps e s [] st = Same-refl st
add_trackers-Keeps e s ((mj, mn) ∷ devs) st =
    let dev = e.mkdev mj mn in
    added-Keeps e s devs st
      (tracker_create_or_get e.rounding e.params (e.making dev) (e.open_dev dev) st.world)
      (add_trackers-Keeps e s devs)
