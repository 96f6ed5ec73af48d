-- ===== src/Snapshot/Registry/Taking/Frozen.antt =====
-- The trackers of the store of module/snapshot.c after a loop over the array of a snapshot, where no
-- tracker is twice in the array; and what making the areas leaves alone.
use blksnap.Prelude.{
  ℕ, ◌==◌, ◌≡◌, refl, ap, ◌∙◌, inl, inr, false, Option, none, some, List, [], ◌∷◌, arith,
}
use blksnap.Area.Size.{Outcome, area, wild, diff_area_new}
use blksnap.Snapshot.{Device}
use blksnap.Snapshot.Store.{Store, Environment, update, gather, scatter, write_device}
use blksnap.Snapshot.Stuck.{Shape, Frozen}
use blksnap.Snapshot.Registry.Keeps.{Ensures}
use blksnap.Snapshot.Registry.Taking.{set_area, make_areas}
use blksnap.Snapshot.Registry.Taking.Kept.{makes}

pub update-at : {V : Type 0} (g : ℕ → V) (n : ℕ) (v : V) → update g n v n ≡ v
update-at g n v = ground arith

update-past : {V : Type 0} (g : ℕ → V) (n m : ℕ) (v : V) → (m == n) ≡ false → update g n v m ≡ g m
update-past g n m v other = ground (arith, other)

-- The tracker is not in the array.
abbrev Absent : ℕ → List (Option ℕ) → Type 0
Absent f [] = Unit
Absent f (none ∷ fs) = Absent f fs
Absent f (some g ∷ fs) = ((f == g) ≡ false) × Absent f fs

-- No tracker is twice in the array.
abbrev pub Distinct : List (Option ℕ) → Type 0
Distinct [] = Unit
Distinct (none ∷ fs) = Distinct fs
Distinct (some f ∷ fs) = Absent f fs × Distinct fs

-- The devices have the places of the trackers.
abbrev pub Fits : List (Option ℕ) → List (Option Device) → Type 0
Fits [] [] = Unit
Fits (none ∷ fs) (none ∷ ds) = Fits fs ds
Fits (some f ∷ fs) (some d ∷ ds) = Fits fs ds
Fits [] (d ∷ ds) = ⊥
Fits (f ∷ fs) [] = ⊥
Fits (none ∷ fs) (some d ∷ ds) = ⊥
Fits (some f ∷ fs) (none ∷ ds) = ⊥

pub gather-Fits :
    (e : Environment) (st : Store) (fs : List (Option ℕ)) (ds : List (Option Device))
    → Shape (gather e st fs) ds
    → Fits fs ds
gather-Fits e st [] [] h = h
gather-Fits e st [] (d ∷ ds) h = h
gather-Fits e st (none ∷ fs) [] h = h
gather-Fits e st (some f ∷ fs) [] h = h
gather-Fits e st (none ∷ fs) (none ∷ ds) h = gather-Fits e st fs ds h
gather-Fits e st (none ∷ fs) (some d ∷ ds) h = h
gather-Fits e st (some f ∷ fs) (none ∷ ds) h = h
gather-Fits e st (some f ∷ fs) (some d ∷ ds) h = gather-Fits e st fs ds h

-- The second store has the tracker of the first, and its queue.
abbrev pub Unmoved : ℕ → Store → Store → Type 0
Unmoved f st st' =
    (st'.world.trackers f ≡ st.world.trackers f) × (st'.queue_frozen f ≡ st.queue_frozen f)

scatter-Unmoved :
    (f : ℕ) (fs : List (Option ℕ)) (ds : List (Option Device)) (st : Store)
    → Absent f fs
    → Unmoved f st (scatter fs ds st)
scatter-Unmoved f [] ds st h = (refl, refl)
scatter-Unmoved f (none ∷ fs) [] st h = (refl, refl)
scatter-Unmoved f (some g ∷ fs) [] st h = (refl, refl)
scatter-Unmoved f (none ∷ fs) (d ∷ ds) st h = scatter-Unmoved f fs ds st h
scatter-Unmoved f (some g ∷ fs) (none ∷ ds) st (_, h) = scatter-Unmoved f fs ds st h
scatter-Unmoved f (some g ∷ fs) (some d ∷ ds) st (other, h) =
    let (t, q) = scatter-Unmoved f fs ds (write_device g d st) h in
    (
      t ∙ update-past st.world.trackers g f d.tracker other,
      q ∙ update-past st.queue_frozen g f d.queue_frozen other,
    )

-- What was frozen in the array of devices is frozen in the store they are written to.
pub scatter-Frozen :
    (e : Environment) (fs : List (Option ℕ)) (ds : List (Option Device)) (st st' : Store)
    → ((f : ℕ) → Unmoved f (scatter fs ds st) st')
    → Fits fs ds
    → Distinct fs
    → Frozen ds
    → Frozen (gather e st' fs)
scatter-Frozen e [] [] st st' same fits distinct h = h
scatter-Frozen e [] (d ∷ ds) st st' same fits distinct h = elim fits [ ]
scatter-Frozen e (none ∷ fs) [] st st' same fits distinct h = elim fits [ ]
scatter-Frozen e (some f ∷ fs) [] st st' same fits distinct h = elim fits [ ]
scatter-Frozen e (none ∷ fs) (none ∷ ds) st st' same fits distinct h =
    scatter-Frozen e fs ds st st' same fits distinct h
scatter-Frozen e (none ∷ fs) (some d ∷ ds) st st' same fits distinct h = elim fits [ ]
scatter-Frozen e (some f ∷ fs) (none ∷ ds) st st' same fits distinct h = elim fits [ ]
scatter-Frozen e (some f ∷ fs) (some d ∷ ds) st st' same fits (absent, _) (inl (a, has, frozen)) =
    let (t, q) = scatter-Unmoved f fs ds (write_device f d st) absent in
    let (t', q') = same f in
    inl (
      a,
      ap (λ x. x.diff_area) (t' ∙ t ∙ update-at st.world.trackers f d.tracker) ∙ has,
      q' ∙ q ∙ update-at st.queue_frozen f d.queue_frozen ∙ frozen,
    )
scatter-Frozen e (some f ∷ fs) (some d ∷ ds) st st' same fits (_, distinct) (inr h) =
    inr (scatter-Frozen e fs ds (write_device f d st) st' same fits distinct h)

-- The snapshots and their counters are those of the first store.
abbrev pub SameObjects : Store → Store → Type 0
SameObjects st st' = (st'.objects ≡ st.objects) × (st'.kref ≡ st.kref)

pub scatter-SameObjects :
    (fs : List (Option ℕ)) (ds : List (Option Device)) (st : Store)
    → SameObjects st (scatter fs ds st)
scatter-SameObjects [] ds st = (refl, refl)
scatter-SameObjects (none ∷ fs) [] st = (refl, refl)
scatter-SameObjects (some f ∷ fs) [] st = (refl, refl)
scatter-SameObjects (none ∷ fs) (d ∷ ds) st = scatter-SameObjects fs ds st
scatter-SameObjects (some f ∷ fs) (none ∷ ds) st = scatter-SameObjects fs ds st
scatter-SameObjects (some f ∷ fs) (some d ∷ ds) st = scatter-SameObjects fs ds (write_device f d st)

makes-SameObjects :
    (e : Environment) (s f : ℕ) (fs : List (Option ℕ)) (st : Store) (out : Outcome)
    → ((st' : Store) → Ensures (SameObjects st') (make_areas e s fs st'))
    → Ensures (SameObjects st) (makes e s f fs st out)
makes-SameObjects e s f fs st (area a) h =
    h (record (set_area f (some a) st) { area_kref = update st.area_kref f 1 })
makes-SameObjects e s f fs st (Outcome.error x _) h = (refl, refl)
makes-SameObjects e s f fs st wild h = tt
makes-SameObjects e s f fs st Outcome.no_fuel h = tt

pub make_areas-SameObjects :
    (e : Environment) (s : ℕ) (fs : List (Option ℕ)) (st : Store)
    → Ensures (SameObjects st) (make_areas e s fs st)
unfolding make_areas
make_areas-SameObjects e s [] st = (refl, refl)
make_areas-SameObjects e s (none ∷ fs) st = make_areas-SameObjects e s fs st
make_areas-SameObjects e s (some f ∷ fs) st =
    let k = e.device f in
    makes-SameObjects e s f fs st
      (diff_area_new e.rounding e.params e.fuel k.area k.bdev (st.objects s).diff_storage)
      (make_areas-SameObjects e s fs)
