-- ===== src/Snapshot/Registry/Created.antt =====
-- What `snapshot_create` of module/snapshot.c leaves of the snapshots that were created before.
use mathlib.Core.Path.{subst}
use blksnap.Prelude.{
  ℕ, ◌≤◌, ◌==◌, ◌≡◌, refl, ◌∙◌, inl, inr, false, Option, none, some, List, [], ◌∷◌, ◌++◌, ◌&&◌,
  if◌then◌else◌, Bool-cases,
}
use blksnap.Kernel.{enomem, Ret, ok, err, Ret-cases}
use blksnap.Storage.{DiffStorage, diff_storage_new}
use blksnap.Tracker.Devices.{World, Got, got, failed, tracker_create_or_get}
use blksnap.Snapshot.{BlkSnapDev, check_same_devices}
use blksnap.Snapshot.Store.{
  Snapshot, Store, Environment, Res, returns, blocks, faults, no_fuel, M, pure, update,
}
use blksnap.Snapshot.Registry.{
  Made, made, refused, new_object, snapshot_new, add_trackers, finish_create, fill_snapshot,
  snapshot_create, snapshot_put, lookup,
}
use blksnap.Snapshot.Registry.History.{
  Registered, After, After-bind, Created, create-Created, lookup-Registered,
}

-- No snapshot was freed, and those other than `s` are as they were, with their references.
pub record LeftAlone (s : ℕ) (st st' : Store) : Type 0 where
  pub freed_is : st'.freed ≡ st.freed
  pub object : (t : ℕ) → (t == s) ≡ false → st'.objects t ≡ st.objects t
  pub refs : (t : ℕ) → (t == s) ≡ false → st'.kref t ≡ st.kref t

LeftAlone-trans : {s : ℕ} {a b c : Store} → LeftAlone s a b → LeftAlone s b c → LeftAlone s a c
LeftAlone-trans h k = record {
  freed_is = k.freed_is ∙ h.freed_is;
  object = λ t other. k.object t other ∙ h.object t other;
  refs = λ t other. k.refs t other ∙ h.refs t other;
}

-- The objects but that of `s` are left alone by a step of the loop.
one_added :
    (s : ℕ) (o : Snapshot) (w : World) (st : Store)
    → LeftAlone s st (record st { world = w; objects = update st.objects s o })
one_added s o w st = record {
  freed_is = refl;
  object = λ t other. rw other refl;
  refs = λ t other. refl;
}

added-LeftAlone :
    (e : Environment) (s : ℕ) (devs : List BlkSnapDev) (st : Store) (out : Option (Got × World))
    → ((st' : Store) → After (λ _ st''. LeftAlone s st' st'') (add_trackers e s devs st'))
    → After
        (λ _ st'. LeftAlone s st st')
        (elim out [
          | none ↦ no_fuel
          | some (failed x, w) ↦ returns (err x) (record st { world = w })
          | some (got f, w) ↦
              let o = st.objects s in
              let o' = record o {
                tracker_array = o.tracker_array ++ (some f ∷ []);
                snapimage_array = o.snapimage_array ++ (none ∷ []);
              } in
              add_trackers e s devs (record st { world = w; objects = update st.objects s o' })
        ])
added-LeftAlone e s devs st none h = tt
added-LeftAlone e s devs st (some (failed x, w)) h = record {
  freed_is = refl;
  object = λ t other. refl;
  refs = λ t other. refl;
}
added-LeftAlone e s devs st (some (got f, w)) h =
    let o = st.objects s in
    let o' : Snapshot = record o {
      tracker_array = o.tracker_array ++ (some f ∷ []);
      snapimage_array = o.snapimage_array ++ (none ∷ []);
    } in
    let st1 = record st { world = w; objects = update st.objects s o' } in
    weaken (add_trackers e s devs st1) (one_added s o' w st) (h st1)
  where
    weaken :
        {b : Store} (r : Res Ret)
        → LeftAlone s st b
        → After (λ _ st'. LeftAlone s b st') r
        → After (λ _ st'. LeftAlone s st st') r
    weaken (returns x st') k l = LeftAlone-trans k l
    weaken blocks k l = tt
    weaken faults k l = tt
    weaken no_fuel k l = tt

add_trackers-LeftAlone :
    (e : Environment) (s : ℕ) (devs : List BlkSnapDev) (st : Store)
    → After (λ _ st'. LeftAlone s st st') (add_trackers e s devs st)
unfolding add_trackers
add_trackers-LeftAlone e s [] st = record {
  freed_is = refl;
  object = λ t other. refl;
  refs = λ t other. refl;
}
add_trackers-LeftAlone e s ((mj, mn) ∷ devs) st =
    let dev = e.mkdev mj mn in
    added-LeftAlone e s devs st
      (tracker_create_or_get e.rounding e.params (e.making dev) (e.open_dev dev) st.world)
      (add_trackers-LeftAlone e s devs)

-- Where a snapshot was made, the others are left alone.
abbrev MakesLeftAlone : Store → Made → Store → Type 0
MakesLeftAlone st (made s) st' = LeftAlone s st st'
MakesLeftAlone st (refused x) st' = Unit

ended :
    (e : Environment) (s : ℕ) (ret : Ret) (st st' : Store)
    → LeftAlone s st st'
    → After (MakesLeftAlone st) (finish_create e s ret st')
unfolding finish_create
ended e s (err x) st st' h =
    After-bind (λ _ _. Unit {0}) (MakesLeftAlone st) (snapshot_put e s st') (λ _. pure (refused x))
      (anything (snapshot_put e s st')) (λ _ _ _. tt)
  where
    anything : (r : Res (Unit {0})) → After (λ _ _. Unit {0}) r
    anything (returns a st) = tt
    anything blocks = tt
    anything faults = tt
    anything no_fuel = tt
ended e s ok st st' h = record { freed_is = h.freed_is; object = h.object; refs = h.refs }

filled :
    (e : Environment) (devs : List BlkSnapDev) (st : Store) (new : Made) (st' : Store)
    → MakesLeftAlone st new st'
    → After (MakesLeftAlone st) (fill_snapshot e devs new st')
unfolding fill_snapshot
filled e devs st (refused x) st' h = tt
filled e devs st (made s) st' h =
    After-bind (λ _ st''. LeftAlone s st' st'') (MakesLeftAlone st) (add_trackers e s devs st')
      (λ ret. finish_create e s ret) (add_trackers-LeftAlone e s devs st')
      (λ ret st'' k. ended e s ret st st'' (LeftAlone-trans h k))

stored-LeftAlone :
    (e : Environment) (st : Store) (d : Option DiffStorage)
    → After
        (MakesLeftAlone st)
        ((elim d as (λ x. M Made) [ none ↦ pure (refused enomem) | some x ↦ new_object e x ]) st)
unfolding new_object
stored-LeftAlone e st none = tt
stored-LeftAlone e st (some d) = record {
  freed_is = refl;
  object = λ t other. rw other refl;
  refs = λ t other. rw other refl;
}

snapshot_new-LeftAlone :
    (e : Environment) (st : Store) → After (MakesLeftAlone st) (snapshot_new e st)
unfolding snapshot_new
snapshot_new-LeftAlone e st =
    elim (Bool-cases (e.snapshot_alloc && e.tracker_array_alloc && e.snapimage_array_alloc)) [
      | inl there ↦
          rw (there, After)
            (stored-LeftAlone e st (diff_storage_new e.params e.storage_alloc e.alarm))
      | inr missing ↦ rw (missing, After) tt
    ]

create-LeftAlone :
    (e : Environment) (devs : List BlkSnapDev) (st : Store)
    → After (MakesLeftAlone st) (snapshot_create e devs st)
unfolding snapshot_create
create-LeftAlone e devs st = elim (Ret-cases (check_same_devices devs)) [
  | inl differ ↦
      rw (differ, After)
        (After-bind (MakesLeftAlone st) (MakesLeftAlone st) (snapshot_new e st)
          (λ new. fill_snapshot e devs new) (snapshot_new-LeftAlone e st) (filled e devs st))
  | inr (x, same) ↦ rw (same, After) tt
]

-- A call of snapshot_create that makes a snapshot, with the list holding at most one before, leaves
-- the new snapshot as the only one on the list: with two rounds of the walk or more, the search by an
-- identifier finds it under its own and nothing under any other. A snapshot created before can so no
-- longer be found, although no snapshot was freed by the call, and every other one is as it was, with
-- its references.
pub create_hides_others :
    (e e' : Environment) (devs : List BlkSnapDev) (st st' : Store) (o : Option ℕ) (s id : ℕ)
    → Registered st o
    → 2 ≤ e'.fuel
    → snapshot_create e devs st ≡ returns (made s) st'
    → (s ≡ st.next_snapshot)
      × (lookup e' id st' ≡ returns (if e.uuid_gen == id then some s else none) st')
      × LeftAlone s st st'
create_hides_others e e' devs st st' o s id r enough created =
    let h : Created e.uuid_gen st.next_snapshot o (made s) st' =
      subst (After (Created e.uuid_gen st.next_snapshot o)) created
        (create-Created e devs st o r) in
    (
      h.0,
      rw (lookup-Registered e' st' (some st.next_snapshot) id enough h.1, h.0) (rw h.2 refl),
      subst (After (MakesLeftAlone st)) created (create-LeftAlone e devs st),
    )
