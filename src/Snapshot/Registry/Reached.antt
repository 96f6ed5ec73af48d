-- ===== src/Snapshot/Registry/Reached.antt =====
-- The stores that calls of module/snapshot.c can lead to, by creating, destroying and taking snapshots.
use mathlib.Core.Path.{subst}
use blksnap.Prelude.{
  ℕ, ◌≤◌, ◌<◌, ◌==◌, ◌≡◌, sym, inl, inr, Option, none, some, List, length, Bool-cases,
}
use blksnap.Kernel.{Ret, ok, err}
use blksnap.Snapshot.{BlkSnapDev}
use blksnap.Snapshot.Store.{Store, Environment, Res, returns, blocks, faults, no_fuel}
use blksnap.Snapshot.Registry.{Made, made, refused, snapshot_create, snapshot_destroy, entries}
use blksnap.Snapshot.Registry.Listed.{no_entry, found_in, as_list, entries-AtMostOne}
use blksnap.Snapshot.Registry.History.{
  Registered, After, Created, create-Created, Destroyed, destroy-Destroyed,
}
use blksnap.Snapshot.Registry.Taking.{snapshot_take, take_steps}
use blksnap.Snapshot.Registry.Taking.Ends.{
  Takes, TakesFound, Concluded, with_reference, snapshot_take-Listed,
}

-- The module starts with an empty list. Each call has its own answers of the kernel, and those that
-- search the list have two rounds of the walk or more.
pub data Reached : Store → Type 0 where
  start :
      (st : Store)
      → st.snapshots.next 0 ≡ 0
      → st.snapshots.prev 0 ≡ 0
      → 0 < st.next_snapshot
      → Reached st
  create :
      {st st' : Store} (e : Environment) (devs : List BlkSnapDev) (m : Made)
      → Reached st
      → snapshot_create e devs st ≡ returns m st'
      → Reached st'
  destroy :
      {st st' : Store} (e : Environment) (id : ℕ) (ret : Ret)
      → Reached st
      → 2 ≤ e.fuel
      → snapshot_destroy e id st ≡ returns ret st'
      → Reached st'
  takes :
      {st st' : Store} (e : Environment) (id : ℕ) (ret : Ret)
      → Reached st
      → 2 ≤ e.fuel
      → snapshot_take e id st ≡ returns ret st'
      → Reached st'

-- The list has at most one entry.
abbrev Lists : Store → Type 0
Lists st = (o : Option ℕ) × Registered st o

created-Lists : (id s : ℕ) (o : Option ℕ) (m : Made) (st : Store) → Created id s o m st → Lists st
created-Lists id s o (made t) st h = (some s, h.1)
created-Lists id s o (refused x) st h = (o, h)

destroyed-Lists :
    (st st' : Store) (o found : Option ℕ) (ret : Ret)
    → Registered st o
    → Destroyed st found ret st'
    → Lists st'
destroyed-Lists st st' o none ret r (_, same) = (o, subst (λ s. Registered s o) (sym same) r)
destroyed-Lists st st' o (some s) ret r (_, r') = (none, r')

concluded-Lists :
    (s : ℕ) (steps : Res Ret) (ret : Ret) (st : Store)
    → Concluded s steps (returns ret st)
    → Lists st
concluded-Lists s (returns ok st1) ret st h = (some s, h.0)
concluded-Lists s (returns (err x) st1) ret st h = (none, h.1)
concluded-Lists s blocks ret st h = cc
concluded-Lists s faults ret st h = cc
concluded-Lists s no_fuel ret st h = cc

takes-Lists :
    (e : Environment) (s : ℕ) (st st' : Store) (ret : Ret)
    → Takes e s st (returns ret st')
    → Lists st'
takes-Lists e s st st' ret (again, empty, steps) = elim (Bool-cases (st.objects s).is_taken) [
  | inl is ↦ (some s, (again is).1)
  | inr not_yet ↦ elim (Bool-cases (length (st.objects s).tracker_array == 0)) [
    | inl no_devices ↦ (some s, (empty not_yet no_devices).1)
    | inr devices ↦
        concluded-Lists s (take_steps e s (st.objects s).tracker_array st) ret st'
          (steps not_yet devices)
  ]
]

found-Lists :
    (e : Environment) (st st' : Store) (o found : Option ℕ) (ret : Ret)
    → Registered st o
    → TakesFound e st found (returns ret st')
    → Lists st'
found-Lists e st st' o none ret r h = (o, subst (λ x. Registered x o) (sym (store_of h)) r)
  where
    store_of : {a b : Store} {x y : Ret} → returns x a ≡ returns y b → a ≡ b
    store_of p = cc
found-Lists e st st' o (some s) ret r h = takes-Lists e s (with_reference s st) st' ret h

Reached-Lists : {st : Store} → Reached st → Lists st
Reached-Lists (start st n p positive) =
    (none, record { at_most = no_entry n p; below = tt; positive = positive })
Reached-Lists (create {st} {st'} e devs m h out) =
    let (o, r) = Reached-Lists h in
    created-Lists e.uuid_gen st.next_snapshot o m st'
      (subst (After (Created e.uuid_gen st.next_snapshot o)) out (create-Created e devs st o r))
Reached-Lists (destroy {st} {st'} e id ret h enough out) =
    let (o, r) = Reached-Lists h in
    destroyed-Lists st st' o (found_in st.objects id o) ret r (
      subst (After (Destroyed st (found_in st.objects id o))) out
        (destroy-Destroyed e id st o enough r))
Reached-Lists (takes {st} {st'} e id ret h enough out) =
    let (o, r) = Reached-Lists h in
    found-Lists e st st' o (found_in st.objects id o) ret r (
      subst (TakesFound e st (found_in st.objects id o)) out
        (snapshot_take-Listed e id st o enough r))

-- However snapshots were created, destroyed and taken, the walk over the list ends after two rounds
-- at most and visits at most one snapshot.
pub one_listed :
    (st : Store) (fuel : ℕ)
    → Reached st
    → 2 ≤ fuel
    → (o : Option ℕ) × (entries fuel st.snapshots (st.snapshots.next 0) ≡ some (as_list o))
one_listed st fuel h enough =
    let (o, r) = Reached-Lists h in (o, entries-AtMostOne fuel enough r.at_most)
