-- ===== src/Snapshot/Registry/History.antt =====
-- Histories of the calls of module/snapshot.c on the list of snapshots.
use blksnap.Prelude.{
  ℕ, ◌+◌, ◌≤◌, ◌<◌, ◌≡◌, refl, ◌∙◌, inl, inr, Option, none, some, List, arith, ◌&&◌, Bool-cases,
}
use mathlib.Core.Path.{subst}
use blksnap.Kernel.{enomem, enodev, Ret, ok, err, Ret-cases}
use blksnap.Storage.{DiffStorage, diff_storage_new}
use blksnap.Snapshot.{BlkSnapDev, check_same_devices}
use blksnap.Snapshot.Store.{
  Links, Lists, Store, Environment, Res, returns, blocks, faults, no_fuel, M, pure,
}
use blksnap.Snapshot.Registry.{
  Made, made, refused, new_object, snapshot_new, add_trackers, finish_create, fill_snapshot,
  snapshot_create, lookup, find_by_id, snapshot_put, unlink, snapshot_destroy,
}
use blksnap.Snapshot.Registry.Listed.{
  AtMostOne, Below, found_in, find-AtMostOne, init-AtMostOne, add-AtMostOne, del-AtMostOne,
}
use blksnap.Snapshot.Registry.Keeps.{Ensures, Same, add_trackers-Keeps, snapshot_put-Keeps}

Below-suc : (o : Option ℕ) (n : ℕ) → Below o n → Below o (n + 1)
Below-suc none n h = tt
Below-suc (some s) n h = omega arith

-- The list holds nothing but what `o` says, which is older than the next snapshot.
pub record Registered (st : Store) (o : Option ℕ) : Type 0 where
  pub at_most : AtMostOne st.snapshots o
  pub below : Below o st.next_snapshot
  pub positive : 0 < st.next_snapshot

-- What holds of the result and the store where the call returns.
abbrev pub After : {A : Type 0} → (A → Store → Type 0) → Res A → Type 0
After P (returns a st) = P a st
After P blocks = Unit
After P faults = Unit
After P no_fuel = Unit

pub After-bind :
    {A B : Type 0} (P : A → Store → Type 0) (Q : B → Store → Type 0) (r : Res A) (f : A → M B)
    → After P r
    → ((a : A) (st : Store) → P a st → After Q (f a st))
    → After Q
        (elim r [ returns a st' ↦ f a st' | blocks ↦ blocks | faults ↦ faults | no_fuel ↦ no_fuel ])
After-bind P Q (returns a st) f h k = k a st h
After-bind P Q blocks f h k = tt
After-bind P Q faults f h k = tt
After-bind P Q no_fuel f h k = tt

pub After-keeps :
    {A : Type 0} (st : Store) (r : Res A) → Ensures (Same st) r → After (λ _ st'. Same st st') r
After-keeps st (returns a st') h = h
After-keeps st blocks h = tt
After-keeps st faults h = tt
After-keeps st no_fuel h = tt

pub Same-Registered :
    {st st' : Store} {o : Option ℕ} → Same st st' → Registered st o → Registered st' o
Same-Registered {o} same r = record {
  at_most = rw same.links r.at_most;
  below = rw same.next_is r.below;
  positive = rw same.next_is r.positive;
}

-- A snapshot that is being made has its ring to itself, with its identifier.
record Fresh (K : Lists) (l : Links) (id s : ℕ) (st : Store) : Type 0 where
  ring : st.snapshots ≡ K.init_list_head s l
  id_is : (st.objects s).id ≡ id
  next_is : st.next_snapshot ≡ s + 1

-- What snapshot_create comes to, where the list held `o`.
abbrev pub Created : (id s : ℕ) → Option ℕ → Made → Store → Type 0
Created id s o (made t) st = (t ≡ s) × Registered st (some s) × ((st.objects s).id ≡ id)
Created id s o (refused x) st = Registered st o

module _ (e : Environment) (l : Links) (o : Option ℕ) (s : ℕ) (positive : 0 < s)
    (old : AtMostOne l o) (below : Below o s) where
  Fresh-Registered : {st : Store} → Fresh e.lists l e.uuid_gen s st → Registered st o
  Fresh-Registered f = record {
    at_most = rw f.ring (init-AtMostOne e.lists l s o positive below old);
    below = rw f.next_is (Below-suc o s below);
    positive = rw f.next_is (omega arith);
  }

  finish-Created :
      (ret : Ret) (st : Store)
      → Fresh e.lists l e.uuid_gen s st
      → After (Created e.uuid_gen s o) (finish_create e s ret st)
  unfolding finish_create
  finish-Created (err x) st f =
      After-bind (λ _ st'. Same st st') (Created e.uuid_gen s o) (snapshot_put e s st)
        (λ _. pure (refused x)) (After-keeps st (snapshot_put e s st) (snapshot_put-Keeps e s st))
        (λ _ st' same. Same-Registered same (Fresh-Registered f))
  finish-Created ok st f = (
    refl,
    record {
      at_most = rw f.ring (add-AtMostOne e.lists l s (omega arith));
      below = rw f.next_is (omega arith);
      positive = rw f.next_is (omega arith);
    },
    f.id_is,
  )

  fill-Created :
      (devs : List BlkSnapDev) (st : Store)
      → Fresh e.lists l e.uuid_gen s st
      → After (Created e.uuid_gen s o) (fill_snapshot e devs (made s) st)
  unfolding fill_snapshot
  fill-Created devs st f =
      After-bind (λ _ st'. Same st st') (Created e.uuid_gen s o) (add_trackers e s devs st)
        (λ ret. finish_create e s ret)
        (After-keeps st (add_trackers e s devs st) (add_trackers-Keeps e s devs st))
        (λ ret st' same. finish-Created ret st' (record {
          ring = same.links ∙ f.ring;
          id_is = same.ids s ∙ f.id_is;
          next_is = same.next_is ∙ f.next_is;
        }))

-- What snapshot_new comes to.
abbrev New : Environment → Store → Made → Store → Type 0
New e st (made t) st' =
    (t ≡ st.next_snapshot) × Fresh e.lists st.snapshots e.uuid_gen st.next_snapshot st'
New e st (refused x) st' = st' ≡ st

new_object-New :
    (e : Environment) (d : DiffStorage) (st : Store) → After (New e st) (new_object e d st)
unfolding new_object
new_object-New e d st = (refl, record { ring = refl; id_is = ground arith; next_is = refl })

stored-New :
    (e : Environment) (st : Store) (d : Option DiffStorage)
    → After
        (New e st)
        ((elim d as (λ x. M Made) [ none ↦ pure (refused enomem) | some x ↦ new_object e x ]) st)
stored-New e st none = refl
stored-New e st (some d) = new_object-New e d st

snapshot_new-New : (e : Environment) (st : Store) → After (New e st) (snapshot_new e st)
unfolding snapshot_new
snapshot_new-New e st =
    elim (Bool-cases (e.snapshot_alloc && e.tracker_array_alloc && e.snapimage_array_alloc)) [
      | inl there ↦
          rw (there, After) (stored-New e st (diff_storage_new e.params e.storage_alloc e.alarm))
      | inr missing ↦ rw (missing, After) refl
    ]

made-Created :
    (e : Environment) (devs : List BlkSnapDev) (st : Store) (o : Option ℕ)
    → Registered st o
    → (new : Made) (st' : Store) → New e st new st'
    → After (Created e.uuid_gen st.next_snapshot o) (fill_snapshot e devs new st')
unfolding fill_snapshot
made-Created e devs st o r (refused x) st' h = rw h r
made-Created e devs st o r (made t) st' (is, f) =
    rw is (fill-Created e st.snapshots o st.next_snapshot r.positive r.at_most r.below devs st' f)

-- Where snapshot_create returns, it made the next snapshot, which is then alone on the list, or the
-- list is as it was.
pub create-Created :
    (e : Environment) (devs : List BlkSnapDev) (st : Store) (o : Option ℕ)
    → Registered st o
    → After (Created e.uuid_gen st.next_snapshot o) (snapshot_create e devs st)
unfolding snapshot_create
create-Created e devs st o r = elim (Ret-cases (check_same_devices devs)) [
  | inl differ ↦
      rw (differ, After)
        (After-bind (New e st) (Created e.uuid_gen st.next_snapshot o) (snapshot_new e st)
          (λ new. fill_snapshot e devs new) (snapshot_new-New e st) (made-Created e devs st o r))
  | inr (x, same) ↦ rw (same, After) r
]

lookup_is :
    (e : Environment) (st : Store) (id : ℕ) (found : Option ℕ)
    → find_by_id e.fuel st.objects st.snapshots id (st.snapshots.next 0) ≡ some found
    → lookup e id st ≡ returns found st
unfolding lookup
lookup_is e st id found h = rw (h, lookup) refl

-- On a list of at most one snapshot the search finds it by its identifier, and nothing else.
pub lookup-Registered :
    (e : Environment) (st : Store) (o : Option ℕ) (id : ℕ)
    → 2 ≤ e.fuel
    → Registered st o
    → lookup e id st ≡ returns (found_in st.objects id o) st
lookup-Registered e st o id enough r =
    lookup_is e st id (found_in st.objects id o)
      (find-AtMostOne e.fuel st.objects id enough r.at_most)

-- What snapshot_destroy comes to for the identifier of a listed snapshot, and for any other.
abbrev pub Destroyed : Store → Option ℕ → Ret → Store → Type 0
Destroyed st none ret st' = (ret ≡ err enodev) × (st' ≡ st)
Destroyed st (some s) ret st' = (ret ≡ ok) × Registered st' none

pub unlinked :
    (e : Environment) (st : Store) (s : ℕ)
    → Registered st (some s)
    → Registered (record st { snapshots = e.lists.list_del s st.snapshots }) none
unlinked e st s r = record {
  at_most = del-AtMostOne e.lists st.snapshots s r.at_most;
  below = tt;
  positive = r.positive;
}

pub found_is :
    (st : Store) (o : Option ℕ) (id s : ℕ) → found_in st.objects id o ≡ some s → o ≡ some s
found_is st none id s h = cc
found_is st (some t) id s h = ground arith

destroy_found :
    (e : Environment) (id : ℕ) (st : Store) (found : Option ℕ)
    → lookup e id st ≡ returns found st
    → ((s : ℕ) → found ≡ some s → Registered st (some s))
    → After (Destroyed st found) (snapshot_destroy e id st)
unfolding snapshot_destroy unlink
destroy_found e id st none looked r = rw (looked, After) (refl, refl)
destroy_found e id st (some s) looked r =
    rw (looked, After)
      (let st' = record st { snapshots = e.lists.list_del s st.snapshots } in
        After-bind (λ _ st''. Same st' st'') (Destroyed st (some s)) (snapshot_put e s st')
          (λ _. pure ok) (After-keeps st' (snapshot_put e s st') (snapshot_put-Keeps e s st'))
          (λ _ st'' same. (refl, Same-Registered same (unlinked e st s (r s refl)))))

-- Where snapshot_destroy returns, with two rounds of the walk or more: for the identifier of the
-- listed snapshot it returned 0 and the list is empty; for any other it returned ENODEV and nothing
-- changed.
pub destroy-Destroyed :
    (e : Environment) (id : ℕ) (st : Store) (o : Option ℕ)
    → 2 ≤ e.fuel
    → Registered st o
    → After (Destroyed st (found_in st.objects id o)) (snapshot_destroy e id st)
destroy-Destroyed e id st o enough r =
    destroy_found e id st (found_in st.objects id o) (lookup-Registered e st o id enough r)
      (λ s is. subst (Registered st) (found_is st o id s is) r)
