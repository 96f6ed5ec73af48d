-- ===== src/Snapshot/Registry/Listed.antt =====
-- What can be found on the list of snapshots (module/snapshot.c) after snapshots were created and
-- destroyed.
use blksnap.Prelude.{
  ℕ, zero, suc, ◌≤◌, ◌<◌, ◌==◌, ◌≡◌, ◌≢◌, refl, sym, inl, inr, false, Option, none, some, List, [],
  ◌∷◌, arith, if◌then◌else◌, Bool-cases,
}
use blksnap.Snapshot.Store.{Links, Lists, Snapshot}
use blksnap.Snapshot.Registry.{entries, find_by_id}

-- The head has itself or one snapshot on its ring.
pub data AtMostOne (l : Links) : Option ℕ → Type 0 where
  no_entry : l.next 0 ≡ 0 → l.prev 0 ≡ 0 → AtMostOne l none
  one_entry :
      {s : ℕ}
      → s ≢ 0
      → l.next 0 ≡ s
      → l.next s ≡ 0
      → l.prev 0 ≡ s
      → l.prev s ≡ 0
      → AtMostOne l (some s)

-- What is listed is older than the snapshot `n`.
abbrev pub Below : Option ℕ → ℕ → Type 0
Below none n = Unit
Below (some s) n = s < n

abbrev pub as_list : Option ℕ → List ℕ
as_list none = []
as_list (some s) = s ∷ []

ne_zero : (s : ℕ) → s ≢ 0 → (s == 0) ≡ false
ne_zero zero h = absurd (h refl)
ne_zero (suc s) h = ground arith

-- Two rounds of the walk are enough.
pub entries-AtMostOne :
    {l : Links} {o : Option ℕ} (fuel : ℕ)
    → 2 ≤ fuel
    → AtMostOne l o
    → entries fuel l (l.next 0) ≡ some (as_list o)
unfolding entries
entries-AtMostOne zero enough a = absurd (omega arith)
entries-AtMostOne (suc zero) enough a = absurd (omega arith)
entries-AtMostOne (suc (suc fuel)) enough (no_entry n p) = rw n refl
entries-AtMostOne (suc (suc fuel)) enough (one_entry {s} nonzero n ns p ps) =
    rw n (ground (arith, ne_zero s nonzero, ns))

-- What the search by an identifier finds on such a list.
abbrev pub found_in : (ℕ → Snapshot) → ℕ → Option ℕ → Option ℕ
found_in objects id none = none
found_in objects id (some s) = if (objects s).id == id then some s else none

pub find-AtMostOne :
    {l : Links} {o : Option ℕ} (fuel : ℕ) (objects : ℕ → Snapshot) (id : ℕ)
    → 2 ≤ fuel
    → AtMostOne l o
    → find_by_id fuel objects l id (l.next 0) ≡ some (found_in objects id o)
unfolding find_by_id
find-AtMostOne zero objects id enough a = absurd (omega arith)
find-AtMostOne (suc zero) objects id enough a = absurd (omega arith)
find-AtMostOne (suc (suc fuel)) objects id enough (no_entry n p) = rw n refl
find-AtMostOne (suc (suc fuel)) objects id enough (one_entry {s} nonzero n ns p ps) =
    elim (Bool-cases ((objects s).id == id)) [
      | inl same ↦ rw n (ground (arith, ne_zero s nonzero, same))
      | inr other ↦ rw n (ground (arith, ne_zero s nonzero, other, ns))
    ]

module _ (K : Lists) where
  -- The new snapshot is alone on the list, whatever was there.
  pub add-AtMostOne :
      (l : Links) (s : ℕ) → s ≢ 0 → AtMostOne (K.list_add_tail 0 s (K.init_list_head s l)) (some s)
  add-AtMostOne l s nonzero =
      let m : Links = K.init_list_head s l in
      let prev_is : m.prev s ≡ s = rw (K.init-prev s s l) (ground arith) in
      one_entry nonzero (rw (K.add-next 0 s 0 m, prev_is, ne_zero' s nonzero) refl)
        (rw (K.add-next 0 s s m, prev_is) (ground arith)) (rw (K.add-prev 0 s 0 m, prev_is) refl)
        (rw (K.add-prev 0 s s m, ne_zero s nonzero) (ground arith))
    where
      ne_zero' : (t : ℕ) → t ≢ 0 → (0 == t) ≡ false
      ne_zero' zero h = absurd (h refl)
      ne_zero' (suc t) h = ground arith

  -- The one entry taken off, the list is empty.
  pub del-AtMostOne : (l : Links) (s : ℕ) → AtMostOne l (some s) → AtMostOne (K.list_del s l) none
  del-AtMostOne l s (one_entry nonzero n ns p ps) =
      no_entry (rw (K.del-next s 0 l (λ e. nonzero (sym e)), ps, ns) refl)
        (rw (K.del-prev s 0 l (λ e. nonzero (sym e)), ns, ps) refl)

  -- A ring of its own for a new snapshot leaves the list as it was.
  pub init-AtMostOne :
      (l : Links) (s : ℕ) (o : Option ℕ)
      → 0 < s
      → Below o s
      → AtMostOne l o
      → AtMostOne (K.init_list_head s l) o
  init-AtMostOne l s none positive below (no_entry n p) =
      no_entry (rw (K.init-next s 0 l) (ground (arith, n)))
        (rw (K.init-prev s 0 l) (ground (arith, p)))
  init-AtMostOne l s (some t) positive below (one_entry nonzero n ns p ps) =
      one_entry nonzero (rw (K.init-next s 0 l) (ground (arith, n)))
        (rw (K.init-next s t l) (ground (arith, ns))) (rw (K.init-prev s 0 l) (ground (arith, p)))
        (rw (K.init-prev s t l) (ground (arith, ps)))
