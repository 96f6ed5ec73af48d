-- ===== src/BdevFilter/History.antt =====
-- Histories of the filters of module/bdevfilter.c: threads that make, attach, detach, find, get and
-- put filters, in any order, each call ending before the next one begins.
use mathlib.Core.Path.{subst}
use blksnap.Prelude.{
  ℕ, ◌+◌, ◌≤◌, ◌<◌, ◌≡◌, refl, ap, inl, inr, Bool, Option, none, some, [], arith, Option-cases,
}
use blksnap.Kernel.{Ret, ok, err}
use blksnap.BdevFilter.{
  BdevExtension, Filters, BlockDevice, bdev_filter_init, bdev_filter_get, bdev_filter_put,
  set_filter, bdev_extension_find, bdev_extension_append, bdev_filter_attach, lp_bdev_filter_detach,
  bdev_filter_detach, bdev_filter_get_by_bdev, bdev_extension_find_bdev,
}
use blksnap.BdevFilter.Counts.{
  one, attached, attached-set_filter, attached-find, attached-find_bdev, devices,
  devices-set_filter,
}
use blksnap.BdevFilter.Refs.{
  times, bump, drop_one, refs_of, IsKept, Appended, append-Appended, as_refs, put-IsKept,
  init-IsCounted, get-IsCounted,
}

-- The filters, the references that threads hold, and how often a filter was made under a number.
pub record State : Type 0 where
  pub filters : Filters
  pub held : ℕ → ℕ
  pub made : ℕ → ℕ

abbrev pub attaches : Ret → ℕ → (ℕ → ℕ) → ℕ → ℕ
attaches ok f held = drop_one f held
attaches (err _) f held = held

abbrev pub finds : Option ℕ → (ℕ → ℕ) → ℕ → ℕ
finds none held = held
finds (some f) held = bump f held

-- A thread uses a filter only while it holds a reference; an attachment that works hands it over.
-- A new filter has a new number.
pub data Step : State → State → Type 0 where
  makes :
      (s : State) (f : ℕ)
      → s.made f ≡ 0
      → Step s (record {
        filters = bdev_filter_init f s.filters;
        held = bump f s.held;
        made = bump f s.made;
      })
  gets :
      (s : State) (f : ℕ)
      → 0 < s.held f
      → Step s (record s { filters = bdev_filter_get f s.filters; held = bump f s.held })
  puts :
      (s : State) (f : ℕ)
      → 0 < s.held f
      → Step s (record s { filters = bdev_filter_put f s.filters; held = drop_one f s.held })
  looks_up :
      (s : State) (d : BlockDevice)
      → Step s (record s {
        filters = (bdev_filter_get_by_bdev d s.filters).1;
        held = finds (bdev_filter_get_by_bdev d s.filters).0 s.held;
      })
  attaches_to :
      (s : State) (alloc : Bool) (d : BlockDevice) (f : ℕ)
      → 0 < s.held f
      → Step s (record s {
        filters = (bdev_filter_attach alloc d f s.filters).1;
        held = attaches (bdev_filter_attach alloc d f s.filters).0 f s.held;
      })
  detaches :
      (s : State) (d : BlockDevice) → Step s (record s { filters = bdev_filter_detach d s.filters })

pub data Steps : State → State → Type 0 where
  none_more : (s : State) → Steps s s
  next : (s t u : State) → Steps s t → Step t u → Steps s u

abbrev pub unused : State
unused = record {
  filters = record { bdev_extension_list = []; kref = λ _. 0; released = [] };
  held = λ _. 0;
  made = λ _. 0;
}

filter_set-IsKept :
    (w : Filters) (held made : ℕ → ℕ) (dev f : ℕ) (ext : BdevExtension)
    → IsKept w held made
    → 0 < held f
    → bdev_extension_find dev w.bdev_extension_list ≡ some ext
    → ext.bd_filter ≡ none
    → IsKept
        (record w { bdev_extension_list = set_filter dev (some f) w.bdev_extension_list })
        (drop_one f held)
        made
filter_set-IsKept w held made dev f ext k mine found bare =
    let es = w.bdev_extension_list in
    record {
      distinct = λ x. omega (arith, k.distinct x, devices-set_filter x dev (some f) es);
      refs =
          as_refs w (set_filter dev (some f) es) (refs_of es held)
            (refs_of (set_filter dev (some f) es) (drop_one f held)) made k.refs
            (λ x.
              ground
                (arith, mine, attached-set_filter x dev (some f) es ext found, ap (one x) bare));
    }

attach-IsKept :
    (w : Filters) (held made : ℕ → ℕ) (alloc : Bool) (d : BlockDevice) (f : ℕ)
    → IsKept w held made
    → 0 < held f
    → IsKept
        (bdev_filter_attach alloc d f w).1
        (attaches (bdev_filter_attach alloc d f w).0 f held)
        made
unfolding bdev_filter_attach
attach-IsKept w held made alloc d f k mine = elim (Option-cases (bdev_extension_append alloc d w)) [
  | inl no_memory ↦ rw (no_memory, bdev_filter_attach, attaches) k
  | inr ((ext, w'), made_it) ↦
      let (kept, found) =
        subst (Appended d.bd_dev held made) made_it (append-Appended alloc d w held made k) in
      elim (Option-cases ext.bd_filter) [
        | inr (_, busy) ↦ rw (made_it, busy, bdev_filter_attach, attaches) kept
        | inl bare ↦
            rw (made_it, bare, bdev_filter_attach, attaches)
              (filter_set-IsKept w' held made d.bd_dev f ext kept mine found bare)
      ]
]

detach-IsKept :
    (w : Filters) (held made : ℕ → ℕ) (d : BlockDevice)
    → IsKept w held made
    → IsKept (bdev_filter_detach d w) held made
unfolding bdev_filter_detach lp_bdev_filter_detach
detach-IsKept w held made d k =
    let es = w.bdev_extension_list in
    elim (Option-cases (bdev_extension_find d.bd_dev es)) [
      | inl missing ↦ rw (missing, bdev_filter_detach, lp_bdev_filter_detach) k
      | inr (ext, found) ↦ elim (Option-cases ext.bd_filter) [
        | inl bare ↦ rw (found, bare, bdev_filter_detach, lp_bdev_filter_detach) k
        | inr (f, has) ↦
            rw (found, has, bdev_filter_detach, lp_bdev_filter_detach)
              (put-IsKept w (set_filter d.bd_dev none es) (refs_of es held) held made f k.refs
                (ground (arith, attached-find f d.bd_dev es ext found, ap (one f) has))
                (λ g.
                  omega (arith, attached-set_filter g d.bd_dev none es ext found, ap (one g) has))
                (λ dev. omega (arith, k.distinct dev, devices-set_filter dev d.bd_dev none es)))
      ]
    ]

look_up-IsKept :
    (w : Filters) (held made : ℕ → ℕ) (d : BlockDevice)
    → IsKept w held made
    → let (found, w') = bdev_filter_get_by_bdev d w in IsKept w' (finds found held) made
unfolding bdev_filter_get_by_bdev bdev_filter_get
look_up-IsKept w held made d k =
    let es = w.bdev_extension_list in
    elim (Option-cases (bdev_extension_find_bdev d.address es)) [
      | inl missing ↦ rw (missing, bdev_filter_get_by_bdev) k
      | inr (ext, found) ↦ elim (Option-cases ext.bd_filter) [
        | inl bare ↦ rw (found, bare, bdev_filter_get_by_bdev) k
        | inr (f, has) ↦
            rw (found, has, bdev_filter_get_by_bdev)
              record {
                distinct = k.distinct;
                refs =
                    as_refs (bdev_filter_get f w) es (bump f (refs_of es held))
                      (refs_of es (bump f held)) made
                      (get-IsCounted w (refs_of es held) made f k.refs (
                        ground
                          (arith, attached-find_bdev f d.address es ext found, ap (one f) has)))
                      (λ g. omega arith);
              }
      ]
    ]

step-IsKept :
    (s t : State) → Step s t → IsKept s.filters s.held s.made → IsKept t.filters t.held t.made
unfolding bdev_filter_init bdev_filter_get
step-IsKept s _ (makes _ f new) k = record {
  distinct = k.distinct;
  refs =
      as_refs (bdev_filter_init f s.filters) s.filters.bdev_extension_list
        (bump f (refs_of s.filters.bdev_extension_list s.held))
        (refs_of s.filters.bdev_extension_list (bump f s.held)) (bump f s.made)
        (init-IsCounted s.filters (refs_of s.filters.bdev_extension_list s.held) s.made f k.refs
          new)
        (λ g. omega arith);
}
step-IsKept s _ (gets _ f mine) k = record {
  distinct = k.distinct;
  refs =
      as_refs (bdev_filter_get f s.filters) s.filters.bdev_extension_list
        (bump f (refs_of s.filters.bdev_extension_list s.held))
        (refs_of s.filters.bdev_extension_list (bump f s.held)) s.made
        (get-IsCounted s.filters (refs_of s.filters.bdev_extension_list s.held) s.made f k.refs
          (omega (arith, mine)))
        (λ g. omega arith);
}
step-IsKept s _ (puts _ f mine) k =
    let es = s.filters.bdev_extension_list in
    put-IsKept s.filters es (refs_of es s.held) (drop_one f s.held) s.made f k.refs
      (omega (arith, mine)) (λ g. ground (arith, mine)) k.distinct
step-IsKept s _ (looks_up _ d) k = look_up-IsKept s.filters s.held s.made d k
step-IsKept s _ (attaches_to _ alloc d f mine) k =
    attach-IsKept s.filters s.held s.made alloc d f k mine
step-IsKept s _ (detaches _ d) k = detach-IsKept s.filters s.held s.made d k

step_made : (s t : State) → Step s t → ((f : ℕ) → s.made f ≤ 1) → (f : ℕ) → t.made f ≤ 1
step_made s _ (makes _ f new) h g = ground (arith, h g, new)
step_made s _ (gets _ f mine) h g = h g
step_made s _ (puts _ f mine) h g = h g
step_made s _ (looks_up _ d) h g = h g
step_made s _ (attaches_to _ alloc d f mine) h g = h g
step_made s _ (detaches _ d) h g = h g

pub Steps-IsKept :
    (s t : State)
    → Steps s t
    → IsKept s.filters s.held s.made
    → ((f : ℕ) → s.made f ≤ 1)
    → IsKept t.filters t.held t.made × ((f : ℕ) → t.made f ≤ 1)
Steps-IsKept s _ (none_more _) k h = (k, h)
Steps-IsKept s u (next _ t _ before last) k h =
    let (k', h') = Steps-IsKept s t before k h in (step-IsKept t u last k', step_made t u last h')

pub unused-IsKept : IsKept unused.filters unused.held unused.made
unused-IsKept = record {
  distinct = λ dev. omega arith;
  refs = record { counted = λ f. refl; once = λ f. refl };
}

-- In any history of calls that do not overlap, in which threads make, look up, get, put, attach and
-- detach filters of block devices, each using a filter only while it holds a reference to it, and a
-- device's address coming back for another device or not: there is at most one extension for a device number; the counter of a filter is the
-- number of extensions that have it and of references held; a filter that is attached or held was
-- not released; and one that was made, and is neither attached nor held, was released exactly once.
pub released_once :
    (s : State) (f : ℕ)
    → Steps unused s
    → let es = s.filters.bdev_extension_list in
      ((dev : ℕ) → devices dev es ≤ 1)
      × (s.filters.kref f ≡ attached f es + s.held f)
      × (0 < attached f es + s.held f → times f s.filters.released ≡ 0)
      × (s.made f ≡ 1 → attached f es + s.held f ≡ 0 → times f s.filters.released ≡ 1)
released_once s f steps =
    let (k, h) = Steps-IsKept unused s steps unused-IsKept (λ _. omega arith) in
    (
      k.distinct,
      k.refs.counted f,
      (λ used. omega (arith, used, k.refs.once f, h f)),
      (λ made gone. omega (arith, made, gone, k.refs.once f)),
    )
