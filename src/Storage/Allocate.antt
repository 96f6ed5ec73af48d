-- ===== src/Storage/Allocate.antt =====
-- `diff_storage_new_region` of module/diff_storage.c as a whole: its result, what it keeps, and the
-- warning about low space.
use blksnap.Prelude.{
  ℕ, ◌+◌, ◌≤◌, ◌≡◌, ◌≢◌, refl, ◌∙◌, Bool, true, false, Option, none, some, [], ◌∷◌, arith, length,
  length-append,
}
use native.Mathlib.Decide.{ℕ_discrete}
use blksnap.Kernel.{enospc, enomem, Params}
use blksnap.Storage.{
  DiffRegion, DiffStorage, Search, Alarm, Region, region, error, find_room, warn_low_space,
  low_free_space, diff_storage_new_region,
}
use blksnap.Storage.Inv.{IsValid, find_room-AreBlocks}
use blksnap.Storage.Room.{
  frees, holds, spans, has_room, find_room-frees, find_room-spans, find_room-found,
}

-- What a call gives out.
abbrev pub given : Region → (dev s : ℕ) → ℕ
given (region r) dev s = holds r dev s
given (error _) dev s = 0

abbrev pub search : DiffStorage → ℕ → Search
search d count = find_room count d.empty_blocks d.filled_blocks d.filled

-- A warning changes neither the lists nor the totals of the blocks.
pub warn-keeps :
    (P : Params) (a : Alarm) (d : DiffStorage)
    → let d' = warn_low_space P a d in
      (d'.empty_blocks ≡ d.empty_blocks)
      × (d'.filled_blocks ≡ d.filled_blocks)
      × (d'.filled ≡ d.filled)
      × (d'.capacity ≡ d.capacity)
      × (d'.overflow_flag ≡ d.overflow_flag)
unfolding warn_low_space
warn-keeps P a d = ground arith

-- The three ways through a call.
new_region-overflowed :
    (P : Params) (alloc : Bool) (a : Alarm) (d : DiffStorage) (count : ℕ)
    → d.overflow_flag ≢ 0
    → diff_storage_new_region P alloc a d count ≡ (error enospc, d)
unfolding diff_storage_new_region
new_region-overflowed P alloc a d count h = ground arith

new_region-starved :
    (P : Params) (a : Alarm) (d : DiffStorage) (count : ℕ)
    → d.overflow_flag ≡ 0
    → diff_storage_new_region P false a d count ≡ (error enomem, d)
unfolding diff_storage_new_region
new_region-starved P a d count h = ground arith

abbrev after : DiffStorage → ℕ → DiffStorage
after d count =
    let s = search d count in
    record d { empty_blocks = s.empty; filled_blocks = s.full; filled = s.total }

new_region-found :
    (P : Params) (a : Alarm) (d : DiffStorage) (count : ℕ) (r : DiffRegion)
    → d.overflow_flag ≡ 0
    → (search d count).found ≡ some r
    → diff_storage_new_region P true a d count ≡ (region r, warn_low_space P a (after d count))
unfolding diff_storage_new_region
new_region-found P a d count r h found = ground arith

new_region-none :
    (P : Params) (a : Alarm) (d : DiffStorage) (count : ℕ)
    → d.overflow_flag ≡ 0
    → (search d count).found ≡ none
    → diff_storage_new_region P true a d count
      ≡ (error enospc, record (after d count) { overflow_flag = 1 })
unfolding diff_storage_new_region
new_region-none P a d count h found = ground arith

warn-AreBlocks :
    (P : Params) (a : Alarm) (d : DiffStorage) → IsValid d → IsValid (warn_low_space P a d)
warn-AreBlocks P a d v =
    let (empty, full, filled, capacity, _) = warn-keeps P a d in
    rw (empty, full, filled, capacity) v

-- A step of the low space warning: an event, at most one, comes only where the flag leaves 0.
pub record Warns (d d' : DiffStorage) : Type 0 where
  pub again : d.low_space_flag ≢ 0 → (d'.event_queue ≡ d.event_queue) × (d'.low_space_flag ≢ 0)
  pub quiet : d'.low_space_flag ≡ 0 → d'.event_queue ≡ d.event_queue
  pub once : length d'.event_queue ≤ length d.event_queue + 1

Warns-refl : (d : DiffStorage) → Warns d d
Warns-refl d = record { again = λ h. (refl, h); quiet = λ _. refl; once = omega arith }

warn-Warns : (P : Params) (a : Alarm) (d : DiffStorage) → Warns d (warn_low_space P a d)
unfolding warn_low_space
warn-Warns P a d = record {
  again = λ h. ground arith;
  quiet = λ h. ground arith;
  once = ground (
    arith,
    length-append d.event_queue
        (record { time = a.time; code = low_free_space; body = P.diff_storage_minimum ∷ [] } ∷ []),
  );
}

pub new_region-Warns :
    (P : Params) (alloc : Bool) (a : Alarm) (d : DiffStorage) (count : ℕ)
    → Warns d (diff_storage_new_region P alloc a d count).1
new_region-Warns P alloc a d count = elim (ℕ_discrete d.overflow_flag 0) [
  | no h ↦ rw (new_region-overflowed P alloc a d count h) (Warns-refl d)
  | yes h ↦ go alloc h (search d count).found refl
]
  where
    go :
        (alloc : Bool)
        → d.overflow_flag ≡ 0
        → (o : Option DiffRegion) → (search d count).found ≡ o
        → Warns d (diff_storage_new_region P alloc a d count).1
    go false h o found = rw (new_region-starved P a d count h) (Warns-refl d)
    go true h none found =
        rw (new_region-none P a d count h found)
          (record { again = λ n. (refl, n); quiet = λ _. refl; once = omega arith })
    go true h (some r) found =
        let w = warn-Warns P a (after d count) in
        rw (new_region-found P a d count r h found)
          (record { again = w.again; quiet = w.quiet; once = w.once })

-- The blocks are the same, used or not.
pub new_region-spans :
    (P : Params) (alloc : Bool) (a : Alarm) (d : DiffStorage) (count dev s : ℕ)
    → let d' = (diff_storage_new_region P alloc a d count).1 in
      spans d'.empty_blocks dev s + spans d'.filled_blocks dev s
      ≡ spans d.empty_blocks dev s + spans d.filled_blocks dev s
new_region-spans P alloc a d count dev s = elim (ℕ_discrete d.overflow_flag 0) [
  | no h ↦ rw (new_region-overflowed P alloc a d count h)
  | yes h ↦ go alloc h (search d count).found refl
]
  where
    kept :
        spans (after d count).empty_blocks dev s + spans (after d count).filled_blocks dev s
        ≡ spans d.empty_blocks dev s + spans d.filled_blocks dev s
    kept = find_room-spans count d.empty_blocks d.filled_blocks d.filled dev s

    go :
        (alloc : Bool)
        → d.overflow_flag ≡ 0
        → (o : Option DiffRegion) → (search d count).found ≡ o
        → let d' = (diff_storage_new_region P alloc a d count).1 in
          spans d'.empty_blocks dev s + spans d'.filled_blocks dev s
          ≡ spans d.empty_blocks dev s + spans d.filled_blocks dev s
    go false h o found = rw (new_region-starved P a d count h)
    go true h none found = rw (new_region-none P a d count h found) kept
    go true h (some r) found =
        let (empty, full, _, _, _) = warn-keeps P a (after d count) in
        rw (new_region-found P a d count r h found, empty, full) kept

-- Whatever the allocator answers, a call on a valid storage leaves a valid storage of the same
-- capacity, and the sectors that it gives out and those that are free after it were free before,
-- each once.
pub new_region-IsValid :
    (P : Params) (alloc : Bool) (a : Alarm) (d : DiffStorage) (count : ℕ)
    → IsValid d
    → let (out, d') = diff_storage_new_region P alloc a d count in
      IsValid d'
      × (d'.capacity ≡ d.capacity)
      × ((dev s : ℕ) → given out dev s + frees d'.empty_blocks dev s ≤ frees d.empty_blocks dev s)
new_region-IsValid P alloc a d count v = elim (ℕ_discrete d.overflow_flag 0) [
  | no h ↦ rw (new_region-overflowed P alloc a d count h) (v, refl, λ dev s. omega arith)
  | yes h ↦ go alloc h (search d count).found refl
]
  where
    blocks : IsValid (after d count)
    blocks = find_room-AreBlocks count d.empty_blocks d.filled_blocks d.filled d.capacity v

    go :
        (alloc : Bool)
        → d.overflow_flag ≡ 0
        → (o : Option DiffRegion) → (search d count).found ≡ o
        → let (out, d') = diff_storage_new_region P alloc a d count in
          IsValid d'
          × (d'.capacity ≡ d.capacity)
          × ((dev s : ℕ)
              → given out dev s + frees d'.empty_blocks dev s ≤ frees d.empty_blocks dev s)
    go false h o found = rw (new_region-starved P a d count h) (v, refl, λ dev s. omega arith)
    go true h none found = rw (new_region-none P a d count h found) (
      record {
        sane_empty = blocks.sane_empty;
        sane_full = blocks.sane_full;
        filled_sum = blocks.filled_sum;
        capacity_sum = blocks.capacity_sum;
        small = blocks.small;
      },
      refl,
      λ dev s.
          omega (
            arith,
            find_room-frees count d.empty_blocks d.filled_blocks d.filled dev s v.sane_empty,
          ),
    )
    go true h (some r) found =
        let (empty, full, filled, capacity, _) = warn-keeps P a (after d count) in
        rw (new_region-found P a d count r h found) (
          warn-AreBlocks P a (after d count) blocks,
          capacity,
          λ dev s. rw empty (
              let f =
                find_room-frees count d.empty_blocks d.filled_blocks d.filled dev s v.sane_empty in
              rw found at f),
        )

-- With memory at hand and no overflow before, a call gives out a region of the size asked for if
-- some empty block has room for it; if none has, it fails with ENOSPC, and from then on every call
-- fails with ENOSPC and changes nothing.
pub new_region_result :
    (P : Params) (a : Alarm) (d : DiffStorage) (count : ℕ)
    → IsValid d
    → d.overflow_flag ≡ 0
    → let (out, d') = diff_storage_new_region P true a d count in
      (has_room count d.empty_blocks ≡ true
        → (r : DiffRegion) × (out ≡ region r) × (r.count ≡ count) × (d'.overflow_flag ≡ 0))
      × (has_room count d.empty_blocks ≡ false
          → (out ≡ error enospc)
            × ((alloc : Bool) (b : Alarm) (n : ℕ)
                → diff_storage_new_region P alloc b d' n ≡ (error enospc, d')))
new_region_result P a d count v h =
    let (room, full) = find_room-found count d.empty_blocks d.filled_blocks d.filled v.sane_empty in
    (
      (λ e.
          let (r, found, size) = room e in
          let (_, _, _, _, overflow) = warn-keeps P a (after d count) in
          rw (new_region-found P a d count r h found) (r, refl, size, overflow ∙ h)),
      λ e.
          rw (new_region-none P a d count h (full e))
            (refl, λ alloc b n. new_region-overflowed P alloc b _ n (λ z. absurd (omega arith))),
    )
