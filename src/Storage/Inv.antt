-- ===== src/Storage/Inv.antt =====
-- The invariant of `struct diff_storage` (module/diff_storage.c): blocks used within their size, and
-- totals that agree with the lists.
use blksnap.Prelude.{
  ℕ, ◌+◌, ◌-◌, ◌^◌, ◌≤◌, ◌<◌, ◌≡◌, true, false, inl, inr, Bool-cases, some, List, [], ◌∷◌, ◌++◌,
  arith, leb, All, All-append, leb→le,
}
use blksnap.Kernel.{add64}
use blksnap.Storage.{StorageBlock, DiffRegion, DiffStorage, available, find_room}

-- A block whose used part lies in it, and whose sectors do not wrap.
pub record IsSane (b : StorageBlock) : Type 0 where
  pub used_in : b.used ≤ b.count
  pub no_wrap : b.sector + b.count < 2 ^ 64

abbrev pub count_sum : List StorageBlock → ℕ
count_sum [] = 0
count_sum (b ∷ bs) = b.count + count_sum bs

abbrev pub used_sum : List StorageBlock → ℕ
used_sum [] = 0
used_sum (b ∷ bs) = b.used + used_sum bs

pub count_sum-append :
    (xs ys : List StorageBlock) → count_sum (xs ++ ys) ≡ count_sum xs + count_sum ys
count_sum-append [] ys = omega arith
count_sum-append (x ∷ xs) ys = omega (arith, count_sum-append xs ys)

pub used_sum-append : (xs ys : List StorageBlock) → used_sum (xs ++ ys) ≡ used_sum xs + used_sum ys
used_sum-append [] ys = omega arith
used_sum-append (x ∷ xs) ys = omega (arith, used_sum-append xs ys)

-- The lists and totals: what was stored in the empty blocks and all of the filled ones counts as
-- filled, and all blocks together make up the capacity.
pub record AreBlocks (empty full : List StorageBlock) (filled capacity : ℕ) : Type 0 where
  pub sane_empty : All IsSane empty
  pub sane_full : All IsSane full
  pub filled_sum : filled ≡ used_sum empty + count_sum full
  pub capacity_sum : capacity ≡ count_sum empty + count_sum full
  pub small : capacity < 2 ^ 64

abbrev pub IsValid : DiffStorage → Type 0
IsValid d = AreBlocks d.empty_blocks d.filled_blocks d.filled d.capacity

pub used-le-count : (bs : List StorageBlock) → All IsSane bs → used_sum bs ≤ count_sum bs
used-le-count [] h = omega arith
used-le-count (b ∷ bs) (s, h) = omega (arith, s.used_in, used-le-count bs h)

-- No more is filled than there is.
pub filled-le-capacity : (d : DiffStorage) → IsValid d → d.filled ≤ d.capacity
filled-le-capacity d v = omega (arith, used-le-count d.empty_blocks v.sane_empty)

pub available_lem : (b : StorageBlock) → IsSane b → available b ≡ b.count - b.used
available_lem b s = omega arith

-- The two steps of the search.
abbrev pub grown : StorageBlock → ℕ → StorageBlock
grown b count = record b { used = add64 b.used count }

abbrev pub region_in : StorageBlock → ℕ → DiffRegion
region_in b count = record { bdev = b.bdev; sector = add64 b.sector b.used; count = count }

pub find_room-fits :
    (count : ℕ) (b : StorageBlock) (bs full : List StorageBlock) (filled : ℕ)
    → leb count (available b) ≡ true
    → find_room count (b ∷ bs) full filled ≡ record {
      found = some (region_in b count);
      empty = grown b count ∷ bs;
      full = full;
      total = add64 filled count;
    }
unfolding find_room
find_room-fits count b bs full filled h = rw (h, find_room)

pub find_room-past :
    (count : ℕ) (b : StorageBlock) (bs full : List StorageBlock) (filled : ℕ)
    → leb count (available b) ≡ false
    → find_room count (b ∷ bs) full filled
      ≡ find_room count bs (full ++ (b ∷ [])) (add64 filled (available b))
unfolding find_room
find_room-past count b bs full filled h = rw (h, find_room)

AreBlocks-grown :
    (count : ℕ) (b : StorageBlock) (bs full : List StorageBlock) (filled capacity : ℕ)
    → leb count (available b) ≡ true
    → AreBlocks (b ∷ bs) full filled capacity
    → AreBlocks (grown b count ∷ bs) full (add64 filled count) capacity
AreBlocks-grown count b bs full filled capacity fits a =
    let (sane, rest) = a.sane_empty in
    let room : count ≤ b.count - b.used = omega (arith, leb→le _ _ fits, available_lem b sane) in
    let used : add64 b.used count ≡ b.used + count = omega (arith, sane.used_in, sane.no_wrap) in
    let below = used-le-count bs rest in
    record {
      sane_empty = (record { used_in = omega (arith, sane.used_in); no_wrap = sane.no_wrap }, rest);
      sane_full = a.sane_full;
      filled_sum = omega (arith, a.filled_sum, a.capacity_sum, a.small, sane.used_in);
      capacity_sum = a.capacity_sum;
      small = a.small;
    }

AreBlocks-moved :
    (b : StorageBlock) (bs full : List StorageBlock) (filled capacity : ℕ)
    → AreBlocks (b ∷ bs) full filled capacity
    → AreBlocks bs (full ++ (b ∷ [])) (add64 filled (available b)) capacity
AreBlocks-moved b bs full filled capacity a =
    let (sane, rest) = a.sane_empty in
    let room = available_lem b sane in
    let below = used-le-count bs rest in
    let counts = count_sum-append full (b ∷ []) in
    record {
      sane_empty = rest;
      sane_full = All-append IsSane full (b ∷ []) a.sane_full (sane, tt);
      filled_sum = omega (arith, a.filled_sum, a.capacity_sum, a.small, sane.used_in);
      capacity_sum = omega (arith, a.capacity_sum);
      small = a.small;
    }

-- The search keeps the invariant and the capacity.
pub find_room-AreBlocks :
    (count : ℕ) (empty full : List StorageBlock) (filled capacity : ℕ)
    → AreBlocks empty full filled capacity
    → let s = find_room count empty full filled in AreBlocks s.empty s.full s.total capacity
unfolding find_room
find_room-AreBlocks count [] full filled capacity a = a
find_room-AreBlocks count (b ∷ bs) full filled capacity a =
    elim (Bool-cases (leb count (available b))) [
      | inl fits ↦
          rw (find_room-fits count b bs full filled fits)
            (AreBlocks-grown count b bs full filled capacity fits a)
      | inr past ↦ rw (find_room-past count b bs full filled past) (
          find_room-AreBlocks count bs (full ++ (b ∷ [])) (add64 filled (available b)) capacity
            (AreBlocks-moved b bs full filled capacity a))
    ]
