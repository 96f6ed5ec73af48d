-- ===== src/Storage/Room.antt =====
-- What the search of `diff_storage_new_region` (module/diff_storage.c) takes from the free sectors,
-- and when it finds a region.
use blksnap.Prelude.{
  ℕ, ◌+◌, ◌-◌, ◌≤◌, ◌≡◌, refl, sym, Bool, true, false, ◌&&◌, ◌||◌, inl, inr, Bool-cases, Option,
  none, some, List, [], ◌∷◌, ◌++◌, arith, ltb, leb, ◌==◌, if◌then◌else◌, All, leb→le,
}
use blksnap.Kernel.{add64}
use blksnap.Storage.{StorageBlock, DiffRegion, available, find_room}
use blksnap.Storage.Inv.{IsSane, available_lem, grown, region_in, find_room-fits, find_room-past}

-- Whether the `n` sectors of a device from `start` on hold the sector `s` of device `dev`, as 0 or 1.
abbrev pub covers : (bdev start n dev s : ℕ) → ℕ
covers bdev start n dev s = if (bdev == dev) && leb start s && ltb s (start + n) then 1 else 0

-- How many blocks have the sector among those that they have not used.
abbrev pub frees : List StorageBlock → (dev s : ℕ) → ℕ
frees [] dev s = 0
frees (b ∷ bs) dev s = covers b.bdev (b.sector + b.used) (b.count - b.used) dev s + frees bs dev s

-- Whether a region, if there is one, holds the sector.
abbrev pub holds : DiffRegion → (dev s : ℕ) → ℕ
holds r dev s = covers r.bdev r.sector r.count dev s

abbrev pub holds? : Option DiffRegion → (dev s : ℕ) → ℕ
holds? none dev s = 0
holds? (some r) dev s = holds r dev s

pub frees-append :
    (xs ys : List StorageBlock) (dev s : ℕ)
    → frees (xs ++ ys) dev s ≡ frees xs dev s + frees ys dev s
frees-append [] ys dev s = omega arith
frees-append (x ∷ xs) ys dev s = omega (arith, frees-append xs ys dev s)

-- A range splits in two.
covers-split :
    (bdev start n m dev s : ℕ)
    → m ≤ n
    → covers bdev start n dev s ≡ covers bdev start m dev s + covers bdev (start + m) (n - m) dev s
covers-split bdev start n m dev s h = ground arith

frees-grown :
    (count : ℕ) (b : StorageBlock) (dev s : ℕ)
    → IsSane b
    → count ≤ b.count - b.used
    → holds (region_in b count) dev s
        + covers b.bdev (b.sector + (grown b count).used) (b.count - (grown b count).used) dev s
      ≡ covers b.bdev (b.sector + b.used) (b.count - b.used) dev s
frees-grown count b dev s sane h =
    let used : add64 b.used count ≡ b.used + count = omega (arith, sane.used_in, sane.no_wrap) in
    let start : add64 b.sector b.used ≡ b.sector + b.used =
      omega (arith, sane.used_in, sane.no_wrap) in
    let split = covers-split b.bdev (b.sector + b.used) (b.count - b.used) count dev s h in
    let from : b.sector + (b.used + count) ≡ b.sector + b.used + count = omega arith in
    let left : b.count - (b.used + count) ≡ b.count - b.used - count = omega arith in
    rw (used, start, from, left) (sym split)

-- Every sector that the search hands out, and every one that is free after it, was free before, and
-- none of them is both: blocks that are too small for the region lose their rest.
pub find_room-frees :
    (count : ℕ) (empty full : List StorageBlock) (filled dev s : ℕ)
    → All IsSane empty
    → let r = find_room count empty full filled in
      holds? r.found dev s + frees r.empty dev s ≤ frees empty dev s
unfolding find_room
find_room-frees count [] full filled dev s sane = omega arith
find_room-frees count (b ∷ bs) full filled dev s (sane, rest) =
    elim (Bool-cases (leb count (available b))) [
      | inl fits ↦
          let room : count ≤ b.count - b.used =
            omega (arith, leb→le _ _ fits, available_lem b sane) in
          rw (find_room-fits count b bs full filled fits)
            (omega (arith, frees-grown count b dev s sane room))
      | inr past ↦ rw (find_room-past count b bs full filled past) (
          omega (
            arith,
            find_room-frees count bs (full ++ (b ∷ [])) (add64 filled (available b)) dev s rest,
          ))
    ]

-- How many blocks hold the sector, used or not.
abbrev pub spans : List StorageBlock → (dev s : ℕ) → ℕ
spans [] dev s = 0
spans (b ∷ bs) dev s = covers b.bdev b.sector b.count dev s + spans bs dev s

pub spans-append :
    (xs ys : List StorageBlock) (dev s : ℕ)
    → spans (xs ++ ys) dev s ≡ spans xs dev s + spans ys dev s
spans-append [] ys dev s = omega arith
spans-append (x ∷ xs) ys dev s = omega (arith, spans-append xs ys dev s)

-- The search moves blocks between the lists, and drops none.
pub find_room-spans :
    (count : ℕ) (empty full : List StorageBlock) (filled dev s : ℕ)
    → let r = find_room count empty full filled in
      spans r.empty dev s + spans r.full dev s ≡ spans empty dev s + spans full dev s
unfolding find_room
find_room-spans count [] full filled dev s = refl
find_room-spans count (b ∷ bs) full filled dev s = elim (Bool-cases (leb count (available b))) [
  | inl fits ↦ rw (find_room-fits count b bs full filled fits)
  | inr past ↦ rw (find_room-past count b bs full filled past) (
      omega (
        arith,
        find_room-spans count bs (full ++ (b ∷ [])) (add64 filled (available b)) dev s,
        spans-append full (b ∷ []) dev s,
      ))
]

-- Some block has room for the region.
abbrev pub has_room : ℕ → List StorageBlock → Bool
has_room count [] = false
has_room count (b ∷ bs) = leb (b.used + count) b.count || has_room count bs

-- The search finds a region, of the size asked for, exactly if some empty block has room for it.
pub find_room-found :
    (count : ℕ) (empty full : List StorageBlock) (filled : ℕ)
    → All IsSane empty
    → let r = find_room count empty full filled in
      (has_room count empty ≡ true → (g : DiffRegion) × (r.found ≡ some g) × (g.count ≡ count))
      × (has_room count empty ≡ false → r.found ≡ none)
unfolding find_room
find_room-found count [] full filled sane = ((λ h. absurd (ground arith)), λ _. refl)
find_room-found count (b ∷ bs) full filled (sane, rest) =
    elim (Bool-cases (leb count (available b))) [
      | inl fits ↦ rw (find_room-fits count b bs full filled fits) (
        (λ _. (region_in b count, refl, refl)),
        λ h. absurd (ground (arith, available_lem b sane, sane.used_in)),
      )
      | inr past ↦
          let ih = find_room-found count bs (full ++ (b ∷ [])) (add64 filled (available b)) rest in
          let small : leb (b.used + count) b.count ≡ false =
            ground (arith, available_lem b sane, sane.used_in) in
          rw (find_room-past count b bs full filled past, small) ih
    ]
