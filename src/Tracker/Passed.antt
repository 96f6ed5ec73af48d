-- ===== src/Tracker/Passed.antt =====
-- What a write that a tracker (module/tracker.c) lets pass leaves behind it: its blocks are marked,
-- and its chunks are kept.
use blksnap.Prelude.{ℕ, ◌+◌, ◌/◌, ◌^◌, ◌≤◌, ◌<◌, ◌≡◌, ◌⊎◌, true, some}
use blksnap.Kernel.{Params, Rounding}
use blksnap.Cbt.{CbtMap}
use blksnap.Cbt.Inv.{byte, covers}
use blksnap.Area.Data.{DiffArea, Answers}
use blksnap.Area.Copy.Loop.{IsSafe}
use blksnap.Tracker.{
  Tracker, Bio, Submitted, passes, completed, waits, faults, out_of_fuel, Outside, sector_of,
}

-- The blocks of the range are marked as changed in the map of the tracker.
abbrev pub Marked : CbtMap → (start cnt : ℕ) → Tracker → Type 0
Marked c start cnt t =
    (c' : CbtMap) × (t.cbt_map ≡ some c')
    × ((j : ℕ)
        → j < c.blk_count
        → covers c start cnt j ≡ true
        → c.snap_number_active ≤ byte c'.write_map j)

-- The chunk of each sector of the range is in a safe phase, or the area is marked as corrupted, or
-- the thread was killed while it waited for a chunk.
abbrev pub Kept : (i start cnt : ℕ) → (ℕ → Answers) → Tracker → Type 0
Kept i start cnt k t =
    (a : DiffArea) × (t.diff_area ≡ some a)
    × (((s : ℕ) → start ≤ s → s < start + cnt → IsSafe a (s / 2 ^ i))
        ⊎ ((a.corrupt_flag ≡ true) ⊎ ((j : ℕ) × ((k j).killed ≡ true))))

abbrev pub Protected : (i start cnt : ℕ) → CbtMap → (ℕ → Answers) → Submitted → Type 0
Protected i start cnt c k (passes t) = Marked c start cnt t × Kept i start cnt k t
Protected i start cnt c k (completed t) = Marked c start cnt t
Protected i start cnt c k (waits t) = Marked c start cnt t
Protected i start cnt c k faults = ⊥
Protected i start cnt c k out_of_fuel = ⊥

module _ (K : Rounding) (P : Params) (o : Outside) (i : ℕ) (c : CbtMap) (t : Tracker) (b : Bio)
    (marked : Marked c (sector_of b) b.sectors t) where
  abbrev Good : Submitted → Type 0
  Good = Protected i (sector_of b) b.sectors c o.copying
