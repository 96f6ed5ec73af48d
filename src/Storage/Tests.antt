-- ===== src/Storage/Tests.antt =====
-- Runs of module/diff_storage.c with a storage of two blocks, and the theorems at them.
use blksnap.Prelude.{ℕ, ◌+◌, ◌≤◌, ◌≡◌, refl, Bool, true, false, some, List, [], ◌∷◌, arith}
use blksnap.Kernel.{err, enospc, enomem, default_params}
use blksnap.Storage.{
  StorageBlock, DiffRegion, DiffStorage, UserRange, Alarm, opened, region, error, diff_storage_new,
  diff_storage_new_region, diff_storage_append_block, find_room, warn_low_space, add_ranges,
  finish_append, diff_storage_bdev_by_id,
}
use blksnap.Storage.Inv.{IsValid}
use blksnap.Storage.Room.{frees, spans}
use blksnap.Storage.Allocate.{given, new_region-IsValid, new_region_result}
use blksnap.Storage.Append.{Grown, append_block-Grown}
use blksnap.Storage.History.{Call, allocate, append, run, taken, handed_out_once}

abbrev alarm : Alarm
alarm = record { alloc = true; time = 9 }

abbrev small : StorageBlock
small = record { bdev = 1; sector = 100; count = 20; used = 16 }

abbrev large : StorageBlock
large = record { bdev = 2; sector = 0; count = 64; used = 0 }

abbrev storage : DiffStorage
storage = record {
  storage_bdevs = record { dev_id = 7; bdev = 1 } ∷ [];
  empty_blocks = small ∷ large ∷ [];
  filled_blocks = [];
  capacity = 84;
  filled = 16;
  requested = 4194304;
  low_space_flag = 0;
  overflow_flag = 0;
  event_queue = [];
}

storage-IsValid : IsValid storage
storage-IsValid = omega arith

-- The rest of the small block is lost, and the region starts the large one.
takes_the_large_block : diff_storage_new_region default_params true alarm storage 8 ≡ (
  region (record { bdev = 2; sector = 0; count = 8 }),
  record storage {
    empty_blocks = record large { used = 8 } ∷ [];
    filled_blocks = small ∷ [];
    filled = 28;
  },
)
unfolding diff_storage_new_region find_room warn_low_space
takes_the_large_block = refl

abbrev ranges : List UserRange
ranges =
    record { copied = true; alloc = true; sector_offset = 500; sector_count = 32 }
    ∷ record { copied = true; alloc = false; sector_offset = 600; sector_count = 32 }
    ∷ []

second_range_fails : diff_storage_append_block (opened 1) true storage 7 ranges ≡ (
  err enomem,
  record storage {
    empty_blocks = small ∷ large ∷ record { bdev = 1; sector = 500; count = 32; used = 0 } ∷ [];
    capacity = 116;
  },
)
unfolding diff_storage_append_block add_ranges finish_append diff_storage_bdev_by_id
second_range_fails = refl

abbrev calls : List Call
calls =
    append (opened 3) true 8
      (record { copied = true; alloc = true; sector_offset = 40; sector_count = 16 } ∷ [])
    ∷ allocate true alarm 8
    ∷ allocate true alarm 8
    ∷ allocate true alarm 8
    ∷ []

new_region-IsValid_example :
    let (out, d') = diff_storage_new_region default_params true alarm storage 8 in
    IsValid d'
    × (d'.capacity ≡ 84)
    × ((dev s : ℕ)
        → given out dev s + frees d'.empty_blocks dev s ≤ frees (small ∷ large ∷ []) dev s)
new_region-IsValid_example = new_region-IsValid default_params true alarm storage 8 storage-IsValid

new_region_result_example :
    let (out, d') = diff_storage_new_region default_params true alarm storage 80 in
    (◌≡◌ {A = Bool} false true
      → (r : DiffRegion) × (out ≡ region r) × (r.count ≡ 80) × (d'.overflow_flag ≡ 0))
    × (◌≡◌ {A = Bool} false false
        → (out ≡ error enospc)
          × ((alloc : Bool) (b : Alarm) (n : ℕ)
              → diff_storage_new_region default_params alloc b d' n ≡ (error enospc, d')))
new_region_result_example = new_region_result default_params alarm storage 80 storage-IsValid refl

append_block-Grown_example :
    Grown storage 64 (diff_storage_append_block (opened 1) true storage 7 ranges).1
append_block-Grown_example =
    append_block-Grown (opened 1) true storage 7 ranges storage-IsValid (omega arith) (omega arith)

handed_out_once_example :
    (d : DiffStorage) × (diff_storage_new default_params true alarm ≡ some d)
    × (let (out, d') = run default_params d calls in
        IsValid d'
        × ((dev s : ℕ)
            → taken out dev s + frees d'.empty_blocks dev s
              ≤ spans d'.empty_blocks dev s + spans d'.filled_blocks dev s)
        × ((dev s : ℕ)
            → spans d'.empty_blocks dev s + spans d'.filled_blocks dev s ≤ 1
            → taken out dev s ≤ 1))
handed_out_once_example = handed_out_once default_params alarm calls (omega arith) (omega arith)

abbrev allocations : List Call
allocations = allocate true alarm 8 ∷ allocate true alarm 80 ∷ []
