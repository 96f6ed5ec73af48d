-- ===== src/Storage.antt =====
-- module/diff_storage.c: the sectors of block devices that a snapshot stores its chunks in. The
-- spinlock makes each update of the lists one step. Memory, the clock, opened devices and
-- `copy_from_user` are arguments.
pub mod Inv
pub mod Room
pub mod Allocate
pub mod Append
pub mod History
mod Tests
use blksnap.Prelude.{
  ℕ, suc, ◌+◌, ◌-◌, ◌*◌, ◌/◌, Bool, true, false, not, ◌&&◌, Option, none, some, List, [], ◌∷◌, ◌++◌,
  ltb, leb, ◌==◌, if◌then◌else◌,
}
use blksnap.Kernel.{Errno, einval, enomem, enospc, Ret, ok, err, add64, sub64, Params}
use blksnap.Events
use blksnap.Events.{Event, EventQueue, event_gen, event_queue_done}

-- `struct storage_bdev`; a device is the number that its pointer stands for.
pub record StorageBdev : Type 0 where
  pub dev_id : ℕ
  pub bdev : ℕ

-- `struct storage_block`
pub record StorageBlock : Type 0 where
  pub bdev : ℕ
  pub sector : ℕ
  pub count : ℕ
  pub used : ℕ

-- `struct diff_region` (module/diff_io.h)
pub record DiffRegion : Type 0 where
  pub bdev : ℕ
  pub sector : ℕ
  pub count : ℕ

-- `struct diff_storage`
pub record DiffStorage : Type 0 where
  pub storage_bdevs : List StorageBdev
  pub empty_blocks : List StorageBlock
  pub filled_blocks : List StorageBlock
  pub capacity : ℕ
  pub filled : ℕ
  pub requested : ℕ
  pub low_space_flag : ℕ
  pub overflow_flag : ℕ
  pub event_queue : EventQueue

abbrev pub page_sectors : ℕ
page_sectors = 8

abbrev pub low_free_space : ℕ
low_free_space = 0

-- What the allocation of an event and the clock answer.
pub record Alarm : Type 0 where
  pub alloc : Bool
  pub time : ℕ

pub diff_storage_event_low : Params → Alarm → DiffStorage → DiffStorage
unfolding event_gen
diff_storage_event_low P a d = record d {
  requested = add64 d.requested P.diff_storage_minimum;
  event_queue =
      (event_gen a.alloc a.time d.event_queue low_free_space (P.diff_storage_minimum ∷ [])).1;
}

-- `none` is the null pointer.
unfoldable pub diff_storage_new : Params → (alloc : Bool) → Alarm → Option DiffStorage
unfolding diff_storage_event_low
diff_storage_new P false a = none
diff_storage_new P true a = some (
    diff_storage_event_low P a (record {
      storage_bdevs = [];
      empty_blocks = [];
      filled_blocks = [];
      capacity = 0;
      filled = 0;
      requested = 0;
      low_space_flag = 0;
      overflow_flag = 0;
      event_queue = [];
    }))

pub first_empty_storage_block : DiffStorage → Option StorageBlock
first_empty_storage_block d = elim d.empty_blocks [ [] ↦ none | b ∷ _ ↦ some b ]

-- The loop of `diff_storage_bdev_by_id`.
pub bdev_by_id : List StorageBdev → ℕ → Option ℕ
bdev_by_id [] dev_id = none
bdev_by_id (b ∷ bs) dev_id = if b.dev_id == dev_id then some b.bdev else bdev_by_id bs dev_id

pub diff_storage_bdev_by_id : DiffStorage → ℕ → Option ℕ
unfolding bdev_by_id
diff_storage_bdev_by_id d dev_id = bdev_by_id d.storage_bdevs dev_id

-- What `blkdev_get_by_dev` answers.
pub data Opened : Type 0 where
  opened : (bdev : ℕ) → Opened
  refused : Errno → Opened

pub data Added : Type 0 where
  device : (bdev : ℕ) → Added
  error : Errno → Added

pub diff_storage_add_storage_bdev : Opened → (alloc : Bool) → DiffStorage → ℕ → Added × DiffStorage
diff_storage_add_storage_bdev (refused e) alloc d dev_id = (error e, d)
diff_storage_add_storage_bdev (opened bdev) false d dev_id = (error enomem, d)
diff_storage_add_storage_bdev (opened bdev) true d dev_id = (
  device bdev,
  record d { storage_bdevs = d.storage_bdevs ++ (record { dev_id = dev_id; bdev = bdev } ∷ []) },
)

pub diff_storage_add_range :
    (alloc : Bool) → DiffStorage → (bdev sector count : ℕ) → Ret × DiffStorage
diff_storage_add_range false d bdev sector count = (err enomem, d)
diff_storage_add_range true d bdev sector count = (
  ok,
  record d {
    empty_blocks =
        d.empty_blocks ++ (record { bdev = bdev; sector = sector; count = count; used = 0 } ∷ []);
    capacity = add64 d.capacity count;
  },
)

-- A range of user space: whether it can be copied, whether a block can be allocated for it, and
-- what it holds.
pub record UserRange : Type 0 where
  pub copied : Bool
  pub alloc : Bool
  pub sector_offset : ℕ
  pub sector_count : ℕ

-- The loop of `diff_storage_append_block`.
pub add_ranges : DiffStorage → (bdev : ℕ) → List UserRange → Ret × DiffStorage
unfolding diff_storage_add_range
add_ranges d bdev [] = (ok, d)
add_ranges d bdev (r ∷ rs) = elim r.copied [
  | false ↦ (err einval, d)
  | true ↦
      let (ret, d') = diff_storage_add_range r.alloc d bdev r.sector_offset r.sector_count in
      elim ret [ ok ↦ add_ranges d' bdev rs | err e ↦ (err e, d') ]
]

-- What follows the loop.
pub clear_low_space : DiffStorage → DiffStorage
clear_low_space d =
    if not (d.low_space_flag == 0) && leb d.requested d.capacity
    then record d { low_space_flag = 0 }
    else d

pub finish_append : Ret × DiffStorage → Ret × DiffStorage
finish_append (ok, d) = (ok, clear_low_space d)
finish_append (err e, d) = (err e, d)

pub append_to : DiffStorage → (bdev : ℕ) → List UserRange → Ret × DiffStorage
append_to d bdev ranges = finish_append (add_ranges d bdev ranges)

-- The rest of `diff_storage_append_block` after a device had to be added.
pub append_added : Added × DiffStorage → List UserRange → Ret × DiffStorage
unfolding append_to
append_added (error e, d) ranges = (err e, d)
append_added (device bdev, d) ranges = append_to d bdev ranges

pub diff_storage_append_block :
    Opened → (bdev_alloc : Bool) → DiffStorage → (dev_id : ℕ) → List UserRange → Ret × DiffStorage
unfolding append_to diff_storage_add_storage_bdev append_added
diff_storage_append_block o bdev_alloc d dev_id ranges = elim (diff_storage_bdev_by_id d dev_id) [
  | some bdev ↦ append_to d bdev ranges
  | none ↦ append_added (diff_storage_add_storage_bdev o bdev_alloc d dev_id) ranges
]

-- `diff_storage_minimum >> 1`, with the bits below a page of sectors cleared.
pub is_halffull : Params → ℕ → Bool
is_halffull P sectors_left =
    leb sectors_left (P.diff_storage_minimum / 2 / page_sectors * page_sectors)

-- The state of the loop of `diff_storage_new_region` when it stops.
pub record Search : Type 0 where
  pub found : Option DiffRegion
  pub empty : List StorageBlock
  pub full : List StorageBlock
  pub total : ℕ

abbrev pub available : StorageBlock → ℕ
available b = sub64 b.count b.used

-- Each round takes the first empty block: it has room for the region, or it goes to the filled ones.
pub find_room : (count : ℕ) → (empty full : List StorageBlock) → (filled : ℕ) → Search
find_room count [] full filled = record { found = none; empty = []; full = full; total = filled }
find_room count (b ∷ bs) full filled = elim (leb count (available b)) [
  | true ↦ record {
    found = some (record { bdev = b.bdev; sector = add64 b.sector b.used; count = count });
    empty = record b { used = add64 b.used count } ∷ bs;
    full = full;
    total = add64 filled count;
  }
  | false ↦ find_room count bs (full ++ (b ∷ [])) (add64 filled (available b))
]

pub data Region : Type 0 where
  region : DiffRegion → Region
  error : Errno → Region

-- The lists and totals after the search.
pub searched : DiffStorage → Search → DiffStorage
searched d s = record d { empty_blocks = s.empty; filled_blocks = s.full; filled = s.total }

-- What follows a region that was found.
pub warn_low_space : Params → Alarm → DiffStorage → DiffStorage
unfolding is_halffull diff_storage_event_low
warn_low_space P a d =
    if is_halffull P (sub64 d.requested d.filled)
    then (let d' = record d { low_space_flag = d.low_space_flag + 1 } in
        if d'.low_space_flag == 1 then diff_storage_event_low P a d' else d')
    else d

pub diff_storage_new_region :
    Params → (alloc : Bool) → Alarm → DiffStorage → (count : ℕ) → Region × DiffStorage
unfolding searched
diff_storage_new_region P alloc a d count =
    if not (d.overflow_flag == 0)
    then (error enospc, d)
    else if not alloc
    then (error enomem, d)
    else let s = find_room count d.empty_blocks d.filled_blocks d.filled in
      let d' = searched d s in
      elim s.found [
        | none ↦ (error enospc, record d' { overflow_flag = d.overflow_flag + 1 })
        | some r ↦ (region r, warn_low_space P a d')
      ]

put_all : List StorageBdev → List ℕ
put_all [] = []
put_all (s ∷ ss) = s.bdev ∷ put_all ss

-- The storage with its blocks, devices and events freed, the devices that were put, in order, and
-- the events.
pub diff_storage_free : DiffStorage → DiffStorage × List ℕ × List Event
unfolding put_all
diff_storage_free d = (
  record d { empty_blocks = []; filled_blocks = []; storage_bdevs = []; event_queue = [] },
  put_all d.storage_bdevs,
  event_queue_done d.event_queue,
)
