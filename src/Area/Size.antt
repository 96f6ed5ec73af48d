-- ===== src/Area/Size.antt =====
-- The size of a chunk and the making of the area: `diff_area_calculate_chunk_size`,
-- `recalculate_last_chunk_size` and `diff_area_new` of module/diff_area.c.
pub mod Choice
pub mod Made
use blksnap.Prelude.{
  ℕ, zero, suc, ◌+◌, ◌-◌, ◌*◌, ◌/◌, ◌^◌, Bool, true, false, not, ◌||◌, Option, none, some, List, [],
  ◌∷◌, ◌++◌, ltb, ◌==◌, if◌then◌else◌, get_elem?, length,
}
use blksnap.Kernel.{
  Errno, enomem, efault, Ret, ok, err, sub64, u64, shl_one, sector_shift, Rounding, Params,
}
use blksnap.Storage.{DiffStorage}
use blksnap.Buffer.{BufferPool}
use blksnap.Area.Data.{Chunk, DiffArea, diff_area_chunk_sectors, store, up}
use blksnap.Area.Chunk.{chunk_alloc}

-- What the kernel says of the original device; the least I/O is in bytes.
pub record OrigBdev : Type 0 where
  pub dev : ℕ
  pub bdev_nr_sectors : ℕ
  pub bdev_io_min : ℕ

-- What `diff_area_new` comes to. With an error, `left` says that the structure and the open device
-- stay behind; `wild`: the code reads a chunk through a pointer that was never set; `no_fuel`: the
-- loop over the sizes runs longer than its fuel.
pub data Outcome : Type 0 where
  area : DiffArea → Outcome
  error : Errno → (left : Bool) → Outcome
  wild no_fuel : Outcome

-- The answers of the kernel in it.
pub record Making : Type 0 where
  pub opened : Ret
  pub area_alloc : Bool
  pub chunk_alloc_ok : ℕ → Bool
  pub insert : ℕ → Ret

abbrev pub new_area : OrigBdev → DiffStorage → (shift count : ℕ) → DiffArea
new_area bdev d shift count = record {
  orig_bdev = bdev.dev;
  diff_storage = d;
  chunk_shift = shift;
  chunk_count = count;
  chunk_map = [];
  read_cache_queue = [];
  read_cache_count = 0;
  write_cache_queue = [];
  write_cache_count = 0;
  cache_release_work = false;
  pool = record { free_diff_buffers = []; free_diff_buffers_count = 0 };
  corrupt_flag = false;
  pending_io_count = 0;
}

module _ (K : Rounding) (P : Params) where
  pub count_by_shift : (capacity shift : ℕ) → ℕ
  count_by_shift capacity shift =
      let shift_sector = sub64 shift sector_shift in
      K.round_up capacity (shl_one shift_sector) / 2 ^ shift_sector

  -- The while loop of `diff_area_calculate_chunk_size`; `none` if it runs longer than its fuel.
  pub chunk_size_loop : (fuel capacity min_io_sect shift count : ℕ) → Option (ℕ × ℕ)
  chunk_size_loop zero capacity min_io_sect shift count = none
  chunk_size_loop (suc fuel) capacity min_io_sect shift count =
      elim (ltb P.chunk_maximum_count count
        || ltb (shl_one (sub64 shift sector_shift)) min_io_sect) [
          | true ↦
              chunk_size_loop fuel capacity min_io_sect (u64 (shift + 1))
                (count_by_shift capacity (u64 (shift + 1)))
          | false ↦ some (shift, count)
        ]

  pub diff_area_calculate_chunk_size : (fuel : ℕ) → OrigBdev → Option (ℕ × ℕ)
  unfolding chunk_size_loop
  diff_area_calculate_chunk_size fuel bdev =
      let shift = P.chunk_minimum_shift in
      chunk_size_loop fuel bdev.bdev_nr_sectors (bdev.bdev_io_min / 2 ^ sector_shift) shift
        (count_by_shift bdev.bdev_nr_sectors shift)

  pub recalculate_last_chunk_size : (capacity : ℕ) → Chunk → Chunk
  recalculate_last_chunk_size capacity c =
      let down = K.round_down capacity c.sector_count in
      if ltb down capacity then record c { sector_count = capacity - down } else c

  -- The loop that makes the chunks with the rounds left. The kernel's answers are for each number
  -- whether the chunk has memory, and what the insertion returns.
  pub make_chunks :
      (rounds number sectors : ℕ) → (ℕ → Bool) → (ℕ → Ret) → List Chunk → Ret × List Chunk
  make_chunks zero number sectors alloc insert map = (ok, map)
  make_chunks (suc rounds) number sectors alloc insert map =
      elim (chunk_alloc P (alloc number) number) [
        | none ↦ (err enomem, map)
        | some c ↦ elim (insert number) [
          | err e ↦ (err e, map)
          | ok ↦
              make_chunks rounds (suc number) sectors alloc insert
                (map ++ (record c { sector_count = sectors } ∷ []))
        ]
      ]

  -- The last chunk of the map is the one that the loop leaves in `chunk`.
  pub resize_last : (capacity : ℕ) → List Chunk → List Chunk
  resize_last capacity [] = []
  resize_last capacity (c ∷ []) = recalculate_last_chunk_size capacity c ∷ []
  resize_last capacity (c ∷ d ∷ cs) = c ∷ resize_last capacity (d ∷ cs)

  -- The rest of `diff_area_new` once the storage is known to have room.
  pub fill_area : Making → OrigBdev → DiffArea → Outcome
  unfolding make_chunks resize_last
  fill_area k bdev a =
      let (ret, chunks) =
        make_chunks a.chunk_count 0 (diff_area_chunk_sectors a) k.chunk_alloc_ok k.insert [] in
      elim ret [
        | err e ↦ error e false
        | ok ↦
            if a.chunk_count == 0
            then wild
            else area (record a { chunk_map = resize_last bdev.bdev_nr_sectors chunks })
      ]

  pub diff_area_new : (fuel : ℕ) → Making → OrigBdev → DiffStorage → Outcome
  unfolding diff_area_calculate_chunk_size fill_area
  diff_area_new fuel k bdev d = elim k.opened [
    | err e ↦ error e false
    | ok ↦
        if not k.area_alloc
        then error enomem false
        else (elim (diff_area_calculate_chunk_size fuel bdev) [
          | none ↦ no_fuel
          | some (shift, count) ↦
              if d.capacity == 0
              then error efault true
              else fill_area k bdev (new_area bdev d shift count)
        ])
  ]
