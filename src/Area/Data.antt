-- ===== src/Area/Data.antt =====
-- module/chunk.h and module/diff_area.h: the state of a chunk, the chunk and the difference area.
-- The area is the one of the default build, without storage in memory. An operation on a chunk gets
-- the chunk beside the area and returns both: the semaphore keeps every other thread off the chunk.
use blksnap.Prelude.{
  ℕ, ◌/◌, ◌^◌, Bool, true, false, ◌||◌, Option, List, [], ◌∷◌, ◌==◌, get_elem?, set,
}
use blksnap.Kernel.{Ret, sub64, sector_shift, shl_one}
use blksnap.Storage.{DiffRegion, DiffStorage, Alarm}
use blksnap.Buffer.{DiffBuffer, BufferPool, Pages}

-- `enum chunk_st`
pub data ChunkSt : Type 0 where
  failed dirty buffer_ready store_ready loading storing : ChunkSt

-- The bits of `state`.
pub record ChunkState : Type 0 where
  pub is_failed : Bool
  pub is_dirty : Bool
  pub is_buffer_ready : Bool
  pub is_store_ready : Bool
  pub is_loading : Bool
  pub is_storing : Bool

abbrev pub no_bits : ChunkState
no_bits = record {
  is_failed = false;
  is_dirty = false;
  is_buffer_ready = false;
  is_store_ready = false;
  is_loading = false;
  is_storing = false;
}

abbrev pub put_bit : Bool → ChunkSt → ChunkState → ChunkState
put_bit b failed s = record s { is_failed = b }
put_bit b dirty s = record s { is_dirty = b }
put_bit b buffer_ready s = record s { is_buffer_ready = b }
put_bit b store_ready s = record s { is_store_ready = b }
put_bit b loading s = record s { is_loading = b }
put_bit b storing s = record s { is_storing = b }

abbrev pub has_bit : ChunkSt → ChunkState → Bool
has_bit failed s = s.is_failed
has_bit dirty s = s.is_dirty
has_bit buffer_ready s = s.is_buffer_ready
has_bit store_ready s = s.is_store_ready
has_bit loading s = s.is_loading
has_bit storing s = s.is_storing

-- An I/O in flight: which of the two notifications it will call.
pub data DiffIo : Type 0 where
  async_read async_write : DiffIo

-- `struct chunk`; `locked` is a semaphore with the count 0.
pub record Chunk : Type 0 where
  pub number : ℕ
  pub sector_count : ℕ
  pub locked : Bool
  pub state : ChunkState
  pub diff_buffer : Option DiffBuffer
  pub diff_region : Option DiffRegion
  pub diff_io : Option DiffIo

abbrev pub chunk_state_set : Chunk → ChunkSt → Chunk
chunk_state_set c st = record c { state = put_bit true st c.state }

abbrev pub chunk_state_unset : Chunk → ChunkSt → Chunk
chunk_state_unset c st = record c { state = put_bit false st c.state }

-- The check of one bit; a mask of several is the disjunction.
abbrev pub chunk_state_check : Chunk → ChunkSt → Bool
chunk_state_check c st = has_bit st c.state

-- `up(&chunk->lock)`
abbrev pub up : Chunk → Chunk
up c = record c { locked = false }

abbrev pub down : Chunk → Chunk
down c = record c { locked = true }

-- `struct diff_area`. The queues hold the numbers of their chunks, the map is indexed by the
-- number, `cache_release_work` says that the work is queued.
pub record DiffArea : Type 0 where
  pub orig_bdev : ℕ
  pub diff_storage : DiffStorage
  pub chunk_shift : ℕ
  pub chunk_count : ℕ
  pub chunk_map : List Chunk
  pub read_cache_queue : List ℕ
  pub read_cache_count : ℕ
  pub write_cache_queue : List ℕ
  pub write_cache_count : ℕ
  pub cache_release_work : Bool
  pub pool : BufferPool
  pub corrupt_flag : Bool
  pub pending_io_count : ℕ

-- What the kernel answers to an operation on one chunk.
pub record Answers : Type 0 where
  pub killed : Bool  -- the wait for the semaphore is interrupted
  pub pages : Pages
  pub io_alloc : Bool  -- `diff_io_new_*` returns a structure
  pub io_do : Ret  -- what `diff_io_do` returns
  pub orig_error : Ret  -- how a synchronous read of the original device ends
  pub diff_error : Ret  -- how a synchronous read of the region ends
  pub region_alloc : Bool
  pub alarm : Alarm

abbrev pub diff_area_chunk_sectors : DiffArea → ℕ
diff_area_chunk_sectors a = shl_one (sub64 a.chunk_shift sector_shift)

abbrev pub chunk_number : DiffArea → ℕ → ℕ
chunk_number a sector = sector / 2 ^ sub64 a.chunk_shift sector_shift

abbrev pub diff_area_is_corrupted : DiffArea → Bool
diff_area_is_corrupted a = a.corrupt_flag

-- `xa_load` and the write through the pointer that it returned.
abbrev pub xa_load : DiffArea → ℕ → Option Chunk
xa_load a number = get_elem? a.chunk_map number

abbrev pub store : DiffArea → Chunk → DiffArea
store a c = record a { chunk_map = set a.chunk_map c.number c }

abbrev pub contains : ℕ → List ℕ → Bool
contains n [] = false
contains n (m ∷ ms) = n == m || contains n ms

-- Whether the chunk's `cache_link` is in one of the two queues.
abbrev pub in_cache : DiffArea → Chunk → Bool
in_cache a c = contains c.number a.read_cache_queue || contains c.number a.write_cache_queue
