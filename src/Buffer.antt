-- ===== src/Buffer.antt =====
-- module/diff_buffer.c and module/diff_buffer.h: buffers for the data of a chunk, and the pool of
-- free buffers of a difference area. Each spinlock makes the update of the pool one step. Which
-- pages can be allocated is an argument.
pub mod Pool
use blksnap.Prelude.{
  ℕ, zero, suc, ◌+◌, ◌-◌, ◌*◌, ◌/◌, ◌%◌, ◌^◌, min, Bool, true, false, Option, none, some, List, [],
  ◌∷◌, ◌++◌, ltb, leb, ◌==◌, if◌then◌else◌,
}
use blksnap.Kernel.{Errno, eagain, enomem, page_shift, sector_shift, Rounding, Params}

-- `struct diff_buffer`; of the pages only their number matters here.
pub record DiffBuffer : Type 0 where
  pub size : ℕ
  pub page_count : ℕ

-- The fields of `struct diff_area` that hold the free buffers.
pub record BufferPool : Type 0 where
  pub free_diff_buffers : List DiffBuffer
  pub free_diff_buffers_count : ℕ

abbrev pub page_size : ℕ
page_size = 4096

abbrev pub page_sectors : ℕ
page_sectors = 8

-- What the allocator answers: for the structure, and for each page.
pub record Pages : Type 0 where
  pub alloc : Bool
  pub page : ℕ → Bool

-- The loop over the pages with the rounds left; `false` is the jump to `fail`.
pub alloc_pages : (rounds inx : ℕ) → (ℕ → Bool) → Bool
alloc_pages zero inx page = true
alloc_pages (suc rounds) inx page = elim (page inx) [
  | true ↦ alloc_pages rounds (inx + 1) page
  | false ↦ false
]

pub diff_buffer_new : Pages → (page_count buffer_size : ℕ) → Option DiffBuffer
unfolding alloc_pages
diff_buffer_new m page_count buffer_size =
    if page_count == 0
    then none
    else if m.alloc
    then (if alloc_pages page_count 0 m.page
        then some (record { size = buffer_size; page_count = page_count })
        else none)
    else none

pub data Taken : Type 0 where
  buffer : DiffBuffer → Taken
  error : Errno → Taken

-- The allocation of a new buffer for a chunk of `chunk_sectors` sectors.
pub new_buffer : Rounding → Pages → (chunk_sectors : ℕ) → (is_nowait : Bool) → Taken
new_buffer K m chunk_sectors is_nowait =
    elim (diff_buffer_new m (K.round_up chunk_sectors page_sectors / page_sectors)
      (chunk_sectors * 2 ^ sector_shift)) [
        | some b ↦ buffer b
        | none ↦ error (if is_nowait then eagain else enomem)
      ]

unfoldable pub diff_buffer_take :
    Rounding → Pages → BufferPool → (chunk_sectors : ℕ) → (is_nowait : Bool) → Taken × BufferPool
unfolding new_buffer
diff_buffer_take K m pool chunk_sectors is_nowait = elim pool.free_diff_buffers [
  | b ∷ bs ↦ (
    buffer b,
    record { free_diff_buffers = bs; free_diff_buffers_count = pool.free_diff_buffers_count - 1 },
  )
  | [] ↦ (new_buffer K m chunk_sectors is_nowait, pool)
]

-- A buffer goes back to the pool, unless there are more in it than the parameter says.
pub diff_buffer_release : Params → BufferPool → DiffBuffer → BufferPool
diff_buffer_release P pool b =
    if ltb P.free_diff_buffer_pool_size pool.free_diff_buffers_count then pool else record {
      free_diff_buffers = pool.free_diff_buffers ++ (b ∷ []);
      free_diff_buffers_count = pool.free_diff_buffers_count + 1;
    }

-- The loop takes the first buffer until there is none; the buffers that are freed come beside it.
pub cleanup_loop : List DiffBuffer → (count : ℕ) → List DiffBuffer × BufferPool
cleanup_loop [] count = ([], record { free_diff_buffers = []; free_diff_buffers_count = count })
cleanup_loop (b ∷ bs) count = let (freed, pool) = cleanup_loop bs (count - 1) in (b ∷ freed, pool)

pub diff_buffer_cleanup : BufferPool → List DiffBuffer × BufferPool
unfolding cleanup_loop
diff_buffer_cleanup pool = cleanup_loop pool.free_diff_buffers pool.free_diff_buffers_count

-- `struct diff_buffer_iter`; a page is its index.
pub record DiffBufferIter : Type 0 where
  pub page : ℕ
  pub offset : ℕ
  pub bytes : ℕ

-- `buff_offset & (PAGE_SIZE - 1)` keeps the low bits.
unfoldable pub diff_buffer_iter_get : DiffBuffer → (buff_offset : ℕ) → Option DiffBufferIter
diff_buffer_iter_get b buff_offset =
    let offset = buff_offset % page_size in
    if leb b.size buff_offset
    then none
    else some (record {
      page = buff_offset / 2 ^ page_shift;
      offset = offset;
      bytes = min (page_size - offset) (b.size - buff_offset);
    })
