-- ===== src/Buffer/Pool.antt =====
-- The pool of free buffers stays bounded, and the iterator of a buffer walks over every byte of it
-- once (module/diff_buffer.c, module/diff_buffer.h).
use blksnap.Prelude.{
  ℕ, zero, suc, ◌+◌, ◌-◌, ◌*◌, ◌/◌, ◌%◌, ◌^◌, ◌≤◌, ◌<◌, ◌≡◌, refl, min, Bool, true, false, none,
  some, List, [], ◌∷◌, ◌⊎◌, arith, if◌then◌else◌, length, length-append,
}
use blksnap.Kernel.{eagain, enomem, Rounding, Params}
use blksnap.Buffer.{
  DiffBuffer, BufferPool, Pages, page_size, buffer, error, alloc_pages, diff_buffer_new, new_buffer,
  diff_buffer_take, diff_buffer_release, cleanup_loop, diff_buffer_cleanup, DiffBufferIter,
  diff_buffer_iter_get,
}

-- The counter is the length of the list, and the list has at most one buffer more than the
-- parameter allows.
record IsPool (P : Params) (pool : BufferPool) : Type 0 where
  counted : pool.free_diff_buffers_count ≡ length pool.free_diff_buffers
  limited : pool.free_diff_buffers_count ≤ P.free_diff_buffer_pool_size + 1

take-IsPool :
    (P : Params) (K : Rounding) (m : Pages) (pool : BufferPool) (sectors : ℕ) (nowait : Bool)
    → IsPool P pool
    → IsPool P (diff_buffer_take K m pool sectors nowait).1
unfolding diff_buffer_take
take-IsPool P K m pool sectors nowait h = ground arith

release-IsPool :
    (P : Params) (pool : BufferPool) (b : DiffBuffer)
    → IsPool P pool
    → IsPool P (diff_buffer_release P pool b)
unfolding diff_buffer_release
release-IsPool P pool b h = ground (arith, length-append pool.free_diff_buffers (b ∷ []))

cleanup_loop_lem :
    (bs : List DiffBuffer) (n : ℕ)
    → n ≡ length bs
    → cleanup_loop bs n ≡ (bs, record { free_diff_buffers = []; free_diff_buffers_count = 0 })
unfolding cleanup_loop
cleanup_loop_lem [] n h = ground arith
cleanup_loop_lem (b ∷ bs) n h = rw (cleanup_loop_lem bs (n - 1) (omega arith))

-- Taking a buffer from the pool and giving one back keep the counter equal to the length of the
-- list and at most one above the parameter; the cleanup frees exactly the buffers of the pool and
-- leaves it empty with the counter 0.
IsPool-bounded :
    (P : Params) (K : Rounding) (m : Pages) (pool : BufferPool) (sectors : ℕ) (nowait : Bool)
    (b : DiffBuffer)
    → IsPool P pool
    → IsPool P (diff_buffer_take K m pool sectors nowait).1
      × IsPool P (diff_buffer_release P pool b)
      × (diff_buffer_cleanup pool ≡ (
        pool.free_diff_buffers,
        record { free_diff_buffers = []; free_diff_buffers_count = 0 },
      ))
unfolding diff_buffer_cleanup
IsPool-bounded P K m pool sectors nowait b h = (
  take-IsPool P K m pool sectors nowait h,
  release-IsPool P pool b h,
  cleanup_loop_lem pool.free_diff_buffers pool.free_diff_buffers_count h.counted,
)

-- The pages of a buffer hold its bytes.
abbrev pub IsBacked : DiffBuffer → Type 0
IsBacked b = b.size ≤ b.page_count * page_size

-- The iterator of a buffer with enough pages refuses an offset past the end; at any other it gives
-- a page of the buffer that holds the byte at the offset, and a number of bytes that is not 0 and
-- reaches neither past the page nor past the buffer, up to the end of one of them.
pub iter_get_lem :
    (b : DiffBuffer) (o : ℕ)
    → IsBacked b
    → (b.size ≤ o → diff_buffer_iter_get b o ≡ none)
      × (o < b.size
          → (i : DiffBufferIter) × (diff_buffer_iter_get b o ≡ some i)
            × (i.page < b.page_count)
            × (i.page * page_size + i.offset ≡ o)
            × (0 < i.bytes)
            × (i.offset + i.bytes ≤ page_size)
            × (o + i.bytes ≤ b.size)
            × ((i.offset + i.bytes ≡ page_size) ⊎ (o + i.bytes ≡ b.size)))
unfolding diff_buffer_iter_get
iter_get_lem b o h = (
  (λ past. ground arith),
  λ inside. (
    record {
      page = o / 2 ^ 12;
      offset = o % page_size;
      bytes = min (page_size - o % page_size) (b.size - o);
    },
    ground arith,
    omega arith,
    omega arith,
    omega arith,
    omega arith,
    omega arith,
    omega arith,
  ),
)

alloc_pages_all :
    (rounds inx : ℕ) (page : ℕ → Bool)
    → ((i : ℕ) → page i ≡ true)
    → alloc_pages rounds inx page ≡ true
unfolding alloc_pages
alloc_pages_all zero inx page h = refl
alloc_pages_all (suc rounds) inx page h =
    rw (h inx, alloc_pages) (alloc_pages_all rounds (inx + 1) page h)

-- With memory at hand a new buffer has the bytes of its chunk, and pages for them with less than
-- one to spare; without the structure it is refused, as EAGAIN to a caller that cannot wait and as
-- ENOMEM to any other.
new_buffer_lem :
    (K : Rounding) (m : Pages) (sectors : ℕ) (nowait : Bool)
    → 0 < sectors
    → sectors < 2 ^ 63
    → (m.alloc ≡ true
        → ((i : ℕ) → m.page i ≡ true)
        → (b : DiffBuffer) × (new_buffer K m sectors nowait ≡ buffer b)
          × (b.size ≡ sectors * 512)
          × IsBacked b
          × (b.page_count * page_size < b.size + page_size))
      × (m.alloc ≡ false
          → new_buffer K m sectors nowait ≡ error (if nowait then eagain else enomem))
unfolding new_buffer diff_buffer_new
new_buffer_lem K m sectors nowait pos small =
    let count : K.round_up sectors 8 / 8 ≡ (sectors + 7) / 8 =
      omega (arith, K.round_up-pow sectors 3 (omega arith)) in
    (
      (λ alloc pages. (
        record { size = sectors * 512; page_count = (sectors + 7) / 8 },
        ground (arith, alloc_pages_all ((sectors + 7) / 8) 0 m.page pages),
        refl,
        omega arith,
        omega arith,
      )),
      λ starved. ground arith,
    )
