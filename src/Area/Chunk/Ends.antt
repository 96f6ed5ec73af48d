-- ===== src/Area/Chunk/Ends.antt =====
-- What the ends of the I/O of a chunk (module/chunk.c) leave as it is.
use blksnap.Prelude.{◌≡◌, true, arith}
use blksnap.Kernel.{Ret, Params}
use blksnap.Area.Data.{Chunk, DiffArea, Answers}
use blksnap.Area.Chunk.{
  diff_area_event_corrupted, diff_area_set_corrupted, chunk_diff_buffer_release, chunk_store_failed,
  chunk_async_store_diff, with_region, chunk_schedule_storing, chunk_schedule_caching,
  store_or_fail, stored, chunk_notify_load, chunk_notify_store,
}
use blksnap.Area.Chunk.Kept.{Same}

-- The map and the number stay, and the error flag stays set.
abbrev pub SameOrWorse : DiffArea → Chunk → DiffArea → Chunk → Type 0
SameOrWorse a c a' c' = Same a c a' c' × (a.corrupt_flag ≡ true → a'.corrupt_flag ≡ true)

pub notify_load-Same :
    (P : Params) (k : Answers) (a : DiffArea) (c : Chunk) (result : Ret)
    → let (a', c') = chunk_notify_load P k a c result in SameOrWorse a c a' c'
unfolding chunk_notify_load store_or_fail chunk_store_failed chunk_diff_buffer_release
    chunk_schedule_storing with_region chunk_async_store_diff diff_area_set_corrupted
    diff_area_event_corrupted
notify_load-Same P k a c result = ground arith

pub notify_store-Same :
    (P : Params) (k : Answers) (a : DiffArea) (c : Chunk) (result : Ret)
    → let (a', c') = chunk_notify_store P k a c result in SameOrWorse a c a' c'
unfolding chunk_notify_store stored chunk_schedule_caching chunk_store_failed
    chunk_diff_buffer_release diff_area_set_corrupted diff_area_event_corrupted
notify_store-Same P k a c result = ground arith
