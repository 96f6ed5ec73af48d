-- ===== src/Area/Chunk/Kept.antt =====
-- What the operations of module/chunk.c leave as it is: the map of the chunks, their size, and the
-- number of the chunk.
use blksnap.Prelude.{◌≡◌, Bool, arith}
use blksnap.Kernel.{Errno, Ret, Params}
use blksnap.Storage.{Alarm}
use blksnap.Area.Data.{Chunk, DiffArea, Answers}
use blksnap.Area.Chunk.{
  diff_area_event_corrupted, diff_area_set_corrupted, chunk_diff_buffer_release, chunk_store_failed,
  chunk_async_store_diff, with_region, chunk_schedule_storing, store_or_fail, chunk_async_load_orig,
}

abbrev pub Same : DiffArea → Chunk → DiffArea → Chunk → Type 0
Same a c a' c' =
    (a'.chunk_map ≡ a.chunk_map) × (a'.chunk_shift ≡ a.chunk_shift) × (c'.number ≡ c.number)

pub set_corrupted-Same :
    (l : Alarm) (a : DiffArea) (c : Chunk) (e : Errno) → Same a c (diff_area_set_corrupted l a e) c
unfolding diff_area_set_corrupted diff_area_event_corrupted
set_corrupted-Same l a c e = ground arith

pub store_failed-Same :
    (P : Params) (l : Alarm) (a : DiffArea) (c : Chunk) (result : Ret)
    → let (a', c') = chunk_store_failed P l a c result in Same a c a' c'
unfolding chunk_store_failed chunk_diff_buffer_release diff_area_set_corrupted
    diff_area_event_corrupted
store_failed-Same P l a c result = ground arith

pub store_or_fail-Same :
    (P : Params) (k : Answers) (a : DiffArea) (c : Chunk) (nowait : Bool)
    → let (_, a', c') = store_or_fail P k a c nowait in Same a c a' c'
unfolding store_or_fail chunk_store_failed chunk_diff_buffer_release chunk_schedule_storing
    with_region chunk_async_store_diff diff_area_set_corrupted diff_area_event_corrupted
store_or_fail-Same P k a c nowait = ground arith

pub async_load-Same :
    (P : Params) (k : Answers) (a : DiffArea) (c : Chunk) (nowait : Bool)
    → let (_, a', c') = chunk_async_load_orig P k a c nowait in Same a c a' c'
unfolding chunk_async_load_orig
async_load-Same P k a c nowait = ground arith
