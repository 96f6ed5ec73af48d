-- ===== src/Area/Chunk/Life.antt =====
-- What the operations of module/chunk.c do to the phase of a chunk.
use blksnap.Prelude.{
  refl, ℕ, ◌≡◌, Bool, true, false, not, ◌&&◌, ◌||◌, some, none, arith, if◌then◌else◌,
}
use blksnap.Kernel.{Ret, ok, err, Params}
use blksnap.Storage.{Alarm}
use blksnap.Buffer.{DiffBuffer}
use blksnap.Area.Data.{no_bits, Chunk, DiffArea, Answers}
use blksnap.Area.Phases.{
  empty, broken, reading, saved, cached, writing, at, rests_at, held_at, can_fail,
}
use blksnap.Area.Chunk.{
  diff_area_set_corrupted, diff_area_event_corrupted, in_cache, chunk_alloc,
  chunk_diff_buffer_release, chunk_store_failed, chunk_load_diff, chunk_async_store_diff,
  with_region, chunk_schedule_storing, chunk_schedule_caching, store_or_fail, stored,
  chunk_notify_load, chunk_notify_store, chunk_async_load_orig,
}

-- A call that stores the chunk starts the write, or breaks the chunk and unlocks it.
abbrev pub after_store : (d s : Bool) → Ret × DiffArea × Chunk → Bool
after_store d s (ok, _, c) = at (writing d s) c
after_store d s (err _, _, c) = rests_at broken c

-- A call of `chunk_schedule_storing`, with the failure of the chunk where it returns an error, on a
-- chunk whose buffer is ready and whose semaphore is taken: on success the write to a region is in
-- flight and the semaphore kept; on any error, of the storage, of memory or of the I/O, the chunk is
-- broken, with neither buffer nor region, and its semaphore is free.
pub store_or_fail-Phase :
    (P : Params) (k : Answers) (a : DiffArea) (c : Chunk) (nowait d s : Bool)
    → held_at (cached d s) c ≡ true
    → after_store d s (store_or_fail P k a c nowait) ≡ true
unfolding store_or_fail chunk_store_failed chunk_diff_buffer_release chunk_schedule_storing
    with_region chunk_async_store_diff
store_or_fail-Phase P k a c nowait d s h = ground arith

pub store_failed-Phase :
    (P : Params) (l : Alarm) (a : DiffArea) (c : Chunk) (result : Ret)
    → can_fail c ≡ true
    → rests_at broken (chunk_store_failed P l a c result).1 ≡ true
unfolding chunk_store_failed chunk_diff_buffer_release
store_failed-Phase P l a c result h = ground arith

-- The read from the original device is started, or the chunk can be failed.
abbrev pub after_load : Ret × DiffArea × Chunk → Bool
after_load (ok, _, c) = at reading c
after_load (err _, _, c) = can_fail c

pub async_load-Phase :
    (P : Params) (k : Answers) (a : DiffArea) (c : Chunk) (nowait : Bool)
    → held_at empty (record c { diff_buffer = none }) ≡ true
    → (b : DiffBuffer)
    → after_load (chunk_async_load_orig P k a (record c { diff_buffer = some b }) nowait) ≡ true
unfolding chunk_async_load_orig
async_load-Phase P k a c nowait h b = ground arith

pub schedule_caching-Phase :
    (P : Params) (l : Alarm) (a : DiffArea) (c : Chunk) (d s : Bool)
    → held_at (cached d s) c ≡ true
    → let c' = (chunk_schedule_caching P l a c).1 in
      rests_at (cached d s) c' || rests_at broken c' ≡ true
unfolding chunk_schedule_caching chunk_store_failed chunk_diff_buffer_release
schedule_caching-Phase P l a c d s h = ground arith

pub buffer_release-Phase :
    (P : Params) (a : DiffArea) (c : Chunk) (s : Bool)
    → held_at (cached false s) c ≡ true
    → held_at (if s then saved else empty) (chunk_diff_buffer_release P a c).1 ≡ true
unfolding chunk_diff_buffer_release
buffer_release-Phase P a c s h = ground arith

-- What the read comes to by its result: the write to the region is started, or the chunk is broken,
-- unlocked, and the area marked as corrupted.
abbrev pub after_read : Ret → DiffArea × Chunk → Bool
after_read (err e) (a, c) = rests_at broken c && a.corrupt_flag
after_read ok (a, c) = at (writing false false) c || rests_at broken c && a.corrupt_flag

pub notify_load-Phase :
    (P : Params) (k : Answers) (a : DiffArea) (c : Chunk) (result : Ret)
    → at reading c ≡ true
    → after_read result (chunk_notify_load P k a c result) ≡ true
unfolding chunk_notify_load store_or_fail chunk_store_failed chunk_diff_buffer_release
    chunk_schedule_storing with_region chunk_async_store_diff diff_area_set_corrupted
    diff_area_event_corrupted
notify_load-Phase P k a c (err e) h = ground arith
notify_load-Phase P k a c ok h = ground arith

pub notify_load_either :
    (P : Params) (k : Answers) (a : DiffArea) (c : Chunk) (result : Ret)
    → at reading c ≡ true
    → let c' = (chunk_notify_load P k a c result).1 in
      at (writing false false) c' || rests_at broken c' ≡ true
notify_load_either P k a c (err e) h = ground (arith, notify_load-Phase P k a c (err e) h)
notify_load_either P k a c ok h = ground (arith, notify_load-Phase P k a c ok h)

-- What the write comes to by its result, from an area `old`.
abbrev pub after_write : (d : Bool) → DiffArea → Chunk → Ret → DiffArea × Chunk → Bool
after_write d old c (err e) (a, c') = rests_at broken c' && a.corrupt_flag
after_write d old c ok (a, c') =
    rests_at (if d then saved else cached false true) c'
    || not d && in_cache old c && rests_at broken c'

pub notify_store-Phase :
    (P : Params) (k : Answers) (a : DiffArea) (c : Chunk) (result : Ret) (d s : Bool)
    → at (writing d s) c ≡ true
    → after_write d a c result (chunk_notify_store P k a c result) ≡ true
unfolding chunk_notify_store stored chunk_schedule_caching chunk_store_failed
    chunk_diff_buffer_release diff_area_set_corrupted diff_area_event_corrupted
notify_store-Phase P k a c (err e) d s h = ground arith
notify_store-Phase P k a c ok d s h = ground arith

pub notify_store_either :
    (P : Params) (k : Answers) (a : DiffArea) (c : Chunk) (result : Ret) (d s : Bool)
    → at (writing d s) c ≡ true
    → let c' = (chunk_notify_store P k a c result).1 in
      rests_at (if d then saved else cached false true) c' || rests_at broken c' ≡ true
notify_store_either P k a c (err e) d s h = ground (arith, notify_store-Phase P k a c (err e) d s h)
notify_store_either P k a c ok d s h = ground (arith, notify_store-Phase P k a c ok d s h)

pub alloc-Phase :
    (P : Params) (number : ℕ) (c : Chunk) → chunk_alloc P true number ≡ some c → at empty c ≡ true
unfolding chunk_alloc
alloc-Phase P number c made = ground (arith, made)

-- A new chunk has its number, and nothing else.
pub alloc_lem :
    (P : Params) (number : ℕ)
    → chunk_alloc P true number
      ≡ some (record {
        number = number;
        sector_count = 0;
        locked = false;
        state = no_bits;
        diff_buffer = none;
        diff_region = none;
        diff_io = none;
      })
unfolding chunk_alloc
alloc_lem P number = refl

pub load_diff-without_orig :
    (P : Params) (k : Answers) (orig : Ret)
    → chunk_load_diff P k ≡ chunk_load_diff P (record k { orig_error = orig })
unfolding chunk_load_diff
load_diff-without_orig P k orig = refl
