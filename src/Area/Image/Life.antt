-- ===== src/Area/Image/Life.antt =====
-- What opening and releasing a chunk through the snapshot image (module/diff_area.c) does to its
-- phase.
use blksnap.Prelude.{◌≡◌, Bool, true, false, ◌||◌, arith}
use blksnap.Kernel.{Ret, ok, err, Params, Rounding}
use blksnap.Area.Data.{Chunk, DiffArea, Answers, down, chunk_state_set, dirty}
use blksnap.Area.Phases.{Phase, empty, broken, reading, saved, cached, writing, rests_at, held_at}
use blksnap.Area.Chunk.Life.{load_diff-without_orig, schedule_caching-Phase}
use blksnap.Area.Image.{diff_area_image_put_chunk, open_chunk, diff_area_load_chunk_from_storage}

-- Where the chunk is after a request for it: open, or as it was.
abbrev pub after_open : Phase → Ret × DiffArea × Chunk → Bool
after_open empty (ok, _, c) = held_at (cached false false) c
after_open saved (ok, _, c) = held_at (cached false true) c
after_open (cached d s) (ok, _, c) = held_at (cached d s) c
after_open broken (ok, _, c) = false
after_open reading (ok, _, c) = false
after_open (writing d s) (ok, _, c) = false
after_open p (err _, _, c) = rests_at p c

-- A request for a chunk that is at rest, in whichever phase. Where it succeeds the chunk's buffer
-- holds the data, the semaphore is kept, and the marks of a write and of a stored copy are as they
-- were; a broken chunk never opens. Where it fails the phase is as before, and the semaphore free.
pub open_chunk-Phase :
    (K : Rounding) (P : Params) (k : Answers) (a : DiffArea) (c : Chunk) (p : Phase)
    → rests_at p c ≡ true
    → after_open p (open_chunk K P k a (down c)) ≡ true
unfolding open_chunk diff_area_load_chunk_from_storage
open_chunk-Phase K P k a c empty h = ground arith
open_chunk-Phase K P k a c saved h = ground arith
open_chunk-Phase K P k a c (cached d s) h = ground arith
open_chunk-Phase K P k a c broken h = ground arith
open_chunk-Phase K P k a c reading h = ground arith
open_chunk-Phase K P k a c (writing d s) h = ground arith

-- The release of an open chunk frees its semaphore and leaves it cached, dirty if it was open for a
-- write or dirty before, with the mark of a stored copy as it was; or the chunk is broken.
pub put_chunk-Phase :
    (K : Rounding) (P : Params) (k : Answers) (a : DiffArea) (c : Chunk) (is_write d s : Bool)
    → held_at (cached d s) c ≡ true
    → let c' = (diff_area_image_put_chunk K P k a c is_write).1 in
      rests_at (cached (is_write || d) s) c' || rests_at broken c' ≡ true
unfolding diff_area_image_put_chunk
put_chunk-Phase K P k a c false d s h = schedule_caching-Phase P k.alarm a c d s h
put_chunk-Phase K P k a c true d s h =
    schedule_caching-Phase P k.alarm a (chunk_state_set c dirty) true s (ground arith)

-- A request for a chunk with its buffer or a stored copy, or for a failed one, comes to the same
-- however a read of the original device would end: there is none.
pub open_chunk-without_orig :
    (K : Rounding) (P : Params) (k : Answers) (a : DiffArea) (c : Chunk) (orig : Ret)
    → c.state.is_failed || c.state.is_buffer_ready || c.state.is_store_ready ≡ true
    → open_chunk K P k a c ≡ open_chunk K P (record k { orig_error = orig }) a c
unfolding open_chunk diff_area_load_chunk_from_storage
open_chunk-without_orig K P k a c orig h = ground (arith, h, load_diff-without_orig P k orig)
