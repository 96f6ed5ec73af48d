-- ===== src/Area/Cache/Life.antt =====
-- What the worker that empties the caches (module/diff_area.c) does to the phase of a chunk.
use blksnap.Prelude.{◌≡◌, Bool, true, false, ◌||◌, arith}
use blksnap.Kernel.{Params}
use blksnap.Area.Data.{Chunk, DiffArea, Answers, up}
use blksnap.Area.Phases.{empty, broken, saved, cached, writing, at, rests_at, held_at}
use blksnap.Area.Chunk.Life.{store_or_fail-Phase, buffer_release-Phase}
use blksnap.Area.Cache.{diff_area_take_chunk_from_cache, release_chunk}

-- Where the worker leaves a chunk that it took out of a cache.
abbrev pub after_release : (d s : Bool) → Chunk → Bool
after_release true s c = at (writing true s) c || rests_at broken c
after_release false true c = rests_at saved c
after_release false false c = rests_at empty c

-- What the worker makes of a chunk that it took out of a cache, with its semaphore. A dirty one is
-- being written to its region, with the semaphore kept, or it is broken and free; a clean one loses
-- its buffer and is free, and only a copy that was stored before is left of it.
pub release_chunk-Phase :
    (P : Params) (k : Answers) (a : DiffArea) (c : Chunk) (d s : Bool)
    → held_at (cached d s) c ≡ true
    → after_release d s (release_chunk P k a c).1 ≡ true
unfolding release_chunk
release_chunk-Phase P k a c d s h =
    ground (arith, store_or_fail-Phase P k a c false d s, buffer_release-Phase P a c s)

-- A chunk whose buffer is not ready is unlocked, and nothing else.
pub release_chunk-idle :
    (P : Params) (k : Answers) (a : DiffArea) (c : Chunk)
    → c.state.is_buffer_ready ≡ false
    → release_chunk P k a c ≡ (a, up c)
unfolding release_chunk
release_chunk-idle P k a c h = ground (arith, h)

-- Taking a chunk out of its queue changes neither the map of the chunks nor their size.
pub take_chunk_keeps :
    (a : DiffArea) (c : Chunk)
    → let a' = diff_area_take_chunk_from_cache a c in
      (a'.chunk_map ≡ a.chunk_map) × (a'.chunk_shift ≡ a.chunk_shift)
unfolding diff_area_take_chunk_from_cache
take_chunk_keeps a c = ground arith
