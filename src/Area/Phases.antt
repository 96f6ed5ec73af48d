-- ===== src/Area/Phases.antt =====
-- The life of a chunk (the comment of module/chunk.h), as the phases that the code of module/chunk.c
-- and module/diff_area.c keeps its chunks in.
use blksnap.Prelude.{Bool, true, false, not, ◌&&◌, ◌||◌, Option, none, some}
use blksnap.Area.Data.{DiffIo, async_read, async_write, Chunk}

-- `empty`: nothing was read. `reading`, `writing`: an I/O is in flight. `cached`: the buffer holds
-- the data. `saved`: only the region holds it. `broken`: an error lost it.
pub data Phase : Type 0 where
  empty broken reading saved : Phase
  cached writing : (is_dirty is_store_ready : Bool) → Phase

abbrev is_some {ℓ} : {A : Type ℓ} → Option A → Bool
is_some none = false
is_some (some _) = true

abbrev same : Bool → Bool → Bool
same true b = b
same false b = not b

abbrev no_io : Option DiffIo → Bool
no_io none = true
no_io (some _) = false

abbrev reads : Option DiffIo → Bool
reads (some async_read) = true
reads (some async_write) = false
reads none = false

abbrev writes : Option DiffIo → Bool
writes (some async_write) = true
writes (some async_read) = false
writes none = false

abbrev bits_are :
    Chunk → (is_dirty is_buffer_ready is_store_ready is_loading is_storing : Bool) → Bool
bits_are c d b s l w =
    not c.state.is_failed
    && same d c.state.is_dirty
    && same b c.state.is_buffer_ready
    && same s c.state.is_store_ready
    && same l c.state.is_loading
    && same w c.state.is_storing

-- Whether the chunk is in the phase. A buffer may be left over in `empty` and `saved`, from a load
-- that failed.
abbrev pub at : Phase → Chunk → Bool
at empty c =
    bits_are c false false false false false && no_io c.diff_io && not (is_some c.diff_region)
at broken c =
    c.state.is_failed
    && not c.state.is_buffer_ready
    && not (is_some c.diff_buffer)
    && not (is_some c.diff_region)
    && no_io c.diff_io
at reading c =
    bits_are c false false false true false
    && reads c.diff_io
    && is_some c.diff_buffer
    && not (is_some c.diff_region)
    && c.locked
at saved c = bits_are c false false true false false && no_io c.diff_io && is_some c.diff_region
at (cached d s) c =
    bits_are c d true s false false
    && no_io c.diff_io
    && is_some c.diff_buffer
    && same s (is_some c.diff_region)
at (writing d s) c =
    bits_are c d true s false true
    && writes c.diff_io
    && is_some c.diff_buffer
    && is_some c.diff_region
    && c.locked

-- The chunk is in the phase, and its semaphore is free.
abbrev pub rests_at : Phase → Chunk → Bool
rests_at p c = at p c && not c.locked

-- The chunk is in the phase, and the thread has its semaphore.
abbrev pub held_at : Phase → Chunk → Bool
held_at p c = at p c && c.locked

-- What `chunk_store_failed` needs of a chunk to break it.
abbrev pub can_fail : Chunk → Bool
can_fail c = no_io c.diff_io && (is_some c.diff_buffer || not c.state.is_buffer_ready)

-- The original data of the chunk is kept, or is being copied, or is lost and known to be lost, or a
-- write through the image replaced it.
abbrev pub safe : Phase → Bool
safe empty = false
safe broken = true
safe reading = true
safe saved = true
safe (cached d s) = d || s
safe (writing d s) = true
