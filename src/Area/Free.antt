-- ===== src/Area/Free.antt =====
-- The end of a difference area (module/diff_area.c).
use blksnap.Prelude.{ℕ, false, Option, none, some, List, [], ◌∷◌, if◌then◌else◌}
use blksnap.Kernel.{Params}
use blksnap.Buffer.{DiffBuffer, diff_buffer_cleanup}
use blksnap.Area.Data.{Chunk, DiffArea, Answers}
use blksnap.Area.Chunk.{chunk_free}
use blksnap.Area.Cache.{diff_area_cache_release}

-- `xa_for_each`: the chunks in the order of their numbers.
free_chunks : Params → List Chunk → DiffArea → DiffArea
free_chunks P [] a = a
free_chunks P (c ∷ cs) a = free_chunks P cs (chunk_free P a c)

-- What is left once the pending I/O has ended, or was waited for long enough, with the buffers that
-- the end freed. The worker runs first if it is queued; `none` is the end of its fuel.
pub diff_area_free :
    Params → (fuel : ℕ) → (ℕ → Answers) → DiffArea → Option (List DiffBuffer × DiffArea)
unfolding free_chunks
diff_area_free P fuel k a =
    elim (if a.cache_release_work then diff_area_cache_release P fuel k a else some a) [
      | none ↦ none
      | some b ↦
          let c = free_chunks P b.chunk_map b in
          let (freed, pool) = diff_buffer_cleanup c.pool in
          some (freed, record c { chunk_map = []; pool = pool; cache_release_work = false })
    ]
