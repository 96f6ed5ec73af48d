-- ===== src/Area/Copy.antt =====
-- `diff_area_copy` and `diff_area_wait` of module/diff_area.c: what a write to the original device
-- does before it goes on.
pub mod Ends
pub mod Errors
pub mod Kept
pub mod Life
pub mod Loop
pub mod Wait
pub mod Whole
use blksnap.Prelude.{
  ℕ, zero, suc, ◌+◌, ◌-◌, ◌*◌, ◌/◌, Bool, true, false, not, ◌&&◌, ◌||◌, Option, none, some, List,
  [], ◌∷◌, ltb, ◌==◌, if◌then◌else◌,
}
use blksnap.Kernel.{Errno, einval, efault, eagain, eintr, Ret, ok, err, Params, Rounding, add64}
use blksnap.Buffer.{DiffBuffer, BufferPool, diff_buffer_take, Taken, buffer, error}
use blksnap.Area.Data.{
  ChunkSt, failed, dirty, buffer_ready, store_ready, loading, storing, Chunk, chunk_state_check, up,
  down, DiffArea, Answers, diff_area_chunk_sectors, chunk_number, xa_load, store,
}
use blksnap.Area.Chunk.{
  chunk_schedule_storing, chunk_async_load_orig, chunk_store_failed, diff_area_set_corrupted,
  store_or_fail,
}
use blksnap.Area.Cache.{diff_area_take_chunk_from_cache}

-- What one round comes to: the loop goes on, or returns.
pub data Step : Type 0 where
  continue : DiffArea → Chunk → Step
  stop : Errno → DiffArea → Chunk → Step

-- How a loop ends: it returns; it sleeps on the semaphore of the chunk at an offset; or its fuel is
-- used up.
pub data Run : Type 0 where
  done : Ret → DiffArea → Run
  sleeps : (offset : ℕ) → DiffArea → Run
  no_fuel : Run

module _ (K : Rounding) (P : Params) where
  pub fail_chunk : Answers → DiffArea → Chunk → Errno → Step
  fail_chunk k a c e = let (a', c') = chunk_store_failed P k.alarm a c (err e) in stop e a' c'

  -- A chunk that was read already, and has to be stored.
  pub copy_cached : Answers → (is_nowait : Bool) → DiffArea → Chunk → Step
  copy_cached k is_nowait a c =
      let (ret, a', c') = store_or_fail P k (diff_area_take_chunk_from_cache a c) c is_nowait in
      elim ret [ ok ↦ continue a' c' | err e ↦ stop e a' c' ]

  -- A chunk that has to be read.
  unfoldable pub copy_fresh : Answers → (is_nowait : Bool) → DiffArea → Chunk → Step
  unfolding fail_chunk
  copy_fresh k is_nowait a c =
      let (out, pool) = diff_buffer_take K k.pages a.pool (diff_area_chunk_sectors a) is_nowait in
      elim out [
        | error e ↦ fail_chunk k (record a { pool = pool }) c e
        | buffer b ↦
            let (ret, a', c') =
              chunk_async_load_orig P k (record a { pool = pool })
                (record c { diff_buffer = some b }) is_nowait in
            elim ret [ ok ↦ continue a' c' | err e ↦ fail_chunk k a' c' e ]
      ]

  -- A round of `diff_area_copy` on a chunk whose semaphore was taken.
  unfoldable pub copy_chunk : Answers → (is_nowait : Bool) → DiffArea → Chunk → Step
  unfolding copy_cached copy_fresh fail_chunk
  copy_chunk k is_nowait a c =
      if chunk_state_check c failed || chunk_state_check c dirty || chunk_state_check c store_ready
      then continue a (up c)
      else if chunk_state_check c loading || chunk_state_check c storing
      then fail_chunk k a c efault
      else if chunk_state_check c buffer_ready
      then copy_cached k is_nowait a c
      else copy_fresh k is_nowait a c

  -- A round of `diff_area_wait`. No branch gives the semaphore of a chunk with no data back.
  pub wait_chunk : DiffArea → Chunk → Step
  wait_chunk a c =
      if chunk_state_check c failed
      then stop efault a (up c)
      else if chunk_state_check c buffer_ready
          || chunk_state_check c dirty
          || chunk_state_check c store_ready
      then continue a (up c)
      else continue a c

  module _ (body : Answers → DiffArea → Chunk → Step) (k : ℕ → Answers) (is_nowait : Bool) where
    -- The loop that both functions share, from an offset on to the end of the range: the load of
    -- the chunk, its semaphore, and the round.
    pub chunk_loop : (fuel offset end : ℕ) → DiffArea → Run
    chunk_loop zero offset end a = no_fuel
    chunk_loop (suc fuel) offset end a = elim (ltb offset end) [
      | false ↦ done ok a
      | true ↦
          let number = chunk_number a offset in
          let answers = k number in
          elim (xa_load a number) [
            | none ↦ done (err einval) (diff_area_set_corrupted answers.alarm a einval)
            | some c ↦ elim c.locked [
              | true ↦
                  if is_nowait
                  then done (err eagain) a
                  else if answers.killed
                  then done (err eintr) a
                  else sleeps offset a
              | false ↦ elim (body answers a (down c)) [
                | stop e a' c' ↦ done (err e) (store a' c')
                | continue a' c' ↦
                    chunk_loop fuel (add64 offset (diff_area_chunk_sectors a)) end (store a' c')
              ]
            ]
          ]
    ]

  pub diff_area_copy :
      (fuel : ℕ) → (ℕ → Answers) → DiffArea → (sector count : ℕ) → (is_nowait : Bool) → Run
  unfolding chunk_loop copy_chunk
  diff_area_copy fuel k a sector count is_nowait =
      chunk_loop (λ answers a c. copy_chunk answers is_nowait a c) k is_nowait fuel
        (K.round_down sector (diff_area_chunk_sectors a)) (add64 sector count) a

  pub diff_area_wait :
      (fuel : ℕ) → (ℕ → Answers) → DiffArea → (sector count : ℕ) → (is_nowait : Bool) → Run
  unfolding chunk_loop wait_chunk
  diff_area_wait fuel k a sector count is_nowait =
      chunk_loop (λ answers a c. wait_chunk a c) k is_nowait fuel
        (K.round_down sector (diff_area_chunk_sectors a)) (add64 sector count) a
