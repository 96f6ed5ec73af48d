-- ===== src/Area/Cache.antt =====
-- The queues of cached chunks in module/diff_area.c: taking a chunk out, and the worker that limits
-- their length.
pub mod Life
use blksnap.Prelude.{
  ℕ, zero, suc, ◌+◌, ◌-◌, Bool, true, false, not, ◌&&◌, ◌||◌, Option, none, some, List, [], ◌∷◌,
  ◌++◌, ltb, ◌==◌, if◌then◌else◌, length,
}
use blksnap.Kernel.{Errno, Ret, ok, err, Params}
use blksnap.Area.Data.{
  ChunkSt, failed, dirty, buffer_ready, Chunk, chunk_state_set, chunk_state_check, up, down,
  DiffArea, Answers, diff_area_is_corrupted, xa_load, store, in_cache,
}
use blksnap.Area.Chunk.{store_or_fail, chunk_diff_buffer_release, chunk_schedule_caching}

-- `list_del_init` on the entry with the number.
abbrev pub remove : ℕ → List ℕ → List ℕ
remove n [] = []
remove n (m ∷ ms) = if n == m then ms else m ∷ remove n ms

-- The first chunk of a queue whose semaphore can be taken.
pub first_unlocked : DiffArea → List ℕ → Option Chunk
first_unlocked a [] = none
first_unlocked a (n ∷ ns) = elim (xa_load a n) [
  | none ↦ first_unlocked a ns
  | some c ↦ if c.locked then first_unlocked a ns else some c
]

-- The results are the chunk, locked, with the queue and its counter.
pub get_chunk_from_cache_and_write_lock :
    DiffArea → (queue : List ℕ) → (count : ℕ) → Option (Chunk × List ℕ × ℕ)
unfolding first_unlocked
get_chunk_from_cache_and_write_lock a queue count = elim (first_unlocked a queue) [
  | none ↦ none
  | some c ↦ some (down c, remove c.number queue, count - 1)
]

module _ (P : Params) where
  from_read_cache : DiffArea → Option (Chunk × DiffArea)
  unfolding get_chunk_from_cache_and_write_lock
  from_read_cache a =
      if ltb P.chunk_maximum_in_cache a.read_cache_count
      then elim (get_chunk_from_cache_and_write_lock a a.read_cache_queue a.read_cache_count) [
        | none ↦ none
        | some (c, q, n) ↦ some (c, record a { read_cache_queue = q; read_cache_count = n })
      ]
      else none

  from_write_cache : DiffArea → Option (Chunk × DiffArea)
  unfolding get_chunk_from_cache_and_write_lock
  from_write_cache a =
      if ltb P.chunk_maximum_in_cache a.write_cache_count
      then elim (get_chunk_from_cache_and_write_lock a a.write_cache_queue a.write_cache_count) [
        | none ↦ none
        | some (c, q, n) ↦ some (c, record a { write_cache_queue = q; write_cache_count = n })
      ]
      else none

  pub diff_area_get_chunk_from_cache_and_write_lock : DiffArea → Option (Chunk × DiffArea)
  unfolding from_read_cache from_write_cache
  diff_area_get_chunk_from_cache_and_write_lock a = elim (from_read_cache a) [
    | some found ↦ some found
    | none ↦ from_write_cache a
  ]

  -- The body of the loop of `diff_area_cache_release`, for a chunk out of a cache.
  pub release_chunk : Answers → DiffArea → Chunk → DiffArea × Chunk
  release_chunk k a c =
      if not (chunk_state_check c buffer_ready)
      then (a, up c)
      else if chunk_state_check c dirty
      then (let (_, a', c') = store_or_fail P k a c false in (a', c'))
      else (let (a', c') = chunk_diff_buffer_release P a c in (a', up c'))

  -- The loop; `none` if it runs longer than its fuel. The answers go by the chunk's number.
  pub diff_area_cache_release : (fuel : ℕ) → (ℕ → Answers) → DiffArea → Option DiffArea
  unfolding release_chunk
  diff_area_cache_release zero k a = none
  diff_area_cache_release (suc fuel) k a = elim (diff_area_is_corrupted a) [
    | true ↦ some a
    | false ↦ elim (diff_area_get_chunk_from_cache_and_write_lock a) [
      | none ↦ some a
      | some (c, a') ↦
          let (a'', c') = release_chunk (k c.number) a' c in
          diff_area_cache_release fuel k (store a'' c')
    ]
  ]

pub diff_area_take_chunk_from_cache : DiffArea → Chunk → DiffArea
diff_area_take_chunk_from_cache a c =
    if in_cache a c
    then (let a' = record a {
      read_cache_queue = remove c.number a.read_cache_queue;
      write_cache_queue = remove c.number a.write_cache_queue;
    } in
        if chunk_state_check c dirty
        then record a' { write_cache_count = a.write_cache_count - 1 }
        else record a' { read_cache_count = a.read_cache_count - 1 })
    else a
