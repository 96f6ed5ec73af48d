-- ===== src/Area/Chunk.antt =====
-- module/chunk.c, and the error flag of module/diff_area.c that it sets.
pub mod Ends
pub mod Flag
pub mod Kept
pub mod Life
use blksnap.Prelude.{
  ℕ, suc, ◌+◌, ◌-◌, ◌*◌, Bool, true, false, not, ◌&&◌, ◌||◌, Option, none, some, List, [], ◌∷◌,
  ◌++◌, ltb, if◌then◌else◌,
}
use blksnap.Kernel.{
  Errno, einval, enomem, eagain, enospc, efault, eio, enoent, eintr, ebusy, enodata, enodev, eperm,
  enobufs, esrch, ealready, enotty, other, Ret, ok, err, Params,
}
use blksnap.Events.{event_gen}
use blksnap.Storage.{DiffRegion, DiffStorage, Alarm, Region, region, error, diff_storage_new_region}
use blksnap.Buffer.{DiffBuffer, BufferPool, diff_buffer_release}
use blksnap.Area.Data.{
  ChunkSt, failed, dirty, buffer_ready, store_ready, loading, storing, ChunkState, no_bits, DiffIo,
  async_read, async_write, Chunk, chunk_state_set, chunk_state_unset, chunk_state_check, up, down,
  DiffArea, Answers, diff_area_chunk_sectors, in_cache,
}

-- The absolute value of an error number.
errno_number : Errno → ℕ
errno_number einval = 22
errno_number enomem = 12
errno_number eagain = 11
errno_number enospc = 28
errno_number efault = 14
errno_number eio = 5
errno_number enoent = 2
errno_number eintr = 4
errno_number ebusy = 16
errno_number enodata = 61
errno_number enodev = 19
errno_number eperm = 1
errno_number enobufs = 105
errno_number esrch = 3
errno_number ealready = 114
errno_number enotty = 25
errno_number (other n) = n

abbrev pub code_corrupted : ℕ
code_corrupted = 1

pub diff_area_event_corrupted : Alarm → DiffArea → Errno → DiffArea
unfolding event_gen errno_number
diff_area_event_corrupted l a e =
    let d = a.diff_storage in
    record a {
      diff_storage = record d {
        event_queue =
            (event_gen l.alloc l.time d.event_queue code_corrupted
              (a.orig_bdev ∷ errno_number e ∷ [])).1;
      };
    }

pub diff_area_set_corrupted : Alarm → DiffArea → Errno → DiffArea
unfolding diff_area_event_corrupted
diff_area_set_corrupted l a e =
    if a.corrupt_flag then a else diff_area_event_corrupted l (record a { corrupt_flag = true }) e

module _ (P : Params) where
  pub chunk_diff_buffer_release : DiffArea → Chunk → DiffArea × Chunk
  chunk_diff_buffer_release a c = elim c.diff_buffer [
    | none ↦ (a, c)
    | some b ↦ (
      record a { pool = diff_buffer_release P a.pool b },
      record (chunk_state_unset c buffer_ready) { diff_buffer = none },
    )
  ]

  -- `result` is `ok` where the source passes the error 0.
  pub chunk_store_failed : Alarm → DiffArea → Chunk → (result : Ret) → DiffArea × Chunk
  unfolding chunk_diff_buffer_release
  chunk_store_failed l a c result =
      let (a', c') = chunk_diff_buffer_release a (chunk_state_set c failed) in
      let c'' = up (record c' { diff_region = none }) in
      elim result [ ok ↦ (a', c'') | err e ↦ (diff_area_set_corrupted l a' e, c'') ]

  -- Starts the write of the chunk to its region.
  pub chunk_async_store_diff :
      Answers → DiffArea → Chunk → (is_nowait : Bool) → Ret × DiffArea × Chunk
  chunk_async_store_diff k a c is_nowait =
      if in_cache a c
      then (err einval, a, c)
      else if not k.io_alloc
      then (err (if is_nowait then eagain else enomem), a, c)
      else (let c' = chunk_state_set c storing in
          elim k.io_do [
            | ok ↦ (
              ok,
              record a { pending_io_count = a.pending_io_count + 1 },
              record c' { diff_io = some async_write },
            )
            | err e ↦ (err e, a, record c' { diff_io = none })
          ])

  -- Starts the read of the chunk from the original device.
  unfoldable pub chunk_async_load_orig :
      Answers → DiffArea → Chunk → (is_nowait : Bool) → Ret × DiffArea × Chunk
  chunk_async_load_orig k a c is_nowait =
      if not k.io_alloc
      then (err (if is_nowait then eagain else enomem), a, c)
      else (let c' = chunk_state_set c loading in
          elim k.io_do [
            | ok ↦ (
              ok,
              record a { pending_io_count = a.pending_io_count + 1 },
              record c' { diff_io = some async_read },
            )
            | err e ↦ (err e, a, record c' { diff_io = none })
          ])

  -- The synchronous loads, from the original device and from the region.
  pub chunk_load_orig : Answers → Ret
  chunk_load_orig k =
      if not k.io_alloc then err enomem else elim k.io_do [ ok ↦ k.orig_error | err e ↦ err e ]

  pub chunk_load_diff : Answers → Ret
  chunk_load_diff k =
      if not k.io_alloc then err enomem else elim k.io_do [ ok ↦ k.diff_error | err e ↦ err e ]

  -- The rest of `chunk_schedule_storing` once there is a region.
  pub with_region : Answers → DiffArea → Chunk → (is_nowait : Bool) → Ret × DiffArea × Chunk
  unfolding chunk_async_store_diff
  with_region k a c is_nowait = elim c.diff_region [
    | some _ ↦ chunk_async_store_diff k a c is_nowait
    | none ↦
        let (out, d) =
          diff_storage_new_region P k.region_alloc k.alarm a.diff_storage
            (diff_area_chunk_sectors a) in
        elim out [
          | error e ↦ (err e, record a { diff_storage = d }, c)
          | region r ↦
              chunk_async_store_diff k (record a { diff_storage = d })
                (record c { diff_region = some r }) is_nowait
        ]
  ]

  pub chunk_schedule_storing :
      Answers → DiffArea → Chunk → (is_nowait : Bool) → Ret × DiffArea × Chunk
  unfolding with_region
  chunk_schedule_storing k a c is_nowait =
      if in_cache a c then (err einval, a, c) else with_region k a c is_nowait

  pub chunk_schedule_caching : Alarm → DiffArea → Chunk → DiffArea × Chunk
  unfolding chunk_store_failed
  chunk_schedule_caching l a c =
      if in_cache a c
      then chunk_store_failed l a c ok
      else if chunk_state_check c dirty
      then (
        record a {
          write_cache_queue = a.write_cache_queue ++ (c.number ∷ []);
          write_cache_count = a.write_cache_count + 1;
          cache_release_work =
              a.cache_release_work || ltb P.chunk_maximum_in_cache (a.write_cache_count + 1);
        },
        up c,
      )
      else (
        record a {
          read_cache_queue = a.read_cache_queue ++ (c.number ∷ []);
          read_cache_count = a.read_cache_count + 1;
          cache_release_work =
              a.cache_release_work || ltb P.chunk_maximum_in_cache (a.read_cache_count + 1);
        },
        up c,
      )

  -- A call of `chunk_schedule_storing` whose error fails the chunk.
  pub store_or_fail : Answers → DiffArea → Chunk → (is_nowait : Bool) → Ret × DiffArea × Chunk
  unfolding chunk_schedule_storing chunk_store_failed
  store_or_fail k a c is_nowait =
      let (ret, a', c') = chunk_schedule_storing k a c is_nowait in
      elim ret [
        | ok ↦ (ok, a', c')
        | err e ↦ let (a'', c'') = chunk_store_failed k.alarm a' c' (err e) in (err e, a'', c'')
      ]

  abbrev io_done : DiffArea × Chunk → DiffArea × Chunk
  io_done (a, c) = (record a { pending_io_count = a.pending_io_count - 1 }, c)

  -- `result` is how the I/O ended.
  pub chunk_notify_load : Answers → DiffArea → Chunk → (result : Ret) → DiffArea × Chunk
  unfolding store_or_fail chunk_store_failed
  chunk_notify_load k a c result =
      let c' = record c { diff_io = none } in
      elim result [
        | err e ↦ io_done (chunk_store_failed k.alarm a c' (err e))
        | ok ↦
            if chunk_state_check c' failed
            then io_done (a, up c')
            else if chunk_state_check c' loading
            then (let (_, a', c'') =
                  store_or_fail k a (chunk_state_set (chunk_state_unset c' loading) buffer_ready)
                    false in
                io_done (a', c''))
            else io_done (a, up c')
      ]

  -- The part of `chunk_notify_store` for a chunk that was being stored.
  pub stored : Answers → DiffArea → Chunk → DiffArea × Chunk
  unfolding chunk_schedule_caching chunk_diff_buffer_release
  stored k a c =
      let c' = chunk_state_set (chunk_state_unset c storing) store_ready in
      if chunk_state_check c' dirty
      then (let (a', c'') = chunk_diff_buffer_release a (chunk_state_unset c' dirty) in
          (a', up c''))
      else chunk_schedule_caching k.alarm a c'

  pub chunk_notify_store : Answers → DiffArea → Chunk → (result : Ret) → DiffArea × Chunk
  unfolding stored chunk_store_failed
  chunk_notify_store k a c result =
      let c' = record c { diff_io = none } in
      elim result [
        | err e ↦ io_done (chunk_store_failed k.alarm a c' (err e))
        | ok ↦
            if chunk_state_check c' failed
            then io_done (chunk_store_failed k.alarm a c' ok)
            else if chunk_state_check c' storing
            then io_done (stored k a c')
            else io_done (a, up c')
      ]

  -- `none` is the null pointer.
  pub chunk_alloc : (alloc : Bool) → (number : ℕ) → Option Chunk
  chunk_alloc false number = none
  chunk_alloc true number = some (record {
    number = number;
    sector_count = 0;
    locked = false;
    state = no_bits;
    diff_buffer = none;
    diff_region = none;
    diff_io = none;
  })

  -- The area after the chunk is freed.
  pub chunk_free : DiffArea → Chunk → DiffArea
  unfolding chunk_diff_buffer_release
  chunk_free a c = (chunk_diff_buffer_release a (down c)).0
