-- ===== src/Area/Image.antt =====
-- The access to the snapshot image in module/diff_area.c: opening and releasing the chunk that an I/O
-- works on, and which bytes of its buffer the I/O copies. The data itself is not modelled.
pub mod Life
pub mod Pieces
pub mod Refused
mod Tests
use blksnap.Prelude.{
  ℕ, zero, suc, ◌+◌, ◌-◌, ◌*◌, ◌/◌, ◌^◌, min, List, [], ◌∷◌, Bool, true, false, not, Option, none,
  some, ◌==◌, if◌then◌else◌,
}
use blksnap.Kernel.{
  Errno, einval, eintr, eio, Ret, ok, err, Params, Rounding, u64, add64, sub64, sector_shift,
}
use blksnap.Buffer.{
  DiffBuffer, DiffBufferIter, diff_buffer_iter_get, diff_buffer_take, Taken, buffer, error,
}
use blksnap.Area.Data.{
  ChunkSt, failed, dirty, buffer_ready, store_ready, Chunk, chunk_state_set, chunk_state_check, up,
  down, DiffArea, Answers, diff_area_chunk_sectors, chunk_number, xa_load, store,
}
use blksnap.Area.Chunk.{chunk_load_orig, chunk_load_diff, chunk_schedule_caching}
use blksnap.Area.Cache.{diff_area_take_chunk_from_cache}

-- `struct diff_area_image_ctx` beside the area; the chunk that it holds, locked, by its number.
pub record DiffAreaImageCtx : Type 0 where
  pub is_write : Bool
  pub chunk : Option ℕ

abbrev pub diff_area_image_ctx_init : (is_write : Bool) → DiffAreaImageCtx
diff_area_image_ctx_init is_write = record { is_write = is_write; chunk = none }

-- What a request for a chunk comes to. `sleeps`: another thread has the chunk.
pub data Got : Type 0 where
  got : Chunk → DiffArea → DiffAreaImageCtx → Got
  refused : Errno → DiffArea → DiffAreaImageCtx → Got
  sleeps : DiffArea → DiffAreaImageCtx → Got

module _ (K : Rounding) (P : Params) where
  pub diff_area_image_put_chunk : Answers → DiffArea → Chunk → (is_write : Bool) → DiffArea × Chunk
  diff_area_image_put_chunk k a c is_write =
      chunk_schedule_caching P k.alarm a (if is_write then chunk_state_set c dirty else c)

  -- The release of the chunk with a number, if the map has it.
  put_number : (ℕ → Answers) → DiffArea → ℕ → (is_write : Bool) → DiffArea
  unfolding diff_area_image_put_chunk
  put_number k a number is_write = elim (xa_load a number) [
    | none ↦ a
    | some c ↦ let (a', c') = diff_area_image_put_chunk (k number) a c is_write in store a' c'
  ]

  pub diff_area_image_ctx_done : (ℕ → Answers) → DiffArea → DiffAreaImageCtx → DiffArea
  unfolding put_number
  diff_area_image_ctx_done k a x = elim x.chunk [
    | none ↦ a
    | some number ↦ put_number k a number x.is_write
  ]

  pub diff_area_load_chunk_from_storage : Answers → DiffArea → Chunk → Ret × DiffArea × Chunk
  diff_area_load_chunk_from_storage k a c =
      let (out, pool) = diff_buffer_take K k.pages a.pool (diff_area_chunk_sectors a) false in
      elim out [
        | error e ↦ (err e, record a { pool = pool }, c)
        | buffer b ↦ (
          if chunk_state_check c store_ready then chunk_load_diff P k else chunk_load_orig P k,
          record a { pool = pool },
          record c { diff_buffer = some b },
        )
      ]

  -- The part of `diff_area_image_context_get_chunk` that has the semaphore of the new chunk.
  pub open_chunk : Answers → DiffArea → Chunk → Ret × DiffArea × Chunk
  unfolding diff_area_load_chunk_from_storage
  open_chunk k a c =
      if chunk_state_check c failed
      then (err eio, a, up c)
      else if not (chunk_state_check c buffer_ready)
      then (let (ret, a', c') = diff_area_load_chunk_from_storage k a c in
          elim ret [ ok ↦ (ok, a', chunk_state_set c' buffer_ready) | err e ↦ (err e, a', up c') ])
      else (ok, diff_area_take_chunk_from_cache a c, c)

  -- The part that takes the next chunk.
  pub take_next : Answers → DiffArea → DiffAreaImageCtx → (number : ℕ) → Got
  unfolding open_chunk
  take_next k a x number = elim (xa_load a number) [
    | none ↦ refused einval a x
    | some c ↦ elim c.locked [
      | true ↦ if k.killed then refused eintr a x else sleeps a x
      | false ↦
          let (ret, a', c') = open_chunk k a (down c) in
          elim ret [
            | err e ↦ refused e (store a' c') x
            | ok ↦ got c' (store a' c') (record x { chunk = some c'.number })
          ]
    ]
  ]

  pub diff_area_image_context_get_chunk :
      (ℕ → Answers) → DiffArea → DiffAreaImageCtx → (sector : ℕ) → Got
  unfolding take_next put_number
  diff_area_image_context_get_chunk k a x sector =
      let new_chunk_number = chunk_number a sector in
      let next = k new_chunk_number in
      elim x.chunk [
        | none ↦ take_next next a x new_chunk_number
        | some number ↦ elim (xa_load a number) [
          | none ↦ take_next next a x new_chunk_number
          | some c ↦
              if c.number == new_chunk_number
              then got c a x
              else take_next next (put_number k a number x.is_write) (record x { chunk = none })
                  new_chunk_number
        ]
      ]

-- `copy_page_from_iter` or `copy_page_to_iter` for part of a page.
pub record Piece : Type 0 where
  pub page : ℕ
  pub offset : ℕ
  pub bytes : ℕ

-- The inner loop of `diff_area_image_io`. `copy` says how many of the bytes asked for were copied.
-- The results are the pieces, the bytes of the I/O that are left, and whether nothing was copied;
-- `none` is the end of the fuel.
pub copy_loop :
    (fuel : ℕ)
    → (copy : ℕ → ℕ) → DiffBuffer
    → (buff_offset bv_len : ℕ) → Option (List Piece × ℕ × Bool)
copy_loop zero copy b buff_offset bv_len = none
copy_loop (suc fuel) copy b buff_offset bv_len = elim (bv_len == 0) [
  | true ↦ some ([], bv_len, false)
  | false ↦ elim (diff_buffer_iter_get b buff_offset) [
    | none ↦ some ([], bv_len, false)
    | some at ↦
        let sz = copy (min at.bytes bv_len) in
        elim (sz == 0) [
          | true ↦ some ([], bv_len, true)
          | false ↦ elim (copy_loop fuel copy b (add64 buff_offset sz) (bv_len - sz)) [
            | none ↦ none
            | some (pieces, left, failed_copy) ↦ some (
              record { page = at.page; offset = at.offset; bytes = sz } ∷ pieces,
              left,
              failed_copy,
            )
          ]
        ]
  ]
]

-- The sectors that the position moves for the pieces.
abbrev pub moved : List Piece → ℕ
moved [] = 0
moved (p ∷ pieces) = p.bytes / 512 + moved pieces

-- How an I/O on the image ends: well, with the pieces of each chunk by its number; with
-- BLK_STS_IOERR; on the semaphore of a chunk; at a null buffer; or with its fuel used up.
pub data ImageIo : Type 0 where
  done : List (ℕ × List Piece) → DiffArea → DiffAreaImageCtx → (pos : ℕ) → ImageIo
  io_error sleeping : DiffArea → DiffAreaImageCtx → ImageIo
  faults no_fuel : ImageIo

abbrev pub with_pieces : ℕ → List Piece → ImageIo → ImageIo
with_pieces n ps (done all a x pos) = done ((n, ps) ∷ all) a x pos
with_pieces n ps (io_error a x) = io_error a x
with_pieces n ps (sleeping a x) = sleeping a x
with_pieces n ps faults = faults
with_pieces n ps no_fuel = no_fuel

pub diff_area_image_io :
    Rounding
    → Params
    → (fuel : ℕ) → (copy : ℕ → ℕ) → (ℕ → Answers)
    → DiffArea
    → DiffAreaImageCtx
    → (bv_len pos : ℕ) → ImageIo
unfolding copy_loop diff_area_image_context_get_chunk
diff_area_image_io K P zero copy k a x bv_len pos = no_fuel
diff_area_image_io K P (suc fuel) copy k a x bv_len pos = elim (bv_len == 0) [
  | true ↦ done [] a x pos
  | false ↦ elim (diff_area_image_context_get_chunk K P k a x pos) [
    | refused _ a' x' ↦ io_error a' x'
    | sleeps a' x' ↦ sleeping a' x'
    | got c a' x' ↦ elim c.diff_buffer [
      | none ↦ faults
      | some b ↦
          let sector = u64 (c.number * 2 ^ sub64 a'.chunk_shift sector_shift) in
          elim (copy_loop (suc bv_len) copy b (u64 (sub64 pos sector * 512)) bv_len) [
            | none ↦ no_fuel
            | some (pieces, left, true) ↦ io_error a' x'
            | some (pieces, left, false) ↦
                with_pieces c.number pieces
                  (diff_area_image_io K P fuel copy k a' x' left (add64 pos (moved pieces)))
          ]
    ]
  ]
]
