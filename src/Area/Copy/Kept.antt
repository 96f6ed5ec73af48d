-- ===== src/Area/Copy/Kept.antt =====
-- What a round of `diff_area_copy` (module/diff_area.c) leaves as it is.
use blksnap.Prelude.{inl, inr, Bool, some, arith}
use blksnap.Kernel.{Errno, err, efault, Ret-cases, Params, Rounding}
use blksnap.Buffer.{diff_buffer_take}
use blksnap.Area.Data.{Chunk, DiffArea, Answers, diff_area_chunk_sectors}
use blksnap.Area.Chunk.{chunk_async_load_orig}
use blksnap.Area.Chunk.Kept.{Same, store_failed-Same, store_or_fail-Same, async_load-Same}
use blksnap.Area.Cache.{diff_area_take_chunk_from_cache}
use blksnap.Area.Cache.Life.{take_chunk_keeps}
use blksnap.Area.Copy.Life.{Taken-cases}
use blksnap.Area.Copy.{Step, continue, stop, copy_chunk, copy_cached, copy_fresh, fail_chunk}

abbrev pub area_of : Step → DiffArea
area_of (continue a _) = a
area_of (stop _ a _) = a

abbrev pub chunk_in : Step → Chunk
chunk_in (continue _ c) = c
chunk_in (stop _ _ c) = c

abbrev pub Keeps : DiffArea → Chunk → Step → Type 0
Keeps a c s = Same a c (area_of s) (chunk_in s)

fail_chunk-Keeps :
    (K : Rounding) (P : Params) (k : Answers) (a : DiffArea) (c : Chunk) (e : Errno)
    → Keeps a c (fail_chunk K P k a c e)
unfolding fail_chunk
fail_chunk-Keeps K P k a c e = store_failed-Same P k.alarm a c (err e)

copy_cached-Keeps :
    (K : Rounding) (P : Params) (k : Answers) (nowait : Bool) (a : DiffArea) (c : Chunk)
    → Keeps a c (copy_cached K P k nowait a c)
unfolding copy_cached
copy_cached-Keeps K P k nowait a c =
    let a' = diff_area_take_chunk_from_cache a c in
    ground (arith, take_chunk_keeps a c, store_or_fail-Same P k a' c nowait)

copy_fresh-Keeps :
    (K : Rounding) (P : Params) (k : Answers) (nowait : Bool) (a : DiffArea) (c : Chunk)
    → Keeps a c (copy_fresh K P k nowait a c)
unfolding copy_fresh
copy_fresh-Keeps K P k nowait a c =
    let taken = diff_buffer_take K k.pages a.pool (diff_area_chunk_sectors a) nowait in
    let a' : DiffArea = record a { pool = taken.1 } in
    elim (Taken-cases taken.0) [
      | inr (e, out) ↦ ground (arith, out, fail_chunk-Keeps K P k a' c e)
      | inl (b, out) ↦
          let c' : Chunk = record c { diff_buffer = some b } in
          let loaded = chunk_async_load_orig P k a' c' nowait in
          elim (Ret-cases loaded.0) [
            | inl ok_ret ↦ ground (arith, out, ok_ret, async_load-Same P k a' c' nowait)
            | inr (e, failed_ret) ↦ ground (
              arith,
              out,
              failed_ret,
              async_load-Same P k a' c' nowait,
              fail_chunk-Keeps K P k loaded.1 loaded.2 e,
            )
          ]
    ]

pub copy_chunk-Keeps :
    (K : Rounding) (P : Params) (k : Answers) (nowait : Bool) (a : DiffArea) (c : Chunk)
    → Keeps a c (copy_chunk K P k nowait a c)
unfolding copy_chunk
copy_chunk-Keeps K P k nowait a c = ground (
  arith,
  fail_chunk-Keeps K P k a c efault,
  copy_cached-Keeps K P k nowait a c,
  copy_fresh-Keeps K P k nowait a c,
)
