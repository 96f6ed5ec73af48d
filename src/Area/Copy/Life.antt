-- ===== src/Area/Copy/Life.antt =====
-- What a round of `diff_area_copy` (module/diff_area.c) does to the phase of a chunk.
use blksnap.Prelude.{if_true, ◌⊎◌, inl, inr, refl, some, ◌≡◌, Bool, true, false, ◌||◌, arith}
use blksnap.Kernel.{Errno, err, Params, Rounding, Ret-cases}
use blksnap.Buffer.{DiffBuffer, Taken, diff_buffer_take, buffer, error}
use blksnap.Area.Data.{up, Chunk, DiffArea, Answers, down, diff_area_chunk_sectors}
use blksnap.Area.Phases.{
  safe, Phase, empty, broken, reading, saved, cached, writing, at, rests_at, held_at, can_fail,
}
use blksnap.Area.Chunk.{chunk_async_load_orig}
use blksnap.Area.Chunk.Life.{store_or_fail-Phase, store_failed-Phase, async_load-Phase}
use blksnap.Area.Cache.{diff_area_take_chunk_from_cache}
use blksnap.Area.Copy.{Step, continue, stop, copy_chunk, copy_cached, copy_fresh, fail_chunk}

-- Where a round leaves a chunk in the phase, if the write may go on.
abbrev pub copied : Phase → Chunk → Bool
copied empty c = at reading c
copied (cached false false) c = at (writing false false) c
copied p c = rests_at p c

abbrev pub after_copy : Phase → Step → Bool
after_copy p (continue _ c) = copied p c
after_copy p (stop _ _ c) = rests_at broken c

fail_chunk-Phase :
    (K : Rounding) (P : Params) (k : Answers) (a : DiffArea) (c : Chunk) (e : Errno) (p : Phase)
    → can_fail c ≡ true
    → after_copy p (fail_chunk K P k a c e) ≡ true
unfolding fail_chunk
fail_chunk-Phase K P k a c e p h = ground (arith, store_failed-Phase P k.alarm a c (err e) h)

copy_cached-Phase :
    (K : Rounding) (P : Params) (k : Answers) (nowait : Bool) (a : DiffArea) (c : Chunk)
    → held_at (cached false false) c ≡ true
    → after_copy (cached false false) (copy_cached K P k nowait a c) ≡ true
unfolding copy_cached
copy_cached-Phase K P k nowait a c h =
    ground
      (arith, store_or_fail-Phase P k (diff_area_take_chunk_from_cache a c) c nowait false false h)

pub Taken-cases : (t : Taken) → ((b : DiffBuffer) × (t ≡ buffer b)) ⊎ ((e : Errno) × (t ≡ error e))
Taken-cases (buffer b) = inl (b, refl)
Taken-cases (error e) = inr (e, refl)

copy_fresh-Phase :
    (K : Rounding) (P : Params) (k : Answers) (nowait : Bool) (a : DiffArea) (c : Chunk)
    → held_at empty c ≡ true
    → after_copy empty (copy_fresh K P k nowait a c) ≡ true
unfolding copy_fresh
copy_fresh-Phase K P k nowait a c h =
    let taken = diff_buffer_take K k.pages a.pool (diff_area_chunk_sectors a) nowait in
    let a' : DiffArea = record a { pool = taken.1 } in
    elim (Taken-cases taken.0) [
      | inr (e, out) ↦ ground (arith, out, fail_chunk-Phase K P k a' c e empty (ground arith))
      | inl (b, out) ↦
          let loaded = chunk_async_load_orig P k a' (record c { diff_buffer = some b }) nowait in
          elim (Ret-cases loaded.0) [
            | inl ok_ret ↦
                ground (arith, out, ok_ret, async_load-Phase P k a' c nowait (ground arith) b)
            | inr (e, failed_ret) ↦ ground (
              arith,
              out,
              failed_ret,
              async_load-Phase P k a' c nowait (ground arith) b,
              fail_chunk-Phase K P k loaded.1 loaded.2 e empty
                  (ground (arith, failed_ret, async_load-Phase P k a' c nowait (ground arith) b)),
            )
          ]
    ]

-- The three ways into a round, by the bits of the chunk.
copy_chunk-kept :
    (K : Rounding) (P : Params) (k : Answers) (nowait : Bool) (a : DiffArea) (c : Chunk)
    → c.state.is_failed || c.state.is_dirty || c.state.is_store_ready ≡ true
    → copy_chunk K P k nowait a c ≡ continue a (up c)
unfolding copy_chunk
copy_chunk-kept K P k nowait a c h = if_true _ _ _ h

copy_chunk-fresh :
    (K : Rounding) (P : Params) (k : Answers) (nowait : Bool) (a : DiffArea) (c : Chunk)
    → at empty c ≡ true
    → copy_chunk K P k nowait a c ≡ copy_fresh K P k nowait a c
unfolding copy_chunk
copy_chunk-fresh K P k nowait a c h = ground arith

copy_chunk-cached :
    (K : Rounding) (P : Params) (k : Answers) (nowait : Bool) (a : DiffArea) (c : Chunk)
    → at (cached false false) c ≡ true
    → copy_chunk K P k nowait a c ≡ copy_cached K P k nowait a c
unfolding copy_chunk
copy_chunk-cached K P k nowait a c h = ground arith

keeps :
    (K : Rounding) (P : Params) (k : Answers) (nowait : Bool) (a : DiffArea) (c : Chunk) (p : Phase)
    → c.state.is_failed || c.state.is_dirty || c.state.is_store_ready ≡ true
    → copied p (up (down c)) ≡ true
    → after_copy p (copy_chunk K P k nowait a (down c)) ≡ true
keeps K P k nowait a c p h kept = rw (copy_chunk-kept K P k nowait a (down c) h) kept

pub copy_chunk-Phase :
    (K : Rounding) (P : Params) (k : Answers) (nowait : Bool) (a : DiffArea) (c : Chunk) (p : Phase)
    → rests_at p c ≡ true
    → after_copy p (copy_chunk K P k nowait a (down c)) ≡ true
copy_chunk-Phase K P k nowait a c empty h =
    rw (copy_chunk-fresh K P k nowait a (down c) (ground arith))
      (copy_fresh-Phase K P k nowait a (down c) (ground arith))
copy_chunk-Phase K P k nowait a c (cached false false) h =
    rw (copy_chunk-cached K P k nowait a (down c) (ground arith))
      (copy_cached-Phase K P k nowait a (down c) (ground arith))
copy_chunk-Phase K P k nowait a c (cached false true) h =
    keeps K P k nowait a c (cached false true) (ground arith) (ground arith)
copy_chunk-Phase K P k nowait a c (cached true s) h =
    keeps K P k nowait a c (cached true s) (ground arith) (ground arith)
copy_chunk-Phase K P k nowait a c broken h =
    keeps K P k nowait a c broken (ground arith) (ground arith)
copy_chunk-Phase K P k nowait a c saved h =
    keeps K P k nowait a c saved (ground arith) (ground arith)
copy_chunk-Phase K P k nowait a c reading h = ground arith
copy_chunk-Phase K P k nowait a c (writing d s) h = ground arith

-- What a round that lets the loop go on leaves of its chunk.
pub passed :
    (p : Phase) (a : DiffArea) (c : Chunk)
    → after_copy p (continue a c) ≡ true
    → (p' : Phase) × (at p' c ≡ true) × (safe p' ≡ true)
passed empty a c h = (reading, h, refl)
passed (cached false false) a c h = (writing false false, h, refl)
passed (cached false true) a c h = (cached false true, ground arith, refl)
passed (cached true x) a c h = (cached true x, ground arith, refl)
passed broken a c h = (broken, ground arith, refl)
passed reading a c h = (reading, ground arith, refl)
passed saved a c h = (saved, ground arith, refl)
passed (writing d x) a c h = (writing d x, ground arith, refl)
