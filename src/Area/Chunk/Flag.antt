-- ===== src/Area/Chunk/Flag.antt =====
-- module/chunk.c and module/diff_area.c: which operations set the error flag of the area.
use blksnap.Prelude.{◌≡◌, inl, inr, Bool, true, arith}
use blksnap.Kernel.{Errno, Ret, ok, err, Ret-cases, Params}
use blksnap.Storage.{Alarm}
use blksnap.Area.Data.{Chunk, DiffArea, Answers}
use blksnap.Area.Chunk.{
  diff_area_event_corrupted, diff_area_set_corrupted, chunk_store_failed, chunk_schedule_storing,
  store_or_fail,
}

pub set_corrupted_flag :
    (l : Alarm) (a : DiffArea) (e : Errno) → (diff_area_set_corrupted l a e).corrupt_flag ≡ true
unfolding diff_area_set_corrupted diff_area_event_corrupted
set_corrupted_flag l a e = ground arith

pub store_failed_flag :
    (P : Params) (l : Alarm) (a : DiffArea) (c : Chunk) (e : Errno)
    → (chunk_store_failed P l a c (err e)).0.corrupt_flag ≡ true
unfolding chunk_store_failed
store_failed_flag P l a c e = set_corrupted_flag _ _ _

abbrev fails_corrupted : Ret → DiffArea → Bool
fails_corrupted ok a = true
fails_corrupted (err _) a = a.corrupt_flag

pub store_or_fail_flag :
    (P : Params) (k : Answers) (a : DiffArea) (c : Chunk) (nowait : Bool)
    → let (ret, a', c') = store_or_fail P k a c nowait in fails_corrupted ret a' ≡ true
unfolding store_or_fail
store_or_fail_flag P k a c nowait =
    let r = chunk_schedule_storing P k a c nowait in
    elim (Ret-cases r.0) [
      | inl fine ↦ ground (arith, fine)
      | inr (e, fails) ↦ ground (arith, fails, store_failed_flag P k.alarm r.1 r.2 e)
    ]

-- The flag is all that it changes of what the chunks are.
pub set_corrupted_map :
    (l : Alarm) (a : DiffArea) (e : Errno)
    → let b = diff_area_set_corrupted l a e in
      (b.chunk_map ≡ a.chunk_map) × (b.chunk_shift ≡ a.chunk_shift)
unfolding diff_area_set_corrupted diff_area_event_corrupted
set_corrupted_map l a e = ground arith
