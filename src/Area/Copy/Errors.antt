-- ===== src/Area/Copy/Errors.antt =====
-- Why `diff_area_copy` (module/diff_area.c) returns an error.
use blksnap.Prelude.{
  ℕ, zero, suc, ◌≡◌, ◌⊎◌, refl, inl, inr, Bool, true, false, some, arith, Bool-cases, Option-cases,
  sym, ap, ◌∙◌, ltb, if◌then◌else◌,
}
use blksnap.Kernel.{
  Errno, Ret-cases, einval, efault, eagain, eintr, ok, err, Params, Rounding, add64,
}
use blksnap.Buffer.{diff_buffer_take}
use blksnap.Area.Data.{
  Chunk, DiffArea, Answers, down, chunk_number, xa_load, store, diff_area_chunk_sectors,
}
use blksnap.Area.Chunk.{chunk_async_load_orig}
use blksnap.Area.Chunk.Flag.{
  set_corrupted_flag, set_corrupted_map, store_failed_flag, store_or_fail_flag,
}
use blksnap.Area.Cache.{diff_area_take_chunk_from_cache}
use blksnap.Area.Copy.Loop.{Step-cases}
use blksnap.Area.Copy.Kept.{copy_chunk-Keeps, area_of}
use blksnap.Area.Copy.Life.{Taken-cases}
use blksnap.Area.Copy.{
  Step, continue, stop, Run, done, sleeps, no_fuel, copy_chunk, copy_cached, copy_fresh, fail_chunk,
  chunk_loop, diff_area_copy,
}

-- A round that stops has marked the area as corrupted.
abbrev stops_corrupted : Step → Bool
stops_corrupted (continue _ _) = true
stops_corrupted (stop _ a _) = a.corrupt_flag

fail_chunk_flag :
    (K : Rounding) (P : Params) (k : Answers) (a : DiffArea) (c : Chunk) (e : Errno)
    → stops_corrupted (fail_chunk K P k a c e) ≡ true
unfolding fail_chunk
fail_chunk_flag K P k a c e = store_failed_flag P k.alarm a c e

copy_cached_flag :
    (K : Rounding) (P : Params) (k : Answers) (nowait : Bool) (a : DiffArea) (c : Chunk)
    → stops_corrupted (copy_cached K P k nowait a c) ≡ true
unfolding copy_cached
copy_cached_flag K P k nowait a c =
    let a' = diff_area_take_chunk_from_cache a c in
    ground (arith, store_or_fail_flag P k a' c nowait)

copy_fresh_flag :
    (K : Rounding) (P : Params) (k : Answers) (nowait : Bool) (a : DiffArea) (c : Chunk)
    → stops_corrupted (copy_fresh K P k nowait a c) ≡ true
unfolding copy_fresh
copy_fresh_flag K P k nowait a c =
    let taken = diff_buffer_take K k.pages a.pool (diff_area_chunk_sectors a) nowait in
    let a' : DiffArea = record a { pool = taken.1 } in
    elim (Taken-cases taken.0) [
      | inr (e, out) ↦ ground (arith, out, fail_chunk_flag K P k a' c e)
      | inl (b, out) ↦
          let loaded = chunk_async_load_orig P k a' (record c { diff_buffer = some b }) nowait in
          elim (Ret-cases loaded.0) [
            | inl ok_ret ↦ ground (arith, out, ok_ret)
            | inr (e, failed_ret) ↦
                ground (arith, out, failed_ret, fail_chunk_flag K P k loaded.1 loaded.2 e)
          ]
    ]

copy_chunk_flag :
    (K : Rounding) (P : Params) (k : Answers) (nowait : Bool) (a : DiffArea) (c : Chunk)
    → stops_corrupted (copy_chunk K P k nowait a c) ≡ true
unfolding copy_chunk
copy_chunk_flag K P k nowait a c = ground (
  arith,
  fail_chunk_flag K P k a c efault,
  copy_cached_flag K P k nowait a c,
  copy_fresh_flag K P k nowait a c,
)

-- An error is EAGAIN, or comes from a wait that was interrupted, or the area is corrupted.
abbrev pub Blamed : (ℕ → Answers) → Run → Type 0
Blamed k (done (err e) a) =
    (e ≡ eagain) ⊎ (((j : ℕ) × ((k j).killed ≡ true)) ⊎ (a.corrupt_flag ≡ true))
Blamed k (done ok a) = Unit
Blamed k (sleeps _ a) = Unit
Blamed k no_fuel = Unit

module _ (K : Rounding) (P : Params) (k : ℕ → Answers) (nowait : Bool) (end : ℕ) where
  abbrev body : Answers → DiffArea → Chunk → Step
  body answers a c = copy_chunk K P answers nowait a c

  locked-Blamed :
      (n : ℕ) (a : DiffArea) (b d : Bool)
      → (d ≡ true → (k n).killed ≡ true)
      → (offset : ℕ)
      → Blamed k
          (if b then done (err eagain) a else if d then done (err eintr) a else sleeps offset a)
  locked-Blamed n a true d why offset = inl refl
  locked-Blamed n a false true why offset = inr (inl (n, why refl))
  locked-Blamed n a false false why offset = tt

  pub loop-Blamed :
      (fuel offset : ℕ) (a : DiffArea) → Blamed k (chunk_loop K P body k nowait fuel offset end a)
  unfolding chunk_loop
  loop-Blamed zero offset a = tt
  loop-Blamed (suc fuel) offset a = elim (Bool-cases (ltb offset end)) [
    | inr past ↦ rw (past, chunk_loop) tt
    | inl inside ↦
        let n = chunk_number a offset in
        elim (Option-cases (xa_load a n)) [
          | inl missing ↦
              rw (inside, missing, chunk_loop) (inr (inr (set_corrupted_flag (k n).alarm a einval)))
          | inr (c, found) ↦ elim (Bool-cases c.locked) [
            | inl taken ↦
                rw (inside, found, taken, chunk_loop)
                  (locked-Blamed n a nowait (k n).killed (λ e. e) offset)
            | inr free ↦ elim (Step-cases (copy_chunk K P (k n) nowait a (down c))) [
              | inl (a', c', goes) ↦
                  rw (inside, found, free, goes, chunk_loop)
                    (loop-Blamed fuel (add64 offset (diff_area_chunk_sectors a)) (store a' c'))
              | inr (e, a', c', stops) ↦
                  rw (inside, found, free, stops, chunk_loop)
                    (inr (
                      inr (
                        ap stops_corrupted (sym stops)
                        ∙ copy_chunk_flag K P (k n) nowait a (down c))))
            ]
          ]
        ]
  ]

-- The size of the chunks stays as it is.
abbrev pub Sized : ℕ → Run → Type 0
Sized shift (done _ a) = a.chunk_shift ≡ shift
Sized shift (sleeps _ a) = a.chunk_shift ≡ shift
Sized shift no_fuel = Unit

module _ (K : Rounding) (P : Params) (k : ℕ → Answers) (nowait : Bool) (end shift : ℕ) where
  locked-Sized :
      (offset : ℕ) (a : DiffArea) (b d : Bool)
      → a.chunk_shift ≡ shift
      → Sized shift
          (if b then done (err eagain) a else if d then done (err eintr) a else sleeps offset a)
  locked-Sized offset a true d h = h
  locked-Sized offset a false true h = h
  locked-Sized offset a false false h = h

  loop-Sized :
      (fuel offset : ℕ) (a : DiffArea)
      → a.chunk_shift ≡ shift
      → Sized shift (chunk_loop K P (body K P k nowait end) k nowait fuel offset end a)
  unfolding chunk_loop
  loop-Sized zero offset a h = tt
  loop-Sized (suc fuel) offset a h = elim (Bool-cases (ltb offset end)) [
    | inr past ↦ rw (past, chunk_loop) h
    | inl inside ↦
        let n = chunk_number a offset in
        elim (Option-cases (xa_load a n)) [
          | inl missing ↦
              rw (inside, missing, chunk_loop) ((set_corrupted_map (k n).alarm a einval).1 ∙ h)
          | inr (c, found) ↦ elim (Bool-cases c.locked) [
            | inl taken ↦
                rw (inside, found, taken, chunk_loop) (locked-Sized offset a nowait (k n).killed h)
            | inr free ↦
                let kept = (copy_chunk-Keeps K P (k n) nowait a (down c)).1 in
                elim (Step-cases (copy_chunk K P (k n) nowait a (down c))) [
                  | inl (a', c', goes) ↦
                      rw (inside, found, free, goes, chunk_loop)
                        (loop-Sized fuel (add64 offset (diff_area_chunk_sectors a)) (store a' c')
                          (ap (λ s. (area_of s).chunk_shift) (sym goes) ∙ kept ∙ h))
                  | inr (e, a', c', stops) ↦
                      rw (inside, found, free, stops, chunk_loop)
                        (ap (λ s. (area_of s).chunk_shift) (sym stops) ∙ kept ∙ h)
                ]
          ]
        ]
  ]

pub diff_area_copy-Sized :
    (K : Rounding) (P : Params) (k : ℕ → Answers) (nowait : Bool) (a : DiffArea)
    (sector count fuel : ℕ)
    → Sized a.chunk_shift (diff_area_copy K P fuel k a sector count nowait)
unfolding diff_area_copy
diff_area_copy-Sized K P k nowait a sector count fuel =
    loop-Sized K P k nowait (add64 sector count) a.chunk_shift fuel
      (K.round_down sector (diff_area_chunk_sectors a)) a refl

pub diff_area_copy-Blamed :
    (K : Rounding) (P : Params) (k : ℕ → Answers) (nowait : Bool) (a : DiffArea)
    (sector count fuel : ℕ)
    → Blamed k (diff_area_copy K P fuel k a sector count nowait)
unfolding diff_area_copy
diff_area_copy-Blamed K P k nowait a sector count fuel =
    loop-Blamed K P k nowait (add64 sector count) fuel
      (K.round_down sector (diff_area_chunk_sectors a)) a
