-- ===== src/Area/Copy/Whole.antt =====
-- What `diff_area_copy` (module/diff_area.c) as a whole promises for the range of a write.
use native.Mathlib.Nat.{mul-le-mul_right, div-mul-le_self, lt-div-mul-add}
use native.Mathlib.Decide.{dec_lt}
use blksnap.Prelude.{
  ℕ, zero, suc, ◌+◌, ◌*◌, ◌/◌, ◌^◌, ◌≤◌, ◌<◌, ◌≡◌, refl, sym, ap, ◌∙◌, inl, inr, Bool, true, false,
  some, arith, Bool-cases, Option-cases, pow_pos, if◌then◌else◌, get_elem?, div_mono,
}
use blksnap.Kernel.{einval, eagain, eintr, ok, err, Params, Rounding}
use blksnap.Area.Data.{Chunk, DiffArea, Answers, down, xa_load, store}
use blksnap.Area.Phases.{broken}
use blksnap.Area.Chunk.{diff_area_set_corrupted}
use blksnap.Area.Chunk.Kept.{set_corrupted-Same}
use blksnap.Area.Copy.{Run, done, sleeps, no_fuel, copy_chunk, diff_area_copy}
use blksnap.Area.Copy.Kept.{area_of, chunk_in, copy_chunk-Keeps}
use blksnap.Area.Copy.Life.{after_copy, copy_chunk-Phase, passed}
use blksnap.Area.Copy.Loop.{
  loop, loop_end, loop_missing, loop-stop, loop_next, loop_locked, Sound, IsSafe, Post, Post-next,
  store-Sound, Step-cases, first_chunk, range_end,
}

module _ (K : Rounding) (P : Params) (k : ℕ → Answers) (nowait : Bool) (i end : ℕ) (small : i ≤ 43)
    (room : end + 2 ^ i ≤ 2 ^ 64) where
  missing_Post :
      (n : ℕ) (a : DiffArea)
      → Sound a
      → Post i end n a (done (err einval) (diff_area_set_corrupted (k n).alarm a einval))
  missing_Post n a sound j c found =
      sound j c
        (sym (ap (λ m. get_elem? m j) (set_corrupted-Same (k n).alarm a c einval).0) ∙ found)

  locked_Post :
      (n : ℕ) (a : DiffArea)
      → Sound a
      → (b d : Bool)
      → Post i end n a (
          if b then done (err eagain) a else if d then done (err eintr) a else sleeps (n * 2 ^ i) a)
  locked_Post n a sound true d = sound
  locked_Post n a sound false true = sound
  locked_Post n a sound false false = sound

  ended_Post :
      (fuel n : ℕ) (a : DiffArea)
      → Sound a
      → end ≤ n * 2 ^ i
      → Post i end n a (loop K P k nowait i end small room (suc fuel) n a)
  ended_Post fuel n a sound past = rw (loop_end K P k nowait i end small room fuel n a past) (
    sound,
    λ j from inside. absurd (omega (arith, mul-le-mul_right (2 ^ i) from)),
    λ j below. refl,
  )

  -- A round on a chunk that was found, with its semaphore free; `rest` is the loop from the next.
  found_Post :
      (fuel n : ℕ) (a : DiffArea) (c : Chunk)
      → Sound a
      → a.chunk_shift ≡ 9 + i
      → n * 2 ^ i < end
      → xa_load a n ≡ some c
      → c.locked ≡ false
      → ((b : DiffArea)
          → Sound b
          → b.chunk_shift ≡ 9 + i
          → Post i end (suc n) b (loop K P k nowait i end small room fuel (suc n) b))
      → Post i end n a (loop K P k nowait i end small room (suc fuel) n a)
  found_Post fuel n a c sound sized inside found free rest =
      let (here, (p, at_p)) = sound n c found in
      let s = copy_chunk K P (k n) nowait a (down c) in
      let phase = copy_chunk-Phase K P (k n) nowait a c p (ground arith) in
      let (map, shift, number) = copy_chunk-Keeps K P (k n) nowait a (down c) in
      elim (Step-cases s) [
        | inr (e, a', c', stops) ↦
            let map' = ap (λ s. (area_of s).chunk_map) (sym stops) ∙ map in
            let number' = ap (λ s. (chunk_in s).number) (sym stops) ∙ number ∙ here in
            let fails = ap (after_copy p) (sym stops) ∙ phase in
            rw
              (loop-stop K P k nowait i end small room fuel n a a' c c' e sized inside found free
                stops)
              (store-Sound a a' c c' n broken sound found map' number' (ground (arith, fails)))
        | inl (a', c', goes) ↦
            let map' = ap (λ s. (area_of s).chunk_map) (sym goes) ∙ map in
            let shift' = ap (λ s. (area_of s).chunk_shift) (sym goes) ∙ shift ∙ sized in
            let number' = ap (λ s. (chunk_in s).number) (sym goes) ∙ number ∙ here in
            let (p', at_p', safe_p') = passed p a' c' (ap (after_copy p) (sym goes) ∙ phase) in
            rw
              (loop_next K P k nowait i end small room fuel n a a' c c' sized inside found free
                goes)
              (Post-next i end n a a' c c' p'
                (loop K P k nowait i end small room fuel (suc n) (store a' c')) found map' number'
                at_p' safe_p'
                (rest (store a' c') (store-Sound a a' c c' n p' sound found map' number' at_p')
                  shift'))
      ]

  Post-loop :
      (fuel n : ℕ) (a : DiffArea)
      → Sound a
      → a.chunk_shift ≡ 9 + i
      → end ≤ (n + fuel) * 2 ^ i
      → Post i end n a (loop K P k nowait i end small room (suc fuel) n a)
  Post-loop zero n a sound sized enough = ended_Post 0 n a sound (omega (arith, enough))
  Post-loop (suc fuel) n a sound sized enough = elim (dec_lt (n * 2 ^ i) end) [
    | no past ↦ ended_Post (suc fuel) n a sound (omega (arith, past))
    | yes inside ↦ elim (Option-cases (xa_load a n)) [
      | inl none_there ↦
          rw (loop_missing K P k nowait i end small room (suc fuel) n a sized inside none_there)
            (missing_Post n a sound)
      | inr (c, found) ↦ elim (Bool-cases c.locked) [
        | inl taken ↦
            rw (loop_locked K P k nowait i end small room (suc fuel) n a c sized inside found taken)
              (locked_Post n a sound nowait (k n).killed)
        | inr free ↦
            found_Post (suc fuel) n a c sound sized inside found free (λ b sound_b sized_b.
              Post-loop fuel (suc n) b sound_b sized_b (omega (arith, enough)))
      ]
    ]
  ]

-- What the copy of a range of sectors comes to: the area stays sound, and where it returns 0 the
-- chunk of each sector of the range is in a safe phase.
abbrev pub Copied : (i sector count : ℕ) → Run → Type 0
Copied i sector count (done ok a) =
    Sound a × ((s : ℕ) → sector ≤ s → s < sector + count → IsSafe a (s / 2 ^ i))
Copied i sector count (done (err _) a) = Sound a
Copied i sector count (sleeps _ a) = Sound a
Copied i sector count no_fuel = ⊥

Copied-Post :
    (i sector count : ℕ) (a : DiffArea) (r : Run)
    → Post i (sector + count) (sector / 2 ^ i) a r
    → Copied i sector count r
Copied-Post i sector count a (done ok b) (sound, after, before) = (
  sound,
  λ s from inside.
      after (s / 2 ^ i) (div_mono (2 ^ i) sector s (pow_pos i) from)
        (omega (arith, div-mul-le_self s (2 ^ i))),
)
Copied-Post i sector count a (done (err _) b) sound = sound
Copied-Post i sector count a (sleeps _ b) sound = sound
Copied-Post i sector count a no_fuel h = h

-- The copy-on-write of a write to the sectors from `sector` on, for an area with chunks of 2^i
-- sectors (i at most 43) each of which stands at its number and is in a phase, where the range and
-- one chunk more end below 2^64, whatever the kernel answers for each chunk. With two rounds more
-- than the chunks that `count` sectors fill the loop does not run out of fuel: it returns, or sleeps
-- on a semaphore. Each chunk still stands at its number and is in a phase, and where the call returns
-- 0, so that the write may go on, the chunk of every sector of the range is in a safe phase: what it
-- held before the write is kept, is being copied, or is marked as lost.
pub diff_area_copy_lem :
    (K : Rounding) (P : Params) (k : ℕ → Answers) (nowait : Bool) (a : DiffArea)
    (i sector count fuel : ℕ)
    → Sound a
    → a.chunk_shift ≡ 9 + i
    → i ≤ 43
    → sector + count + 2 ^ i ≤ 2 ^ 64
    → count ≤ fuel * 2 ^ i
    → Copied i sector count (diff_area_copy K P (suc (suc fuel)) k a sector count nowait)
unfolding diff_area_copy
diff_area_copy_lem K P k nowait a i sector count fuel sound sized small room enough =
    let n = sector / 2 ^ i in
    let n = sector / 2 ^ i in
    rw (first_chunk K a i sector small sized, range_end i sector count room)
      (Copied-Post i sector count a
        (loop K P k nowait i (sector + count) small room (suc (suc fuel)) n a)
        (Post-loop K P k nowait i (sector + count) small room (suc fuel) n a sound sized
          (omega (arith, lt-div-mul-add {a = sector} {b = 2 ^ i} (pow_pos i)))))
