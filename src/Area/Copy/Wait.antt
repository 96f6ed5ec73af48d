-- ===== src/Area/Copy/Wait.antt =====
-- What `diff_area_wait` (module/diff_area.c) leaves of the area that `diff_area_copy` made.
use native.Mathlib.Nat.{lt-div-mul-add}
use native.Mathlib.Decide.{ℕ_discrete}
use mathlib.Core.Option.{some-injective}
use blksnap.Prelude.{
  ℕ, zero, suc, ◌+◌, ◌*◌, ◌/◌, ◌^◌, ◌≤◌, ◌<◌, ◌≡◌, ◌⊎◌, refl, sym, ap, ◌∙◌, inl, inr, Bool, true,
  false, ◌||◌, some, arith, pow_pos, Bool-cases, Option-cases, get_elem?, ltb, ltb→lt,
  if◌then◌else◌,
}
use blksnap.Kernel.{Errno, efault, einval, eagain, eintr, err, Params, Rounding}
use blksnap.Storage.{Alarm}
use blksnap.Area.Data.{Chunk, DiffArea, Answers, down, chunk_number, xa_load, store}
use blksnap.Area.Phases.{Phase, at, empty, broken, reading, saved, cached, writing}
use blksnap.Area.Chunk.{diff_area_set_corrupted}
use blksnap.Area.Chunk.Flag.{set_corrupted_flag, set_corrupted_map}
use blksnap.Area.Copy.Loop.{
  Sound, IsSafe, store-Sound, load_other, load_stored, next_lem, first_chunk, range_end,
}
use blksnap.Area.Copy.{
  continue, stop, Run, done, sleeps, no_fuel, wait_chunk, chunk_loop, diff_area_wait,
}

-- The area `b` keeps what `a` has: its soundness, its safe chunks, and its error flag.
pub record IsKept (a b : DiffArea) : Type 0 where
  pub sound : Sound a → Sound b
  pub safe_in : (j : ℕ) → Sound a → IsSafe a j → IsSafe b j
  pub shift : b.chunk_shift ≡ a.chunk_shift
  pub flag : a.corrupt_flag ≡ true → b.corrupt_flag ≡ true

pub self-IsKept : (a : DiffArea) → IsKept a a
self-IsKept a = record { sound = λ h. h; safe_in = λ j h s. s; shift = refl; flag = λ h. h }

pub trans-IsKept : (a b c : DiffArea) → IsKept a b → IsKept b c → IsKept a c
trans-IsKept a b c f g = record {
  sound = λ h. g.sound (f.sound h);
  safe_in = λ j h s. g.safe_in j (f.sound h) (f.safe_in j h s);
  shift = g.shift ∙ f.shift;
  flag = λ h. g.flag (f.flag h);
}

abbrev relock : Bool → Chunk → Chunk
relock l c = record c { locked = l }

-- A chunk whose semaphore is free stays in its phase, whatever the semaphore becomes.
relock-at :
    (p : Phase) (c : Chunk) (l : Bool) → at p c ≡ true → c.locked ≡ false → at p (relock l c) ≡ true
relock-at empty c l h free = h
relock-at broken c l h free = h
relock-at reading c l h free = ground (arith, h, free)
relock-at saved c l h free = h
relock-at (cached d s) c l h free = h
relock-at (writing d s) c l h free = ground (arith, h, free)

relock-IsKept :
    (a : DiffArea) (c : Chunk) (n : ℕ) (l : Bool)
    → Sound a
    → xa_load a n ≡ some c
    → c.locked ≡ false
    → IsKept a (store a (relock l c))
relock-IsKept a c n l sound found free =
    let (number, (p, at_p)) = sound n c found in
    record {
      sound =
          λ h. store-Sound a a c (relock l c) n p h found refl number (relock-at p c l at_p free);
      safe_in = λ j h s.
          let (d, at_j, (q, at_q, safe_q)) = s in
          elim (ℕ_discrete n j) [
            | no other ↦
                (d, load_other a a (relock l c) n j other refl number ∙ at_j, (q, at_q, safe_q))
            | yes same ↦
                let is : d ≡ c =
                  some-injective d c (sym at_j ∙ ap (xa_load a) (sym same) ∙ found) in
                (
                  relock l c,
                  ap (xa_load (store a (relock l c))) (sym same)
                      ∙ load_stored a a c (relock l c) n found refl number,
                  (q, relock-at q c l (ap (at q) (sym is) ∙ at_q) free, safe_q),
                )
          ];
      shift = refl;
      flag = λ h. h;
    }

corrupted-IsKept : (a : DiffArea) (l : Alarm) (e : Errno) → IsKept a (diff_area_set_corrupted l a e)
corrupted-IsKept a l e =
    let (map, shift) = set_corrupted_map l a e in
    record {
      sound = λ h j c found. h j c (sym (ap (λ m. get_elem? m j) map) ∙ found);
      safe_in = λ j h s. let (c, at_j, is) = s in (c, ap (λ m. get_elem? m j) map ∙ at_j, is);
      shift = shift;
      flag = λ h. set_corrupted_flag l a e;
    }

module _ (K : Rounding) (P : Params) where
  wait_chunk-cases :
      (a : DiffArea) (c : Chunk)
      → ((l : Bool) × (wait_chunk K P a (down c) ≡ continue a (relock l c)))
        ⊎ ((l : Bool) × (wait_chunk K P a (down c) ≡ stop efault a (relock l c)))
  unfolding wait_chunk
  wait_chunk-cases a c = elim (Bool-cases c.state.is_failed) [
    | inl bad ↦ inr (false, ground (arith, bad))
    | inr fine ↦
        elim (Bool-cases (c.state.is_buffer_ready || c.state.is_dirty || c.state.is_store_ready)) [
          | inl ready ↦ inl (false, ground (arith, fine, ready))
          | inr bare ↦ inl (true, ground (arith, fine, bare))
        ]
  ]

-- What the wait for a range comes to: it does not run out of fuel, and keeps the area.
abbrev pub Waited : DiffArea → Run → Type 0
Waited a (done _ b) = IsKept a b
Waited a (sleeps _ b) = IsKept a b
Waited a no_fuel = ⊥

Waited-next : (a b : DiffArea) (r : Run) → IsKept a b → Waited b r → Waited a r
Waited-next a b (done _ d) f g = trans-IsKept a b d f g
Waited-next a b (sleeps _ d) f g = trans-IsKept a b d f g
Waited-next a b no_fuel f g = g

module _ (K : Rounding) (P : Params) (k : ℕ → Answers) (nowait : Bool) (i end : ℕ) (small : i ≤ 43)
    (room : end + 2 ^ i ≤ 2 ^ 64) where
  abbrev wait_loop : (fuel n : ℕ) → DiffArea → Run
  wait_loop fuel n a =
      chunk_loop K P (λ answers a c. wait_chunk K P a c) k nowait fuel (n * 2 ^ i) end a

  locked-Waited :
      (offset : ℕ) (a : DiffArea) (b d : Bool)
      → Waited a
          (if b then done (err eagain) a else if d then done (err eintr) a else sleeps offset a)
  locked-Waited offset a true d = self-IsKept a
  locked-Waited offset a false true = self-IsKept a
  locked-Waited offset a false false = self-IsKept a

  step-Waited :
      (fuel n : ℕ) (a : DiffArea)
      → Sound a
      → a.chunk_shift ≡ 9 + i
      → (n * 2 ^ i < end
          → (b : DiffArea) → Sound b
          → b.chunk_shift ≡ 9 + i
          → Waited b (wait_loop fuel (suc n) b))
      → Waited a (wait_loop (suc fuel) n a)
  unfolding chunk_loop
  step-Waited fuel n a sound sized rest = elim (Bool-cases (ltb (n * 2 ^ i) end)) [
    | inr past ↦ rw (past, chunk_loop) (self-IsKept a)
    | inl inside ↦
        let m = chunk_number a (n * 2 ^ i) in
        elim (Option-cases (xa_load a m)) [
          | inl missing ↦ rw (inside, missing, chunk_loop) (corrupted-IsKept a (k m).alarm einval)
          | inr (c, found) ↦ elim (Bool-cases c.locked) [
            | inl taken ↦
                rw (inside, found, taken, chunk_loop)
                  (locked-Waited (n * 2 ^ i) a nowait (k m).killed)
            | inr free ↦ elim (wait_chunk-cases K P a c) [
              | inr (l, stops) ↦
                  rw (inside, found, free, stops, chunk_loop)
                    (relock-IsKept a c m l sound found free)
              | inl (l, goes) ↦
                  let b = store a (relock l c) in
                  let kept = relock-IsKept a c m l sound found free in
                  let next =
                    next_lem K P k nowait i end small room a n sized
                      (ltb→lt (n * 2 ^ i) end inside) in
                  rw (inside, found, free, goes, chunk_loop, next)
                    (Waited-next a b (wait_loop fuel (suc n) b) kept (
                      rest (ltb→lt (n * 2 ^ i) end inside) b (kept.sound sound)
                        (kept.shift ∙ sized)))
            ]
          ]
        ]
  ]

  loop-Waited :
      (fuel n : ℕ) (a : DiffArea)
      → Sound a
      → a.chunk_shift ≡ 9 + i
      → end ≤ (n + fuel) * 2 ^ i
      → Waited a (wait_loop (suc fuel) n a)
  loop-Waited zero n a sound sized enough =
      step-Waited 0 n a sound sized (λ inside. absurd (omega (arith, inside, enough)))
  loop-Waited (suc fuel) n a sound sized enough =
      step-Waited (suc fuel) n a sound sized (λ inside b sound_b sized_b.
        loop-Waited fuel (suc n) b sound_b sized_b (omega (arith, enough)))

-- The wait for a range of sectors, with two rounds more than the chunks that `count` sectors fill.
pub diff_area_wait-Waited :
    (K : Rounding) (P : Params) (k : ℕ → Answers) (nowait : Bool) (a : DiffArea)
    (i sector count fuel : ℕ)
    → Sound a
    → a.chunk_shift ≡ 9 + i
    → i ≤ 43
    → sector + count + 2 ^ i ≤ 2 ^ 64
    → count ≤ fuel * 2 ^ i
    → Waited a (diff_area_wait K P (suc (suc fuel)) k a sector count nowait)
unfolding diff_area_wait
diff_area_wait-Waited K P k nowait a i sector count fuel sound sized small room enough =
    let n = sector / 2 ^ i in
    rw (first_chunk K a i sector small sized, range_end i sector count room)
      (loop-Waited K P k nowait i (sector + count) small room (suc fuel) n a sound sized
        (omega (arith, lt-div-mul-add {a = sector} {b = 2 ^ i} (pow_pos i))))
