-- ===== src/Area/Copy/Loop.antt =====
-- The loop of `diff_area_copy` (module/diff_area.c) over the chunks of a write.
use native.Mathlib.Nat.{mul-div_cancel}
use native.Mathlib.Decide.{ℕ_discrete}
use mathlib.Core.Option.{some-injective}
use blksnap.Prelude.{
  ℕ, suc, ◌+◌, ◌*◌, ◌/◌, ◌^◌, ◌≤◌, ◌<◌, ◌≡◌, ◌≢◌, ◌⊎◌, refl, sym, ap, ◌∙◌, inl, inr, Bool, true,
  false, some, none, arith, if◌then◌else◌, pow_pos, get_elem?, set, get_elem?-set_self,
  get_elem?-set_ne,
}
use blksnap.Kernel.{
  Errno, einval, eagain, eintr, ok, err, Params, Rounding, add64, shl_one, sub64, sector_shift,
}
use blksnap.Area.Data.{
  Chunk, DiffArea, Answers, down, diff_area_chunk_sectors, chunk_number, xa_load, store,
}
use blksnap.Area.Phases.{safe, Phase, at}
use blksnap.Area.Chunk.{diff_area_set_corrupted}
use blksnap.Area.Size.Choice.{shift_lem, shl_lem}
use blksnap.Area.Copy.{Step, continue, stop, Run, done, sleeps, no_fuel, copy_chunk, chunk_loop}

pub Step-cases :
    (s : Step)
    → ((a : DiffArea) × (c : Chunk) × (s ≡ continue a c))
      ⊎ ((e : Errno) × (a : DiffArea) × (c : Chunk) × (s ≡ stop e a c))
Step-cases (continue a c) = inl (a, c, refl)
Step-cases (stop e a c) = inr (e, a, c, refl)

-- Where the loops over the chunks of a range begin and end.
pub first_chunk :
    (K : Rounding) (a : DiffArea) (i sector : ℕ)
    → i ≤ 43
    → a.chunk_shift ≡ 9 + i
    → K.round_down sector (diff_area_chunk_sectors a) ≡ sector / 2 ^ i * 2 ^ i
first_chunk K a i sector small sized =
    ap (K.round_down sector) (
      ap (λ s. shl_one (sub64 s sector_shift)) sized
      ∙ ap shl_one (shift_lem i small)
      ∙ shl_lem i small)
    ∙ K.round_down-pow sector i

pub range_end :
    (i sector count : ℕ) → sector + count + 2 ^ i ≤ 2 ^ 64 → add64 sector count ≡ sector + count
range_end i sector count room = omega (arith, pow_pos i)

module _ (K : Rounding) (P : Params) (k : ℕ → Answers) (nowait : Bool) (i end : ℕ) (small : i ≤ 43)
    (room : end + 2 ^ i ≤ 2 ^ 64) where
  abbrev pub loop : (fuel n : ℕ) → DiffArea → Run
  loop fuel n a =
      chunk_loop K P (λ answers a c. copy_chunk K P answers nowait a c) k nowait fuel (n * 2 ^ i)
        end a

  number_lem : (a : DiffArea) (n : ℕ) → a.chunk_shift ≡ 9 + i → chunk_number a (n * 2 ^ i) ≡ n
  number_lem a n sized = rw (sized, shift_lem i small) (mul-div_cancel n (pow_pos i))

  pub next_lem :
      (a : DiffArea) (n : ℕ)
      → a.chunk_shift ≡ 9 + i
      → n * 2 ^ i < end
      → add64 (n * 2 ^ i) (diff_area_chunk_sectors a) ≡ suc n * 2 ^ i
  next_lem a n sized inside = rw (sized, shift_lem i small, shl_lem i small) (omega arith)

  pub loop_end : (fuel n : ℕ) (a : DiffArea) → end ≤ n * 2 ^ i → loop (suc fuel) n a ≡ done ok a
  unfolding chunk_loop
  loop_end fuel n a past = ground (arith, past)

  pub loop_missing :
      (fuel n : ℕ) (a : DiffArea)
      → a.chunk_shift ≡ 9 + i
      → n * 2 ^ i < end
      → xa_load a n ≡ none
      → loop (suc fuel) n a ≡ done (err einval) (diff_area_set_corrupted (k n).alarm a einval)
  unfolding chunk_loop
  loop_missing fuel n a sized inside missing = ground (arith, number_lem a n sized, inside, missing)

  pub loop-stop :
      (fuel n : ℕ) (a a' : DiffArea) (c c' : Chunk) (e : Errno)
      → a.chunk_shift ≡ 9 + i
      → n * 2 ^ i < end
      → xa_load a n ≡ some c
      → c.locked ≡ false
      → copy_chunk K P (k n) nowait a (down c) ≡ stop e a' c'
      → loop (suc fuel) n a ≡ done (err e) (store a' c')
  unfolding chunk_loop
  loop-stop fuel n a a' c c' e sized inside found free stops =
      ground (arith, number_lem a n sized, inside, found, free, stops)

  pub loop_next :
      (fuel n : ℕ) (a a' : DiffArea) (c c' : Chunk)
      → a.chunk_shift ≡ 9 + i
      → n * 2 ^ i < end
      → xa_load a n ≡ some c
      → c.locked ≡ false
      → copy_chunk K P (k n) nowait a (down c) ≡ continue a' c'
      → loop (suc fuel) n a ≡ loop fuel (suc n) (store a' c')
  unfolding chunk_loop
  loop_next fuel n a a' c c' sized inside found free goes =
      ground (arith, number_lem a n sized, next_lem a n sized inside, inside, found, free, goes)

  pub loop_locked :
      (fuel n : ℕ) (a : DiffArea) (c : Chunk)
      → a.chunk_shift ≡ 9 + i
      → n * 2 ^ i < end
      → xa_load a n ≡ some c
      → c.locked ≡ true
      → loop (suc fuel) n a ≡ (
          if nowait
          then done (err eagain) a
          else if (k n).killed
          then done (err eintr) a
          else sleeps (n * 2 ^ i) a)
  unfolding chunk_loop
  loop_locked fuel n a c sized inside found taken =
      ground (arith, number_lem a n sized, inside, found, taken)

-- Each chunk of the map stands at its number and is in a phase.
abbrev pub Sound : DiffArea → Type 0
Sound a =
    (j : ℕ) (c : Chunk) → xa_load a j ≡ some c → (c.number ≡ j) × ((p : Phase) × (at p c ≡ true))

-- The chunk with the number is in the map, in a safe phase.
abbrev pub IsSafe : DiffArea → ℕ → Type 0
IsSafe a j =
    (c : Chunk) × (xa_load a j ≡ some c) × ((p : Phase) × (at p c ≡ true) × (safe p ≡ true))

-- What the loop comes to from the chunk `n` on: the area stays sound, and where the loop returns 0
-- all chunks up to the end are safe, and those before `n` as they were.
abbrev pub Post : (i end n : ℕ) → DiffArea → Run → Type 0
Post i end n a (done ok a') =
    Sound a'
    × ((j : ℕ) → n ≤ j → j * 2 ^ i < end → IsSafe a' j)
    × ((j : ℕ) → j < n → xa_load a' j ≡ xa_load a j)
Post i end n a (done (err _) a') = Sound a'
Post i end n a (sleeps _ a') = Sound a'
Post i end n a no_fuel = ⊥

pub load_stored :
    (a a' : DiffArea) (c c' : Chunk) (n : ℕ)
    → xa_load a n ≡ some c
    → a'.chunk_map ≡ a.chunk_map
    → c'.number ≡ n
    → xa_load (store a' c') n ≡ some c'
load_stored a a' c c' n found map number =
    ap (λ m. get_elem? (set m c'.number c') n) map
    ∙ ap (λ x. get_elem? (set a.chunk_map x c') n) number
    ∙ get_elem?-set_self a.chunk_map n c' c found

pub load_other :
    (a a' : DiffArea) (c' : Chunk) (n j : ℕ)
    → n ≢ j
    → a'.chunk_map ≡ a.chunk_map
    → c'.number ≡ n
    → xa_load (store a' c') j ≡ xa_load a j
load_other a a' c' n j other map number =
    ap (λ m. get_elem? (set m c'.number c') j) map
    ∙ ap (λ x. get_elem? (set a.chunk_map x c') j) number
    ∙ get_elem?-set_ne a.chunk_map n j c' other

pub store-Sound :
    (a a' : DiffArea) (c c' : Chunk) (n : ℕ) (p : Phase)
    → Sound a
    → xa_load a n ≡ some c
    → a'.chunk_map ≡ a.chunk_map
    → c'.number ≡ n
    → at p c' ≡ true
    → Sound (store a' c')
store-Sound a a' c c' n p sound found map number at_p j d at_j = elim (ℕ_discrete n j) [
  | yes same ↦
      let is : c' ≡ d =
        some-injective c' d (
          sym (load_stored a a' c c' n found map number)
          ∙ ap (xa_load (store a' c')) same
          ∙ at_j) in
      (ap (λ x. x.number) (sym is) ∙ number ∙ same, (p, ap (at p) (sym is) ∙ at_p))
  | no other ↦ sound j d (sym (load_other a a' c' n j other map number) ∙ at_j)
]

-- The chunk `n` is done, and the loop ran on from the next.
pub Post-next :
    (i end n : ℕ) (a a' : DiffArea) (c c' : Chunk) (p : Phase) (r : Run)
    → xa_load a n ≡ some c
    → a'.chunk_map ≡ a.chunk_map
    → c'.number ≡ n
    → at p c' ≡ true
    → safe p ≡ true
    → Post i end (suc n) (store a' c') r
    → Post i end n a r
Post-next i end n a a' c c' p (done ok b) found map number at_p safe_p (sound, after, before) = (
  sound,
  λ j from inside. elim (ℕ_discrete n j) [
    | no later ↦ after j (omega (arith, later)) inside
    | yes same ↦ (
      c',
      ap (xa_load b) (sym same) ∙ before n (omega arith) ∙ load_stored a a' c c' n found map number,
      (p, at_p, safe_p),
    )
  ],
  λ j below.
      before j (omega arith) ∙ load_other a a' c' n j (λ e. absurd (omega (arith, e))) map number,
)
Post-next i end n a a' c c' p (done (err _) b) found map number at_p safe_p sound = sound
Post-next i end n a a' c c' p (sleeps _ b) found map number at_p safe_p sound = sound
Post-next i end n a a' c c' p no_fuel found map number at_p safe_p h = h
