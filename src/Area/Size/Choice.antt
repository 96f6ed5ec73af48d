-- ===== src/Area/Size/Choice.antt =====
-- The size that `diff_area_calculate_chunk_size` of module/diff_area.c chooses.
use native.Mathlib.Nat.{pow-le-pow_right, mul-div_cancel}
use native.Mathlib.Decide.{dec_le}
use blksnap.Prelude.{
  ℕ, zero, suc, ◌+◌, ◌-◌, ◌*◌, ◌/◌, ◌^◌, ◌≤◌, ◌<◌, ◌≡◌, ◌⊎◌, refl, ◌∙◌, inl, inr, some, arith,
  pow_pos, ceil_covers, ceil_least,
}
use blksnap.Kernel.{sub64, sector_shift, shl_one, u64, Rounding, default_params}
use blksnap.Area.Size.{OrigBdev, count_by_shift, chunk_size_loop, diff_area_calculate_chunk_size}

-- The number of chunks of 2^i sectors for a capacity.
abbrev pub count_at : (capacity i : ℕ) → ℕ
count_at capacity i = (capacity + 2 ^ i - 1) / 2 ^ i

pow_bound : (i : ℕ) → i ≤ 43 → 2 ^ i ≤ 2 ^ 43
pow_bound i h = pow-le-pow_right {n = 2} (omega arith) h

-- A chunk of 2^i sectors suits a device: there are at most 2097152 chunks, a chunk is at least the
-- least I/O, and no smaller size from 2^9 sectors on does.
pub record Suits (capacity min_io i n : ℕ) : Type 0 where
  pub limit : i ≤ 43
  pub count : n ≡ count_at capacity i
  pub few : n ≤ 2097152
  pub covers : capacity ≤ n * 2 ^ i
  pub tight : n * 2 ^ i < capacity + 2 ^ i
  pub whole_io : min_io ≤ 2 ^ i
  pub first : (i ≡ 9) ⊎ (2097152 < count_at capacity (i - 1)) ⊎ (2 ^ (i - 1) < min_io)

pub shift_lem : (i : ℕ) → i ≤ 43 → sub64 (9 + i) sector_shift ≡ i
shift_lem i h = omega arith

pub shl_lem : (i : ℕ) → i ≤ 43 → shl_one i ≡ 2 ^ i
shl_lem i h = omega (arith, pow_bound i h)

module _ (K : Rounding) (cap min_io : ℕ) (room : cap ≤ 2 ^ 64 - 2 ^ 43) (io : min_io ≤ 2 ^ 43) where
  count_lem : (i : ℕ) → i ≤ 43 → count_by_shift K default_params cap (9 + i) ≡ count_at cap i
  unfolding count_by_shift
  count_lem i h =
      rw (shift_lem i h, shl_lem i h, K.round_up-pow cap i (omega (arith, pow_bound i h)))
        (mul-div_cancel (count_at cap i) (pow_pos i))

  loop_again :
      (fuel i : ℕ)
      → i < 43
      → (2097152 < count_at cap i) ⊎ (2 ^ i < min_io)
      → chunk_size_loop K default_params (suc fuel) cap min_io (9 + i) (count_at cap i)
        ≡ chunk_size_loop K default_params fuel cap min_io (9 + suc i) (count_at cap (suc i))
  unfolding chunk_size_loop
  loop_again fuel i h more =
      let same : u64 (9 + i + 1) ≡ 9 + suc i = omega arith in
      ground (arith, same, pow_bound i (omega arith), count_lem (suc i) (omega arith))

  loop_stop :
      (fuel i : ℕ)
      → i ≤ 43
      → count_at cap i ≤ 2097152
      → min_io ≤ 2 ^ i
      → chunk_size_loop K default_params (suc fuel) cap min_io (9 + i) (count_at cap i)
        ≡ some (9 + i, count_at cap i)
  unfolding chunk_size_loop
  loop_stop fuel i h few whole = ground (arith, pow_bound i h)

  abbrev First : ℕ → Type 0
  First i = (i ≡ 9) ⊎ (2097152 < count_at cap (i - 1)) ⊎ (2 ^ (i - 1) < min_io)

  abbrev Ends : (fuel i : ℕ) → Type 0
  Ends fuel i =
      (j n : ℕ) × (9 ≤ j)
      × (chunk_size_loop K default_params (suc fuel) cap min_io (9 + i) (count_at cap i)
          ≡ some (9 + j, n))
      × Suits cap min_io j n

  Ends-here :
      (fuel i : ℕ)
      → 9 ≤ i
      → i ≤ 43
      → First i
      → count_at cap i ≤ 2097152
      → min_io ≤ 2 ^ i
      → Ends fuel i
  Ends-here fuel i from to first few whole = (
    i,
    count_at cap i,
    from,
    loop_stop fuel i to few whole,
    record {
      limit = to;
      count = refl;
      few = few;
      covers = ceil_covers (2 ^ i) cap (pow_pos i);
      tight = ceil_least (2 ^ i) cap (pow_pos i);
      whole_io = whole;
      first = first;
    },
  )

  Ends-later :
      (fuel i : ℕ)
      → i < 43
      → (2097152 < count_at cap i) ⊎ (2 ^ i < min_io)
      → Ends fuel (suc i)
      → Ends (suc fuel) i
  Ends-later fuel i h more (j, n, from, ran, suits) =
      (j, n, from, loop_again (suc fuel) i h more ∙ ran, suits)

  -- With a round for each size up to 2^43 sectors the loop ends, and its result suits the device.
  loop_Suits : (fuel i : ℕ) → 9 ≤ i → i + fuel ≡ 43 → First i → Ends fuel i
  loop_Suits zero i from total first =
      let i_is : i ≡ 43 = omega arith in
      Ends-here 0 i from (omega arith) first (rw i_is (omega arith)) (rw i_is io)
  loop_Suits (suc fuel) i from total first =
      let back : suc i - 1 ≡ i = omega arith in
      let later : First (suc i) → Ends fuel (suc i) =
        loop_Suits fuel (suc i) (omega arith) (omega arith) in
      elim (dec_le (count_at cap i) 2097152) [
        | no many ↦
            Ends-later fuel i (omega arith) (inl (omega arith))
              (later (inr (inl (rw back (omega arith)))))
        | yes few ↦ elim (dec_le min_io (2 ^ i)) [
          | no short ↦
              Ends-later fuel i (omega arith) (inr (omega arith))
                (later (inr (inr (rw back (omega arith)))))
          | yes whole ↦ Ends-here (suc fuel) i from (omega arith) first few whole
        ]
      ]

-- The size of a chunk for a device of at most 2^64 - 2^43 sectors whose least I/O is at most 2^43
-- sectors, with the default parameters. Thirty-five rounds of the loop are enough; the result is a
-- power of two of sectors that suits the device: at most 2097152 chunks, which cover the device with
-- less than a chunk to spare, each at least the least I/O, and it is the smallest such size from 512
-- sectors on.
pub chunk_size_lem :
    (K : Rounding) (bdev : OrigBdev)
    → bdev.bdev_nr_sectors ≤ 2 ^ 64 - 2 ^ 43
    → bdev.bdev_io_min / 2 ^ sector_shift ≤ 2 ^ 43
    → (i n : ℕ) × (9 ≤ i)
      × (diff_area_calculate_chunk_size K default_params 35 bdev ≡ some (9 + i, n))
      × Suits bdev.bdev_nr_sectors (bdev.bdev_io_min / 2 ^ sector_shift) i n
unfolding diff_area_calculate_chunk_size
chunk_size_lem K bdev room io =
    let cap = bdev.bdev_nr_sectors in
    let min_io = bdev.bdev_io_min / 2 ^ sector_shift in
    rw (count_lem K cap min_io room io 9 (omega arith))
      (loop_Suits K cap min_io room io 34 9 (omega arith) refl (inl refl))
