-- ===== src/Area/Size/Made.antt =====
-- What `diff_area_new` of module/diff_area.c makes: its chunks and its errors.
use mathlib.Core.List.{append_assoc, append-nil}
use native.Mathlib.Nat.{le-div_iff_mul-le, mul-le-mul_right, div-mul-le_self}
use native.Mathlib.Decide.{dec_le}
use blksnap.Prelude.{
  ℕ, zero, suc, ◌+◌, ◌-◌, ◌*◌, ◌/◌, ◌^◌, ◌≤◌, ◌<◌, ◌≡◌, refl, sym, ap, ◌∙◌, Bool, true, false, some,
  none, List, [], ◌∷◌, ◌++◌, arith, length, if◌then◌else◌, pow_pos, ltb,
}
use blksnap.Kernel.{shl_one, Ret, ok, efault, Rounding, Params, default_params, sector_shift}
use blksnap.Storage.{DiffStorage}
use blksnap.Area.Data.{Chunk, DiffArea, no_bits, diff_area_chunk_sectors}
use blksnap.Area.Phases.{empty, rests_at}
use blksnap.Area.Chunk.{chunk_alloc}
use blksnap.Area.Chunk.Life.{alloc_lem}
use blksnap.Area.Size.{
  new_area, OrigBdev, make_chunks, resize_last, recalculate_last_chunk_size, area, error, Making,
  fill_area, diff_area_new, diff_area_calculate_chunk_size,
}
use blksnap.Area.Size.Choice.{shift_lem, shl_lem, Suits, chunk_size_lem}

-- A chunk as it is made.
abbrev fresh : (number sectors : ℕ) → Chunk
fresh number sectors = record {
  number = number;
  sector_count = sectors;
  locked = false;
  state = no_bits;
  diff_buffer = none;
  diff_region = none;
  diff_io = none;
}

chunks_from : (rounds number sectors : ℕ) → List Chunk
chunks_from zero number sectors = []
chunks_from (suc rounds) number sectors =
    fresh number sectors ∷ chunks_from rounds (suc number) sectors

-- The sectors of all chunks.
abbrev pub total_sectors : List Chunk → ℕ
total_sectors [] = 0
total_sectors (c ∷ cs) = c.sector_count + total_sectors cs

-- The chunks carry the numbers from one on, and hold nothing.
abbrev pub Numbered : (from : ℕ) → List Chunk → Type 0
Numbered from [] = Unit
Numbered from (c ∷ cs) = (c.number ≡ from) × (rests_at empty c ≡ true) × Numbered (suc from) cs

module _ (K : Rounding) (P : Params) where
  make_chunks-eq :
      (rounds number sectors : ℕ) (alloc : ℕ → Bool) (insert : ℕ → Ret) (map : List Chunk)
      → ((i : ℕ) → alloc i ≡ true)
      → ((i : ℕ) → insert i ≡ ok)
      → make_chunks K P rounds number sectors alloc insert map
        ≡ (ok, map ++ chunks_from rounds number sectors)
  unfolding make_chunks chunks_from
  make_chunks-eq zero number sectors alloc insert map have puts =
      ap (λ l. (ok, l)) (sym (append-nil map))
  make_chunks-eq (suc rounds) number sectors alloc insert map have puts =
      let made : chunk_alloc P (alloc number) number ≡ some (fresh number 0) =
        ap (λ b. chunk_alloc P b number) (have number) ∙ alloc_lem P number in
      rw (make_chunks, made, puts number)
        (make_chunks-eq rounds (suc number) sectors alloc insert
            (map ++ (fresh number sectors ∷ [])) have puts
          ∙ ap (λ l. (ok, l))
              (append_assoc map (fresh number sectors ∷ [])
                (chunks_from rounds (suc number) sectors)))

  abbrev last_size : (capacity sectors : ℕ) → ℕ
  last_size capacity sectors =
      let whole = K.round_down capacity sectors in
      if ltb whole capacity then capacity - whole else sectors

  recalculate_lem :
      (capacity number sectors : ℕ)
      → recalculate_last_chunk_size K P capacity (fresh number sectors)
        ≡ fresh number (last_size capacity sectors)
  unfolding recalculate_last_chunk_size
  recalculate_lem capacity number sectors = ground arith

  resized :
      (rounds number sectors capacity : ℕ)
      → let cs = resize_last K P capacity (chunks_from (suc rounds) number sectors) in
        (length cs ≡ suc rounds)
        × Numbered number cs
        × (total_sectors cs ≡ rounds * sectors + last_size capacity sectors)
  unfolding resize_last chunks_from
  resized zero number sectors capacity =
      rw (recalculate_lem capacity number sectors) (refl, (refl, refl, tt), omega arith)
  resized (suc rounds) number sectors capacity =
      let (len, numbers, total) = resized rounds (suc number) sectors capacity in
      (ap suc len, (refl, refl, numbers), omega (arith, total))

  -- The last chunk takes what the others leave of the device.
  tiles :
      (capacity i n : ℕ)
      → capacity ≤ suc n * 2 ^ i
      → suc n * 2 ^ i < capacity + 2 ^ i
      → n * 2 ^ i + last_size capacity (2 ^ i) ≡ capacity
  tiles capacity i n covers tight =
      let q = capacity / 2 ^ i in
      let below : q * 2 ^ i ≤ capacity = div-mul-le_self capacity (2 ^ i) in
      let reach : n ≤ q = (le-div_iff_mul-le (pow_pos i)).1 (omega (arith, tight)) in
      elim (dec_le (suc n) q) [
        | yes more ↦
            let full : suc n * 2 ^ i ≤ q * 2 ^ i = mul-le-mul_right (2 ^ i) more in
            ground (arith, K.round_down-pow capacity i, below, full, covers, tight)
        | no same ↦
            let equal : q ≡ n = omega arith in
            let whole : K.round_down capacity (2 ^ i) ≡ n * 2 ^ i =
              K.round_down-pow capacity i ∙ ap (λ x. x * 2 ^ i) equal in
            ground (arith, whole, tight)
      ]

  fill_lem :
      (k : Making) (bdev : OrigBdev) (a : DiffArea) (i n : ℕ)
      → ((j : ℕ) → k.chunk_alloc_ok j ≡ true)
      → ((j : ℕ) → k.insert j ≡ ok)
      → diff_area_chunk_sectors a ≡ 2 ^ i
      → a.chunk_count ≡ suc n
      → fill_area K P k bdev a
        ≡ area (record a {
          chunk_map = resize_last K P bdev.bdev_nr_sectors (chunks_from (suc n) 0 (2 ^ i));
        })
  unfolding fill_area
  fill_lem k bdev a i n have puts size count =
      let sectors = diff_area_chunk_sectors a in
      let made : make_chunks K P a.chunk_count 0 sectors k.chunk_alloc_ok k.insert []
          ≡ (ok, chunks_from (suc n) 0 (2 ^ i)) =
        make_chunks-eq a.chunk_count 0 sectors k.chunk_alloc_ok k.insert [] have puts
        ∙ rw (count, size) refl in
      ground (arith, made, count)

pub diff_area_new_lem :
    (K : Rounding) (k : Making) (bdev : OrigBdev) (d : DiffStorage)
    → k.opened ≡ ok
    → k.area_alloc ≡ true
    → ((j : ℕ) → k.chunk_alloc_ok j ≡ true)
    → ((j : ℕ) → k.insert j ≡ ok)
    → 0 < bdev.bdev_nr_sectors
    → bdev.bdev_nr_sectors ≤ 2 ^ 64 - 2 ^ 43
    → bdev.bdev_io_min / 2 ^ sector_shift ≤ 2 ^ 43
    → (d.capacity ≡ 0 → diff_area_new K default_params 35 k bdev d ≡ error efault true)
      × (0 < d.capacity
          → (a : DiffArea) × (diff_area_new K default_params 35 k bdev d ≡ area a)
            × (length a.chunk_map ≡ a.chunk_count)
            × (a.chunk_count ≤ 2097152)
            × Numbered 0 a.chunk_map
            × (total_sectors a.chunk_map ≡ bdev.bdev_nr_sectors))
unfolding diff_area_new
diff_area_new_lem K k bdev d opened have_area have puts some_sectors room io =
    let (i, n, _, chosen, suits) = chunk_size_lem K bdev room io in
    (λ none_left. ground (arith, chosen), λ some_left. go i n chosen suits some_left)
  where
    go :
        (i n : ℕ)
        → diff_area_calculate_chunk_size K default_params 35 bdev ≡ some (9 + i, n)
        → Suits bdev.bdev_nr_sectors (bdev.bdev_io_min / 2 ^ sector_shift) i n
        → 0 < d.capacity
        → (a : DiffArea) × (diff_area_new K default_params 35 k bdev d ≡ area a)
          × (length a.chunk_map ≡ a.chunk_count)
          × (a.chunk_count ≤ 2097152)
          × Numbered 0 a.chunk_map
          × (total_sectors a.chunk_map ≡ bdev.bdev_nr_sectors)
    go i zero chosen suits some_left = absurd (omega (arith, suits.covers))
    go i (suc n) chosen suits some_left =
        let a = new_area bdev d (9 + i) (suc n) in
        let size : diff_area_chunk_sectors a ≡ 2 ^ i =
          ap shl_one (shift_lem i suits.limit) ∙ shl_lem i suits.limit in
        let (len, numbers, total) = resized K default_params n 0 (2 ^ i) bdev.bdev_nr_sectors in
        (
          record a {
            chunk_map =
                resize_last K default_params bdev.bdev_nr_sectors (chunks_from (suc n) 0 (2 ^ i));
          },
          ground (
            arith,
            chosen,
            opened,
            have_area,
            fill_lem K default_params k bdev a i n have puts size refl,
          ),
          len,
          suits.few,
          numbers,
          total ∙ tiles K default_params bdev.bdev_nr_sectors i n suits.covers suits.tight,
        )
