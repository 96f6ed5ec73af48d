-- ===== src/Cbt/Size.antt =====
-- The size of a tracking block and of the table: `cbt_map_calculate_block_size`, `cbt_map_create`
-- and `cbt_map_reset` of module/cbt_map.c, with the default parameters of module/main.c.
use blksnap.Prelude.{
  ℕ, suc, ◌+◌, ◌-◌, ◌*◌, ◌/◌, ◌^◌, ◌≤◌, ◌<◌, ◌≡◌, ◌⊎◌, refl, ap, ◌∙◌, inl, inr, Bool, true, false,
  ◌&&◌, some, none, arith, leb, if◌then◌else◌, Bool-cases, if_true, if_false, replicate,
  length-replicate, get_or-replicate, pow_pos, div-lt, leb→le, leb_false→lt,
}
use blksnap.Kernel.{Ret, ok, err, enomem, sub64, sector_shift, Rounding, default_params}
use blksnap.Cbt.{
  CbtMap, Memory, count_by_shift, block_size_loop, cbt_map_calculate_block_size, cbt_map_allocate,
  cbt_map_create, cbt_map_reset, block_of, zeroed, cbt_map_deallocate,
}
use blksnap.Cbt.Inv.{byte, IsValid}

module _ (K : Rounding) where
  open K use {round_up-pow}

  abbrev count_at : ℕ → ℕ → ℕ
  count_at capacity size = (capacity + size - 1) / size

  count_16 :
      (cap : ℕ) → cap + 2 ^ 7 ≤ 2 ^ 64 → count_by_shift K default_params cap 16 ≡ count_at cap 128
  unfolding count_by_shift
  count_16 cap h = omega (arith, round_up-pow cap 7 h)

  count_32 :
      (cap : ℕ)
      → cap + 2 ^ 23 ≤ 2 ^ 64
      → count_by_shift K default_params cap 32 ≡ count_at cap (2 ^ 23)
  unfolding count_by_shift
  count_32 cap h = omega (arith, round_up-pow cap 23 h)

  count_64 :
      (cap : ℕ)
      → cap + 2 ^ 55 ≤ 2 ^ 64
      → count_by_shift K default_params cap 64 ≡ count_at cap (2 ^ 55)
  unfolding count_by_shift
  count_64 cap h = omega (arith, round_up-pow cap 55 h)

-- A block shift and a count of blocks that suit a capacity: the table has at most 2097152 bytes and
-- covers the device with less than a block to spare, and the shift is the first of 16, 32 and 64
-- for which that is possible.
pub record Suits (capacity shift count : ℕ) : Type 0 where
  pub small : count ≤ 2097152
  pub enough : capacity ≤ count * 2 ^ (shift - 9)
  pub tight : count * 2 ^ (shift - 9) < capacity + 2 ^ (shift - 9)
  pub first :
      (shift ≡ 16)
      ⊎ ((shift ≡ 32) × (2097152 * 2 ^ 7 < capacity))
      ⊎ ((shift ≡ 64) × (2097152 * 2 ^ 23 < capacity))

-- The largest capacity for which `round_up` to the largest block does not wrap.
abbrev pub max_capacity : ℕ
max_capacity = 2 ^ 64 - 2 ^ 55

module _ (K : Rounding) (cap : ℕ) (h : cap ≤ max_capacity) where
  stop :
      (fuel s n : ℕ)
      → n ≤ 2097152
      → block_size_loop K default_params (suc fuel) cap s n ≡ some (s, n)
  unfolding block_size_loop
  stop fuel s n le = ground arith

  again :
      (fuel s n : ℕ)
      → 2097152 < n
      → s < 2 ^ 63
      → block_size_loop K default_params (suc fuel) cap s n
        ≡ block_size_loop K default_params fuel cap
            (s * 2)
            (count_by_shift K default_params cap (s * 2))
  unfolding block_size_loop
  again fuel s n lt small = ground arith

  to_32 :
      2097152 < count_at K cap 128
      → block_size_loop K default_params 4 cap 16 (count_by_shift K default_params cap 16)
        ≡ block_size_loop K default_params 3 cap 32 (count_at K cap (2 ^ 23))
  to_32 lt = rw (count_16 K cap (omega arith)) (
      again 3 16 (count_at K cap 128) lt (omega arith)
      ∙ ap (block_size_loop K default_params 3 cap 32) (count_32 K cap (omega arith)))

  to_64 :
      2097152 < count_at K cap (2 ^ 23)
      → block_size_loop K default_params 3 cap 32 (count_at K cap (2 ^ 23))
        ≡ block_size_loop K default_params 2 cap 64 (count_at K cap (2 ^ 55))
  to_64 lt =
      again 2 32 (count_at K cap (2 ^ 23)) lt (omega arith)
      ∙ ap (block_size_loop K default_params 2 cap 64) (count_64 K cap (omega arith))

  -- With four rounds of fuel the loop ends, and its result suits the capacity.
  loop_Suits :
      (s n : ℕ) × (block_size_loop K default_params 4 cap 16
          (count_by_shift K default_params cap 16)
        ≡ some (s, n))
      × Suits cap s n
  loop_Suits = elim (Bool-cases (leb (count_at K cap 128) 2097152)) [
    | inl fits ↦ (
      16,
      count_at K cap 128,
      rw (count_16 K cap (omega arith)) (stop 3 16 (count_at K cap 128) (leb→le _ _ fits)),
      omega (arith, leb→le _ _ fits),
    )
    | inr more ↦ elim (Bool-cases (leb (count_at K cap (2 ^ 23)) 2097152)) [
      | inl fits ↦ (
        32,
        count_at K cap (2 ^ 23),
        to_32 (leb_false→lt _ _ more) ∙ stop 2 32 (count_at K cap (2 ^ 23)) (leb→le _ _ fits),
        omega (arith, leb→le _ _ fits, leb_false→lt _ _ more),
      )
      | inr most ↦ (
        64,
        count_at K cap (2 ^ 55),
        to_32 (leb_false→lt _ _ more)
            ∙ to_64 (leb_false→lt _ _ most)
            ∙ stop 1 64 (count_at K cap (2 ^ 55)) (omega arith),
        omega (arith, leb_false→lt _ _ most),
      )
    ]
  ]

-- The map that an allocation leaves, given the size of its table.
abbrev pub filled : Memory → CbtMap → CbtMap
filled m c = record c {
  read_map = some (replicate c.blk_count 0);
  write_map = some (replicate c.blk_count 0);
  snap_number_previous = 0;
  snap_number_active = 1;
  generation_id = m.uuid;
  is_corrupted = false;
}

pub filled-IsValid : (m : Memory) (c : CbtMap) → IsValid (filled m c)
filled-IsValid m c = record {
  read_bytes = replicate c.blk_count 0;
  write_bytes = replicate c.blk_count 0;
  read_is = refl;
  write_is = refl;
  read_size = length-replicate {A = ℕ} c.blk_count 0;
  write_size = length-replicate {A = ℕ} c.blk_count 0;
  active_pos = omega arith;
  active_byte = omega arith;
  previous_byte = omega arith;
  write_le = λ j. omega (arith, get_or-replicate {A = ℕ} c.blk_count j 0);
  read_le = λ j. omega (arith, get_or-replicate {A = ℕ} c.blk_count j 0);
}

shift_size : (cap s n : ℕ) → Suits cap s n → sub64 s sector_shift ≡ s - 9
shift_size cap s n f = grind arith

-- Every sector of the device has a byte in the table.
pub sector_in_table :
    (c : CbtMap) (sector : ℕ)
    → Suits c.device_capacity c.blk_size_shift c.blk_count
    → sector < c.device_capacity
    → block_of c sector < c.blk_count
sector_in_table c sector f h = rw (shift_size c.device_capacity c.blk_size_shift c.blk_count f) (
    div-lt (2 ^ (c.blk_size_shift - 9)) sector c.blk_count (pow_pos (c.blk_size_shift - 9))
      (omega (arith, f.enough)))

allocate-eq :
    (m : Memory) (c : CbtMap)
    → c.read_map ≡ none
    → c.write_map ≡ none
    → cbt_map_allocate m c ≡ (if m.read_ok && m.write_ok then (ok, filled m c) else (err enomem, c))
unfolding cbt_map_allocate
allocate-eq m c r w = ground arith

abbrev with_size : CbtMap → ℕ → ℕ → CbtMap
with_size c s n = record c { blk_size_shift = s; blk_count = n }

calculate-eq :
    (K : Rounding) (c : CbtMap) (s n : ℕ)
    → block_size_loop K default_params 4 c.device_capacity 16
        (count_by_shift K default_params c.device_capacity 16)
      ≡ some (s, n)
    → cbt_map_calculate_block_size K default_params c ≡ some (with_size c s n)
unfolding cbt_map_calculate_block_size
calculate-eq K c s n e = rw (e, cbt_map_calculate_block_size)

create-eq :
    (K : Rounding) (map_ok : Bool) (m : Memory) (cap s n : ℕ)
    → block_size_loop K default_params 4 cap 16 (count_by_shift K default_params cap 16)
      ≡ some (s, n)
    → cbt_map_create K default_params map_ok m cap
      ≡ some (
          if map_ok && m.read_ok && m.write_ok
          then some (record (filled m (with_size (record zeroed { device_capacity = cap }) s n)) {
            kref = 1;
          })
          else none)
unfolding cbt_map_create
create-eq K false m cap s n e = refl
create-eq K true m cap s n e =
    let c = record zeroed { device_capacity = cap } in
    rw (calculate-eq K c s n e, cbt_map_create)
      (ground (arith, allocate-eq m (with_size c s n) refl refl))

module _ (K : Rounding) (m : Memory) (cap : ℕ) (h : cap ≤ max_capacity) where
  -- For a device of at most 2^64 - 2^55 sectors the computation of the block size ends, and
  -- `cbt_map_create` returns a map exactly if its three allocations succeed. The map is valid and
  -- not corrupted, has one reference and the change number 1, all its bytes are 0, its table has at
  -- most 2097152 blocks, which cover the device with less than a block to spare, and every sector of
  -- the device has a block in the table.
  pub create_lem :
      (map_ok : Bool)
      → (c : CbtMap) × (cbt_map_create K default_params map_ok m cap
          ≡ some (if map_ok && m.read_ok && m.write_ok then some c else none))
        × IsValid c
        × (c.is_corrupted ≡ false)
        × (c.kref ≡ 1)
        × (c.snap_number_active ≡ 1)
        × ((j : ℕ) → (byte c.write_map j ≡ 0) × (byte c.read_map j ≡ 0))
        × Suits cap c.blk_size_shift c.blk_count
        × ((sector : ℕ) → sector < cap → block_of c sector < c.blk_count)
  create_lem map_ok =
      let (s, n, loop, f) = loop_Suits K cap h in
      let sized = with_size (record zeroed { device_capacity = cap }) s n in
      let v = filled-IsValid m sized in
      let zero_at = get_or-replicate {A = ℕ} n in
      (
        record (filled m sized) { kref = 1 },
        create-eq K map_ok m cap s n loop,
        record {
          read_bytes = v.read_bytes;
          write_bytes = v.write_bytes;
          read_is = v.read_is;
          write_is = v.write_is;
          read_size = v.read_size;
          write_size = v.write_size;
          active_pos = v.active_pos;
          active_byte = v.active_byte;
          previous_byte = v.previous_byte;
          write_le = v.write_le;
          read_le = v.read_le;
        },
        refl,
        refl,
        refl,
        (λ j. (zero_at j 0, zero_at j 0)),
        f,
        λ sector lt. sector_in_table sized sector f lt,
      )

  -- `cbt_map_reset` to such a capacity ends. If both tables are allocated it succeeds with a valid,
  -- clean map of a new generation that suits the capacity; if not it fails with ENOMEM and leaves
  -- both tables null in a map that is not marked corrupted.
  pub reset_lem :
      (c : CbtMap)
      → (ret : Ret) × (c' : CbtMap) × (cbt_map_reset K default_params m c cap ≡ some (ret, c'))
        × (c'.is_corrupted ≡ false)
        × (c'.device_capacity ≡ cap)
        × Suits c'.device_capacity c'.blk_size_shift c'.blk_count
        × (m.read_ok && m.write_ok ≡ true
            → (ret ≡ ok) × IsValid c' × (c'.generation_id ≡ m.uuid) × (c'.snap_number_active ≡ 1))
        × (m.read_ok && m.write_ok ≡ false
            → (ret ≡ err enomem) × (c'.read_map ≡ none) × (c'.write_map ≡ none))
  unfolding cbt_map_reset cbt_map_deallocate
  reset_lem c =
      let (s, n, loop, f) = loop_Suits K cap h in
      let bare = record (cbt_map_deallocate c) { device_capacity = cap } in
      let sized = with_size bare s n in
      let alloc = allocate-eq m sized refl refl in
      elim (Bool-cases (m.read_ok && m.write_ok)) [
        | inl good ↦ (
          ok,
          filled m sized,
          rw (calculate-eq K bare s n loop, cbt_map_reset) (ap some (alloc ∙ if_true _ _ _ good)),
          refl,
          refl,
          f,
          (λ _. (refl, filled-IsValid m sized, refl, refl)),
          λ bad. ground arith,
        )
        | inr bad ↦ (
          err enomem,
          sized,
          rw (calculate-eq K bare s n loop, cbt_map_reset) (ap some (alloc ∙ if_false _ _ _ bad)),
          refl,
          refl,
          f,
          (λ good. ground arith),
          λ _. (refl, refl, refl),
        )
      ]
