-- ===== src/Cbt/Inv.antt =====
-- The invariant of `struct cbt_map` (module/cbt_map.c), what `cbt_map_set` does on every branch,
-- and that every operation keeps the invariant.
use blksnap.Prelude.{
  ℕ, zero, suc, ◌+◌, ◌-◌, ◌^◌, ◌≤◌, ◌<◌, max, ◌≡◌, refl, ◌∙◌, inl, inr, Bool, true, false, not,
  ◌&&◌, Option, none, some, List, arith, ltb, leb, if◌then◌else◌, Bool-cases, ltb→lt, get_or,
  length, pow_pos, div_mono,
}
use blksnap.Kernel.{ok, err, einval, sub64, u8, sector_shift}
use blksnap.Cbt.{CbtMap, block_of, last_sector, set_map, cbt_map_set}
use blksnap.Cbt.Marks.{
  raise_range, range_ret, set_loop_lem, length-raise_range, get_or-raise_range, get_or-ge,
}

-- A byte of a table; a table that is not there holds zeros.
abbrev pub byte : Option (List ℕ) → ℕ → ℕ
byte none j = 0
byte (some bytes) j = get_or bytes j 0

-- Both tables have a byte for each block, the change numbers lie in a byte, and no byte is above
-- the number of its table.
pub record IsValid (c : CbtMap) : Type 0 where
  pub read_bytes : List ℕ
  pub write_bytes : List ℕ
  pub read_is : c.read_map ≡ some read_bytes
  pub write_is : c.write_map ≡ some write_bytes
  pub read_size : length read_bytes ≡ c.blk_count
  pub write_size : length write_bytes ≡ c.blk_count
  pub active_pos : 0 < c.snap_number_active
  pub active_byte : c.snap_number_active < 256
  pub previous_byte : c.snap_number_previous < 256
  pub write_le : (j : ℕ) → byte c.write_map j ≤ c.snap_number_active
  pub read_le : (j : ℕ) → byte c.read_map j ≤ c.snap_number_previous

-- A range of sectors that is not empty and does not wrap.
pub record IsRange (start cnt : ℕ) : Type 0 where
  pub pos : 0 < cnt
  pub fits : start + cnt ≤ 2 ^ 64

abbrev pub last_block : CbtMap → ℕ → ℕ → ℕ
last_block c start cnt = block_of c (start + cnt - 1)

-- The blocks that a write of the range touches.
abbrev pub covers : CbtMap → ℕ → ℕ → ℕ → Bool
covers c start cnt j = leb (block_of c start) j && leb j (last_block c start cnt)

pub last_sector_lem : (start cnt : ℕ) → IsRange start cnt → last_sector start cnt ≡ start + cnt - 1
last_sector_lem start cnt r = omega arith

pub first-le-last :
    (c : CbtMap) (start cnt : ℕ) → IsRange start cnt → block_of c start ≤ last_block c start cnt
first-le-last c start cnt r =
    div_mono (2 ^ sub64 c.blk_size_shift sector_shift) start (start + cnt - 1)
      (pow_pos (sub64 c.blk_size_shift sector_shift)) (omega arith)

range_ret_rounds :
    (rounds first last n : ℕ)
    → first ≤ last
    → rounds ≡ last + 1 - first
    → range_ret rounds first n ≡ (if ltb last n then ok else err einval)
range_ret_rounds zero first last n h e = absurd (omega arith)
range_ret_rounds (suc rounds) first last n h e = ground arith

-- `set_map` on a table of the right size: the blocks of the range are raised to the number.
pub set_map_lem :
    (c : CbtMap) (start cnt s : ℕ) (bytes : List ℕ)
    → IsRange start cnt
    → length bytes ≡ c.blk_count
    → let first = block_of c start in
      set_map c start cnt s (some bytes)
      ≡ some (
        if ltb (last_block c start cnt) c.blk_count then ok else err einval,
        some (raise_range (last_block c start cnt + 1 - first) first s bytes),
      )
unfolding set_map
set_map_lem c start cnt s bytes r e =
    let first = block_of c start in
    let rounds = last_block c start cnt + 1 - first in
    rw (
      last_sector_lem start cnt r,
      set_loop_lem rounds first c.blk_count s bytes e,
      range_ret_rounds rounds first (last_block c start cnt) c.blk_count
          (first-le-last c start cnt r) refl,
    )

-- The table after the write of a range.
abbrev pub raised : CbtMap → ℕ → ℕ → ℕ → List ℕ → List ℕ
raised c start cnt s bytes =
    raise_range (last_block c start cnt + 1 - block_of c start) (block_of c start) s bytes

pub get_or-raised :
    (c : CbtMap) (start cnt s j : ℕ) (bytes : List ℕ)
    → IsRange start cnt
    → j < length bytes
    → get_or (raised c start cnt s bytes) j 0
      ≡ (if covers c start cnt j then max (get_or bytes j 0) s else get_or bytes j 0)
get_or-raised c start cnt s j bytes r h = ground (
  arith,
  get_or-raise_range (last_block c start cnt + 1 - block_of c start) (block_of c start) s j bytes h,
  first-le-last c start cnt r,
)

pub length-raised :
    (c : CbtMap) (start cnt s : ℕ) (bytes : List ℕ)
    → length (raised c start cnt s bytes) ≡ length bytes
length-raised c start cnt s bytes =
    length-raise_range (last_block c start cnt + 1 - block_of c start) (block_of c start) s bytes

pub raised-le :
    (c : CbtMap) (start cnt s : ℕ) (bytes : List ℕ)
    → IsRange start cnt
    → ((j : ℕ) → get_or bytes j 0 ≤ s)
    → (j : ℕ) → get_or (raised c start cnt s bytes) j 0 ≤ s
raised-le c start cnt s bytes r h j = elim (Bool-cases (ltb j (length bytes))) [
  | inl inside ↦ ground (arith, get_or-raised c start cnt s j bytes r (ltb→lt _ _ inside), h j)
  | inr out ↦
      ground (arith, get_or-ge (raised c start cnt s bytes) j 0, length-raised c start cnt s bytes)
]

pub write_bytes-le :
    {c : CbtMap} (v : IsValid c) (j : ℕ) → get_or v.write_bytes j 0 ≤ c.snap_number_active
write_bytes-le {c} v j =
    let h : byte c.write_map j ≤ c.snap_number_active = v.write_le j in rw v.write_is at h

pub read_bytes-le :
    {c : CbtMap} (v : IsValid c) (j : ℕ) → get_or v.read_bytes j 0 ≤ c.snap_number_previous
read_bytes-le {c} v j =
    let h : byte c.read_map j ≤ c.snap_number_previous = v.read_le j in rw v.read_is at h

-- The map that `cbt_map_set` leaves.
abbrev pub set_result : CbtMap → ℕ → ℕ → List ℕ → CbtMap
set_result c start cnt bytes = record c {
  write_map = some (raised c start cnt c.snap_number_active bytes);
  is_corrupted = not (ltb (last_block c start cnt) c.blk_count);
}

pub cbt_map_set-eq :
    (c : CbtMap) (start cnt : ℕ)
    → (v : IsValid c) → c.is_corrupted ≡ false
    → IsRange start cnt
    → cbt_map_set c start cnt
      ≡ some (
        if ltb (last_block c start cnt) c.blk_count then ok else err einval,
        set_result c start cnt v.write_bytes,
      )
unfolding cbt_map_set
cbt_map_set-eq c start cnt v clean r =
    let number : u8 c.snap_number_active ≡ c.snap_number_active = omega arith in
    ground
      (arith, v.write_is, set_map_lem c start cnt c.snap_number_active v.write_bytes r v.write_size)

-- On a valid map that is not corrupted, the write of a range that is not empty succeeds exactly if
-- its last block is in the table, raises the bytes of the range's blocks to the current change
-- number, keeps every other byte and the read table, and marks the map corrupted on a failure.
pub cbt_map_set_lem :
    (c : CbtMap) (start cnt : ℕ)
    → IsValid c
    → c.is_corrupted ≡ false
    → IsRange start cnt
    → (c' : CbtMap) × (cbt_map_set c start cnt
        ≡ some (if ltb (last_block c start cnt) c.blk_count then ok else err einval, c'))
      × ((j : ℕ)
          → j < c.blk_count
          → byte c'.write_map j ≡ (
              if covers c start cnt j
              then max (byte c.write_map j) c.snap_number_active
              else byte c.write_map j))
      × (c'.read_map ≡ c.read_map)
      × (c'.is_corrupted ≡ not (ltb (last_block c start cnt) c.blk_count))
cbt_map_set_lem c start cnt v clean r = (
  set_result c start cnt v.write_bytes,
  cbt_map_set-eq c start cnt v clean r,
  (λ j h. rw v.write_is (
      get_or-raised c start cnt c.snap_number_active j v.write_bytes r
        (omega (arith, v.write_size)))),
  refl,
  refl,
)

-- A map that is marked corrupted refuses every write, and is left as it is.
pub corrupted-cbt_map_set :
    (c : CbtMap) (start cnt : ℕ)
    → c.is_corrupted ≡ true
    → cbt_map_set c start cnt ≡ some (err einval, c)
unfolding cbt_map_set
corrupted-cbt_map_set c start cnt h = rw h

pub set_result-IsValid :
    (c : CbtMap) (start cnt : ℕ) (v : IsValid c)
    → IsRange start cnt
    → IsValid (set_result c start cnt v.write_bytes)
set_result-IsValid c start cnt v r = record {
  read_bytes = v.read_bytes;
  write_bytes = raised c start cnt c.snap_number_active v.write_bytes;
  read_is = v.read_is;
  write_is = refl;
  read_size = v.read_size;
  write_size = length-raised c start cnt c.snap_number_active v.write_bytes ∙ v.write_size;
  active_pos = v.active_pos;
  active_byte = v.active_byte;
  previous_byte = v.previous_byte;
  write_le = raised-le c start cnt c.snap_number_active v.write_bytes r (write_bytes-le v);
  read_le = v.read_le;
}
