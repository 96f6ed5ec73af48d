-- ===== src/Cbt/Read.antt =====
-- Reading the table (`cbt_map_read_to_user` of module/cbt_map.c), and writes to a map whose tables
-- could not be allocated.
use native.Mathlib.Decide.{dec_le}
use blksnap.Prelude.{
  ℕ, zero, suc, ◌+◌, ◌-◌, ◌^◌, ◌≤◌, ◌<◌, min, ◌≡◌, false, ◌&&◌, some, none, arith, take, length,
  leb, if◌then◌else◌, lt→leb_false,
}
use blksnap.Kernel.{ok, err, enomem, sub64, u8, Rounding, default_params}
use blksnap.Cbt.{
  CbtMap, Memory, block_of, set_loop, set_map, cbt_map_set, cbt_map_reset, cbt_map_read_to_user,
}
use blksnap.Cbt.Inv.{IsValid, IsRange, last_block, first-le-last, last_sector_lem}
use blksnap.Cbt.Size.{max_capacity, sector_in_table, reset_lem}

-- At an offset in the table.
read_inside :
    (c : CbtMap) (offset size left : ℕ) (v : IsValid c)
    → c.is_corrupted ≡ false
    → offset ≤ c.blk_count
    → c.blk_count < 2 ^ 64
    → let readed = min (c.blk_count - offset) size - left in
      cbt_map_read_to_user c offset size left ≡ some (ok, readed, take readed v.read_bytes)
unfolding cbt_map_read_to_user
read_inside c offset size left v clean h small =
    let wrap : sub64 c.blk_count offset ≡ c.blk_count - offset = omega arith in
    let real : min (c.blk_count - offset) size ≤ length v.read_bytes = omega (arith, v.read_size) in
    rw (v.read_is, wrap) (ground arith)

-- At an offset past the end, where the subtraction wraps.
read_past_end :
    (c : CbtMap) (offset size left : ℕ)
    → IsValid c
    → c.is_corrupted ≡ false
    → c.blk_count < offset
    → offset < 2 ^ 32
    → c.blk_count < 2 ^ 32
    → c.blk_count < size
    → size < 2 ^ 32
    → cbt_map_read_to_user c offset size left ≡ none
unfolding cbt_map_read_to_user
read_past_end c offset size left v clean past small count more word =
    let wrap : sub64 c.blk_count offset ≡ c.blk_count + 2 ^ 64 - offset = omega arith in
    let real : min (sub64 c.blk_count offset) size ≡ size = omega arith in
    rw (v.read_is, real) (ground (arith, v.read_size))

few_past_end :
    (c : CbtMap) (offset size left : ℕ) (v : IsValid c)
    → c.is_corrupted ≡ false
    → c.blk_count < offset
    → offset < 2 ^ 32
    → size ≤ c.blk_count
    → size < 2 ^ 32
    → cbt_map_read_to_user c offset size left
      ≡ some (ok, size - left, take (size - left) v.read_bytes)
unfolding cbt_map_read_to_user
few_past_end c offset size left v clean past small few word =
    let wrap : sub64 c.blk_count offset ≡ c.blk_count + 2 ^ 64 - offset = omega arith in
    let real : min (sub64 c.blk_count offset) size ≡ size = omega arith in
    rw (v.read_is, real) (ground (arith, v.read_size))

-- How many bytes a read asks of the table.
abbrev pub asked : (blk_count offset size : ℕ) → ℕ
asked blk_count offset size = if leb offset blk_count then min (blk_count - offset) size else size

-- A read of a valid map that is not corrupted, with an offset, a size and a table of less than 2^32
-- bytes. At an offset in the table it is of the `size` bytes, as far as the table goes on; at an offset
-- past the end it is of all `size` bytes, since the subtraction wraps. Where these are more than the
-- table has, the read goes beyond it. Else the call reports their number, less what `copy_to_user` left,
-- and the bytes are those from the beginning of the table, whatever the offset is.
pub read_any_offset :
    (c : CbtMap) (offset size left : ℕ) (v : IsValid c)
    → c.is_corrupted ≡ false
    → offset < 2 ^ 32
    → c.blk_count < 2 ^ 32
    → size < 2 ^ 32
    → let n = asked c.blk_count offset size in
      cbt_map_read_to_user c offset size left
      ≡ (if leb n c.blk_count then some (ok, n - left, take (n - left) v.read_bytes) else none)
read_any_offset c offset size left v clean small count word = elim (dec_le offset c.blk_count) [
  | yes inside ↦
      let fits : min (c.blk_count - offset) size ≤ c.blk_count = omega arith in
      ground (arith, inside, fits, read_inside c offset size left v clean inside (omega arith))
  | no past ↦ elim (dec_le size c.blk_count) [
    | yes few ↦
        let beyond : c.blk_count < offset = omega (arith, past) in
        ground (arith, beyond, few, few_past_end c offset size left v clean beyond small few word)
    | no more ↦
        let beyond : c.blk_count < offset = omega (arith, past) in
        let many : c.blk_count < size = omega (arith, more) in
        ground (
          arith,
          beyond,
          many,
          read_past_end c offset size left v clean beyond small count many word,
        )
  ]
]

set_loop-null : (rounds inx n s : ℕ) → 0 < rounds → inx < n → set_loop rounds inx n s none ≡ none
unfolding set_loop
set_loop-null zero inx n s h lt = absurd (omega arith)
set_loop-null (suc rounds) inx n s h lt = rw (lt→leb_false _ _ lt, set_loop)

null-cbt_map_set :
    (c : CbtMap) (start cnt : ℕ)
    → c.write_map ≡ none
    → c.is_corrupted ≡ false
    → IsRange start cnt
    → block_of c start < c.blk_count
    → cbt_map_set c start cnt ≡ none
unfolding cbt_map_set set_map
null-cbt_map_set c start cnt null clean r inside =
    let some_block : 0 < last_block c start cnt + 1 - block_of c start =
      omega (arith, first-le-last c start cnt r) in
    rw (
      clean,
      null,
      last_sector_lem start cnt r,
      set_loop-null (last_block c start cnt + 1 - block_of c start) (block_of c start) c.blk_count
          (u8 c.snap_number_active) some_block inside,
    )

-- Where a reset cannot allocate a table it fails with ENOMEM, but the map is not marked corrupted:
-- the next write inside the device goes through a null pointer.
pub reset_failure_faults :
    (K : Rounding) (m : Memory) (capacity : ℕ) (c : CbtMap) (start cnt : ℕ)
    → capacity ≤ max_capacity
    → m.read_ok && m.write_ok ≡ false
    → IsRange start cnt
    → start < capacity
    → (c' : CbtMap) × (cbt_map_reset K default_params m c capacity ≡ some (err enomem, c'))
      × (cbt_map_set c' start cnt ≡ none)
reset_failure_faults K m capacity c start cnt h bad r inside =
    let (ret, c', run, clean, size, suits, good_case, bad_case) = reset_lem K m capacity h c in
    let (failed, no_read, no_write) = bad_case bad in
    (
      c',
      rw (← failed) run,
      null-cbt_map_set c' start cnt no_write clean r
          (sector_in_table c' start suits (omega (arith, size))),
    )
