-- ===== src/Cbt.antt =====
-- module/cbt_map.c and module/cbt_map.h: the table of changed blocks. A function that updates
-- `*cbt_map` returns the new map; `none` is a null pointer that is read or written, or an access
-- beyond a table. The spinlock makes each function one step. What the allocator, the random
-- generator and `copy_to_user` answer are arguments.
pub mod Marks
pub mod Inv
pub mod Ops
pub mod Dirty
pub mod Epochs
pub mod Size
pub mod Read
pub mod Tests
use blksnap.Prelude.{
  ℕ, zero, suc, ◌+◌, ◌-◌, ◌*◌, ◌/◌, ◌%◌, ◌^◌, min, Bool, true, false, Option, none, some, List, [],
  ◌∷◌, ◌++◌, ltb, leb, ◌==◌, if◌then◌else◌, get_or, get_elem?, set, replicate, take, drop, length,
}
use blksnap.Kernel.{
  einval, enomem, efault, Ret, ok, err, sector_shift, u64, add64, sub64, u8, shl_one, Rounding,
  Params,
}

-- `struct cbt_map`
pub record CbtMap : Type 0 where
  pub kref : ℕ
  pub blk_size_shift : ℕ
  pub blk_count : ℕ
  pub device_capacity : ℕ
  pub read_map : Option (List ℕ)
  pub write_map : Option (List ℕ)
  pub snap_number_active : ℕ
  pub snap_number_previous : ℕ
  pub generation_id : ℕ
  pub is_corrupted : Bool

-- what `kzalloc` leaves
abbrev pub zeroed : CbtMap
zeroed = record {
  kref = 0;
  blk_size_shift = 0;
  blk_count = 0;
  device_capacity = 0;
  read_map = none;
  write_map = none;
  snap_number_active = 0;
  snap_number_previous = 0;
  generation_id = 0;
  is_corrupted = false;
}

module _ (K : Rounding) (P : Params) where
  open K use {round_up}

  pub count_by_shift : ℕ → ℕ → ℕ
  count_by_shift capacity shift =
      let blk_size = shl_one (sub64 shift sector_shift) in round_up capacity blk_size / blk_size

  -- The while loop of `cbt_map_calculate_block_size`; `none` if it runs longer than its fuel.
  pub block_size_loop : ℕ → ℕ → ℕ → ℕ → Option (ℕ × ℕ)
  block_size_loop zero capacity shift count = none
  block_size_loop (suc fuel) capacity shift count =
      elim (ltb P.tracking_block_maximum_count count) [
        | true ↦
            block_size_loop fuel capacity (u64 (shift * 2))
              (count_by_shift capacity (u64 (shift * 2)))
        | false ↦ some (shift, count)
      ]

  pub block_size_fuel : ℕ
  block_size_fuel = 4

  pub cbt_map_calculate_block_size : CbtMap → Option CbtMap
  unfolding block_size_fuel
  cbt_map_calculate_block_size c =
      let shift = P.tracking_block_minimum_shift in
      elim (block_size_loop block_size_fuel c.device_capacity shift
        (count_by_shift c.device_capacity shift)) [
          | none ↦ none
          | some (s, n) ↦ some (record c { blk_size_shift = s; blk_count = n })
        ]

-- The answers of the two `__vmalloc` calls and of `generate_random_uuid`.
pub record Memory : Type 0 where
  pub read_ok : Bool
  pub write_ok : Bool
  pub uuid : ℕ

is_null : Option (List ℕ) → Bool
is_null none = true
is_null (some _) = false

pub cbt_map_allocate : Memory → CbtMap → Ret × CbtMap
unfolding is_null
cbt_map_allocate m c =
    if is_null c.read_map
    then (if is_null c.write_map
        then (if m.read_ok
            then (if m.write_ok
                then (
                  ok,
                  record c {
                    read_map = some (replicate c.blk_count 0);
                    write_map = some (replicate c.blk_count 0);
                    snap_number_previous = 0;
                    snap_number_active = 1;
                    generation_id = m.uuid;
                    is_corrupted = false;
                  },
                )
                else (err enomem, c))
            else (err enomem, c))
        else (err einval, c))
    else (err einval, c)

pub cbt_map_deallocate : CbtMap → CbtMap
cbt_map_deallocate c = record c { is_corrupted = false; read_map = none; write_map = none }

pub cbt_map_reset : Rounding → Params → Memory → CbtMap → ℕ → Option (Ret × CbtMap)
cbt_map_reset K P m c device_capacity =
    elim (cbt_map_calculate_block_size K P
      (record (cbt_map_deallocate c) { device_capacity = device_capacity })) [
        | none ↦ none
        | some sized ↦ some (cbt_map_allocate m sized)
      ]

-- The outer option is the fuel, the inner one the pointer. `map_ok` is the answer of `kzalloc`;
-- on a failure of `cbt_map_allocate` the map is destroyed.
pub cbt_map_create : Rounding → Params → (map_ok : Bool) → Memory → ℕ → Option (Option CbtMap)
cbt_map_create K P false m sectors = some none
cbt_map_create K P true m sectors =
    elim (cbt_map_calculate_block_size K P (record zeroed { device_capacity = sectors })) [
      | none ↦ none
      | some sized ↦
          let (ret, made) = cbt_map_allocate m sized in
          elim ret [
            | ok ↦ some (some (record made { kref = 1; is_corrupted = false }))
            | err _ ↦ some none
          ]
    ]

pub cbt_map_get : CbtMap → CbtMap
cbt_map_get c = record c { kref = c.kref + 1 }

-- `none` once the last reference is gone and the map is destroyed.
pub cbt_map_put : CbtMap → Option CbtMap
cbt_map_put c = if c.kref == 1 then none else some (record c { kref = c.kref - 1 })

-- The shift is of an `int`, of 32 bits: its sign is extended to `size_t`, and of a shift by 32 or more,
-- which C leaves undefined, an x86 processor takes the low five bits.
pub cbt_map_blk_size : CbtMap → ℕ
cbt_map_blk_size c = let s = c.blk_size_shift % 32 in if s == 31 then 2 ^ 64 - 2 ^ 31 else 2 ^ s

-- `memset` and `memcpy` on the first `n` bytes.
abbrev pub memset : List ℕ → ℕ → ℕ → List ℕ
memset dst v n = replicate n v ++ drop n dst

abbrev pub memcpy : List ℕ → List ℕ → ℕ → List ℕ
memcpy dst src n = take n src ++ drop n dst

pub cbt_map_switch : (uuid : ℕ) → CbtMap → Option CbtMap
cbt_map_switch uuid c =
    let next = add64 c.snap_number_active 1 in
    elim c.write_map [
      | none ↦ none
      | some w ↦
          if next == 256
          then some (record c {
            snap_number_previous = c.snap_number_active;
            snap_number_active = 1;
            write_map = some (memset w 0 c.blk_count);
            generation_id = uuid;
          })
          else elim c.read_map [
            | none ↦ none
            | some r ↦ some (record c {
              snap_number_previous = c.snap_number_active;
              snap_number_active = next;
              read_map = some (memcpy r w c.blk_count);
            })
          ]
    ]

-- `num = map[inx]; if (num < snap_number) map[inx] = snap_number;`
pub raise : List ℕ → ℕ → ℕ → List ℕ
raise bytes inx snap_number =
    if ltb (get_or bytes inx 0) snap_number then set bytes inx snap_number else bytes

-- The loop of `_cbt_map_set` with the rounds left: its index runs up to the last block.
pub set_loop :
    (rounds inx blk_count snap_number : ℕ) → Option (List ℕ) → Option (Ret × Option (List ℕ))
set_loop zero inx blk_count snap_number map = some (ok, map)
set_loop (suc rounds) inx blk_count snap_number map = elim (leb blk_count inx) [
  | true ↦ some (err einval, map)
  | false ↦ elim map [
    | none ↦ none
    | some bytes ↦
        set_loop rounds (inx + 1) blk_count snap_number (some (raise bytes inx snap_number))
  ]
]

abbrev pub block_of : CbtMap → ℕ → ℕ
block_of c sector = sector / 2 ^ sub64 c.blk_size_shift sector_shift

abbrev pub last_sector : ℕ → ℕ → ℕ
last_sector start cnt = sub64 (add64 start cnt) 1

pub set_map : CbtMap → ℕ → ℕ → ℕ → Option (List ℕ) → Option (Ret × Option (List ℕ))
set_map c start cnt snap_number map =
    let first = block_of c start in
    let last = block_of c (last_sector start cnt) in
    set_loop (last + 1 - first) first c.blk_count snap_number map

pub cbt_map_set : CbtMap → ℕ → ℕ → Option (Ret × CbtMap)
cbt_map_set c start cnt =
    if c.is_corrupted
    then some (err einval, c)
    else elim (set_map c start cnt (u8 c.snap_number_active) c.write_map) [
      | none ↦ none
      | some (ok, w) ↦ some (ok, record c { write_map = w })
      | some (err e, w) ↦ some (err e, record c { write_map = w; is_corrupted = true })
    ]

pub cbt_map_set_both : CbtMap → ℕ → ℕ → Option (Ret × CbtMap)
cbt_map_set_both c start cnt =
    if c.is_corrupted
    then some (err einval, c)
    else elim (set_map c start cnt (u8 c.snap_number_active) c.write_map) [
      | none ↦ none
      | some (err e, w) ↦ some (err e, record c { write_map = w })
      | some (ok, w) ↦ elim (set_map c start cnt (u8 c.snap_number_previous) c.read_map) [
        | none ↦ none
        | some (res, r) ↦ some (res, record c { write_map = w; read_map = r })
      ]
    ]

-- `ranges` is the array of (sector_offset, sector_count) that `count` measures.
pub cbt_map_mark_dirty_blocks : CbtMap → List (ℕ × ℕ) → Option (Ret × CbtMap)
unfolding cbt_map_set_both
cbt_map_mark_dirty_blocks c [] = some (ok, c)
cbt_map_mark_dirty_blocks c ((offset, count) ∷ ranges) = elim (cbt_map_set_both c offset count) [
  | none ↦ none
  | some (err e, c') ↦ some (err e, c')
  | some (ok, c') ↦ cbt_map_mark_dirty_blocks c' ranges
]

-- `left` is the answer of `copy_to_user`. The result is the size read, with the bytes that the
-- user gets.
pub cbt_map_read_to_user : CbtMap → (offset size left : ℕ) → Option (Ret × ℕ × List ℕ)
cbt_map_read_to_user c offset size left =
    let real_size = min (sub64 c.blk_count offset) size in
    if c.is_corrupted then some (err efault, 0, []) else elim c.read_map [
      | none ↦ none
      | some r ↦
          if ltb (length r) real_size
          then none
          else some (ok, real_size - left, take (real_size - left) r)
    ]

-- The numbers of the previous and of the current table.
pub cbt_map_get_sector_state : CbtMap → ℕ → Ret × Option ℕ × Option ℕ
cbt_map_get_sector_state c sector =
    let cbt_block = block_of c sector in
    if leb c.blk_count cbt_block
    then (err einval, none, none)
    else if c.is_corrupted
    then (err einval, none, none)
    else (
      ok,
      elim c.read_map [ none ↦ none | some r ↦ get_elem? r cbt_block ],
      elim c.write_map [ none ↦ none | some w ↦ get_elem? w cbt_block ],
    )
