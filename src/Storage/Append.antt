-- ===== src/Storage/Append.antt =====
-- `diff_storage_append_block` of module/diff_storage.c: what the ranges of user space add.
use blksnap.Prelude.{
  ℕ, ◌+◌, ◌-◌, ◌^◌, ◌≤◌, ◌<◌, ◌≡◌, Bool, true, false, not, ◌&&◌, inl, inr, Option-cases, List, [],
  ◌∷◌, ◌++◌, arith, leb, ◌==◌, if◌then◌else◌, All-append,
}
use blksnap.Kernel.{Ret, ok, err, einval, enomem, add64}
use blksnap.Storage.{
  StorageBlock, DiffStorage, UserRange, Opened, opened, refused, diff_storage_bdev_by_id,
  diff_storage_add_storage_bdev, add_ranges, clear_low_space, finish_append, append_to,
  append_added, diff_storage_append_block,
}
use blksnap.Storage.Inv.{IsSane, IsValid, AreBlocks, count_sum-append, used_sum-append}
use blksnap.Storage.Room.{covers, frees, frees-append, spans, spans-append}

-- A range whose sectors do not wrap, and the sectors of all ranges together.
abbrev pub AreSane : List UserRange → Type 0
AreSane [] = Unit
AreSane (r ∷ rs) = (r.sector_offset + r.sector_count < 2 ^ 64) × AreSane rs

abbrev pub sectors : List UserRange → ℕ
sectors [] = 0
sectors (r ∷ rs) = r.sector_count + sectors rs

-- The sectors given out and those that are free make up no more than the blocks of the storage.
abbrev pub Bounded : (ℕ → ℕ → ℕ) → DiffStorage → Type 0
Bounded taken d =
    (dev s : ℕ)
    → taken dev s + frees d.empty_blocks dev s
      ≤ spans d.empty_blocks dev s + spans d.filled_blocks dev s

-- What appending leaves: a valid storage that has grown by at most `n` sectors and is bounded as
-- before.
pub record Grown (d : DiffStorage) (n : ℕ) (d' : DiffStorage) : Type 0 where
  pub valid : IsValid d'
  pub larger : d.capacity ≤ d'.capacity
  pub limited : d'.capacity ≤ d.capacity + n
  pub bounded : (taken : ℕ → ℕ → ℕ) → Bounded taken d → Bounded taken d'

Grown-refl : (d : DiffStorage) (n : ℕ) → IsValid d → Grown d n d
Grown-refl d n v = record {
  valid = v;
  larger = omega arith;
  limited = omega arith;
  bounded = λ t b. b;
}

abbrev block : (bdev sector count : ℕ) → StorageBlock
block bdev sector count = record { bdev = bdev; sector = sector; count = count; used = 0 }

abbrev ranged : DiffStorage → (bdev sector count : ℕ) → DiffStorage
ranged d bdev sector count = record d {
  empty_blocks = d.empty_blocks ++ (block bdev sector count ∷ []);
  capacity = add64 d.capacity count;
}

ranged-Grown :
    (d : DiffStorage) (bdev sector count : ℕ)
    → IsValid d
    → sector + count < 2 ^ 64
    → d.capacity + count < 2 ^ 64
    → Grown d count (ranged d bdev sector count)
ranged-Grown d bdev sector count v sane room =
    let b = block bdev sector count in
    let counts = count_sum-append d.empty_blocks (b ∷ []) in
    let used = used_sum-append d.empty_blocks (b ∷ []) in
    record {
      valid = record {
        sane_empty =
            All-append IsSane d.empty_blocks (b ∷ []) v.sane_empty
              (record { used_in = omega arith; no_wrap = sane }, tt);
        sane_full = v.sane_full;
        filled_sum = omega (arith, v.filled_sum);
        capacity_sum = omega (arith, v.capacity_sum);
        small = omega arith;
      };
      larger = omega arith;
      limited = omega arith;
      bounded = λ t h dev s.
          let free = frees-append d.empty_blocks (b ∷ []) dev s in
          let span = spans-append d.empty_blocks (b ∷ []) dev s in
          let start : sector + 0 ≡ sector = omega arith in
          let size : count - 0 ≡ count = omega arith in
          let same : covers bdev (sector + 0) (count - 0) dev s ≡ covers bdev sector count dev s =
            rw (start, size) in
          omega (arith, h dev s);
    }

Grown-trans :
    (d d' d'' : DiffStorage) (m n : ℕ) → Grown d m d' → Grown d' n d'' → Grown d (m + n) d''
Grown-trans d d' d'' m n g h = record {
  valid = h.valid;
  larger = omega (arith, g.larger, h.larger);
  limited = omega (arith, g.limited, h.limited);
  bounded = λ t b. h.bounded t (g.bounded t b);
}

add_ranges-cons :
    (d : DiffStorage) (bdev : ℕ) (r : UserRange) (rs : List UserRange)
    → add_ranges d bdev (r ∷ rs) ≡ (
        if r.copied
        then (if r.alloc
            then add_ranges (ranged d bdev r.sector_offset r.sector_count) bdev rs
            else (err enomem, d))
        else (err einval, d))
unfolding add_ranges
add_ranges-cons d bdev r rs = ground arith

add_ranges-Grown :
    (ranges : List UserRange) (d : DiffStorage) (bdev : ℕ)
    → IsValid d
    → AreSane ranges
    → d.capacity + sectors ranges < 2 ^ 64
    → Grown d (sectors ranges) (add_ranges d bdev ranges).1
unfolding add_ranges
add_ranges-Grown [] d bdev v sane room = Grown-refl d 0 v
add_ranges-Grown (r ∷ rs) d bdev v (sane, rest) room =
    let n = r.sector_count + sectors rs in
    let one = ranged-Grown d bdev r.sector_offset r.sector_count v sane (omega arith) in
    let d' = ranged d bdev r.sector_offset r.sector_count in
    rw (add_ranges-cons d bdev r rs)
      (elim r.copied
        as (λ t.
          Grown d n
            (if t
              then (if r.alloc then add_ranges d' bdev rs else (err enomem, d))
              else (err einval, d)).1) [
                | false ↦ Grown-refl d n v
                | true ↦
                    elim r.alloc
                      as (λ t. Grown d n (if t then add_ranges d' bdev rs else (err enomem, d)).1) [
                        | false ↦ Grown-refl d n v
                        | true ↦ Grown-trans d d' _ r.sector_count (sectors rs) one (
                            add_ranges-Grown rs d' bdev one.valid rest (omega (arith, one.limited)))
                      ]
              ])

clear-Grown :
    (d : DiffStorage) (n : ℕ) (d' : DiffStorage) → Grown d n d' → Grown d n (clear_low_space d')
unfolding clear_low_space
clear-Grown d n d' g =
    elim (not (d'.low_space_flag == 0) && leb d'.requested d'.capacity)
      as (λ t. Grown d n (if t then record d' { low_space_flag = 0 } else d')) [
        | true ↦ record {
          valid = record {
            sane_empty = g.valid.sane_empty;
            sane_full = g.valid.sane_full;
            filled_sum = g.valid.filled_sum;
            capacity_sum = g.valid.capacity_sum;
            small = g.valid.small;
          };
          larger = g.larger;
          limited = g.limited;
          bounded = g.bounded;
        }
        | false ↦ g
      ]

finish-Grown :
    (d : DiffStorage) (n : ℕ) (out : Ret × DiffStorage)
    → Grown d n out.1
    → Grown d n (finish_append out).1
unfolding finish_append
finish-Grown d n (ok, d') g = clear-Grown d n d' g
finish-Grown d n (err e, d') g = g

append_to-Grown :
    (d : DiffStorage) (bdev : ℕ) (ranges : List UserRange)
    → IsValid d
    → AreSane ranges
    → d.capacity + sectors ranges < 2 ^ 64
    → Grown d (sectors ranges) (append_to d bdev ranges).1
unfolding append_to
append_to-Grown d bdev ranges v sane room =
    finish-Grown d (sectors ranges) (add_ranges d bdev ranges)
      (add_ranges-Grown ranges d bdev v sane room)

added-Grown :
    (o : Opened) (b : Bool) (d : DiffStorage) (dev_id : ℕ) (ranges : List UserRange)
    → IsValid d
    → AreSane ranges
    → d.capacity + sectors ranges < 2 ^ 64
    → Grown d (sectors ranges) (append_added (diff_storage_add_storage_bdev o b d dev_id) ranges).1
unfolding append_added diff_storage_add_storage_bdev
added-Grown (refused e) b d dev_id ranges v sane room = Grown-refl d (sectors ranges) v
added-Grown (opened bdev) false d dev_id ranges v sane room = Grown-refl d (sectors ranges) v
added-Grown (opened bdev) true d dev_id ranges v sane room =
    let d' = record d {
      storage_bdevs = d.storage_bdevs ++ (record { dev_id = dev_id; bdev = bdev } ∷ []);
    } in
    let g = append_to-Grown d' bdev ranges (same v) sane room in
    record { valid = g.valid; larger = g.larger; limited = g.limited; bounded = g.bounded }
  where
    same : IsValid d → AreBlocks d.empty_blocks d.filled_blocks d.filled d.capacity
    same v = v

-- Whatever the kernel answers, appending ranges that do not wrap to a valid storage, whose capacity and
-- the sectors of the ranges are together below 2^64, leaves a valid storage, which has grown by at most the sectors of the ranges, and in which what was given out and
-- what is free is still no more than the blocks.
pub append_block-Grown :
    (o : Opened) (bdev_alloc : Bool) (d : DiffStorage) (dev_id : ℕ) (ranges : List UserRange)
    → IsValid d
    → AreSane ranges
    → d.capacity + sectors ranges < 2 ^ 64
    → Grown d (sectors ranges) (diff_storage_append_block o bdev_alloc d dev_id ranges).1
unfolding diff_storage_append_block
append_block-Grown o bdev_alloc d dev_id ranges v sane room =
    elim (Option-cases (diff_storage_bdev_by_id d dev_id)) [
      | inr (bdev, known) ↦
          rw (known, diff_storage_append_block) (append_to-Grown d bdev ranges v sane room)
      | inl unknown ↦
          rw (unknown, diff_storage_append_block)
            (added-Grown o bdev_alloc d dev_id ranges v sane room)
    ]
