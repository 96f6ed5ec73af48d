-- ===== src/DiffIo.antt =====
-- module/diff_io.c and module/diff_io.h: the I/O of a region of sectors as bios, and the notification
-- when the last of them ends. The bios that the kernel allocates are an argument.
pub mod Split
pub mod Ends
pub mod Whole
mod Tests
use blksnap.Prelude.{
  ℕ, zero, suc, ◌+◌, ◌-◌, ◌*◌, ◌/◌, ◌%◌, ◌^◌, min, Bool, true, false, not, Option, none, some, List,
  [], ◌∷◌, ltb, ◌==◌, if◌then◌else◌, length,
}
use blksnap.Kernel.{Errno, einval, eagain, eio, Ret, ok, err, add64, Rounding}
use blksnap.Storage.{DiffRegion}
use blksnap.Buffer.{DiffBuffer, page_sectors}

-- `struct diff_io`; `is_sync_io` tells which of the two notifications it has.
pub record DiffIo : Type 0 where
  pub error : Ret
  pub bio_count : ℕ
  pub is_write : Bool
  pub is_sync_io : Bool

-- A bio: its first sector, the number of vectors that it was allocated for, and the pages added to
-- it, each by its index in the buffer with the sectors that it holds.
pub record Bio : Type 0 where
  pub bi_sector : ℕ
  pub nr_iovecs : ℕ
  pub pages : List (ℕ × ℕ)

pub diff_io_new : (alloc is_write is_sync_io : Bool) → Option DiffIo
diff_io_new false is_write is_sync_io = none
diff_io_new true is_write is_sync_io =
    some (record { error = ok; bio_count = 0; is_write = is_write; is_sync_io = is_sync_io })

pub diff_io_new_sync : (alloc is_write : Bool) → Option DiffIo
unfolding diff_io_new
diff_io_new_sync alloc is_write = diff_io_new alloc is_write true

pub diff_io_new_async : (alloc is_write : Bool) → Option DiffIo
unfolding diff_io_new
diff_io_new_async alloc is_write = diff_io_new alloc is_write false

-- `sector & (2^3 - 1)` keeps the low bits.
pub check_page_aligned : ℕ → Bool
check_page_aligned sector = sector % 8 == 0

-- The state of the inner loop when it stops: the pages added, the next page, and the offset.
abbrev pub Filled : Type 0
Filled = List (ℕ × ℕ) × ℕ × ℕ

-- The inner loop of `diff_io_do`; `none` if it runs longer than its fuel.
pub fill_bio : (fuel offset portion page : ℕ) → Option Filled
fill_bio zero offset portion page = none
fill_bio (suc fuel) offset portion page = elim (ltb offset portion) [
  | false ↦ some ([], page, offset)
  | true ↦
      let bvec_len_sect = min page_sectors (portion - offset) in
      elim (fill_bio fuel (offset + bvec_len_sect) portion (page + 1)) [
        | none ↦ none
        | some (pages, next, end) ↦ some ((page, bvec_len_sect) ∷ pages, next, end)
      ]
]

-- How the outer loop ends: with the list of bios; at a bio that could not be allocated, where the
-- bios before it are put back; or with its fuel used up.
pub data Made : Type 0 where
  made : List Bio → Made
  failed : List Bio → Made
  no_fuel : Made

abbrev pub put_first : Bio → Made → Made
put_first b (made bs) = made (b ∷ bs)
put_first b (failed bs) = failed (b ∷ bs)
put_first b no_fuel = no_fuel

module _ (K : Rounding) (bio_max_pages : ℕ) where
  -- The result is an `unsigned short`.
  pub calc_page_count : ℕ → ℕ
  calc_page_count sectors = K.round_up sectors page_sectors / page_sectors % 2 ^ 16

  pub bio_max_segs : ℕ → ℕ
  bio_max_segs nr_segs = min nr_segs bio_max_pages

  -- The outer loop of `diff_io_do`; the kernel answers for each bio, by its number.
  pub make_bios : (fuel : ℕ) → (ℕ → Bool) → DiffRegion → (processed page number : ℕ) → Made
  unfolding fill_bio
  make_bios zero alloc r processed page number = no_fuel
  make_bios (suc fuel) alloc r processed page number = elim (ltb processed r.count) [
    | false ↦ made []
    | true ↦
        let rest = r.count - processed in
        let nr_iovecs = calc_page_count rest in
        let most = bio_max_segs nr_iovecs in
        let portion = if ltb most nr_iovecs then most * page_sectors else rest in
        elim (alloc number) [
          | false ↦ failed []
          | true ↦ elim (fill_bio (portion + 1) 0 portion page) [
            | none ↦ no_fuel
            | some (pages, next, offset) ↦
                put_first
                  (record { bi_sector = add64 r.sector processed; nr_iovecs = most; pages = pages })
                  (make_bios fuel alloc r (processed + offset) next (number + 1))
          ]
        ]
  ]

  -- `diff_io_do` up to the submission of the bios: the result, the structure, and the bios submitted;
  -- `none` if the fuel is used up.
  pub submit_bios :
      (fuel : ℕ) → (ℕ → Bool) → DiffIo → DiffRegion → DiffBuffer → Option (Ret × DiffIo × List Bio)
  submit_bios fuel alloc io r b =
      if not (check_page_aligned r.sector)
      then some (err einval, io, [])
      else if ltb b.page_count (calc_page_count r.count)
      then some (err einval, io, [])
      else (elim (make_bios fuel alloc r 0 0 0) [
        | no_fuel ↦ none
        | made bs ↦ some (ok, record io { bio_count = io.bio_count + length bs }, bs)
        | failed bs ↦ some (err eagain, record io { bio_count = io.bio_count + length bs }, [])
      ])

-- What the end of a bio sets off.
pub data Notice : Type 0 where
  nothing complete queue_work : Notice

-- `good` is the status BLK_STS_OK.
pub diff_io_endio : DiffIo → (good : Bool) → DiffIo × Notice
diff_io_endio io good =
    let error = if good then io.error else err eio in
    let left = io.bio_count - 1 in
    (
      record io { error = error; bio_count = left },
      if left == 0 then (if io.is_sync_io then complete else queue_work) else nothing,
    )

-- How `diff_io_do` ends: with a result, the structure and the bios submitted; it waits for ever; or
-- the fuel is used up.
pub data Done : Type 0 where
  returned : Ret → DiffIo → List Bio → Done
  waits_for_ever out_of_fuel : Done

-- `wait_for_completion_io`, while the bios end as `ends` says, in this order.
pub wait_for_completion : DiffIo → List Bio → (ends : List Bool) → Done
unfolding diff_io_endio
wait_for_completion io bs [] = waits_for_ever
wait_for_completion io bs (good ∷ ends) =
    let (io', n) = diff_io_endio io good in
    let rest = wait_for_completion io' bs ends in
    elim n [ complete ↦ returned ok io' bs | nothing ↦ rest | queue_work ↦ rest ]

-- The call as a whole. Only a synchronous I/O waits.
pub diff_io_do :
    Rounding
    → (bio_max_pages fuel : ℕ) → (ℕ → Bool)
    → DiffIo
    → DiffRegion
    → DiffBuffer
    → (ends : List Bool) → Done
unfolding submit_bios wait_for_completion
diff_io_do K bio_max_pages fuel alloc io r b ends =
    elim (submit_bios K bio_max_pages fuel alloc io r b) [
      | none ↦ out_of_fuel
      | some (err e, io', bs) ↦ returned (err e) io' bs
      | some (ok, io', bs) ↦ elim io.is_sync_io [
        | true ↦ wait_for_completion io' bs ends
        | false ↦ returned ok io' bs
      ]
    ]
