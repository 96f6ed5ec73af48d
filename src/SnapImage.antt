-- ===== src/SnapImage.antt =====
-- module/snapimage.c and module/snapimage.h: the block device of a snapshot image, its queue of I/O
-- units and the worker that processes them, in the build without HAVE_GENHD_H and with
-- HAVE_BLK_ALLOC_DISK and HAVE_ADD_DISK_RESULT. The waiting of diff_area_throttling_io is left out.
pub mod Order
pub mod Errors
pub mod Life
mod Tests
use blksnap.Prelude.{
  ℕ, zero, suc, ◌+◌, ◌-◌, Bool, true, false, Option, none, some, List, [], ◌∷◌, ◌++◌, if◌then◌else◌,
}
use blksnap.Kernel.{Errno, enomem, einval, Ret, ok, err, Params, Rounding}
use blksnap.Area.Data.{DiffArea, Answers, diff_area_is_corrupted}
use blksnap.Area.Image.{
  DiffAreaImageCtx, diff_area_image_ctx_init, diff_area_image_ctx_done, Piece, ImageIo, done,
  io_error, sleeping, diff_area_image_io,
}
use blksnap.Area.Image

-- `bi_status`
pub data Status : Type 0 where
  sts_ok sts_ioerr : Status

-- A bio on the image device: its number, its first sector, the lengths of its segments, and the
-- status it was submitted with.
pub record Bio : Type 0 where
  pub number : ℕ
  pub is_write : Bool
  pub bi_sector : ℕ
  pub segments : List ℕ
  pub bi_status : Status

-- A bio that was completed, with its status and with the pieces that were copied for it.
pub record Finished : Type 0 where
  pub bio : Bio
  pub status : Status
  pub pieces : List (ℕ × List Piece)

-- What the loop over the segments comes to.
pub data Looped : Type 0 where
  looped : List (ℕ × List Piece) → DiffArea → DiffAreaImageCtx → Looped
  asleep : DiffArea → Looped
  faults no_fuel : Looped

abbrev pub before : List (ℕ × List Piece) → Looped → Looped
before ps (looped qs a x) = looped (ps ++ qs) a x
before ps (asleep a) = asleep a
before ps faults = faults
before ps no_fuel = no_fuel

-- What becomes of a bio: it is completed, it sleeps on the semaphore of a chunk, or the code reads a
-- null buffer; `no_fuel` is the end of the fuel.
pub data Processed : Type 0 where
  ended : Finished → DiffArea → Processed
  sleeps : DiffArea → Processed
  null out_of_fuel : Processed

-- `fuel`, `copy` and the answers of the kernel are those of `diff_area_image_io`.
module _ (K : Rounding) (P : Params) (fuel : ℕ) (copy : ℕ → ℕ) (k : ℕ → Answers) where
  -- `bio_for_each_segment`, which an error of a segment ends.
  pub process_segments : List ℕ → DiffArea → DiffAreaImageCtx → (pos : ℕ) → Looped
  process_segments [] a x pos = looped [] a x
  process_segments (len ∷ lens) a x pos = elim (diff_area_image_io K P fuel copy k a x len pos) [
    | done ps a' x' pos' ↦ before ps (process_segments lens a' x' pos')
    | io_error a' x' ↦ looped [] a' x'
    | sleeping a' x' ↦ asleep a'
    | Image.faults ↦ faults
    | Image.no_fuel ↦ no_fuel
  ]

  -- The end of the bio, whose status is still the one that it came with.
  pub end_bio : Bio → Looped → Processed
  end_bio b (looped ps a x) =
      ended (record { bio = b; status = b.bi_status; pieces = ps })
        (diff_area_image_ctx_done K P k a x)
  end_bio b (asleep a) = sleeps a
  end_bio b faults = null
  end_bio b no_fuel = out_of_fuel

  pub snapimage_process_bio : DiffArea → Bio → Processed
  unfolding process_segments end_bio
  snapimage_process_bio a b =
      end_bio b (process_segments b.segments a (diff_area_image_ctx_init b.is_write) b.bi_sector)

-- `struct snapimage`: the queue and the area. Its references are counted below.
pub record SnapImage : Type 0 where
  pub queue : List Bio
  pub diff_area : DiffArea

pub get_bio_from_queue : SnapImage → Option Bio × SnapImage
get_bio_from_queue i = elim i.queue [ [] ↦ (none, i) | b ∷ bs ↦ (some b, record i { queue = bs }) ]

-- The bio is queued, or completed by `bio_io_error`.
pub snapimage_submit_bio : Bio → SnapImage → Option Finished × SnapImage
snapimage_submit_bio b i =
    if diff_area_is_corrupted i.diff_area
    then (some (record { bio = b; status = sts_ioerr; pieces = [] }), i)
    else (none, record i { queue = i.queue ++ (b ∷ []) })

-- How the inner loop of the worker goes while nothing else happens: to the end of the queue, or up
-- to a bio that is not completed.
pub data Drained : Type 0 where
  drained : List Finished → DiffArea → Drained
  stopped : List Finished → Processed → Drained

abbrev pub and_first : Finished → Drained → Drained
and_first f (drained fs a) = drained (f ∷ fs) a
and_first f (stopped fs p) = stopped (f ∷ fs) p

pub snapimage_kthread_worker_fn : (DiffArea → Bio → Processed) → List Bio → DiffArea → Drained
snapimage_kthread_worker_fn process [] a = drained [] a
snapimage_kthread_worker_fn process (b ∷ bs) a = elim (process a b) [
  | ended f a' ↦ and_first f (snapimage_kthread_worker_fn process bs a')
  | sleeps a' ↦ stopped [] (sleeps a')
  | null ↦ stopped [] null
  | out_of_fuel ↦ stopped [] out_of_fuel
]

-- What an image holds: references of the area and the map, its structure, its thread and its disk.
pub record Held : Type 0 where
  pub area_kref : ℕ
  pub map_kref : ℕ
  pub snapimages : ℕ
  pub workers : ℕ
  pub disks : ℕ

-- The answers of the kernel when an image is made.
pub record Making : Type 0 where
  pub image_alloc : Bool
  pub task : Ret
  pub disk_alloc : Bool
  pub name_fits : Bool
  pub add_disk : Ret
  -- whether the last `put_disk` of a disk calls `free_disk`, by whether the disk was added
  pub free_disk : (added : Bool) → Bool

-- `snapimage_free_disk`, the `free_disk` of the device.
pub snapimage_free_disk : Held → Held
snapimage_free_disk h = record h {
  area_kref = h.area_kref - 1;
  map_kref = h.map_kref - 1;
  snapimages = h.snapimages - 1;
}

-- `kthread_stop` and the last `put_disk`.
pub drop_disk : Making → (added : Bool) → Held → Held
unfolding snapimage_free_disk
drop_disk m added h =
    let h' = record h { workers = h.workers - 1; disks = h.disks - 1 } in
    if m.free_disk added then snapimage_free_disk h' else h'

-- `del_gendisk` takes the disk of an image off the system, which was added before.
pub snapimage_free : Making → Held → Held
unfolding drop_disk
snapimage_free m h = drop_disk m true h

-- The part of `snapimage_create` after the disk was allocated.
pub add_image : Making → Held → Ret × Held
unfolding drop_disk
add_image m h =
    let h' = record h { area_kref = h.area_kref + 1; map_kref = h.map_kref + 1 } in
    if m.name_fits
    then elim m.add_disk [ ok ↦ (ok, h') | err x ↦ (err x, drop_disk m false h') ]
    else (err einval, drop_disk m false h')

pub snapimage_create : Making → Held → Ret × Held
unfolding add_image
snapimage_create m h = elim m.image_alloc [
  | false ↦ (err enomem, h)
  | true ↦
      let h1 = record h { snapimages = h.snapimages + 1 } in
      elim m.task [
        | err x ↦ (err x, record h1 { snapimages = h1.snapimages - 1 })
        | ok ↦
            let h2 = record h1 { workers = h1.workers + 1 } in
            elim m.disk_alloc [
              | false ↦ (
                err enomem,
                record h2 { workers = h2.workers - 1; snapimages = h2.snapimages - 1 },
              )
              | true ↦ add_image m (record h2 { disks = h2.disks + 1 })
            ]
      ]
]
