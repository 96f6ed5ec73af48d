-- ===== src/SnapImage/Life.antt =====
-- What making and freeing an image does to the references that it holds (module/snapimage.c).
use blksnap.Prelude.{
  ◌+◌, ◌≡◌, ◌⊎◌, inl, inr, Bool, true, false, ◌&&◌, arith, Bool-cases, if◌then◌else◌,
}
use blksnap.Kernel.{Errno, enomem, einval, Ret, ok, err, Ret-cases}
use blksnap.SnapImage.{
  Held, Making, snapimage_free_disk, drop_disk, snapimage_free, add_image, snapimage_create,
}

-- One more of each, for an image that exists.
abbrev pub one_more : Held → Held
one_more h = record {
  area_kref = h.area_kref + 1;
  map_kref = h.map_kref + 1;
  snapimages = h.snapimages + 1;
  workers = h.workers + 1;
  disks = h.disks + 1;
}

-- What a failure leaves behind once the disk was allocated.
abbrev pub leaked : Held → Held
leaked h = record h {
  area_kref = h.area_kref + 1;
  map_kref = h.map_kref + 1;
  snapimages = h.snapimages + 1;
}

abbrev is_ok : Ret → Bool
is_ok ok = true
is_ok (err x) = false

-- The call gets as far as the disk.
abbrev pub has_disk : Making → Bool
has_disk m = m.image_alloc && is_ok m.task && m.disk_alloc

free-one_more :
    (m : Making) (h : Held) → m.free_disk true ≡ true → snapimage_free m (one_more h) ≡ h
unfolding snapimage_free drop_disk snapimage_free_disk
free-one_more m h frees = ground (arith, frees)

add_image_lem :
    (m : Making) (h : Held)
    → m.free_disk false ≡ false
    → let h' = record h {
      snapimages = h.snapimages + 1;
      workers = h.workers + 1;
      disks = h.disks + 1;
    } in
      (add_image m h' ≡ (ok, one_more h)) ⊎ ((x : Errno) × (add_image m h' ≡ (err x, leaked h)))
unfolding add_image drop_disk
add_image_lem m h keeps = elim (Bool-cases m.name_fits) [
  | inl fits ↦ elim (Ret-cases m.add_disk) [
    | inl added ↦ inl (ground (arith, fits, added))
    | inr (x, fails) ↦ inr (x, ground (arith, fits, fails, keeps))
  ]
  | inr long ↦ inr (einval, ground (arith, long, keeps))
]

-- Where the kernel calls free_disk with the last reference of a disk just if the disk was added:
-- snapimage_create either makes the image, which holds one reference of the area and of the map, a
-- structure, a thread and a disk, and freeing it gives all of these back; or it returns an error. If
-- it failed before it had a disk everything is then as it was, and if it failed later, the references
-- of the area and of the map and the structure are left over.
pub create_free_lem :
    (m : Making) (h : Held)
    → m.free_disk true ≡ true
    → m.free_disk false ≡ false
    → ((snapimage_create m h ≡ (ok, one_more h)) × (snapimage_free m (one_more h) ≡ h))
      ⊎ ((x : Errno) × (snapimage_create m h ≡ (err x, if has_disk m then leaked h else h)))
unfolding snapimage_create
create_free_lem m h frees keeps = elim (Bool-cases m.image_alloc) [
  | inr missing ↦ inr (enomem, ground (arith, missing))
  | inl there ↦ elim (Ret-cases m.task) [
    | inr (x, fails) ↦ inr (x, ground (arith, there, fails))
    | inl runs ↦ elim (Bool-cases m.disk_alloc) [
      | inr no_disk ↦ inr (enomem, ground (arith, there, runs, no_disk))
      | inl disk ↦ elim (add_image_lem m h keeps) [
        | inl made ↦ inl (ground (arith, there, runs, disk, made), free-one_more m h frees)
        | inr (x, fails) ↦ inr (x, ground (arith, there, runs, disk, fails))
      ]
    ]
  ]
]
