-- ===== src/BdevFilter.antt =====
-- module/bdevfilter.c and module/bdevfilter.h: the filters of block devices, in the build where a bio
-- has a pointer to its device (without HAVE_BI_BDISK). A filter is named by a number, and a device
-- by its `dev_t` and by the address of its structure, which another device may get later. A call has
-- two lock sections, and is here as it runs when no other call comes in between; Sections has them apart.
pub mod Counts
pub mod Refs
pub mod Lookup
pub mod Life
pub mod History
pub mod Sections
pub mod Tests
use blksnap.Prelude.{
  ℕ, ◌+◌, ◌-◌, Bool, true, false, not, Option, none, some, List, [], ◌∷◌, ◌++◌, ◌==◌, if◌then◌else◌,
}
use blksnap.Kernel.{Errno, enomem, ebusy, enoent, Ret, ok, err}

-- `struct bdev_extension`
pub record BdevExtension : Type 0 where
  pub dev_id : ℕ
  pub bdev : ℕ
  pub bd_filter : Option ℕ

-- The list of extensions, the `kref` of each filter, and the filters whose `release` was called, in
-- order.
pub record Filters : Type 0 where
  pub bdev_extension_list : List BdevExtension
  pub kref : ℕ → ℕ
  pub released : List ℕ

-- A block device: `bd_dev` and its address.
pub record BlockDevice : Type 0 where
  pub bd_dev : ℕ
  pub address : ℕ

abbrev pub put_at : (ℕ → ℕ) → ℕ → ℕ → ℕ → ℕ
put_at g f v x = if x == f then v else g x

pub bdev_filter_init : ℕ → Filters → Filters
bdev_filter_init f w = record w { kref = put_at w.kref f 1 }

pub bdev_filter_get : ℕ → Filters → Filters
bdev_filter_get f w = record w { kref = put_at w.kref f (w.kref f + 1) }

pub bdev_filter_free : ℕ → Filters → Filters
bdev_filter_free f w = record w { released = w.released ++ (f ∷ []) }

-- `kref_put` calls the function where it takes the counter from 1 to 0.
pub bdev_filter_put : ℕ → Filters → Filters
unfolding bdev_filter_free
bdev_filter_put f w =
    let w' = record w { kref = put_at w.kref f (w.kref f - 1) } in
    if w.kref f == 1 then bdev_filter_free f w' else w'

pub bdev_extension_find : ℕ → List BdevExtension → Option BdevExtension
bdev_extension_find dev [] = none
bdev_extension_find dev (e ∷ es) =
    let rest = bdev_extension_find dev es in if dev == e.dev_id then some e else rest

pub bdev_extension_find_bdev : ℕ → List BdevExtension → Option BdevExtension
bdev_extension_find_bdev bdev [] = none
bdev_extension_find_bdev bdev (e ∷ es) =
    let rest = bdev_extension_find_bdev bdev es in if bdev == e.bdev then some e else rest

-- The list without the extension that `bdev_extension_find` gives (`list_del`).
pub delete : ℕ → List BdevExtension → List BdevExtension
delete dev [] = []
delete dev (e ∷ es) = let rest = delete dev es in if dev == e.dev_id then es else e ∷ rest

-- A write of `bd_filter` through the pointer that `bdev_extension_find` gives.
pub set_filter : ℕ → Option ℕ → List BdevExtension → List BdevExtension
set_filter dev flt [] = []
set_filter dev flt (e ∷ es) =
    let rest = set_filter dev flt es in
    if dev == e.dev_id then record e { bd_filter = flt } ∷ es else e ∷ rest

-- The list and the filter of the new state, with the extension of the device; `none` for no memory.
-- There is one extension for each `dev_t`, so that the device finds it again by that.
pub bdev_extension_append :
    (alloc : Bool) → BlockDevice → Filters → Option (BdevExtension × Filters)
unfolding bdev_filter_put
bdev_extension_append false d w = none
bdev_extension_append true d w =
    let es = w.bdev_extension_list in
    let fresh : BdevExtension = record { dev_id = d.bd_dev; bdev = d.address; bd_filter = none } in
    elim (bdev_extension_find d.bd_dev es) [
      | none ↦ some (fresh, record w { bdev_extension_list = es ++ (fresh ∷ []) })
      | some ext ↦
          if ext.bdev == d.address
          then some (ext, w)
          else (let w' = record w { bdev_extension_list = delete d.bd_dev (es ++ (fresh ∷ [])) } in
              elim ext.bd_filter [
                | none ↦ some (fresh, w')
                | some flt ↦ some (fresh, bdev_filter_put flt w')
              ])
    ]

pub bdev_filter_attach : (alloc : Bool) → BlockDevice → ℕ → Filters → Ret × Filters
unfolding bdev_extension_append
bdev_filter_attach alloc d flt w = elim (bdev_extension_append alloc d w) [
  | none ↦ (err enomem, w)
  | some (ext, w') ↦ elim ext.bd_filter [
    | some _ ↦ (err ebusy, w')
    | none ↦ (
      ok,
      record w' { bdev_extension_list = set_filter d.bd_dev (some flt) w'.bdev_extension_list },
    )
  ]
]

pub lp_bdev_filter_detach : ℕ → Filters → Ret × Filters
unfolding bdev_filter_put
lp_bdev_filter_detach dev w = elim (bdev_extension_find dev w.bdev_extension_list) [
  | none ↦ (err enoent, w)
  | some ext ↦ elim ext.bd_filter [
    | none ↦ (err enoent, w)
    | some flt ↦ (
      ok,
      bdev_filter_put flt
          (record w { bdev_extension_list = set_filter dev none w.bdev_extension_list }),
    )
  ]
]

-- The error of the inner function is only a warning.
pub bdev_filter_detach : BlockDevice → Filters → Filters
unfolding lp_bdev_filter_detach
bdev_filter_detach d w = (lp_bdev_filter_detach d.bd_dev w).1

pub bdev_filter_get_by_bdev : BlockDevice → Filters → Option ℕ × Filters
unfolding bdev_filter_get
bdev_filter_get_by_bdev d w = elim (bdev_extension_find_bdev d.address w.bdev_extension_list) [
  | none ↦ (none, w)
  | some ext ↦ elim ext.bd_filter [
    | none ↦ (none, w)
    | some flt ↦ (some flt, bdev_filter_get flt w)
  ]
]

-- What becomes of a bio: it goes on to the device, the filter completed it, or it sleeps while the
-- queue of the filter is frozen.
pub data Applied : Type 0 where
  goes_on completed : Filters → Applied
  sleeps : Filters → Applied

-- `frozen`: a writer has the filter's `submit_lock`. `submit` is the function of the filter, with
-- all that other threads do while it runs.
pub bdev_filters_apply :
    (nowait frozen : Bool) → (ℕ → Filters → Bool × Filters) → BlockDevice → Filters → Applied
unfolding bdev_filter_get_by_bdev
bdev_filters_apply nowait frozen submit d w =
    let (flt, w') = bdev_filter_get_by_bdev d w in
    elim flt [
      | none ↦ goes_on w'
      | some f ↦
          if frozen
          then (if nowait then completed (bdev_filter_put f w') else sleeps w')
          else (let (done, w'') = submit f w' in
              if done then completed (bdev_filter_put f w'') else goes_on (bdev_filter_put f w''))
    ]

-- `bio_list` is whether the thread is submitting bios already, so that the filters are left out.
pub submit_bio_noacct_handler :
    (bio_list nowait frozen : Bool)
    → (ℕ → Filters → Bool × Filters)
    → BlockDevice
    → Filters
    → Applied
unfolding bdev_filters_apply
submit_bio_noacct_handler bio_list nowait frozen submit d w =
    if bio_list then goes_on w else bdev_filters_apply nowait frozen submit d w

-- The end of the module frees the extensions, and puts no filter.
pub lp_filter_done : Filters → Filters
lp_filter_done w = record w { bdev_extension_list = [] }
