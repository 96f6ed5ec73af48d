-- ===== src/BdevFilter/Lookup.antt =====
-- Looking up the filter of a device (`bdev_filter_get_by_bdev` of module/bdevfilter.c).
use blksnap.Prelude.{ℕ, ◌<◌, ◌≡◌, ◌⊎◌, refl, ap, inl, inr, none, some, arith, Option-cases}
use blksnap.BdevFilter.{
  Filters, BlockDevice, bdev_filter_get, bdev_filter_put, bdev_filter_free, bdev_filter_get_by_bdev,
  bdev_extension_find_bdev,
}
use blksnap.BdevFilter.Counts.{one, attached-find_bdev}
use blksnap.BdevFilter.Refs.{IsKept}

-- What a lookup by the device finds: nothing, or a filter with a reference.
pub get_by_bdev-cases :
    (d : BlockDevice) (w : Filters) (held made : ℕ → ℕ)
    → IsKept w held made
    → (bdev_filter_get_by_bdev d w ≡ (none, w))
      ⊎ ((f : ℕ) × (0 < w.kref f) × (bdev_filter_get_by_bdev d w ≡ (some f, bdev_filter_get f w)))
unfolding bdev_filter_get_by_bdev
get_by_bdev-cases d w held made k =
    let es = w.bdev_extension_list in
    elim (Option-cases (bdev_extension_find_bdev d.address es)) [
      | inl missing ↦ inl (rw (missing, bdev_filter_get_by_bdev) refl)
      | inr (ext, found) ↦ elim (Option-cases ext.bd_filter) [
        | inl bare ↦ inl (rw (found, bare, bdev_filter_get_by_bdev) refl)
        | inr (f, has) ↦ inr (
          f,
          ground (
            arith,
            k.refs.counted f,
            attached-find_bdev f d.address es ext found,
            ap (one f) has,
          ),
          rw (found, has, bdev_filter_get_by_bdev) refl,
        )
      ]
    ]

-- The filters are as they were.
pub record IsSame (w w' : Filters) : Type 0 where
  pub list_same : w'.bdev_extension_list ≡ w.bdev_extension_list
  pub kref_same : (f : ℕ) → w'.kref f ≡ w.kref f
  pub released_same : w'.released ≡ w.released

pub self-IsSame : (w : Filters) → IsSame w w
self-IsSame w = record { list_same = refl; kref_same = λ f. refl; released_same = refl }

-- A reference that is taken and dropped again leaves the filters as they were.
pub get_put-IsSame :
    (w : Filters) (f : ℕ) → 0 < w.kref f → IsSame w (bdev_filter_put f (bdev_filter_get f w))
unfolding bdev_filter_put bdev_filter_get bdev_filter_free
get_put-IsSame w f some_ref = record {
  list_same = ground (arith, some_ref);
  kref_same = λ g. ground (arith, some_ref);
  released_same = ground (arith, some_ref);
}
