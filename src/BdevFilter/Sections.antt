-- ===== src/BdevFilter/Sections.antt =====
-- The lock sections of `lp_bdev_filter_detach` and `bdev_filter_get_by_bdev` in module/bdevfilter.c. Each
-- finds the extension under the lock of the list, releases that lock, and goes on with the extension
-- under its own; another call may come in between.
use blksnap.Prelude.{ℕ, Option, none, some, ◌==◌, if◌then◌else◌}
use blksnap.Kernel.{enoent, Ret, ok, err}
use blksnap.BdevFilter.{
  BdevExtension, Filters, bdev_filter_get, bdev_filter_put, set_filter, bdev_extension_find,
}

-- The extension that was found before, as it is now; `none` where it was freed.
abbrev pub still_there : BdevExtension → Filters → Option BdevExtension
still_there ext w = elim (bdev_extension_find ext.dev_id w.bdev_extension_list) [
  | none ↦ none
  | some e ↦ if e.bdev == ext.bdev then some e else none
]

-- The second section of `lp_bdev_filter_detach`: the filter and the new state, or an access to an
-- extension that was freed.
pub take_filter : BdevExtension → Filters → Option (Option ℕ × Filters)
take_filter ext w = elim (still_there ext w) [
  | none ↦ none
  | some e ↦ elim e.bd_filter [
    | none ↦ some (none, w)
    | some f ↦ some (
      some f,
      record w { bdev_extension_list = set_filter ext.dev_id none w.bdev_extension_list },
    )
  ]
]

-- What follows it.
pub put_taken : Option ℕ → Filters → Ret × Filters
put_taken none w = (err enoent, w)
put_taken (some f) w = (ok, bdev_filter_put f w)

-- The second section of `bdev_filter_get_by_bdev`.
pub get_filter : BdevExtension → Filters → Option (Option ℕ × Filters)
get_filter ext w = elim (still_there ext w) [
  | none ↦ none
  | some e ↦ elim e.bd_filter [
    | none ↦ some (none, w)
    | some f ↦ some (some f, bdev_filter_get f w)
  ]
]
