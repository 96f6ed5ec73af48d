-- ===== src/BdevFilter/Tests.antt =====
-- Runs of module/bdevfilter.c, and the theorem at one.
use blksnap.Prelude.{
  ℕ, ◌+◌, ◌≤◌, ◌<◌, ◌≡◌, refl, true, some, none, [], ◌∷◌, ◌==◌, if◌then◌else◌, arith,
}
use blksnap.Kernel.{err, ebusy}
use blksnap.BdevFilter.{
  BdevExtension, Filters, BlockDevice, bdev_filter_init, bdev_filter_put, set_filter, delete,
  bdev_extension_find, bdev_extension_append, bdev_filter_attach, bdev_filter_free,
}
use blksnap.BdevFilter.Counts.{attached, devices}
use blksnap.BdevFilter.Refs.{times}
use blksnap.BdevFilter.History.{
  State, Steps, makes, attaches, attaches_to, none_more, next, unused, released_once,
}

abbrev pub sda : (address : ℕ) → BlockDevice
sda address = record { bd_dev = 8; address = address }

abbrev pub filter_7 : Filters
filter_7 = bdev_filter_init 7 unused.filters

-- A second filter on the device is refused.
attach_twice :
    (bdev_filter_attach true (sda 100) 9 (bdev_filter_attach true (sda 100) 7 filter_7).1).0
    ≡ err ebusy
unfolding bdev_filter_attach bdev_extension_append bdev_extension_find set_filter bdev_filter_init
attach_twice = refl

-- The device came back at another address: the old filter is put, and released.
recreated :
    (bdev_filter_attach true
      (sda 200)
      9
      (bdev_filter_attach true (sda 100) 7 filter_7).1).1.released
    ≡ 7 ∷ []
unfolding bdev_filter_attach bdev_extension_append bdev_extension_find set_filter delete
    bdev_filter_put bdev_filter_free bdev_filter_init
recreated = refl

abbrev pub made_7 : State
made_7 = record {
  filters = filter_7;
  held = λ x. 0 + (if x == 7 then 1 else 0);
  made = λ x. 0 + (if x == 7 then 1 else 0);
}

abbrev pub attached_7 : State
attached_7 = record made_7 {
  filters = (bdev_filter_attach true (sda 100) 7 filter_7).1;
  held = attaches (bdev_filter_attach true (sda 100) 7 filter_7).0 7 made_7.held;
}

pub Steps-7 : Steps unused attached_7
Steps-7 =
    next unused made_7 attached_7
      (next unused unused made_7 (none_more unused) (makes unused 7 refl))
      (attaches_to made_7 true (sda 100) 7 (omega arith))

released_once_example :
    let es = attached_7.filters.bdev_extension_list in
    ((dev : ℕ) → devices dev es ≤ 1)
    × (attached_7.filters.kref 7 ≡ attached 7 es + attached_7.held 7)
    × (0 < attached 7 es + attached_7.held 7 → times 7 attached_7.filters.released ≡ 0)
    × (attached_7.made 7 ≡ 1
        → attached 7 es + attached_7.held 7 ≡ 0
        → times 7 attached_7.filters.released ≡ 1)
released_once_example = released_once attached_7 7 Steps-7

abbrev ext_7 : BdevExtension
ext_7 = record { dev_id = 8; bdev = 100; bd_filter = some 7 }

abbrev taken_over : Filters
taken_over = bdev_filter_put 7 (record attached_7.filters {
  bdev_extension_list = record { dev_id = 8; bdev = 200; bd_filter = none } ∷ [];
})
