-- ===== src/BdevFilter/Life.antt =====
-- The life of the filter of a device that had none (module/bdevfilter.c): attached, found, put and
-- detached.
use mathlib.Core.Option.{none-ne-some}
use blksnap.Prelude.{
  ℕ, suc, ◌+◌, ◌≡◌, refl, sym, ap, ◌∙◌, if_true, if_false, inl, inr, true, Option, none, some, List,
  [], ◌∷◌, ◌++◌, ◌==◌, arith, Bool-cases,
}
use blksnap.Kernel.{ok}
use blksnap.BdevFilter.{
  BdevExtension, Filters, BlockDevice, put_at, bdev_filter_init, bdev_filter_get, bdev_filter_put,
  bdev_filter_free, set_filter, bdev_extension_find, bdev_extension_find_bdev,
  bdev_extension_append, bdev_filter_attach, lp_bdev_filter_detach, bdev_filter_detach,
  bdev_filter_get_by_bdev,
}
use blksnap.BdevFilter.Counts.{devices-find_none, find-append}

set_filter-append :
    (dev : ℕ) (flt : Option ℕ) (es : List BdevExtension) (e : BdevExtension)
    → bdev_extension_find dev es ≡ none
    → e.dev_id ≡ dev
    → set_filter dev flt (es ++ (e ∷ [])) ≡ es ++ (record e { bd_filter = flt } ∷ [])
unfolding set_filter bdev_extension_find
set_filter-append dev flt [] e h is = ground (arith, is)
set_filter-append dev flt (d ∷ es) e h is = elim (Bool-cases (dev == d.dev_id)) [
  | inl this ↦ absurd (none-ne-some d (sym h ∙ if_true _ _ _ this))
  | inr other ↦
      rw other
        (ap (λ l. d ∷ l) (set_filter-append dev flt es e (sym (if_false _ _ _ other) ∙ h) is))
]

find_bdev-append :
    (a : ℕ) (es : List BdevExtension) (e : BdevExtension)
    → bdev_extension_find_bdev a es ≡ none
    → e.bdev ≡ a
    → bdev_extension_find_bdev a (es ++ (e ∷ [])) ≡ some e
unfolding bdev_extension_find_bdev
find_bdev-append a [] e h is = ground (arith, is)
find_bdev-append a (d ∷ es) e h is = elim (Bool-cases (a == d.bdev)) [
  | inl this ↦ absurd (none-ne-some d (sym h ∙ if_true _ _ _ this))
  | inr other ↦ rw other (find_bdev-append a es e (sym (if_false _ _ _ other) ∙ h) is)
]

abbrev ext_of : BlockDevice → Option ℕ → BdevExtension
ext_of d flt = record { dev_id = d.bd_dev; bdev = d.address; bd_filter = flt }

-- No extension is found, by the number of the device or by its address.
pub record IsBare (d : BlockDevice) (w : Filters) : Type 0 where
  pub no_dev : bdev_extension_find d.bd_dev w.bdev_extension_list ≡ none
  pub no_address : bdev_extension_find_bdev d.address w.bdev_extension_list ≡ none

-- The state before any filter was attached.
pub IsBare-unused :
    (d : BlockDevice) → IsBare d (record { bdev_extension_list = []; kref = λ _. 0; released = [] })
unfolding bdev_extension_find bdev_extension_find_bdev
IsBare-unused d = record { no_dev = refl; no_address = refl }

pub lookup_bare :
    (d : BlockDevice) (w : Filters) → IsBare d w → bdev_filter_get_by_bdev d w ≡ (none, w)
unfolding bdev_filter_get_by_bdev
lookup_bare d w b = rw (b.no_address, bdev_filter_get_by_bdev) refl

abbrev with_ext : BlockDevice → Option ℕ → List BdevExtension → Filters → Filters
with_ext d flt es w = record w { bdev_extension_list = es ++ (ext_of d flt ∷ []) }

module _ (d : BlockDevice) (w : Filters) (b : IsBare d w) where
  abbrev es : List BdevExtension
  es = w.bdev_extension_list

  -- The filters with other counters.
  attach_bare :
      (f : ℕ) (kref : ℕ → ℕ)
      → bdev_filter_attach true d f (record w { kref = kref })
        ≡ (ok, with_ext d (some f) es (record w { kref = kref }))
  unfolding bdev_filter_attach bdev_extension_append
  attach_bare f kref =
      rw (b.no_dev, bdev_filter_attach, bdev_extension_append)
        (ap (λ l. (ok, record w { bdev_extension_list = l; kref = kref }))
          (set_filter-append d.bd_dev (some f) es (ext_of d none) b.no_dev refl))

  lookup_filter :
      (f : ℕ) (kref : ℕ → ℕ)
      → let w' = with_ext d (some f) es (record w { kref = kref }) in
        bdev_filter_get_by_bdev d w' ≡ (some f, bdev_filter_get f w')
  unfolding bdev_filter_get_by_bdev
  lookup_filter f kref =
      rw
        (
          find_bdev-append d.address es (ext_of d (some f)) b.no_address refl,
          bdev_filter_get_by_bdev,
        )
        refl

  lookup_none :
      (kref : ℕ → ℕ) (released : List ℕ)
      → let w' = with_ext d none es (record w { kref = kref; released = released }) in
        bdev_filter_get_by_bdev d w' ≡ (none, w')
  unfolding bdev_filter_get_by_bdev
  lookup_none kref released =
      rw (find_bdev-append d.address es (ext_of d none) b.no_address refl, bdev_filter_get_by_bdev)
        refl

  detach_filter :
      (f : ℕ) (kref : ℕ → ℕ)
      → bdev_filter_detach d (with_ext d (some f) es (record w { kref = kref }))
        ≡ bdev_filter_put f (with_ext d none es (record w { kref = kref }))
  unfolding bdev_filter_detach lp_bdev_filter_detach
  detach_filter f kref =
      rw
        (
          find-append d.bd_dev es (ext_of d (some f)) (devices-find_none d.bd_dev es b.no_dev) refl,
          bdev_filter_detach,
          lp_bdev_filter_detach,
        )
        (ap (λ l. bdev_filter_put f (record w { bdev_extension_list = l; kref = kref }))
          (set_filter-append d.bd_dev none es (ext_of d (some f)) b.no_dev refl))

  abbrev counted : ℕ → (ℕ → ℕ) → Filters
  counted f kref = with_ext d (some f) es (record w { kref = kref })

put_many :
    (w : Filters) (f n : ℕ)
    → w.kref f ≡ suc (suc n)
    → bdev_filter_put f w ≡ record w { kref = put_at w.kref f (suc n) }
unfolding bdev_filter_put
put_many w f n h = ground (arith, h)

put_last :
    (w : Filters) (f : ℕ)
    → w.kref f ≡ 1
    → bdev_filter_put f w ≡ record w { kref = put_at w.kref f 0; released = w.released ++ (f ∷ []) }
unfolding bdev_filter_put bdev_filter_free
put_last w f h = ground (arith, h)

put_at_self : (g : ℕ → ℕ) (f v : ℕ) → put_at g f v f ≡ v
put_at_self g f v = ground arith

-- A new filter that is attached, with one reference more; then that reference is dropped, the filter
-- is found by a thread, detached, and put by the thread.
abbrev pub attached_filter : BlockDevice → ℕ → Filters → Filters
attached_filter d f w = bdev_filter_get f (bdev_filter_attach true d f (bdev_filter_init f w)).1

abbrev pub detached_filter : BlockDevice → ℕ → Filters → Filters
detached_filter d f w = bdev_filter_put f (bdev_filter_detach d (bdev_filter_get f w))

module _ (d : BlockDevice) (w : Filters) (b : IsBare d w) (f : ℕ) where
  abbrev k1 : ℕ → ℕ
  k1 = put_at w.kref f 1

  abbrev k2 : ℕ → ℕ
  k2 = put_at k1 f (k1 f + 1)

  abbrev k3 : ℕ → ℕ
  k3 = put_at k2 f 1

  abbrev k4 : ℕ → ℕ
  k4 = put_at k3 f (k3 f + 1)

  abbrev k5 : ℕ → ℕ
  k5 = put_at k4 f 1

  k2_is : k2 f ≡ 2
  k2_is = put_at_self k1 f (k1 f + 1) ∙ ap (λ n. n + 1) (put_at_self w.kref f 1)

  k4_is : k4 f ≡ 2
  k4_is = put_at_self k3 f (k3 f + 1) ∙ ap (λ n. n + 1) (put_at_self k2 f 1)

  attach_ok : (bdev_filter_attach true d f (bdev_filter_init f w)).0 ≡ ok
  unfolding bdev_filter_init
  attach_ok = ap (λ r. r.0) (attach_bare d w b f k1)

  attached-eq : attached_filter d f w ≡ counted d w b f k2
  unfolding bdev_filter_get bdev_filter_init
  attached-eq = ap (λ r. bdev_filter_get f r.1) (attach_bare d w b f k1)

  put-eq : bdev_filter_put f (attached_filter d f w) ≡ counted d w b f k3
  put-eq = ap (bdev_filter_put f) attached-eq ∙ put_many (counted d w b f k2) f 0 k2_is

  detached-eq :
      detached_filter d f (bdev_filter_put f (attached_filter d f w))
      ≡ with_ext d none w.bdev_extension_list
          (record w { kref = put_at k5 f 0; released = w.released ++ (f ∷ []) })
  unfolding bdev_filter_get
  detached-eq =
      ap (λ x. detached_filter d f x) put-eq
      ∙ ap (bdev_filter_put f) (detach_filter d w b f k4)
      ∙ ap (bdev_filter_put f)
          (put_many (with_ext d none w.bdev_extension_list (record w { kref = k4 })) f 0 k4_is)
      ∙ put_last (with_ext d none w.bdev_extension_list (record w { kref = k5 })) f
          (put_at_self k4 f 1)

  pub life_lem :
      let w1 = attached_filter d f w in
      let w2 = bdev_filter_put f w1 in
      let w3 = detached_filter d f w2 in
      ((bdev_filter_attach true d f (bdev_filter_init f w)).0 ≡ ok)
      × (w1.kref f ≡ 2)
      × (bdev_filter_get_by_bdev d w1 ≡ (some f, bdev_filter_get f w1))
      × (bdev_filter_get_by_bdev d w2 ≡ (some f, bdev_filter_get f w2))
      × (w3.released ≡ w.released ++ (f ∷ []))
      × (bdev_filter_get_by_bdev d w3 ≡ (none, w3))
  life_lem = (
    attach_ok,
    ap (λ x. x.kref f) attached-eq ∙ k2_is,
    rw attached-eq (lookup_filter d w b f k2),
    rw put-eq (lookup_filter d w b f k3),
    ap (λ x. x.released) detached-eq,
    rw detached-eq (lookup_none d w b (put_at k5 f 0) (w.released ++ (f ∷ []))),
  )
