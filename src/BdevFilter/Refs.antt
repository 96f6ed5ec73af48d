-- ===== src/BdevFilter/Refs.antt =====
-- The references of the filters of module/bdevfilter.c: what each operation does to their count.
use blksnap.Prelude.{
  ℕ, ◌+◌, ◌-◌, ◌≤◌, ◌<◌, ◌≡◌, refl, sym, ap, ◌∙◌, min, inl, inr, Bool, true, false, Option, none,
  some, List, [], ◌∷◌, ◌++◌, ◌==◌, arith, Bool-cases, Option-cases, if◌then◌else◌,
}
use blksnap.BdevFilter.{
  BdevExtension, Filters, BlockDevice, bdev_filter_init, bdev_filter_get, bdev_filter_put,
  bdev_filter_free, bdev_extension_find, delete, bdev_extension_append,
}
use blksnap.BdevFilter.Counts.{
  one, attached, attached-append, attached-delete, devices, devices-append, devices-find_none,
  devices-delete, find-append, delete-append,
}

abbrev pub times : ℕ → List ℕ → ℕ
times f [] = 0
times f (g ∷ gs) = (if f == g then 1 else 0) + times f gs

times-append :
    (f : ℕ) (gs : List ℕ) (g : ℕ)
    → times f (gs ++ (g ∷ [])) ≡ times f gs + (if f == g then 1 else 0)
times-append f [] g = omega arith
times-append f (h ∷ gs) g = omega (arith, times-append f gs g)

-- The counter of a filter is the number of its references, and a filter that was made has a
-- reference or was released, once.
pub record IsCounted (w : Filters) (refs made : ℕ → ℕ) : Type 0 where
  pub counted : (f : ℕ) → w.kref f ≡ refs f
  pub once : (f : ℕ) → times f w.released + min 1 (refs f) ≡ made f

abbrev pub bump : ℕ → (ℕ → ℕ) → ℕ → ℕ
bump f g x = g x + (if x == f then 1 else 0)

abbrev pub drop_one : ℕ → (ℕ → ℕ) → ℕ → ℕ
drop_one f g x = g x - (if x == f then 1 else 0)

pub init-IsCounted :
    (w : Filters) (refs made : ℕ → ℕ) (f : ℕ)
    → IsCounted w refs made
    → made f ≡ 0
    → IsCounted (bdev_filter_init f w) (bump f refs) (bump f made)
unfolding bdev_filter_init
init-IsCounted w refs made f c new = record {
  counted = λ x. ground (arith, c.counted x, c.once x, c.once f, new);
  once = λ x. ground (arith, c.counted x, c.once x, c.once f, new);
}

pub get-IsCounted :
    (w : Filters) (refs made : ℕ → ℕ) (f : ℕ)
    → IsCounted w refs made
    → 0 < refs f
    → IsCounted (bdev_filter_get f w) (bump f refs) made
unfolding bdev_filter_get
get-IsCounted w refs made f c some_ref = record {
  counted = λ x. ground (arith, c.counted x, c.counted f);
  once = λ x. ground (arith, c.once x, some_ref);
}

pub put-IsCounted :
    (w : Filters) (refs made : ℕ → ℕ) (f : ℕ)
    → IsCounted w refs made
    → 0 < refs f
    → IsCounted (bdev_filter_put f w) (drop_one f refs) made
unfolding bdev_filter_put bdev_filter_free
put-IsCounted w refs made f c some_ref = record {
  counted = λ x. ground (arith, c.counted x, c.counted f);
  once = λ x.
      ground (arith, c.once x, c.counted x, c.counted f, some_ref, times-append x w.released f);
}

-- The references of a filter: the extensions that have it, and those that the threads hold.
abbrev pub refs_of : List BdevExtension → (ℕ → ℕ) → ℕ → ℕ
refs_of es held f = attached f es + held f

-- There is one extension for a device, and the references are counted.
pub record IsKept (w : Filters) (held made : ℕ → ℕ) : Type 0 where
  pub distinct : (dev : ℕ) → devices dev w.bdev_extension_list ≤ 1
  pub refs : IsCounted w (refs_of w.bdev_extension_list held) made

-- The counts with the references written in another way, for another list.
pub as_refs :
    (w : Filters) (es : List BdevExtension) (refs refs' made : ℕ → ℕ)
    → IsCounted w refs made
    → ((f : ℕ) → refs f ≡ refs' f)
    → IsCounted (record w { bdev_extension_list = es }) refs' made
as_refs w es refs refs' made c same = record {
  counted = λ f. c.counted f ∙ same f;
  once = λ f. ap (λ n. times f w.released + min 1 n) (sym (same f)) ∙ c.once f;
}

put_list : (w : Filters) (f : ℕ) → (bdev_filter_put f w).bdev_extension_list ≡ w.bdev_extension_list
unfolding bdev_filter_put bdev_filter_free
put_list w f = ground arith

-- A reference is dropped while the list becomes `es`.
pub put-IsKept :
    (w : Filters) (es : List BdevExtension) (refs held made : ℕ → ℕ) (flt : ℕ)
    → IsCounted w refs made
    → 0 < refs flt
    → ((f : ℕ) → drop_one flt refs f ≡ refs_of es held f)
    → ((dev : ℕ) → devices dev es ≤ 1)
    → IsKept (bdev_filter_put flt (record w { bdev_extension_list = es })) held made
put-IsKept w es refs held made flt c some_ref same distinct =
    let w' : Filters = record w { bdev_extension_list = es } in
    let list = put_list w' flt in
    let dropped =
      put-IsCounted w' refs made flt (as_refs w es refs refs made c (λ f. refl)) some_ref in
    record {
      distinct = λ dev. rw list (distinct dev);
      refs = record {
        counted = λ f. rw list (dropped.counted f ∙ same f);
        once = λ f. rw list (
            ap (λ n. times f (bdev_filter_put flt w').released + min 1 n) (sym (same f))
            ∙ dropped.once f);
      };
    }

-- `bdev_extension_append` gives the extension that the device number now leads to.
abbrev pub Appended : (dev : ℕ) (held made : ℕ → ℕ) → Option (BdevExtension × Filters) → Type 0
Appended dev held made none = Unit
Appended dev held made (some (ext, w)) =
    IsKept w held made × (bdev_extension_find dev w.bdev_extension_list ≡ some ext)

abbrev new_ext : BlockDevice → BdevExtension
new_ext d = record { dev_id = d.bd_dev; bdev = d.address; bd_filter = none }

added-IsKept :
    (d : BlockDevice) (w : Filters) (held made : ℕ → ℕ)
    → IsKept w held made
    → bdev_extension_find d.bd_dev w.bdev_extension_list ≡ none
    → Appended d.bd_dev held made (
        some
          (new_ext d, record w { bdev_extension_list = w.bdev_extension_list ++ (new_ext d ∷ []) }))
added-IsKept d w held made k missing =
    let es = w.bdev_extension_list in
    let bare = devices-find_none d.bd_dev es missing in
    (
      record {
        distinct = λ dev. ground (arith, k.distinct dev, devices-append dev es (new_ext d), bare);
        refs =
            as_refs w (es ++ (new_ext d ∷ [])) (refs_of es held)
              (refs_of (es ++ (new_ext d ∷ [])) held) made k.refs
              (λ f. omega (arith, attached-append f es (new_ext d)));
      },
      find-append d.bd_dev es (new_ext d) bare refl,
    )

-- The list in which the extension `old` of the device gave way to a new one.
module _ (d : BlockDevice) (w : Filters) (held made : ℕ → ℕ) (k : IsKept w held made)
    (old : BdevExtension)
    (found : bdev_extension_find d.bd_dev w.bdev_extension_list ≡ some old) where
  abbrev renewed : List BdevExtension
  renewed = delete d.bd_dev (w.bdev_extension_list ++ (new_ext d ∷ []))

  renewed-eq : renewed ≡ delete d.bd_dev w.bdev_extension_list ++ (new_ext d ∷ [])
  renewed-eq = delete-append d.bd_dev w.bdev_extension_list old (new_ext d) found

  devices-left : devices d.bd_dev (delete d.bd_dev w.bdev_extension_list) ≡ 0
  devices-left =
      ground (
        arith,
        k.distinct d.bd_dev,
        devices-delete d.bd_dev d.bd_dev w.bdev_extension_list old found,
      )

  devices-renewed : (dev : ℕ) → devices dev renewed ≤ 1
  devices-renewed dev = rw renewed-eq (
      ground (
        arith,
        k.distinct dev,
        devices-append dev (delete d.bd_dev w.bdev_extension_list) (new_ext d),
        devices-delete dev d.bd_dev w.bdev_extension_list old found,
      ))

  find-renewed : bdev_extension_find d.bd_dev renewed ≡ some (new_ext d)
  find-renewed =
      rw renewed-eq
        (find-append d.bd_dev (delete d.bd_dev w.bdev_extension_list) (new_ext d) devices-left refl)

  attached-renewed :
      (f : ℕ) → attached f renewed + one f old.bd_filter ≡ attached f w.bdev_extension_list
  attached-renewed f = rw renewed-eq (
      omega (
        arith,
        attached-append f (delete d.bd_dev w.bdev_extension_list) (new_ext d),
        attached-delete f d.bd_dev w.bdev_extension_list old found,
      ))

  empty-Appended :
      old.bd_filter ≡ none
      → Appended d.bd_dev held made (some (new_ext d, record w { bdev_extension_list = renewed }))
  empty-Appended bare = (
    record {
      distinct = devices-renewed;
      refs =
          as_refs w renewed (refs_of w.bdev_extension_list held) (refs_of renewed held) made k.refs
            (λ f. omega (arith, attached-renewed f, ap (one f) bare));
    },
    find-renewed,
  )

  filtered-Appended :
      (flt : ℕ)
      → old.bd_filter ≡ some flt
      → Appended d.bd_dev held made
          (some (new_ext d, bdev_filter_put flt (record w { bdev_extension_list = renewed })))
  filtered-Appended flt has =
      let here = ap (one flt) has in
      (
        put-IsKept w renewed (refs_of w.bdev_extension_list held) held made flt k.refs
            (ground (arith, attached-renewed flt, here))
            (λ f. omega (arith, attached-renewed f, ap (one f) has)) devices-renewed,
        rw (put_list (record w { bdev_extension_list = renewed }) flt) find-renewed,
      )

pub append-Appended :
    (alloc : Bool) (d : BlockDevice) (w : Filters) (held made : ℕ → ℕ)
    → IsKept w held made
    → Appended d.bd_dev held made (bdev_extension_append alloc d w)
unfolding bdev_extension_append
append-Appended false d w held made k = tt
append-Appended true d w held made k =
    elim (Option-cases (bdev_extension_find d.bd_dev w.bdev_extension_list)) [
      | inl missing ↦ rw (missing, bdev_extension_append) (added-IsKept d w held made k missing)
      | inr (old, found) ↦ elim (Bool-cases (old.bdev == d.address)) [
        | inl same ↦ rw (found, same, bdev_extension_append) (k, found)
        | inr other ↦ elim (Option-cases old.bd_filter) [
          | inl bare ↦
              rw (found, other, bare, bdev_extension_append)
                (empty-Appended d w held made k old found bare)
          | inr (flt, has) ↦
              rw (found, other, has, bdev_extension_append)
                (filtered-Appended d w held made k old found flt has)
        ]
      ]
    ]
