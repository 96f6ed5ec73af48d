-- ===== src/BdevFilter/Counts.antt =====
-- How many extensions of module/bdevfilter.c have a filter, and what the operations do to the number.
use mathlib.Core.Option.{some-injective, none-ne-some}
use blksnap.Prelude.{
  ℕ, ◌+◌, ◌≤◌, ◌≡◌, refl, sym, ap, ◌∙◌, if_true, if_false, inl, inr, Option, none, some, List, [],
  ◌∷◌, ◌++◌, ◌==◌, arith, Bool-cases, if◌then◌else◌,
}
use blksnap.BdevFilter.{
  BdevExtension, bdev_extension_find, bdev_extension_find_bdev, delete, set_filter,
}

abbrev pub one : ℕ → Option ℕ → ℕ
one f none = 0
one f (some g) = if f == g then 1 else 0

abbrev pub attached : ℕ → List BdevExtension → ℕ
attached f [] = 0
attached f (e ∷ es) = one f e.bd_filter + attached f es

pub attached-append :
    (f : ℕ) (es : List BdevExtension) (e : BdevExtension)
    → attached f (es ++ (e ∷ [])) ≡ attached f es + one f e.bd_filter
attached-append f [] e = omega arith
attached-append f (d ∷ es) e = omega (arith, attached-append f es e)

pub attached-delete :
    (f dev : ℕ) (es : List BdevExtension) (e : BdevExtension)
    → bdev_extension_find dev es ≡ some e
    → attached f (delete dev es) + one f e.bd_filter ≡ attached f es
unfolding bdev_extension_find delete
attached-delete f dev [] e h = absurd (none-ne-some e h)
attached-delete f dev (d ∷ es) e h = elim (Bool-cases (dev == d.dev_id)) [
  | inl this ↦
      let is : d ≡ e = some-injective d e (sym (if_true _ _ _ this) ∙ h) in
      ground (arith, this, ap (λ x. one f x.bd_filter) is)
  | inr other ↦ ground (arith, other, attached-delete f dev es e (sym (if_false _ _ _ other) ∙ h))
]

pub attached-set_filter :
    (f dev : ℕ) (flt : Option ℕ) (es : List BdevExtension) (e : BdevExtension)
    → bdev_extension_find dev es ≡ some e
    → attached f (set_filter dev flt es) + one f e.bd_filter ≡ attached f es + one f flt
unfolding bdev_extension_find set_filter
attached-set_filter f dev flt [] e h = absurd (none-ne-some e h)
attached-set_filter f dev flt (d ∷ es) e h = elim (Bool-cases (dev == d.dev_id)) [
  | inl this ↦
      let is : d ≡ e = some-injective d e (sym (if_true _ _ _ this) ∙ h) in
      ground (arith, this, ap (λ x. one f x.bd_filter) is)
  | inr other ↦
      ground (arith, other, attached-set_filter f dev flt es e (sym (if_false _ _ _ other) ∙ h))
]

-- The number of extensions of a device.
abbrev pub devices : ℕ → List BdevExtension → ℕ
devices dev [] = 0
devices dev (e ∷ es) = (if dev == e.dev_id then 1 else 0) + devices dev es

pub devices-append :
    (dev : ℕ) (es : List BdevExtension) (e : BdevExtension)
    → devices dev (es ++ (e ∷ [])) ≡ devices dev es + (if dev == e.dev_id then 1 else 0)
devices-append dev [] e = omega arith
devices-append dev (d ∷ es) e = omega (arith, devices-append dev es e)

pub devices-find_none :
    (dev : ℕ) (es : List BdevExtension) → bdev_extension_find dev es ≡ none → devices dev es ≡ 0
unfolding bdev_extension_find
devices-find_none dev [] h = refl
devices-find_none dev (d ∷ es) h = elim (Bool-cases (dev == d.dev_id)) [
  | inl this ↦ absurd (none-ne-some d (sym h ∙ if_true _ _ _ this))
  | inr other ↦ ground (arith, other, devices-find_none dev es (sym (if_false _ _ _ other) ∙ h))
]

pub devices-delete :
    (dev x : ℕ) (es : List BdevExtension) (e : BdevExtension)
    → bdev_extension_find x es ≡ some e
    → devices dev (delete x es) + (if dev == x then 1 else 0) ≡ devices dev es
unfolding bdev_extension_find delete
devices-delete dev x [] e h = absurd (none-ne-some e h)
devices-delete dev x (d ∷ es) e h = elim (Bool-cases (x == d.dev_id)) [
  | inl this ↦ ground (arith, this)
  | inr other ↦ ground (arith, other, devices-delete dev x es e (sym (if_false _ _ _ other) ∙ h))
]

pub devices-set_filter :
    (dev x : ℕ) (flt : Option ℕ) (es : List BdevExtension)
    → devices dev (set_filter x flt es) ≡ devices dev es
unfolding set_filter
devices-set_filter dev x flt [] = refl
devices-set_filter dev x flt (d ∷ es) = elim (Bool-cases (x == d.dev_id)) [
  | inl this ↦ ground (arith, this)
  | inr other ↦ ground (arith, other, devices-set_filter dev x flt es)
]

-- An extension that is new at the end is found where there was none.
pub find-append :
    (dev : ℕ) (es : List BdevExtension) (e : BdevExtension)
    → devices dev es ≡ 0
    → e.dev_id ≡ dev
    → bdev_extension_find dev (es ++ (e ∷ [])) ≡ some e
unfolding bdev_extension_find
find-append dev [] e h is = ground (arith, is)
find-append dev (d ∷ es) e h is = ground (arith, h, find-append dev es e (omega (arith, h)) is)

pub delete-append :
    (dev : ℕ) (es : List BdevExtension) (d e : BdevExtension)
    → bdev_extension_find dev es ≡ some d
    → delete dev (es ++ (e ∷ [])) ≡ delete dev es ++ (e ∷ [])
unfolding bdev_extension_find delete
delete-append dev [] d e h = absurd (none-ne-some d h)
delete-append dev (x ∷ es) d e h = elim (Bool-cases (dev == x.dev_id)) [
  | inl this ↦ rw this refl
  | inr other ↦
      rw other (ap (λ l. x ∷ l) (delete-append dev es d e (sym (if_false _ _ _ other) ∙ h)))
]

pub attached-find :
    (f dev : ℕ) (es : List BdevExtension) (e : BdevExtension)
    → bdev_extension_find dev es ≡ some e
    → one f e.bd_filter ≤ attached f es
attached-find f dev es e h = omega (arith, attached-delete f dev es e h)

pub attached-find_bdev :
    (f bdev : ℕ) (es : List BdevExtension) (e : BdevExtension)
    → bdev_extension_find_bdev bdev es ≡ some e
    → one f e.bd_filter ≤ attached f es
unfolding bdev_extension_find_bdev
attached-find_bdev f bdev [] e h = absurd (none-ne-some e h)
attached-find_bdev f bdev (d ∷ es) e h = elim (Bool-cases (bdev == d.bdev)) [
  | inl this ↦
      let is : d ≡ e = some-injective d e (sym (if_true _ _ _ this) ∙ h) in
      omega (arith, ap (λ x. one f x.bd_filter) is)
  | inr other ↦ omega (arith, attached-find_bdev f bdev es e (sym (if_false _ _ _ other) ∙ h))
]
