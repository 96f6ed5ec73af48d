-- ===== src/DiffIo/Split.antt =====
-- How `diff_io_do` of module/diff_io.c splits a region into bios and pages.
use native.Mathlib.Decide.{dec_le, dec_lt}
use native.Mathlib.Numerals.{unary_clauses}
use mathlib.Core.List.{append-nil}
use blksnap.Prelude.{
  ℕ, zero, suc, ◌+◌, ◌-◌, ◌*◌, ◌/◌, ◌%◌, ◌^◌, ◌≤◌, ◌<◌, min, ◌≡◌, refl, sym, ap, ◌∙◌, Bool, true,
  some, List, [], ◌∷◌, ◌++◌, arith, ltb, length, if◌then◌else◌, All,
}
use blksnap.Kernel.{ok, add64, Rounding}
use blksnap.Storage.{DiffRegion}
use blksnap.Buffer.{DiffBuffer}
use blksnap.DiffIo.{
  DiffIo, Bio, fill_bio, made, calc_page_count, bio_max_segs, make_bios, submit_bios,
  check_page_aligned,
}

-- The transfers that a bio makes: sector of the device, page of the buffer, number of sectors.
abbrev pub Transfer : Type 0
Transfer = ℕ × ℕ × ℕ

abbrev pub transfers_from : ℕ → List (ℕ × ℕ) → List Transfer
transfers_from sector [] = []
transfers_from sector ((page, len) ∷ ps) = (sector, page, len) ∷ transfers_from (sector + len) ps

abbrev pub transfers : List Bio → List Transfer
transfers [] = []
transfers (b ∷ bs) = transfers_from b.bi_sector b.pages ++ transfers bs

-- The transfers of a region page by page, whatever the bios.
abbrev pub by_page : (pages sector page left : ℕ) → List Transfer
by_page zero sector page left = []
by_page (suc pages) sector page left =
    (sector, page, min 8 left) ∷ by_page pages (sector + 8) (page + 1) (left - 8)

abbrev pub pages_for : ℕ → ℕ
pages_for sectors = (sectors + 7) / 8

by_page-add :
    (m n sector page left : ℕ)
    → 8 * m ≤ left
    → by_page (m + n) sector page left
      ≡ by_page m sector page (8 * m) ++ by_page n (sector + 8 * m) (page + m) (left - 8 * m)
by_page-add zero n sector page left h =
    let none_before : 0 + n ≡ n = omega arith in simp unary_clauses (rw none_before)
by_page-add (suc m) n sector page left h =
    let rounds : suc m + n ≡ suc (m + n) = omega arith in
    let first : min 8 left ≡ 8 = ground arith in
    let first' : min 8 (8 * suc m) ≡ 8 = ground arith in
    let rest : 8 * suc m - 8 ≡ 8 * m = omega arith in
    let sector' : sector + 8 * suc m ≡ sector + 8 + 8 * m = omega arith in
    let page' : page + suc m ≡ page + 1 + m = omega arith in
    let left' : left - 8 * suc m ≡ left - 8 - 8 * m = omega arith in
    rw (rounds, first, first', rest, sector', page', left')
      (ap (λ l. (sector, page, 8) ∷ l)
        (by_page-add m n (sector + 8) (page + 1) (left - 8) (omega arith)))

record Fills (fuel offset left page : ℕ) : Type 0 where
  pages : List (ℕ × ℕ)
  ran :
      fill_bio fuel offset (offset + left) page ≡ some (pages, page + pages_for left, offset + left)
  exact : (sector : ℕ) → transfers_from sector pages ≡ by_page (pages_for left) sector page left
  size : length pages ≡ pages_for left

-- A round that fills a page, or the last one.
fill_more :
    (fuel offset left len page : ℕ)
    → 0 < left
    → len ≡ min 8 left
    → pages_for left ≡ suc (pages_for (left - len))
    → ((sector : ℕ)
        → by_page (pages_for (left - len)) (sector + len) (page + 1) (left - len)
          ≡ by_page (pages_for (left - len)) (sector + 8) (page + 1) (left - 8))
    → Fills fuel (offset + len) (left - len) (page + 1)
    → Fills (suc fuel) offset left page
unfolding fill_bio
fill_more fuel offset left len page some_left len_is pages_is next f =
    let whole : offset + left ≡ offset + len + (left - len) = ground arith in
    let page' : page + pages_for left ≡ page + 1 + pages_for (left - len) =
      omega (arith, pages_is) in
    let rest : offset + left - offset ≡ left = omega arith in
    let ran : fill_bio fuel (offset + len) (offset + left) (page + 1)
        ≡ some (f.pages, page + pages_for left, offset + left) =
      rw (whole, page') f.ran in
    record {
      pages = (page, len) ∷ f.pages;
      ran = ground (arith, ran, rest);
      exact = λ sector.
          rw (pages_is, ← len_is)
            (ap (λ l. (sector, page, len) ∷ l) (f.exact (sector + len) ∙ next sector));
      size = omega (arith, f.size);
    }

fill_lem : (fuel offset left page : ℕ) → left < fuel → Fills fuel offset left page
unfolding fill_bio
fill_lem zero offset left page few = absurd (omega arith)
fill_lem (suc fuel) offset zero page few = record {
  pages = [];
  ran = ground arith;
  exact = λ sector. refl;
  size = refl;
}
fill_lem (suc fuel) offset (suc d) page few =
    let left = suc d in
    elim (dec_le 8 left) [
      | yes whole ↦
          fill_more fuel offset left 8 page (omega arith) (ground arith) (omega arith)
            (λ sector. refl) (fill_lem fuel (offset + 8) (left - 8) (page + 1) (omega arith))
      | no last ↦
          fill_more fuel offset left left page (omega arith) (ground arith) (omega arith)
            (λ sector. let done : pages_for (left - left) ≡ 0 = omega arith in rw done)
            (fill_lem fuel (offset + left) (left - left) (page + 1) (omega arith))
    ]

-- The bio has pages, no more than it was allocated for, and no more than the kernel allows.
abbrev pub Fits : (bio_max_pages : ℕ) → Bio → Type 0
Fits bio_max_pages b =
    (0 < length b.pages) × (length b.pages ≤ b.nr_iovecs) × (b.nr_iovecs ≤ bio_max_pages)

module _ (K : Rounding) (bio_max_pages : ℕ) (some_pages : 0 < bio_max_pages) (alloc : ℕ → Bool)
    (have : (j : ℕ) → alloc j ≡ true) (r : DiffRegion) (small : r.count ≤ 524280)
    (room : r.sector + r.count < 2 ^ 64) where
  count_lem : (left : ℕ) → left ≤ 524280 → calc_page_count K bio_max_pages left ≡ pages_for left
  unfolding calc_page_count
  count_lem left h = omega (arith, K.round_up-pow left 3 (omega arith))

  -- The loop made bios for the `left` sectors of the region from the page on.
  record Splits (fuel processed left page number : ℕ) : Type 0 where
    bios : List Bio
    ran : make_bios K bio_max_pages fuel alloc r processed page number ≡ made bios
    exact : transfers bios ≡ by_page (pages_for left) (r.sector + processed) page left
    fit : All (Fits bio_max_pages) bios

  split_end :
      (fuel processed page number : ℕ)
      → r.count ≤ processed
      → Splits (suc fuel) processed 0 page number
  unfolding make_bios
  split_end fuel processed page number past = record {
    bios = [];
    ran = ground (arith, past);
    exact = refl;
    fit = tt;
  }

  -- A round that makes a bio of `portion` sectors, with the bios of the rounds after it.
  split_more :
      (fuel processed left portion page number : ℕ)
      → processed + left ≡ r.count
      → 0 < portion
      → portion ≤ left
      → (if ltb (bio_max_segs K bio_max_pages (pages_for left)) (pages_for left)
          then bio_max_segs K bio_max_pages (pages_for left) * 8
          else left)
        ≡ portion
      → pages_for portion ≤ bio_max_segs K bio_max_pages (pages_for left)
      → by_page (pages_for left) (r.sector + processed) page left
        ≡ by_page (pages_for portion) (r.sector + processed) page portion
          ++ by_page
              (pages_for (left - portion))
              (r.sector + (processed + portion))
              (page + pages_for portion)
              (left - portion)
      → Splits fuel (processed + portion) (left - portion) (page + pages_for portion) (number + 1)
      → Splits (suc fuel) processed left page number
  unfolding make_bios bio_max_segs
  split_more fuel processed left portion page number total some_sectors part choice fits_in apart
        s =
      let f = fill_lem (portion + 1) 0 portion page (omega arith) in
      let plain : 0 + portion ≡ portion = omega arith in
      let filled : fill_bio (portion + 1) 0 portion page
          ≡ some (f.pages, page + pages_for portion, portion) =
        rw plain at f.ran in
      let rest : r.count - processed ≡ left = omega arith in
      let sector : add64 r.sector processed ≡ r.sector + processed = omega arith in
      record {
        bios =
            record {
              bi_sector = r.sector + processed;
              nr_iovecs = min (pages_for left) bio_max_pages;
              pages = f.pages;
            }
            ∷ s.bios;
        ran =
            ground (
              arith,
              rest,
              sector,
              count_lem left (omega arith),
              choice,
              have number,
              filled,
              s.ran,
            );
        exact =
            ap (λ l. l ++ transfers s.bios) (f.exact (r.sector + processed))
            ∙ ap (λ l. by_page (pages_for portion) (r.sector + processed) page portion ++ l) s.exact
            ∙ sym apart;
        fit = ((omega (arith, f.size), omega (arith, f.size, fits_in), ground arith), s.fit);
      }

  split_lem :
      (fuel processed left page number : ℕ)
      → processed + left ≡ r.count
      → left < fuel
      → Splits fuel processed left page number
  unfolding bio_max_segs
  split_lem zero processed left page number total few = absurd (omega arith)
  split_lem (suc fuel) processed zero page number total few =
      split_end fuel processed page number (omega arith)
  split_lem (suc fuel) processed (suc d) page number total few =
      let left = suc d in
      let m = bio_max_pages in
      elim (dec_lt m (pages_for left)) [
        | yes large ↦
            let most : min (pages_for left) m ≡ m = ground arith in
            let taken : pages_for (8 * m) ≡ m = omega arith in
            let rest : pages_for left ≡ m + pages_for (left - 8 * m) = omega arith in
            let sector : r.sector + (processed + 8 * m) ≡ r.sector + processed + 8 * m =
              omega arith in
            split_more fuel processed left (8 * m) page number total (omega arith) (omega arith)
              (ground (arith, most)) (omega (arith, most, taken))
              (rw (rest, taken, sector)
                (by_page-add m (pages_for (left - 8 * m)) (r.sector + processed) page left
                  (omega arith)))
              (split_lem fuel (processed + 8 * m) (left - 8 * m) (page + pages_for (8 * m))
                (number + 1) (omega arith) (omega arith))
        | no fits ↦
            let most : min (pages_for left) m ≡ pages_for left = ground arith in
            let none_left : pages_for (left - left) ≡ 0 = omega arith in
            split_more fuel processed left left page number total (omega arith) (omega arith)
              (ground (arith, most)) (omega (arith, most))
              (rw none_left
                (sym (append-nil (by_page (pages_for left) (r.sector + processed) page left))))
              (split_lem fuel (processed + left) (left - left) (page + pages_for left) (number + 1)
                (omega arith) (omega arith))
      ]

-- The submission for a region whose first sector is aligned to a page, of at most 524280 sectors that do not
-- wrap and for which the buffer has pages, where every bio can be allocated and the kernel allows at
-- least one page in a bio. It succeeds, with a round of fuel for each sector and one more. The
-- bios it submits make together, in order, exactly the transfers of the region page by page: page j
-- of the buffer holds the j-th eight sectors, the last page those left. No bio is empty, holds more
-- pages than it was allocated for, or more than the kernel allows. The counter is raised by their
-- number.
pub submit_bios_lem :
    (K : Rounding) (bio_max_pages : ℕ) (alloc : ℕ → Bool) (io : DiffIo) (r : DiffRegion)
    (b : DiffBuffer)
    → 0 < bio_max_pages
    → ((j : ℕ) → alloc j ≡ true)
    → r.count ≤ 524280
    → r.sector + r.count < 2 ^ 64
    → r.sector % 8 ≡ 0
    → pages_for r.count ≤ b.page_count
    → (bios : List Bio) × (submit_bios K bio_max_pages (suc r.count) alloc io r b
        ≡ some (ok, record io { bio_count = io.bio_count + length bios }, bios))
      × (transfers bios ≡ by_page (pages_for r.count) r.sector 0 r.count)
      × All (Fits bio_max_pages) bios
unfolding submit_bios check_page_aligned
submit_bios_lem K m alloc io r b some_pages have small room aligned enough =
    let s =
      split_lem K m some_pages alloc have r small room (suc r.count) 0 r.count 0 0 (omega arith)
        (omega arith) in
    let start : r.sector + 0 ≡ r.sector = omega arith in
    (
      s.bios,
      ground (
        arith,
        aligned,
        enough,
        count_lem K m some_pages alloc have r small room r.count small,
        s.ran,
      ),
      s.exact ∙ ap (λ x. by_page (pages_for r.count) x 0 r.count) start,
      s.fit,
    )
