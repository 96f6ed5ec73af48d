-- ===== src/DiffIo/Whole.antt =====
-- `diff_io_do` of module/diff_io.c as a whole: the submission of the bios, and the wait for their ends.
use blksnap.Prelude.{
  ℕ, zero, suc, ◌+◌, ◌%◌, ◌^◌, ◌≤◌, ◌<◌, ◌≡◌, refl, ap, ◌∙◌, Bool, true, false, some, List, [], ◌∷◌,
  arith, length, if◌then◌else◌, All,
}
use blksnap.Kernel.{eio, ok, err, Rounding}
use blksnap.Storage.{DiffRegion}
use blksnap.Buffer.{DiffBuffer}
use blksnap.DiffIo.{
  DiffIo, Bio, submit_bios, diff_io_endio, returned, waits_for_ever, wait_for_completion,
  diff_io_do,
}
use blksnap.DiffIo.Split.{transfers, by_page, pages_for, Fits, submit_bios_lem}
use blksnap.DiffIo.Ends.{all_good}

-- The structure after all its bios ended.
abbrev pub ended : DiffIo → List Bool → DiffIo
ended io ends = record io { error = if all_good ends then io.error else err eio; bio_count = 0 }

wait_lem :
    (io : DiffIo) (bs : List Bio) (good : Bool) (goods : List Bool)
    → io.is_sync_io ≡ true
    → io.bio_count ≡ suc (length goods)
    → wait_for_completion io bs (good ∷ goods) ≡ returned ok (ended io (good ∷ goods)) bs
unfolding wait_for_completion diff_io_endio
wait_lem io bs good [] sync h = ground (arith, sync)
wait_lem io bs good (g ∷ gs) sync h =
    let rest = wait_lem (diff_io_endio io good).0 bs g gs (ground (arith, sync)) (ground arith) in
    ground (arith, rest, sync)

wait_short :
    (io : DiffIo) (bs : List Bio) (ends : List Bool)
    → io.is_sync_io ≡ true
    → length ends < io.bio_count
    → wait_for_completion io bs ends ≡ waits_for_ever
unfolding wait_for_completion diff_io_endio
wait_short io bs [] sync h = refl
wait_short io bs (g ∷ gs) sync h =
    let rest = wait_short (diff_io_endio io g).0 bs gs (ground (arith, sync)) (ground (arith, h)) in
    ground (arith, rest, sync, h)

some_bios :
    (bs : List Bio) (sector left : ℕ)
    → 0 < left
    → transfers bs ≡ by_page (pages_for left) sector 0 left
    → 0 < length bs
some_bios [] sector left some_left h = absurd (no_pages (pages_for left) h (omega arith))
  where
    no_pages : (n : ℕ) → [] ≡ by_page n sector 0 left → 0 < n → ⊥
    no_pages zero h some_pages = absurd (omega arith)
    no_pages (suc n) h some_pages = cc
some_bios (b ∷ bs) sector left some_left h = omega arith

all_ended :
    (io : DiffIo) (bs : List Bio) (ends : List Bool)
    → io.is_sync_io ≡ true
    → 0 < io.bio_count
    → length ends ≡ io.bio_count
    → wait_for_completion io bs ends ≡ returned ok (ended io ends) bs
all_ended io bs [] sync some_bios h = absurd (omega arith)
all_ended io bs (good ∷ goods) sync some_bios h = wait_lem io bs good goods sync (omega arith)

-- What the call comes to once its bios are submitted.
module _ (K : Rounding) (m fuel : ℕ) (alloc : ℕ → Bool) (io after : DiffIo) (r : DiffRegion)
    (b : DiffBuffer) (bs : List Bio)
    (submits : submit_bios K m fuel alloc io r b ≡ some (ok, after, bs)) where
  async_returns :
      (ends : List Bool)
      → io.is_sync_io ≡ false
      → diff_io_do K m fuel alloc io r b ends ≡ returned ok after bs
  unfolding diff_io_do
  async_returns ends async = ground (arith, submits, async)

  sync_waits :
      (ends : List Bool)
      → io.is_sync_io ≡ true
      → diff_io_do K m fuel alloc io r b ends ≡ wait_for_completion after bs ends
  unfolding diff_io_do
  sync_waits ends sync = ground (arith, submits, sync)

-- An I/O with a new structure on a region whose first sector is aligned to a page, of at least one and
-- at most 524280 sectors that do not wrap and for which the buffer has pages, where every bio can be
-- allocated and the kernel allows at least one page in a bio; a round of fuel for each sector and one
-- more are enough. The bios that diff_io_do submits make together, in order, exactly the transfers of
-- the region page by page: page j of the buffer holds the j-th eight sectors, the last page those left.
-- No bio is empty, holds more pages than it was allocated for, or more than the kernel allows. An
-- asynchronous call returns 0 with the counter raised by their number. A synchronous one waits for
-- ever while some of them do not end; when all have ended, in whichever order, it returns 0 with the
-- counter at 0, and with the error EIO in the structure if any of them failed, else with none.
pub diff_io_do_lem :
    (K : Rounding) (bio_max_pages : ℕ) (alloc : ℕ → Bool) (io : DiffIo) (r : DiffRegion)
    (b : DiffBuffer)
    → 0 < bio_max_pages
    → ((j : ℕ) → alloc j ≡ true)
    → io.bio_count ≡ 0
    → io.error ≡ ok
    → 0 < r.count
    → r.count ≤ 524280
    → r.sector + r.count < 2 ^ 64
    → r.sector % 8 ≡ 0
    → pages_for r.count ≤ b.page_count
    → let run = diff_io_do K bio_max_pages (suc r.count) alloc io r b in
      (bios : List Bio) × (transfers bios ≡ by_page (pages_for r.count) r.sector 0 r.count)
      × All (Fits bio_max_pages) bios
      × (io.is_sync_io ≡ false
          → (ends : List Bool)
          → run ends ≡ returned ok (record io { bio_count = length bios }) bios)
      × (io.is_sync_io ≡ true
          → (ends : List Bool)
          → (length ends < length bios → run ends ≡ waits_for_ever)
            × (length ends ≡ length bios
                → run ends
                  ≡ returned ok
                      (record io { error = if all_good ends then ok else err eio; bio_count = 0 })
                      bios))
diff_io_do_lem K m alloc io r b some_pages have fresh clean some_sectors small room aligned enough =
    let (bios, submits, exact, fit) =
      submit_bios_lem K m alloc io r b some_pages have small room aligned enough in
    let raised : io.bio_count + length bios ≡ length bios = omega (arith, fresh) in
    let submitted = submits ∙ ap (λ n. some (ok, record io { bio_count = n }, bios)) raised in
    let more = some_bios bios r.sector r.count some_sectors exact in
    let after : DiffIo = record io { bio_count = length bios } in
    let waits = sync_waits K m (suc r.count) alloc io after r b bios submitted in
    (
      bios,
      exact,
      fit,
      λ async ends. async_returns K m (suc r.count) alloc io after r b bios submitted ends async,
      λ sync ends. (
        λ few. waits ends sync ∙ wait_short after bios ends sync few,
        λ all.
            waits ends sync
            ∙ all_ended after bios ends sync more all
            ∙ ap
                (λ x.
                  returned ok
                    (record io { error = if all_good ends then x else err eio; bio_count = 0 })
                    bios)
                clean,
      ),
    )
