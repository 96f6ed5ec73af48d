-- ===== src/DiffIo/Tests.antt =====
-- Runs of module/diff_io.c with a region of 20 sectors and bios of at most two pages, and the
-- theorems at them.
use blksnap.Prelude.{
  suc, ◌≡◌, ◌<◌, refl, Bool, true, false, some, List, [], ◌∷◌, ◌++◌, arith, length, replicate, All,
  if◌then◌else◌,
}
use blksnap.Kernel.{Errno, eio, ok, err, dividing}
use blksnap.Storage.{DiffRegion}
use blksnap.Buffer.{DiffBuffer}
use blksnap.DiffIo.{
  DiffIo, Bio, nothing, complete, returned, waits_for_ever, wait_for_completion, diff_io_do,
  diff_io_endio, submit_bios, make_bios, fill_bio, calc_page_count, bio_max_segs,
  check_page_aligned,
}
use blksnap.DiffIo.Split.{transfers, by_page, Fits}
use blksnap.DiffIo.Whole.{diff_io_do_lem}
use blksnap.DiffIo.Ends.{run_ends, all_good, notified_once}

abbrev region : DiffRegion
region = record { bdev = 2; sector = 64; count = 20 }

abbrev some_buffer : DiffBuffer
some_buffer = record { size = 10240; page_count = 3 }

abbrev io : DiffIo
io = record { error = ok; bio_count = 0; is_write = true; is_sync_io = true }

abbrev two_bios : List Bio
two_bios =
    record { bi_sector = 64; nr_iovecs = 2; pages = (0, 8) ∷ (1, 8) ∷ [] }
    ∷ record { bi_sector = 80; nr_iovecs = 1; pages = (2, 4) ∷ [] }
    ∷ []

splits_in_two :
    submit_bios dividing 2 21 (λ _. true) io region some_buffer
    ≡ some (ok, record io { bio_count = 2 }, two_bios)
unfolding submit_bios make_bios fill_bio calc_page_count bio_max_segs check_page_aligned
splits_in_two = refl

diff_io_do_lem_example :
    let run = diff_io_do dividing 2 21 (λ _. true) io region some_buffer in
    (bios : List Bio) × (transfers bios ≡ by_page 3 64 0 20)
    × All (Fits 2) bios
    × (io.is_sync_io ≡ false
        → (ends : List Bool) → run ends ≡ returned ok (record io { bio_count = length bios }) bios)
    × (io.is_sync_io ≡ true
        → (ends : List Bool)
        → (length ends < length bios → run ends ≡ waits_for_ever)
          × (length ends ≡ length bios
              → run ends
                ≡ returned ok
                    (record io { error = if all_good ends then ok else err eio; bio_count = 0 })
                    bios))
diff_io_do_lem_example =
    diff_io_do_lem dividing 2 (λ _. true) io region some_buffer (omega arith) (λ _. refl) refl refl
      (omega arith) (omega arith) (omega arith) refl (omega arith)

-- The wait ends with the second bio, and the failure of the first is kept.
second_ends :
    diff_io_do dividing 2 21 (λ _. true) io region some_buffer (false ∷ true ∷ [])
    ≡ returned ok (record io { error = err eio; bio_count = 0 }) two_bios
unfolding diff_io_do wait_for_completion diff_io_endio submit_bios make_bios fill_bio
    calc_page_count bio_max_segs check_page_aligned
second_ends = refl

notified_once_example :
    ((e : Errno) → ok ≡ err e → two_bios ≡ [])
    × ((good : Bool) (goods : List Bool)
        → length two_bios ≡ suc (length goods)
        → let (last, notices) = run_ends (record io { bio_count = 2 }) (good ∷ goods) in
          (notices ≡ replicate (length goods) nothing ++ (complete ∷ []))
          × (last.error ≡ (if all_good (good ∷ goods) then ok else err eio)))
notified_once_example =
    notified_once dividing 2 21 (λ _. true) io region some_buffer ok (record io { bio_count = 2 })
      two_bios refl refl splits_in_two
