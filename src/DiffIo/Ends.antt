-- ===== src/DiffIo/Ends.antt =====
-- The ends of the bios of an I/O, in any order, and its one notification (module/diff_io.c).
use blksnap.Prelude.{
  Bool-cases, ℕ, suc, ◌+◌, ◌≡◌, ◌⊎◌, inl, inr, refl, ap, Bool, true, ◌&&◌, not, some, List, [], ◌∷◌,
  ◌++◌, arith, length, replicate, if◌then◌else◌, ltb,
}
use blksnap.Kernel.{Errno, eio, Ret, ok, err, Rounding}
use blksnap.Storage.{DiffRegion}
use blksnap.Buffer.{DiffBuffer}
use blksnap.DiffIo.{
  DiffIo, Bio, Made, made, failed, no_fuel, Notice, nothing, complete, queue_work, make_bios,
  submit_bios, diff_io_endio, check_page_aligned, calc_page_count,
}

-- The ends in the order in which they come, each good or not, with the notice that each gives.
pub run_ends : DiffIo → List Bool → DiffIo × List Notice
run_ends io [] = (io, [])
run_ends io (good ∷ goods) =
    let (io', n) = diff_io_endio io good in let (io'', ns) = run_ends io' goods in (io'', n ∷ ns)

abbrev pub all_good : List Bool → Bool
all_good [] = true
all_good (good ∷ goods) = good && all_good goods

-- The notice that the structure is for.
abbrev pub notice_of : DiffIo → Notice
notice_of io = if io.is_sync_io then complete else queue_work

run_ends_lem :
    (io : DiffIo) (good : Bool) (goods : List Bool)
    → io.bio_count ≡ suc (length goods)
    → let (io', ns) = run_ends io (good ∷ goods) in
      (ns ≡ replicate (length goods) nothing ++ (notice_of io ∷ []))
      × (io'.error ≡ (if all_good (good ∷ goods) then io.error else err eio))
unfolding run_ends diff_io_endio
run_ends_lem io good [] h = ground arith
run_ends_lem io good (g ∷ gs) h =
    let (ns, e) = run_ends_lem (diff_io_endio io good).0 g gs (ground arith) in
    (ground (arith, ns), ground (arith, e))

-- What a call did: it submitted nothing, or all its bios with the counter raised for each.
Outcome : DiffIo → Ret → DiffIo → List Bio → Type 0
Outcome io ret io' bios =
    (bios ≡ []) ⊎ ((ret ≡ ok) × (io' ≡ record io { bio_count = io.bio_count + length bios }))

submit_bios-Outcome :
    (K : Rounding) (m fuel : ℕ) (alloc : ℕ → Bool) (io : DiffIo) (r : DiffRegion) (b : DiffBuffer)
    (ret : Ret) (io' : DiffIo) (bios : List Bio)
    → submit_bios K m fuel alloc io r b ≡ some (ret, io', bios)
    → Outcome io ret io' bios
unfolding submit_bios Outcome
submit_bios-Outcome K m fuel alloc io r b ret io' bios h =
    go (make_bios K m fuel alloc r 0 0 0) refl
  where
    go : (x : Made) → make_bios K m fuel alloc r 0 0 0 ≡ x → Outcome io ret io' bios
    go (made bs) e = elim (Bool-cases (not (check_page_aligned r.sector))) [
      | inl bad ↦ inl (ground (arith, h, bad))
      | inr good ↦ elim (Bool-cases (ltb b.page_count (calc_page_count K m r.count))) [
        | inl large ↦ inl (ground (arith, h, good, large))
        | inr fits ↦ inr (ground (arith, h, e, good, fits), ground (arith, h, e, good, fits))
      ]
    ]
    go (failed bs) e = inl (ground (arith, h, e))
    go no_fuel e = inl (ground (arith, h, e))

-- Whatever region and buffer a new structure is used for, whichever allocation fails: diff_io_do
-- submits nothing where it comes to an error. If some bios were submitted, then in whichever order they
-- end, each well or not, the one notice of the structure comes with the last of them, and none
-- before; the error is then 0 if all ended well, and EIO if any did not.
pub notified_once :
    (K : Rounding) (m fuel : ℕ) (alloc : ℕ → Bool) (io : DiffIo) (r : DiffRegion) (b : DiffBuffer)
    (ret : Ret) (io' : DiffIo) (bios : List Bio)
    → io.bio_count ≡ 0
    → io.error ≡ ok
    → submit_bios K m fuel alloc io r b ≡ some (ret, io', bios)
    → ((e : Errno) → ret ≡ err e → bios ≡ [])
      × ((good : Bool) (goods : List Bool)
          → length bios ≡ suc (length goods)
          → let (last, notices) = run_ends io' (good ∷ goods) in
            (notices ≡ replicate (length goods) nothing ++ (notice_of io ∷ []))
            × (last.error ≡ (if all_good (good ∷ goods) then ok else err eio)))
unfolding Outcome
notified_once K m fuel alloc io r b ret io' bios fresh clean h =
    elim (submit_bios-Outcome K m fuel alloc io r b ret io' bios h) [
      | inl no_bios ↦ (λ e _. no_bios, λ good goods len. absurd (omega (arith, ap length no_bios)))
      | inr (fine, after) ↦ (
        λ e failed_ret. absurd (ground (arith, fine, failed_ret)),
        λ good goods len.
            rw (after, ← clean)
              (run_ends_lem (record io { bio_count = io.bio_count + length bios }) good goods
                (omega (arith, len, fresh))),
      )
    ]
