-- ===== src/Tracker/Submit.antt =====
-- The branches of `tracker_submit_bio` (module/tracker.c) that copy nothing.
use blksnap.Prelude.{
  ◌≤◌, ◌<◌, ◌≡◌, refl, ap, ◌∙◌, true, false, not, some, arith, ltb, if◌then◌else◌,
}
use blksnap.Kernel.{Errno, einval, ok, err, Params, Rounding}
use blksnap.Cbt.{CbtMap, cbt_map_set}
use blksnap.Cbt.Inv.{
  IsValid, IsRange, set_result, cbt_map_set-eq, last_block, corrupted-cbt_map_set,
}
use blksnap.Tracker.{Tracker, Bio, passes, Outside, sector_of, protect, tracker_submit_bio}

-- A write of some sectors that is not the module's own.
abbrev pub IsTracked : Bio → Type 0
IsTracked b = (b.is_diff_io ≡ false) × (b.is_write ≡ true) × (0 < b.sectors)

pub submit-set :
    (K : Rounding) (P : Params) (o : Outside) (t : Tracker) (b : Bio) (c c' : CbtMap)
    → IsTracked b
    → t.cbt_map ≡ some c
    → cbt_map_set c (sector_of b) b.sectors ≡ some (ok, c')
    → tracker_submit_bio K P o t b ≡ protect K P o (record t { cbt_map = some c' }) b
unfolding tracker_submit_bio
submit-set K P o t b c c' (own, write, some_sectors) is set =
    ground (arith, own, write, some_sectors, is, set)

pub submit-not_set :
    (K : Rounding) (P : Params) (o : Outside) (t : Tracker) (b : Bio) (c c' : CbtMap) (e : Errno)
    → IsTracked b
    → t.cbt_map ≡ some c
    → cbt_map_set c (sector_of b) b.sectors ≡ some (err e, c')
    → tracker_submit_bio K P o t b ≡ passes (record t { cbt_map = some c' })
unfolding tracker_submit_bio
submit-not_set K P o t b c c' e (own, write, some_sectors) is set =
    ground (arith, own, write, some_sectors, is, set)

-- A write that ends beyond the table, which is of the size that the device had, marks the map as
-- corrupted and passes. From then on every bio passes, whether a snapshot is taken or not, and the
-- tracker stays as it is: nothing is copied, and the area is not marked as corrupted.
pub past_end_disables_copy :
    (K : Rounding) (P : Params) (o o' : Outside) (t : Tracker) (b b' : Bio) (c : CbtMap)
    → IsTracked b
    → t.cbt_map ≡ some c
    → IsValid c
    → c.is_corrupted ≡ false
    → IsRange (sector_of b) b.sectors
    → c.blk_count ≤ last_block c (sector_of b) b.sectors
    → (t' : Tracker) × (tracker_submit_bio K P o t b ≡ passes t')
      × (t'.diff_area ≡ t.diff_area)
      × (tracker_submit_bio K P o' t' b' ≡ passes t')
unfolding tracker_submit_bio
past_end_disables_copy K P o o' t b b' c tracked is v clean range past =
    let c' = set_result c (sector_of b) b.sectors v.write_bytes in
    let out : ltb (last_block c (sector_of b) b.sectors) c.blk_count ≡ false =
      ground (arith, past) in
    let bad : c'.is_corrupted ≡ true = ap not out in
    let set : cbt_map_set c (sector_of b) b.sectors ≡ some (err einval, c') =
      cbt_map_set-eq c (sector_of b) b.sectors v clean range
      ∙ ap (λ h. some (if h then ok else err einval, c')) out in
    let again = corrupted-cbt_map_set c' (sector_of b') b'.sectors bad in
    (
      record t { cbt_map = some c' },
      submit-not_set K P o t b c c' einval tracked is set,
      refl,
      ground (arith, again),
    )
