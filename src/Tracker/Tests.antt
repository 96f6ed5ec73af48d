-- ===== src/Tracker/Tests.antt =====
-- Runs of module/tracker.c, and the theorems at them.
use blksnap.Prelude.{ℕ, ◌≡◌, ◌⊎◌, refl, Bool, true, false, some, arith}
use blksnap.Kernel.{ok, dividing, default_params, Ret}
use blksnap.Cbt.Tests.{device, device-IsValid, starved}
use blksnap.Area.Copy.Ends.{io_end}
use blksnap.Area.Tests.{two_chunks, fine}
use blksnap.Tracker.{
  Tracker, Bio, passes, Outside, sector_of, tracker_submit_bio, tracker_take_snapshot,
}
use blksnap.Tracker.Submit.{past_end_disables_copy}
use blksnap.Tracker.Take.{Taken, Refused, take_snapshot_lem}

abbrev pub tracker : Bool → Tracker
tracker is_taken = record {
  dev_id = 5;
  snapshot_is_taken = is_taken;
  cbt_map = some (device 3);
  diff_area = some two_chunks;
  is_frozen = false;
}

abbrev a_write : (sector : ℕ) → Bio
a_write sector = record {
  is_diff_io = false;
  is_write = true;
  is_nowait = false;
  is_remapped = false;
  bi_sector = sector;
  sectors = 4;
  bd_start_sect = 0;
}

-- The read of the first chunk ends well before the wait.
abbrev reading_ends : Outside
reading_ends = record {
  fuel = 3;
  copying = λ _. fine;
  meanwhile = io_end default_params fine 0 ok;
  waiting = λ _. fine;
}

past_end_disables_copy_example :
    (t' : Tracker) × (tracker_submit_bio dividing default_params reading_ends
        (tracker true)
        (a_write 30)
      ≡ passes t')
    × (t'.diff_area ≡ some two_chunks)
    × (tracker_submit_bio dividing default_params reading_ends t' (a_write 6) ≡ passes t')
unfolding sector_of
past_end_disables_copy_example =
    past_end_disables_copy dividing default_params reading_ends reading_ends (tracker true)
      (a_write 30) (a_write 6) (device 3) (refl, refl, omega arith) refl
      (device-IsValid 3 (omega arith) (omega arith)) refl
      (record { pos = omega arith; fits = omega arith }) (omega arith)

take_snapshot_lem_example :
    (ret : Ret) × (t' : Tracker) × (frozen : Bool) × (tracker_take_snapshot dividing default_params
        starved 9 40
        (tracker false)
      ≡ some (ret, t', frozen))
    × (Taken dividing starved 9 40 (tracker false) (device 3) ret t' frozen
        ⊎ Refused dividing starved 9 40 (tracker false) (device 3) ret t' frozen)
take_snapshot_lem_example =
    take_snapshot_lem dividing starved 9 40 (tracker false) (device 3) two_chunks (omega arith) refl
      refl (device-IsValid 3 (omega arith) (omega arith))
