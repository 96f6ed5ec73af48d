-- ===== src/Snapshot/Registry/Calls/Marks.antt =====
-- `snapshot_mark_dirty_blocks` of module/snapshot.c on the list of snapshots.
use blksnap.Prelude.{ℕ, ◌≤◌, ◌≡◌, refl, ◌∙◌, Option, none, some, List, [], ◌∷◌, arith}
use blksnap.Kernel.{enodev, Ret, ok, err}
use blksnap.Snapshot.Store.{Image, Store, Environment, Res, returns, faults}
use blksnap.Snapshot.Registry.Listed.{as_list, entries-AtMostOne}
use blksnap.Snapshot.Registry.Keeps.{returns->>=}
use blksnap.Snapshot.Registry.History.{Registered}
use blksnap.Snapshot.Registry.Calls.{
  listed, scan_images, scan_snapshots, mark_image, mark_listed, snapshot_mark_dirty_blocks,
}

-- What marking comes to, for the map of the tracker that the image holds.
abbrev pub Marked : List (ℕ × ℕ) → Store → Option (Option Image) → Res Ret
Marked ranges st none = faults
Marked ranges st (some none) = returns (err enodev) st
Marked ranges st (some (some i)) = mark_image ranges i st

-- What the call comes to with the one snapshot of the list, or with none.
abbrev pub MarkedOn : (dev : ℕ) → List (ℕ × ℕ) → Store → Option ℕ → Res Ret
MarkedOn dev ranges st none = returns ok st
MarkedOn dev ranges st (some s) = Marked ranges st (scan_images dev (st.objects s).snapimage_array)

listed_is :
    (e : Environment) (st : Store) (o : Option ℕ)
    → 2 ≤ e.fuel
    → Registered st o
    → listed e st ≡ returns (as_list o) st
unfolding listed
listed_is e st o enough r = rw (entries-AtMostOne e.fuel enough r.at_most, listed) refl

scanned_one :
    (dev : ℕ) (ranges : List (ℕ × ℕ)) (st : Store) (s : ℕ) (out : Option (Option Image))
    → scan_images dev (st.objects s).snapimage_array ≡ out
    → mark_listed dev ranges (s ∷ []) st ≡ Marked ranges st out
unfolding mark_listed scan_snapshots
scanned_one dev ranges st s none h = ground (arith, h)
scanned_one dev ranges st s (some none) h = ground (arith, h)
scanned_one dev ranges st s (some (some i)) h = ground (arith, h)

marked_on :
    (e : Environment) (dev : ℕ) (ranges : List (ℕ × ℕ)) (st : Store) (o : Option ℕ)
    → listed e st ≡ returns (as_list o) st
    → snapshot_mark_dirty_blocks e dev ranges st ≡ MarkedOn dev ranges st o
unfolding snapshot_mark_dirty_blocks
marked_on e dev ranges st none h = returns->>= (listed e) _ st st [] h
marked_on e dev ranges st (some s) h =
    returns->>= (listed e) _ st st (s ∷ []) h
    ∙ scanned_one dev ranges st s (scan_images dev (st.objects s).snapimage_array) refl

-- The call, with two rounds of the walk or more, on a list of at most one snapshot.
pub mark-MarkedOn :
    (e : Environment) (dev : ℕ) (ranges : List (ℕ × ℕ)) (st : Store) (o : Option ℕ)
    → 2 ≤ e.fuel
    → Registered st o
    → snapshot_mark_dirty_blocks e dev ranges st ≡ MarkedOn dev ranges st o
mark-MarkedOn e dev ranges st o enough r = marked_on e dev ranges st o (listed_is e st o enough r)

pub scan_none : (dev : ℕ) (is : List (Option Image)) → scan_images dev (none ∷ is) ≡ none
unfolding scan_images
scan_none dev is = refl
