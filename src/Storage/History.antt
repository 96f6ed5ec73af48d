-- ===== src/Storage/History.antt =====
-- Histories of a difference storage (module/diff_storage.c): calls of `diff_storage_new_region` and
-- `diff_storage_append_block`, in any order.
use blksnap.Prelude.{
  ℕ, ◌+◌, ◌^◌, ◌≤◌, ◌<◌, ◌≡◌, ◌≢◌, refl, ap, ◌∙◌, Bool, true, some, List, [], ◌∷◌, arith, length,
}
use native.Mathlib.Decide.{ℕ_discrete}
use blksnap.Kernel.{Params}
use blksnap.Storage.{
  DiffStorage, UserRange, Opened, Alarm, Region, diff_storage_new, diff_storage_new_region,
  diff_storage_append_block,
}
use blksnap.Storage.Inv.{IsValid}
use blksnap.Storage.Room.{frees, spans}
use blksnap.Storage.Allocate.{given, new_region-IsValid, new_region-spans, new_region-Warns}
use blksnap.Storage.Append.{AreSane, sectors, Bounded, append_block-Grown}

-- A call with what the kernel answers in it.
pub data Call : Type 0 where
  allocate : (alloc : Bool) (a : Alarm) (count : ℕ) → Call
  append : (o : Opened) (bdev_alloc : Bool) (dev_id : ℕ) (ranges : List UserRange) → Call

-- The storage after the calls, with what each allocation returned.
pub run : Params → DiffStorage → List Call → List Region × DiffStorage
run P d [] = ([], d)
run P d (allocate alloc a count ∷ calls) =
    let (out, d') = diff_storage_new_region P alloc a d count in
    let (outs, d'') = run P d' calls in (out ∷ outs, d'')
run P d (append o bdev_alloc dev_id ranges ∷ calls) =
    run P (diff_storage_append_block o bdev_alloc d dev_id ranges).1 calls

abbrev pub SaneCalls : List Call → Type 0
SaneCalls [] = Unit
SaneCalls (allocate _ _ _ ∷ calls) = SaneCalls calls
SaneCalls (append _ _ _ ranges ∷ calls) = AreSane ranges × SaneCalls calls

abbrev pub offered : List Call → ℕ
offered [] = 0
offered (allocate _ _ _ ∷ calls) = offered calls
offered (append _ _ _ ranges ∷ calls) = sectors ranges + offered calls

-- How often the sector was given out.
abbrev pub taken : List Region → (dev s : ℕ) → ℕ
taken [] dev s = 0
taken (r ∷ rs) dev s = given r dev s + taken rs dev s

run_from :
    (P : Params) (calls : List Call) (d : DiffStorage) (before : ℕ → ℕ → ℕ)
    → IsValid d
    → Bounded before d
    → SaneCalls calls
    → d.capacity + offered calls < 2 ^ 64
    → let (out, d') = run P d calls in
      IsValid d' × Bounded (λ dev s. before dev s + taken out dev s) d'
unfolding run
run_from P [] d before v b sane room = (v, λ dev s. omega (arith, b dev s))
run_from P (allocate alloc a count ∷ calls) d before v b sane room =
    let step = diff_storage_new_region P alloc a d count in
    let (v', capacity, took) = new_region-IsValid P alloc a d count v in
    let (valid, bounded) =
      run_from P calls step.1 (λ dev s. before dev s + given step.0 dev s) v'
        (λ dev s. omega (arith, b dev s, took dev s, new_region-spans P alloc a d count dev s)) sane
        (omega (arith, capacity)) in
    (valid, λ dev s. omega (arith, bounded dev s))
run_from P (append o bdev_alloc dev_id ranges ∷ calls) d before v b (sane, rest) room =
    let g = append_block-Grown o bdev_alloc d dev_id ranges v sane (omega arith) in
    run_from P calls (diff_storage_append_block o bdev_alloc d dev_id ranges).1 before g.valid
      (g.bounded before b) rest (omega (arith, g.limited))

new_lem :
    (P : Params) (start : Alarm)
    → (d : DiffStorage) × (diff_storage_new P true start ≡ some d)
      × IsValid d
      × (d.capacity ≡ 0)
      × Bounded (λ dev s. 0) d
unfolding diff_storage_new
new_lem P start = (
  _,
  refl,
  record {
    sane_empty = tt;
    sane_full = tt;
    filled_sum = refl;
    capacity_sum = refl;
    small = omega arith;
  },
  refl,
  λ dev s. omega arith,
)

-- A new storage, any calls in any order, and whatever the kernel answers in them: as long as the
-- ranges of user space do not wrap and hold fewer than 2^64 sectors together, the storage is valid
-- at the end, and each sector was given out, or is free, no more often than the blocks of the
-- storage hold it. So a sector that is in one block only was given out at most once.
pub handed_out_once :
    (P : Params) (start : Alarm) (calls : List Call)
    → SaneCalls calls
    → offered calls < 2 ^ 64
    → (d : DiffStorage) × (diff_storage_new P true start ≡ some d)
      × (let (out, d') = run P d calls in
          IsValid d'
          × ((dev s : ℕ)
              → taken out dev s + frees d'.empty_blocks dev s
                ≤ spans d'.empty_blocks dev s + spans d'.filled_blocks dev s)
          × ((dev s : ℕ)
              → spans d'.empty_blocks dev s + spans d'.filled_blocks dev s ≤ 1
              → taken out dev s ≤ 1))
handed_out_once P start calls sane room =
    let (d, made, v, none_yet, b) = new_lem P start in
    let (v', b') = run_from P calls d (λ dev s. 0) v b sane (omega (arith, none_yet)) in
    (d, made, (v', (λ dev s. omega (arith, b' dev s)), λ dev s one. omega (arith, b' dev s)))

abbrev pub OnlyAllocate : List Call → Type 0
OnlyAllocate [] = Unit
OnlyAllocate (allocate _ _ _ ∷ calls) = OnlyAllocate calls
OnlyAllocate (append _ _ _ _ ∷ calls) = ⊥

warned_before :
    (P : Params) (calls : List Call) (d : DiffStorage)
    → OnlyAllocate calls
    → d.low_space_flag ≢ 0
    → (run P d calls).1.event_queue ≡ d.event_queue
unfolding run
warned_before P [] d only h = refl
warned_before P (allocate alloc a count ∷ calls) d only h =
    let (same, still) = (new_region-Warns P alloc a d count).again h in
    warned_before P calls (diff_storage_new_region P alloc a d count).1 only still ∙ same
warned_before P (append _ _ _ _ ∷ calls) d only h = absurd only

-- Until user space appends blocks, any number of allocations makes at most one event of low space,
-- and none at all if the flag says that one was made already.
warned_once :
    (P : Params) (calls : List Call) (d : DiffStorage)
    → OnlyAllocate calls
    → (length (run P d calls).1.event_queue ≤ length d.event_queue + 1)
      × (d.low_space_flag ≢ 0 → (run P d calls).1.event_queue ≡ d.event_queue)
unfolding run
warned_once P [] d only = (omega arith, λ _. refl)
warned_once P (append _ _ _ _ ∷ calls) d only = absurd only
warned_once P (allocate alloc a count ∷ calls) d only =
    let d' = (diff_storage_new_region P alloc a d count).1 in
    let w = new_region-Warns P alloc a d count in
    let (later, silent) = warned_once P calls d' only in
    (
      elim (ℕ_discrete d'.low_space_flag 0) [
        | yes zero_flag ↦
            let same : length d'.event_queue ≡ length d.event_queue =
              ap length (w.quiet zero_flag) in
            omega (arith, later)
        | no flag ↦
            let same : length (run P d' calls).1.event_queue ≡ length d'.event_queue =
              ap length (silent flag) in
            omega (arith, w.once)
      ],
      warned_before P (allocate alloc a count ∷ calls) d only,
    )
