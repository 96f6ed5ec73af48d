-- ===== src/Cbt/Tests.antt =====
-- Runs of module/cbt_map.c on a device of four tracking blocks, and the theorems at such inputs.
use blksnap.Prelude.{
  ℕ, ◌-◌, ◌^◌, ◌<◌, max, ◌≡◌, refl, Bool, true, false, some, none, List, [], ◌∷◌, arith, ltb, leb,
  take, if◌then◌else◌, replicate, get_or-replicate,
}
use blksnap.Kernel.{Ret, ok, err, einval, enomem, dividing, default_params}
use blksnap.Cbt.{
  CbtMap, Memory, zeroed, block_of, set_map, set_loop, raise, cbt_map_create, cbt_map_set,
  cbt_map_switch, cbt_map_reset, cbt_map_mark_dirty_blocks, cbt_map_read_to_user,
}
use blksnap.Cbt.Inv.{byte, IsValid, covers, cbt_map_set_lem}
use blksnap.Cbt.Dirty.{MarkedDirty, mark_dirty_blocks_lem}
use blksnap.Cbt.Epochs.{Event, write, snapshot, run, touched, changed_since, restart_hides_changes}
use blksnap.Cbt.Size.{Suits, create_lem, reset_lem}
use blksnap.Cbt.Read.{asked, read_any_offset, reset_failure_faults}

abbrev pub memory : Memory
memory = record { read_ok = true; write_ok = true; uuid = 77 }

abbrev pub starved : Memory
starved = record { read_ok = true; write_ok = false; uuid = 78 }

-- Four blocks of eight sectors, at the change number `n`.
abbrev pub device : ℕ → CbtMap
device n = record zeroed {
  kref = 1;
  blk_size_shift = 12;
  blk_count = 4;
  device_capacity = 32;
  read_map = some (replicate 4 0);
  write_map = some (replicate 4 0);
  snap_number_active = n;
  snap_number_previous = n - 1;
}

pub device-IsValid : (n : ℕ) → 0 < n → n < 256 → IsValid (device n)
device-IsValid n pos small = record {
  read_bytes = replicate 4 0;
  write_bytes = replicate 4 0;
  read_is = refl;
  write_is = refl;
  read_size = refl;
  write_size = refl;
  active_pos = pos;
  active_byte = small;
  previous_byte = omega arith;
  write_le = λ j. omega (arith, get_or-replicate {A = ℕ} 4 j 0);
  read_le = λ j. omega (arith, get_or-replicate {A = ℕ} 4 j 0);
}

set_marks_two_blocks :
    cbt_map_set (device 3) 6 4
    ≡ some (ok, record (device 3) { write_map = some (3 ∷ 3 ∷ 0 ∷ 0 ∷ []) })
unfolding cbt_map_set set_map set_loop raise
set_marks_two_blocks = refl

set_past_the_end :
    cbt_map_set (device 3) 30 4
    ≡ some (
      err einval,
      record (device 3) { write_map = some (0 ∷ 0 ∷ 0 ∷ 3 ∷ []); is_corrupted = true },
    )
unfolding cbt_map_set set_map set_loop raise
set_past_the_end = refl

-- Three steps of 2^41 sectors: blocks of 2^23 sectors, since blocks of 2^7 would be too many.
abbrev large : ℕ
large = 2 ^ 41

abbrev script : List Event
script = write 0 8 ∷ snapshot 5 ∷ write 20 4 ∷ []

cbt_map_set_lem_example :
    (c' : CbtMap) × (cbt_map_set (device 3) 6 4 ≡ some (ok, c'))
    × ((j : ℕ)
        → j < 4
        → byte c'.write_map j ≡ (
            if covers (device 3) 6 4 j
            then max (byte (device 3).write_map j) 3
            else byte (device 3).write_map j))
    × (c'.read_map ≡ (device 3).read_map)
    × (c'.is_corrupted ≡ false)
cbt_map_set_lem_example =
    cbt_map_set_lem (device 3) 6 4 (device-IsValid 3 (omega arith) (omega arith)) refl (omega arith)

mark_dirty_blocks_lem_example :
    (out : Ret × CbtMap) × (cbt_map_mark_dirty_blocks (device 3) ((0, 8) ∷ (20, 2) ∷ []) ≡ some out)
    × MarkedDirty (device 3) ((0, 8) ∷ (20, 2) ∷ []) out
mark_dirty_blocks_lem_example =
    mark_dirty_blocks_lem ((0, 8) ∷ (20, 2) ∷ []) (device 3)
      (device-IsValid 3 (omega arith) (omega arith)) refl (omega arith)

changed_since_example :
    (c c₁ c₂ : CbtMap) × (cbt_map_switch 1 (device 3) ≡ some c)
    × (run c script ≡ some c₁)
    × (cbt_map_switch 2 c₁ ≡ some c₂)
    × (c₂.generation_id ≡ c.generation_id)
    × ((j : ℕ) → j < 4 → ltb c.snap_number_previous (byte c₂.read_map j) ≡ touched 12 script j)
changed_since_example =
    changed_since (device 3) 1 2 script (device-IsValid 3 (omega arith) (omega arith)) refl
      (omega arith) (omega arith)

restart_hides_changes_example :
    (c c₁ c₂ : CbtMap) × (cbt_map_switch 1 (device 255) ≡ some c)
    × (c.generation_id ≡ 1)
    × (c.snap_number_previous ≡ 255)
    × (run c script ≡ some c₁)
    × (cbt_map_switch 2 c₁ ≡ some c₂)
    × (c₂.generation_id ≡ c.generation_id)
    × ((j : ℕ) → ltb c.snap_number_previous (byte c₂.read_map j) ≡ false)
restart_hides_changes_example =
    restart_hides_changes (device 255) 1 2 script (device-IsValid 255 (omega arith) (omega arith))
      refl refl (omega arith) (omega arith)

create_lem_example :
    (c : CbtMap) × (cbt_map_create dividing default_params true memory large ≡ some (some c))
    × IsValid c
    × (c.is_corrupted ≡ false)
    × (c.kref ≡ 1)
    × (c.snap_number_active ≡ 1)
    × ((j : ℕ) → (byte c.write_map j ≡ 0) × (byte c.read_map j ≡ 0))
    × Suits large c.blk_size_shift c.blk_count
    × ((sector : ℕ) → sector < large → block_of c sector < c.blk_count)
create_lem_example = create_lem dividing memory large (omega arith) true

reset_lem_example :
    (ret : Ret) × (c' : CbtMap) × (cbt_map_reset dividing default_params starved (device 3) large
      ≡ some (ret, c'))
    × (c'.is_corrupted ≡ false)
    × (c'.device_capacity ≡ large)
    × Suits c'.device_capacity c'.blk_size_shift c'.blk_count
    × (◌≡◌ {A = Bool} false true
        → (ret ≡ ok) × IsValid c' × (c'.generation_id ≡ 78) × (c'.snap_number_active ≡ 1))
    × (◌≡◌ {A = Bool} false false
        → (ret ≡ err enomem) × (c'.read_map ≡ none) × (c'.write_map ≡ none))
reset_lem_example = reset_lem dividing starved large (omega arith) (device 3)

read_any_offset_example : cbt_map_read_to_user (device 3) 5 6 0 ≡ (
    if leb (asked 4 5 6) 4
    then some (ok, asked 4 5 6 - 0, take (asked 4 5 6 - 0) (replicate 4 0))
    else none)
read_any_offset_example =
    read_any_offset (device 3) 5 6 0 (device-IsValid 3 (omega arith) (omega arith)) refl
      (omega arith) (omega arith) (omega arith)

reset_failure_faults_example :
    (c' : CbtMap) × (cbt_map_reset dividing default_params starved (device 3) large
      ≡ some (err enomem, c'))
    × (cbt_map_set c' 100 8 ≡ none)
reset_failure_faults_example =
    reset_failure_faults dividing starved large (device 3) 100 8 (omega arith) refl (omega arith)
      (omega arith)
