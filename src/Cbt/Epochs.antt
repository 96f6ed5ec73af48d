-- ===== src/Cbt/Epochs.antt =====
-- The promise of the change tracker (module/cbt_map.c; doc/blksnap.md): within one generation, the
-- table that is read at a later snapshot tells which blocks were written since an earlier one.
use blksnap.Prelude.{
  ℕ, suc, ◌+◌, ◌-◌, ◌/◌, ◌^◌, ◌<◌, ◌≡◌, refl, Bool, false, ◌&&◌, ◌||◌, some, none, Option, List, [],
  ◌∷◌, arith, ltb, leb,
}
use blksnap.Kernel.{sub64, sector_shift}
use blksnap.Cbt.{CbtMap, cbt_map_set, cbt_map_switch}
use blksnap.Cbt.Inv.{
  byte, IsValid, IsRange, get_or-raised, set_result, set_result-IsValid, cbt_map_set-eq,
}
use blksnap.Cbt.Ops.{
  advanced, advanced-IsValid, switch-advanced, restarted, restarted-IsValid, switch-restarted,
}

-- What happens to a tracked device: a write (`tracker_submit_bio`), or a snapshot
-- (`tracker_take_snapshot`), with the identifier that a new generation would get.
pub data Event : Type 0 where
  write : (start cnt : ℕ) → Event
  snapshot : (uuid : ℕ) → Event

pub run : CbtMap → List Event → Option CbtMap
run c [] = some c
run c (write start cnt ∷ es) = elim (cbt_map_set c start cnt) [
  | none ↦ none
  | some (_, c') ↦ run c' es
]
run c (snapshot uuid ∷ es) = elim (cbt_map_switch uuid c) [ none ↦ none | some c' ↦ run c' es ]

abbrev pub snapshots : List Event → ℕ
snapshots [] = 0
snapshots (write _ _ ∷ es) = snapshots es
snapshots (snapshot _ ∷ es) = suc (snapshots es)

abbrev pub block_at : (shift sector : ℕ) → ℕ
block_at shift sector = sector / 2 ^ sub64 shift sector_shift

-- Every write is a range of sectors that ends in the table.
abbrev pub Fits : (shift blk_count : ℕ) → List Event → Type 0
Fits shift n [] = Unit
Fits shift n (write start cnt ∷ es) =
    IsRange start cnt × (block_at shift (start + cnt - 1) < n) × Fits shift n es
Fits shift n (snapshot _ ∷ es) = Fits shift n es

-- Some write of the list touches the block.
abbrev pub touched : (shift : ℕ) → List Event → ℕ → Bool
touched shift [] j = false
touched shift (write start cnt ∷ es) j =
    (leb (block_at shift start) j && leb j (block_at shift (start + cnt - 1))) || touched shift es j
touched shift (snapshot _ ∷ es) j = touched shift es j

-- A map after events of one generation.
pub record Later (k : ℕ) (c : CbtMap) (es : List Event) (c' : CbtMap) : Type 0 where
  valid : IsValid c'
  clean : c'.is_corrupted ≡ false
  shift : c'.blk_size_shift ≡ c.blk_size_shift
  count : c'.blk_count ≡ c.blk_count
  generation : c'.generation_id ≡ c.generation_id
  active : c'.snap_number_active ≡ c.snap_number_active + snapshots es
  above :
      (j : ℕ)
      → j < c.blk_count
      → ltb k (byte c'.write_map j) ≡ (ltb k (byte c.write_map j) || touched c.blk_size_shift es j)

Later-write :
    (k : ℕ) (c : CbtMap) (start cnt : ℕ) (es : List Event) (c' : CbtMap) (v : IsValid c)
    → IsRange start cnt
    → k < c.snap_number_active
    → Later k (set_result c start cnt v.write_bytes) es c'
    → Later k c (write start cnt ∷ es) c'
Later-write k c start cnt es c' v r h l = record {
  valid = l.valid;
  clean = l.clean;
  shift = l.shift;
  count = l.count;
  generation = l.generation;
  active = l.active;
  above = λ j inside. ground (
    arith,
    l.above j,
    v.write_is,
    get_or-raised c start cnt c.snap_number_active j v.write_bytes r (omega (arith, v.write_size)),
  );
}

Later-snapshot :
    (k : ℕ) (c : CbtMap) (uuid : ℕ) (es : List Event) (c' : CbtMap) (v : IsValid c)
    → Later k (advanced c v.write_bytes) es c'
    → Later k c (snapshot uuid ∷ es) c'
Later-snapshot k c uuid es c' v l = record {
  valid = l.valid;
  clean = l.clean;
  shift = l.shift;
  count = l.count;
  generation = l.generation;
  active = omega (arith, l.active);
  above = λ j inside. l.above j inside;
}

run-Later :
    (es : List Event) (k : ℕ) (c : CbtMap)
    → IsValid c
    → c.is_corrupted ≡ false
    → k < c.snap_number_active
    → c.snap_number_active + snapshots es < 256
    → Fits c.blk_size_shift c.blk_count es
    → (c' : CbtMap) × (run c es ≡ some c') × Later k c es c'
unfolding run
run-Later [] k c v clean h room fits = (
  c,
  refl,
  record {
    valid = v;
    clean = clean;
    shift = refl;
    count = refl;
    generation = refl;
    active = omega arith;
    above = λ j inside. ground arith;
  },
)
run-Later (write start cnt ∷ es) k c v clean h room (r, inside, fits) =
    let next = set_result c start cnt v.write_bytes in
    let (c', ran, l) =
      run-Later es k next (set_result-IsValid c start cnt v r) (ground arith) h room fits in
    (
      c',
      ground (arith, cbt_map_set-eq c start cnt v clean r, ran),
      Later-write k c start cnt es c' v r h l,
    )
run-Later (snapshot uuid ∷ es) k c v clean h room fits =
    let small : c.snap_number_active < 255 = omega arith in
    let (c', ran, l) =
      run-Later es k (advanced c v.write_bytes) (advanced-IsValid c v small) clean (omega arith)
        (omega arith) fits in
    (c', rw (switch-advanced uuid c v small, run) ran, Later-snapshot k c uuid es c' v l)

-- Take a valid map that is not corrupted, a snapshot, then events of which every write ends in the
-- table, and one more snapshot, all before the change number reaches 255. Each step succeeds, the
-- generation stays one, and in the table that is then read the blocks above the number reported at
-- the first snapshot are exactly the blocks that the events between the two snapshots wrote.
pub changed_since :
    (c₀ : CbtMap) (u₁ u₂ : ℕ) (es : List Event)
    → IsValid c₀
    → c₀.is_corrupted ≡ false
    → c₀.snap_number_active + 1 + snapshots es < 255
    → Fits c₀.blk_size_shift c₀.blk_count es
    → (c c₁ c₂ : CbtMap) × (cbt_map_switch u₁ c₀ ≡ some c)
      × (run c es ≡ some c₁)
      × (cbt_map_switch u₂ c₁ ≡ some c₂)
      × (c₂.generation_id ≡ c.generation_id)
      × ((j : ℕ)
          → j < c₀.blk_count
          → ltb c.snap_number_previous (byte c₂.read_map j) ≡ touched c₀.blk_size_shift es j)
changed_since c₀ u₁ u₂ es v clean room fits =
    let small : c₀.snap_number_active < 255 = omega arith in
    let c = advanced c₀ v.write_bytes in
    let (c₁, ran, l) =
      run-Later es c₀.snap_number_active c (advanced-IsValid c₀ v small) clean (omega arith)
        (omega arith) fits in
    (
      c,
      c₁,
      advanced c₁ l.valid.write_bytes,
      switch-advanced u₁ c₀ v small,
      ran,
      switch-advanced u₂ c₁ l.valid (omega (arith, l.active)),
      l.generation,
      λ j inside. ground (arith, l.above j inside, l.valid.write_is, v.write_le j),
    )

-- At the change number 255 a snapshot starts a new generation and reports the number 255. Whatever
-- is written after it, the table read at a later snapshot of that generation holds no byte above
-- the reported number: none of the blocks written since shows as changed.
pub restart_hides_changes :
    (c₀ : CbtMap) (u₁ u₂ : ℕ) (es : List Event)
    → IsValid c₀
    → c₀.is_corrupted ≡ false
    → c₀.snap_number_active ≡ 255
    → snapshots es < 254
    → Fits c₀.blk_size_shift c₀.blk_count es
    → (c c₁ c₂ : CbtMap) × (cbt_map_switch u₁ c₀ ≡ some c)
      × (c.generation_id ≡ u₁)
      × (c.snap_number_previous ≡ 255)
      × (run c es ≡ some c₁)
      × (cbt_map_switch u₂ c₁ ≡ some c₂)
      × (c₂.generation_id ≡ c.generation_id)
      × ((j : ℕ) → ltb c.snap_number_previous (byte c₂.read_map j) ≡ false)
restart_hides_changes c₀ u₁ u₂ es v clean full room fits =
    let c = restarted u₁ c₀ in
    let (c₁, ran, l) =
      run-Later es 0 c (restarted-IsValid u₁ c₀ v full) clean (omega arith) (omega arith) fits in
    let v₂ = advanced-IsValid c₁ l.valid (omega (arith, l.active)) in
    (
      c,
      c₁,
      advanced c₁ l.valid.write_bytes,
      switch-restarted u₁ c₀ v full,
      refl,
      full,
      ran,
      switch-advanced u₂ c₁ l.valid (omega (arith, l.active)),
      l.generation,
      λ j. ground (arith, v₂.read_le j, l.valid.active_byte, full),
    )
