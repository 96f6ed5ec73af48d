-- ===== src/Tracker/Take.antt =====
-- How a tracker (module/tracker.c) takes a snapshot: the map starts a new number, or a new generation.
use native.Mathlib.Decide.{dec_lt}
use blksnap.Prelude.{
  ℕ, ◌≤◌, ◌≡◌, ◌⊎◌, refl, ap, ◌∙◌, inl, inr, Bool, true, false, not, ◌&&◌, ◌||◌, none, some, arith,
  ◌==◌, if◌then◌else◌, Bool-cases,
}
use blksnap.Kernel.{Ret, ok, err, enomem, Rounding, default_params}
use blksnap.Cbt.{CbtMap, Memory, cbt_map_reset, cbt_map_switch}
use blksnap.Cbt.Inv.{IsValid}
use blksnap.Cbt.Ops.{
  advanced, restarted, switch-advanced, switch-restarted, advanced-IsValid, restarted-IsValid,
}
use blksnap.Cbt.Size.{reset_lem, max_capacity}
use blksnap.Area.Data.{DiffArea}
use blksnap.Tracker.{Tracker, tracker_take_snapshot}

-- A valid map is switched to the next number.
switch-IsValid :
    (uuid : ℕ) (c : CbtMap)
    → IsValid c
    → (c' : CbtMap) × (cbt_map_switch uuid c ≡ some c')
      × IsValid c'
      × (c'.is_corrupted ≡ c.is_corrupted)
      × (c'.device_capacity ≡ c.device_capacity)
      × (c'.snap_number_previous ≡ c.snap_number_active)
switch-IsValid uuid c v = elim (dec_lt c.snap_number_active 255) [
  | yes below ↦ (
    advanced c v.write_bytes,
    switch-advanced uuid c v below,
    advanced-IsValid c v below,
    refl,
    refl,
    refl,
  )
  | no above ↦
      let last : c.snap_number_active ≡ 255 = omega (arith, v.active_byte, above) in
      (
        restarted uuid c,
        switch-restarted uuid c v last,
        restarted-IsValid uuid c v last,
        refl,
        refl,
        refl,
      )
]

module _ (K : Rounding) (m : Memory) (uuid cap : ℕ) (t : Tracker) (c : CbtMap) where
  -- The map needs no reset.
  abbrev pub intact : Bool
  intact = not c.is_corrupted && c.device_capacity == cap

  -- The snapshot is taken, and the queue runs.
  abbrev pub Taken : Ret → Tracker → Bool → Type 0
  Taken ret t' frozen =
      (ret ≡ ok)
      × (t'.snapshot_is_taken ≡ true)
      × (t'.diff_area ≡ t.diff_area)
      × (frozen ≡ false)
      × ((c' : CbtMap) × (t'.cbt_map ≡ some c')
          × IsValid c'
          × (c'.is_corrupted ≡ false)
          × (c'.device_capacity ≡ cap)
          × (intact ≡ true → c'.snap_number_previous ≡ c.snap_number_active))

  -- The tables are gone, the queue stays frozen, and nothing else changed.
  abbrev pub Refused : Ret → Tracker → Bool → Type 0
  Refused ret t' frozen =
      (ret ≡ err enomem)
      × (m.read_ok && m.write_ok ≡ false)
      × (intact ≡ false)
      × (frozen ≡ true)
      × ((c' : CbtMap) × (t' ≡ record t { cbt_map = some c' })
          × (c'.read_map ≡ none)
          × (c'.write_map ≡ none))

  pub take_switched :
      (a : DiffArea) (c' : CbtMap)
      → t.diff_area ≡ some a
      → t.cbt_map ≡ some c
      → (if c.is_corrupted || not (c.device_capacity == cap)
          then cbt_map_reset K default_params m c cap
          else some (ok, c))
        ≡ some (ok, c')
      → (c'' : CbtMap) → cbt_map_switch uuid c' ≡ some c''
      → tracker_take_snapshot K default_params m uuid cap t
        ≡ some (ok, record t { cbt_map = some c''; snapshot_is_taken = true }, false)
  unfolding tracker_take_snapshot
  take_switched a c' has is reset c'' switched = ground (arith, has, is, reset, switched)

  pub take_stopped :
      (a : DiffArea) (c' : CbtMap)
      → t.diff_area ≡ some a
      → t.cbt_map ≡ some c
      → (if c.is_corrupted || not (c.device_capacity == cap)
          then cbt_map_reset K default_params m c cap
          else some (ok, c))
        ≡ some (err enomem, c')
      → tracker_take_snapshot K default_params m uuid cap t
        ≡ some (err enomem, record t { cbt_map = some c' }, true)
  unfolding tracker_take_snapshot
  take_stopped a c' has is reset = ground (arith, has, is, reset)

-- A tracker with an area and a valid map takes a snapshot of a device that has now `cap` sectors, at
-- most 2^64 - 2^55. If the map is not corrupted and has the size of the device, or memory for
-- two new tables is there, the call succeeds: the snapshot is taken, the queue runs again, and the
-- map is valid, not corrupted and of the size of the device; without a reset it reports the number
-- that was active. Else the call fails with ENOMEM: the tracker has a map whose two tables are null, is
-- otherwise as it was, and its queue stays frozen.
pub take_snapshot_lem :
    (K : Rounding) (m : Memory) (uuid cap : ℕ) (t : Tracker) (c : CbtMap) (a : DiffArea)
    → cap ≤ max_capacity
    → t.diff_area ≡ some a
    → t.cbt_map ≡ some c
    → IsValid c
    → (ret : Ret) × (t' : Tracker) × (frozen : Bool) × (tracker_take_snapshot K default_params m
          uuid cap t
        ≡ some (ret, t', frozen))
      × (Taken K m uuid cap t c ret t' frozen ⊎ Refused K m uuid cap t c ret t' frozen)
take_snapshot_lem K m uuid cap t c a small has is v = elim (Bool-cases (intact K m uuid cap t c)) [
  | inl whole ↦
      let reset : (if c.is_corrupted || not (c.device_capacity == cap)
            then cbt_map_reset K default_params m c cap
            else some (ok, c))
          ≡ some (ok, c) =
        ground (arith, whole) in
      let (c', switched, v', clean, sized, number) = switch-IsValid uuid c v in
      (
        ok,
        record t { cbt_map = some c'; snapshot_is_taken = true },
        false,
        take_switched K m uuid cap t c a c has is reset c' switched,
        inl (
          refl,
          refl,
          refl,
          refl,
          (c', refl, v', ground (arith, whole, clean), ground (arith, whole, sized), λ _. number),
        ),
      )
  | inr stale ↦
      let (ret, c', done, clean, sized, _, good, bad) = reset_lem K m cap small c in
      let reset : (if c.is_corrupted || not (c.device_capacity == cap)
            then cbt_map_reset K default_params m c cap
            else some (ok, c))
          ≡ some (ret, c') =
        ground (arith, stale, done) in
      elim (Bool-cases (m.read_ok && m.write_ok)) [
        | inl memory ↦
            let (ret_ok, v', _, _) = good memory in
            let (c'', switched, v'', clean', sized', number) = switch-IsValid uuid c' v' in
            (
              ok,
              record t { cbt_map = some c''; snapshot_is_taken = true },
              false,
              take_switched K m uuid cap t c a c' has is (reset ∙ ap (λ r. some (r, c')) ret_ok) c''
                  switched,
              inl (
                refl,
                refl,
                refl,
                refl,
                (
                  c'',
                  refl,
                  v'',
                  clean' ∙ clean,
                  sized' ∙ sized,
                  λ whole. ground (arith, whole, stale),
                ),
              ),
            )
        | inr no_memory ↦
            let (ret_err, null_read, null) = bad no_memory in
            (
              err enomem,
              record t { cbt_map = some c' },
              true,
              take_stopped K m uuid cap t c a c' has is (reset ∙ ap (λ r. some (r, c')) ret_err),
              inr (refl, no_memory, stale, refl, (c', refl, null_read, null)),
            )
      ]
]
