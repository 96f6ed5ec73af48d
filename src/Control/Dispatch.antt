-- ===== src/Control/Dispatch.antt =====
-- The table of calls in module/main.c and `ctrl_unlocked_ioctl`.
use blksnap.Prelude.{
  ℕ, zero, suc, ◌+◌, ◌-◌, ◌<◌, ◌≡◌, ltb, leb, refl, inl, inr, false, ◌&&◌, Option, none, some, List,
  [], ◌∷◌, length, get_elem?, arith, if◌then◌else◌, Option-cases, lt→ltb,
}
use blksnap.Kernel.{enodata, enotty, ok, err}
use blksnap.Snapshot.Store.{Store, Environment, returns, faults, pure}
use blksnap.Control.{
  Argument, Copies, nothing, modification, Handler, fails, ioctl_version, ioctl_tracker_remove,
  ioctl_tracker_collect, ioctl_tracker_read_cbt_map, ioctl_tracker_mark_dirty_blocks,
}
use blksnap.Control.Snapshots.{
  ioctl_snapshot_create, ioctl_snapshot_destroy, ioctl_snapshot_append_storage, ioctl_snapshot_take,
  ioctl_snapshot_wait_event, ioctl_snapshot_collect, ioctl_snapshot_collect_images,
}

abbrev pub blk_snap_ioctl_table : List Handler
blk_snap_ioctl_table =
    ioctl_version ∷ ioctl_tracker_remove ∷ ioctl_tracker_collect ∷ ioctl_tracker_read_cbt_map
    ∷ ioctl_tracker_mark_dirty_blocks ∷ ioctl_snapshot_create ∷ ioctl_snapshot_destroy
    ∷ ioctl_snapshot_append_storage ∷ ioctl_snapshot_take ∷ ioctl_snapshot_collect
    ∷ ioctl_snapshot_collect_images ∷ ioctl_snapshot_wait_event ∷ []

pub ioctl_mod : Handler
ioctl_mod e k a = if k.argument_out then pure (ok, modification) else fails enodata

-- In the build without BLK_SNAP_DEBUG_SECTOR_STATE.
ioctl_get_sector_state : Handler
ioctl_get_sector_state e k a = fails enotty

abbrev ioctl_mod_first : ℕ
ioctl_mod_first = 32

module _ (ioctl_setlog : Handler) where
  -- `ioctl_setlog` restarts the log, which is not modelled.
  abbrev blk_snap_ioctl_table_mod : List Handler
  blk_snap_ioctl_table_mod = ioctl_mod ∷ ioctl_setlog ∷ ioctl_get_sector_state ∷ []

  -- The entry of the main table; `none` is a read past its end.
  main_entry : ℕ → Option Handler
  main_entry nr = get_elem? blk_snap_ioctl_table nr

  mod_entry : ℕ → Option Handler
  mod_entry nr =
      if leb ioctl_mod_first nr && ltb nr (ioctl_mod_first + length blk_snap_ioctl_table_mod)
      then get_elem? blk_snap_ioctl_table_mod (nr - ioctl_mod_first)
      else none

  -- `nr` is the number of the command.
  pub ctrl_unlocked_ioctl : (nr : ℕ) → Handler
  unfolding main_entry mod_entry
  ctrl_unlocked_ioctl nr e k a =
      if ltb (length blk_snap_ioctl_table) nr
      then elim (mod_entry nr) [ none ↦ fails enotty | some handler ↦ handler e k a ]
      else elim (main_entry nr) [ none ↦ λ st. faults | some handler ↦ handler e k a ]

  main_entry_some :
      (nr : ℕ) → nr < 12 → (handler : Handler) × (get_elem? blk_snap_ioctl_table nr ≡ some handler)
  main_entry_some nr h = elim (Option-cases (get_elem? blk_snap_ioctl_table nr)) [
    | inl missing ↦ absurd (short blk_snap_ioctl_table nr missing h)
    | inr found ↦ found
  ]
    where
      short : (l : List Handler) (n : ℕ) → get_elem? l n ≡ none → n < length l → ⊥
      short [] n e lt = elim lt [ ]
      short (x ∷ xs) zero e lt = cc
      short (x ∷ xs) (suc n) e lt = short xs n e (omega arith)

  -- The call of a command number below 12 is that of its entry of the table. The number 12 passes the
  -- test of the length and reads beyond the table. The numbers from 32 to 34 are those of the second
  -- table, and every other number gives ENOTTY.
  pub dispatch_lem :
      (nr : ℕ) (e : Environment) (k : Copies) (a : Argument) (st : Store)
      → (nr < 12
          → (handler : Handler) × (get_elem? blk_snap_ioctl_table nr ≡ some handler)
            × (ctrl_unlocked_ioctl nr e k a st ≡ handler e k a st))
        × (nr ≡ 12 → ctrl_unlocked_ioctl nr e k a st ≡ faults)
        × (nr ≡ 32 → ctrl_unlocked_ioctl nr e k a st ≡ ioctl_mod e k a st)
        × (nr ≡ 33 → ctrl_unlocked_ioctl nr e k a st ≡ ioctl_setlog e k a st)
        × (nr ≡ 34 → ctrl_unlocked_ioctl nr e k a st ≡ returns (err enotty, nothing) st)
        × (12 < nr → nr < 32 → ctrl_unlocked_ioctl nr e k a st ≡ returns (err enotty, nothing) st)
        × (34 < nr → ctrl_unlocked_ioctl nr e k a st ≡ returns (err enotty, nothing) st)
  unfolding ctrl_unlocked_ioctl main_entry mod_entry ioctl_get_sector_state
  dispatch_lem nr e k a st = (
    λ small.
        let (handler, is) = main_entry_some nr small in
        (
          handler,
          is,
          (let in_table : ltb 12 nr ≡ false = ground arith in ground (arith, in_table, is)),
        ),
    λ past. rw past refl,
    λ is. rw is refl,
    λ is. rw is refl,
    λ is. rw is refl,
    λ above below.
        (let first : leb 32 nr ≡ false = ground arith in ground (arith, lt→ltb 12 nr above, first)),
    λ above.
        (let last : ltb nr 35 ≡ false = ground arith in
          ground (arith, lt→ltb 12 nr (omega arith), last)),
  )
