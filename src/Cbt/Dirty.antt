-- ===== src/Cbt/Dirty.antt =====
-- `cbt_map_mark_dirty_blocks` of module/cbt_map.c against the set of blocks that its ranges touch.
use blksnap.Prelude.{
  ℕ, ◌<◌, max, ◌≡◌, refl, ap, ◌∙◌, inl, inr, Bool, true, false, ◌&&◌, ◌||◌, some, List, [], ◌∷◌,
  arith, ltb, if◌then◌else◌, Bool-cases, if_true, if_false,
}
use blksnap.Kernel.{Ret, ok, err, einval}
use blksnap.Cbt.{CbtMap, cbt_map_mark_dirty_blocks}
use blksnap.Cbt.Inv.{byte, IsValid, IsRange, last_block, covers, get_or-raised}
use blksnap.Cbt.Ops.{both_result, cbt_map_set_both-eq, both_result-IsValid}

-- Every range of a list is not empty and does not wrap.
abbrev pub AreRanges : List (ℕ × ℕ) → Type 0
AreRanges [] = Unit
AreRanges ((start, cnt) ∷ ranges) = IsRange start cnt × AreRanges ranges

-- Some range of the list touches the block; every range of it ends in the table.
abbrev pub covered : CbtMap → List (ℕ × ℕ) → ℕ → Bool
covered c [] j = false
covered c ((start, cnt) ∷ ranges) j = covers c start cnt j || covered c ranges j

abbrev pub all_fit : CbtMap → List (ℕ × ℕ) → Bool
all_fit c [] = true
all_fit c ((start, cnt) ∷ ranges) = ltb (last_block c start cnt) c.blk_count && all_fit c ranges

-- What marking leaves: a valid map with the same change numbers, success exactly if every range
-- ends in the table, and then, in both tables, a raised byte for exactly the blocks touched.
pub record MarkedDirty (c : CbtMap) (ranges : List (ℕ × ℕ)) (out : Ret × CbtMap) : Type 0 where
  pub valid : IsValid out.1
  pub same_active : out.1.snap_number_active ≡ c.snap_number_active
  pub same_previous : out.1.snap_number_previous ≡ c.snap_number_previous
  pub ret : out.0 ≡ (if all_fit c ranges then ok else err einval)
  pub written :
      (j : ℕ)
      → all_fit c ranges ≡ true
      → j < c.blk_count
      → byte out.1.write_map j ≡ (
          if covered c ranges j
          then max (byte c.write_map j) c.snap_number_active
          else byte c.write_map j)
  pub readable :
      (j : ℕ)
      → all_fit c ranges ≡ true
      → j < c.blk_count
      → byte out.1.read_map j ≡ (
          if covered c ranges j
          then max (byte c.read_map j) c.snap_number_previous
          else byte c.read_map j)

both-eq-some :
    (c : CbtMap) (start cnt : ℕ) (ranges : List (ℕ × ℕ)) (v : IsValid c)
    → c.is_corrupted ≡ false
    → IsRange start cnt
    → let c' = both_result c start cnt v.read_bytes v.write_bytes in
      cbt_map_mark_dirty_blocks c ((start, cnt) ∷ ranges) ≡ (
        if ltb (last_block c start cnt) c.blk_count
        then cbt_map_mark_dirty_blocks c' ranges
        else some (err einval, c'))
unfolding cbt_map_mark_dirty_blocks
both-eq-some c start cnt ranges v clean r =
    ground (arith, cbt_map_set_both-eq c start cnt v clean r)

-- The tables' content has no part in which blocks a range touches.
all_fit-both_result :
    (c : CbtMap) (start cnt : ℕ) (r w : List ℕ) (ranges : List (ℕ × ℕ))
    → all_fit (both_result c start cnt r w) ranges ≡ all_fit c ranges
all_fit-both_result c start cnt r w [] = refl
all_fit-both_result c start cnt r w ((s, n) ∷ ranges) =
    ap (λ b. ltb (last_block c s n) c.blk_count && b) (all_fit-both_result c start cnt r w ranges)

covered-both_result :
    (c : CbtMap) (start cnt : ℕ) (r w : List ℕ) (ranges : List (ℕ × ℕ)) (j : ℕ)
    → covered (both_result c start cnt r w) ranges j ≡ covered c ranges j
covered-both_result c start cnt r w [] j = refl
covered-both_result c start cnt r w ((s, n) ∷ ranges) j =
    ap (λ b. covers c s n j || b) (covered-both_result c start cnt r w ranges j)

-- One range marked, then the rest.
MarkedDirty-cons :
    (c : CbtMap) (start cnt : ℕ) (ranges : List (ℕ × ℕ)) (v : IsValid c)
    → IsRange start cnt
    → ltb (last_block c start cnt) c.blk_count ≡ true
    → (out : Ret × CbtMap)
    → MarkedDirty (both_result c start cnt v.read_bytes v.write_bytes) ranges out
    → MarkedDirty c ((start, cnt) ∷ ranges) out
MarkedDirty-cons c start cnt ranges v r fits out m =
    let fit = all_fit-both_result c start cnt v.read_bytes v.write_bytes ranges in
    record {
      valid = m.valid;
      same_active = m.same_active;
      same_previous = m.same_previous;
      ret = ground (arith, fit);
      written = λ j all inside. ground (
        arith,
        fit,
        m.written j,
        v.write_is,
        covered-both_result c start cnt v.read_bytes v.write_bytes ranges j,
        get_or-raised c start cnt c.snap_number_active j v.write_bytes r
            (omega (arith, v.write_size)),
      );
      readable = λ j all inside. ground (
        arith,
        fit,
        m.readable j,
        v.read_is,
        covered-both_result c start cnt v.read_bytes v.write_bytes ranges j,
        get_or-raised c start cnt c.snap_number_previous j v.read_bytes r
            (omega (arith, v.read_size)),
      );
    }

-- `cbt_map_mark_dirty_blocks` on a valid map that is not corrupted, for ranges that are not empty
-- and do not wrap, returns and leaves a valid map with the same change numbers. It succeeds exactly
-- if every range ends in the table; then it raises the bytes of exactly the blocks that some range
-- touches, to the current change number in the table that is written and to the previous one in the
-- table that is read.
pub mark_dirty_blocks_lem :
    (ranges : List (ℕ × ℕ)) (c : CbtMap)
    → IsValid c
    → c.is_corrupted ≡ false
    → AreRanges ranges
    → (out : Ret × CbtMap) × (cbt_map_mark_dirty_blocks c ranges ≡ some out)
      × MarkedDirty c ranges out
unfolding cbt_map_mark_dirty_blocks
mark_dirty_blocks_lem [] c v clean rs = (
  (ok, c),
  refl,
  record {
    valid = v;
    same_active = refl;
    same_previous = refl;
    ret = refl;
    written = λ j _ _. refl;
    readable = λ j _ _. refl;
  },
)
mark_dirty_blocks_lem ((start, cnt) ∷ ranges) c v clean (r, rs) =
    let c' = both_result c start cnt v.read_bytes v.write_bytes in
    let v' = both_result-IsValid c start cnt v r in
    let step = both-eq-some c start cnt ranges v clean r in
    elim (Bool-cases (ltb (last_block c start cnt) c.blk_count)) [
      | inl fits ↦
          let (out, run, m) = mark_dirty_blocks_lem ranges c' v' clean rs in
          (
            out,
            step ∙ (if_true _ _ _ fits ∙ run),
            MarkedDirty-cons c start cnt ranges v r fits out m,
          )
      | inr past ↦ (
        (err einval, c'),
        step ∙ if_false _ _ _ past,
        record {
          valid = v';
          same_active = refl;
          same_previous = refl;
          ret = rw past;
          written = λ j all _. ground arith;
          readable = λ j all _. ground arith;
        },
      )
    ]
