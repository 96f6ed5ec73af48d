-- ===== src/Cbt/Ops.antt =====
-- The other operations of module/cbt_map.c: each returns, and keeps the invariant of the map.
use mathlib.Core.List.{append-nil}
use blksnap.Prelude.{
  ℕ, ◌+◌, ◌≤◌, ◌<◌, ◌≡◌, refl, ◌∙◌, Bool, true, false, some, List, arith, ltb, if◌then◌else◌,
  get_or, length, replicate, length-replicate, get_or-replicate, take_all, drop_all,
}
use blksnap.Kernel.{ok, err, einval, u8, add64}
use blksnap.Cbt.{CbtMap, cbt_map_switch, cbt_map_set_both, memcpy, memset}
use blksnap.Cbt.Inv.{
  IsValid, IsRange, last_block, raised, length-raised, raised-le, write_bytes-le, read_bytes-le,
  set_map_lem,
}

memcpy_all : (n : ℕ) (dst src : List ℕ) → length dst ≡ n → length src ≡ n → memcpy dst src n ≡ src
memcpy_all n dst src d s = rw (take_all n src s, drop_all n dst d) (append-nil src)

memset_all : (n v : ℕ) (dst : List ℕ) → length dst ≡ n → memset dst v n ≡ replicate n v
memset_all n v dst d = rw (drop_all n dst d) (append-nil (replicate n v))

-- The map that a switch leaves below the change number 255, and at it.
abbrev pub advanced : CbtMap → List ℕ → CbtMap
advanced c w = record c {
  snap_number_previous = c.snap_number_active;
  snap_number_active = c.snap_number_active + 1;
  read_map = some w;
}

abbrev pub restarted : ℕ → CbtMap → CbtMap
restarted uuid c = record c {
  snap_number_previous = c.snap_number_active;
  snap_number_active = 1;
  write_map = some (replicate c.blk_count 0);
  generation_id = uuid;
}

pub switch-advanced :
    (uuid : ℕ) (c : CbtMap) (v : IsValid c)
    → c.snap_number_active < 255
    → cbt_map_switch uuid c ≡ some (advanced c v.write_bytes)
unfolding cbt_map_switch
switch-advanced uuid c v h =
    let next : add64 c.snap_number_active 1 ≡ c.snap_number_active + 1 = omega arith in
    rw
      (
        v.write_is,
        v.read_is,
        next,
        memcpy_all c.blk_count v.read_bytes v.write_bytes v.read_size v.write_size,
      )
      (ground arith)

pub switch-restarted :
    (uuid : ℕ) (c : CbtMap) (v : IsValid c)
    → c.snap_number_active ≡ 255
    → cbt_map_switch uuid c ≡ some (restarted uuid c)
unfolding cbt_map_switch
switch-restarted uuid c v h =
    rw (v.write_is, h, memset_all c.blk_count 0 v.write_bytes v.write_size) (ground arith)

pub advanced-IsValid :
    (c : CbtMap) (v : IsValid c) → c.snap_number_active < 255 → IsValid (advanced c v.write_bytes)
advanced-IsValid c v h = record {
  read_bytes = v.write_bytes;
  write_bytes = v.write_bytes;
  read_is = refl;
  write_is = v.write_is;
  read_size = v.write_size;
  write_size = v.write_size;
  active_pos = omega arith;
  active_byte = omega arith;
  previous_byte = v.active_byte;
  write_le = λ j. omega (arith, v.write_le j);
  read_le = write_bytes-le v;
}

pub restarted-IsValid :
    (uuid : ℕ) (c : CbtMap) (v : IsValid c)
    → c.snap_number_active ≡ 255
    → IsValid (restarted uuid c)
restarted-IsValid uuid c v h = record {
  read_bytes = v.read_bytes;
  write_bytes = replicate c.blk_count 0;
  read_is = v.read_is;
  write_is = refl;
  read_size = v.read_size;
  write_size = length-replicate c.blk_count 0;
  active_pos = omega arith;
  active_byte = omega arith;
  previous_byte = v.active_byte;
  write_le = λ j. omega (arith, get_or-replicate {A = ℕ} c.blk_count j 0);
  read_le = λ j. omega (arith, v.read_le j, v.previous_byte);
}

-- The map that `cbt_map_set_both` leaves: the read table changes only where the range fits.
abbrev pub both_result : CbtMap → ℕ → ℕ → List ℕ → List ℕ → CbtMap
both_result c start cnt r w = record c {
  write_map = some (raised c start cnt c.snap_number_active w);
  read_map = some (
      if ltb (last_block c start cnt) c.blk_count
      then raised c start cnt c.snap_number_previous r
      else r);
}

pub cbt_map_set_both-eq :
    (c : CbtMap) (start cnt : ℕ) (v : IsValid c)
    → c.is_corrupted ≡ false
    → IsRange start cnt
    → cbt_map_set_both c start cnt
      ≡ some (
        if ltb (last_block c start cnt) c.blk_count then ok else err einval,
        both_result c start cnt v.read_bytes v.write_bytes,
      )
unfolding cbt_map_set_both
cbt_map_set_both-eq c start cnt v clean r =
    let active : u8 c.snap_number_active ≡ c.snap_number_active = omega arith in
    let previous : u8 c.snap_number_previous ≡ c.snap_number_previous =
      omega (arith, v.previous_byte) in
    rw (v.write_is, v.read_is)
      (ground (
        arith,
        set_map_lem c start cnt c.snap_number_active v.write_bytes r v.write_size,
        set_map_lem c start cnt c.snap_number_previous v.read_bytes r v.read_size,
      ))

both_read_size :
    (c : CbtMap) (start cnt : ℕ) (v : IsValid c) (b : Bool)
    → length (if b then raised c start cnt c.snap_number_previous v.read_bytes else v.read_bytes)
      ≡ c.blk_count
both_read_size c start cnt v true =
    length-raised c start cnt c.snap_number_previous v.read_bytes ∙ v.read_size
both_read_size c start cnt v false = v.read_size

both_read_le :
    (c : CbtMap) (start cnt : ℕ) (v : IsValid c) (b : Bool)
    → IsRange start cnt
    → (j : ℕ)
    → get_or
        (if b then raised c start cnt c.snap_number_previous v.read_bytes else v.read_bytes)
        j
        0
      ≤ c.snap_number_previous
both_read_le c start cnt v true r j =
    raised-le c start cnt c.snap_number_previous v.read_bytes r (read_bytes-le v) j
both_read_le c start cnt v false r j = read_bytes-le v j

pub both_result-IsValid :
    (c : CbtMap) (start cnt : ℕ) (v : IsValid c)
    → IsRange start cnt
    → IsValid (both_result c start cnt v.read_bytes v.write_bytes)
both_result-IsValid c start cnt v r =
    let fits = ltb (last_block c start cnt) c.blk_count in
    record {
      read_bytes =
          if fits then raised c start cnt c.snap_number_previous v.read_bytes else v.read_bytes;
      write_bytes = raised c start cnt c.snap_number_active v.write_bytes;
      read_is = refl;
      write_is = refl;
      read_size = both_read_size c start cnt v fits;
      write_size = length-raised c start cnt c.snap_number_active v.write_bytes ∙ v.write_size;
      active_pos = v.active_pos;
      active_byte = v.active_byte;
      previous_byte = v.previous_byte;
      write_le = raised-le c start cnt c.snap_number_active v.write_bytes r (write_bytes-le v);
      read_le = both_read_le c start cnt v fits r;
    }
