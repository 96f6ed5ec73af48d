-- ===== src/Cbt/Marks.antt =====
-- What `_cbt_map_set` of module/cbt_map.c writes: the blocks of its range, and no other byte.
use blksnap.Prelude.{
  ℕ, zero, suc, ◌+◌, ◌≤◌, ◌<◌, max, ◌≡◌, refl, ap, ◌∙◌, inl, inr, ◌&&◌, some, List, [], ◌∷◌, arith,
  ltb, leb, ◌==◌, if◌then◌else◌, Bool-cases, leb→le, get_or, set, length, length-set,
  get_or-set_self, get_or-set_ne,
}
use blksnap.Kernel.{Ret, ok, err, einval}
use blksnap.Cbt.{raise, set_loop}

set-ge : (xs : List ℕ) (i v : ℕ) → length xs ≤ i → set xs i v ≡ xs
set-ge [] i v h = refl
set-ge (x ∷ xs) zero v h = absurd (omega arith)
set-ge (x ∷ xs) (suc i) v h = ap (λ l. x ∷ l) (set-ge xs i v (omega arith))

pub get_or-ge : (xs : List ℕ) (i d : ℕ) → length xs ≤ i → get_or xs i d ≡ d
get_or-ge [] i d h = refl
get_or-ge (x ∷ xs) zero d h = absurd (omega arith)
get_or-ge (x ∷ xs) (suc i) d h = get_or-ge xs i d (omega arith)

pub length-raise : (bytes : List ℕ) (i s : ℕ) → length (raise bytes i s) ≡ length bytes
unfolding raise
length-raise bytes i s = ground (arith, length-set bytes i s)

raise-ge : (bytes : List ℕ) (i s : ℕ) → length bytes ≤ i → raise bytes i s ≡ bytes
unfolding raise
raise-ge bytes i s h = ground (arith, set-ge bytes i s h)

get_or-raise :
    (bytes : List ℕ) (i s j : ℕ)
    → i < length bytes
    → get_or (raise bytes i s) j 0 ≡ (if i == j then max (get_or bytes j 0) s else get_or bytes j 0)
unfolding raise
get_or-raise bytes i s j h =
    ground (arith, get_or-set_self bytes i s 0 h, get_or-set_ne bytes i j s 0)

-- The bytes after the loop, with no test of the bound.
pub raise_range : (rounds inx snap_number : ℕ) → List ℕ → List ℕ
raise_range zero inx s bytes = bytes
raise_range (suc rounds) inx s bytes = raise_range rounds (inx + 1) s (raise bytes inx s)

pub length-raise_range :
    (rounds inx s : ℕ) (bytes : List ℕ) → length (raise_range rounds inx s bytes) ≡ length bytes
unfolding raise_range
length-raise_range zero inx s bytes = refl
length-raise_range (suc rounds) inx s bytes =
    length-raise_range rounds (inx + 1) s (raise bytes inx s) ∙ length-raise bytes inx s

raise_range-ge :
    (rounds inx s : ℕ) (bytes : List ℕ)
    → length bytes ≤ inx
    → raise_range rounds inx s bytes ≡ bytes
unfolding raise_range
raise_range-ge zero inx s bytes h = refl
raise_range-ge (suc rounds) inx s bytes h =
    let same = raise-ge bytes inx s h in
    rw same (raise_range-ge rounds (inx + 1) s bytes (omega arith))

pub get_or-raise_range :
    (rounds inx s j : ℕ) (bytes : List ℕ)
    → j < length bytes
    → get_or (raise_range rounds inx s bytes) j 0
      ≡ (if leb inx j && ltb j (inx + rounds) then max (get_or bytes j 0) s else get_or bytes j 0)
unfolding raise_range
get_or-raise_range zero inx s j bytes h = ground arith
get_or-raise_range (suc rounds) inx s j bytes h = elim (Bool-cases (leb (length bytes) inx)) [
  | inl out ↦
      let same = raise-ge bytes inx s (leb→le _ _ out) in
      rw same (
        rw (raise_range-ge rounds (inx + 1) s bytes (omega (arith, leb→le _ _ out))) (ground arith))
  | inr inside ↦ ground (
    arith,
    get_or-raise bytes inx s j,
    length-raise bytes inx s,
    get_or-raise_range rounds (inx + 1) s j (raise bytes inx s),
  )
]

-- The loop succeeds exactly if its last index lies in the table.
abbrev pub range_ret : (rounds inx blk_count : ℕ) → Ret
range_ret zero inx n = ok
range_ret (suc rounds) inx n = if leb (inx + suc rounds) n then ok else err einval

range_ret-step :
    (rounds inx n : ℕ) → inx < n → range_ret (suc rounds) inx n ≡ range_ret rounds (inx + 1) n
range_ret-step zero inx n h = ground arith
range_ret-step (suc rounds) inx n h = ground arith

pub set_loop_lem :
    (rounds inx n s : ℕ) (bytes : List ℕ)
    → length bytes ≡ n
    → set_loop rounds inx n s (some bytes)
      ≡ some (range_ret rounds inx n, some (raise_range rounds inx s bytes))
unfolding set_loop raise_range
set_loop_lem zero inx n s bytes e = refl
set_loop_lem (suc rounds) inx n s bytes e = ground (
  arith,
  raise-ge bytes inx s,
  raise_range-ge rounds (inx + 1) s bytes,
  set_loop_lem rounds (inx + 1) n s (raise bytes inx s) (length-raise bytes inx s ∙ e),
  range_ret-step rounds inx n,
)
