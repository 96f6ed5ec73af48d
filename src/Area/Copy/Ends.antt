-- ===== src/Area/Copy/Ends.antt =====
-- The ends of the I/O of chunks (module/chunk.c) keep what `diff_area_copy` (module/diff_area.c) made
-- of an area.
use native.Mathlib.Decide.{ℕ_discrete}
use blksnap.Prelude.{
  ℕ, ◌≡◌, refl, sym, ap, ◌∙◌, inl, inr, Bool, true, false, Option, none, some, arith, Bool-cases,
  Option-cases, if◌then◌else◌,
}
use blksnap.Kernel.{Ret, Params}
use blksnap.Area.Data.{DiffIo, async_read, async_write, Chunk, DiffArea, Answers, xa_load, store}
use blksnap.Area.Phases.{safe, Phase, at, empty, broken, reading, saved, cached, writing}
use blksnap.Area.Chunk.{chunk_notify_load, chunk_notify_store}
use blksnap.Area.Chunk.Life.{notify_load_either, notify_store_either}
use blksnap.Area.Chunk.Ends.{notify_load-Same, notify_store-Same}
use blksnap.Area.Copy.Loop.{Sound, store-Sound, load_other, load_stored}
use blksnap.Area.Copy.Wait.{IsKept, self-IsKept}

-- The I/O of a chunk ends, if there is one.
abbrev end_io : Params → Answers → Ret → DiffArea → Chunk → Option DiffIo → DiffArea
end_io P k result a c none = a
end_io P k result a c (some async_read) =
    let (a', c') = chunk_notify_load P k a c result in store a' c'
end_io P k result a c (some async_write) =
    let (a', c') = chunk_notify_store P k a c result in store a' c'

-- The same for the chunk with the number.
abbrev pub io_end : Params → Answers → ℕ → Ret → DiffArea → DiffArea
io_end P k n result a = elim (xa_load a n) [ none ↦ a | some c ↦ end_io P k result a c c.diff_io ]

-- Which phase a chunk with an I/O is in.
at_reads :
    (p : Phase) (c : Chunk) → at p c ≡ true → c.diff_io ≡ some async_read → at reading c ≡ true
at_reads empty c h io = ground (arith, h, io)
at_reads broken c h io = ground (arith, h, io)
at_reads reading c h io = h
at_reads saved c h io = ground (arith, h, io)
at_reads (cached d s) c h io = ground (arith, h, io)
at_reads (writing d s) c h io = ground (arith, h, io)

at_writes :
    (p : Phase) (c : Chunk)
    → at p c ≡ true
    → c.diff_io ≡ some async_write
    → (d : Bool) × (s : Bool) × (at (writing d s) c ≡ true)
at_writes empty c h io = ground (arith, h, io)
at_writes broken c h io = ground (arith, h, io)
at_writes reading c h io = ground (arith, h, io)
at_writes saved c h io = ground (arith, h, io)
at_writes (cached d s) c h io = ground (arith, h, io)
at_writes (writing d s) c h io = (d, s, h)

-- The chunk is in a safe phase.
abbrev InSafe : Chunk → Type 0
InSafe c = (p : Phase) × (at p c ≡ true) × (safe p ≡ true)

after_load :
    (P : Params) (k : Answers) (a : DiffArea) (c : Chunk) (result : Ret)
    → at reading c ≡ true
    → InSafe (chunk_notify_load P k a c result).1
after_load P k a c result h =
    let c' = (chunk_notify_load P k a c result).1 in
    let after = notify_load_either P k a c result h in
    elim (Bool-cases (at (writing false false) c')) [
      | inl yes_writing ↦ (writing false false, yes_writing, refl)
      | inr not_writing ↦ (broken, ground (arith, after, not_writing), refl)
    ]

after_store :
    (P : Params) (k : Answers) (a : DiffArea) (c : Chunk) (result : Ret) (d s : Bool)
    → at (writing d s) c ≡ true
    → InSafe (chunk_notify_store P k a c result).1
after_store P k a c result d s h =
    let c' = (chunk_notify_store P k a c result).1 in
    let q = if d then saved else cached false true in
    let after = notify_store_either P k a c result d s h in
    elim (Bool-cases (at q c')) [
      | inl there ↦ (q, there, is_safe d)
      | inr elsewhere ↦ (broken, ground (arith, after, elsewhere), refl)
    ]
  where
    is_safe : (x : Bool) → safe (if x then saved else cached false true) ≡ true
    is_safe true = refl
    is_safe false = refl

-- A chunk gave way to one in a safe phase.
replaced-IsKept :
    (a a' : DiffArea) (c c' : Chunk) (n : ℕ)
    → (Sound a → InSafe c' × (c'.number ≡ n))
    → xa_load a n ≡ some c
    → a'.chunk_map ≡ a.chunk_map
    → a'.chunk_shift ≡ a.chunk_shift
    → (a.corrupt_flag ≡ true → a'.corrupt_flag ≡ true)
    → IsKept a (store a' c')
replaced-IsKept a a' c c' n becomes found map shift flag = record {
  sound = λ h.
      let ((q, at_q, safe_q), number) = becomes h in
      store-Sound a a' c c' n q h found map number at_q;
  safe_in = λ j h s.
      let (in_safe, number) = becomes h in
      let (d, at_j, is) = s in
      elim (ℕ_discrete n j) [
        | no other ↦ (d, load_other a a' c' n j other map number ∙ at_j, is)
        | yes same ↦ (
          c',
          ap (xa_load (store a' c')) (sym same) ∙ load_stored a a' c c' n found map number,
          in_safe,
        )
      ];
  shift = shift;
  flag = flag;
}

end_io-IsKept :
    (P : Params) (k : Answers) (n : ℕ) (result : Ret) (a : DiffArea) (c : Chunk)
    (io : Option DiffIo)
    → xa_load a n ≡ some c
    → c.diff_io ≡ io
    → IsKept a (end_io P k result a c io)
end_io-IsKept P k n result a c none found is = self-IsKept a
end_io-IsKept P k n result a c (some async_read) found is =
    let (a', c') = chunk_notify_load P k a c result in
    let ((map, shift, number), flag) = notify_load-Same P k a c result in
    replaced-IsKept a a' c c' n
      (λ h.
        let (here, (p, at_p)) = h n c found in
        (after_load P k a c result (at_reads p c at_p is), number ∙ here))
      found map shift flag
end_io-IsKept P k n result a c (some async_write) found is =
    let (a', c') = chunk_notify_store P k a c result in
    let ((map, shift, number), flag) = notify_store-Same P k a c result in
    replaced-IsKept a a' c c' n
      (λ h.
        let (here, (p, at_p)) = h n c found in
        let (d, s, writes) = at_writes p c at_p is in
        (after_store P k a c result d s writes, number ∙ here))
      found map shift flag

-- The end of the I/O of a chunk, whichever and however it ends, keeps the area.
pub io_end-IsKept :
    (P : Params) (k : Answers) (n : ℕ) (result : Ret) (a : DiffArea)
    → IsKept a (io_end P k n result a)
io_end-IsKept P k n result a = elim (Option-cases (xa_load a n)) [
  | inl missing ↦ rw (missing, io_end) (self-IsKept a)
  | inr (c, found) ↦ rw (found, io_end) (end_io-IsKept P k n result a c c.diff_io found refl)
]
