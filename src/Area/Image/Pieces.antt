-- ===== src/Area/Image/Pieces.antt =====
-- Which bytes of a chunk's buffer an I/O on the snapshot image copies (module/diff_area.c).
use native.Mathlib.Decide.{dec_lt}
use blksnap.Prelude.{
  ℕ, zero, suc, ◌+◌, ◌-◌, ◌*◌, ◌^◌, ◌≤◌, ◌<◌, ◌≡◌, refl, sym, ◌∙◌, min, false, some, List, [], ◌∷◌,
  arith,
}
use blksnap.Kernel.{add64}
use blksnap.Buffer.{DiffBuffer, DiffBufferIter, diff_buffer_iter_get}
use blksnap.Buffer.Pool.{IsBacked, iter_get_lem}
use blksnap.Area.Image.{Piece, copy_loop}

-- The pieces follow each other from the offset of the buffer on, each inside its page.
abbrev pub Tiles : (page_count offset : ℕ) → List Piece → Type 0
Tiles page_count offset [] = Unit
Tiles page_count offset (p ∷ pieces) =
    (p.page < page_count)
    × (p.page * 4096 + p.offset ≡ offset)
    × (p.offset + p.bytes ≤ 4096)
    × (0 < p.bytes)
    × Tiles page_count (offset + p.bytes) pieces

abbrev pub total : List Piece → ℕ
total [] = 0
total (p ∷ pieces) = p.bytes + total pieces

-- Where the copies copy all that they are asked for: the pieces of a buffer that has enough pages
-- and less than 2^64 bytes.
module _ (copy : ℕ → ℕ) (whole : (n : ℕ) → copy n ≡ n) (b : DiffBuffer) (backed : IsBacked b)
    (small : b.size < 2 ^ 64) where
  abbrev pub Copied : (fuel offset len : ℕ) → Type 0
  Copied fuel offset len =
      (pieces : List Piece) × (left : ℕ) × (copy_loop fuel copy b offset len
        ≡ some (pieces, left, false))
      × Tiles b.page_count offset pieces
      × (total pieces ≡ min len (b.size - offset))
      × (total pieces + left ≡ len)

  copy_end : (fuel offset len : ℕ) → b.size ≤ offset → Copied (suc fuel) offset len
  unfolding copy_loop
  copy_end fuel offset len past =
      ([], len, ground (arith, (iter_get_lem b offset backed).0 past), tt, omega arith, omega arith)

  copy_none : (fuel offset : ℕ) → Copied (suc fuel) offset 0
  unfolding copy_loop
  copy_none fuel offset = ([], 0, refl, tt, omega arith, refl)

  copy_step :
      (fuel offset len : ℕ) (i : DiffBufferIter) (sz : ℕ) (pieces : List Piece) (left : ℕ)
      → sz ≡ min i.bytes len
      → 0 < sz
      → 0 < len
      → add64 offset sz ≡ offset + sz
      → diff_buffer_iter_get b offset ≡ some i
      → copy_loop fuel copy b (offset + sz) (len - sz) ≡ some (pieces, left, false)
      → copy_loop (suc fuel) copy b offset len
        ≡ some (record { page = i.page; offset = i.offset; bytes = sz } ∷ pieces, left, false)
  unfolding copy_loop
  copy_step fuel offset len i sz pieces left is pos some_bytes next got copied =
      let copies : copy (min i.bytes len) ≡ sz = whole (min i.bytes len) ∙ sym is in
      ground (arith, some_bytes, got, copies, pos, next, copied)

  copy_more :
      (fuel offset len : ℕ)
      → offset < b.size
      → 0 < len
      → ((sz : ℕ) → 0 < sz → Copied fuel (offset + sz) (len - sz))
      → Copied (suc fuel) offset len
  unfolding copy_loop
  copy_more fuel offset len inside some_bytes rest =
      let (i, got, page, at, some_there, in_page, in_buffer, _) =
        (iter_get_lem b offset backed).1 inside in
      let sz = min i.bytes len in
      let (pieces, left, copied, tiles, all, sum) = rest sz (omega arith) in
      let next : add64 offset sz ≡ offset + sz = omega (arith, in_buffer, small) in
      (
        record { page = i.page; offset = i.offset; bytes = sz } ∷ pieces,
        left,
        copy_step fuel offset len i sz pieces left refl (omega arith) some_bytes next got copied,
        (page, at, omega arith, omega arith, tiles),
        omega arith,
        omega arith,
      )

  -- The inner loop of diff_area_image_io over the buffer of a chunk, where every copy of bytes is
  -- complete, the buffer has pages for its size, and that is below 2^64; with a round of fuel for each
  -- byte of the I/O and one more, from an offset of the buffer: it ends without an error. The pieces
  -- that it copies follow each other from the offset on, each not empty and inside one page of the
  -- buffer; together they are all bytes of the I/O, or those of the buffer from the offset on where
  -- they are fewer; and what is left of the I/O is what they are short of it.
  pub copy_loop_lem : (fuel offset len : ℕ) → len ≤ fuel → Copied (suc fuel) offset len
  copy_loop_lem fuel offset zero enough = copy_none fuel offset
  copy_loop_lem zero offset (suc len) enough = absurd (omega arith)
  copy_loop_lem (suc fuel) offset (suc len) enough = elim (dec_lt offset b.size) [
    | no past ↦ copy_end (suc fuel) offset (suc len) (omega (arith, past))
    | yes inside ↦
        copy_more (suc fuel) offset (suc len) inside (omega arith)
          (λ sz some_there. copy_loop_lem fuel (offset + sz) (suc len - sz) (omega arith))
  ]
