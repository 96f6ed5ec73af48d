-- ===== src/Area/Image/Tests.antt =====
-- A run of the copying loop of module/diff_area.c, and the theorem at it.
use blksnap.Prelude.{ℕ, ◌+◌, ◌-◌, ◌≡◌, refl, min, false, some, List, [], ◌∷◌, arith}
use blksnap.Buffer.{DiffBuffer, diff_buffer_iter_get}
use blksnap.Area.Image.{Piece, copy_loop}
use blksnap.Area.Image.Pieces.{Tiles, total, copy_loop_lem}

abbrev two_pages : DiffBuffer
two_pages = record { page_count = 2; size = 8192 }

abbrev two_pieces : List Piece
two_pieces =
    record { page = 0; offset = 4000; bytes = 96 }
    ∷ record { page = 1; offset = 0; bytes = 904 }
    ∷ []

-- An I/O of 1000 bytes that goes over the end of a page.
copies_two_pieces : copy_loop 1001 (λ n. n) two_pages 4000 1000 ≡ some (two_pieces, 0, false)
unfolding copy_loop diff_buffer_iter_get
copies_two_pieces = refl

copy_loop_lem_example :
    (pieces : List Piece) × (left : ℕ) × (copy_loop 1001 (λ n. n) two_pages 4000 1000
      ≡ some (pieces, left, false))
    × Tiles 2 4000 pieces
    × (total pieces ≡ min 1000 (8192 - 4000))
    × (total pieces + left ≡ 1000)
copy_loop_lem_example =
    copy_loop_lem (λ n. n) (λ n. refl) two_pages (omega arith) (omega arith) 1000 4000 1000
      (omega arith)
