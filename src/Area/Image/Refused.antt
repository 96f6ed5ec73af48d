-- ===== src/Area/Image/Refused.antt =====
-- An I/O on the image that meets a failed chunk (module/diff_area.c).
use blksnap.Prelude.{ℕ, suc, ◌==◌, ◌≡◌, Bool, true, false, some, arith}
use blksnap.Kernel.{Params, Rounding}
use blksnap.Area.Data.{
  failed, Chunk, chunk_state_check, up, down, DiffArea, Answers, chunk_number, xa_load, store,
}
use blksnap.Area.Image.{
  diff_area_image_ctx_init, open_chunk, take_next, diff_area_image_context_get_chunk, io_error,
  diff_area_image_io,
}

module _ (K : Rounding) (P : Params) where
  -- The I/O is refused and the chunk is unlocked.
  pub failed-io_error :
      (fuel : ℕ) (copy : ℕ → ℕ) (k : ℕ → Answers) (a : DiffArea) (c : Chunk) (w : Bool)
      (len pos : ℕ)
      → xa_load a (chunk_number a pos) ≡ some c
      → c.locked ≡ false
      → chunk_state_check c failed ≡ true
      → (len == 0) ≡ false
      → diff_area_image_io K P (suc fuel) copy k a (diff_area_image_ctx_init w) len pos
        ≡ io_error (store a (up (down c))) (diff_area_image_ctx_init w)
  unfolding diff_area_image_io diff_area_image_context_get_chunk take_next open_chunk
  failed-io_error fuel copy k a c w len pos there free fails some_bytes =
      ground (arith, there, free, fails, some_bytes)
