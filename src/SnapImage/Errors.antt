-- ===== src/SnapImage/Errors.antt =====
-- What the user of an image device sees of an error (module/snapimage.c).
use blksnap.Prelude.{ℕ, suc, ◌==◌, ◌≡◌, ap, ◌∙◌, Bool, true, false, some, List, [], ◌∷◌, arith}
use blksnap.Kernel.{Params, Rounding}
use blksnap.Area.Data.{
  failed, Chunk, chunk_state_check, up, down, DiffArea, Answers, chunk_number, xa_load, store,
}
use blksnap.Area.Image.{
  diff_area_image_ctx_init, diff_area_image_ctx_done, io_error, diff_area_image_io,
}
use blksnap.Area.Image.Refused.{failed-io_error}
use blksnap.SnapImage.{Bio, looped, ended, process_segments, end_bio, snapimage_process_bio}

module _ (K : Rounding) (P : Params) (fuel : ℕ) (copy : ℕ → ℕ) (k : ℕ → Answers) where
  first_fails :
      (a : DiffArea) (c : Chunk) (w : Bool) (len pos : ℕ) (lens : List ℕ)
      → diff_area_image_io K P (suc fuel) copy k a (diff_area_image_ctx_init w) len pos
        ≡ io_error (store a (up (down c))) (diff_area_image_ctx_init w)
      → process_segments K P (suc fuel) copy k (len ∷ lens) a (diff_area_image_ctx_init w) pos
        ≡ looped [] (store a (up (down c))) (diff_area_image_ctx_init w)
  unfolding process_segments
  first_fails a c w len pos lens h = ground (arith, h)

  -- A bio on the image whose first sector is in a chunk that has failed and that nobody holds is
  -- completed with no byte copied and with the status it was submitted with: the error is not
  -- reported, and where bi_status was BLK_STS_OK the reader takes the buffer for the data.
  pub failed_chunk_ends_well :
      (a : DiffArea) (c : Chunk) (b : Bio) (len : ℕ) (lens : List ℕ)
      → b.segments ≡ len ∷ lens
      → (len == 0) ≡ false
      → xa_load a (chunk_number a b.bi_sector) ≡ some c
      → c.locked ≡ false
      → chunk_state_check c failed ≡ true
      → snapimage_process_bio K P (suc fuel) copy k a b
        ≡ ended
            (record { bio = b; status = b.bi_status; pieces = [] })
            (diff_area_image_ctx_done K P k
              (store a (up (down c)))
              (diff_area_image_ctx_init b.is_write))
  unfolding snapimage_process_bio end_bio
  failed_chunk_ends_well a c b len lens segs some_bytes there free fails =
      ap (end_bio K P (suc fuel) copy k b) (
        ap
          (λ l.
            process_segments K P (suc fuel) copy k l a (diff_area_image_ctx_init b.is_write)
              b.bi_sector)
          segs
        ∙ first_fails a c b.is_write len b.bi_sector lens (
            failed-io_error K P fuel copy k a c b.is_write len b.bi_sector there free fails
              some_bytes))
