-- ===== src/SnapImage/Tests.antt =====
-- Runs of module/snapimage.c, and the theorems at them.
use blksnap.Prelude.{◌≡◌, ◌⊎◌, refl, true, false, none, some, if◌then◌else◌, [], ◌∷◌, ◌++◌, All}
use blksnap.Kernel.{Errno, enomem, ok, err, dividing, default_params}
use blksnap.Area.Data.{Chunk, no_bits, DiffArea, up, down, store}
use blksnap.Area.Image.{diff_area_image_ctx_init, diff_area_image_ctx_done}
use blksnap.Area.Tests.{two_chunks, fine}
use blksnap.SnapImage.{
  sts_ok, sts_ioerr, Bio, Finished, ended, get_bio_from_queue, add_image, drop_disk,
  snapimage_process_bio, snapimage_submit_bio, snapimage_kthread_worker_fn, drained, Held, Making,
  snapimage_create, snapimage_free,
}
use blksnap.SnapImage.Order.{
  Traffic, submitted, bios, flying, here, next, submit, take, served_in_order,
}
use blksnap.SnapImage.Errors.{failed_chunk_ends_well}
use blksnap.SnapImage.Life.{one_more, leaked, has_disk, create_free_lem}

-- A read of 8 sectors.
abbrev a_read : Bio
a_read = record {
  number = 1;
  is_write = false;
  bi_sector = 0;
  segments = 4096 ∷ [];
  bi_status = sts_ok;
}

abbrev bad_chunk : Chunk
bad_chunk = record {
  number = 0;
  sector_count = 512;
  locked = false;
  state = record no_bits { is_failed = true };
  diff_buffer = none;
  diff_region = none;
  diff_io = none;
}

abbrev bad_area : DiffArea
bad_area = record two_chunks { chunk_map = bad_chunk ∷ [] }

failed_chunk_ends_well_example :
    snapimage_process_bio dividing default_params 2 (λ n. n) (λ _. fine) bad_area a_read
    ≡ ended
        (record { bio = a_read; status = sts_ok; pieces = [] })
        (diff_area_image_ctx_done dividing default_params
          (λ _. fine)
          (store bad_area (up (down bad_chunk)))
          (diff_area_image_ctx_init false))
failed_chunk_ends_well_example =
    failed_chunk_ends_well dividing default_params 1 (λ n. n) (λ _. fine) bad_area bad_chunk a_read
      4096 [] refl refl refl refl refl

-- The device with the read queued.
abbrev idle : Traffic
idle = record {
  image = record { queue = []; diff_area = bad_area };
  accepted = [];
  in_flight = none;
  finished = [];
  refused = [];
}

abbrev after_submit : Traffic
after_submit = submitted a_read idle (snapimage_submit_bio a_read idle.image)

-- The worker has it.
abbrev taken : Traffic
taken = record after_submit {
  image = (get_bio_from_queue after_submit.image).1;
  in_flight = some a_read;
}

abbrev done : Finished
done = record { bio = a_read; status = sts_ok; pieces = [] }

served_in_order_example :
    (taken.accepted ≡ bios taken.finished ++ (flying taken.in_flight ++ taken.image.queue))
    × All (λ f. f.status ≡ sts_ioerr) taken.refused
    × (taken.in_flight ≡ none
        → snapimage_kthread_worker_fn
            (snapimage_process_bio dividing default_params 2 (λ n. n) (λ _. fine))
            taken.image.queue
            taken.image.diff_area
          ≡ drained (done ∷ []) bad_area
        → taken.accepted ≡ bios (taken.finished ++ (done ∷ [])))
unfolding get_bio_from_queue snapimage_submit_bio
served_in_order_example =
    served_in_order dividing default_params 2 (λ n. n) (λ _. fine) bad_area bad_area taken
      (done ∷ [])
      (next (next here (submit idle a_read)) (take after_submit a_read taken.image refl refl))

abbrev no_disk : Making
no_disk = record {
  image_alloc = true;
  task = ok;
  disk_alloc = true;
  name_fits = true;
  add_disk = err enomem;
  free_disk = λ added. added;
}

abbrev held : Held
held = record { area_kref = 1; map_kref = 1; snapimages = 0; workers = 0; disks = 0 }

create_free_lem_example :
    ((snapimage_create no_disk held ≡ (ok, one_more held))
      × (snapimage_free no_disk (one_more held) ≡ held))
    ⊎ ((x : Errno) × (snapimage_create no_disk held
          ≡ (err x, if has_disk no_disk then leaked held else held)))
create_free_lem_example = create_free_lem no_disk held refl refl

-- A disk that cannot be added leaves the references behind.
leaks : snapimage_create no_disk held ≡ (err enomem, leaked held)
unfolding snapimage_create add_image drop_disk
leaks = refl
