-- ===== src/Area/Tests.antt =====
-- Runs of module/chunk.c and module/diff_area.c with an area of four chunks, and the theorems at them.
use mathlib.Core.Option.{none-ne-some}
use blksnap.Prelude.{suc, zero, ◌≡◌, refl, Bool, true, false, Option, none, some, [], ◌∷◌, arith}
use blksnap.Kernel.{Ret, ok, dividing, default_params}
use blksnap.Storage.{DiffStorage, DiffRegion}
use blksnap.Buffer.{DiffBuffer, diff_buffer_take}
use blksnap.Area.Data.{
  Chunk, ChunkState, no_bits, DiffArea, Answers, down, async_read, async_write, DiffIo,
}
use blksnap.Area.Phases.{safe, Phase, empty, at}
use blksnap.Area.Chunk.{chunk_async_load_orig, chunk_notify_load}
use blksnap.Area.Chunk.Life.{alloc_lem}
use blksnap.Area.Copy.{diff_area_copy, continue, copy_chunk, copy_fresh}
use blksnap.Area.Copy.Loop.{Sound}
use blksnap.Area.Copy.Whole.{Copied, diff_area_copy_lem}
use blksnap.Area.Image.{open_chunk}
use blksnap.Area.History.{start, next, loads}
use blksnap.Area.Protected.{protected_for_ever}
use blksnap.Area.Size.{OrigBdev, Making}

abbrev some_buffer : DiffBuffer
some_buffer = record { size = 262144; page_count = 64 }

abbrev some_region : DiffRegion
some_region = record { bdev = 2; sector = 0; count = 512 }

abbrev a_chunk : Bool → ChunkState → Option DiffBuffer → Option DiffRegion → Option DiffIo → Chunk
a_chunk l s b r io = record {
  number = 3;
  sector_count = 512;
  locked = l;
  state = s;
  diff_buffer = b;
  diff_region = r;
  diff_io = io;
}

abbrev new_chunk : Chunk
new_chunk = record (a_chunk false no_bits none none none) { sector_count = 0 }

abbrev pub storage : DiffStorage
storage = record {
  storage_bdevs = [];
  empty_blocks = record { bdev = 2; sector = 0; count = 4096; used = 0 } ∷ [];
  filled_blocks = [];
  capacity = 4096;
  filled = 0;
  requested = 4096;
  low_space_flag = 0;
  overflow_flag = 0;
  event_queue = [];
}

abbrev an_area : DiffArea
an_area = record {
  orig_bdev = 1;
  diff_storage = storage;
  chunk_shift = 18;
  chunk_count = 4;
  chunk_map = [];
  read_cache_queue = [];
  read_cache_count = 0;
  write_cache_queue = [];
  write_cache_count = 0;
  cache_release_work = false;
  pool = record { free_diff_buffers = some_buffer ∷ []; free_diff_buffers_count = 1 };
  corrupt_flag = false;
  pending_io_count = 0;
}

abbrev pub fine : Answers
fine = record {
  killed = false;
  pages = record { alloc = true; page = λ _. true };
  io_alloc = true;
  io_do = ok;
  orig_error = ok;
  diff_error = ok;
  region_alloc = true;
  alarm = record { alloc = true; time = 9 };
}

abbrev reading_area : DiffArea
reading_area = record an_area {
  pool = record { free_diff_buffers = []; free_diff_buffers_count = 0 };
  pending_io_count = 1;
}

abbrev reading_chunk : Chunk
reading_chunk = record new_chunk {
  locked = true;
  state = record no_bits { is_loading = true };
  diff_buffer = some some_buffer;
  diff_io = some async_read;
}

copy_starts :
    copy_chunk dividing default_params fine false an_area (down new_chunk)
    ≡ continue reading_area reading_chunk
unfolding copy_chunk copy_fresh diff_buffer_take chunk_async_load_orig
copy_starts = refl

protected_for_ever_example :
    let c = (chunk_notify_load default_params fine reading_area reading_chunk ok).1 in
    ((p : Phase) × (at p c ≡ true) × (safe p ≡ true))
    × (c.locked ≡ false
        → (k : Answers) (a : DiffArea) (orig : Ret)
        → open_chunk dividing default_params k a (down c)
          ≡ open_chunk dividing default_params (record k { orig_error = orig }) a (down c))
protected_for_ever_example =
    protected_for_ever dividing default_params 3 new_chunk new_chunk
      (chunk_notify_load default_params fine reading_area reading_chunk ok).1 fine false an_area
      reading_area reading_chunk (alloc_lem default_params 3) (start new_chunk) refl copy_starts
      (next reading_chunk reading_chunk
        (chunk_notify_load default_params fine reading_area reading_chunk ok).1
        (start reading_chunk) (loads fine reading_area reading_chunk ok refl))

abbrev written : Chunk
written =
    a_chunk true (record no_bits { is_buffer_ready = true; is_storing = true; is_dirty = true })
      (some some_buffer) (some some_region) (some async_write)

abbrev cached_chunk : (is_locked is_dirty : Bool) → Chunk
cached_chunk is_locked is_dirty =
    a_chunk is_locked (record no_bits { is_buffer_ready = true; is_dirty = is_dirty })
      (some some_buffer) none none

abbrev pub disk : OrigBdev
disk = record { dev = 1; bdev_nr_sectors = 1000000; bdev_io_min = 4096 }

abbrev making : Making
making = record { opened = ok; area_alloc = true; chunk_alloc_ok = λ _. true; insert = λ _. ok }

abbrev pub two_chunks : DiffArea
two_chunks = record an_area {
  chunk_map = record new_chunk { number = 0 } ∷ record new_chunk { number = 1 } ∷ [];
  chunk_count = 2;
}

pub two_chunks-Sound : Sound two_chunks
two_chunks-Sound zero c found = (ground (arith, found), (empty, ground (arith, found)))
two_chunks-Sound (suc zero) c found = (ground (arith, found), (empty, ground (arith, found)))
two_chunks-Sound (suc (suc j)) c found = absurd (none-ne-some c found)

-- A write of 600 sectors that starts in the first chunk and ends in the second.
diff_area_copy_lem_example :
    Copied 9 300 600 (diff_area_copy dividing default_params 4 (λ _. fine) two_chunks 300 600 false)
diff_area_copy_lem_example =
    diff_area_copy_lem dividing default_params (λ _. fine) false two_chunks 9 300 600 2
      two_chunks-Sound refl (omega arith) (omega arith) (omega arith)
