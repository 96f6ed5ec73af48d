-- ===== src/Lib.antt =====
-- blksnap: a kernel module that makes snapshots of block devices, with change tracking.
--
-- The module (module/*.c) keeps for each tracked device a table of changed blocks (the change
-- tracking map), and for each device of a snapshot a difference area. A write to such a device first
-- passes the area: each chunk of the device that the write touches is read, and then stored in a
-- region of the difference storage, before the write goes on. The snapshot image reads a chunk from
-- its buffer, from its region or from the original device, and may be written itself. User space
-- appends blocks to the difference storage, and learns of low space and errors from a queue of events.
--
-- Files, with the code that they model:
-- - Prelude, Kernel: shared names; error numbers, 64-bit arithmetic, the kernel's rounding macros as a
--   parameter with their documented laws, and the parameters of module/main.c.
-- - Cbt: module/cbt_map.c and .h (cbt_map_create, _reset, _switch, _set, _set_both, _read_to_user,
--   _mark_dirty_blocks, _get_sector_state). A table is an optional list of bytes; a result `none` is an
--   access outside it. Below it are the invariant (Inv), the operations (Ops, Marks, Dirty, Read), the
--   block size (Size) and histories of writes and snapshots (Epochs).
-- - Events: module/event_queue.c (event_gen, event_wait), and in Events/Order their interleavings.
-- - Storage: module/diff_storage.c (diff_storage_new, _append_block, _new_region, _free), with the invariant
--   (Inv), the search for room (Room), allocation (Allocate), appending (Append) and histories (History).
-- - Buffer: module/diff_buffer.c and .h, the buffers of chunks and the pool of free ones.
-- - Area: module/chunk.c and module/diff_area.c. Data has the structures, Chunk the operations of
--   chunk.c, Cache the caches and their worker, Copy the loops of diff_area_copy and diff_area_wait,
--   Image the access through the snapshot image (Pieces: the bytes that it copies), Size the chunk size
--   and diff_area_new, Free the end. Phases says which phases a chunk goes through, the Life files what
--   each operation does to the phase, and History and Protected what follows for any order.
-- - DiffIo: module/diff_io.c and .h, the I/O of a region as bios (Split), its one notice (Ends), and the
--   call with its wait (Whole).
-- - BdevFilter: module/bdevfilter.c and .h, the filters of block devices and their references
--   (Counts, Refs), with histories of calls that use them (History), and the lock sections of two of the
--   calls (Sections).
-- - Tracker: module/tracker.c and .h. Submit and Passed say what becomes of a bio, from the map to the
--   area, and Take how a snapshot is taken. Devices has the tracked devices (tracker_create_or_get,
--   tracker_remove, the queries), with their references (Refs) and the life of a tracker (Life).
-- - Snapshot: module/snapshot.c. Take, Release and Stuck are about the trackers of one snapshot. Store has
--   the snapshots as objects on a linked list, with the trackers; Registry creates, finds and destroys
--   them, Registry/Calls has the calls that use one, and Registry/Taking the whole of snapshot_take. Keeps
--   says what each step leaves alone, Listed, History, Created and Reached what is on the list, Taking/Refs
--   and Taking/Outcomes what snapshot_take comes to, and Taking/Frozen and Taking/Blocked what becomes of
--   a queue that stays frozen.
-- - SnapImage: module/snapimage.c and .h, the image devices: the order of their I/O (Order), its errors
--   (Errors), and what an image holds (Life).
-- - Control: module/main.c, the calls of user space (Snapshots: those for snapshots), their table
--   (Dispatch) and the marking of blocks (Dirty).
--
-- State and steps. A C structure is a record with the names of its fields, a function takes the
-- structure and returns the new one. What a spinlock or a chunk's semaphore protects is one step, except
-- that the calls of module/bdevfilter.c, which have two lock sections, are one step each where no other
-- call comes in between; the worker of an image takes a bio in one step and completes it in another; the
-- end of an I/O is a step of its own (chunk_notify_load, chunk_notify_store), so that other operations
-- come in between in a history. What the kernel answers (memory, the clock, copies from and to user
-- space, I/O, whether a wait is interrupted) is an argument.
--
-- Bounds and fuel. Sizes and sectors are 64-bit and wrap where the code's do; the counters of references
-- and of warnings do not wrap. The loops over block and chunk sizes run on fuel, with a proof that four
-- and thirty-five rounds are enough for the default
-- parameters. The loops over the chunks of a write take fuel as an argument; for both of them two
-- rounds more than the chunks that the sectors of the write fill are proved enough. So do the loop of
-- the cache worker, about which only the round is proved, and the outer loop of the image. A bio of an
-- I/O takes a round for each sector and one more, and the copying loop of the image one for each byte
-- and one more. The walks over the list of snapshots take fuel, of which two rounds are proved enough.
-- The calls on snapshots and of user space are in a monad that passes the store on, and ends where the
-- code blocks for ever, reads a null pointer or the fuel is used up.
--
-- Not modelled: the data of pages, the loading and unloading of the module, the log, user space, and
-- the builds other than the standalone one; of that one, the storage in memory
-- (BLK_SNAP_ALLOW_DIFF_STORAGE_IN_MEMORY, which module/Makefile-standalone leaves off) and the trace of
-- states for debugging.
pub mod Prelude
pub mod Kernel
pub mod Cbt
pub mod Events
pub mod Storage
pub mod Buffer
pub mod DiffIo
pub mod Area
pub mod BdevFilter
pub mod Tracker
pub mod Snapshot
pub mod SnapImage
pub mod Control
