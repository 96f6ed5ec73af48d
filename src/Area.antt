-- ===== src/Area.antt =====
-- module/chunk.c and module/diff_area.c: the chunks of a device under a snapshot, and copy-on-write.
-- `Data` has the structures, `Chunk` the operations of chunk.c, `Cache` the two queues and the
-- worker that empties them, `Size` the size of a chunk and the creation of the area, `Copy` the
-- two loops over the chunks of a write, and `Image` the access through the snapshot image. `Phases`
-- has the phases of a chunk, `History` and `Protected` are about operations in any order.
pub mod Data
pub mod Chunk
pub mod Cache
pub mod Copy
pub mod Image
pub mod Free
pub mod Phases
pub mod History
pub mod Protected
pub mod Size
pub mod Tests
