-- ===== src/Area/History.antt =====
-- Histories of one chunk: what the operations of module/chunk.c and module/diff_area.c do to it, in
-- any order that its semaphore and its I/O allow.
use blksnap.Prelude.{
  Bool-cases, ◌≡◌, refl, inl, inr, Bool, true, false, not, ◌&&◌, ◌||◌, some, none, arith,
}
use blksnap.Kernel.{Ret, ok, err, Params, Rounding}
use blksnap.Area.Data.{Chunk, DiffArea, Answers, up, down, async_read, async_write}
use blksnap.Area.Phases.{safe, Phase, empty, broken, reading, saved, cached, writing, at, rests_at}
use blksnap.Area.Chunk.{chunk_notify_load, chunk_notify_store}
use blksnap.Area.Chunk.Life.{notify_load_either, notify_store_either}
use blksnap.Area.Cache.{release_chunk}
use blksnap.Area.Cache.Life.{release_chunk-Phase, release_chunk-idle}
use blksnap.Area.Copy.{Step, continue, stop, copy_chunk}
use blksnap.Area.Copy.Life.{after_copy, copy_chunk-Phase}
use blksnap.Area.Image.{open_chunk, diff_area_image_put_chunk}
use blksnap.Area.Image.Life.{after_open, open_chunk-Phase, put_chunk-Phase}

abbrev left : Step → Chunk
left (continue _ c) = c
left (stop _ _ c) = c

free_or : (x y z : Bool) → (x && y) || z ≡ true → x || z ≡ true
free_or x y z h = ground (arith, h)

at-or :
    (p q : Phase) (c : Chunk) → rests_at p c || rests_at q c ≡ true → at p c || rests_at q c ≡ true
at-or p q c h = free_or (at p c) (not c.locked) (rests_at q c) h

module _ (K : Rounding) (P : Params) where
  -- One operation on the chunk, whatever the rest of the area is and the kernel answers. A write to
  -- the original device, the worker and a request take the chunk where its semaphore is free; an I/O
  -- ends where it was started; a release needs a chunk that a request opened.
  pub data Moves : Chunk → Chunk → Type 0 where
    copies :
        (k : Answers) (nowait : Bool) (a : DiffArea) (c : Chunk)
        → c.locked ≡ false
        → Moves c (left (copy_chunk K P k nowait a (down c)))
    loads :
        (k : Answers) (a : DiffArea) (c : Chunk) (result : Ret)
        → c.diff_io ≡ some async_read
        → Moves c (chunk_notify_load P k a c result).1
    stores :
        (k : Answers) (a : DiffArea) (c : Chunk) (result : Ret)
        → c.diff_io ≡ some async_write
        → Moves c (chunk_notify_store P k a c result).1
    releases :
        (k : Answers) (a : DiffArea) (c : Chunk)
        → c.locked ≡ false
        → Moves c (release_chunk P k a (down c)).1
    opens :
        (k : Answers) (a : DiffArea) (c : Chunk)
        → c.locked ≡ false
        → Moves c (open_chunk K P k a (down c)).2
    puts :
        (k : Answers) (a : DiffArea) (c : Chunk) (is_write : Bool)
        → (c.locked ≡ true) × (c.diff_io ≡ none) × (c.state.is_buffer_ready ≡ true)
        → Moves c (diff_area_image_put_chunk K P k a c is_write).1

  pub data History : Chunk → Chunk → Type 0 where
    start : (c : Chunk) → History c c
    next : (c₀ c c' : Chunk) → History c₀ c → Moves c c' → History c₀ c'

  -- A chunk after a step from the phase.
  abbrev Next : Phase → Chunk → Type 0
  Next p c' = (p' : Phase) × (at p' c' ≡ true) × (safe p ≡ true → safe p' ≡ true)

  either :
      (p p₁ p₂ : Phase) (c' : Chunk)
      → at p₁ c' || rests_at p₂ c' ≡ true
      → (safe p ≡ true → safe p₁ ≡ true)
      → (safe p ≡ true → safe p₂ ≡ true)
      → Next p c'
  either p p₁ p₂ c' h s₁ s₂ = elim (Bool-cases (at p₁ c')) [
    | inl here ↦ (p₁, here, s₁)
    | inr there ↦ (p₂, ground arith, s₂)
  ]

  copied-Next : (p : Phase) (s : Step) → after_copy p s ≡ true → Next p (left s)
  copied-Next p (stop r a c) h = (broken, ground arith, λ _. refl)
  copied-Next empty (continue a c) h = (reading, h, λ _. refl)
  copied-Next (cached false false) (continue a c) h = (writing false false, h, λ _. refl)
  copied-Next (cached false true) (continue a c) h = (cached false true, ground arith, λ s. s)
  copied-Next (cached true x) (continue a c) h = (cached true x, ground arith, λ s. s)
  copied-Next broken (continue a c) h = (broken, ground arith, λ s. s)
  copied-Next reading (continue a c) h = (reading, ground arith, λ s. s)
  copied-Next saved (continue a c) h = (saved, ground arith, λ s. s)
  copied-Next (writing d x) (continue a c) h = (writing d x, ground arith, λ s. s)

  opened-Next : (p : Phase) (out : Ret × DiffArea × Chunk) → after_open p out ≡ true → Next p out.2
  opened-Next empty (ok, a, c) h = (cached false false, ground arith, λ s. s)
  opened-Next saved (ok, a, c) h = (cached false true, ground arith, λ _. refl)
  opened-Next (cached d x) (ok, a, c) h = (cached d x, ground arith, λ s. s)
  opened-Next broken (ok, a, c) h = (broken, ground arith, λ s. s)
  opened-Next reading (ok, a, c) h = (reading, ground arith, λ s. s)
  opened-Next (writing d x) (ok, a, c) h = (writing d x, ground arith, λ s. s)
  opened-Next p (err e, a, c) h = (p, ground arith, λ s. s)

  idle-Next :
      (k : Answers) (a : DiffArea) (c : Chunk) (p : Phase)
      → c.state.is_buffer_ready ≡ false
      → at p (up (down c)) ≡ true
      → Next p (release_chunk P k a (down c)).1
  idle-Next k a c p h kept = rw (release_chunk-idle P k a (down c) h) (p, kept, λ s. s)

  released-Next :
      (k : Answers) (a : DiffArea) (c : Chunk) (p : Phase)
      → rests_at p c ≡ true
      → Next p (release_chunk P k a (down c)).1
  released-Next k a c (cached true x) h =
      either (cached true x) (writing true x) broken (release_chunk P k a (down c)).1
        (ground (arith, release_chunk-Phase P k a (down c) true x)) (λ _. refl) (λ _. refl)
  released-Next k a c (cached false true) h =
      (saved, ground (arith, release_chunk-Phase P k a (down c) false true), λ _. refl)
  released-Next k a c (cached false false) h =
      (empty, ground (arith, release_chunk-Phase P k a (down c) false false), λ s. s)
  released-Next k a c empty h = idle-Next k a c empty (ground arith) (ground arith)
  released-Next k a c broken h = idle-Next k a c broken (ground arith) (ground arith)
  released-Next k a c saved h = idle-Next k a c saved (ground arith) (ground arith)
  released-Next k a c reading h = absurd (ground arith)
  released-Next k a c (writing d x) h = absurd (ground arith)

  -- A read that ends.
  loaded-Next :
      (k : Answers) (a : DiffArea) (c : Chunk) (result : Ret) (p : Phase)
      → at p c ≡ true
      → c.diff_io ≡ some async_read
      → Next p (chunk_notify_load P k a c result).1
  loaded-Next k a c result p h io =
      either p (writing false false) broken (chunk_notify_load P k a c result).1
        (ground (arith, notify_load_either P k a c result (reads_at p c h io))) (λ _. refl)
        (λ _. refl)
    where
      reads_at :
          (p : Phase) (c : Chunk)
          → at p c ≡ true
          → c.diff_io ≡ some async_read
          → at reading c ≡ true
      reads_at p c h io = ground (arith, io)

  -- A write that ends.
  written-Next :
      (k : Answers) (a : DiffArea) (c : Chunk) (result : Ret) (p : Phase)
      → at p c ≡ true
      → c.diff_io ≡ some async_write
      → Next p (chunk_notify_store P k a c result).1
  written-Next k a c result (writing true x) h io =
      either (writing true x) saved broken (chunk_notify_store P k a c result).1
        (ground (arith, notify_store_either P k a c result true x h)) (λ _. refl) (λ _. refl)
  written-Next k a c result (writing false x) h io =
      either (writing false x) (cached false true) broken (chunk_notify_store P k a c result).1
        (ground (arith, notify_store_either P k a c result false x h)) (λ _. refl) (λ _. refl)
  written-Next k a c result empty h io = absurd (ground (arith, io))
  written-Next k a c result broken h io = absurd (ground (arith, io))
  written-Next k a c result reading h io = absurd (ground (arith, io))
  written-Next k a c result saved h io = absurd (ground (arith, io))
  written-Next k a c result (cached d x) h io = absurd (ground (arith, io))

  -- A chunk that is released after a request.
  put-Next :
      (k : Answers) (a : DiffArea) (c : Chunk) (is_write : Bool) (p : Phase)
      → at p c ≡ true
      → (c.locked ≡ true) × (c.diff_io ≡ none) × (c.state.is_buffer_ready ≡ true)
      → Next p (diff_area_image_put_chunk K P k a c is_write).1
  put-Next k a c is_write (cached d x) h (locked, idle, ready) =
      either (cached d x) (cached (is_write || d) x) broken
        (diff_area_image_put_chunk K P k a c is_write).1
        (at-or (cached (is_write || d) x) broken (diff_area_image_put_chunk K P k a c is_write).1
          (put_chunk-Phase K P k a c is_write d x (ground arith)))
        (λ s. ground arith) (λ _. refl)
  put-Next k a c is_write empty h (locked, idle, ready) = absurd (ground arith)
  put-Next k a c is_write broken h (locked, idle, ready) = absurd (ground arith)
  put-Next k a c is_write reading h (locked, idle, ready) = absurd (ground arith)
  put-Next k a c is_write saved h (locked, idle, ready) = absurd (ground arith)
  put-Next k a c is_write (writing d x) h (locked, idle, ready) = absurd (ground arith)

  move-Next : (c c' : Chunk) (p : Phase) → at p c ≡ true → Moves c c' → Next p c'
  move-Next c c' p h (copies k nowait a _ free) =
      copied-Next p (copy_chunk K P k nowait a (down c))
        (copy_chunk-Phase K P k nowait a c p (ground arith))
  move-Next c c' p h (loads k a _ result io) = loaded-Next k a c result p h io
  move-Next c c' p h (stores k a _ result io) = written-Next k a c result p h io
  move-Next c c' p h (releases k a _ free) = released-Next k a c p (ground arith)
  move-Next c c' p h (opens k a _ free) =
      opened-Next p (open_chunk K P k a (down c)) (open_chunk-Phase K P k a c p (ground arith))
  move-Next c c' p h (puts k a _ is_write held) = put-Next k a c is_write p h held

  -- Any history from a chunk in a phase ends in a phase, and in a safe one if the first is safe.
  pub History-Next : (c c' : Chunk) (p : Phase) → at p c ≡ true → History c c' → Next p c'
  History-Next c _ p h (start _) = (p, h, λ s. s)
  History-Next c _ p h (next _ c₁ c₂ before move) =
      let (p₁, at₁, safe₁) = History-Next c c₁ p h before in
      let (p₂, at₂, safe₂) = move-Next c₁ c₂ p₁ at₁ move in (p₂, at₂, λ s. safe₂ (safe₁ s))
