-- ===== src/Area/Protected.antt =====
-- What copy-on-write promises for a chunk (module/chunk.c, module/diff_area.c): once a write to the
-- original device could pass, the old data is never looked for on that device.
use blksnap.Prelude.{ℕ, ◌≡◌, sym, ap, ◌∙◌, Bool, true, false, ◌||◌, some, arith}
use blksnap.Kernel.{Ret, Params, Rounding}
use blksnap.Area.Data.{Chunk, DiffArea, Answers, down}
use blksnap.Area.Phases.{safe, Phase, empty, at}
use blksnap.Area.Chunk.{chunk_alloc}
use blksnap.Area.Chunk.Life.{alloc-Phase}
use blksnap.Area.Copy.{continue, copy_chunk}
use blksnap.Area.Copy.Life.{passed, after_copy, copy_chunk-Phase}
use blksnap.Area.Image.{open_chunk}
use blksnap.Area.Image.Life.{open_chunk-without_orig}
use blksnap.Area.History.{History, History-Next}

module _ (K : Rounding) (P : Params) where
  served :
      (c : Chunk) (p : Phase)
      → at p c ≡ true
      → safe p ≡ true
      → c.locked ≡ false
      → c.state.is_failed || c.state.is_buffer_ready || c.state.is_store_ready ≡ true
  served c p h s free = ground arith

  -- Take a new chunk, any history of it that leaves its semaphore free, and then a write to the
  -- original device, whose copy-on-write lets the chunk pass. After any further history the chunk is
  -- in a safe phase: its data is in its buffer or region, or being copied, or it is marked as failed.
  -- A request that then finds the semaphore free does not read the chunk from the original device,
  -- which may hold the new data by now: it comes to the same however such a read would end.
  pub protected_for_ever :
      (number : ℕ) (c₀ c c' : Chunk) (k : Answers) (nowait : Bool) (a a₁ : DiffArea) (c₁ : Chunk)
      → chunk_alloc P true number ≡ some c₀
      → History K P c₀ c
      → c.locked ≡ false
      → copy_chunk K P k nowait a (down c) ≡ continue a₁ c₁
      → History K P c₁ c'
      → ((p : Phase) × (at p c' ≡ true) × (safe p ≡ true))
        × (c'.locked ≡ false
            → (k' : Answers) (a' : DiffArea) (orig : Ret)
            → open_chunk K P k' a' (down c')
              ≡ open_chunk K P (record k' { orig_error = orig }) a' (down c'))
  protected_for_ever number c₀ c c' k nowait a a₁ c₁ made before free passes after =
      let (p, at_p, _) = History-Next K P c₀ c empty (alloc-Phase P number c₀ made) before in
      let (p₁, at₁, safe₁) =
        passed p a₁ c₁
          (ap (after_copy p) (sym passes) ∙ copy_chunk-Phase K P k nowait a c p (ground arith)) in
      let (p₂, at₂, safe₂) = History-Next K P c₁ c' p₁ at₁ after in
      (
        (p₂, at₂, safe₂ safe₁),
        λ at_rest k' a' orig.
            open_chunk-without_orig K P k' a' (down c') orig
              (served c' p₂ at₂ (safe₂ safe₁) at_rest),
      )
