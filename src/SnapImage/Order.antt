-- ===== src/SnapImage/Order.antt =====
-- Threads that submit bios to an image device, its worker, and what else happens to the area, in any
-- order (module/snapimage.c).
use blksnap.Prelude.{
  ℕ, ◌≡◌, refl, sym, ap, ◌∙◌, inl, inr, Option, none, some, List, [], ◌∷◌, ◌++◌, All, All-append,
  arith, Bool-cases,
}
use mathlib.Core.List.{append_assoc}
use blksnap.Kernel.{Params, Rounding}
use blksnap.Area.Data.{DiffArea, Answers, diff_area_is_corrupted}
use blksnap.SnapImage.{
  sts_ioerr, Bio, Finished, Looped, looped, asleep, faults, no_fuel, Processed, ended, sleeps, null,
  out_of_fuel, end_bio, snapimage_process_bio, SnapImage, get_bio_from_queue, snapimage_submit_bio,
  Drained, drained, stopped, and_first, snapimage_kthread_worker_fn,
}

-- The device, with the bios that were queued so far and those that were completed, each in order, and
-- the one that the worker has taken off the queue.
pub record Traffic : Type 0 where
  pub image : SnapImage
  pub accepted : List Bio
  pub in_flight : Option Bio
  pub finished : List Finished
  pub refused : List Finished

abbrev pub bios : List Finished → List Bio
bios [] = []
bios (f ∷ fs) = f.bio ∷ bios fs

bios-append : (fs gs : List Finished) → bios (fs ++ gs) ≡ bios fs ++ bios gs
bios-append [] gs = refl
bios-append (f ∷ fs) gs = ap (λ l. f.bio ∷ l) (bios-append fs gs)

abbrev pub submitted : Bio → Traffic → Option Finished × SnapImage → Traffic
submitted b d (none, i) = record d { image = i; accepted = d.accepted ++ (b ∷ []) }
submitted b d (some f, i) = record d { image = i; refused = d.refused ++ (f ∷ []) }

-- A step: a bio is submitted, the worker takes one, completes the one it has, or the area changes.
-- The worker holds no lock while it processes a bio, so that what it sees of the area (`seen`) and what
-- the area is at the end (`now`) may be anything.
pub data Step (process : DiffArea → Bio → Processed) : Traffic → Traffic → Type 0 where
  submit : (d : Traffic) (b : Bio) → Step process d (submitted b d (snapimage_submit_bio b d.image))
  take :
      (d : Traffic) (b : Bio) (i : SnapImage)
      → d.in_flight ≡ none
      → get_bio_from_queue d.image ≡ (some b, i)
      → Step process d (record d { image = i; in_flight = some b })
  complete :
      (d : Traffic) (b : Bio) (f : Finished) (seen a now : DiffArea)
      → d.in_flight ≡ some b
      → process seen b ≡ ended f a
      → Step process d (record d {
        image = record d.image { diff_area = now };
        in_flight = none;
        finished = d.finished ++ (f ∷ []);
      })
  change :
      (d : Traffic) (a : DiffArea)
      → Step process d (record d { image = record d.image { diff_area = a } })

pub data Steps (process : DiffArea → Bio → Processed) (d : Traffic) : Traffic → Type 0 where
  here : Steps process d d
  next : {c e : Traffic} → Steps process d c → Step process c e → Steps process d e

abbrev pub flying : Option Bio → List Bio
flying none = []
flying (some b) = b ∷ []

-- Every queued bio is completed, in flight or waits, in the order of the queue, and those refused have
-- an error.
record IsInOrder (d : Traffic) : Type 0 where
  fifo : d.accepted ≡ bios d.finished ++ (flying d.in_flight ++ d.image.queue)
  errors : All (λ f. f.status ≡ sts_ioerr) d.refused

-- The bio that is completed is the one that was given.
abbrev Honest : (DiffArea → Bio → Processed) → Type 0
Honest process = (a a' : DiffArea) (b : Bio) (f : Finished) → process a b ≡ ended f a' → f.bio ≡ b

module _ (K : Rounding) (P : Params) (fuel : ℕ) (copy : ℕ → ℕ) (k : ℕ → Answers) where
  end_bio-bio :
      (b : Bio) (l : Looped) (f : Finished) (a : DiffArea)
      → end_bio K P fuel copy k b l ≡ ended f a
      → f.bio ≡ b
  unfolding end_bio
  end_bio-bio b (looped ps a' x) f a h = ground arith
  end_bio-bio b (asleep a') f a h = cc
  end_bio-bio b faults f a h = cc
  end_bio-bio b no_fuel f a h = cc

  process-Honest : Honest (snapimage_process_bio K P fuel copy k)
  unfolding snapimage_process_bio
  process-Honest a a' b f h = end_bio-bio b _ f a' h

submitted-IsInOrder :
    (d : Traffic) (b : Bio)
    → IsInOrder d
    → IsInOrder (submitted b d (snapimage_submit_bio b d.image))
unfolding snapimage_submit_bio
submitted-IsInOrder d b o = elim (Bool-cases (diff_area_is_corrupted d.image.diff_area)) [
  | inl corrupted ↦ rw corrupted (record {
    fifo = o.fifo;
    errors = All-append (λ f. f.status ≡ sts_ioerr) d.refused _ o.errors (refl, tt);
  })
  | inr fine ↦ rw fine (record {
    fifo =
        ap (λ l. l ++ (b ∷ [])) o.fifo
        ∙ append_assoc (bios d.finished) (flying d.in_flight ++ d.image.queue) (b ∷ [])
        ∙ ap (λ l. bios d.finished ++ l) (append_assoc (flying d.in_flight) d.image.queue (b ∷ []));
    errors = o.errors;
  })
]

popped :
    (q : List Bio) (i i' : SnapImage) (b : Bio)
    → i.queue ≡ q
    → get_bio_from_queue i ≡ (some b, i')
    → q ≡ b ∷ i'.queue
unfolding get_bio_from_queue
popped [] i i' b e h = ground (arith, e)
popped (x ∷ q) i i' b e h = ground (arith, e)

taken_first :
    (i i' : SnapImage) (b : Bio) → get_bio_from_queue i ≡ (some b, i') → i.queue ≡ b ∷ i'.queue
taken_first i i' b h = popped i.queue i i' b refl h

Step-IsInOrder :
    {process : DiffArea → Bio → Processed} {c d : Traffic}
    → Honest process
    → Step process c d
    → IsInOrder c
    → IsInOrder d
Step-IsInOrder honest (submit d b) o = submitted-IsInOrder d b o
Step-IsInOrder honest (take d b i free took) o = record {
  fifo =
      o.fifo
      ∙ ap (λ x. bios d.finished ++ (flying x ++ d.image.queue)) free
      ∙ ap (λ q. bios d.finished ++ q) (taken_first d.image i b took);
  errors = o.errors;
}
Step-IsInOrder honest (complete d b f seen a now has done) o = record {
  fifo =
      o.fifo
      ∙ ap (λ x. bios d.finished ++ (flying x ++ d.image.queue)) has
      ∙ ap (λ x. bios d.finished ++ (x ∷ d.image.queue)) (sym (honest seen a b f done))
      ∙ sym (append_assoc (bios d.finished) (f.bio ∷ []) d.image.queue)
      ∙ ap (λ l. l ++ d.image.queue) (sym (bios-append d.finished (f ∷ [])));
  errors = o.errors;
}
Step-IsInOrder honest (change d a) o = record { fifo = o.fifo; errors = o.errors }

Steps-IsInOrder :
    {process : DiffArea → Bio → Processed} {c d : Traffic}
    → Honest process
    → Steps process c d
    → IsInOrder c
    → IsInOrder d
Steps-IsInOrder honest here o = o
Steps-IsInOrder honest (next ss s) o = Step-IsInOrder honest s (Steps-IsInOrder honest ss o)

after_first :
    (f : Finished) (b : Bio) (q : List Bio) (d : Drained) (fs : List Finished) (a : DiffArea)
    → f.bio ≡ b
    → ((gs : List Finished) (x : DiffArea) → d ≡ drained gs x → bios gs ≡ q)
    → and_first f d ≡ drained fs a
    → bios fs ≡ b ∷ q
after_first f b q (drained gs x) fs a is rest e = ground (arith, rest gs x refl)
after_first f b q (stopped gs p) fs a is rest e = cc

drained_first :
    (process : DiffArea → Bio → Processed) (b : Bio) (q : List Bio) (p : Processed)
    (fs : List Finished) (a : DiffArea)
    → ((f : Finished) (x : DiffArea) → p ≡ ended f x → f.bio ≡ b)
    → ((gs : List Finished) (x y : DiffArea)
        → snapimage_kthread_worker_fn process q x ≡ drained gs y
        → bios gs ≡ q)
    → elim p [
      | ended f x ↦ and_first f (snapimage_kthread_worker_fn process q x)
      | sleeps x ↦ stopped [] (sleeps x)
      | null ↦ stopped [] null
      | out_of_fuel ↦ stopped [] out_of_fuel
    ]
      ≡ drained fs a
    → bios fs ≡ b ∷ q
drained_first process b q (ended f x) fs a honest rest e =
    after_first f b q (snapimage_kthread_worker_fn process q x) fs a (honest f x refl)
      (λ gs y. rest gs x y) e
drained_first process b q (sleeps x) fs a honest rest e = cc
drained_first process b q null fs a honest rest e = cc
drained_first process b q out_of_fuel fs a honest rest e = cc

drained-bios :
    {process : DiffArea → Bio → Processed} (q : List Bio) (a a' : DiffArea) (fs : List Finished)
    → Honest process
    → snapimage_kthread_worker_fn process q a ≡ drained fs a'
    → bios fs ≡ q
unfolding snapimage_kthread_worker_fn
drained-bios [] a a' fs honest h = ground arith
drained-bios {process} (b ∷ q) a a' fs honest h =
    drained_first process b q (process a b) fs a' (λ f x e. honest a x b f e)
      (λ gs x y e. drained-bios q x y gs honest e) h

-- Bios submitted to an image device by any threads while the worker takes and completes others and the
-- area changes, also while a bio is processed, from a device with an empty queue: those that were
-- queued are the completed ones, the one in flight if there is one, and those that wait, in the order
-- of submission, so that each is completed at most once; those refused for a corrupted area have
-- BLK_STS_IOERR; and where none is in flight and the worker then goes to the end of the queue with
-- nothing else happening, every queued bio was completed, in order.
pub served_in_order :
    (K : Rounding) (P : Params) (fuel : ℕ) (copy : ℕ → ℕ) (k : ℕ → Answers) (a a' : DiffArea)
    (d : Traffic) (fs : List Finished)
    → Steps
        (snapimage_process_bio K P fuel copy k)
        (record {
          image = record { queue = []; diff_area = a };
          accepted = [];
          in_flight = none;
          finished = [];
          refused = [];
        })
        d
    → (d.accepted ≡ bios d.finished ++ (flying d.in_flight ++ d.image.queue))
      × All (λ f. f.status ≡ sts_ioerr) d.refused
      × (d.in_flight ≡ none
          → snapimage_kthread_worker_fn
              (snapimage_process_bio K P fuel copy k)
              d.image.queue
              d.image.diff_area
            ≡ drained fs a'
          → d.accepted ≡ bios (d.finished ++ fs))
served_in_order K P fuel copy k a a' d fs ss =
    let honest = process-Honest K P fuel copy k in
    let o = Steps-IsInOrder honest ss (record { fifo = refl; errors = tt }) in
    (
      o.fifo,
      o.errors,
      λ free h.
          o.fifo
          ∙ ap (λ x. bios d.finished ++ (flying x ++ d.image.queue)) free
          ∙ ap (λ q. bios d.finished ++ q)
              (sym (drained-bios d.image.queue d.image.diff_area a' fs honest h))
          ∙ sym (bios-append d.finished fs),
    )
