-- ===== src/Snapshot/Store.antt =====
-- The snapshots of module/snapshot.c as objects with reference counters on the list `snapshots`, with
-- the trackers of module/tracker.c and their areas. A snapshot is named by a number, and 0 is the
-- head of the list. The links are explicit, since the ring of a snapshot need not be that of the head.
use blksnap.Prelude.{
  ℕ, ◌==◌, ◌≡◌, ◌≢◌, refl, Bool, Option, none, some, List, [], ◌∷◌, if◌then◌else◌,
}
use blksnap.Kernel.{Params, Rounding}
use blksnap.Cbt.{Memory}
use blksnap.Storage.{DiffStorage, Alarm}
use blksnap.Area.Data.{DiffArea}
use blksnap.Area.Size.{OrigBdev, Making as AreaMaking}
use blksnap.Tracker.Devices.{World, Opened, Making, write_tracker}
use blksnap.SnapImage.{Making as ImageMaking}
use blksnap.Snapshot.{Device}

-- The two pointers of each `struct list_head`.
pub record Links : Type 0 where
  pub next : ℕ → ℕ
  pub prev : ℕ → ℕ

-- The operations of include/linux/list.h on them, with the pointers that they write: a new ring, an
-- entry put before `head`, and an entry taken out, whose own pointers are no longer of use.
pub record Lists : Type 0 where
  pub init_list_head : ℕ → Links → Links
  pub list_add_tail : (new head : ℕ) → Links → Links
  pub list_del : ℕ → Links → Links
  pub init-next :
      (n x : ℕ) (l : Links) → (init_list_head n l).next x ≡ (if x == n then n else l.next x)
  pub init-prev :
      (n x : ℕ) (l : Links) → (init_list_head n l).prev x ≡ (if x == n then n else l.prev x)
  pub add-next :
      (new head x : ℕ) (l : Links)
      → (list_add_tail new head l).next x
        ≡ (if x == l.prev head then new else if x == new then head else l.next x)
  pub add-prev :
      (new head x : ℕ) (l : Links)
      → (list_add_tail new head l).prev x
        ≡ (if x == new then l.prev head else if x == head then new else l.prev x)
  pub del-next :
      (e x : ℕ) (l : Links)
      → x ≢ e
      → (list_del e l).next x ≡ (if x == l.prev e then l.next e else l.next x)
  pub del-prev :
      (e x : ℕ) (l : Links)
      → x ≢ e
      → (list_del e l).prev x ≡ (if x == l.next e then l.prev e else l.prev x)

-- An implementation of them.
abbrev pub linking : Lists
linking = record {
  init_list_head = λ n l. record {
    next = λ x. if x == n then n else l.next x;
    prev = λ x. if x == n then n else l.prev x;
  };
  list_add_tail = λ new head l. record {
    next = λ x. if x == l.prev head then new else if x == new then head else l.next x;
    prev = λ x. if x == new then l.prev head else if x == head then new else l.prev x;
  };
  list_del = λ e l. record {
    next = λ x. if x == l.prev e then l.next e else l.next x;
    prev = λ x. if x == l.next e then l.prev e else l.prev x;
  };
  init-next = λ n x l. refl;
  init-prev = λ n x l. refl;
  add-next = λ new head x l. refl;
  add-prev = λ new head x l. refl;
  del-next = λ e x l _. refl;
  del-prev = λ e x l _. refl;
}

-- `struct snapimage` as the snapshot sees it: its device, and the tracker whose map and area it holds.
pub record Image : Type 0 where
  pub disk : ℕ
  pub tracker : ℕ

-- `struct snapshot`. The arrays have the `count` entries that were filled.
pub record Snapshot : Type 0 where
  pub id : ℕ
  pub is_taken : Bool
  pub diff_storage : DiffStorage
  pub tracker_array : List (Option ℕ)
  pub snapimage_array : List (Option Image)

-- The list, the snapshots with their counters, the next number, and the trackers with what is frozen
-- of each. `area_kref` counts the references of the area of a tracker, and `freed` and `areas_freed`
-- list the snapshots and the areas that were freed, in order.
pub record Store : Type 0 where
  pub snapshots : Links
  pub objects : ℕ → Snapshot
  pub kref : ℕ → ℕ
  pub next_snapshot : ℕ
  pub world : World
  pub queue_frozen : ℕ → Bool
  pub fs_frozen : ℕ → ℕ
  pub area_kref : ℕ → ℕ
  pub freed : List ℕ
  pub areas_freed : List ℕ

-- What the kernel answers for a tracker when its snapshot is taken or released.
pub record Answers : Type 0 where
  pub can_freeze : Bool
  pub can_thaw : Bool
  pub can_freeze_again : Bool
  pub can_thaw_again : Bool
  pub memory : Memory
  pub uuid : ℕ
  pub bdev : OrigBdev
  pub area : AreaMaking
  pub image : ImageMaking
  pub image_disk : ℕ
  -- whether writes corrupted the area before the check of `snapshot_take`
  pub meanwhile : DiffArea → DiffArea

-- What the kernel answers otherwise. `fuel` bounds the loops over the list and over sizes.
pub record Environment : Type 0 where
  pub lists : Lists
  pub rounding : Rounding
  pub params : Params
  pub fuel : ℕ
  pub mkdev : ℕ → ℕ → ℕ
  pub snapshot_alloc : Bool
  pub tracker_array_alloc : Bool
  pub snapimage_array_alloc : Bool
  pub storage_alloc : Bool
  pub alarm : Alarm
  pub uuid_gen : ℕ
  pub open_dev : ℕ → Opened
  pub making : ℕ → Making
  pub device : ℕ → Answers

-- How a call ends: it returns, it blocks for ever, it reads a null pointer, or the fuel is used up.
pub data Res (A : Type 0) : Type 0 where
  returns : A → Store → Res A
  blocks faults no_fuel : Res A

abbrev pub M : Type 0 → Type 0
M A = Store → Res A

infixl 5 ◌>>=◌ ◌>>◌
abbrev pub ◌>>=◌ : {A B : Type 0} → M A → (A → M B) → M B
◌>>=◌ m f st = elim (m st) [
  | returns a st' ↦ f a st'
  | blocks ↦ blocks
  | faults ↦ faults
  | no_fuel ↦ no_fuel
]

abbrev pub ◌>>◌ : {B : Type 0} → M (Unit {0}) → M B → M B
m >> k = m >>= λ _. k

abbrev pub pure : {A : Type 0} → A → M A
pure a st = returns a st

abbrev pub update : {V : Type 0} → (ℕ → V) → ℕ → V → ℕ → V
update g n v x = if x == n then v else g x

abbrev pub get_object : ℕ → M Snapshot
get_object s st = returns (st.objects s) st

abbrev pub put_object : ℕ → Snapshot → M (Unit {0})
put_object s o st = returns tt (record st { objects = update st.objects s o })

-- The tracker with what is known of it, as `snapshot_take_trackers` works on it, and back.
abbrev pub device_of : Environment → Store → ℕ → Device
device_of e st f = record {
  tracker = st.world.trackers f;
  queue_frozen = st.queue_frozen f;
  fs_frozen = st.fs_frozen f;
  can_freeze = (e.device f).can_freeze;
  can_thaw = (e.device f).can_thaw;
  can_freeze_again = (e.device f).can_freeze_again;
  can_thaw_again = (e.device f).can_thaw_again;
  memory = (e.device f).memory;
  uuid = (e.device f).uuid;
  capacity = (e.device f).bdev.bdev_nr_sectors;
}

abbrev pub write_device : ℕ → Device → Store → Store
write_device f d st = record st {
  world = write_tracker f d.tracker st.world;
  queue_frozen = update st.queue_frozen f d.queue_frozen;
  fs_frozen = update st.fs_frozen f d.fs_frozen;
}

abbrev pub gather : Environment → Store → List (Option ℕ) → List (Option Device)
gather e st [] = []
gather e st (none ∷ fs) = none ∷ gather e st fs
gather e st (some f ∷ fs) = some (device_of e st f) ∷ gather e st fs

abbrev pub scatter : List (Option ℕ) → List (Option Device) → Store → Store
scatter (some f ∷ fs) (some d ∷ ds) st = scatter fs ds (write_device f d st)
scatter (none ∷ fs) (_ ∷ ds) st = scatter fs ds st
scatter (some f ∷ fs) (none ∷ ds) st = scatter fs ds st
scatter (_ ∷ _) [] st = st
scatter [] _ st = st
