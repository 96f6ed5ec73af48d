-- ===== src/Kernel.antt =====
-- What the module takes from the kernel: error numbers, 64-bit arithmetic, and the macros
-- `round_up` and `round_down`, whose code is not in the repository.
use blksnap.Prelude.{ℕ, ◌+◌, ◌-◌, ◌*◌, ◌/◌, ◌%◌, ◌^◌, ◌≤◌, ◌≡◌, refl, ◌⊎◌, inl, inr}

-- The errors that the module returns, without their sign. `other` is one that a kernel call made.
pub data Errno : Type 0 where
  einval enomem eagain enospc efault eio enoent eintr ebusy enodata enodev eperm enobufs esrch :
      Errno
  ealready enotty : Errno
  other : ℕ → Errno

-- An `int` result: 0, or a negative error number.
pub data Ret : Type 0 where
  ok : Ret
  err : Errno → Ret

abbrev pub sector_shift : ℕ
sector_shift = 9

abbrev pub page_shift : ℕ
page_shift = 12

-- `u64`, `sector_t` and `size_t` arithmetic, and an `unsigned long` on a 64-bit machine.
abbrev pub u64 : ℕ → ℕ
u64 n = n % 2 ^ 64

abbrev pub add64 : ℕ → ℕ → ℕ
add64 a b = u64 (a + b)

abbrev pub sub64 : ℕ → ℕ → ℕ
sub64 a b = u64 (a + 2 ^ 64 - b)

abbrev pub u8 : ℕ → ℕ
u8 n = n % 256

-- `1ull << s`, which keeps no bit from s = 64 on.
abbrev pub shl_one : ℕ → ℕ
shl_one s = u64 (2 ^ s)

-- `round_up` and `round_down` of the kernel, as documented: the next and the previous multiple of
-- a power of two, where the next one still fits in 64 bits.
pub record Rounding : Type 0 where
  pub round_up : ℕ → ℕ → ℕ
  pub round_down : ℕ → ℕ → ℕ
  pub round_up-pow :
      (x k : ℕ) → x + 2 ^ k ≤ 2 ^ 64 → round_up x (2 ^ k) ≡ (x + 2 ^ k - 1) / 2 ^ k * 2 ^ k
  pub round_down-pow : (x k : ℕ) → round_down x (2 ^ k) ≡ x / 2 ^ k * 2 ^ k

-- An implementation of the two macros.
abbrev pub dividing : Rounding
dividing = record {
  round_up = λ x y. (x + y - 1) / y * y;
  round_down = λ x y. x / y * y;
  round_up-pow = λ x k h. refl;
  round_down-pow = λ x k. refl;
}

-- The parameters of the module (module/main.c) that the modelled files read.
pub record Params : Type 0 where
  pub tracking_block_minimum_shift : ℕ
  pub tracking_block_maximum_count : ℕ
  pub chunk_minimum_shift : ℕ
  pub chunk_maximum_count : ℕ
  pub chunk_maximum_in_cache : ℕ
  pub free_diff_buffer_pool_size : ℕ
  pub diff_storage_minimum : ℕ

abbrev pub default_params : Params
default_params = record {
  tracking_block_minimum_shift = 16;
  tracking_block_maximum_count = 2097152;
  chunk_minimum_shift = 18;
  chunk_maximum_count = 2097152;
  chunk_maximum_in_cache = 32;
  free_diff_buffer_pool_size = 128;
  diff_storage_minimum = 2097152;
}

pub Ret-cases : (r : Ret) → (r ≡ ok) ⊎ ((e : Errno) × (r ≡ err e))
Ret-cases ok = inl refl
Ret-cases (err e) = inr (e, refl)
