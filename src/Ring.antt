-- ===== src/Ring.antt =====
-- src/ring_buffer.h: the single-producer single-consumer ring that carries PCM to the sender.
-- `size_t` has 64 bits and wraps; `T{}`, the value that `make_unique<T[]>` fills in, is `blank`.
pub mod Contents
pub mod Push
pub mod Pop
pub mod Threads
pub mod Capacity
mod Tests
use airplay2_sender_cpp.Base.{
  ℕ, ◌+◌, ◌-◌, ◌/◌, ◌%◌, ◌^◌, bit_and, bit_or, min, Bool, true, false, List, [], ◌++◌, length, take,
  drop, replicate, ltb, if◌then◌else◌, Option, none, some,
}

pub record Ring (A : Type 0) : Type 0 where
  pub mask : ℕ
  pub buffer : List A
  pub read : ℕ
  pub write : ℕ

-- `size_t` arithmetic.
abbrev pub size_mod : ℕ
size_mod = 2 ^ 64

abbrev pub size_add : ℕ → ℕ → ℕ
size_add a b = (a + b) % size_mod

abbrev pub size_sub : ℕ → ℕ → ℕ
size_sub a b = (a + size_mod - b) % size_mod

-- `v |= v >> k`
smear : ℕ → ℕ → ℕ
smear k v = bit_or v (v / 2 ^ k)

pub next_pow2 : ℕ → ℕ
unfolding smear
next_pow2 v =
    size_add (smear 32 (smear 16 (smear 8 (smear 4 (smear 2 (smear 1 (size_sub v 1))))))) 1

module _ {A : Type 0} where
  pub capacity : Ring A → ℕ
  capacity r = size_add r.mask 1

  -- `RingBuffer(requested_size)`
  pub create : A → ℕ → Ring A
  create blank requested = record {
    mask = size_sub (next_pow2 requested) 1;
    buffer = replicate (size_add (size_sub (next_pow2 requested) 1) 1) blank;
    read = 0;
    write = 0;
  }

  -- `memcpy(buffer + pos, xs, ...)`: `xs` over the elements from `pos` on.
  pub copy_in : List A → ℕ → List A → List A
  copy_in buf pos xs = take pos buf ++ (xs ++ drop (pos + length xs) buf)

  -- The two copies of `tryPush`: `first` elements from `pos` on, the others at the front.
  pub copy_around : List A → ℕ → ℕ → List A → List A
  unfolding copy_in
  copy_around buf pos first xs = copy_in (copy_in buf pos (take first xs)) 0 (drop first xs)

  pub store : Ring A → ℕ → List A → List A
  unfolding capacity
  store r wr xs =
      let pos = bit_and wr r.mask in
      copy_around r.buffer pos (min (length xs) (size_sub (capacity r) pos)) xs

  -- `tryPush`, where `rd` is the value that `read_.load` returned.
  pub push_seen : ℕ → Ring A → List A → Bool × Ring A
  unfolding capacity store
  push_seen rd r xs =
      if ltb (size_sub (capacity r) (size_sub r.write rd)) (length xs)
      then (false, r)
      else (true, record r { buffer = store r r.write xs; write = size_add r.write (length xs) })

  pub try_push : Ring A → List A → Bool × Ring A
  unfolding push_seen
  try_push r xs = push_seen r.read r xs

  -- The two copies of `tryPop` at read position `rd`.
  pub fetch : Ring A → ℕ → ℕ → List A
  unfolding capacity
  fetch r rd n =
      let pos = bit_and rd r.mask in
      let first = min n (size_sub (capacity r) pos) in
      take first (drop pos r.buffer) ++ take (n - first) r.buffer

  -- `tryPop` into a span of `n` elements, where `wr` is the value that `write_.load` returned.
  -- What goes into the span is the option; on a refusal the span is left as it was.
  pub pop_seen : ℕ → Ring A → ℕ → Option (List A) × Ring A
  unfolding fetch
  pop_seen wr r n =
      if ltb (size_sub wr r.read) n
      then (none, r)
      else (some (fetch r r.read n), record r { read = size_add r.read n })

  pub try_pop : Ring A → ℕ → Option (List A) × Ring A
  unfolding pop_seen
  try_pop r n = pop_seen r.write r n

  pub available_read : Ring A → ℕ
  available_read r = size_sub r.write r.read

  pub available_write : Ring A → ℕ
  unfolding capacity available_read
  available_write r = size_sub (capacity r) (available_read r)

  pub reset : Ring A → Ring A
  reset r = record r { read = 0; write = 0 }
