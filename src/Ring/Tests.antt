-- ===== src/Ring/Tests.antt =====
-- Runs of the ring buffer: a ring of four whose counters are about to wrap.
use airplay2_sender_cpp.Base.{ℕ, ◌-◌, ◌^◌, ◌≤◌, ◌≡◌, refl, List, [], ◌∷◌, ◌++◌, none, arith}
use airplay2_sender_cpp.Ring.{Ring, size_sub, push_seen, pop_seen, create, available_write}
use airplay2_sender_cpp.Ring.Contents.{IsValid, contents}
use airplay2_sender_cpp.Ring.Push.{Pushes, push_seen-Pushes}
use airplay2_sender_cpp.Ring.Pop.{Pops, pop_seen-Pops}
use airplay2_sender_cpp.Ring.Capacity.{Least, next_pow2-Least, create-IsValid}
use airplay2_sender_cpp.Ring.Threads.{
  push, pop, load_read, load_write, System, Event, run, run-fifo,
}

abbrev four : Ring ℕ
four = record { mask = 3; buffer = 10 ∷ (11 ∷ (12 ∷ (13 ∷ []))); read = 2 ^ 64 - 2; write = 1 }

four-IsValid : IsValid 2 four
four-IsValid = record {
  small = omega arith;
  mask_eq = refl;
  storage = refl;
  read_in = omega arith;
  write_in = omega arith;
  held = omega arith;
}

push_seen-Pushes_example :
    Pushes 0 2 four
      (7 ∷ [])
      (2 ^ 2 - size_sub four.write (2 ^ 64 - 3))
      (push_seen (2 ^ 64 - 3) four (7 ∷ []))
push_seen-Pushes_example =
    push_seen-Pushes 0 2 (2 ^ 64 - 3) four (7 ∷ []) four-IsValid (omega arith) (omega arith)

pop_seen-Pops_example : Pops 0 2 four 2 (size_sub 0 four.read) (pop_seen 0 four 2)
pop_seen-Pops_example = pop_seen-Pops 0 2 0 four 2 four-IsValid (omega arith)

next_pow2-Least_example : (k : ℕ) × (k ≤ 63) × Least 1000 k
next_pow2-Least_example = next_pow2-Least 1000 (omega arith) (omega arith)

abbrev silence : ℕ
silence = 0

create-IsValid_example :
    (k : ℕ) × IsValid {A = ℕ} k (create silence 1000)
    × (contents silence k (create silence 1000) ≡ [])
    × (1000 ≤ 2 ^ k)
    × (available_write (create silence 1000) ≡ 2 ^ k)
create-IsValid_example = create-IsValid silence 1000 (omega arith) (omega arith)

abbrev system : System ℕ
system = record {
  ring = four;
  seen_read = none;
  seen_write = none;
  sent = contents 0 2 four;
  received = [];
}

abbrev events : List (Event ℕ)
events = load_write ∷ (load_read ∷ (pop 2 ∷ (push (7 ∷ []) ∷ [])))

run-fifo_example :
    ((run system events).sent
      ≡ (run system events).received ++ contents 0 2 (run system events).ring)
    × IsValid 2 (run system events).ring
run-fifo_example =
    run-fifo 0 2 system events
      (record { valid = four-IsValid; fifo = refl; read_seen = tt; write_seen = tt })
