-- ===== src/Ring/Threads.antt =====
-- src/ring_buffer.h between its two threads: each call loads the other side's counter first, so the
-- value it works with may be old. The copy and the store of the own counter are one step, since
-- the release store orders them and the other side does not touch those elements before it.
use airplay2_sender_cpp.Base.{
  leb, length-append, length-tabulate, length, ℕ, ◌^◌, ◌≤◌, ◌≡◌, ap, sym, ◌∙◌, List, [], ◌∷◌, ◌++◌,
  arith, Option, none, some, Bool, true, false, if◌then◌else◌, append_assoc,
}
use airplay2_sender_cpp.Ring.{Ring, size_sub, push_seen, pop_seen}
use airplay2_sender_cpp.Ring.Contents.{IsValid, contents}
use airplay2_sender_cpp.Ring.Push.{Pushes, push_seen-Pushes}
use airplay2_sender_cpp.Ring.Pop.{Pops, pop_seen-Pops}

-- The ring, what each thread has loaded of the other's counter, and all that went in and came out.
pub record System (A : Type 0) : Type 0 where
  pub ring : Ring A
  pub seen_read : Option ℕ
  pub seen_write : Option ℕ
  pub sent : List A
  pub received : List A

-- A step of one of the threads.
pub data Event (A : Type 0) : Type 0 where
  load_read : Event A
  push : List A → Event A
  load_write : Event A
  pop : ℕ → Event A

module _ {A : Type 0} where
  pushed : System A → List A → Bool × Ring A → System A
  pushed s xs (done, r') = record s {
    ring = r';
    seen_read = none;
    sent = s.sent ++ (if done then xs else []);
  }

  popped : System A → Option (List A) × Ring A → System A
  popped s (none, r') = record s { ring = r'; seen_write = none }
  popped s (some ys, r') = record s { ring = r'; seen_write = none; received = s.received ++ ys }

  push_step : System A → List A → Option ℕ → System A
  unfolding pushed
  push_step s xs none = s
  push_step s xs (some rd) = pushed s xs (push_seen rd s.ring xs)

  pop_step : System A → ℕ → Option ℕ → System A
  unfolding popped
  pop_step s n none = s
  pop_step s n (some wr) = popped s (pop_seen wr s.ring n)

  -- A call that has not loaded the other counter yet cannot go on.
  pub step : System A → Event A → System A
  unfolding push_step pop_step
  step s load_read = record s { seen_read = some s.ring.read }
  step s (push xs) = push_step s xs s.seen_read
  step s load_write = record s { seen_write = some s.ring.write }
  step s (pop n) = pop_step s n s.seen_write

  pub run : System A → List (Event A) → System A
  unfolding step
  run s [] = s
  run s (e ∷ es) = run (step s e) es

  abbrev pub ReadSeen : ℕ → Ring A → Option ℕ → Type 0
  ReadSeen k r none = Unit {0}
  ReadSeen k r (some rd) =
      (size_sub r.write r.read ≤ size_sub r.write rd) × (size_sub r.write rd ≤ 2 ^ k)

  abbrev pub WriteSeen : Ring A → Option ℕ → Type 0
  WriteSeen r none = Unit {0}
  WriteSeen r (some wr) = size_sub wr r.read ≤ size_sub r.write r.read

-- Nothing is lost, repeated or reordered, and each loaded counter is one that was passed.
pub record Inv {A : Type 0} (blank : A) (k : ℕ) (s : System A) : Type 0 where
  pub valid : IsValid k s.ring
  pub fifo : s.sent ≡ s.received ++ contents blank k s.ring
  pub read_seen : ReadSeen k s.ring s.seen_read
  pub write_seen : WriteSeen s.ring s.seen_write

module _ {A : Type 0} (blank : A) (k : ℕ) where
  length-contents : (r : Ring A) → length (contents blank k r) ≡ size_sub r.write r.read
  length-contents r = length-tabulate (size_sub r.write r.read) _

  WriteSeen-mono :
      (r r' : Ring A) (o : Option ℕ)
      → r'.read ≡ r.read
      → size_sub r.write r.read ≤ size_sub r'.write r'.read
      → WriteSeen r o
      → WriteSeen r' o
  WriteSeen-mono r r' none e h w = tt
  WriteSeen-mono r r' (some wr) e h w = omega arith

  ReadSeen-mono :
      (r r' : Ring A) (o : Option ℕ)
      → r'.write ≡ r.write
      → size_sub r'.write r'.read ≤ size_sub r.write r.read
      → ReadSeen k r o
      → ReadSeen k r' o
  ReadSeen-mono r r' none e h w = tt
  ReadSeen-mono r r' (some rd) e h w = omega arith

  pushed-Inv :
      (s : System A) (xs : List A) (room : ℕ) (result : Bool × Ring A)
      → Inv blank k s
      → Pushes blank k s.ring xs room result
      → Inv blank k (pushed s xs result)
  unfolding pushed
  pushed-Inv s xs room (done, r') inv (e, v, c, same) = record {
    valid = v;
    fifo =
        ap (λ t. t ++ new) inv.fifo
        ∙ (append_assoc s.received (contents blank k s.ring) new ∙ ap (◌++◌ s.received) (sym c));
    read_seen = tt;
    write_seen = WriteSeen-mono s.ring r' s.seen_write same grows inv.write_seen;
  }
    where
      new : List A
      new = if done then xs else []

      grows : size_sub s.ring.write s.ring.read ≤ size_sub r'.write r'.read
      grows = omega (
        arith,
        length-contents s.ring,
        length-contents r',
        ap length c,
        length-append (contents blank k s.ring) new,
      )

  taken-Inv :
      (s : System A) (ys : List A) (r' : Ring A)
      → Inv blank k s
      → IsValid k r'
      → r'.write ≡ s.ring.write
      → contents blank k s.ring ≡ ys ++ contents blank k r'
      → Inv blank k (popped s (some ys, r'))
  unfolding popped
  taken-Inv s ys r' inv v same c = record {
    valid = v;
    fifo =
        inv.fifo
        ∙ (ap (◌++◌ s.received) c ∙ sym (append_assoc s.received ys (contents blank k r')));
    read_seen = ReadSeen-mono s.ring r' s.seen_read same shrinks inv.read_seen;
    write_seen = tt;
  }
    where
      shrinks : size_sub r'.write r'.read ≤ size_sub s.ring.write s.ring.read
      shrinks = omega (
        arith,
        length-contents s.ring,
        length-contents r',
        ap length c,
        length-append ys (contents blank k r'),
      )

  popped-Inv :
      (s : System A) (n ready : ℕ) (result : Option (List A) × Ring A)
      → Inv blank k s
      → Pops blank k s.ring n ready result
      → Inv blank k (popped s result)
  unfolding popped
  popped-Inv s n ready (out, r') inv (v, same, p) = go (leb n ready) p
    where
      go :
          (b : Bool)
          → (if b
              then ((ys : List A) × (out ≡ some ys)
                  × (length ys ≡ n)
                  × (contents blank k s.ring ≡ ys ++ contents blank k r'))
              else (out ≡ none) × (r' ≡ s.ring))
          → Inv blank k (popped s (out, r'))
      go true (ys, e, _, c) = rw e (taken-Inv s ys r' inv v same c)
      go false (e, f) =
          rw (e, f)
            (record {
              valid = inv.valid;
              fifo = inv.fifo;
              read_seen = inv.read_seen;
              write_seen = tt;
            })

  push_step-Inv :
      (s : System A) (xs : List A) (o : Option ℕ)
      → Inv blank k s
      → ReadSeen k s.ring o
      → Inv blank k (push_step s xs o)
  unfolding push_step
  push_step-Inv s xs none inv w = inv
  push_step-Inv s xs (some rd) inv w =
      pushed-Inv s xs _ (push_seen rd s.ring xs) inv
        (push_seen-Pushes blank k rd s.ring xs inv.valid w.0 w.1)

  pop_step-Inv :
      (s : System A) (n : ℕ) (o : Option ℕ)
      → Inv blank k s
      → WriteSeen s.ring o
      → Inv blank k (pop_step s n o)
  unfolding pop_step
  pop_step-Inv s n none inv w = inv
  pop_step-Inv s n (some wr) inv w =
      popped-Inv s n _ (pop_seen wr s.ring n) inv (pop_seen-Pops blank k wr s.ring n inv.valid w)

  -- One step of either thread keeps the invariant.
  step-Inv : (s : System A) (e : Event A) → Inv blank k s → Inv blank k (step s e)
  unfolding step
  step-Inv s load_read inv = record {
    valid = inv.valid;
    fifo = inv.fifo;
    read_seen = (omega arith, inv.valid.held);
    write_seen = inv.write_seen;
  }
  step-Inv s (push xs) inv = push_step-Inv s xs s.seen_read inv inv.read_seen
  step-Inv s load_write inv = record {
    valid = inv.valid;
    fifo = inv.fifo;
    read_seen = inv.read_seen;
    write_seen = omega arith;
  }
  step-Inv s (pop n) inv = pop_step-Inv s n s.seen_write inv inv.write_seen

  run-Inv : (s : System A) (es : List (Event A)) → Inv blank k s → Inv blank k (run s es)
  unfolding run
  run-Inv s [] inv = inv
  run-Inv s (e ∷ es) inv = run-Inv (step s e) es (step-Inv s e inv)

  -- However the steps of the two threads interleave, all that the producer has pushed is what the
  -- consumer has taken, in order, followed by what the ring holds; and the ring stays valid.
  pub run-fifo :
      (s : System A) (es : List (Event A))
      → Inv blank k s
      → ((run s es).sent ≡ (run s es).received ++ contents blank k (run s es).ring)
        × IsValid k (run s es).ring
  run-fifo s es inv = ((run-Inv s es inv).fifo, (run-Inv s es inv).valid)
