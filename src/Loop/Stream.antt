-- ===== src/Loop/Stream.antt =====
-- The bytes that `tcpSend` and `drain` of src/raop_loop.cpp hand to the system.
pub mod Send
use airplay2_sender_cpp.Base.{
  if-both, drop-append_of_le, subst, ℕ, zero, suc, ◌+◌, ◌-◌, ◌≤◌, ◌<◌, ◌≡◌, ◌⊎◌, inl, inr, refl, ap,
  sym, ◌∙◌, Bool, true, false, not, ◌||◌, List, [], ◌∷◌, ◌++◌, Option, none, some, Bytes, length,
  take, drop, ◌==◌, if◌then◌else◌, arith, append_assoc, append-nil, elim-split, if-split,
  take-append-drop, length-drop, drop_all, length-append,
}
use airplay2_sender_cpp.Sender.Action.{RaopTcp}
use airplay2_sender_cpp.Loop.System.{Sock, Sys, Os, TcpSlot, Loop, sock_eq, tcp_slot, is_bad, reply}
use airplay2_sender_cpp.Loop.Slots.{
  drain, drain_loop, drained, unsent, sent_up, all_sent, send_next,
}
use airplay2_sender_cpp.Loop.Io.{is_none, tcp_send, is_positive, park_error, queue_bytes}
use airplay2_sender_cpp.Loop.Descriptors.Primitives.{slot-ask}

-- The bytes of a slot that are still to be sent.
abbrev pub pending : TcpSlot → Bytes
pending s = drop s.out_off s.out

-- The bytes that a `send` has got rid of.
abbrev pub sent_part : Option ℕ → Bytes → Bytes
sent_part none bytes = []
sent_part (some n) bytes = take n bytes

drop_nil : (n : ℕ) → drop {A = ℕ} n [] ≡ []
drop_nil zero = refl
drop_nil (suc n) = refl

suc_add : (m n : ℕ) → suc (m + n) ≡ suc m + n
suc_add m n = omega arith

drop-drop : (m n : ℕ) (xs : Bytes) → drop n (drop m xs) ≡ drop (m + n) xs
drop-drop zero n xs = ap (λ k. drop k xs) (omega arith)
drop-drop (suc m) n [] = drop_nil n ∙ sym (drop_nil (suc m + n))
drop-drop (suc m) n (x ∷ xs) = drop-drop m n xs ∙ ap (λ k. drop k (x ∷ xs)) (suc_add m n)

-- What is sent of the pending bytes and what is pending then make up what was pending.
sent_and_pending :
    (before out : Bytes) (off n : ℕ)
    → (before ++ take n (drop off out)) ++ drop (off + n) out ≡ before ++ drop off out
sent_and_pending before out off n =
    append_assoc before (take n (drop off out)) (drop (off + n) out)
    ∙ ap (λ r. before ++ r)
        (ap (λ r. take n (drop off out) ++ r) (sym (drop-drop off n out))
          ∙ take-append-drop n (drop off out))

eq_self : (x : ℕ) → (x == x) ≡ true
eq_self x = ground arith

sock_eq_self : (s : Sock) → sock_eq s s ≡ true
sock_eq_self none = refl
sock_eq_self (some x) = eq_self x

sock_eq_of_eq : (s fd : Sock) → s ≡ fd → sock_eq s fd ≡ true
sock_eq_of_eq s fd e = subst (λ r. sock_eq s r ≡ true) e (sock_eq_self s)

module _ (os : Os) where
  -- The bytes that the system has taken on the socket `fd` so far.
  abbrev pub taken : Sock → List Sys → Bytes
  taken fd [] = []
  taken fd (Sys.send s bytes ∷ log) =
      taken fd log
      ++ (if sock_eq s fd then sent_part (os.answer (Sys.send s bytes ∷ log)).count bytes else [])
  taken fd (sys ∷ log) = taken fd log

  -- `send` never takes more than it is given.
  pub record SendLaw : Type 0 where
    pub bounded :
        (fd : Sock) (bytes : Bytes) (log : List Sys) (n : ℕ)
        → (os.answer (Sys.send fd bytes ∷ log)).count ≡ some n
        → n ≤ length bytes

  -- The offset of a slot lies within its bytes.
  abbrev pub IsWithin : TcpSlot → Type 0
  IsWithin s = s.out_off ≤ length s.out

  -- The bytes that a connection has taken, and those that wait for it.
  abbrev pub stream : Sock → RaopTcp → Loop → Bytes
  stream fd ch l = taken fd l.log ++ pending (tcp_slot ch l)

  -- The last call of the system was a `send` that took nothing.
  abbrev pub Stuck : Loop → Type 0
  Stuck l = is_positive (reply os l).count ≡ false

  -- The slot has the socket `fd`.
  abbrev pub On : Sock → RaopTcp → Loop → Type 0
  On fd ch l = (tcp_slot ch l).fd ≡ fd

  abbrev room : TcpSlot → ℕ
  room s = length s.out - s.out_off

  taken-send :
      (fd s : Sock) (bytes : Bytes) (log : List Sys) (n : Option ℕ)
      → s ≡ fd
      → (os.answer (Sys.send s bytes ∷ log)).count ≡ n
      → taken fd (Sys.send s bytes ∷ log) ≡ taken fd log ++ sent_part n bytes
  taken-send fd s bytes log n e k =
      ap
        (λ (b : Bool).
          taken fd log
          ++ (if b then sent_part (os.answer (Sys.send s bytes ∷ log)).count bytes else []))
        (sock_eq_of_eq s fd e)
      ∙ ap (λ m. taken fd log ++ sent_part m bytes) k

  stream-sent_up :
      (ch : RaopTcp) (fd : Sock) (l : Loop) (n : ℕ)
      → On fd ch l
      → (reply os (send_next ch l)).count ≡ some n
      → stream fd ch (sent_up ch n (send_next ch l)) ≡ stream fd ch l
  stream-sent_up RaopTcp.control fd l n e k =
      ap (λ r. r ++ drop (l.tcp_control.out_off + n) l.tcp_control.out)
        (taken-send fd l.tcp_control.fd (pending l.tcp_control) l.log (some n) e k)
      ∙ sent_and_pending (taken fd l.log) l.tcp_control.out l.tcp_control.out_off n
  stream-sent_up RaopTcp.event fd l n e k =
      ap (λ r. r ++ drop (l.tcp_event.out_off + n) l.tcp_event.out)
        (taken-send fd l.tcp_event.fd (pending l.tcp_event) l.log (some n) e k)
      ∙ sent_and_pending (taken fd l.log) l.tcp_event.out l.tcp_event.out_off n

  -- A `send` that takes nothing.
  stream-send_next :
      (ch : RaopTcp) (fd : Sock) (l : Loop) (n : Option ℕ)
      → On fd ch l
      → (reply os (send_next ch l)).count ≡ n
      → ((bytes : Bytes) → sent_part n bytes ≡ [])
      → stream fd ch (send_next ch l) ≡ stream fd ch l
  stream-send_next ch fd l n e k z =
      ap (λ r. taken fd (send_next ch l).log ++ pending r) (slot-ask ch _ l)
      ∙ ap (λ r. r ++ pending (tcp_slot ch l))
          (taken-send fd (tcp_slot ch l).fd (pending (tcp_slot ch l)) l.log n e k
            ∙ (ap (λ r. taken fd l.log ++ r) (z (pending (tcp_slot ch l))) ∙ append-nil _))

  On-sent_up :
      (ch : RaopTcp) (fd : Sock) (l : Loop) (n : ℕ)
      → On fd ch l
      → On fd ch (sent_up ch n (send_next ch l))
  On-sent_up RaopTcp.control fd l n e = e
  On-sent_up RaopTcp.event fd l n e = e

  room-sent_up :
      (ch : RaopTcp) (l : Loop) (n fuel : ℕ)
      → unsent (tcp_slot ch l) ≡ true
      → room (tcp_slot ch l) < suc fuel
      → room (tcp_slot ch (sent_up ch (suc n) (send_next ch l))) < fuel
  room-sent_up RaopTcp.control l n fuel e k = ground arith
  room-sent_up RaopTcp.event l n fuel e k = ground arith

  IsWithin-sent_up :
      (ch : RaopTcp) (l : Loop) (n : ℕ)
      → n ≤ length (pending (tcp_slot ch l))
      → IsWithin (tcp_slot ch l)
      → IsWithin (tcp_slot ch (sent_up ch n (send_next ch l)))
  IsWithin-sent_up RaopTcp.control l n k w =
      omega (arith, length-drop l.tcp_control.out_off l.tcp_control.out)
  IsWithin-sent_up RaopTcp.event l n k w =
      omega (arith, length-drop l.tcp_event.out_off l.tcp_event.out)

  IsWithin-all_sent : (ch : RaopTcp) (l : Loop) → IsWithin (tcp_slot ch (all_sent ch l))
  IsWithin-all_sent RaopTcp.control l = omega arith
  IsWithin-all_sent RaopTcp.event l = omega arith

  all_sent_lem :
      (ch : RaopTcp) (fd : Sock) (l : Loop)
      → unsent (tcp_slot ch l) ≡ false
      → (stream fd ch (all_sent ch l) ≡ stream fd ch l)
        × (pending (tcp_slot ch (all_sent ch l)) ≡ [])
  all_sent_lem RaopTcp.control fd l e = (
    ap (λ r. taken fd l.log ++ r)
        (sym (drop_all l.tcp_control.out_off l.tcp_control.out (ground arith))),
    refl,
  )
  all_sent_lem RaopTcp.event fd l e = (
    ap (λ r. taken fd l.log ++ r)
        (sym (drop_all l.tcp_event.out_off l.tcp_event.out (ground arith))),
    refl,
  )

  -- No byte of the stream is lost, doubled or moved, and what is left waits for the system.
  abbrev Drains : Sock → RaopTcp → Loop → Loop → Type 0
  Drains fd ch l m =
      (stream fd ch m ≡ stream fd ch l)
      × IsWithin (tcp_slot ch m)
      × ((pending (tcp_slot ch m) ≡ []) ⊎ Stuck m)

  IsWithin-send_next :
      (ch : RaopTcp) (l : Loop) → IsWithin (tcp_slot ch l) → IsWithin (tcp_slot ch (send_next ch l))
  IsWithin-send_next RaopTcp.control l w = w
  IsWithin-send_next RaopTcp.event l w = w

  drained-Drains :
      (more : Loop → Loop × Option ℕ) (ch : RaopTcp) (fd : Sock) (l : Loop) (n : Option ℕ)
      → ((k : ℕ)
          → (reply os (send_next ch l)).count ≡ some (suc k)
          → Drains fd ch
              (sent_up ch (suc k) (send_next ch l))
              (more (sent_up ch (suc k) (send_next ch l))).0)
      → On fd ch l
      → IsWithin (tcp_slot ch l)
      → (reply os (send_next ch l)).count ≡ n
      → Drains fd ch l (drained os more ch (send_next ch l) n).0
  unfolding drained
  drained-Drains more ch fd l none f e w k = (
    stream-send_next ch fd l none e k (λ bytes. refl),
    IsWithin-send_next ch l w,
    inr (ap is_positive k),
  )
  drained-Drains more ch fd l (some zero) f e w k = (
    stream-send_next ch fd l (some 0) e k (λ bytes. refl),
    IsWithin-send_next ch l w,
    inr (ap is_positive k),
  )
  drained-Drains more ch fd l (some (suc n)) f e w k =
      let (same, within, rest) = f n k in (same ∙ stream-sent_up ch fd l (suc n) e k, within, rest)

  drain_loop-Drains :
      (law : SendLaw) (fuel : ℕ) (ch : RaopTcp) (fd : Sock) (l : Loop)
      → On fd ch l
      → IsWithin (tcp_slot ch l)
      → room (tcp_slot ch l) < fuel
      → Drains fd ch l (drain_loop os fuel ch l).0
  unfolding drain_loop
  drain_loop-Drains law zero ch fd l e w h = elim h [ ]
  drain_loop-Drains law (suc fuel) ch fd l e w h =
      elim-split (λ (r : Loop × Option ℕ). Drains fd ch l r.0) (unsent (tcp_slot ch l)) _ _
        (λ u.
          drained-Drains (drain_loop os fuel ch) ch fd l _
            (λ k j.
              drain_loop-Drains law fuel ch fd _ (On-sent_up ch fd l (suc k) e)
                (IsWithin-sent_up ch l (suc k) (law.bounded _ _ l.log (suc k) j) w)
                (room-sent_up ch l k fuel u h))
            e w refl)
        (λ u. let (same, done) = all_sent_lem ch fd l u in (same, IsWithin-all_sent ch l, inl done))

  pub drain-Drains :
      (law : SendLaw) (ch : RaopTcp) (fd : Sock) (l : Loop)
      → On fd ch l
      → IsWithin (tcp_slot ch l)
      → Drains fd ch l (drain os ch l).0
  unfolding drain
  drain-Drains law ch fd l e w =
      drain_loop-Drains law (suc (length (tcp_slot ch l).out)) ch fd l e w (omega arith)
