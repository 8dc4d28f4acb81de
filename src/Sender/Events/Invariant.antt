-- ===== src/Sender/Events/Invariant.antt =====
-- `onEventReadyRead_` of src/raop_sender.cpp keeps the invariant.
use airplay2_sender_cpp.Base.{
  ℕ, zero, suc, true, false, ◌&&◌, [], ◌++◌, Option, none, some, Bytes, length, ◌==◌, if-both,
  elim-split, if◌then◌else◌,
}
use airplay2_sender_cpp.Crypto.Backend.{Backend}
use airplay2_sender_cpp.Frames.{Unframed, unframe, frame}
use airplay2_sender_cpp.Sender.Stage.{is_idle}
use airplay2_sender_cpp.Sender.State.{Sender, Ap2}
use airplay2_sender_cpp.Sender.Invariant.{Inv, same-Inv}
use airplay2_sender_cpp.Sender.Events.{
  next_request, event_answer, answered, requests_loop, event_unframed, events_with,
  on_event_ready_read,
}

module _ (b : Backend) where
  answered-Inv : (s : Sender) (o : Option Bytes) → Inv s → Inv (answered b s o)
  unfolding answered
  answered-Inv s none i = same-Inv i.facts
  answered-Inv s (some out) i = same-Inv i.facts

  requests_loop-Inv :
      (fuel : ℕ) (key : Bytes) (s : Sender) → Inv s → Inv (requests_loop b fuel key s)
  unfolding requests_loop
  requests_loop-Inv zero key s i = i
  requests_loop-Inv (suc fuel) key s i =
      elim (next_request s.events.event_plain_buf)
        as (λ (o : Option (Bytes × Bytes)). Inv (elim o [
          | none ↦ s
          | some (cseq, rest) ↦
              let t =
                answered b (record s { events = record (s.events) { event_plain_buf = rest } })
                  (frame b key s.events.event_send_ctr (event_answer cseq)) in
              elim t.fault [ true ↦ t | false ↦ requests_loop b fuel key t ]
        ])) [
          | none ↦ i
          | some (cseq, rest) ↦
              let u = record s { events = record (s.events) { event_plain_buf = rest } } in
              let o = frame b key s.events.event_send_ctr (event_answer cseq) in
              let j = answered-Inv u o (same-Inv i.facts) in
              elim-split Inv (answered b u o).fault _ _ (λ e. j)
                (λ e. requests_loop-Inv fuel key (answered b u o) j)
        ]

  event_unframed-Inv :
      (u : Unframed) (key : Bytes) (s : Sender) → Inv s → Inv (event_unframed b u key s)
  unfolding event_unframed
  event_unframed-Inv u key s i =
      let buf = s.events.event_plain_buf ++ u.plain in
      let t = record s {
        events = record (s.events) {
          event_recv_ctr = u.ctr;
          event_enc_buf = if u.failed then [] else u.rest;
          event_plain_buf = buf;
        };
      } in
      elim-split Inv u.failed _ _ (λ e. same-Inv {t = t} i.facts)
        (λ e. requests_loop-Inv (length buf) key t (same-Inv i.facts))

  events_with-Inv :
      (bytes : Bytes) (s : Sender) (o : Option Ap2) → Inv s → Inv (events_with b bytes s o)
  unfolding events_with
  events_with-Inv bytes s none i = i
  events_with-Inv bytes s (some a) i =
      elim-split Inv ((length a.event_in == 32) && (length a.event_out == 32)) _ _
        (λ e.
          event_unframed-Inv
            (unframe b a.event_in s.events.event_recv_ctr (s.events.event_enc_buf ++ bytes))
            a.event_out s i)
        (λ e. i)

  pub on_event_ready_read-Inv :
      (bytes : Bytes) (s : Sender) → Inv s → Inv (on_event_ready_read b bytes s)
  unfolding on_event_ready_read
  on_event_ready_read-Inv bytes s i =
      if-both Inv (is_idle s.state) _ _ i (events_with-Inv bytes s s.ap2 i)
