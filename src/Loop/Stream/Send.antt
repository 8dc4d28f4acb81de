-- ===== src/Loop/Stream/Send.antt =====
-- `tcpSend` of src/raop_loop.cpp appends to the stream of its connection.
use airplay2_sender_cpp.Base.{
  if-both, drop-append_of_le, ℕ, ◌≡◌, ◌⊎◌, inl, inr, refl, ap, sym, ◌∙◌, true, false, not, ◌||◌, [],
  ◌∷◌, ◌++◌, Option, none, some, Bytes, length, ◌==◌, arith, append_assoc, append-nil, if-split,
  length-append,
}
use airplay2_sender_cpp.Sender.Action.{RaopTcp}
use airplay2_sender_cpp.Loop.System.{Sock, Os, Loop, tcp_slot, is_bad}
use airplay2_sender_cpp.Loop.Slots.{drain}
use airplay2_sender_cpp.Loop.Io.{is_none, tcp_send, park_error, queue_bytes}
use airplay2_sender_cpp.Loop.Stream.{
  taken, pending, SendLaw, IsWithin, stream, Stuck, Drains, drain-Drains,
}

empty_of_length : (bytes : Bytes) → length bytes ≡ 0 → bytes ≡ []
empty_of_length [] e = refl
empty_of_length (x ∷ bytes) e = absurd (omega arith)

unconnected :
    (ch : RaopTcp) (bytes : Bytes) (l : Loop)
    → not (tcp_slot ch (queue_bytes ch bytes l)).connected ≡ true
    → (tcp_slot ch l).connected ≡ false
unconnected RaopTcp.control bytes l e = ground arith
unconnected RaopTcp.event bytes l e = ground arith

On-queue_bytes :
    (ch : RaopTcp) (bytes : Bytes) (l : Loop)
    → (tcp_slot ch (queue_bytes ch bytes l)).fd ≡ (tcp_slot ch l).fd
On-queue_bytes RaopTcp.control bytes l = refl
On-queue_bytes RaopTcp.event bytes l = refl

module _ (os : Os) where
  -- A note of a failed send changes neither the bytes nor the calls.
  park_error-Drains :
      (rounds : ℕ) (ch : RaopTcp) (fd : Sock) (l : Loop) (r : Loop × Option ℕ)
      → Drains os fd ch l r.0
      → Drains os fd ch l (park_error os rounds ch r)
  unfolding park_error
  park_error-Drains rounds ch fd l (m, none) d = d
  park_error-Drains rounds RaopTcp.control fd l (m, some e) d =
      if-both (Drains os fd RaopTcp.control l) (is_none m.tcp_control.send_failed) _ _ d d
  park_error-Drains rounds RaopTcp.event fd l (m, some e) d =
      if-both (Drains os fd RaopTcp.event l) (is_none m.tcp_event.send_failed) _ _ d d

  queue_bytes_lem :
      (ch : RaopTcp) (fd : Sock) (bytes : Bytes) (l : Loop)
      → IsWithin os (tcp_slot ch l)
      → (stream os fd ch (queue_bytes ch bytes l) ≡ stream os fd ch l ++ bytes)
        × IsWithin os (tcp_slot ch (queue_bytes ch bytes l))
  queue_bytes_lem RaopTcp.control fd bytes l w = (
    ap (λ r. taken os fd l.log ++ r)
          (drop-append_of_le l.tcp_control.out_off l.tcp_control.out bytes w)
        ∙ sym (append_assoc (taken os fd l.log) (pending l.tcp_control) bytes),
    omega (arith, length-append l.tcp_control.out bytes),
  )
  queue_bytes_lem RaopTcp.event fd bytes l w = (
    ap (λ r. taken os fd l.log ++ r) (drop-append_of_le l.tcp_event.out_off l.tcp_event.out bytes w)
        ∙ sym (append_assoc (taken os fd l.log) (pending l.tcp_event) bytes),
    omega (arith, length-append l.tcp_event.out bytes),
  )

  -- What `tcp_send` with `bytes` makes of a loop: the bytes stand at the end of the stream, and as
  -- many as the system takes have gone, if the connection stands.
  abbrev pub Queues : RaopTcp → Bytes → Loop → Loop → Type 0
  Queues ch bytes l m =
      let fd = (tcp_slot ch l).fd in
      (stream os fd ch m ≡ stream os fd ch l ++ bytes)
      × IsWithin os (tcp_slot ch m)
      × (((tcp_slot ch l).connected ≡ false)
          ⊎ ((length bytes ≡ 0) ⊎ ((pending (tcp_slot ch m) ≡ []) ⊎ Stuck os m)))

  -- On an open slot whose offset lies within its bytes, over a system whose `send` takes no more than
  -- it is given, `tcp_send` puts its bytes at the end of the stream, which is what the system has
  -- taken on this socket followed by what is pending, and changes nothing before them. Unless the
  -- connection is still being made or there was nothing to send, then nothing is pending or the
  -- system's last answer took no byte.
  pub tcp_send-Queues :
      (rounds : ℕ) (law : SendLaw os) (ch : RaopTcp) (bytes : Bytes) (l : Loop)
      → is_bad (tcp_slot ch l).fd ≡ false
      → IsWithin os (tcp_slot ch l)
      → Queues ch bytes l (tcp_send os rounds ch bytes l)
  unfolding tcp_send
  tcp_send-Queues rounds law ch bytes l open_fd w =
      if-split (Queues ch bytes l) (is_bad (tcp_slot ch l).fd || length bytes == 0) _ _
        (λ e.
          let none_left : length bytes ≡ 0 = ground arith in
          (
            sym (
                ap (λ r. stream os (tcp_slot ch l).fd ch l ++ r) (empty_of_length bytes none_left)
                ∙ append-nil _),
            w,
            inr (inl none_left),
          ))
        (λ e.
          let (queued, within) = queue_bytes_lem ch (tcp_slot ch l).fd bytes l w in
          let l' = queue_bytes ch bytes l in
          if-split (Queues ch bytes l) (not (tcp_slot ch l').connected) _ _
            (λ j. (queued, within, inl (unconnected ch bytes l j)))
            (λ j.
              let (same, kept, rest) =
                park_error-Drains rounds ch (tcp_slot ch l).fd l' (drain os ch l') (
                  drain-Drains os law ch (tcp_slot ch l).fd l' (On-queue_bytes ch bytes l)
                    within) in
              (same ∙ queued, kept, inr (inr rest))))
