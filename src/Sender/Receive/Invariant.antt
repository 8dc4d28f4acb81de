-- ===== src/Sender/Receive/Invariant.antt =====
-- `onRtspReadyRead_` of src/raop_sender.cpp keeps the invariant, and so a reply always finds its kind.
use airplay2_sender_cpp.Base.{
  ℕ, zero, suc, ◌*◌, ◌≡◌, Bool, true, false, List, [], ◌∷◌, ◌++◌, Option, none, some, Bytes, codes,
  length, ltb, if-both, elim-split, arith,
}
use airplay2_sender_cpp.Crypto.Backend.{Backend}
use airplay2_sender_cpp.Frames.{Unframed, unframe}
use airplay2_sender_cpp.Sender.State.{Sender, Ap2}
use airplay2_sender_cpp.Sender.Invariant.{Inv, same-Inv}
use airplay2_sender_cpp.Sender.Lifecycle.Invariant.{fail-Inv}
use airplay2_sender_cpp.Sender.Pairing.Replies.Invariant.{on_pairing_response-Inv}
use airplay2_sender_cpp.Sender.Responses.Invariant.{handle_response-Inv}
use airplay2_sender_cpp.Sender.Receive.{
  Message, next_message, status_code, is_reply, route, take_pending, on_message, is_over, with_rx,
  messages_loop, received, unframed, ready_with, on_rtsp_ready_read,
}

module _ (b : Backend) where
  route-Inv :
      (is_http : Bool) (method : Bytes) (m : Message) (s : Sender)
      → Inv s
      → Inv (route b is_http method m s)
  unfolding route
  route-Inv is_http method m s i =
      if-both Inv is_http _ _ (on_pairing_response-Inv b (status_code m.status) m.body s i)
        (handle_response-Inv b method (status_code m.status) m.headers s i)

  take_pending-Inv :
      (ms : List Bytes) (hs : List Bool) (m : Message) (s : Sender)
      → length ms ≡ length hs
      → Inv s
      → Inv (take_pending b ms hs m s)
  unfolding take_pending
  take_pending-Inv [] hs m s e i = i
  take_pending-Inv (method ∷ ms) [] m s e i = absurd (omega arith)
  take_pending-Inv (method ∷ ms) (h ∷ hs) m s e i =
      let (paired, kept, tags, frames, staged, quiet) = i.facts in
      let shorter : length ms ≡ length hs = omega arith in
      route-Inv h method m (record s { pending_methods = ms; pending_is_http = hs })
        (same-Inv (shorter, kept, tags, frames, staged, quiet))

  on_message-Inv : (m : Message) (s : Sender) → Inv s → Inv (on_message b m s)
  unfolding on_message
  on_message-Inv m s i =
      if-both Inv (is_reply m.status) _ _
        (take_pending-Inv s.pending_methods s.pending_is_http m s i.facts.0 i) i

  messages_loop-Inv : (fuel : ℕ) (s : Sender) → Inv s → Inv (messages_loop b fuel s)
  unfolding messages_loop
  messages_loop-Inv zero s i = i
  messages_loop-Inv (suc fuel) s i =
      elim (next_message s.chan.rx_buf)
        as (λ (o : Option (Message × Bytes)). Inv (elim o [
          | none ↦ s
          | some (m, rest) ↦
              let t = on_message b m (with_rx b rest s) in
              elim (is_over b m s t) [ true ↦ t | false ↦ messages_loop b fuel t ]
        ])) [
          | none ↦ i
          | some (m, rest) ↦
              let t = on_message b m (with_rx b rest s) in
              let j = on_message-Inv m (with_rx b rest s) (same-Inv i.facts) in
              elim-split Inv (is_over b m s t) _ _ (λ e. j) (λ e. messages_loop-Inv fuel t j)
        ]

  received-Inv : (plain : Bytes) (s : Sender) → Inv s → Inv (received b plain s)
  unfolding received
  received-Inv plain s i =
      let buf = s.chan.rx_buf ++ plain in
      elim-split Inv (ltb (4 * 1024 * 1024) (length buf)) _ _
        (λ e.
          fail-Inv (codes "Oversized RTSP response from the receiver") (with_rx b buf s)
            (same-Inv i.facts))
        (λ e. messages_loop-Inv (length buf) (with_rx b buf s) (same-Inv i.facts))

  unframed-Inv : (u : Unframed) (s : Sender) → Inv s → Inv (unframed b u s)
  unfolding unframed
  unframed-Inv u s i =
      let t = record s {
        chan = record (s.chan) { rtsp_enc_buf = u.rest; ctrl_recv_ctr = u.ctr };
      } in
      elim-split Inv u.failed _ _
        (λ e.
          fail-Inv (codes "Encrypted control channel authentication failed")
            (with_rx b (s.chan.rx_buf ++ u.plain) t) (same-Inv i.facts))
        (λ e. received-Inv u.plain t (same-Inv i.facts))

  ready_with-Inv :
      (bytes : Bytes) (s : Sender) (o : Option Ap2) → Inv s → Inv (ready_with b bytes s o)
  unfolding ready_with
  ready_with-Inv bytes s none i = received-Inv bytes s i
  ready_with-Inv bytes s (some a) i =
      elim-split Inv s.chan.control_encrypted _ _
        (λ e.
          unframed-Inv (unframe b a.control_in s.chan.ctrl_recv_ctr (s.chan.rtsp_enc_buf ++ bytes))
            s i)
        (λ e. received-Inv bytes s i)

  pub on_rtsp_ready_read-Inv :
      (bytes : Bytes) (s : Sender) → Inv s → Inv (on_rtsp_ready_read b bytes s)
  unfolding on_rtsp_ready_read
  on_rtsp_ready_read-Inv bytes s i = ready_with-Inv bytes s s.ap2 i
