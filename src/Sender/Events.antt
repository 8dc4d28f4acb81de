-- ===== src/Sender/Events.antt =====
-- `onEventReadyRead_` of src/raop_sender.cpp: each request on the event connection is decrypted and
-- answered with an encrypted 200.
pub mod Invariant
use airplay2_sender_cpp.Base.{
  ℕ, zero, suc, true, false, ◌&&◌, [], ◌∷◌, ◌++◌, Option, none, some, Bytes, codes, length, drop,
  ltb, ◌==◌, if◌then◌else◌,
}
use airplay2_sender_cpp.Crypto.Backend.{Backend}
use airplay2_sender_cpp.Frames.{Unframed, frame, unframe, next_counter}
use airplay2_sender_cpp.Text.{Headers, find_split, split_on, header_value}
use airplay2_sender_cpp.Text.Numbers.{ℤ, pos, negsuc, to_int}
use airplay2_sender_cpp.Sender.Stage.{is_idle}
use airplay2_sender_cpp.Sender.Action.{tcp_send, RaopTcp}
use airplay2_sender_cpp.Sender.State.{Sender, Ap2, emit, crash}
use airplay2_sender_cpp.Sender.Request.{crlf, optional_line}
use airplay2_sender_cpp.Sender.Receive.{parse_lines}

positive : ℤ → ℕ
positive (pos n) = n
positive (negsuc n) = 0

-- The CSeq of a whole request and the bytes behind it.
whole_request : Headers → Bytes → Option (Bytes × Bytes)
unfolding header_value positive to_int
whole_request h behind =
    let n = positive (to_int (header_value h (codes "content-length") [])) in
    if ltb (length behind) n then none else some (header_value h (codes "cseq") [], drop n behind)

split_request : Option (Bytes × Bytes) → Option (Bytes × Bytes)
unfolding whole_request split_on parse_lines
split_request none = none
split_request (some (head, behind)) = whole_request (parse_lines (split_on 10 head) []) behind

unfoldable pub next_request : Bytes → Option (Bytes × Bytes)
unfolding split_request find_split
next_request buf = split_request (find_split (13 ∷ (10 ∷ (13 ∷ (10 ∷ [])))) buf)

-- The bare answer, with the CSeq of the request if it carried one.
unfoldable pub event_answer : Bytes → Bytes
unfolding optional_line
event_answer cseq =
    codes "RTSP/1.0 200 OK"
    ++ (crlf
        ++ (codes "Server: AirTunes/550.10"
            ++ (crlf ++ (optional_line (codes "CSeq") cseq ++ crlf))))

module _ (b : Backend) where
  answered : Sender → Option Bytes → Sender
  answered s none = crash s
  answered s (some out) = emit (tcp_send RaopTcp.event out) (record s {
    events = record (s.events) { event_send_ctr = next_counter s.events.event_send_ctr };
  })

  -- The `for (;;)` over the requests; a request has at least four bytes.
  unfoldable pub requests_loop : ℕ → Bytes → Sender → Sender
  unfolding answered next_request frame event_answer
  requests_loop zero key s = s
  requests_loop (suc fuel) key s = elim (next_request s.events.event_plain_buf) [
    | none ↦ s
    | some (cseq, rest) ↦
        let t =
          answered (record s { events = record (s.events) { event_plain_buf = rest } })
            (frame b key s.events.event_send_ctr (event_answer cseq)) in
        elim t.fault [ true ↦ t | false ↦ requests_loop fuel key t ]
  ]

  -- The frames that were read; a frame that fails empties the buffer and ends the read.
  unfoldable pub event_unframed : Unframed → Bytes → Sender → Sender
  unfolding requests_loop
  event_unframed u key s =
      let buf = s.events.event_plain_buf ++ u.plain in
      let t = record s {
        events = record (s.events) {
          event_recv_ctr = u.ctr;
          event_enc_buf = if u.failed then [] else u.rest;
          event_plain_buf = buf;
        };
      } in
      elim u.failed [ true ↦ t | false ↦ requests_loop (length buf) key t ]

  events_with : Bytes → Sender → Option Ap2 → Sender
  unfolding event_unframed unframe
  events_with bytes s none = s
  events_with bytes s (some a) = elim ((length a.event_in == 32) && (length a.event_out == 32)) [
    | true ↦
        event_unframed
          (unframe b a.event_in s.events.event_recv_ctr (s.events.event_enc_buf ++ bytes))
          a.event_out s
    | false ↦ s
  ]

  -- `onEventReadyRead_`
  unfoldable pub on_event_ready_read : Bytes → Sender → Sender
  unfolding events_with
  on_event_ready_read bytes s = if is_idle s.state then s else events_with bytes s s.ap2
