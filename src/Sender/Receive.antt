-- ===== src/Sender/Receive.antt =====
-- `onRtspReadyRead_` and `onEventReadyRead_` of src/raop_sender.cpp: bytes from the control and the
-- event connection, decrypted, cut into messages and answered.
pub mod Invariant
pub mod Tests
pub mod Tampering
use airplay2_sender_cpp.Base.{
  ℕ, zero, suc, ◌*◌, Bool, true, false, not, ◌&&◌, ◌||◌, List, [], ◌∷◌, ◌++◌, Option, none, some,
  Bytes, codes, length, take, drop, ltb, if◌then◌else◌,
}
use airplay2_sender_cpp.Crypto.Backend.{Backend}
use airplay2_sender_cpp.Frames.{Unframed, unframe}
use airplay2_sender_cpp.Text.{
  Headers, find_split, split_on, trim_ascii, lower_ascii, header_value, starts_with,
}
use airplay2_sender_cpp.Text.Numbers.{ℤ, pos, negsuc, to_int, to_int?}
use airplay2_sender_cpp.Sender.Stage.{is_idle}
use airplay2_sender_cpp.Sender.State.{Sender, Ap2}
use airplay2_sender_cpp.Sender.Lifecycle.{fail}
use airplay2_sender_cpp.Sender.Pairing.Replies.{on_pairing_response}
use airplay2_sender_cpp.Sender.Responses.{handle_response}

-- "key: value" of a trimmed line, cut at the first colon.
keyed_line : Option (Bytes × Bytes) → Headers → Headers
unfolding trim_ascii lower_ascii
keyed_line none h = h
keyed_line (some ([], behind)) h = h
keyed_line (some (c ∷ cs, behind)) h = (trim_ascii (lower_ascii (c ∷ cs)), trim_ascii behind) ∷ h

-- The headers of the lines; the last entry of a key counts, and so stands first.
unfoldable pub parse_lines : List Bytes → Headers → Headers
unfolding keyed_line find_split trim_ascii
parse_lines [] h = h
parse_lines (l ∷ ls) h = parse_lines ls (keyed_line (find_split (codes ":") (trim_ascii l)) h)

-- A length that is junk or negative counts as 0.
natural : Option ℤ → ℕ
natural none = 0
natural (some (pos n)) = n
natural (some (negsuc n)) = 0

unfoldable pub content_length : Headers → ℕ
unfolding natural to_int? header_value
content_length h = natural (to_int? (header_value h (codes "content-length") (codes "0")))

-- A whole message: its status line, its headers and its body.
pub record Message : Type 0 where
  pub status : Bytes
  pub headers : Headers
  pub body : Bytes

-- What the buffer starts with: a message and the bytes behind it, or nothing that is whole.
whole_message : Bytes → Headers → Bytes → Option (Message × Bytes)
unfolding content_length trim_ascii
whole_message status h behind =
    let n = content_length h in
    if ltb (length behind) n
    then none
    else some
        (record { status = trim_ascii status; headers = h; body = take n behind }, drop n behind)

head_lines : List Bytes → Bytes → Option (Message × Bytes)
unfolding whole_message parse_lines
head_lines [] behind = whole_message [] [] behind
head_lines (status ∷ ls) behind = whole_message status (parse_lines ls []) behind

split_head : Option (Bytes × Bytes) → Option (Message × Bytes)
unfolding head_lines split_on
split_head none = none
split_head (some (head, behind)) = head_lines (split_on 10 head) behind

unfoldable pub next_message : Bytes → Option (Message × Bytes)
unfolding split_head find_split
next_message buf = split_head (find_split (13 ∷ (10 ∷ (13 ∷ (10 ∷ [])))) buf)

second : List Bytes → Bytes
second (x ∷ (y ∷ ys)) = y
second _ = []

unfoldable pub status_code : Bytes → ℤ
unfolding second split_on to_int
status_code status = to_int (second (split_on b' ' status))

unfoldable pub is_reply : Bytes → Bool
unfolding starts_with
is_reply status = starts_with (codes "RTSP/") status || starts_with (codes "HTTP/") status

module _ (b : Backend) where
  -- A reply goes to the one or the other dispatcher.
  unfoldable pub route : Bool → Bytes → Message → Sender → Sender
  unfolding on_pairing_response handle_response status_code
  route is_http method m s =
      if is_http
      then on_pairing_response b (status_code m.status) m.body s
      else handle_response b method (status_code m.status) m.headers s

  unfoldable pub take_pending : List Bytes → List Bool → Message → Sender → Sender
  unfolding route
  take_pending [] hs m s = s
  take_pending (method ∷ ms) [] m s = route false method m (record s { pending_methods = ms })
  take_pending (method ∷ ms) (h ∷ hs) m s =
      route h method m (record s { pending_methods = ms; pending_is_http = hs })

  -- One message: a reply belongs to the oldest request, anything else is ignored.
  unfoldable pub on_message : Message → Sender → Sender
  unfolding take_pending is_reply
  on_message m s =
      if is_reply m.status then take_pending s.pending_methods s.pending_is_http m s else s

  no_pending : List Bytes → Bool
  no_pending [] = true
  no_pending (x ∷ xs) = false

  -- Whether the session is over after a reply that was dispatched, or an exception has escaped.
  unfoldable pub is_over : Message → Sender → Sender → Bool
  unfolding no_pending is_reply
  is_over m s t =
      is_idle t.state && (is_reply m.status && not (no_pending s.pending_methods)) || t.fault

  abbrev pub with_rx : Bytes → Sender → Sender
  with_rx buf s = record s { chan = record (s.chan) { rx_buf = buf } }

  -- The `for (;;)`, which ends when no message is whole or the session is over. The number bounds
  -- the rounds: a message has at least four bytes.
  unfoldable pub messages_loop : ℕ → Sender → Sender
  unfolding on_message next_message is_over
  messages_loop zero s = s
  messages_loop (suc fuel) s = elim (next_message s.chan.rx_buf) [
    | none ↦ s
    | some (m, rest) ↦
        let t = on_message m (with_rx rest s) in
        elim (is_over m s t) [ true ↦ t | false ↦ messages_loop fuel t ]
  ]

  -- The plain text joins the receive buffer, of at most 4 MiB.
  unfoldable pub received : Bytes → Sender → Sender
  unfolding messages_loop fail
  received plain s =
      let buf = s.chan.rx_buf ++ plain in
      elim (ltb (4 * 1024 * 1024) (length buf)) [
        | true ↦ fail (codes "Oversized RTSP response from the receiver") (with_rx buf s)
        | false ↦ messages_loop (length buf) (with_rx buf s)
      ]

  -- The frames that were read: a frame that fails ends the session before its text is looked at.
  unfoldable pub unframed : Unframed → Sender → Sender
  unfolding received fail
  unframed u s =
      let t = record s {
        chan = record (s.chan) { rtsp_enc_buf = u.rest; ctrl_recv_ctr = u.ctr };
      } in
      elim u.failed [
        | true ↦
            fail (codes "Encrypted control channel authentication failed")
              (with_rx (s.chan.rx_buf ++ u.plain) t)
        | false ↦ received u.plain t
      ]

  ready_with : Bytes → Sender → Option Ap2 → Sender
  unfolding received unframed unframe
  ready_with bytes s none = received bytes s
  ready_with bytes s (some a) = elim s.chan.control_encrypted [
    | true ↦ unframed (unframe b a.control_in s.chan.ctrl_recv_ctr (s.chan.rtsp_enc_buf ++ bytes)) s
    | false ↦ received bytes s
  ]

  -- `onRtspReadyRead_`
  unfoldable pub on_rtsp_ready_read : Bytes → Sender → Sender
  unfolding ready_with
  on_rtsp_ready_read bytes s = ready_with bytes s s.ap2
