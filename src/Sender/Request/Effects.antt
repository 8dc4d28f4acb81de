-- ===== src/Sender/Request/Effects.antt =====
-- What the senders of requests of src/raop_sender.cpp touch, and what they leave alone.
use airplay2_sender_cpp.Base.{
  ℕ, suc, ◌≡◌, refl, ap, Bool, true, false, not, [], ◌∷◌, ◌++◌, Option, none, some, Bytes, codes,
  if-both, if◌then◌else◌,
}
use airplay2_sender_cpp.Crypto.Backend.{Backend}
use airplay2_sender_cpp.Frames.{frames}
use airplay2_sender_cpp.Text.{Headers}
use airplay2_sender_cpp.Sender.Stage.{is_shaking}
use airplay2_sender_cpp.Sender.State.{Sender, Ap2, arm_timeout}
use airplay2_sender_cpp.Sender.Request.{
  write_keyed, write_rtsp, send_framed, enqueue, bump_cseq, request_text, send_request, post_text,
  http_post, ap2_text, send_ap2_rtsp,
}

-- `t` is `s`, but for the channel, what went out and a fault.
abbrev pub Writes : Sender → Sender → Type 0
Writes s t = t ≡ record s { chan = t.chan; out = t.out; fault = t.fault }

module _ (b : Backend) where
  send_framed-Writes : (s : Sender) (o : Option (Bytes × ℕ)) → Writes s (send_framed s o)
  unfolding send_framed
  send_framed-Writes s none = refl
  send_framed-Writes s (some (wire, ctr)) = refl

  write_keyed-Writes :
      (text : Bytes) (s : Sender) (o : Option Ap2) → Writes s (write_keyed b text s o)
  unfolding write_keyed
  write_keyed-Writes text s none = refl
  write_keyed-Writes text s (some a) =
      send_framed-Writes s (frames b a.control_out s.chan.ctrl_send_ctr text)

  pub write_rtsp-Writes : (text : Bytes) (s : Sender) → Writes s (write_rtsp b text s)
  unfolding write_rtsp
  write_rtsp-Writes text s =
      if-both (Writes s) (not s.chan.control_encrypted) _ _ refl (write_keyed-Writes text s s.ap2)

  -- `t` is `s` with one more request under way: its method and the kind of its reply are queued.
  abbrev pub Requests : Bytes → Bool → Sender → Sender → Type 0
  Requests method is_http s t = t ≡ record s {
    chan = t.chan;
    out = t.out;
    fault = t.fault;
    timers = t.timers;
    session = record (s.session) { cseq = suc s.session.cseq };
    pending_methods = s.pending_methods ++ (method ∷ []);
    pending_is_http = s.pending_is_http ++ (is_http ∷ []);
  }

  armed-Requests :
      (method : Bytes) (is_http armed : Bool) (s t : Sender)
      → Writes (enqueue method is_http (bump_cseq s)) t
      → Requests method is_http s (if armed then arm_timeout t else t)
  armed-Requests method is_http true s t w =
      ap (λ (u : Sender). record u { timers = (arm_timeout t).timers }) w
  armed-Requests method is_http false s t w = ap (λ (u : Sender). record u { timers = t.timers }) w

  pub send_request-Requests :
      (method uri content_type body : Bytes) (extra : Headers) (s : Sender)
      → Requests method false s (send_request b method uri content_type body extra s)
  unfolding send_request
  send_request-Requests method uri content_type body extra s =
      armed-Requests method false (is_shaking s.state) s _ (
        write_rtsp-Writes (request_text b s method uri content_type body extra)
          (enqueue method false (bump_cseq s)))

  pub http_post-Requests :
      (uri content_type body : Bytes) (s : Sender)
      → Requests (codes "POST") true s (http_post b uri content_type body s)
  unfolding http_post
  http_post-Requests uri content_type body s =
      armed-Requests (codes "POST") true (not s.waiting_for_pin) s _ (
        write_rtsp-Writes (post_text b s uri content_type body)
          (enqueue (codes "POST") true (bump_cseq s)))

  pub send_ap2_rtsp-Requests :
      (method uri content_type body : Bytes) (s : Sender)
      → Requests method true s (send_ap2_rtsp b method uri content_type body s)
  unfolding send_ap2_rtsp
  send_ap2_rtsp-Requests method uri content_type body s = armed-Requests method true true s _ (
      write_rtsp-Writes (ap2_text b s method uri content_type body)
        (enqueue method true (bump_cseq s)))
