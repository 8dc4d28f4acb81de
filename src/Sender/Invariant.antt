-- ===== src/Sender/Invariant.antt =====
-- What holds of a `RaopSender` of src/raop_sender.cpp between two calls.
use airplay2_sender_cpp.Base.{
  ◌^◌, ◌<◌, ◌≡◌, sym, subst, Bool, false, ◌&&◌, ◌||◌, List, [], ◌∷◌, ◌++◌, Bytes, length,
  length-append, arith,
}
use airplay2_sender_cpp.Crypto.Backend.{Backend}
use airplay2_sender_cpp.Sender.Stage.{is_idle}
use airplay2_sender_cpp.Sender.State.{Sender}
use airplay2_sender_cpp.Sender.Request.{enqueue}
use airplay2_sender_cpp.Sender.Lifecycle.{backlog_size}
use airplay2_sender_cpp.Sender.Resample.Sizes.{Staged}
use airplay2_sender_cpp.Sender.Request.Effects.{Requests, Writes}

-- The two queues are of one length, the backlog keeps its size, the frame counter has 64 bits, the staging
-- buffer holds whole frames, at most 8192, and an idle sender has neither a connection nor bound sockets.
abbrev pub Facts : Sender → Type 0
Facts s =
    (length s.pending_methods ≡ length s.pending_is_http)
    × (length s.stream.backlog ≡ backlog_size)
    × (length s.stream.backlog_seq ≡ backlog_size)
    × (s.stream.frames_sent < 2 ^ 64)
    × Staged s.stream.input.in_buf
    × ((is_idle s.state && (s.link.udp_bound || s.link.rtsp_connected)) ≡ false)

pub record Inv (s : Sender) : Type 0 where
  pub facts : Facts s

-- A step that leaves alone what the invariant reads.
pub same-Inv : {t : Sender} → Facts t → Inv t
same-Inv f = record { facts = f }

pub Writes-Inv : (s t : Sender) → Writes s t → Inv s → Inv t
Writes-Inv s t w i = subst Inv (sym w) (same-Inv i.facts)

queued :
    (ms : List Bytes) (hs : List Bool) (m : Bytes) (h : Bool)
    → length ms ≡ length hs
    → length (ms ++ (m ∷ [])) ≡ length (hs ++ (h ∷ []))
queued ms hs m h e = omega (arith, length-append ms (m ∷ []), length-append hs (h ∷ []))

pub Requests-Inv :
    (b : Backend) (method : Bytes) (is_http : Bool) (s t : Sender)
    → Requests b method is_http s t
    → Inv s
    → Inv t
Requests-Inv b method is_http s t w i =
    let (paired, kept, tags, frames, staged, quiet) = i.facts in
    subst Inv (sym w) (
      same-Inv (
        queued s.pending_methods s.pending_is_http method is_http paired,
        kept,
        tags,
        frames,
        staged,
        quiet,
      ))

pub enqueue-Inv :
    (method : Bytes) (is_http : Bool) (s : Sender) → Inv s → Inv (enqueue method is_http s)
enqueue-Inv method is_http s i =
    let (paired, kept, tags, frames, staged, quiet) = i.facts in
    same-Inv (
      queued s.pending_methods s.pending_is_http method is_http paired,
      kept,
      tags,
      frames,
      staged,
      quiet,
    )
