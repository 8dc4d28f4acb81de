-- ===== src/Sender/Lifecycle/Closing.antt =====
-- What `fail_`, `stop` and a closed connection of src/raop_sender.cpp leave behind.
use airplay2_sender_cpp.Base.{
  ap, sym, ◌∙◌, append_assoc, List, [], ◌∷◌, ◌++◌, ◌≡◌, refl, Bool, true, false, Bytes, Bool-cases,
  inl, inr,
}
use airplay2_sender_cpp.Sender.Stage.{State, is_streaming}
use airplay2_sender_cpp.Sender.State.{Sender}
use airplay2_sender_cpp.Sender.Action.{
  RaopTcp, RaopUdp, Action, udp_close, tcp_close, launched, closed,
}
use airplay2_sender_cpp.Sender.Lifecycle.{
  to_idle, timers_off, emit, disconnected, release_sockets, report, fail,
}

-- No session, no timer, and no socket that counts as connected or bound.
abbrev pub Closed : Sender → Type 0
Closed s =
    (s.state ≡ State.idle)
    × (s.link.rtsp_connected ≡ false)
    × (s.link.udp_bound ≡ false)
    × (s.timers.pacer.active ≡ false)
    × (s.timers.sync_timer.active ≡ false)
    × (s.timers.timeout.active ≡ false)
    × (s.timers.pin_timeout.active ≡ false)
    × (s.timers.feedback_timer.active ≡ false)

-- The calls of `RaopIo` that close every socket, the latest first: the event connection, the three
-- UDP sockets if they are bound, and the control connection.
abbrev pub udp_closes : Bool → List Action
udp_closes true =
    udp_close RaopUdp.timing ∷ (udp_close RaopUdp.control ∷ (udp_close RaopUdp.audio ∷ []))
udp_closes false = []

abbrev pub closing : Bool → Bool → List Action
closing graceful bound =
    tcp_close RaopTcp.event false ∷ (udp_closes bound ++ (tcp_close RaopTcp.control graceful ∷ []))

-- The events of a failure, the latest first: the end, after the reason if nothing was playing yet.
abbrev pub reports : Bool → Bytes → List Action
reports true why = closed ∷ []
reports false why = closed ∷ (launched false why ∷ [])

-- What a failure has made of a session: it is over, and all that went out since are the calls that
-- close its sockets and then the events, for some reason.
pub record Ended (was_streaming bound : Bool) (out : List Action) (t : Sender) : Type 0 where
  pub closed : Closed t
  pub why : Bytes
  pub calls : t.out ≡ reports was_streaming why ++ (closing false bound ++ out)

-- The failure of the session `s`.
abbrev pub IsClosed : Sender → Sender → Type 0
IsClosed s = Ended (is_streaming s.state) s.link.udp_bound s.out

-- All of that but the bound sockets.
abbrev Quiet : Sender → Type 0
Quiet s =
    (s.state ≡ State.idle)
    × (s.link.rtsp_connected ≡ false)
    × (s.timers.pacer.active ≡ false)
    × (s.timers.sync_timer.active ≡ false)
    × (s.timers.timeout.active ≡ false)
    × (s.timers.pin_timeout.active ≡ false)
    × (s.timers.feedback_timer.active ≡ false)

release_sockets-Closed : (s : Sender) → Quiet s → Closed (release_sockets s)
unfolding release_sockets
release_sockets-Closed s (i, d, p, y, t, w, f) = elim (Bool-cases s.link.udp_bound) [
  | inl e ↦ rw e (i, d, refl, p, y, t, w, f)
  | inr e ↦ rw e (i, d, refl, p, y, t, w, f)
]

-- The calls of `releaseSockets_`.
pub release_sockets-out :
    (s : Sender)
    → (release_sockets s).out
      ≡ tcp_close RaopTcp.event false ∷ (udp_closes s.link.udp_bound ++ s.out)
unfolding release_sockets
release_sockets-out s = elim (Bool-cases s.link.udp_bound) [ inl e ↦ rw e refl | inr e ↦ rw e refl ]

report-Closed : (was : Bool) (why : Bytes) (s : Sender) → Closed s → Closed (report was why s)
unfolding report
report-Closed true why s c = c
report-Closed false why s c = c

report-out :
    (was : Bool) (why : Bytes) (s : Sender) → (report was why s).out ≡ reports was why ++ s.out
unfolding report
report-out true why s = refl
report-out false why s = refl

-- A failure, wherever it comes from, closes every socket and leaves no session and no timer.
pub fail-IsClosed : (why : Bytes) (s : Sender) → IsClosed s (fail why s)
unfolding fail
fail-IsClosed why s =
    let t = disconnected (emit (tcp_close RaopTcp.control false) (timers_off (to_idle s))) in
    record {
      closed =
          report-Closed (is_streaming s.state) why _
            (release_sockets-Closed t (refl, refl, refl, refl, refl, refl, refl));
      why = why;
      calls =
          report-out (is_streaming s.state) why (release_sockets t)
          ∙ ap (λ o. reports (is_streaming s.state) why ++ o)
              (release_sockets-out t
                ∙ ap (λ o. tcp_close RaopTcp.event false ∷ o)
                    (sym (
                      append_assoc (udp_closes s.link.udp_bound)
                        (tcp_close RaopTcp.control false ∷ []) s.out)));
    }
