-- ===== src/Sender/Pairing/Replies/Invariant.antt =====
-- `beginAuthChain_` and `onPairingResponse_` of src/raop_sender.cpp keep the invariant.
use airplay2_sender_cpp.Base.{
  refl, true, not, ◌&&◌, [], ◌++◌, Option, none, some, Bytes, length, ◌==◌, if-both,
}
use airplay2_sender_cpp.Crypto.Backend.{Backend}
use airplay2_sender_cpp.Crypto.Curves.{ed25519_public_from_seed}
use airplay2_sender_cpp.Creds.Store.{Creds, from_json}
use airplay2_sender_cpp.Text.Numbers.{ℤ}
use airplay2_sender_cpp.Sender.Auth.{Auth, is_transient, is_auth_setup}
use airplay2_sender_cpp.Sender.Stage.{
  State, PairStage, is_idle, is_streaming, is_connecting, at_auth_setup, at_pin_start, at_setup_m2,
  at_ap2_record,
}
use airplay2_sender_cpp.Sender.Action.{RaopTcp}
use airplay2_sender_cpp.Sender.State.{Sender, Ap2}
use airplay2_sender_cpp.Sender.Request.{is_empty}
use airplay2_sender_cpp.Sender.Invariant.{Inv, same-Inv}
use airplay2_sender_cpp.Sender.Lifecycle.Invariant.{fail-Inv}
use airplay2_sender_cpp.Sender.Handshake.Invariant.{send_options-Inv}
use airplay2_sender_cpp.Sender.Ap2Setup.{at_stage, with_ap2}
use airplay2_sender_cpp.Sender.Ap2Setup.Invariant.{
  send_ap2_setup_session-Inv, handle_ap2_setup_session-Inv, send_ap2_setup_stream-Inv,
  handle_ap2_setup_stream-Inv,
}
use airplay2_sender_cpp.Sender.Pairing.Setup.Invariant.{
  after_auth_ok-Inv, send_auth_setup-Inv, send_pair_pin_start-Inv, send_pair_setup_m1-Inv,
  handle_pair_setup_m2-Inv,
}
use airplay2_sender_cpp.Sender.Pairing.Verify.Invariant.{
  send_pair_verify_m1-Inv, handle_pair_setup_m4-Inv,
}
use airplay2_sender_cpp.Sender.Pairing.Keys.Invariant.{
  handle_pair_setup_m6-Inv, handle_pair_verify_m2-Inv,
}
use airplay2_sender_cpp.Sender.Pairing.Replies.{
  is_null, is_success, is_code, refusal, fresh_ap2, with_creds, use_creds, hap_pin_chain,
  auth_chain, begin_auth_chain, on_tcp_connected, on_refusal, on_stage, on_pairing_response,
}

module _ (b : Backend) where
  fresh_ap2-Inv : (s : Sender) → Inv s → Inv (fresh_ap2 b s)
  unfolding fresh_ap2
  fresh_ap2-Inv s i = same-Inv i.facts

  use_creds-Inv : (s : Sender) (o : Option Ap2) (c : Option Creds) → Inv s → Inv (use_creds b s o c)
  unfolding use_creds
  use_creds-Inv s none c i = same-Inv i.facts
  use_creds-Inv s (some a) none i = send_pair_pin_start-Inv b s i
  use_creds-Inv s (some a) (some c) i =
      if-both Inv ((length c.ltsk == 32) && not (is_empty c.ltpk)) _ _
        (send_pair_verify_m1-Inv b
          (with_ap2 (record (with_creds b a c) { lt_pub = ed25519_public_from_seed b c.ltsk }) s)
          (same-Inv i.facts))
        (send_pair_pin_start-Inv b
          (with_ap2
            (record a { lt_seed = []; pairing_id = []; accessory_id = []; accessory_ltpk = [] }) s)
          (same-Inv i.facts))

  hap_pin_chain-Inv : (s : Sender) → Inv s → Inv (hap_pin_chain b s)
  unfolding hap_pin_chain
  hap_pin_chain-Inv s i =
      if-both Inv (is_empty s.config.creds_json) _ _ (send_pair_pin_start-Inv b s i)
        (use_creds-Inv s s.ap2 (from_json s.config.creds_json) i)

  auth_chain-Inv : (m : Auth) (s : Sender) → Inv s → Inv (auth_chain b m s)
  unfolding auth_chain
  auth_chain-Inv Auth.none s i =
      let (paired, kept, tags, frames, staged, quiet) = i.facts in
      send_options-Inv b (record s { state = State.handshake })
        (same-Inv (paired, kept, tags, frames, staged, refl))
  auth_chain-Inv Auth.password s i =
      let (paired, kept, tags, frames, staged, quiet) = i.facts in
      send_options-Inv b (record s { state = State.handshake })
        (same-Inv (paired, kept, tags, frames, staged, refl))
  auth_chain-Inv Auth.auth_setup s i = send_auth_setup-Inv b s i
  auth_chain-Inv Auth.legacy_pin s i = fail-Inv (s.config.name ++ _) s i
  auth_chain-Inv Auth.hap_transient s i =
      send_pair_setup_m1-Inv b (fresh_ap2 b s) (fresh_ap2-Inv s i)
  auth_chain-Inv Auth.hap_pin s i = hap_pin_chain-Inv (fresh_ap2 b s) (fresh_ap2-Inv s i)

  pub on_tcp_connected-Inv :
      (ch : RaopTcp) (local peer : Bytes) (s : Sender)
      → Inv s
      → Inv (on_tcp_connected b ch local peer s)
  unfolding on_tcp_connected begin_auth_chain
  on_tcp_connected-Inv RaopTcp.event local peer s i = i
  on_tcp_connected-Inv RaopTcp.control local peer s i =
      let (paired, kept, tags, frames, staged, quiet) = i.facts in
      let t = record s {
        link = record (s.link) { rtsp_connected = true; local_ip = local; host_ip = peer };
        state = State.pairing;
      } in
      if-both Inv (not (is_connecting s.state)) _ _ i
        (auth_chain-Inv s.auth_method t (same-Inv (paired, kept, tags, frames, staged, refl)))

  on_refusal-Inv : (code : ℤ) (s : Sender) → Inv s → Inv (on_refusal b code s)
  unfolding on_refusal
  on_refusal-Inv code s i =
      let pin = record s { auth_method = Auth.hap_pin } in
      let transient = record s { tried_transient = true; auth_method = Auth.hap_transient } in
      if-both Inv (is_code 470 code && (is_transient s.auth_method && at_setup_m2 s.pair_stage)) _ _
        (send_pair_pin_start-Inv b (fresh_ap2 b pin) (fresh_ap2-Inv pin (same-Inv i.facts)))
        (if-both Inv (is_code 403 code && (at_pin_start s.pair_stage && not s.tried_transient)) _ _
          (send_pair_setup_m1-Inv b (fresh_ap2 b transient)
            (fresh_ap2-Inv transient (same-Inv i.facts)))
          (fail-Inv (refusal s.config.name code) s i))

  on_stage-Inv :
      (stage : PairStage) (body : Bytes) (s : Sender) → Inv s → Inv (on_stage b stage body s)
  unfolding on_stage
  on_stage-Inv PairStage.none body s i = i
  on_stage-Inv PairStage.auth_setup body s i = i
  on_stage-Inv PairStage.pin_start body s i = send_pair_setup_m1-Inv b s i
  on_stage-Inv PairStage.setup_m2 body s i = handle_pair_setup_m2-Inv b body s i
  on_stage-Inv PairStage.setup_m4 body s i = handle_pair_setup_m4-Inv b body s i
  on_stage-Inv PairStage.setup_m6 body s i = handle_pair_setup_m6-Inv b body s i
  on_stage-Inv PairStage.verify_m2 body s i = handle_pair_verify_m2-Inv b body s i
  on_stage-Inv PairStage.verify_done body s i =
      after_auth_ok-Inv b (at_stage PairStage.done s) (same-Inv i.facts)
  on_stage-Inv PairStage.ap2_info body s i = send_ap2_setup_session-Inv b s i
  on_stage-Inv PairStage.ap2_session body s i = handle_ap2_setup_session-Inv b body s i
  on_stage-Inv PairStage.ap2_record body s i = i
  on_stage-Inv PairStage.ap2_stream body s i = handle_ap2_setup_stream-Inv b body s i
  on_stage-Inv PairStage.done body s i = i

  pub on_pairing_response-Inv :
      (code : ℤ) (body : Bytes) (s : Sender) → Inv s → Inv (on_pairing_response b code body s)
  unfolding on_pairing_response
  on_pairing_response-Inv code body s i = if-both Inv (is_idle s.state) _ _ i (
      if-both Inv (is_streaming s.state) _ _ i (
        if-both Inv (is_auth_setup s.auth_method && (is_null s.ap2 && at_auth_setup s.pair_stage)) _
          _ (after_auth_ok-Inv b (at_stage PairStage.done s) (same-Inv i.facts))
          (if-both Inv (at_ap2_record s.pair_stage) _ _ (send_ap2_setup_stream-Inv b s i) (
            if-both Inv (not (is_success code)) _ _ (on_refusal-Inv code s i)
              (on_stage-Inv s.pair_stage body s i)))))
