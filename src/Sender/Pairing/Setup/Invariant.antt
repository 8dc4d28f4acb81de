-- ===== src/Sender/Pairing/Setup/Invariant.antt =====
-- `sendAuthSetup_` to `sendPairSetupM3_` of src/raop_sender.cpp keep the invariant.
use airplay2_sender_cpp.Base.{
  suc, refl, Bool, true, false, not, [], ◌∷◌, Option, none, some, Bytes, codes, if-both,
  if◌then◌else◌,
}
use airplay2_sender_cpp.Crypto.Backend.{Backend}
use airplay2_sender_cpp.Crypto.Srp.{SrpClient, srp_start, srp_process, mpi_to_bytes}
use airplay2_sender_cpp.Tlv.{Items, encode, decode, get}
use airplay2_sender_cpp.Tlv.Tag
use airplay2_sender_cpp.Sender.Auth.{is_transient}
use airplay2_sender_cpp.Sender.Stage.{State, PairStage}
use airplay2_sender_cpp.Sender.State.{Sender, Ap2, arm, disarm}
use airplay2_sender_cpp.Sender.Request.{http_post}
use airplay2_sender_cpp.Sender.Request.Effects.{http_post-Requests}
use airplay2_sender_cpp.Sender.Invariant.{Inv, same-Inv, Requests-Inv}
use airplay2_sender_cpp.Sender.Lifecycle.Invariant.{fail-Inv}
use airplay2_sender_cpp.Sender.Handshake.Invariant.{send_options-Inv}
use airplay2_sender_cpp.Sender.Ap2Setup.{at_stage, with_ap2}
use airplay2_sender_cpp.Sender.Ap2Setup.Invariant.{send_ap2_info-Inv}
use airplay2_sender_cpp.Sender.Pairing.Setup.{
  octets, curve25519_pub, keyed, switch_channel, with_error, ask_for_pin, after_auth_ok,
  send_auth_setup, send_pair_pin_start, send_pair_setup_m1, m3_sent, m3_with, send_pair_setup_m3,
  m2_params, m2_error, handle_pair_setup_m2, submit_pin,
}

module _ (b : Backend) where
  pub http_post-Inv :
      (uri content_type body : Bytes) (s : Sender)
      → Inv s
      → Inv (http_post b uri content_type body s)
  http_post-Inv uri content_type body s i =
      Requests-Inv b (codes "POST") true s _ (http_post-Requests b uri content_type body s) i

  switch_channel-Inv : (s : Sender) → Inv s → Inv (switch_channel s)
  unfolding switch_channel
  switch_channel-Inv s i = if-both Inv (keyed s.ap2) _ _ (same-Inv i.facts) i

  pub after_auth_ok-Inv : (s : Sender) → Inv s → Inv (after_auth_ok b s)
  unfolding after_auth_ok
  after_auth_ok-Inv s i =
      let t = record s { digest = record (s.digest) { retried = false } } in
      let (paired, kept, tags, frames, staged, quiet) =
        (switch_channel-Inv t (same-Inv i.facts)).facts in
      let (paired', kept', tags', frames', staged', quiet') = i.facts in
      if-both Inv s.config.airplay2 _ _
        (send_ap2_info-Inv b (record (switch_channel t) { state = State.handshake })
          (same-Inv (paired, kept, tags, frames, staged, refl)))
        (send_options-Inv b (record t { state = State.handshake })
          (same-Inv (paired', kept', tags', frames', staged', refl)))

  pub send_auth_setup-Inv : (s : Sender) → Inv s → Inv (send_auth_setup b s)
  unfolding send_auth_setup
  send_auth_setup-Inv s i =
      http_post-Inv (codes "/auth-setup") octets curve25519_pub (at_stage PairStage.auth_setup s)
        (same-Inv i.facts)

  pub send_pair_pin_start-Inv : (s : Sender) → Inv s → Inv (send_pair_pin_start b s)
  unfolding send_pair_pin_start
  send_pair_pin_start-Inv s i =
      http_post-Inv (codes "/pair-pin-start") octets [] (at_stage PairStage.pin_start s)
        (same-Inv i.facts)

  pub send_pair_setup_m1-Inv : (s : Sender) → Inv s → Inv (send_pair_setup_m1 b s)
  unfolding send_pair_setup_m1
  send_pair_setup_m1-Inv s i =
      let flag = if is_transient s.auth_method then (Tag.flags, 0x10 ∷ []) ∷ [] else [] in
      http_post-Inv (codes "/pair-setup") octets
        (encode ((Tag.method, 0x00 ∷ []) ∷ ((Tag.state, 0x01 ∷ []) ∷ flag)))
        (at_stage PairStage.setup_m2 s) (same-Inv i.facts)

  m3_sent-Inv :
      (s : Sender) (a : Ap2) (c : SrpClient) (o : Option (Bool × SrpClient))
      → Inv s
      → Inv (m3_sent b s a c o)
  unfolding m3_sent
  m3_sent-Inv s a c none i = same-Inv i.facts
  m3_sent-Inv s a c (some (false, c')) i =
      fail-Inv (codes "Pairing rejected the device's parameters")
        (with_ap2 (record a { srp = some c' }) s) (same-Inv i.facts)
  m3_sent-Inv s a c (some (true, c')) i =
      http_post-Inv (codes "/pair-setup") octets
        (encode (
          (Tag.state, 0x03 ∷ [])
          ∷ ((Tag.public_key, mpi_to_bytes c'.public_a) ∷ ((Tag.proof, c'.proof_m1) ∷ []))))
        (at_stage PairStage.setup_m4 (with_ap2 (record a { srp = some c' }) s)) (same-Inv i.facts)

  m3_with-Inv : (pin : Bytes) (s : Sender) (o : Option Ap2) → Inv s → Inv (m3_with b pin s o)
  unfolding m3_with
  m3_with-Inv pin s none i = same-Inv i.facts
  m3_with-Inv pin s (some a) i =
      let c = srp_start b s.draws pin in
      m3_sent-Inv (record s { draws = suc s.draws }) a c (srp_process b c s.srp_salt s.srp_server_b)
        (same-Inv i.facts)

  send_pair_setup_m3-Inv : (pin : Bytes) (s : Sender) → Inv s → Inv (send_pair_setup_m3 b pin s)
  unfolding send_pair_setup_m3
  send_pair_setup_m3-Inv pin s i = m3_with-Inv pin s s.ap2 i

  ask_for_pin-Inv : (s : Sender) → Inv s → Inv (ask_for_pin s)
  unfolding ask_for_pin
  ask_for_pin-Inv s i = same-Inv i.facts

  m2_params-Inv : (s : Sender) (salt pub_b : Option Bytes) → Inv s → Inv (m2_params b s salt pub_b)
  unfolding m2_params
  m2_params-Inv s (some salt) (some pub_b) i =
      let t = record s { srp_salt = salt; srp_server_b = pub_b } in
      if-both Inv (is_transient s.auth_method) _ _
        (send_pair_setup_m3-Inv (codes "3939") t (same-Inv i.facts))
        (ask_for_pin-Inv t (same-Inv i.facts))
  m2_params-Inv s (some salt) none i = fail-Inv (codes "Pairing setup response was incomplete") s i
  m2_params-Inv s none pub_b i = fail-Inv (codes "Pairing setup response was incomplete") s i

  m2_error-Inv : (m : Items) (s : Sender) (err : Option Bytes) → Inv s → Inv (m2_error b m s err)
  unfolding m2_error
  m2_error-Inv m s none i = m2_params-Inv s (get m Tag.salt) (get m Tag.public_key) i
  m2_error-Inv m s (some err) i =
      fail-Inv (with_error (codes "The device rejected pairing") err) s i

  pub handle_pair_setup_m2-Inv :
      (body : Bytes) (s : Sender) → Inv s → Inv (handle_pair_setup_m2 b body s)
  unfolding handle_pair_setup_m2
  handle_pair_setup_m2-Inv body s i = m2_error-Inv (decode body) s (get (decode body) Tag.error) i

  pub submit_pin-Inv : (code : Bytes) (s : Sender) → Inv s → Inv (submit_pin b code s)
  unfolding submit_pin
  submit_pin-Inv code s i =
      let t = record s {
        waiting_for_pin = false;
        timers = record (s.timers) {
          pin_timeout = disarm s.timers.pin_timeout;
          timeout = arm s.now s.timers.timeout;
        };
      } in
      if-both Inv (not s.waiting_for_pin) _ _ i (send_pair_setup_m3-Inv code t (same-Inv i.facts))
