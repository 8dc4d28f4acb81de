-- ===== src/Sender/Pairing/Setup.antt =====
-- `sendAuthSetup_` to `handlePairSetupM4_` of src/raop_sender.cpp, and `afterAuthOk_`.
pub mod Invariant
use airplay2_sender_cpp.Base.{
  ℕ, suc, Bool, true, false, not, ◌&&◌, [], ◌∷◌, ◌++◌, Option, none, some, Bytes, codes, length,
  ◌==◌, if◌then◌else◌,
}
use airplay2_sender_cpp.Crypto.Backend.{Backend}
use airplay2_sender_cpp.Crypto.Srp.{SrpClient, srp_start, srp_process, mpi_to_bytes}
use airplay2_sender_cpp.Tlv.{Items, encode, decode, get}
use airplay2_sender_cpp.Tlv.Tag
use airplay2_sender_cpp.Text.Numbers.{to_string}
use airplay2_sender_cpp.Sender.Auth.{is_transient}
use airplay2_sender_cpp.Sender.Stage.{State, PairStage}
use airplay2_sender_cpp.Sender.Action.{pin_required}
use airplay2_sender_cpp.Sender.State.{Sender, Ap2, arm, disarm, emit, crash}
use airplay2_sender_cpp.Sender.Request.{http_post}
use airplay2_sender_cpp.Sender.Lifecycle.{fail}
use airplay2_sender_cpp.Sender.Handshake.{send_options}
use airplay2_sender_cpp.Sender.Ap2Setup.{at_stage, with_ap2, send_ap2_info}

abbrev pub octets : Bytes
octets = codes "application/octet-stream"

abbrev pub curve25519_pub : Bytes
curve25519_pub =
    0x01
    ∷ (0x59
        ∷ (0x02
            ∷ (0xed
                ∷ (0xe9
                    ∷ (0x0d
                        ∷ (0x4e
                            ∷ (0xf2
                                ∷ (0xbd
                                    ∷ (0x4c
                                        ∷ (0xb6
                                            ∷ (0x8a
                                                ∷ (0x63
                                                    ∷ (0x30
                                                        ∷ (0x03
                                                            ∷ (0x82
                                                            ∷ (0x07
                                                            ∷ (0xa9
                                                            ∷ (0x4d
                                                            ∷ (0xbd
                                                            ∷ (0x50
                                                            ∷ (0xd8
                                                            ∷ (0xaa
                                                            ∷ (0x46
                                                            ∷ (0x5b
                                                            ∷ (0x5d
                                                            ∷ (0x8c
                                                            ∷ (0x01
                                                            ∷ (0x2a
                                                            ∷ (0x0c
                                                            ∷ (0x7e
                                                            ∷ (0x1d
                                                            ∷ (0x4e
                                                            ∷ []))))))))))))))))))))))))))))))))

-- Whether both control keys are there.
unfoldable pub keyed : Option Ap2 → Bool
keyed none = false
keyed (some a) = (length a.control_out == 32) && (length a.control_in == 32)

unfoldable pub switch_channel : Sender → Sender
unfolding keyed
switch_channel s =
    if keyed s.ap2
    then record s {
      chan = record (s.chan) {
        control_encrypted = true;
        ctrl_send_ctr = 0;
        ctrl_recv_ctr = 0;
        rtsp_enc_buf = [];
      };
    }
    else s

-- `err->empty() ? 0 : int((*err)[0])`
unfoldable pub error_code : Bytes → ℕ
error_code [] = 0
error_code (c ∷ cs) = c

-- "<text> (error <code>)"
abbrev pub with_error : Bytes → Bytes → Bytes
with_error text err = text ++ (codes " (error " ++ (to_string (error_code err) ++ codes ")"))

-- The bounded wait for the code on the screen.
unfoldable pub ask_for_pin : Sender → Sender
ask_for_pin s = emit (pin_required s.config.name) (record s {
  waiting_for_pin = true;
  timers = record (s.timers) {
    timeout = disarm s.timers.timeout;
    pin_timeout = arm s.now s.timers.pin_timeout;
  };
})

module _ (b : Backend) where
  -- `afterAuthOk_`
  unfoldable pub after_auth_ok : Sender → Sender
  unfolding switch_channel send_ap2_info send_options
  after_auth_ok s =
      let t = record s { digest = record (s.digest) { retried = false } } in
      if s.config.airplay2
      then send_ap2_info b (record (switch_channel t) { state = State.handshake })
      else send_options b (record t { state = State.handshake })

  -- `sendAuthSetup_`
  unfoldable pub send_auth_setup : Sender → Sender
  unfolding http_post
  send_auth_setup s =
      http_post b (codes "/auth-setup") octets curve25519_pub (at_stage PairStage.auth_setup s)

  -- `sendPairPinStart_`
  unfoldable pub send_pair_pin_start : Sender → Sender
  unfolding http_post
  send_pair_pin_start s =
      http_post b (codes "/pair-pin-start") octets [] (at_stage PairStage.pin_start s)

  -- `sendPairSetupM1_`
  unfoldable pub send_pair_setup_m1 : Sender → Sender
  unfolding http_post encode
  send_pair_setup_m1 s =
      let flag = if is_transient s.auth_method then (Tag.flags, 0x10 ∷ []) ∷ [] else [] in
      http_post b (codes "/pair-setup") octets
        (encode ((Tag.method, 0x00 ∷ []) ∷ ((Tag.state, 0x01 ∷ []) ∷ flag)))
        (at_stage PairStage.setup_m2 s)

  m3_sent : Sender → Ap2 → SrpClient → Option (Bool × SrpClient) → Sender
  unfolding http_post fail encode mpi_to_bytes
  m3_sent s a c none = crash (with_ap2 (record a { srp = some c }) s)
  m3_sent s a c (some (false, c')) =
      fail (codes "Pairing rejected the device's parameters")
        (with_ap2 (record a { srp = some c' }) s)
  m3_sent s a c (some (true, c')) =
      http_post b (codes "/pair-setup") octets
        (encode (
          (Tag.state, 0x03 ∷ [])
          ∷ ((Tag.public_key, mpi_to_bytes c'.public_a) ∷ ((Tag.proof, c'.proof_m1) ∷ []))))
        (at_stage PairStage.setup_m4 (with_ap2 (record a { srp = some c' }) s))

  m3_with : Bytes → Sender → Option Ap2 → Sender
  unfolding m3_sent srp_start srp_process
  m3_with pin s none = crash s
  m3_with pin s (some a) =
      let t = record s { draws = suc s.draws } in
      let c = srp_start b s.draws pin in m3_sent t a c (srp_process b c s.srp_salt s.srp_server_b)

  -- `sendPairSetupM3_`
  unfoldable pub send_pair_setup_m3 : Bytes → Sender → Sender
  unfolding m3_with
  send_pair_setup_m3 pin s = m3_with pin s s.ap2

  m2_params : Sender → Option Bytes → Option Bytes → Sender
  unfolding send_pair_setup_m3 ask_for_pin fail
  m2_params s (some salt) (some pub_b) =
      let t = record s { srp_salt = salt; srp_server_b = pub_b } in
      if is_transient s.auth_method then send_pair_setup_m3 (codes "3939") t else ask_for_pin t
  m2_params s _ _ = fail (codes "Pairing setup response was incomplete") s

  m2_error : Items → Sender → Option Bytes → Sender
  unfolding m2_params fail get
  m2_error m s none = m2_params s (get m Tag.salt) (get m Tag.public_key)
  m2_error m s (some err) = fail (with_error (codes "The device rejected pairing") err) s

  -- `handlePairSetupM2_`
  unfoldable pub handle_pair_setup_m2 : Bytes → Sender → Sender
  unfolding m2_error decode get
  handle_pair_setup_m2 body s = let m = decode body in m2_error m s (get m Tag.error)

  -- `submitPin`
  unfoldable pub submit_pin : Bytes → Sender → Sender
  unfolding send_pair_setup_m3
  submit_pin code s =
      let t = record s {
        waiting_for_pin = false;
        timers = record (s.timers) {
          pin_timeout = disarm s.timers.pin_timeout;
          timeout = arm s.now s.timers.timeout;
        };
      } in
      if not s.waiting_for_pin then s else send_pair_setup_m3 code t
