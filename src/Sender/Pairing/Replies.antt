-- ===== src/Sender/Pairing/Replies.antt =====
-- `beginAuthChain_` and `onPairingResponse_` of src/raop_sender.cpp: which way the pairing takes.
pub mod Invariant
use airplay2_sender_cpp.Base.{
  ℕ, suc, Bool, true, false, not, ◌&&◌, [], ◌++◌, Option, none, some, Bytes, codes, length, ltb,
  leb, ◌==◌, if◌then◌else◌,
}
use airplay2_sender_cpp.Crypto.Backend.{Backend}
use airplay2_sender_cpp.Crypto.Curves.{ed25519_public_from_seed}
use airplay2_sender_cpp.Creds.Store.{Creds, from_json}
use airplay2_sender_cpp.Text.{upper_ascii}
use airplay2_sender_cpp.Text.Numbers.{ℤ, pos, negsuc, to_string}
use airplay2_sender_cpp.Sender.Auth.{Auth, is_transient, is_auth_setup}
use airplay2_sender_cpp.Sender.Stage.{
  State, PairStage, is_idle, is_connecting, is_streaming, at_auth_setup, at_pin_start, at_setup_m2,
  at_ap2_record,
}
use airplay2_sender_cpp.Sender.Action.{RaopTcp}
use airplay2_sender_cpp.Sender.State.{Sender, Ap2, new_ap2, crash}
use airplay2_sender_cpp.Sender.Request.{is_empty}
use airplay2_sender_cpp.Sender.Lifecycle.{fail, uuid_v4_lower}
use airplay2_sender_cpp.Sender.Handshake.{send_options}
use airplay2_sender_cpp.Sender.Ap2Setup.{
  at_stage, with_ap2, send_ap2_setup_session, handle_ap2_setup_session, send_ap2_setup_stream,
  handle_ap2_setup_stream,
}
use airplay2_sender_cpp.Sender.Pairing.Setup.{
  after_auth_ok, send_auth_setup, send_pair_pin_start, send_pair_setup_m1, handle_pair_setup_m2,
}
use airplay2_sender_cpp.Sender.Pairing.Verify.{handle_pair_setup_m4, send_pair_verify_m1}
use airplay2_sender_cpp.Sender.Pairing.Keys.{handle_pair_setup_m6, handle_pair_verify_m2}

is_null : Option Ap2 → Bool
is_null none = true
is_null (some a) = false

-- Whether a status code is one of success.
unfoldable pub is_success : ℤ → Bool
is_success (pos n) = leb 200 n && ltb n 300
is_success (negsuc n) = false

unfoldable pub is_code : ℕ → ℤ → Bool
is_code n (pos m) = m == n
is_code n (negsuc m) = false

-- `std::to_string` of an `int`.
unfoldable pub int_text : ℤ → Bytes
int_text (pos n) = to_string n
int_text (negsuc n) = codes "-" ++ to_string (suc n)

-- The message for a refusal without a fallback.
unfoldable pub refusal : Bytes → ℤ → Bytes
unfolding is_code int_text
refusal name code =
    if is_code 403 code
    then name
      ++ codes
          " refused pairing. On a Mac, set System Settings > AirDrop & Handoff > AirPlay Receiver > \"Allow AirPlay for: Everyone\" and turn off Require Password, though a Mac may only accept Apple devices. An Apple TV or HomePod (Allow Access > \"Anyone on the Same Network\") is the reliable target."
    else if is_code 470 code
    then name
      ++ codes
          " needs to be paired with a PIN, but it didn't show one. On the Apple TV / Mac set AirPlay access to \"Anyone on the Same Network\" and try again."
    else codes "Pairing with " ++ (name ++ (codes " failed (HTTP " ++ (int_text code ++ codes ")")))

module _ (b : Backend) where
  -- A new pairing state with an upper-case uuid.
  unfoldable pub fresh_ap2 : Sender → Sender
  unfolding uuid_v4_lower upper_ascii
  fresh_ap2 s =
      with_ap2 (record new_ap2 { session_uuid = upper_ascii (uuid_v4_lower b s.draws) })
        (record s { draws = suc s.draws })

  with_creds : Ap2 → Creds → Ap2
  with_creds a c = record a {
    lt_seed = c.ltsk;
    pairing_id = c.client_id;
    accessory_id = c.atv_id;
    accessory_ltpk = c.ltpk;
  }

  -- Stored credentials lead to pair-verify if they are usable, to the PIN otherwise.
  unfoldable pub use_creds : Sender → Option Ap2 → Option Creds → Sender
  unfolding with_creds send_pair_verify_m1 send_pair_pin_start ed25519_public_from_seed
  use_creds s none c = crash s
  use_creds s (some a) none = send_pair_pin_start b s
  use_creds s (some a) (some c) =
      if (length c.ltsk == 32) && not (is_empty c.ltpk)
      then send_pair_verify_m1 b
          (with_ap2 (record (with_creds a c) { lt_pub = ed25519_public_from_seed b c.ltsk }) s)
      else send_pair_pin_start b (
          with_ap2
            (record a { lt_seed = []; pairing_id = []; accessory_id = []; accessory_ltpk = [] }) s)

  hap_pin_chain : Sender → Sender
  unfolding use_creds send_pair_pin_start from_json
  hap_pin_chain s =
      let json = s.config.creds_json in
      if is_empty json then send_pair_pin_start b s else use_creds s s.ap2 (from_json json)

  unfoldable pub auth_chain : Auth → Sender → Sender
  unfolding send_options send_auth_setup fail fresh_ap2 hap_pin_chain send_pair_setup_m1
  auth_chain Auth.none s = send_options b (record s { state = State.handshake })
  auth_chain Auth.password s = send_options b (record s { state = State.handshake })
  auth_chain Auth.auth_setup s = send_auth_setup b s
  auth_chain Auth.legacy_pin s =
      fail
        (s.config.name
          ++ codes
              " uses an older AirPlay pairing that isn't supported yet. Update the device's software, or use an AirPlay-2 receiver (HomePod, Apple TV 4K, or a modern AirPlay speaker).")
        s
  auth_chain Auth.hap_transient s = send_pair_setup_m1 b (fresh_ap2 s)
  auth_chain Auth.hap_pin s = hap_pin_chain (fresh_ap2 s)

  -- `beginAuthChain_`
  unfoldable pub begin_auth_chain : Sender → Sender
  unfolding auth_chain
  begin_auth_chain s = auth_chain s.auth_method (record s { state = State.pairing })

  -- `onTcpConnected`, of which the sender keeps the two addresses.
  unfoldable pub on_tcp_connected : RaopTcp → Bytes → Bytes → Sender → Sender
  unfolding begin_auth_chain
  on_tcp_connected RaopTcp.event local peer s = s
  on_tcp_connected RaopTcp.control local peer s =
      if not (is_connecting s.state)
      then s
      else begin_auth_chain (record s {
        link = record (s.link) { rtsp_connected = true; local_ip = local; host_ip = peer };
      })

  -- A code that is no success: a fallback to the PIN, one to transient pairing, or the end.
  unfoldable pub on_refusal : ℤ → Sender → Sender
  unfolding refusal is_code fresh_ap2 send_pair_pin_start send_pair_setup_m1 fail
  on_refusal code s =
      if is_code 470 code && (is_transient s.auth_method && at_setup_m2 s.pair_stage)
      then send_pair_pin_start b (fresh_ap2 (record s { auth_method = Auth.hap_pin }))
      else if is_code 403 code && (at_pin_start s.pair_stage && not s.tried_transient)
      then send_pair_setup_m1 b
          (fresh_ap2 (record s { tried_transient = true; auth_method = Auth.hap_transient }))
      else fail (refusal s.config.name code) s

  -- The stages of a reply that succeeded.
  unfoldable pub on_stage : PairStage → Bytes → Sender → Sender
  unfolding send_pair_setup_m1 handle_pair_setup_m2 handle_pair_setup_m4 handle_pair_setup_m6
      handle_pair_verify_m2 after_auth_ok send_ap2_setup_session handle_ap2_setup_session
      handle_ap2_setup_stream
  on_stage PairStage.pin_start body s = send_pair_setup_m1 b s
  on_stage PairStage.setup_m2 body s = handle_pair_setup_m2 b body s
  on_stage PairStage.setup_m4 body s = handle_pair_setup_m4 b body s
  on_stage PairStage.setup_m6 body s = handle_pair_setup_m6 b body s
  on_stage PairStage.verify_m2 body s = handle_pair_verify_m2 b body s
  on_stage PairStage.verify_done body s = after_auth_ok b (at_stage PairStage.done s)
  on_stage PairStage.ap2_info body s = send_ap2_setup_session b s
  on_stage PairStage.ap2_session body s = handle_ap2_setup_session b body s
  on_stage PairStage.ap2_stream body s = handle_ap2_setup_stream b body s
  on_stage _ body s = s

  -- `onPairingResponse_`
  unfoldable pub on_pairing_response : ℤ → Bytes → Sender → Sender
  unfolding is_null is_success on_refusal on_stage after_auth_ok send_ap2_setup_stream
  on_pairing_response code body s =
      if is_idle s.state
      then s
      else if is_streaming s.state
      then s
      else if is_auth_setup s.auth_method && (is_null s.ap2 && at_auth_setup s.pair_stage)
      then after_auth_ok b (at_stage PairStage.done s)
      else if at_ap2_record s.pair_stage
      then send_ap2_setup_stream b s
      else if not (is_success code)
      then on_refusal code s
      else on_stage s.pair_stage body s
