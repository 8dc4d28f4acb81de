-- ===== src/Sender/Pairing/Keys.antt =====
-- `handlePairSetupM6_` and `handlePairVerifyM2_` of src/raop_sender.cpp.
pub mod Strict
pub mod Invariant
use airplay2_sender_cpp.Base.{
  ℕ, zero, suc, ◌+◌, Bool, true, false, not, ◌&&◌, List, [], ◌∷◌, ◌++◌, Option, none, some, Bytes,
  codes, length, ◌==◌, if◌then◌else◌,
}
use airplay2_sender_cpp.Crypto.Backend.{Backend}
use airplay2_sender_cpp.Crypto.Aead.{hkdf, encrypt, decrypt}
use airplay2_sender_cpp.Crypto.Curves.{x25519_shared_secret, ed25519_sign, ed25519_verify}
use airplay2_sender_cpp.Creds.Store.{Creds, to_json}
use airplay2_sender_cpp.Tlv.{Items, get}
use airplay2_sender_cpp.Tlv
use airplay2_sender_cpp.Tlv.Tag
use airplay2_sender_cpp.Sender.Stage.{PairStage}
use airplay2_sender_cpp.Sender.Action.{credentials_obtained, Action}
use airplay2_sender_cpp.Sender.State.{Sender, Ap2, emit, crash}
use airplay2_sender_cpp.Sender.Request.{is_empty, http_post}
use airplay2_sender_cpp.Sender.Lifecycle.{fail}
use airplay2_sender_cpp.Sender.Ap2Setup.{at_stage, with_ap2}
use airplay2_sender_cpp.Sender.Pairing.Setup.{octets, with_error}
use airplay2_sender_cpp.Sender.Pairing.Verify.{control_keys, send_pair_verify_m1}

module _ (b : Backend) where
  m6_creds : Ap2 → Bytes → Bytes → Creds
  m6_creds a atv_id ltpk = record {
    ltsk = a.lt_seed;
    ltpk = ltpk;
    atv_id = atv_id;
    client_id = a.pairing_id;
  }

  m6_stored : Sender → Bytes → Bytes → Option Ap2 → Sender
  unfolding m6_creds send_pair_verify_m1 to_json
  m6_stored s atv_id ltpk none = crash s
  m6_stored s atv_id ltpk (some a) =
      let a' = record a { accessory_id = atv_id; accessory_ltpk = ltpk } in
      send_pair_verify_m1 b
        (record (emit (credentials_obtained s.config.device_id (to_json (m6_creds a atv_id ltpk)))
          (with_ap2 a' s)) { pair_setup_session_key = [] })

  m6_sub : Sender → Option Bytes → Option Bytes → Sender
  unfolding m6_stored fail
  m6_sub s (some atv_id) (some ltpk) = m6_stored s atv_id ltpk s.ap2
  m6_sub s _ _ = fail (codes "Pairing M6 was missing device keys") s

  m6_opened : Sender → Option Bytes → Sender
  unfolding m6_sub fail Tlv.decode get
  m6_opened s none = fail (codes "Pairing M6 could not be decrypted") s
  m6_opened s (some dec) =
      let sub = Tlv.decode dec in m6_sub s (get sub Tag.identifier) (get sub Tag.public_key)

  m6_sealed : Sender → Option Bytes → Sender
  unfolding m6_opened fail decrypt
  m6_sealed s none = fail (codes "Pairing M6 response was incomplete") s
  m6_sealed s (some ct) = m6_opened s (decrypt b s.pair_setup_session_key (codes "PS-Msg06") ct [])

  m6_error : Items → Sender → Option Bytes → Sender
  unfolding m6_sealed fail get
  m6_error m s none = m6_sealed s (get m Tag.encrypted_data)
  m6_error m s (some err) = fail (with_error (codes "Pairing finalisation failed") err) s

  -- `handlePairSetupM6_`
  unfoldable pub handle_pair_setup_m6 : Bytes → Sender → Sender
  unfolding m6_error Tlv.decode get
  handle_pair_setup_m6 body s = let m = Tlv.decode body in m6_error m s (get m Tag.error)

  -- The four keys that pair-verify derives, those of the reverse event channel swapped.
  unfoldable pub session_keys : Ap2 → Ap2
  unfolding control_keys hkdf
  session_keys a =
      let secret = a.shared_secret in
      record (control_keys b secret a) {
        event_in = hkdf b (codes "Events-Salt") (codes "Events-Write-Encryption-Key") secret;
        event_out = hkdf b (codes "Events-Salt") (codes "Events-Read-Encryption-Key") secret;
      }

  v3_sent : Sender → Ap2 → Option Bytes → Sender
  unfolding http_post Tlv.encode session_keys
  v3_sent s a none = crash (with_ap2 a s)
  v3_sent s a (some enc) =
      http_post b (codes "/pair-verify") octets
        (Tlv.encode ((Tag.state, 0x03 ∷ []) ∷ ((Tag.encrypted_data, enc) ∷ [])))
        (at_stage PairStage.verify_done (with_ap2 (session_keys a) s))

  -- Our half: the signature over both public keys and our id, sealed under the verify key.
  v3_items : Ap2 → Bytes → Items
  unfolding ed25519_sign
  v3_items a session_pub =
      (Tag.identifier, a.pairing_id)
      ∷ ((Tag.signature, ed25519_sign b a.lt_seed (a.verify_pub ++ (a.pairing_id ++ session_pub)))
          ∷ [])

  -- Whether the accessory has signed its key, its id and ours.
  unfoldable pub signed : Ap2 → Bytes → Bytes → Bytes → Bool
  unfolding ed25519_verify
  signed a session_pub atv_id sig =
      if is_empty a.accessory_ltpk
      then false
      else ed25519_verify b a.accessory_ltpk (session_pub ++ (atv_id ++ a.verify_pub)) sig

  v2_sub : Sender → Ap2 → Bytes → Bytes → Option Bytes → Option Bytes → Sender
  unfolding signed v3_sent v3_items fail encrypt Tlv.encode
  v2_sub s a key session_pub (some atv_id) (some sig) =
      if not (signed a session_pub atv_id sig) && s.config.strict_auth
      then fail
          (codes "The device's pair-verify signature did not verify (receiver not authenticated)")
          (with_ap2 a s)
      else v3_sent s a (encrypt b key (codes "PV-Msg03") (Tlv.encode (v3_items a session_pub)) [])
  v2_sub s a key session_pub _ _ =
      fail (codes "Pair-verify was missing the device signature") (with_ap2 a s)

  v2_opened : Sender → Ap2 → Bytes → Bytes → Option Bytes → Sender
  unfolding v2_sub fail Tlv.decode get
  v2_opened s a key session_pub none =
      fail (codes "Pair-verify could not be decrypted") (with_ap2 a s)
  v2_opened s a key session_pub (some dec) =
      let sub = Tlv.decode dec in
      v2_sub s a key session_pub (get sub Tag.identifier) (get sub Tag.signature)

  v2_shared : Sender → Option Ap2 → Bytes → Bytes → Sender
  unfolding v2_opened fail hkdf decrypt x25519_shared_secret
  v2_shared s none session_pub ct = crash s
  v2_shared s (some a) session_pub ct =
      let secret = x25519_shared_secret b a.verify_priv session_pub in
      let a' = record a { shared_secret = secret } in
      let key =
        hkdf b (codes "Pair-Verify-Encrypt-Salt") (codes "Pair-Verify-Encrypt-Info") secret in
      if is_empty secret
      then fail (codes "Pair-verify shared-secret derivation failed") (with_ap2 a' s)
      else v2_opened s a' key session_pub (decrypt b key (codes "PV-Msg02") ct [])

  v2_parts : Sender → Option Bytes → Option Bytes → Sender
  unfolding v2_shared fail
  v2_parts s (some session_pub) (some ct) = v2_shared s s.ap2 session_pub ct
  v2_parts s _ _ = fail (codes "Pair-verify response incomplete") s

  v2_error : Items → Sender → Option Bytes → Sender
  unfolding v2_parts fail get
  v2_error m s none = v2_parts s (get m Tag.public_key) (get m Tag.encrypted_data)
  v2_error m s (some err) = fail (with_error (codes "Pair-verify rejected") err) s

  -- `handlePairVerifyM2_`
  unfoldable pub handle_pair_verify_m2 : Bytes → Sender → Sender
  unfolding v2_error Tlv.decode get
  handle_pair_verify_m2 body s = let m = Tlv.decode body in v2_error m s (get m Tag.error)
