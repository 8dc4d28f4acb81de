-- ===== src/Sender/Pairing/Keys/Invariant.antt =====
-- `handlePairSetupM6_` and `handlePairVerifyM2_` of src/raop_sender.cpp keep the invariant.
use airplay2_sender_cpp.Base.{not, ◌&&◌, [], ◌∷◌, Option, none, some, Bytes, codes, if-both}
use airplay2_sender_cpp.Crypto.Backend.{Backend}
use airplay2_sender_cpp.Crypto.Aead.{hkdf, encrypt, decrypt}
use airplay2_sender_cpp.Crypto.Curves.{x25519_shared_secret}
use airplay2_sender_cpp.Creds.Store.{to_json}
use airplay2_sender_cpp.Tlv.{Items, get}
use airplay2_sender_cpp.Tlv
use airplay2_sender_cpp.Tlv.Tag
use airplay2_sender_cpp.Sender.Stage.{PairStage}
use airplay2_sender_cpp.Sender.Action.{credentials_obtained}
use airplay2_sender_cpp.Sender.State.{Sender, Ap2, emit}
use airplay2_sender_cpp.Sender.Request.{is_empty}
use airplay2_sender_cpp.Sender.Invariant.{Inv, same-Inv}
use airplay2_sender_cpp.Sender.Lifecycle.Invariant.{fail-Inv}
use airplay2_sender_cpp.Sender.Ap2Setup.{at_stage, with_ap2}
use airplay2_sender_cpp.Sender.Pairing.Setup.{octets, with_error}
use airplay2_sender_cpp.Sender.Pairing.Setup.Invariant.{http_post-Inv}
use airplay2_sender_cpp.Sender.Pairing.Verify.Invariant.{send_pair_verify_m1-Inv}
use airplay2_sender_cpp.Sender.Pairing.Keys.{
  m6_creds, m6_stored, m6_sub, m6_opened, m6_sealed, m6_error, handle_pair_setup_m6, session_keys,
  v3_sent, v3_items, signed, v2_sub, v2_opened, v2_shared, v2_parts, v2_error,
  handle_pair_verify_m2,
}

module _ (b : Backend) where
  m6_stored-Inv :
      (s : Sender) (atv_id ltpk : Bytes) (o : Option Ap2)
      → Inv s
      → Inv (m6_stored b s atv_id ltpk o)
  unfolding m6_stored
  m6_stored-Inv s atv_id ltpk none i = same-Inv i.facts
  m6_stored-Inv s atv_id ltpk (some a) i =
      let a' = record a { accessory_id = atv_id; accessory_ltpk = ltpk } in
      send_pair_verify_m1-Inv b
        (record (emit (credentials_obtained s.config.device_id (to_json (m6_creds b a atv_id ltpk)))
          (with_ap2 a' s)) { pair_setup_session_key = [] })
        (same-Inv i.facts)

  m6_sub-Inv : (s : Sender) (atv_id ltpk : Option Bytes) → Inv s → Inv (m6_sub b s atv_id ltpk)
  unfolding m6_sub
  m6_sub-Inv s (some atv_id) (some ltpk) i = m6_stored-Inv s atv_id ltpk s.ap2 i
  m6_sub-Inv s (some atv_id) none i = fail-Inv (codes "Pairing M6 was missing device keys") s i
  m6_sub-Inv s none ltpk i = fail-Inv (codes "Pairing M6 was missing device keys") s i

  m6_opened-Inv : (s : Sender) (dec : Option Bytes) → Inv s → Inv (m6_opened b s dec)
  unfolding m6_opened
  m6_opened-Inv s none i = fail-Inv (codes "Pairing M6 could not be decrypted") s i
  m6_opened-Inv s (some dec) i =
      m6_sub-Inv s (get (Tlv.decode dec) Tag.identifier) (get (Tlv.decode dec) Tag.public_key) i

  m6_sealed-Inv : (s : Sender) (ct : Option Bytes) → Inv s → Inv (m6_sealed b s ct)
  unfolding m6_sealed
  m6_sealed-Inv s none i = fail-Inv (codes "Pairing M6 response was incomplete") s i
  m6_sealed-Inv s (some ct) i =
      m6_opened-Inv s (decrypt b s.pair_setup_session_key (codes "PS-Msg06") ct []) i

  m6_error-Inv : (m : Items) (s : Sender) (err : Option Bytes) → Inv s → Inv (m6_error b m s err)
  unfolding m6_error
  m6_error-Inv m s none i = m6_sealed-Inv s (get m Tag.encrypted_data) i
  m6_error-Inv m s (some err) i =
      fail-Inv (with_error (codes "Pairing finalisation failed") err) s i

  pub handle_pair_setup_m6-Inv :
      (body : Bytes) (s : Sender) → Inv s → Inv (handle_pair_setup_m6 b body s)
  unfolding handle_pair_setup_m6
  handle_pair_setup_m6-Inv body s i =
      m6_error-Inv (Tlv.decode body) s (get (Tlv.decode body) Tag.error) i

  v3_sent-Inv : (s : Sender) (a : Ap2) (enc : Option Bytes) → Inv s → Inv (v3_sent b s a enc)
  unfolding v3_sent
  v3_sent-Inv s a none i = same-Inv i.facts
  v3_sent-Inv s a (some enc) i =
      http_post-Inv b (codes "/pair-verify") octets
        (Tlv.encode ((Tag.state, 0x03 ∷ []) ∷ ((Tag.encrypted_data, enc) ∷ [])))
        (at_stage PairStage.verify_done (with_ap2 (session_keys b a) s)) (same-Inv i.facts)

  v2_sub-Inv :
      (s : Sender) (a : Ap2) (key session_pub : Bytes) (atv_id sig : Option Bytes)
      → Inv s
      → Inv (v2_sub b s a key session_pub atv_id sig)
  unfolding v2_sub
  v2_sub-Inv s a key session_pub none sig i =
      fail-Inv (codes "Pair-verify was missing the device signature") (with_ap2 a s)
        (same-Inv i.facts)
  v2_sub-Inv s a key session_pub (some atv_id) none i =
      fail-Inv (codes "Pair-verify was missing the device signature") (with_ap2 a s)
        (same-Inv i.facts)
  v2_sub-Inv s a key session_pub (some atv_id) (some sig) i =
      if-both Inv (not (signed b a session_pub atv_id sig) && s.config.strict_auth) _ _
        (fail-Inv
          (codes "The device's pair-verify signature did not verify (receiver not authenticated)")
          (with_ap2 a s) (same-Inv i.facts))
        (v3_sent-Inv s a
          (encrypt b key (codes "PV-Msg03") (Tlv.encode (v3_items b a session_pub)) []) i)

  v2_opened-Inv :
      (s : Sender) (a : Ap2) (key session_pub : Bytes) (dec : Option Bytes)
      → Inv s
      → Inv (v2_opened b s a key session_pub dec)
  unfolding v2_opened
  v2_opened-Inv s a key session_pub none i =
      fail-Inv (codes "Pair-verify could not be decrypted") (with_ap2 a s) (same-Inv i.facts)
  v2_opened-Inv s a key session_pub (some dec) i =
      v2_sub-Inv s a key session_pub (get (Tlv.decode dec) Tag.identifier)
        (get (Tlv.decode dec) Tag.signature) i

  v2_shared-Inv :
      (s : Sender) (o : Option Ap2) (session_pub ct : Bytes)
      → Inv s
      → Inv (v2_shared b s o session_pub ct)
  unfolding v2_shared
  v2_shared-Inv s none session_pub ct i = same-Inv i.facts
  v2_shared-Inv s (some a) session_pub ct i =
      let secret = x25519_shared_secret b a.verify_priv session_pub in
      let a' = record a { shared_secret = secret } in
      let key =
        hkdf b (codes "Pair-Verify-Encrypt-Salt") (codes "Pair-Verify-Encrypt-Info") secret in
      if-both Inv (is_empty secret) _ _
        (fail-Inv (codes "Pair-verify shared-secret derivation failed") (with_ap2 a' s)
          (same-Inv i.facts))
        (v2_opened-Inv s a' key session_pub (decrypt b key (codes "PV-Msg02") ct []) i)

  v2_parts-Inv :
      (s : Sender) (session_pub ct : Option Bytes) → Inv s → Inv (v2_parts b s session_pub ct)
  unfolding v2_parts
  v2_parts-Inv s (some session_pub) (some ct) i = v2_shared-Inv s s.ap2 session_pub ct i
  v2_parts-Inv s (some session_pub) none i = fail-Inv (codes "Pair-verify response incomplete") s i
  v2_parts-Inv s none ct i = fail-Inv (codes "Pair-verify response incomplete") s i

  v2_error-Inv : (m : Items) (s : Sender) (err : Option Bytes) → Inv s → Inv (v2_error b m s err)
  unfolding v2_error
  v2_error-Inv m s none i = v2_parts-Inv s (get m Tag.public_key) (get m Tag.encrypted_data) i
  v2_error-Inv m s (some err) i = fail-Inv (with_error (codes "Pair-verify rejected") err) s i

  pub handle_pair_verify_m2-Inv :
      (body : Bytes) (s : Sender) → Inv s → Inv (handle_pair_verify_m2 b body s)
  unfolding handle_pair_verify_m2
  handle_pair_verify_m2-Inv body s i =
      v2_error-Inv (Tlv.decode body) s (get (Tlv.decode body) Tag.error) i
