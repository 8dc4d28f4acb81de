-- ===== src/Sender/Pairing/Verify.antt =====
-- `handlePairSetupM4_` to `handlePairVerifyM2_` of src/raop_sender.cpp.
pub mod Strict
pub mod Invariant
use airplay2_sender_cpp.Base.{
  suc, Bool, true, false, not, ◌&&◌, [], ◌∷◌, ◌++◌, Option, none, some, Bytes, codes, if◌then◌else◌,
}
use airplay2_sender_cpp.Crypto.Backend.{Backend}
use airplay2_sender_cpp.Crypto.Aead.{hkdf, encrypt}
use airplay2_sender_cpp.Crypto.Curves.{x25519_generate, ed25519_public_from_seed, ed25519_sign}
use airplay2_sender_cpp.Crypto.Srp.{SrpClient, srp_verify}
use airplay2_sender_cpp.Tlv.{Items, get}
use airplay2_sender_cpp.Tlv
use airplay2_sender_cpp.Tlv.Tag
use airplay2_sender_cpp.Sender.Auth.{is_transient}
use airplay2_sender_cpp.Sender.Stage.{PairStage}
use airplay2_sender_cpp.Sender.State.{Sender, Ap2, crash}
use airplay2_sender_cpp.Sender.Request.{is_empty, http_post}
use airplay2_sender_cpp.Sender.Lifecycle.{fail, uuid_v4_lower}
use airplay2_sender_cpp.Sender.Ap2Setup.{at_stage, with_ap2}
use airplay2_sender_cpp.Sender.Pairing.Setup.{octets, with_error, after_auth_ok}

is_some : Option Bytes → Bool
is_some none = false
is_some (some x) = true

module _ (b : Backend) where
  -- The two keys of the control channel.
  unfoldable pub control_keys : Bytes → Ap2 → Ap2
  unfolding hkdf
  control_keys secret a = record a {
    control_out = hkdf b (codes "Control-Salt") (codes "Control-Write-Encryption-Key") secret;
    control_in = hkdf b (codes "Control-Salt") (codes "Control-Read-Encryption-Key") secret;
  }

  -- `sendPairVerifyM1_`
  verify_m1_with : Sender → Option Ap2 → Sender
  unfolding http_post Tlv.encode x25519_generate
  verify_m1_with s none = crash s
  verify_m1_with s (some a) =
      let keys = x25519_generate b s.draws in
      http_post b (codes "/pair-verify") octets
        (Tlv.encode ((Tag.state, 0x01 ∷ []) ∷ ((Tag.public_key, keys.0) ∷ [])))
        (at_stage PairStage.verify_m2 (
          with_ap2 (record a { verify_pub = keys.0; verify_priv = keys.1 })
            (record s { draws = suc s.draws })))

  unfoldable pub send_pair_verify_m1 : Sender → Sender
  unfolding verify_m1_with
  send_pair_verify_m1 s = verify_m1_with s s.ap2

  -- The long-term identity of the controller, made if there is none.
  with_seed : Sender → Ap2 → Sender × Ap2
  with_seed s a =
      if is_empty a.lt_seed
      then (record s { draws = suc s.draws }, record a { lt_seed = b.random s.draws 32 })
      else (s, a)

  with_id : Sender × Ap2 → Sender × Ap2
  unfolding uuid_v4_lower
  with_id (s, a) =
      if is_empty a.pairing_id
      then (record s { draws = suc s.draws }, record a { pairing_id = uuid_v4_lower b s.draws })
      else (s, a)

  unfoldable pub with_identity : Sender → Ap2 → Sender × Ap2
  unfolding with_seed with_id ed25519_public_from_seed
  with_identity s a =
      let (t, a') = with_seed s a in
      with_id (t, record a' { lt_pub = ed25519_public_from_seed b a'.lt_seed })

  m5_sent : Sender → Ap2 → Bytes → Option Bytes → Sender
  unfolding http_post Tlv.encode
  m5_sent s a key none = crash (with_ap2 a s)
  m5_sent s a key (some enc) =
      http_post b (codes "/pair-setup") octets
        (Tlv.encode ((Tag.state, 0x05 ∷ []) ∷ ((Tag.encrypted_data, enc) ∷ [])))
        (at_stage PairStage.setup_m6 (with_ap2 a (record s { pair_setup_session_key = key })))

  -- What M5 says, under the key derived from the session key `k`.
  m5_items : Bytes → Ap2 → Items
  unfolding hkdf ed25519_sign
  m5_items k a =
      let x =
        hkdf b (codes "Pair-Setup-Controller-Sign-Salt") (codes "Pair-Setup-Controller-Sign-Info")
          k in
      (Tag.identifier, a.pairing_id)
      ∷ ((Tag.public_key, a.lt_pub)
          ∷ ((Tag.signature, ed25519_sign b a.lt_seed (x ++ (a.pairing_id ++ a.lt_pub))) ∷ []))

  m5_with : Sender → Ap2 → SrpClient → Sender
  unfolding with_identity m5_items m5_sent hkdf encrypt Tlv.encode
  m5_with s a c =
      let (t, a') = with_identity s a in
      let key =
        hkdf b (codes "Pair-Setup-Encrypt-Salt") (codes "Pair-Setup-Encrypt-Info") c.session_key in
      m5_sent t a' key
        (encrypt b key (codes "PS-Msg05") (Tlv.encode (m5_items c.session_key a')) [])

  refused_proof : Bool → Bytes
  refused_proof sent =
      if sent
      then codes "The device's pairing proof did not verify (receiver not authenticated)"
      else codes "The device sent no pairing proof (receiver not authenticated)"

  -- Whether the reply holds a proof, and the client verifies it.
  unfoldable pub proven : SrpClient → Option Bytes → Bool
  unfolding srp_verify
  proven c none = false
  proven c (some proof) = srp_verify b c proof

  -- The part of M4 that needs the SRP client: `sendPairSetupM5_` is `m5_with`.
  m4_with : Option Bytes → Sender → Ap2 → Option SrpClient → Sender
  unfolding proven m5_with control_keys after_auth_ok fail refused_proof is_some
  m4_with proof s a none = crash s
  m4_with proof s a (some c) =
      if not (proven c proof) && s.config.strict_auth
      then fail (refused_proof (is_some proof)) s
      else if is_transient s.auth_method
      then after_auth_ok b (
          at_stage PairStage.done
            (with_ap2 (control_keys c.session_key (record a { shared_secret = c.session_key })) s))
      else m5_with s a c

  m4_ap2 : Option Bytes → Sender → Option Ap2 → Sender
  unfolding m4_with
  m4_ap2 proof s none = crash s
  m4_ap2 proof s (some a) = m4_with proof s a a.srp

  -- Without a proof strict mode does not look at the client.
  m4_proof : Option Bytes → Sender → Sender
  unfolding m4_ap2 fail refused_proof
  m4_proof none s =
      if s.config.strict_auth then fail (refused_proof false) s else m4_ap2 none s s.ap2
  m4_proof (some proof) s = m4_ap2 (some proof) s s.ap2

  m4_error : Items → Sender → Option Bytes → Sender
  unfolding m4_proof fail get
  m4_error m s none = m4_proof (get m Tag.proof) s
  m4_error m s (some err) = fail (with_error (codes "Pairing PIN was not accepted") err) s

  -- `handlePairSetupM4_`
  unfoldable pub handle_pair_setup_m4 : Bytes → Sender → Sender
  unfolding m4_error Tlv.decode get
  handle_pair_setup_m4 body s = let m = Tlv.decode body in m4_error m s (get m Tag.error)
