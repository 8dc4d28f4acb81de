-- ===== src/Sender/Pairing/Fallback.antt =====
-- The fallbacks of `onPairingResponse_` of src/raop_sender.cpp come to an end.
use airplay2_sender_cpp.Base.{
  ◌∷◌, [], if-split, codes, ap, ◌⊎◌, ℕ, ◌+◌, ◌<◌, ◌≡◌, Bool, true, false, not, ◌&&◌, arith, inl,
  inr, if◌then◌else◌, &&_eq_true,
}
use airplay2_sender_cpp.Crypto.Backend.{Backend}
use airplay2_sender_cpp.Text.Numbers.{ℤ}
use airplay2_sender_cpp.Tlv.{encode}
use airplay2_sender_cpp.Tlv.Tag
use airplay2_sender_cpp.Sender.Auth.{Auth, is_transient}
use airplay2_sender_cpp.Sender.Stage.{PairStage, at_pin_start, at_setup_m2}
use airplay2_sender_cpp.Sender.State.{Sender}
use airplay2_sender_cpp.Sender.Lifecycle.Closing.{IsClosed, fail-IsClosed}
use airplay2_sender_cpp.Sender.Request.Effects.{Requests, http_post-Requests}
use airplay2_sender_cpp.Sender.Ap2Setup.{at_stage}
use airplay2_sender_cpp.Sender.Pairing.Setup.{octets, send_pair_pin_start, send_pair_setup_m1}
use airplay2_sender_cpp.Sender.Pairing.Replies.{is_code, on_refusal, refusal, fresh_ap2}

-- How many fallbacks are left: one to the PIN while pairing is transient, and the one to transient
-- pairing with the PIN after it.
abbrev pub fallbacks : Sender → ℕ
fallbacks s = (if s.tried_transient then 0 else 2) + (if is_transient s.auth_method then 1 else 0)

not-true : (c : Bool) → not c ≡ true → c ≡ false
not-true c h = ground arith

module _ (b : Backend) where
  abbrev Settles : Sender → Sender → Type 0
  Settles s t = IsClosed s t ⊎ (fallbacks t < fallbacks s)

  to_pin-fallbacks :
      (s t : Sender)
      → is_transient s.auth_method ≡ true
      → Requests b
          (codes "POST")
          true
          (at_stage PairStage.pin_start (fresh_ap2 b (record s { auth_method = Auth.hap_pin })))
          t
      → fallbacks t < fallbacks s
  unfolding fresh_ap2
  to_pin-fallbacks s t e r = rw (e, ap fallbacks r) (omega arith)

  to_transient-fallbacks :
      (s t : Sender)
      → s.tried_transient ≡ false
      → Requests b
          (codes "POST")
          true
          (at_stage PairStage.setup_m2
            (fresh_ap2 b (record s { tried_transient = true; auth_method = Auth.hap_transient })))
          t
      → fallbacks t < fallbacks s
  unfolding fresh_ap2
  to_transient-fallbacks s t e r = rw (e, ap fallbacks r) (omega arith)

  send_pair_pin_start-Requests :
      (s : Sender)
      → Requests b (codes "POST") true (at_stage PairStage.pin_start s) (send_pair_pin_start b s)
  unfolding send_pair_pin_start
  send_pair_pin_start-Requests s =
      http_post-Requests b (codes "/pair-pin-start") octets [] (at_stage PairStage.pin_start s)

  send_pair_setup_m1-Requests :
      (s : Sender)
      → Requests b (codes "POST") true (at_stage PairStage.setup_m2 s) (send_pair_setup_m1 b s)
  unfolding send_pair_setup_m1
  send_pair_setup_m1-Requests s =
      let flag = if is_transient s.auth_method then (Tag.flags, 0x10 ∷ []) ∷ [] else [] in
      http_post-Requests b (codes "/pair-setup") octets
        (encode ((Tag.method, 0x00 ∷ []) ∷ ((Tag.state, 0x01 ∷ []) ∷ flag)))
        (at_stage PairStage.setup_m2 s)

  -- A refused pairing request either fails the session, closing every socket and stopping every
  -- timer, or uses up a fallback; so at most three are taken.
  pub on_refusal-fallbacks :
      (code : ℤ) (s : Sender)
      → IsClosed s (on_refusal b code s) ⊎ (fallbacks (on_refusal b code s) < fallbacks s)
  unfolding on_refusal
  on_refusal-fallbacks code s =
      let tested = is_transient s.auth_method && at_setup_m2 s.pair_stage in
      let started = at_pin_start s.pair_stage && not s.tried_transient in
      if-split (Settles s) (is_code 470 code && tested) _ _
        (λ e. inr (
          to_pin-fallbacks s _ (&&_eq_true _ _ (&&_eq_true (is_code 470 code) tested e).1).0
            (send_pair_pin_start-Requests (fresh_ap2 b (record s { auth_method = Auth.hap_pin })))))
        (λ c.
          if-split (Settles s) (is_code 403 code && started) _ _
            (λ e. inr (
              to_transient-fallbacks s _
                (not-true _ (&&_eq_true _ _ (&&_eq_true (is_code 403 code) started e).1).1)
                (send_pair_setup_m1-Requests (
                  fresh_ap2 b
                    (record s { tried_transient = true; auth_method = Auth.hap_transient })))))
            (λ d. inl (fail-IsClosed (refusal s.config.name code) s)))
