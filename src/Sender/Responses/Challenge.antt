-- ===== src/Sender/Responses/Challenge.antt =====
-- The digest challenge of `handleResponse_` of src/raop_sender.cpp is answered once.
use airplay2_sender_cpp.Base.{◌⊎◌, ◌≡◌, Bool, true, false, ◌||◌, Bytes, codes, bytes_eq}
use airplay2_sender_cpp.Crypto.Backend.{Backend}
use airplay2_sender_cpp.Sender.State.{Sender}
use airplay2_sender_cpp.Sender.Lifecycle.Closing.{IsClosed}

module _ (b : Backend) where
  -- The session is over, or a challenge counts as answered.
  abbrev Answered : Sender → Sender → Type 0
  Answered s t = IsClosed s t ⊎ (t.digest.retried ≡ true)

  -- What a challenge does to a session: it fails, or the challenge is the first and is remembered.
  abbrev pub Once : Sender → Sender → Type 0
  Once s t = IsClosed s t ⊎ ((s.digest.retried ≡ false) × (t.digest.retried ≡ true))

  -- The requests whose replies say nothing of a challenge.
  abbrev pub unasked : Bytes → Bool
  unasked method =
      bytes_eq method (codes "SET_PARAMETER")
      || (bytes_eq method (codes "POST")
          || (bytes_eq method (codes "FEEDBACK") || bytes_eq method (codes "TEARDOWN")))
