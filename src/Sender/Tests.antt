-- ===== src/Sender/Tests.antt =====
-- Runs of the sender over the sample back end.
use airplay2_sender_cpp.Base.{
  bytes_eq, ◌*◌, length, ℕ, replicate, List, ◌⊎◌, ◌+◌, ◌≤◌, ◌<◌, ◌≡◌, refl, true, false, [], ◌∷◌,
  ◌++◌, some, codes, arith, be_bytes, Bytes, take, drop,
}
use airplay2_sender_cpp.Tlv.Tag
use airplay2_sender_cpp.Crypto.Curves.{ed25519_verify}
use airplay2_sender_cpp.Crypto.Samples.{signing_backend, sample_backend, sample_laws}
use airplay2_sender_cpp.Text.{Headers}
use airplay2_sender_cpp.Text.Numbers.{pos}
use airplay2_sender_cpp.Sender.Auth.{Auth}
use airplay2_sender_cpp.Sender.Stage.{State, PairStage}
use airplay2_sender_cpp.Sender.Action.{udp_send, RaopTcp, RaopUdp, RaopEndpoint}
use airplay2_sender_cpp.Sender.State.{Sender, Ap2, Timers, emit, new_ap2, initial_timers}
use airplay2_sender_cpp.Sender.Invariant.{Facts}
use airplay2_sender_cpp.Sender.Calls.{new_sender, Call, step}
use airplay2_sender_cpp.Sender.Calls.Invariant.{called, created, Reachable-Facts}
use airplay2_sender_cpp.Sender.Clock.{ntp2ts, ts2ntp, raop_rate}
use airplay2_sender_cpp.Sender.Clock.Accuracy.{ntp2ts-ts2ntp}
use airplay2_sender_cpp.Sender.Timers.{next_deadline}
use airplay2_sender_cpp.Sender.Timers.Deadline.{Earliest, next_deadline-Earliest}
use airplay2_sender_cpp.Sender.Lifecycle.Closing.{IsClosed}
use airplay2_sender_cpp.Sender.Lifecycle.Stopping.{stopped_timers}
use airplay2_sender_cpp.Sender.Alac.{encode_alac_frame}
use airplay2_sender_cpp.Sender.Alac.BitLists.{bits, bits_of, sample_bits}
use airplay2_sender_cpp.Sender.Alac.Layout.{head_bits, encode_alac_frame-bits}
use airplay2_sender_cpp.Sender.Rtp.{encrypt_audio_payload, resend, on_pacer_tick, target_frames}
use airplay2_sender_cpp.Sender.Rtp.Encryption.{encrypt_audio_payload-opens}
use airplay2_sender_cpp.Crypto.Aead.{hkdf, decrypt, counter_nonce8}
use airplay2_sender_cpp.Frames.{next_counter}
use airplay2_sender_cpp.Sender.Rtp.Backlog.{commit_all, resend-commit_all}
use airplay2_sender_cpp.Sender.Rtp.Pace.{Paces, on_pacer_tick-Paces}
use airplay2_sender_cpp.Sender.Pairing.Replies.{on_refusal}
use airplay2_sender_cpp.Sender.Pairing.Fallback.{fallbacks, on_refusal-fallbacks}
use airplay2_sender_cpp.Crypto.Srp.{SrpClient, srp_verify}
use airplay2_sender_cpp.Tlv
use airplay2_sender_cpp.Tlv.{get}
use airplay2_sender_cpp.Sender.Pairing.Verify.{proven, handle_pair_setup_m4}
use airplay2_sender_cpp.Sender.Pairing.Verify.Strict.{handle_pair_setup_m4-strict}
use airplay2_sender_cpp.Sender.Pairing.Keys.{handle_pair_verify_m2}
use airplay2_sender_cpp.Sender.Pairing.Keys.Strict.{is_genuine, handle_pair_verify_m2-strict}

ntp2ts-ts2ntp_example :
    (ntp2ts (ts2ntp 1000 raop_rate) raop_rate ≤ 1000)
    × (1000 ≤ ntp2ts (ts2ntp 1000 raop_rate) raop_rate + 1)
ntp2ts-ts2ntp_example = ntp2ts-ts2ntp 1000 (omega arith)

-- A sender whose pacer and watchdog run.
abbrev running : Timers
running = record initial_timers {
  pacer = record { interval = 8000000; repeating = true; active = true; due = 90 };
  timeout = record { interval = 10000000000; repeating = false; active = true; due = 70 };
}

next_deadline-Earliest_example :
    Earliest
      (running.feedback_timer
        ∷ (running.pin_timeout ∷ (running.timeout ∷ (running.sync_timer ∷ (running.pacer ∷ [])))))
      (next_deadline running)
next_deadline-Earliest_example = next_deadline-Earliest running

-- A session over AirPlay 2 whose handshake is under way.
abbrev shaking : Sender
shaking = record new_sender {
  state = State.handshake;
  timers = running;
  config = record (new_sender.config) { airplay2 = true };
  link = record (new_sender.link) { rtsp_connected = true; udp_bound = true };
}

-- The watchdog of that session runs on after `stop`.
stopped_timers-shaking : (stopped_timers shaking).timeout.active ≡ true
stopped_timers-shaking = refl

abbrev receiver : RaopEndpoint
receiver = record { ip = codes "10.0.0.2"; port = 6001 }

-- A stream at the highest sequence number.
abbrev at_the_end : Sender
at_the_end = record new_sender {
  state = State.streaming;
  stream = record (new_sender.stream) { seq = 65535 };
}

resend-commit_all_example :
    resend receiver 65535 (commit_all ((1 ∷ []) ∷ ((2 ∷ []) ∷ [])) at_the_end)
    ≡ emit
        (udp_send RaopUdp.control receiver (0x80 ∷ (0xD6 ∷ (be_bytes 2 65535 ++ (1 ∷ [])))))
        (commit_all ((1 ∷ []) ∷ ((2 ∷ []) ∷ [])) at_the_end)
resend-commit_all_example =
    resend-commit_all receiver (1 ∷ []) ((2 ∷ []) ∷ []) at_the_end (refl, refl, omega arith)
      (omega arith)

-- Twenty milliseconds into a stream.
abbrev paced : Sender
paced = record new_sender { state = State.streaming; now = 20000000 }

on_pacer_tick-Paces_example : Paces 20000000 paced (on_pacer_tick sample_backend paced)
unfolding on_pacer_tick target_frames
on_pacer_tick-Paces_example =
    on_pacer_tick-Paces sample_backend paced 20000000 refl (omega arith) (omega arith) refl

-- Pairing that a receiver refuses with 470.
abbrev refused : Sender
refused = record new_sender {
  state = State.pairing;
  auth_method = Auth.hap_transient;
  pair_stage = PairStage.setup_m2;
}

on_refusal-fallbacks_example :
    IsClosed refused (on_refusal sample_backend (pos 470) refused)
    ⊎ (fallbacks (on_refusal sample_backend (pos 470) refused) < fallbacks refused)
on_refusal-fallbacks_example = on_refusal-fallbacks sample_backend (pos 470) refused

-- A strict session that has stored the key of its receiver.
abbrev trusting : Ap2
trusting = record new_ap2 {
  accessory_ltpk = replicate 32 3;
  verify_priv = replicate 32 2;
  verify_pub = replicate 32 4;
}

abbrev strict : Sender
strict = record new_sender {
  state = State.pairing;
  config = record (new_sender.config) { strict_auth = true };
  pair_stage = PairStage.verify_m2;
  ap2 = some trusting;
}

-- A reply to pair-verify that is complete, with a signature.
abbrev m2_reply : Bytes → Bytes
m2_reply sig = Tlv.encode (
    (Tag.state, 2 ∷ [])
    ∷ ((Tag.public_key, replicate 32 1)
        ∷ ((
          Tag.encrypted_data,
          Tlv.encode ((Tag.identifier, codes "ATV") ∷ ((Tag.signature, sig) ∷ []))
              ++ replicate 16 0,
        )
            ∷ [])))

-- With the right signature it is genuine, and with another one the session ends.
m2_reply-genuine : is_genuine signing_backend trusting (m2_reply (replicate 64 9)) ≡ true
unfolding is_genuine bytes_eq get Tlv.decode Tlv.encode decrypt hkdf ed25519_verify
m2_reply-genuine = refl

handle_pair_verify_m2-strict_example :
    IsClosed strict (handle_pair_verify_m2 signing_backend (m2_reply (replicate 64 1)) strict)
unfolding is_genuine bytes_eq get Tlv.decode Tlv.encode decrypt hkdf ed25519_verify
handle_pair_verify_m2-strict_example =
    handle_pair_verify_m2-strict signing_backend (m2_reply (replicate 64 1)) strict trusting refl
      refl refl

-- One frame of two samples.
abbrev samples : List ℕ
samples = 0x1234 ∷ (0xFFFF ∷ [])

encode_alac_frame-bits_example :
    (bits_of (encode_alac_frame samples)
      ≡ ((head_bits ++ sample_bits samples) ++ bits 3 7) ++ replicate 6 0)
    × (length (encode_alac_frame samples) ≡ 2 * length samples + 4)
encode_alac_frame-bits_example = encode_alac_frame-bits samples

abbrev challenge : Headers
challenge = (codes "www-authenticate", codes "Digest realm=\"AirPlay\", nonce=\"abc\"") ∷ []

-- A session with a password.
abbrev asked : Sender
asked = record new_sender {
  state = State.handshake;
  config = record (new_sender.config) { digest_password = codes "secret" };
}

-- The AirPlay 2 state with the encryption of audio on.
abbrev keyed : Ap2
keyed = record new_ap2 { encrypt_audio = true; audio_key = replicate 32 1 }

encrypt_audio_payload-opens_example :
    (ct : Bytes) × (encrypt_audio_payload sample_backend
        (be_bytes 12 7)
        (5 ∷ (6 ∷ []))
        (record new_sender { ap2 = some keyed })
      ≡ some (
        ct ++ counter_nonce8 0,
        record new_sender { ap2 = some (record keyed { audio_nonce = next_counter 0 }) },
      ))
    × (length ct ≡ 18)
    × (decrypt sample_backend
          (replicate 32 1)
          (counter_nonce8 0)
          ct
          (take 8 (drop 4 (be_bytes 12 7)))
        ≡ some (5 ∷ (6 ∷ [])))
encrypt_audio_payload-opens_example =
    encrypt_audio_payload-opens sample_backend sample_laws (be_bytes 12 7) (5 ∷ (6 ∷ []))
      (record new_sender { ap2 = some keyed }) keyed refl refl refl

-- An SRP client that has taken the receiver's challenge.
abbrev challenged : SrpClient
challenged = record {
  secret_a = 3;
  public_a = 125;
  public_b = 25;
  shared_s = 5;
  salt = 1 ∷ [];
  session_key = 2 ∷ [];
  proof_m1 = 3 ∷ [];
  password = 4 ∷ [];
  processed = true;
}

abbrev proving : Ap2
proving = record new_ap2 { srp = some challenged }

-- A reply of state 4 with a proof of one byte.
abbrev short_proof : Bytes
short_proof = 6 ∷ (1 ∷ (4 ∷ (4 ∷ (1 ∷ (9 ∷ [])))))

handle_pair_setup_m4-strict_example :
    IsClosed strict
      (handle_pair_setup_m4 sample_backend short_proof (record strict { ap2 = some proving }))
unfolding proven srp_verify Tlv.decode get
handle_pair_setup_m4-strict_example =
    handle_pair_setup_m4-strict sample_backend short_proof (record strict { ap2 = some proving })
      proving challenged refl refl refl refl

-- A session that is opened, whose connection comes up, and that is stopped in the handshake.
abbrev opened : Sender
opened =
    step sample_backend 10 20
      (Call.start_call (codes "10.0.0.2") 7000 (codes "Kitchen") 6001 6002 6003) new_sender

abbrev connected : Sender
connected =
    step sample_backend 30 40
      (Call.connected_call RaopTcp.control (codes "10.0.0.1") (codes "10.0.0.2")) opened

Reachable-Facts_example : Facts (step sample_backend 50 60 Call.stop_call connected)
Reachable-Facts_example =
    Reachable-Facts sample_backend (step sample_backend 50 60 Call.stop_call connected) (
      called 50 60 Call.stop_call connected (
        called 30 40 (Call.connected_call RaopTcp.control (codes "10.0.0.1") (codes "10.0.0.2"))
          opened
          (called 10 20 (Call.start_call (codes "10.0.0.2") 7000 (codes "Kitchen") 6001 6002 6003)
            new_sender created)))
