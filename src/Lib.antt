-- ===== src/Lib.antt =====
-- airplay2-sender-cpp: an AirPlay sender in C++ that pairs with a receiver, sets up a session over
-- RTSP and streams audio over RTP.
--
-- The program. `RaopSender` (src/raop_sender.h, src/raop_sender.cpp) is a state machine without
-- threads and sockets of its own: a host calls it when bytes arrive, when a connection opens or
-- closes and when a deadline has passed, and it answers through the interface `RaopIo`
-- (src/raop_io.h). It takes audio from a lock-free ring (src/ring_buffer.h), does its cryptography
-- through src/airplay_crypto.h and src/airplay_crypto.cpp (TLV8, property lists, SRP, AEAD, digest)
-- over Mbed TLS and third_party/ed25519, and keeps pairing credentials as JSON (src/raop_creds.h).
--
-- The files.
-- - Base: the names that all share, tests on native numbers, lists, byte strings, bits, words.
-- - Ring: src/ring_buffer.h, `RingBuffer`; Ring/Threads has its two threads as steps on counters
--   that may be stale. `size_t` has 64 bits and wraps.
-- - Tlv, Plist: the namespaces `tlv` and `bplist` of src/airplay_crypto.cpp.
-- - Crypto: the wrappers and `SrpClient` of src/airplay_crypto.cpp. What Mbed TLS and
--   third_party/ed25519 do is the record Crypto.Backend, a parameter of every definition that uses
--   it; CipherLaws is what Mbed TLS documents of its cipher. `none` stands for an exception.
-- - Creds: src/raop_creds.h.
-- - Text: the helpers on strings at the top of src/raop_sender.cpp.
-- - Log: the formatter of src/raop_log.h.
-- - Doubles: the finite doubles of C++ as multiples of 2^-1074, with the rounding of IEEE 754.
-- - Frames: the encrypted frames of the control and the event connection.
-- - Sender: `RaopSender`. Sender/State is its state, one record for each group of fields; what it
--   does to the outside is a list of Sender/Action, the latest first. One function stands for each
--   method: Sender/Request (`sendRequest_`, `httpPost_`, `sendAp2Rtsp_`, `writeRtsp_`),
--   Sender/Lifecycle (`start`, `stop`, `fail_`, closed connections), Sender/Handshake (OPTIONS to
--   `startStreaming_`, volume, metadata), Sender/Pairing (pair-setup, pair-verify, the dispatcher of
--   replies), Sender/Ap2Setup (SETUP with property lists), Sender/Responses (`handleResponse_`),
--   Sender/Receive and Sender/Events (bytes that arrive), Sender/Rtp, Sender/Alac and Sender/Clock
--   (packets, pacer, backlog, time stamps), Sender/Resample (`fillFrames_`), Sender/Volume (the
--   percentage as decibels), Sender/Timers (`tick`, `nextDeadline`). Sender/Calls has every public
--   call, and `step`, which runs one at given clocks. Sender/Invariant states what holds between two
--   calls, and the module Invariant below a component that the component keeps it.
-- - Loop: src/raop_loop.cpp, `RaopLoop`. Loop/System has its slots and the record `Os`, a parameter
--   that answers each call of the system from all calls made so far; Loop/Slots and Loop/Io are the
--   slots and the six calls of `RaopIo`, Loop/Client joins the loop to a sender, and Loop/Pump is
--   `pump`. Loop/Descriptors and Loop/Stream follow the descriptors and the bytes.
--
-- Conventions. A byte string is a list of numbers; machine integers are natural numbers with their
-- wrap written out. Times are in nanoseconds, the wall clock in microseconds. A null pointer that is
-- dereferenced and an exception that escapes set the field `fault`, after which `step` does nothing.
-- Random numbers are named by the number of their draw. Loops run on fuel: the length of the buffer
-- for frames and messages, which are never empty; 20 and 16 digits for numbers of 64 bits; 2045
-- halvings for a double, the exponents it has; 33 levels for property lists, the depth that the
-- decoder allows; 16 packets for a tick of the pacer; 64 datagrams for a burst; one round for each
-- byte in `drain`. The loops of `RaopLoop` that only the
-- clock or the peer ends take a number of rounds as a parameter, and what is said of them holds for
-- every such number.
--
-- Not modelled: the log lines that the sender and the loop write; the Winsock branch of
-- src/raop_loop.cpp; the host src/raop_qt_host.cpp, which is glue; callbacks that call the sender
-- again; doubles that are not a number or infinite; a compiler that fuses a multiplication and an
-- addition of doubles; third_party, example and test.
pub mod Base
pub mod Creds
pub mod Crypto
pub mod Doubles
pub mod Frames
pub mod Log
pub mod Loop
pub mod Plist
pub mod Ring
pub mod Sender
pub mod Text
pub mod Tlv
