-- ===== src/Creds/Tests.antt =====
-- Runs of the stored credentials.
use airplay2_sender_cpp.Base.{◌≡◌, [], ◌∷◌, ◌++◌, some, Bytes, IsBytes, arith}
use airplay2_sender_cpp.Creds.Hex.{hex_encode, hex_decode, hex_decode-hex_encode}
use airplay2_sender_cpp.Creds.Json.{quote, escape, str}
use airplay2_sender_cpp.Creds.Json.Strings.{str-escape}
use airplay2_sender_cpp.Creds.Store.{Creds, to_json, from_json}
use airplay2_sender_cpp.Creds.Store.RoundTrip.{from_json-to_json}

abbrev two_bytes : Bytes
two_bytes = 0x0A ∷ (0xFF ∷ [])

two_bytes-IsBytes : IsBytes two_bytes
two_bytes-IsBytes = (omega arith, (omega arith, tt))

hex_decode-hex_encode_example : hex_decode (hex_encode two_bytes) ≡ some two_bytes
hex_decode-hex_encode_example = hex_decode-hex_encode two_bytes two_bytes-IsBytes

-- A quote, a backslash and a control character.
abbrev awkward : Bytes
awkward = 0x22 ∷ (0x5C ∷ (0x01 ∷ []))

awkward-IsBytes : IsBytes awkward
awkward-IsBytes = (omega arith, (omega arith, (omega arith, tt)))

str-escape_example :
    str (quote ∷ (escape awkward ++ quote ∷ (0x7D ∷ []))) ≡ some (awkward, 0x7D ∷ [])
str-escape_example = str-escape awkward (0x7D ∷ []) awkward-IsBytes

abbrev sample_creds : Creds
sample_creds = record {
  ltsk = two_bytes;
  ltpk = two_bytes;
  atv_id = two_bytes;
  client_id = awkward;
}

from_json-to_json_example : from_json (to_json sample_creds) ≡ some sample_creds
from_json-to_json_example = from_json-to_json sample_creds (record {
  ltsk = two_bytes-IsBytes;
  ltpk = two_bytes-IsBytes;
  atv_id = two_bytes-IsBytes;
  client_id = awkward-IsBytes;
})
