-- ===== src/Creds/Store/RoundTrip.antt =====
-- `raopCredsFromJson` reads back what `raopCredsToJson` of src/raop_creds.h writes.
use airplay2_sender_cpp.Base.{
  drop, ℕ, suc, ◌≡◌, refl, ap, sym, ◌∙◌, true, [], ◌∷◌, ◌++◌, some, Bytes, IsBytes, codes, bytes_eq,
  arith, length,
}
use airplay2_sender_cpp.Creds.Hex.{hex_encode, hex_decode-hex_encode, hex_encode-IsPlain, IsPlain}
use airplay2_sender_cpp.Creds.Json.{quote, escape, eat, str}
use airplay2_sender_cpp.Creds.Json.Strings.{str-escape, escape-plain}
use airplay2_sender_cpp.Creds.Store.{
  Creds, to_json, Fields, no_fields, is_known, assign, member, keyed, more, end, separator, members,
  finish, from_json,
}

-- A member as it is written, and the text behind it.
abbrev field_text : Bytes → Bytes → Bytes → Bytes
field_text key value rest =
    quote ∷ (key ++ quote ∷ (b':' ∷ (quote ∷ (escape value ++ quote ∷ rest))))

member-field_text :
    (f : Fields) (key value rest : Bytes)
    → is_known key ≡ true
    → IsPlain key
    → IsBytes key
    → IsBytes value
    → member f (field_text key value rest) ≡ some (assign f key value, rest)
unfolding member eat
member-field_text f key value rest known plain bk bv =
    rw (key_read, keyed) (rw (known, str-escape value rest bv) refl)
  where
    after : Bytes
    after = b':' ∷ (quote ∷ (escape value ++ quote ∷ rest))

    key_read : str (quote ∷ (key ++ quote ∷ after)) ≡ some (key, after)
    key_read =
        ap (λ t. str (quote ∷ (t ++ quote ∷ after))) (sym (escape-plain key plain))
        ∙ str-escape key after bk

separator_comma : (rest : Bytes) → separator (b',' ∷ rest) ≡ more rest
unfolding separator eat
separator_comma rest = refl

separator_brace : separator (b'}' ∷ []) ≡ end
unfolding separator eat
separator_brace = refl

-- A member with another one behind it, and the last one.
members-more :
    (fuel : ℕ) (f : Fields) (key value rest : Bytes)
    → is_known key ≡ true
    → IsPlain key
    → IsBytes key
    → IsBytes value
    → members (suc fuel) f (field_text key value (b',' ∷ rest))
      ≡ members fuel (assign f key value) rest
unfolding members
members-more fuel f key value rest known plain bk bv =
    rw (member-field_text f key value (b',' ∷ rest) known plain bk bv, members)
      (rw (separator_comma rest, members) refl)

members_last :
    (fuel : ℕ) (f : Fields) (key value : Bytes)
    → is_known key ≡ true
    → IsPlain key
    → IsBytes key
    → IsBytes value
    → members (suc fuel) f (field_text key value (b'}' ∷ [])) ≡ some (assign f key value)
unfolding members
members_last fuel f key value known plain bk bv =
    rw (member-field_text f key value (b'}' ∷ []) known plain bk bv, members)
      (rw (separator_brace, members) refl)

pub record IsStored (c : Creds) : Type 0 where
  pub ltsk : IsBytes c.ltsk
  pub ltpk : IsBytes c.ltpk
  pub atv_id : IsBytes c.atv_id
  pub client_id : IsBytes c.client_id

abbrev object_text : Creds → Bytes
object_text c = field_text (codes "atvId") (hex_encode c.atv_id) (
    b','
    ∷ field_text (codes "clientId") c.client_id (
        b','
        ∷ field_text (codes "ltpk") (hex_encode c.ltpk)
            (b',' ∷ field_text (codes "ltsk") (hex_encode c.ltsk) (b'}' ∷ []))))

to_json_lem : (c : Creds) → IsStored c → to_json c ≡ b'{' ∷ object_text c
unfolding to_json
to_json_lem c v =
    rw
      (
        escape-plain _ (hex_encode-IsPlain c.atv_id v.atv_id),
        escape-plain _ (hex_encode-IsPlain c.ltpk v.ltpk),
        escape-plain _ (hex_encode-IsPlain c.ltsk v.ltsk),
      )
      refl

plain-IsBytes : (s : Bytes) → IsPlain s → IsBytes s
plain-IsBytes [] h = tt
plain-IsBytes (c ∷ cs) h = (omega arith, plain-IsBytes cs h.4)

hex-IsBytes : (s : Bytes) → IsBytes s → IsBytes (hex_encode s)
hex-IsBytes s h = plain-IsBytes _ (hex_encode-IsPlain s h)

-- All four members, read in the order in which they are written.
members-object_text :
    (fuel : ℕ) (c : Creds)
    → IsStored c
    → members (suc (suc (suc (suc fuel)))) no_fields (object_text c)
      ≡ some (record {
        ltsk = some (hex_encode c.ltsk);
        ltpk = some (hex_encode c.ltpk);
        atv_id = some (hex_encode c.atv_id);
        client_id = some c.client_id;
      })
unfolding assign bytes_eq is_known
members-object_text fuel c v =
    members-more _ _ (codes "atvId") _ _ refl (omega arith) (omega arith)
      (hex-IsBytes c.atv_id v.atv_id)
    ∙ (members-more _ _ (codes "clientId") _ _ refl (omega arith) (omega arith) v.client_id
        ∙ (members-more _ _ (codes "ltpk") _ _ refl (omega arith) (omega arith)
              (hex-IsBytes c.ltpk v.ltpk)
            ∙ members_last _ _ (codes "ltsk") _ refl (omega arith) (omega arith)
                (hex-IsBytes c.ltsk v.ltsk)))

finish-stored :
    (c : Creds)
    → IsStored c
    → finish (
        some (record {
          ltsk = some (hex_encode c.ltsk);
          ltpk = some (hex_encode c.ltpk);
          atv_id = some (hex_encode c.atv_id);
          client_id = some c.client_id;
        }))
      ≡ some c
unfolding finish
finish-stored c v =
    rw
      (
        hex_decode-hex_encode c.ltsk v.ltsk,
        hex_decode-hex_encode c.ltpk v.ltpk,
        hex_decode-hex_encode c.atv_id v.atv_id,
      )
      refl

-- Credentials whose keys, identifier and client id are bytes survive being stored as JSON text and
-- loaded again, whatever characters the client id holds.
pub from_json-to_json : (c : Creds) → IsStored c → from_json (to_json c) ≡ some c
unfolding from_json eat
from_json-to_json c v =
    ap from_json (to_json_lem c v)
    ∙ (ap finish (members-object_text (length (drop 2 (object_text c))) c v) ∙ finish-stored c v)
