-- ===== src/Creds/Store.antt =====
-- `RaopCreds`, `raopCredsToJson` and `raopCredsFromJson` of src/raop_creds.h.
pub mod RoundTrip
use airplay2_sender_cpp.Base.{
  ◌||◌, ℕ, zero, suc, ◌+◌, ◌≡◌, refl, Bool, true, false, List, [], ◌∷◌, ◌++◌, Option, none, some,
  Bytes, IsBytes, codes, bytes_eq, if◌then◌else◌, arith, length, append_assoc,
}
use airplay2_sender_cpp.Creds.Hex.{hex_encode, hex_decode}
use airplay2_sender_cpp.Creds.Json.{quote, escape, eat, str, skip_value}

pub record Creds : Type 0 where
  pub ltsk : Bytes
  pub ltpk : Bytes
  pub atv_id : Bytes
  pub client_id : Bytes

-- The literal pieces of the text that `raopCredsToJson` writes.
unfoldable pub to_json : Creds → Bytes
to_json c =
    codes "{\"atvId\":\""
    ++ (hex_encode c.atv_id
        ++ (codes "\",\"clientId\":\""
            ++ (escape c.client_id
                ++ (codes "\",\"ltpk\":\""
                    ++ (hex_encode c.ltpk
                        ++ (codes "\",\"ltsk\":\"" ++ (hex_encode c.ltsk ++ codes "\"}")))))))

-- The four `std::optional<std::string>` of `raopCredsFromJson`.
pub record Fields : Type 0 where
  pub ltsk : Option Bytes
  pub ltpk : Option Bytes
  pub atv_id : Option Bytes
  pub client_id : Option Bytes

abbrev pub no_fields : Fields
no_fields = record { ltsk = none; ltpk = none; atv_id = none; client_id = none }

unfoldable pub is_known : Bytes → Bool
is_known key =
    bytes_eq key (codes "ltsk")
    || (bytes_eq key (codes "ltpk")
        || (bytes_eq key (codes "atvId") || bytes_eq key (codes "clientId")))

unfoldable pub assign : Fields → Bytes → Bytes → Fields
assign f key val =
    if bytes_eq key (codes "ltsk")
    then record f { ltsk = some val }
    else if bytes_eq key (codes "ltpk")
    then record f { ltpk = some val }
    else if bytes_eq key (codes "atvId")
    then record f { atv_id = some val }
    else record f { client_id = some val }

unfoldable pub assign_value : Fields → Bytes → Option (Bytes × Bytes) → Option (Fields × Bytes)
unfolding assign
assign_value f key none = none
assign_value f key (some (val, rest)) = some (assign f key val, rest)

unfoldable pub skipped : Fields → Option Bytes → Option (Fields × Bytes)
skipped f none = none
skipped f (some rest) = some (f, rest)

unfoldable pub value_of : Fields → Bytes → Bool × Bytes → Option (Fields × Bytes)
unfolding is_known assign_value skipped
value_of f key (false, rest) = none
value_of f key (true, rest) =
    if is_known key then assign_value f key (str rest) else skipped f (skip_value rest)

unfoldable pub keyed : Fields → Option (Bytes × Bytes) → Option (Fields × Bytes)
unfolding value_of
keyed f none = none
keyed f (some (key, rest)) = value_of f key (eat b':' rest)

-- One round of the loop up to the separator: a key, a colon and a value.
unfoldable pub member : Fields → Bytes → Option (Fields × Bytes)
unfolding keyed
member f s = keyed f (str s)

-- What the separator says: another round, the end, or a fault.
pub data Separator : Type 0 where
  more : Bytes → Separator
  end : Separator
  wrong : Separator

unfoldable pub separator_end : Bool × Bytes → Separator
separator_end (true, rest) = end
separator_end (false, rest) = wrong

unfoldable pub separator_more : Bool × Bytes → Separator
unfolding separator_end
separator_more (true, rest) = more rest
separator_more (false, rest) = separator_end (eat b'}' rest)

unfoldable pub separator : Bytes → Separator
unfolding separator_more
separator s = separator_more (eat b',' s)

-- The `for (;;)`. The number bounds the rounds.
unfoldable pub members : ℕ → Fields → Bytes → Option Fields
members zero f s = none
members (suc fuel) f s = elim (member f s) [
  | none ↦ none
  | some (g, rest) ↦ elim (separator rest) [
    | more t ↦ members fuel g t
    | end ↦ some g
    | wrong ↦ none
  ]
]

unfoldable pub decoded : Option Bytes → Option Bytes
decoded none = none
decoded (some text) = hex_decode text

unfoldable pub build : Option Bytes → Option Bytes → Option Bytes → Option Bytes → Option Creds
build (some sk) (some pk) (some id) (some client) =
    some (record { ltsk = sk; ltpk = pk; atv_id = id; client_id = client })
build _ _ _ _ = none

unfoldable pub finish : Option Fields → Option Creds
unfolding decoded build
finish none = none
finish (some f) = build (decoded f.ltsk) (decoded f.ltpk) (decoded f.atv_id) f.client_id

unfoldable pub object_body : ℕ → Bool × Bytes → Option Creds
unfolding members finish
object_body fuel (true, rest) = finish (some no_fields)
object_body fuel (false, rest) = finish (members fuel no_fields rest)

unfoldable pub object : ℕ → Bool × Bytes → Option Creds
unfolding object_body
object fuel (false, rest) = none
object fuel (true, rest) = object_body fuel (eat b'}' rest)

unfoldable pub from_json : Bytes → Option Creds
unfolding object
from_json s = object (suc (length s)) (eat b'{' s)
