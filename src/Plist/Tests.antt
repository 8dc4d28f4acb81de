-- ===== src/Plist/Tests.antt =====
-- Runs of the property list codec.
use airplay2_sender_cpp.Base.{◌≡◌, refl, true, some, codes, [], ◌∷◌}
use airplay2_sender_cpp.Plist.{
  Value, boolean, integer, bytes, array, object, no_values, item, no_entries, entry,
}
use airplay2_sender_cpp.Plist.Encode.{encode}
use airplay2_sender_cpp.Plist.Decode.{decode}

abbrev sample : Value
sample = object (
    entry (codes "streams")
      (array (item (object (entry (codes "type") (integer 96) no_entries)) no_values))
      (entry (codes "a name of some length") (bytes (1 ∷ (2 ∷ [])))
        (entry (codes "x") (boolean true) no_entries)))

decode-encode-sample : decode (encode sample) ≡ some sample
unfolding decode encode
decode-encode-sample = refl
