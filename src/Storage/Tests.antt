-- ===== src/Storage/Tests.antt =====
-- A storage of numbers below 256, whose format writes one byte and refuses the rest.
use q2_26_accel_v1c70ryg0d.Prelude.{
  ℕ, ◌≡◌, refl, ltb, if◌then◌else◌, some, [], ◌∷◌, Result, ok, err, arith,
}
use q2_26_accel_v1c70ryg0d.Prelude.Words.{Bytes}
use q2_26_accel_v1c70ryg0d.Storage.{
  Codec, borsh_serializer, json_serializer, Storage, save, load, has_data, convert,
}
use q2_26_accel_v1c70ryg0d.Storage.Laws.{Decodes, RoundTrips, serializers-RoundTrips, convert-load}

abbrev first_byte : Bytes → Result ℕ ℕ
first_byte [] = err 1
first_byte (b ∷ bs) = ok b

abbrev one_byte : Codec ℕ
one_byte = record { encode = λ n. if ltb n 256 then ok (n ∷ []) else err 0; decode = first_byte }

one_byte-Decodes : Decodes one_byte
one_byte-Decodes value bytes h = ground arith

abbrev stored : Storage ℕ
stored = record { bytes = some (7 ∷ []); serializer = borsh_serializer one_byte }

json-RoundTrips : RoundTrips (json_serializer one_byte)
json-RoundTrips = (serializers-RoundTrips one_byte one_byte-Decodes).2

abbrev converted : Storage ℕ
converted = record { bytes = some (7 ∷ []); serializer = json_serializer one_byte }

convert_runs : convert stored (json_serializer one_byte) ≡ ok converted
unfolding convert save load borsh_serializer json_serializer
convert_runs = refl

convert-load_example :
    (load converted ≡ load stored)
    × (has_data converted ≡ has_data stored)
    × (converted.serializer ≡ json_serializer one_byte)
convert-load_example =
    convert-load stored converted (json_serializer one_byte) json-RoundTrips convert_runs
