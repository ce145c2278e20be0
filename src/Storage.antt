-- ===== src/Storage.antt =====
-- Generic storage (generic-storage/src/lib.rs): a container of serialized bytes with a pluggable
-- format.
pub mod Laws
mod Tests
use q2_26_accel_v1c70ryg0d.Prelude.{
  ℕ, Bool, true, false, Option, none, some, Result, ok, err, ◌>>=◌, ok_or, if◌then◌else◌,
}
use q2_26_accel_v1c70ryg0d.Prelude.Words.{Bytes}

-- The errors of the three crates are numbers here: they are only passed on.
pub data StorageError : Type 0 where
  empty : StorageError
  borsh bincode json : ℕ → StorageError

pub record Serializer {ℓ} (T : Type ℓ) : Type ℓ where
  pub to_bytes : T → Result StorageError Bytes
  pub from_bytes : Bytes → Result StorageError T

-- One of the crates borsh, bincode and serde_json, at the type T.
pub record Codec {ℓ} (T : Type ℓ) : Type ℓ where
  pub encode : T → Result ℕ Bytes
  pub decode : Bytes → Result ℕ T

-- The `?` operator with a `From` conversion of the error.
abbrev pub map_err {ℓ} : {A : Type ℓ} → (ℕ → StorageError) → Result ℕ A → Result StorageError A
map_err f (ok a) = ok a
map_err f (err e) = err (f e)

unfoldable pub borsh_serializer {ℓ} : {T : Type ℓ} → Codec T → Serializer T
borsh_serializer c = record {
  to_bytes = λ value. map_err borsh (c.encode value);
  from_bytes = λ bytes. map_err borsh (c.decode bytes);
}

unfoldable pub wincode_serializer {ℓ} : {T : Type ℓ} → Codec T → Serializer T
wincode_serializer c = record {
  to_bytes = λ value. map_err bincode (c.encode value);
  from_bytes = λ bytes. map_err bincode (c.decode bytes);
}

unfoldable pub json_serializer {ℓ} : {T : Type ℓ} → Codec T → Serializer T
json_serializer c = record {
  to_bytes = λ value. map_err json (c.encode value);
  from_bytes = λ bytes. map_err json (c.decode bytes);
}

pub record Storage {ℓ} (T : Type ℓ) : Type ℓ where
  pub bytes : Option Bytes
  pub serializer : Serializer T

module _ {ℓ} {T : Type ℓ} where
  abbrev pub new : Serializer T → Storage T
  new serializer = record { bytes = none; serializer = serializer }

  abbrev pub replace :
      Storage T → Result StorageError Bytes → Result StorageError (Unit {0}) × Storage T
  replace st (ok bytes) = (ok tt, record { bytes = some bytes; serializer = st.serializer })
  replace st (err e) = (err e, st)

  -- `&mut self` is passed on: a failed save leaves the storage as it was.
  unfoldable pub save : Storage T → T → Result StorageError (Unit {0}) × Storage T
  save st value = replace st (st.serializer.to_bytes value)

  unfoldable pub load : Storage T → Result StorageError T
  load st = do bytes ← ok_or st.bytes empty; st.serializer.from_bytes bytes

  abbrev pub has_data : Storage T → Bool
  has_data st = elim st.bytes [ none ↦ false | some _ ↦ true ]

  -- A `save` followed by `?`.
  abbrev pub saved : Result StorageError (Unit {0}) × Storage T → Result StorageError (Storage T)
  saved (ok _, st) = ok st
  saved (err e, st) = err e

  unfoldable pub convert : Storage T → Serializer T → Result StorageError (Storage T)
  convert st other =
      if has_data st then (do value ← load st; saved (save (new other) value)) else ok (new other)
