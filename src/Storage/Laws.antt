-- ===== src/Storage/Laws.antt =====
-- What a storage returns (generic-storage/src/lib.rs).
use q2_26_accel_v1c70ryg0d.Prelude.{
  ℕ, ◌≡◌, refl, List, [], ◌∷◌, Result, ok, err, inl, inr, Result-cases, Option-cases, arith, subst,
  sym,
}
use q2_26_accel_v1c70ryg0d.Prelude.Words.{Bytes}
use q2_26_accel_v1c70ryg0d.Storage.{
  StorageError, borsh, bincode, json, Serializer, Codec, map_err, borsh_serializer,
  wincode_serializer, json_serializer, Storage, save, load, has_data, convert,
}

module _ {ℓ} {T : Type ℓ} where
  -- A format reads back what it wrote.
  abbrev pub RoundTrips : Serializer T → Type ℓ
  RoundTrips s =
      (value : T) (bytes : Bytes) → s.to_bytes value ≡ ok bytes → s.from_bytes bytes ≡ ok value

  -- The same of a crate.
  abbrev pub Decodes : Codec T → Type ℓ
  Decodes c = (value : T) (bytes : Bytes) → c.encode value ≡ ok bytes → c.decode bytes ≡ ok value

  map_err-RoundTrips :
      (f : ℕ → StorageError) (c : Codec T)
      → Decodes c
      → (value : T) (bytes : Bytes) → map_err f (c.encode value) ≡ ok bytes
      → map_err f (c.decode bytes) ≡ ok value
  map_err-RoundTrips f c d value bytes h = elim (Result-cases (c.encode value)) [
    | inl (b, e) ↦ ground (arith, d value b e)
    | inr (x, e) ↦ absurd (ground arith)
  ]

  -- The three formats read back what they wrote when their crates do.
  pub serializers-RoundTrips :
      (c : Codec T)
      → Decodes c
      → RoundTrips (borsh_serializer c)
        × RoundTrips (wincode_serializer c)
        × RoundTrips (json_serializer c)
  unfolding borsh_serializer wincode_serializer json_serializer
  serializers-RoundTrips c d = (
    λ value bytes h. map_err-RoundTrips borsh c d value bytes h,
    λ value bytes h. map_err-RoundTrips bincode c d value bytes h,
    λ value bytes h. map_err-RoundTrips json c d value bytes h,
  )

  abbrev pub save_all : Storage T → List T → Storage T
  save_all st [] = st
  save_all st (v ∷ vs) = save_all (save st v).1 vs

  -- What a storage holds after the saves: the last value that the format could write.
  abbrev pub last_written : Serializer T → Result StorageError T → List T → Result StorageError T
  last_written s r [] = r
  last_written s r (v ∷ vs) = last_written s (elim (s.to_bytes v) [ ok _ ↦ ok v | err _ ↦ r ]) vs

  save-load :
      (st : Storage T) (v : T)
      → RoundTrips st.serializer
      → load (save st v).1 ≡ elim (st.serializer.to_bytes v) [ ok _ ↦ ok v | err _ ↦ load st ]
  unfolding save load
  save-load st v rt = elim (Result-cases (st.serializer.to_bytes v)) [
    | inl (b, e) ↦ ground (arith, rt v b e)
    | inr (x, e) ↦ ground arith
  ]

  save-serializer : (st : Storage T) (v : T) → (save st v).1.serializer ≡ st.serializer
  unfolding save
  save-serializer st v = elim (Result-cases (st.serializer.to_bytes v)) [
    | inl (b, e) ↦ ground arith
    | inr (x, e) ↦ ground arith
  ]

  -- After any number of saves, failed ones included, a load returns the last value that the
  -- format could write, and what it returned before if there was none. Laws: RoundTrips.
  pub save_all-load :
      (st : Storage T) (vs : List T)
      → RoundTrips st.serializer
      → load (save_all st vs) ≡ last_written st.serializer (load st) vs
  save_all-load st [] rt = refl
  save_all-load st (v ∷ vs) rt =
      let keeps = save-serializer st v in
      let later = save_all-load (save st v).1 vs (subst RoundTrips (sym keeps) rt) in
      rw (later, keeps, save-load st v rt)

  -- A conversion that succeeds keeps what a load returns, whatever the storage holds (the
  -- error of an empty storage included), keeps whether there is data, and uses the new format.
  -- Laws: RoundTrips.
  pub convert-load :
      (st out : Storage T) (other : Serializer T)
      → RoundTrips other
      → convert st other ≡ ok out
      → (load out ≡ load st) × (has_data out ≡ has_data st) × (out.serializer ≡ other)
  unfolding convert save load
  convert-load st out other rt h = elim (Option-cases st.bytes) [
    | inl none_yet ↦ ground arith
    | inr (b, there) ↦ elim (Result-cases (st.serializer.from_bytes b)) [
      | inl (v, read) ↦ elim (Result-cases (other.to_bytes v)) [
        | inl (b', written) ↦ ground (arith, rt v b' written)
        | inr (x, e) ↦ absurd (ground arith)
      ]
      | inr (x, e) ↦ absurd (ground arith)
    ]
  ]
