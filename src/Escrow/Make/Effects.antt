-- ===== src/Escrow/Make/Effects.antt =====
-- What a successful `make` (instructions/make.rs) leaves behind, and what it reads.
use q2_26_accel_v1c70ryg0d.Prelude.{
  ℕ, ◌+◌, ◌^◌, ◌≤◌, ◌<◌, ◌≡◌, ◌≢◌, refl, ◌∙◌, [], ◌∷◌, length, take, drop, get_elem?, none, some,
  ok, arith, guard-eq-ok, reject_if-eq-ok, through, via, ◌==◌, ok_or, take-append_le,
  drop-append_le, length-drop,
}
use q2_26_accel_v1c70ryg0d.Prelude.Words.{
  Bytes, from_le_bytes, from_le_bytes-to_le_bytes, length-to_le_bytes,
}
use q2_26_accel_v1c70ryg0d.Solana.{World, Platform, owned_by, panicked}
use q2_26_accel_v1c70ryg0d.Solana.Laws.{WritesOnly}
use q2_26_accel_v1c70ryg0d.Escrow.State.{
  Escrow, escrow_len, load_escrow, store_escrow, maker, mint_a, mint_b, amount_to_receive,
  amount_to_give, set_maker, set_mint_a, set_mint_b, set_amount_to_receive, set_amount_to_give,
}
use q2_26_accel_v1c70ryg0d.Escrow.State.Layout.{IsLaidOut, load-store_escrow, load_escrow-same}
use q2_26_accel_v1c70ryg0d.Escrow.Utils.{escrow_pda}
use q2_26_accel_v1c70ryg0d.Escrow.Make.{
  MakeAccounts, fill_escrow, read_unchecked, check_maker_ata, open_escrow, make,
}

-- The first byte of the instruction data; 0 if there is none.
abbrev pub bump_of : Bytes → ℕ
bump_of input = elim (get_elem? input 0) [ none ↦ 0 | some b ↦ b ]

-- An unchecked read whose eight bytes lie inside the instruction data gives the word that is there.
pub read_unchecked-inside :
    (p : Platform) (input : Bytes) (offset : ℕ)
    → offset + 8 ≤ length input
    → read_unchecked p input offset ≡ from_le_bytes (take 8 (drop offset input))
unfolding read_unchecked
read_unchecked-inside p input offset h = rw (
  drop-append_le offset input p.beyond_data (omega arith),
  take-append_le 8 (drop offset input) p.beyond_data (omega (arith, length-drop offset input)),
)

module _ (p : Platform) where
  -- The struct that `make` leaves in the escrow's account.
  pub record IsOffer (a : MakeAccounts) (receive give bump : ℕ) (e : Escrow) : Type 0 where
    pub made_by : maker e ≡ a.maker.address
    pub gives : mint_a e ≡ a.mint_a.address
    pub wants : mint_b e ≡ a.mint_b.address
    pub receives : amount_to_receive e ≡ receive
    pub offers : amount_to_give e ≡ give
    pub bumped : e.bump ≡ bump

  fill_escrow-IsOffer :
      (e : Escrow) (a : MakeAccounts) (receive give bump : ℕ)
      → a.maker.address < 256 ^ 32
      → a.mint_a.address < 256 ^ 32
      → a.mint_b.address < 256 ^ 32
      → receive < 2 ^ 64
      → give < 2 ^ 64
      → IsOffer a receive give bump (fill_escrow e a receive give bump)
  unfolding fill_escrow maker mint_a mint_b amount_to_receive amount_to_give set_maker set_mint_a
      set_mint_b set_amount_to_receive set_amount_to_give
  fill_escrow-IsOffer e a receive give bump m1 m2 m3 r g = record {
    made_by = from_le_bytes-to_le_bytes 32 a.maker.address m1;
    gives = from_le_bytes-to_le_bytes 32 a.mint_a.address m2;
    wants = from_le_bytes-to_le_bytes 32 a.mint_b.address m3;
    receives = from_le_bytes-to_le_bytes 8 receive r;
    offers = from_le_bytes-to_le_bytes 8 give g;
    bumped = refl;
  }

  fill_escrow-IsLaidOut :
      (e : Escrow) (a : MakeAccounts) (receive give bump : ℕ)
      → IsLaidOut (fill_escrow e a receive give bump)
  unfolding fill_escrow set_maker set_mint_a set_mint_b set_amount_to_receive set_amount_to_give
  fill_escrow-IsLaidOut e a receive give bump = record {
    maker_len = length-to_le_bytes 32 a.maker.address;
    mint_a_len = length-to_le_bytes 32 a.mint_a.address;
    mint_b_len = length-to_le_bytes 32 a.mint_b.address;
    receive_len = length-to_le_bytes 8 receive;
    give_len = length-to_le_bytes 8 give;
  }

  -- The escrow's account is none of those that the later calls write.
  pub record IsApartFrom (a : MakeAccounts) : Type 0 where
    pub from_maker : a.escrow_account.address ≢ a.maker.address
    pub from_maker_ata : a.escrow_account.address ≢ a.maker_ata.address
    pub from_escrow_ata : a.escrow_account.address ≢ a.escrow_ata.address

  open_escrow-load :
      (a : MakeAccounts) (receive give bump : ℕ) (w w' : World)
      → WritesOnly p
      → IsApartFrom a
      → open_escrow p a receive give bump w ≡ ok w'
      → (e : Escrow) × (load_escrow w' a.escrow_account ≡ ok (fill_escrow e a receive give bump))
  unfolding open_escrow
  open_escrow-load a receive give bump w w' writes d h =
      elim (through (p.minimum_balance escrow_len) _ h) [
        | via _ _ h1 ↦ elim (through (p.invoke_signed _ _ w) _ h1) [
          | via w1 _ h2 ↦ elim (through (load_escrow w1 a.escrow_account) _ h2) [
            | via e _ h3 ↦
                let e' : Escrow = fill_escrow e a receive give bump in
                let w2 : World = store_escrow w1 a.escrow_account e' in
                elim (through (p.invoke_signed _ _ w2) _ h3) [
                  | via w3 made h4 ↦
                      let kept1 =
                        writes _ _ w2 w3 a.escrow_account.address made
                          (d.from_maker, d.from_escrow_ata) in
                      let kept2 =
                        writes _ _ w3 w' a.escrow_account.address h4
                          (d.from_maker_ata, d.from_escrow_ata) in
                      let same = load_escrow-same w2 w' a.escrow_account (kept2 ∙ kept1) in
                      (
                        e,
                        same
                            ∙ load-store_escrow w1 a.escrow_account e'
                                (fill_escrow-IsLaidOut e a receive give bump),
                      )
                ]
          ]
        ]
      ]

  -- A successful `make` leaves an escrow at the address derived from the maker and the bump.
  -- It holds the maker and the two mints that were passed, and the amounts that the unchecked
  -- reads gave, provided that these are 64-bit words, the keys have 32 bytes, and the escrow's
  -- account is not one that the later calls write. Laws: WritesOnly.
  pub make-IsOffer :
      (a : MakeAccounts) (input : Bytes) (w w' : World)
      → WritesOnly p
      → IsApartFrom a
      → a.maker.address < 256 ^ 32
      → a.mint_a.address < 256 ^ 32
      → a.mint_b.address < 256 ^ 32
      → read_unchecked p input 1 < 2 ^ 64
      → read_unchecked p input 9 < 2 ^ 64
      → make p a input w ≡ ok w'
      → (a.escrow_account.address ≡ escrow_pda p a.maker.address (bump_of input))
        × ((w a.escrow_account.address).owner ≢ p.program_id)
        × ((e : Escrow) × (load_escrow w' a.escrow_account ≡ ok e)
            × IsOffer a (read_unchecked p input 1) (read_unchecked p input 9) (bump_of input) e)
  unfolding make
  make-IsOffer a input w w' writes d m1 m2 m3 r g h = elim (through (check_maker_ata p a w) _ h) [
    | via _ _ h1 ↦ elim (through (ok_or (get_elem? input 0) panicked) _ h1) [
      | via bump b h2 ↦
          let (pda, h3) =
            guard-eq-ok (escrow_pda p a.maker.address bump == a.escrow_account.address) _ _ h2 in
          let (fresh, h4) = reject_if-eq-ok (owned_by w a.escrow_account p.program_id) _ _ h3 in
          let receive = read_unchecked p input 1 in
          let give = read_unchecked p input 9 in
          let (e, loaded) = open_escrow-load a receive give bump w w' writes d h4 in
          let byte : bump ≡ bump_of input = ground arith in
          (
            ground arith,
            ground arith,
            (_, loaded, rw (← byte) (fill_escrow-IsOffer e a receive give bump m1 m2 m3 r g)),
          )
    ]
  ]

  -- The instruction data is not checked to hold the amounts: after the bump alone, `make`
  -- takes both of them from the memory that happens to lie behind the data.
  pub read_unchecked-outside :
      (bump : ℕ)
      → (read_unchecked p (bump ∷ []) 1 ≡ from_le_bytes (take 8 p.beyond_data))
        × (read_unchecked p (bump ∷ []) 9 ≡ from_le_bytes (take 8 (drop 8 p.beyond_data)))
  unfolding read_unchecked
  read_unchecked-outside bump = (refl, refl)
