-- ===== src/Escrow/State.antt =====
-- The escrow's account: accel-p-escrow/src/state/escrow.rs. The record holds the bytes of the
-- `repr(C)` struct field by field, and the getters decode them.
pub mod Layout
use q2_26_accel_v1c70ryg0d.Prelude.{
  ℕ, ◌+◌, List, [], ◌∷◌, ◌++◌, length, take, drop, get_or, ◌==◌, ok, ◌>>=◌, ◌>>◌, guard,
}
use q2_26_accel_v1c70ryg0d.Prelude.Words.{Bytes, to_le_bytes, from_le_bytes}
use q2_26_accel_v1c70ryg0d.Solana.{
  Address, address_bytes, AccountView, World, update, ProgramResult, invalid_account_data,
}

pub record Escrow : Type 0 where
  pub maker : Bytes
  pub mint_a : Bytes
  pub mint_b : Bytes
  pub amount_to_receive : Bytes
  pub amount_to_give : Bytes
  pub bump : ℕ

-- `Escrow::LEN`
abbrev pub escrow_len : ℕ
escrow_len = 32 + 32 + 32 + 8 + 8 + 1

unfoldable pub escrow_of_bytes : Bytes → Escrow
escrow_of_bytes d =
    let d1 = drop 32 d in
    let d2 = drop 32 d1 in
    let d3 = drop 32 d2 in
    let d4 = drop 8 d3 in
    record {
      maker = take 32 d;
      mint_a = take 32 d1;
      mint_b = take 32 d2;
      amount_to_receive = take 8 d3;
      amount_to_give = take 8 d4;
      bump = get_or (drop 8 d4) 0 0;
    }

unfoldable pub bytes_of_escrow : Escrow → Bytes
bytes_of_escrow e =
    e.maker
    ++ (e.mint_a ++ (e.mint_b ++ (e.amount_to_receive ++ (e.amount_to_give ++ e.bump ∷ []))))

-- `Escrow::from_account_info`
unfoldable pub load_escrow : World → AccountView → ProgramResult Escrow
load_escrow w v = do
  guard (length (w v.address).bytes == escrow_len) invalid_account_data
  ok (escrow_of_bytes (w v.address).bytes)

-- What the writes through the returned reference leave in the account.
unfoldable pub store_escrow : World → AccountView → Escrow → World
store_escrow w v e = update w v.address (record (w v.address) { bytes = bytes_of_escrow e })

unfoldable pub maker : Escrow → Address
maker e = from_le_bytes e.maker

unfoldable pub set_maker : Escrow → Address → Escrow
set_maker e a = record e { maker = address_bytes a }

unfoldable pub mint_a : Escrow → Address
mint_a e = from_le_bytes e.mint_a

unfoldable pub set_mint_a : Escrow → Address → Escrow
set_mint_a e a = record e { mint_a = address_bytes a }

unfoldable pub mint_b : Escrow → Address
mint_b e = from_le_bytes e.mint_b

unfoldable pub set_mint_b : Escrow → Address → Escrow
set_mint_b e a = record e { mint_b = address_bytes a }

unfoldable pub amount_to_receive : Escrow → ℕ
amount_to_receive e = from_le_bytes e.amount_to_receive

unfoldable pub set_amount_to_receive : Escrow → ℕ → Escrow
set_amount_to_receive e n = record e { amount_to_receive = to_le_bytes 8 n }

unfoldable pub amount_to_give : Escrow → ℕ
amount_to_give e = from_le_bytes e.amount_to_give

unfoldable pub set_amount_to_give : Escrow → ℕ → Escrow
set_amount_to_give e n = record e { amount_to_give = to_le_bytes 8 n }
