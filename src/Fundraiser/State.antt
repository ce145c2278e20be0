-- ===== src/Fundraiser/State.antt =====
-- The program's two account types: pinocchio-fundraiser/src/state. The records hold the bytes of the
-- `repr(C)` structs field by field, as the source does, and the getters decode them.
pub mod Layout
use q2_26_accel_v1c70ryg0d.Prelude.{
  ℕ, ◌+◌, List, [], ◌∷◌, ◌++◌, length, take, drop, get_or, ◌==◌, ok, ◌>>=◌, ◌>>◌, guard,
}
use q2_26_accel_v1c70ryg0d.Prelude.Int.{ℤ}
use q2_26_accel_v1c70ryg0d.Prelude.Words.{Bytes, to_le_bytes, from_le_bytes, u64_of_i64, i64_of_u64}
use q2_26_accel_v1c70ryg0d.Solana.{
  Address, address_bytes, AccountView, World, update, ProgramResult, invalid_account_data,
}

pub record Fundraiser : Type 0 where
  pub maker : Bytes
  pub mint_to_raise : Bytes
  pub amount_to_raise : Bytes
  pub current_amount : Bytes
  pub time_started : Bytes
  pub duration : ℕ
  pub bump : ℕ

abbrev pub fundraiser_len : ℕ
fundraiser_len = 32 + 32 + 8 + 8 + 8 + 1 + 1

-- The struct at a pointer to its bytes: the fields one after another, without padding.
unfoldable pub fundraiser_of_bytes : Bytes → Fundraiser
fundraiser_of_bytes d =
    let d1 = drop 32 d in
    let d2 = drop 32 d1 in
    let d3 = drop 8 d2 in
    let d4 = drop 8 d3 in
    let d5 = drop 8 d4 in
    record {
      maker = take 32 d;
      mint_to_raise = take 32 d1;
      amount_to_raise = take 8 d2;
      current_amount = take 8 d3;
      time_started = take 8 d4;
      duration = get_or d5 0 0;
      bump = get_or d5 1 0;
    }

unfoldable pub bytes_of_fundraiser : Fundraiser → Bytes
bytes_of_fundraiser f =
    f.maker
    ++ (f.mint_to_raise
        ++ (f.amount_to_raise
            ++ (f.current_amount ++ (f.time_started ++ f.duration ∷ f.bump ∷ []))))

-- `Fundraiser::from_account_info`
unfoldable pub load_fundraiser : World → AccountView → ProgramResult Fundraiser
load_fundraiser w v = do
  guard (length (w v.address).bytes == fundraiser_len) invalid_account_data
  ok (fundraiser_of_bytes (w v.address).bytes)

-- What the writes through the returned reference leave in the account.
unfoldable pub store_fundraiser : World → AccountView → Fundraiser → World
store_fundraiser w v f = update w v.address (record (w v.address) { bytes = bytes_of_fundraiser f })

unfoldable pub maker : Fundraiser → Address
maker f = from_le_bytes f.maker

unfoldable pub set_maker : Fundraiser → Address → Fundraiser
set_maker f a = record f { maker = address_bytes a }

unfoldable pub mint_to_raise : Fundraiser → Address
mint_to_raise f = from_le_bytes f.mint_to_raise

unfoldable pub set_mint_to_raise : Fundraiser → Address → Fundraiser
set_mint_to_raise f a = record f { mint_to_raise = address_bytes a }

unfoldable pub amount_to_raise : Fundraiser → ℕ
amount_to_raise f = from_le_bytes f.amount_to_raise

unfoldable pub set_amount_to_raise : Fundraiser → ℕ → Fundraiser
set_amount_to_raise f n = record f { amount_to_raise = to_le_bytes 8 n }

unfoldable pub current_amount : Fundraiser → ℕ
current_amount f = from_le_bytes f.current_amount

unfoldable pub set_current_amount : Fundraiser → ℕ → Fundraiser
set_current_amount f n = record f { current_amount = to_le_bytes 8 n }

unfoldable pub time_started : Fundraiser → ℤ
time_started f = i64_of_u64 (from_le_bytes f.time_started)

unfoldable pub set_time_started : Fundraiser → ℤ → Fundraiser
set_time_started f t = record f { time_started = to_le_bytes 8 (u64_of_i64 t) }

unfoldable pub set_duration : Fundraiser → ℕ → Fundraiser
set_duration f d = record f { duration = d }

pub record Contributor : Type 0 where
  pub amount : Bytes
  pub bump : ℕ

abbrev pub contributor_len : ℕ
contributor_len = 8 + 1

unfoldable pub contributor_of_bytes : Bytes → Contributor
contributor_of_bytes d = record { amount = take 8 d; bump = get_or (drop 8 d) 0 0 }

unfoldable pub bytes_of_contributor : Contributor → Bytes
bytes_of_contributor c = c.amount ++ c.bump ∷ []

-- `Contributor::from_account_info`
unfoldable pub load_contributor : World → AccountView → ProgramResult Contributor
load_contributor w v = do
  guard (length (w v.address).bytes == contributor_len) invalid_account_data
  ok (contributor_of_bytes (w v.address).bytes)

unfoldable pub store_contributor : World → AccountView → Contributor → World
store_contributor w v c =
    update w v.address (record (w v.address) { bytes = bytes_of_contributor c })

unfoldable pub amount : Contributor → ℕ
amount c = from_le_bytes c.amount

unfoldable pub set_amount : Contributor → ℕ → Contributor
set_amount c n = record c { amount = to_le_bytes 8 n }
