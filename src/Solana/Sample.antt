-- ===== src/Solana/Sample.antt =====
-- A small platform for runs on concrete inputs. An
-- address is derived by a sum of the seeds' bytes, the clock and the decimals are fixed, and a token
-- account is 165 bytes with the mint, the owner and the amount in front.
pub mod Lawful
use q2_26_accel_v1c70ryg0d.Prelude.{
  ℕ, ◌+◌, ◌-◌, ◌≤◌, ◌≡◌, ◌≢◌, refl, sym, ap, ◌∙◌, List, [], ◌∷◌, ◌++◌, length, take, drop,
  replicate, leb, ◌==◌, ok, ◌>>=◌, ◌>>◌, guard, Result-cases, inl, inr, arith, length-append,
  length-take, length-drop, drop-append, take-append,
}
use q2_26_accel_v1c70ryg0d.Prelude.Int.{pos}
use q2_26_accel_v1c70ryg0d.Prelude.Words.{
  Bytes, to_le_bytes, from_le_bytes, length-to_le_bytes, from_le_bytes-to_le_bytes, u64_max,
}
use q2_26_accel_v1c70ryg0d.Solana.{
  Address, address_bytes, update, Account, World, Platform, ProgramResult, invalid_account_data,
  Seeds, Cpi, TokenAccount, create_account, create_ata, transfer, close_token_account,
}
use q2_26_accel_v1c70ryg0d.Solana.Laws.{
  WritesOnly, TokensHaveLen, TokensOwned, TransferMoves, ClosesEmpty, balance, update_ne,
  update_self,
}

abbrev pub token_program : Address
token_program = 7

abbrev pub program : Address
program = 9

abbrev pub sum_bytes : Bytes → ℕ
sum_bytes [] = 0
sum_bytes (b ∷ bs) = b + sum_bytes bs

abbrev pub sum_seeds : Seeds → ℕ
sum_seeds [] = 0
sum_seeds (s ∷ ss) = sum_bytes s + sum_seeds ss

abbrev pub token_bytes : Address → Address → ℕ → Bytes
token_bytes mint owner amount =
    address_bytes mint ++ (address_bytes owner ++ (to_le_bytes 8 amount ++ replicate 93 0))

abbrev pub read_token : Account → TokenAccount
read_token a = record {
  mint = from_le_bytes (take 32 a.bytes);
  owner = from_le_bytes (take 32 (drop 32 a.bytes));
  amount = from_le_bytes (take 8 (drop 64 a.bytes));
}

unfoldable pub unpack : Account → ProgramResult TokenAccount
unpack a = do
  guard (a.owner == token_program) invalid_account_data
  guard (length a.bytes == 165) invalid_account_data
  ok (read_token a)

unfoldable pub set_token_amount : Account → ℕ → Account
set_token_amount a n = record a { bytes = take 64 a.bytes ++ (to_le_bytes 8 n ++ drop 72 a.bytes) }

unfoldable pub close_account : Account → ProgramResult Account
close_account a = ok (record { lamports = 0; owner = 0; bytes = [] })

unfoldable pub move_tokens : Address → Address → ℕ → World → ProgramResult World
move_tokens from to n w = do
  f ← unpack (w from)
  t ← unpack (w to)
  guard (leb n f.amount) invalid_account_data
  guard (leb f.amount u64_max) invalid_account_data
  guard (leb (t.amount + n) u64_max) invalid_account_data
  ok (
      update (update w from (set_token_amount (w from) (f.amount - n))) to
        (set_token_amount (w to) (t.amount + n)))

unfoldable pub invoke : List Seeds → Cpi → World → ProgramResult World
invoke signers (create_account from to lamports space owner) w = do
  guard (leb lamports (w from).lamports) invalid_account_data
  let w1 = update w from (record (w from) { lamports = (w from).lamports - lamports })
  ok (update w1 to (record { lamports = lamports; owner = owner; bytes = replicate space 0 }))
invoke signers (create_ata funder account wallet mint) w = ok (
    update w account
      (record { lamports = 0; owner = token_program; bytes = token_bytes mint wallet 0 }))
invoke signers (transfer from to authority n) w = move_tokens from to n w
invoke signers (close_token_account account destination authority) w =
    let total = (w destination).lamports + (w account).lamports in
    ok (
      update (update w destination (record (w destination) { lamports = total })) account
        (record { lamports = 0; owner = 0; bytes = [] }))

abbrev pub sample : ℕ → Bytes → Platform
sample now beyond = record {
  program_id = program;
  token_program_id = token_program;
  derive_address = λ seeds id. 1000 + sum_seeds seeds;
  unpack_token = unpack;
  unpack_decimals = λ a. ok 6;
  unix_timestamp = ok (pos now);
  minimum_balance = λ n. ok n;
  close = close_account;
  invoke_signed = invoke;
  beyond_data = beyond;
}
