-- ===== src/AnchorEscrow.antt =====
-- The Anchor escrow (programs/anchor-escrow-q2-2026/src): its account (state.rs), the accounts of
-- other programs that it reads, and the calls that it and the code of its `#[account(...)]`
-- attributes make. Keys are numbers: they are only compared. Anchor loads the accounts, then runs
-- the `init` attributes, then checks the other ones, and writes the program's accounts back after
-- the handler. `system_program` and `associated_token_program` are fixed by their types and left
-- out.
pub mod Laws
pub mod Tokens
pub mod Loads
pub mod Owners
pub mod Backed
pub mod Reach
pub mod Once
mod Tests
pub mod Make
pub mod Take
pub mod Refund
pub mod Program
use q2_26_accel_v1c70ryg0d.Prelude.{
  ℕ, Bool, true, false, Option, none, some, ◌==◌, if◌then◌else◌, Result, ok, err, ◌>>=◌, ◌>>◌,
  guard,
}

pub data Error : Type 0 where
  account_not_signer account_owned_by_wrong_program invalid_program_id : Error
  constraint_seeds constraint_has_one constraint_token_mint constraint_token_owner : Error
  constraint_associated constraint_mint_token_program : Error
  constraint_associated_token_token_program account_not_associated_token_account : Error
  -- The error of another program.
  foreign : ℕ → Error

pub record Escrow : Type 0 where
  pub seed : ℕ
  pub maker : ℕ
  pub mint_a : ℕ
  pub mint_b : ℕ
  pub receive : ℕ
  pub bump : ℕ

pub record TokenAccount : Type 0 where
  pub mint : ℕ
  pub owner : ℕ
  pub amount : ℕ
  pub token_program : ℕ

pub record Mint : Type 0 where
  pub decimals : ℕ
  pub token_program : ℕ

-- What stands at an address: nothing but lamports, or an account of one program. `unopened` is an
-- account of the escrow program that has not been written yet.
pub data Account : Type 0 where
  system_account unopened : Account
  escrow_account : Escrow → Account
  token_account : TokenAccount → Account
  mint_account : Mint → Account
  other_account : ℕ → Account

abbrev pub Accounts : Type 0
Accounts = ℕ → Account

pub record Chain : Type 0 where
  pub accounts : Accounts
  pub lamports : ℕ → ℕ

-- A write at an address.
abbrev pub update : Accounts → ℕ → Account → Accounts
update accounts k x j = if k == j then x else accounts j

-- What the program asks of the runtime, of Anchor and of the token programs. `signer` is the address
-- whose signature goes with the call: the one that the signer seeds derive, or a wallet that signed.
pub data Call : Type 0 where
  -- `init` of the escrow and of an associated token account.
  create_escrow : (payer key : ℕ) → Call
  create_token_account : (payer key mint owner token_program : ℕ) → Call
  transfer_checked : (token_program from mint to authority signer amount decimals : ℕ) → Call
  close_account : (token_program account destination authority signer : ℕ) → Call
  -- `close = maker` of the escrow.
  close_escrow : (key destination : ℕ) → Call

pub record Platform : Type 0 where
  -- `create_program_address` on `[ESCROW_SEED, maker, seed, bump]`, and the bump that
  -- `find_program_address` gives.
  pub escrow_address : (maker seed bump : ℕ) → ℕ
  pub escrow_bump : (maker seed : ℕ) → ℕ
  -- The associated token account of a wallet: under a token program, and where an attribute names
  -- none.
  pub associated_address : (wallet mint token_program : ℕ) → ℕ
  pub default_associated_address : (wallet mint : ℕ) → ℕ
  pub is_token_program : ℕ → Bool
  pub invoke : Call → Chain → Result Error Chain

-- `Account<Escrow>`, `InterfaceAccount<TokenAccount>`, `InterfaceAccount<Mint>`, `SystemAccount`.
abbrev pub escrow_of : Account → Result Error Escrow
escrow_of (escrow_account e) = ok e
escrow_of _ = err account_owned_by_wrong_program

abbrev pub token_of : Account → Result Error TokenAccount
token_of (token_account t) = ok t
token_of _ = err account_owned_by_wrong_program

abbrev pub mint_of : Account → Result Error Mint
mint_of (mint_account m) = ok m
mint_of _ = err account_owned_by_wrong_program

abbrev pub is_system : Account → Bool
is_system system_account = true
is_system _ = false

abbrev pub require_system : Account → Result Error (Unit {0})
require_system x = guard (is_system x) account_owned_by_wrong_program

-- `associated_token::mint` and `authority` on an account that must exist, with no token program.
abbrev pub check_associated : Platform → ℕ → TokenAccount → ℕ → ℕ → Result Error (Unit {0})
check_associated p key t wallet mint = do
  guard (t.owner == wallet) constraint_token_owner
  guard (key == p.default_associated_address wallet mint) constraint_associated

-- The seeds of an escrow that exists.
abbrev pub check_escrow_seeds : Platform → ℕ → Escrow → ℕ → Result Error (Unit {0})
check_escrow_seeds p key e maker =
    guard (key == p.escrow_address maker e.seed e.bump) constraint_seeds

-- `withdraw_and_close_vault` and `refund_and_close_vault`: all that the vault held when the accounts
-- were loaded goes to `to`, and the vault is closed, both signed with the seeds of the escrow.
unfoldable pub empty_and_close_vault :
    Platform
    → (token_program escrow vault : ℕ) → Escrow
    → (to maker mint decimals amount : ℕ) → Chain
    → Result Error Chain
empty_and_close_vault p token_program escrow vault e to maker mint decimals amount w = do
  let signer = p.escrow_address maker e.seed e.bump
  w1 ← p.invoke (transfer_checked token_program vault mint to escrow signer amount decimals) w
  p.invoke (close_account token_program vault maker escrow signer) w1
