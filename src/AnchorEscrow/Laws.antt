-- ===== src/AnchorEscrow/Laws.antt =====
-- What the runtime, Anchor and the token programs are documented to do with the calls of the Anchor
-- escrow, on mints that charge no fee on a transfer.
use q2_26_accel_v1c70ryg0d.Prelude.{
  ℕ, ◌+◌, ◌-◌, ◌&&◌, Option, none, some, ◌≡◌, leb, ◌==◌, if◌then◌else◌, ok,
}
use q2_26_accel_v1c70ryg0d.AnchorEscrow.{
  Account, system_account, unopened, token_account, Accounts, Chain, update, Call, create_escrow,
  create_token_account, transfer_checked, close_account, close_escrow, Platform, is_system,
}

-- Tokens leave the source before they reach the destination, which may be the same account.
abbrev pub credit : (to mint amount : ℕ) → Account → Accounts → Option Accounts
credit to mint amount (token_account t) accounts =
    if t.mint == mint
    then some (update accounts to (token_account (record t { amount = t.amount + amount })))
    else none
credit to mint amount _ accounts = none

abbrev pub debit : (from to mint amount : ℕ) → Account → Accounts → Option Accounts
debit from to mint amount (token_account f) accounts =
    if leb amount f.amount && f.mint == mint
    then (let left =
          update accounts from (token_account (record f { amount = f.amount - amount })) in
        credit to mint amount (left to) left)
    else none
debit from to mint amount _ accounts = none

abbrev pub remove_empty : ℕ → Account → Accounts → Option Accounts
remove_empty key (token_account t) accounts =
    if t.amount == 0 then some (update accounts key system_account) else none
remove_empty key _ accounts = none

-- The accounts after a call that succeeds, `none` where it must fail. An associated token account
-- is created at its own address only.
abbrev pub perform : Platform → Call → Accounts → Option Accounts
perform p (create_escrow payer key) accounts =
    if is_system (accounts key) then some (update accounts key unopened) else none
perform p (create_token_account payer key mint owner token_program) accounts =
    if is_system (accounts key) && key == p.associated_address owner mint token_program
    then some (
        update accounts key (
          token_account
            (record { mint = mint; owner = owner; amount = 0; token_program = token_program })))
    else none
perform p (transfer_checked program from mint to authority signer amount decimals) accounts =
    if signer == authority then debit from to mint amount (accounts from) accounts else none
perform p (close_account program key destination authority signer) accounts =
    if signer == authority then remove_empty key (accounts key) accounts else none
perform p (close_escrow key destination) accounts = some (update accounts key system_account)

-- A call that succeeds does that.
abbrev pub Performs : Platform → Type 0
Performs p =
    (c : Call) (w w' : Chain) → p.invoke c w ≡ ok w' → perform p c w.accounts ≡ some w'.accounts

-- A call that need not fail succeeds.
abbrev pub Answers : Platform → Type 0
Answers p =
    (c : Call) (w : Chain) (accounts : Accounts)
    → perform p c w.accounts ≡ some accounts
    → (w' : Chain) × (p.invoke c w ≡ ok w')
