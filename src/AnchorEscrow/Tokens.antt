-- ===== src/AnchorEscrow/Tokens.antt =====
-- What the calls of the Anchor escrow do to the accounts, one lemma for each.
use q2_26_accel_v1c70ryg0d.Prelude.{
  ℕ, ◌+◌, ◌-◌, ◌≤◌, ◌≡◌, ◌≢◌, refl, sym, ap, ◌∙◌, Bool, true, false, Option, none, some, some-inj,
  ok, leb, ◌==◌, ◌&&◌, if◌then◌else◌, arith,
}
use q2_26_accel_v1c70ryg0d.AnchorEscrow.{
  Account, system_account, unopened, escrow_account, token_account, mint_account, other_account,
  TokenAccount, Chain, update, create_escrow, create_token_account, transfer_checked, close_account,
  close_escrow, Platform, is_system,
}
use q2_26_accel_v1c70ryg0d.AnchorEscrow.Laws.{credit, debit, remove_empty, Performs}

-- The tokens that stand at an address.
abbrev pub amount_of : Account → ℕ
amount_of (token_account t) = t.amount
amount_of _ = 0

-- A transfer between two accounts.
pub record IsMoved (from to mint amount : ℕ) (w w' : Chain) : Type 0 where
  pub source : TokenAccount
  pub target : TokenAccount
  pub from_source : w.accounts from ≡ token_account source
  pub to_target : w.accounts to ≡ token_account target
  pub mints : (source.mint ≡ mint) × (target.mint ≡ mint)
  pub enough : amount ≤ source.amount
  pub debited : w'.accounts from ≡ token_account (record source { amount = source.amount - amount })
  pub credited : w'.accounts to ≡ token_account (record target { amount = target.amount + amount })
  pub elsewhere : (k : ℕ) → k ≢ from → k ≢ to → w'.accounts k ≡ w.accounts k

-- A test that guards a result.
pub guarded {ℓ} :
    {A : Type ℓ} (b : Bool) (o : Option A) {y : A}
    → (if b then o else none) ≡ some y
    → (b ≡ true) × (o ≡ some y)
guarded true o h = (refl, h)
guarded false o h = cc

credit_lem :
    (from to mint amount : ℕ) (f : TokenAccount) (y : Account) (w w' : Chain)
    → from ≢ to
    → w.accounts from ≡ token_account f
    → w.accounts to ≡ y
    → f.mint ≡ mint
    → amount ≤ f.amount
    → credit to mint amount y
        (update w.accounts from (token_account (record f { amount = f.amount - amount })))
      ≡ some w'.accounts
    → IsMoved from to mint amount w w'
credit_lem from to mint amount f (token_account t) w w' apart at_from at_to same enough h =
    let (paired, written) = guarded (t.mint == mint) _ h in
    let result = some-inj written in
    record {
      source = f;
      target = t;
      from_source = at_from;
      to_target = at_to;
      mints = (same, ground arith);
      enough = enough;
      debited = sym (ap (λ u. u from) result) ∙ ground arith;
      credited = sym (ap (λ u. u to) result) ∙ ground arith;
      elsewhere = λ k p q. sym (ap (λ u. u k) result) ∙ ground arith;
    }
credit_lem from to mint amount f system_account w w' apart at_from at_to same enough h = cc
credit_lem from to mint amount f unopened w w' apart at_from at_to same enough h = cc
credit_lem from to mint amount f (escrow_account e) w w' apart at_from at_to same enough h = cc
credit_lem from to mint amount f (mint_account m) w w' apart at_from at_to same enough h = cc
credit_lem from to mint amount f (other_account n) w w' apart at_from at_to same enough h = cc

debit_lem :
    (from to mint amount : ℕ) (x : Account) (w w' : Chain)
    → from ≢ to
    → w.accounts from ≡ x
    → debit from to mint amount x w.accounts ≡ some w'.accounts
    → IsMoved from to mint amount w w'
debit_lem from to mint amount (token_account f) w w' apart at_from h =
    let (tests, rest) = guarded (leb amount f.amount && f.mint == mint) _ h in
    let left = update w.accounts from (token_account (record f { amount = f.amount - amount })) in
    credit_lem from to mint amount f (left to) w w' apart at_from (ground arith) (ground arith)
      (ground arith) rest
debit_lem from to mint amount system_account w w' apart at_from h = cc
debit_lem from to mint amount unopened w w' apart at_from h = cc
debit_lem from to mint amount (escrow_account e) w w' apart at_from h = cc
debit_lem from to mint amount (mint_account m) w w' apart at_from h = cc
debit_lem from to mint amount (other_account n) w w' apart at_from h = cc

-- A transfer that succeeds was signed by its authority and moves the amount.
pub transfer_lem :
    (p : Platform) (program from mint to authority signer amount decimals : ℕ) (w w' : Chain)
    → Performs p
    → from ≢ to
    → p.invoke (transfer_checked program from mint to authority signer amount decimals) w ≡ ok w'
    → (signer ≡ authority) × IsMoved from to mint amount w w'
transfer_lem p program from mint to authority signer amount decimals w w' performs apart h =
    let done =
      performs (transfer_checked program from mint to authority signer amount decimals) w w' h in
    let (signed, moved) = guarded (signer == authority) _ done in
    (ground arith, debit_lem from to mint amount (w.accounts from) w w' apart refl moved)

-- Only what stands at one address changes.
abbrev pub Keeps : ℕ → Chain → Chain → Type 0
Keeps key w w' = (k : ℕ) → k ≢ key → w'.accounts k ≡ w.accounts k

abbrev pub Becomes : ℕ → Account → Chain → Chain → Type 0
Becomes key x w w' = (w'.accounts key ≡ x) × Keeps key w w'

written_lem :
    (key : ℕ) (x : Account) (w w' : Chain)
    → update w.accounts key x ≡ w'.accounts
    → Becomes key x w w'
written_lem key x w w' e =
    (sym (ap (λ u. u key) e) ∙ ground arith, λ k p. sym (ap (λ u. u k) e) ∙ ground arith)

pub is_system_lem : (x : Account) → is_system x ≡ true → x ≡ system_account
is_system_lem system_account h = refl
is_system_lem unopened h = cc
is_system_lem (escrow_account e) h = cc
is_system_lem (token_account t) h = cc
is_system_lem (mint_account m) h = cc
is_system_lem (other_account n) h = cc

remove_lem :
    (key : ℕ) (x : Account) (w w' : Chain)
    → remove_empty key x w.accounts ≡ some w'.accounts
    → (amount_of x ≡ 0) × Becomes key system_account w w'
remove_lem key (token_account t) w w' h =
    let (empty, written) = guarded (t.amount == 0) _ h in
    (ground arith, written_lem key system_account w w' (some-inj written))
remove_lem key system_account w w' h = cc
remove_lem key unopened w w' h = cc
remove_lem key (escrow_account e) w w' h = cc
remove_lem key (mint_account m) w w' h = cc
remove_lem key (other_account n) w w' h = cc

pub close_account_lem :
    (p : Platform) (program key destination authority signer : ℕ) (w w' : Chain)
    → Performs p
    → p.invoke (close_account program key destination authority signer) w ≡ ok w'
    → (signer ≡ authority) × (amount_of (w.accounts key) ≡ 0) × Becomes key system_account w w'
close_account_lem p program key destination authority signer w w' performs h =
    let done = performs (close_account program key destination authority signer) w w' h in
    let (signed, removed) = guarded (signer == authority) _ done in
    let (empty, gone) = remove_lem key (w.accounts key) w w' removed in (ground arith, empty, gone)

pub close_escrow_lem :
    (p : Platform) (key destination : ℕ) (w w' : Chain)
    → Performs p
    → p.invoke (close_escrow key destination) w ≡ ok w'
    → Becomes key system_account w w'
close_escrow_lem p key destination w w' performs h =
    written_lem key system_account w w' (some-inj (performs (close_escrow key destination) w w' h))

pub create_escrow_lem :
    (p : Platform) (payer key : ℕ) (w w' : Chain)
    → Performs p
    → p.invoke (create_escrow payer key) w ≡ ok w'
    → (w.accounts key ≡ system_account) × Becomes key unopened w w'
create_escrow_lem p payer key w w' performs h =
    let (free, written) =
      guarded (is_system (w.accounts key)) _ (performs (create_escrow payer key) w w' h) in
    (is_system_lem _ free, written_lem key unopened w w' (some-inj written))

pub create_token_account_lem :
    (p : Platform) (payer key mint owner program : ℕ) (w w' : Chain)
    → Performs p
    → p.invoke (create_token_account payer key mint owner program) w ≡ ok w'
    → (w.accounts key ≡ system_account)
      × (key ≡ p.associated_address owner mint program)
      × Becomes key
          (token_account
            (record { mint = mint; owner = owner; amount = 0; token_program = program }))
          w
          w'
create_token_account_lem p payer key mint owner program w w' performs h =
    let (free, written) =
      guarded (is_system (w.accounts key) && key == p.associated_address owner mint program) _
        (performs (create_token_account payer key mint owner program) w w' h) in
    (is_system_lem _ (ground arith), ground arith, written_lem key _ w w' (some-inj written))
