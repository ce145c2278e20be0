-- ===== src/AnchorEscrow/Owners.antt =====
-- What no call of the Anchor escrow changes: the owner and the mint of a token account, and the
-- escrows. Here the accounts of a transfer may be the same.
use q2_26_accel_v1c70ryg0d.Prelude.{
  ℕ, ◌+◌, ◌-◌, ◌≡◌, refl, sym, ap, subst, ◌∙◌, Bool-cases, some, some-inj, inl, inr, ok, leb, ◌==◌,
  ◌&&◌, arith,
}
use q2_26_accel_v1c70ryg0d.AnchorEscrow.{
  Account, system_account, unopened, escrow_account, token_account, mint_account, other_account,
  Accounts, Escrow, TokenAccount, Chain, update, transfer_checked, Platform,
}
use q2_26_accel_v1c70ryg0d.AnchorEscrow.Laws.{credit, debit, Performs}
use q2_26_accel_v1c70ryg0d.AnchorEscrow.Tokens.{guarded}
use q2_26_accel_v1c70ryg0d.AnchorEscrow.Loads.{token_inj, token_not_escrow}

-- A token account of the same owner and mint stands there.
abbrev pub StaysToken : TokenAccount → Account → Type 0
StaysToken t x =
    (u : TokenAccount) × (x ≡ token_account u) × (u.owner ≡ t.owner) × (u.mint ≡ t.mint)

pub record Evolves (A B : Accounts) : Type 0 where
  pub tokens : (k : ℕ) (t : TokenAccount) → A k ≡ token_account t → StaysToken t (B k)
  pub escrows : (k : ℕ) (e : Escrow) → B k ≡ escrow_account e → A k ≡ escrow_account e
  pub kept : (k : ℕ) (e : Escrow) → A k ≡ escrow_account e → B k ≡ escrow_account e

pub Evolves-trans : {A B C : Accounts} → Evolves A B → Evolves B C → Evolves A C
Evolves-trans f g = record {
  tokens = λ k t h.
      let (u, at, owner, mint) = f.tokens k t h in
      let (v, at', owner', mint') = g.tokens k u at in (v, at', owner' ∙ owner, mint' ∙ mint);
  escrows = λ k e h. f.escrows k e (g.escrows k e h);
  kept = λ k e h. g.kept k e (f.kept k e h);
}

-- A token account is written with the same owner and mint.
retag :
    (A : Accounts) (j : ℕ) (f g : TokenAccount)
    → A j ≡ token_account f
    → g.owner ≡ f.owner
    → g.mint ≡ f.mint
    → Evolves A (update A j (token_account g))
retag A j f g at owner mint = record {
  tokens = λ k t h. elim (Bool-cases (j == k)) [
    | inl here ↦
        let e : j ≡ k = ground arith in
        let same : f ≡ t = token_inj (sym at ∙ ap A e ∙ h) in
        (g, rw here refl, owner ∙ ap (λ u. u.owner) same, mint ∙ ap (λ u. u.mint) same)
    | inr away ↦ (t, rw away h, refl, refl)
  ];
  escrows = λ k e h. elim (Bool-cases (j == k)) [
    | inl here ↦ absurd (token_not_escrow (rw here at h))
    | inr away ↦ rw away at h
  ];
  kept = λ k e h. elim (Bool-cases (j == k)) [
    | inl here ↦
        let same : j ≡ k = ground arith in absurd (token_not_escrow (sym at ∙ ap A same ∙ h))
    | inr away ↦ rw away h
  ];
}

credit-Evolves :
    (to mint amount : ℕ) (x : Account) (A B : Accounts)
    → A to ≡ x
    → credit to mint amount x A ≡ some B
    → Evolves A B
credit-Evolves to mint amount (token_account t) A B at h =
    let (_, written) = guarded (t.mint == mint) _ h in
    subst (Evolves A) (some-inj written)
      (retag A to t (record t { amount = t.amount + amount }) at refl refl)
credit-Evolves to mint amount system_account A B at h = cc
credit-Evolves to mint amount unopened A B at h = cc
credit-Evolves to mint amount (escrow_account e) A B at h = cc
credit-Evolves to mint amount (mint_account m) A B at h = cc
credit-Evolves to mint amount (other_account n) A B at h = cc

debit-Evolves :
    (from to mint amount : ℕ) (x : Account) (A B : Accounts)
    → A from ≡ x
    → debit from to mint amount x A ≡ some B
    → Evolves A B
debit-Evolves from to mint amount (token_account f) A B at h =
    let (_, rest) = guarded (leb amount f.amount && f.mint == mint) _ h in
    let left = update A from (token_account (record f { amount = f.amount - amount })) in
    Evolves-trans (retag A from f (record f { amount = f.amount - amount }) at refl refl)
      (credit-Evolves to mint amount (left to) left B refl rest)
debit-Evolves from to mint amount system_account A B at h = cc
debit-Evolves from to mint amount unopened A B at h = cc
debit-Evolves from to mint amount (escrow_account e) A B at h = cc
debit-Evolves from to mint amount (mint_account m) A B at h = cc
debit-Evolves from to mint amount (other_account n) A B at h = cc

pub transfer-Evolves :
    (p : Platform) (program from mint to authority signer amount decimals : ℕ) (w w' : Chain)
    → Performs p
    → p.invoke (transfer_checked program from mint to authority signer amount decimals) w ≡ ok w'
    → Evolves w.accounts w'.accounts
transfer-Evolves p program from mint to authority signer amount decimals w w' performs h =
    let done =
      performs (transfer_checked program from mint to authority signer amount decimals) w w' h in
    debit-Evolves from to mint amount (w.accounts from) w.accounts w'.accounts refl
      (guarded (signer == authority) _ done).1
