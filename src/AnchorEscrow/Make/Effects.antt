-- ===== src/AnchorEscrow/Make/Effects.antt =====
-- What opening an offer does (instructions/make.rs of the Anchor escrow).
use q2_26_accel_v1c70ryg0d.Prelude.{
  ℕ, ◌+◌, ◌-◌, ◌≤◌, ◌≡◌, ◌≢◌, sym, ap, ◌∙◌, true, ok, ok-inj, through, via, guard-eq-ok, ◌>>=◌,
  ◌==◌, arith,
}
use q2_26_accel_v1c70ryg0d.AnchorEscrow.{
  Mint, system_account, escrow_account, token_account, TokenAccount, Chain, Platform, create_escrow,
  token_of, mint_of,
}
use q2_26_accel_v1c70ryg0d.AnchorEscrow.Laws.{Performs}
use q2_26_accel_v1c70ryg0d.AnchorEscrow.Tokens.{
  transfer_lem, create_escrow_lem, create_token_account_lem,
}
use q2_26_accel_v1c70ryg0d.AnchorEscrow.Loads.{
  token_of_lem, token_inj, token_not_system, unopened_not_system,
}
use q2_26_accel_v1c70ryg0d.AnchorEscrow.Make.{
  MakeAccounts, open_accounts, check_make, init_escrow, deposit_to_vault, write_escrow, make,
}

-- The vault of a new offer.
abbrev pub new_vault : MakeAccounts → ℕ → TokenAccount
new_vault a amount = record {
  mint = a.mint_a;
  owner = a.escrow;
  amount = amount;
  token_program = a.token_program;
}

-- The two accounts that `init` creates.
pub record IsOpened (p : Platform) (a : MakeAccounts) (seed : ℕ) (w w' : Chain) : Type 0 where
  pub derived : a.escrow ≡ p.escrow_address a.maker seed (p.escrow_bump a.maker seed)
  pub fresh : (w.accounts a.escrow ≡ system_account) × (w.accounts a.vault ≡ system_account)
  pub apart : a.vault ≢ a.escrow
  pub placed : a.vault ≡ p.associated_address a.escrow a.mint_a a.token_program
  pub vault_open : w'.accounts a.vault ≡ token_account (new_vault a 0)
  pub elsewhere : (k : ℕ) → k ≢ a.vault → k ≢ a.escrow → w'.accounts k ≡ w.accounts k

pub open_accounts-IsOpened :
    (p : Platform) (a : MakeAccounts) (seed : ℕ) (w w' : Chain)
    → Performs p
    → open_accounts p a seed w ≡ ok w'
    → IsOpened p a seed w w'
unfolding open_accounts
open_accounts-IsOpened p a seed w w' performs h =
    let (derived, h1) =
      guard-eq-ok (a.escrow == p.escrow_address a.maker seed (p.escrow_bump a.maker seed)) _ _ h in
    elim (through (p.invoke (create_escrow a.maker a.escrow) w) _ h1) [
      | via w1 created opened ↦
          let (free, (raw, kept)) = create_escrow_lem p a.maker a.escrow w w1 performs created in
          let (empty, placed, (opened_vault, kept')) =
            create_token_account_lem p a.maker a.vault a.mint_a a.escrow a.token_program w1 w'
              performs opened in
          let apart : a.vault ≢ a.escrow =
            λ q. unopened_not_system (sym raw ∙ ap w1.accounts (sym q) ∙ empty) in
          record {
            derived = ground arith;
            fresh = (free, sym (kept a.vault apart) ∙ empty);
            apart = apart;
            placed = placed;
            vault_open = opened_vault;
            elsewhere = λ k x y. kept' k x ∙ kept k y;
          }
    ]

pub record IsOffered (p : Platform) (a : MakeAccounts) (seed deposit receive : ℕ) (w w' : Chain)
    : Type 0 where
  pub signed : a.maker_signed ≡ true
  pub derived : a.escrow ≡ p.escrow_address a.maker seed (p.escrow_bump a.maker seed)
  pub fresh : (w.accounts a.escrow ≡ system_account) × (w.accounts a.vault ≡ system_account)
  pub placed : a.vault ≡ p.associated_address a.escrow a.mint_a a.token_program
  pub ata : TokenAccount
  pub had : w.accounts a.maker_ata_a ≡ token_account ata
  pub owned : (ata.owner ≡ a.maker) × (ata.mint ≡ a.mint_a) × (deposit ≤ ata.amount)
  pub programs :
      (ata.token_program ≡ a.token_program)
      × (a.maker_ata_a ≡ p.associated_address a.maker a.mint_a a.token_program)
  pub paid :
      w'.accounts a.maker_ata_a ≡ token_account (record ata { amount = ata.amount - deposit })
  pub funded : w'.accounts a.vault ≡ token_account (new_vault a deposit)
  pub stored :
      w'.accounts a.escrow
      ≡ escrow_account (record {
        seed = seed;
        maker = a.maker;
        mint_a = a.mint_a;
        mint_b = a.mint_b;
        receive = receive;
        bump = p.escrow_bump a.maker seed;
      })
  pub elsewhere :
      (k : ℕ) → k ≢ a.maker_ata_a → k ≢ a.vault → k ≢ a.escrow → w'.accounts k ≡ w.accounts k

-- The checks and the deposit, on what was loaded and opened.
fund :
    (p : Platform) (a : MakeAccounts) (seed deposit receive : ℕ) (m n : Mint) (ata : TokenAccount)
    (w w1 w' : Chain)
    → Performs p
    → a.maker_signed ≡ true
    → w.accounts a.maker_ata_a ≡ token_account ata
    → IsOpened p a seed w w1
    → check_make p a m n ata ≡ ok tt
    → (deposit_to_vault p a m deposit w1 >>= λ w2.
        ok (write_escrow a.escrow (init_escrow a seed receive (p.escrow_bump a.maker seed)) w2))
      ≡ ok w'
    → IsOffered p a seed deposit receive w w'
unfolding check_make deposit_to_vault write_escrow init_escrow
fund p a seed deposit receive m n ata w w1 w' performs signed had o checked h =
    let facts : (ata.owner ≡ a.maker)
        × (ata.token_program ≡ a.token_program)
        × (a.maker_ata_a ≡ p.associated_address a.maker a.mint_a a.token_program) =
      ground arith in
    let not_vault : a.maker_ata_a ≢ a.vault =
      λ q. token_not_system (sym had ∙ ap w.accounts q ∙ o.fresh.1) in
    let not_escrow : a.maker_ata_a ≢ a.escrow =
      λ q. token_not_system (sym had ∙ ap w.accounts q ∙ o.fresh.0) in
    elim (through (p.invoke _ w1) _ h) [
      | via w2 moved written ↦
          let (_, t) =
            transfer_lem p a.token_program a.maker_ata_a a.mint_a a.vault a.maker a.maker deposit
              m.decimals w1 w2 performs not_vault moved in
          let result = ap (λ c. c.accounts) (ok-inj written) in
          let source = token_inj (sym t.from_source ∙ o.elsewhere _ not_vault not_escrow ∙ had) in
          let target = token_inj (sym t.to_target ∙ o.vault_open) in
          let kept : (k : ℕ) → k ≢ a.escrow → w'.accounts k ≡ w2.accounts k =
            λ k x. sym (ap (λ u. u k) result) ∙ ground arith in
          record {
            signed = signed;
            derived = o.derived;
            fresh = o.fresh;
            placed = o.placed;
            ata = ata;
            had = had;
            owned = (
              facts.0,
              sym (ap (λ u. u.mint) source) ∙ t.mints.0,
              ground (arith, t.enough, source),
            );
            programs = (facts.1, facts.2);
            paid =
                kept _ not_escrow
                ∙ t.debited
                ∙ ap (λ u. token_account (record u { amount = u.amount - deposit })) source;
            funded =
                kept _ o.apart
                ∙ t.credited
                ∙ ap (λ u. token_account (record u { amount = u.amount + deposit })) target
                ∙ ap (λ n. token_account (new_vault a n)) (omega arith);
            stored = sym (ap (λ u. u a.escrow) result) ∙ ground arith;
            elsewhere = λ k x y z. kept k z ∙ t.elsewhere k x y ∙ o.elsewhere k y z;
          }
    ]

-- A successful `make` was signed by the maker and opens the escrow and its vault at addresses where
-- nothing stood, the derived one and the associated one. The vault holds exactly the deposit, taken from
-- the maker's own account of that mint, the escrow stores the terms of the call, and no other account
-- changes. Laws: Performs.
pub make-IsOffered :
    (p : Platform) (a : MakeAccounts) (seed deposit receive : ℕ) (w w' : Chain)
    → Performs p
    → make p a seed deposit receive w ≡ ok w'
    → IsOffered p a seed deposit receive w w'
unfolding make
make-IsOffered p a seed deposit receive w w' performs h =
    let (signed, h1) = guard-eq-ok a.maker_signed _ _ h in
    elim (through (mint_of (w.accounts a.mint_a)) _ h1) [
      | via m _ h2 ↦ elim (through (mint_of (w.accounts a.mint_b)) _ h2) [
        | via n _ h3 ↦ elim (through (token_of (w.accounts a.maker_ata_a)) _ h3) [
          | via ata had h4 ↦
              let (_, h5) = guard-eq-ok (p.is_token_program a.token_program) _ _ h4 in
              elim (through (open_accounts p a seed w) _ h5) [
                | via w1 opened h6 ↦ elim (through (check_make p a m n ata) _ h6) [
                  | via _ checked h7 ↦
                      fund p a seed deposit receive m n ata w w1 w' performs signed
                        (token_of_lem _ ata had)
                        (open_accounts-IsOpened p a seed w w1 performs opened) checked h7
                ]
              ]
        ]
      ]
    ]
