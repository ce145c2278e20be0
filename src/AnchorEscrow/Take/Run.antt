-- ===== src/AnchorEscrow/Take/Run.antt =====
-- The parts of a `take` of the Anchor escrow that succeeds (instructions/take.rs).
use q2_26_accel_v1c70ryg0d.Prelude.{◌≡◌, true, ok, through, via, guard, guard-eq-ok, ◌>>=◌, ◌>>◌}
use q2_26_accel_v1c70ryg0d.AnchorEscrow.{
  Escrow, Mint, TokenAccount, system_account, escrow_account, token_account, Chain, Platform,
  escrow_of, token_of, mint_of, is_system, invalid_program_id,
}
use q2_26_accel_v1c70ryg0d.AnchorEscrow.Laws.{Performs}
use q2_26_accel_v1c70ryg0d.AnchorEscrow.Tokens.{is_system_lem}
use q2_26_accel_v1c70ryg0d.AnchorEscrow.Loads.{escrow_of_lem, token_of_lem}
use q2_26_accel_v1c70ryg0d.AnchorEscrow.Take.{TakeAccounts, open_if_needed, check_take, swap, take}
use q2_26_accel_v1c70ryg0d.AnchorEscrow.Take.Open.{IsReady, open_if_needed-IsReady}

pub record IsRun (p : Platform) (a : TakeAccounts) (w w' : Chain) : Type 0 where
  pub m : Mint
  pub n : Mint
  pub e : Escrow
  pub v : TokenAccount
  pub ata_b : TokenAccount
  pub w1 : Chain
  pub w2 : Chain
  pub signed : a.taker_signed ≡ true
  pub wallet : w.accounts a.maker ≡ system_account
  pub stored : w.accounts a.escrow ≡ escrow_account e
  pub held : w.accounts a.vault ≡ token_account v
  pub had : w.accounts a.taker_ata_b ≡ token_account ata_b
  pub ready_a : IsReady a.taker_ata_a a.mint_a a.taker w w1
  pub ready_b : IsReady a.maker_ata_b a.mint_b a.maker w1 w2
  pub checked : check_take p a ata_b e v ≡ ok tt
  pub swapped : swap p a m n e v w2 ≡ ok w'

-- The `init_if_needed` accounts and the rest, on what was loaded.
opened :
    (p : Platform) (a : TakeAccounts) (m n : Mint) (ata_b : TokenAccount) (e : Escrow)
    (v : TokenAccount) (w w' : Chain)
    → Performs p
    → a.taker_signed ≡ true
    → w.accounts a.maker ≡ system_account
    → w.accounts a.escrow ≡ escrow_account e
    → w.accounts a.vault ≡ token_account v
    → w.accounts a.taker_ata_b ≡ token_account ata_b
    → (guard (p.is_token_program a.token_program) invalid_program_id
        >> (open_if_needed p a.taker a.taker_ata_a a.mint_a a.taker a.token_program w >>= λ w1.
            open_if_needed p a.taker a.maker_ata_b a.mint_b a.maker a.token_program w1 >>= λ w2.
            check_take p a ata_b e v >> swap p a m n e v w2))
      ≡ ok w'
    → IsRun p a w w'
opened p a m n ata_b e v w w' performs signed wallet stored held had h =
    let (_, h1) = guard-eq-ok (p.is_token_program a.token_program) _ _ h in
    elim (through (open_if_needed p a.taker a.taker_ata_a a.mint_a a.taker a.token_program w) _
      h1) [
        | via w1 first h2 ↦
            elim (through
              (open_if_needed p a.taker a.maker_ata_b a.mint_b a.maker a.token_program w1) _ h2) [
                | via w2 second h3 ↦ elim (through (check_take p a ata_b e v) _ h3) [
                  | via _ checked h4 ↦ record {
                    m = m;
                    n = n;
                    e = e;
                    v = v;
                    ata_b = ata_b;
                    w1 = w1;
                    w2 = w2;
                    signed = signed;
                    wallet = wallet;
                    stored = stored;
                    held = held;
                    had = had;
                    ready_a = open_if_needed-IsReady p _ _ _ _ _ w w1 performs first;
                    ready_b = open_if_needed-IsReady p _ _ _ _ _ w1 w2 performs second;
                    checked = checked;
                    swapped = h4;
                  }
                ]
              ]
      ]

pub take-IsRun :
    (p : Platform) (a : TakeAccounts) (w w' : Chain)
    → Performs p
    → take p a w ≡ ok w'
    → IsRun p a w w'
unfolding take
take-IsRun p a w w' performs h =
    let (signed, h1) = guard-eq-ok a.taker_signed _ _ h in
    let (wallet, h2) = guard-eq-ok (is_system (w.accounts a.maker)) _ _ h1 in
    elim (through (mint_of (w.accounts a.mint_a)) _ h2) [
      | via m _ h3 ↦ elim (through (mint_of (w.accounts a.mint_b)) _ h3) [
        | via n _ h4 ↦ elim (through (token_of (w.accounts a.taker_ata_b)) _ h4) [
          | via ata_b had h5 ↦ elim (through (escrow_of (w.accounts a.escrow)) _ h5) [
            | via e stored h6 ↦ elim (through (token_of (w.accounts a.vault)) _ h6) [
              | via v held h7 ↦
                  opened p a m n ata_b e v w w' performs signed (is_system_lem _ wallet)
                    (escrow_of_lem _ e stored) (token_of_lem _ v held) (token_of_lem _ ata_b had) h7
            ]
          ]
        ]
      ]
    ]
