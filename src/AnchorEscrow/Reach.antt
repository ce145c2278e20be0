-- ===== src/AnchorEscrow/Reach.antt =====
-- The states that the instructions of the Anchor escrow reach (lib.rs), other programs running in
-- between.
use q2_26_accel_v1c70ryg0d.Prelude.{
  ℕ, ◌≡◌, ◌≢◌, refl, sym, ap, ◌∙◌, Bool-cases, inl, inr, ok, ◌==◌, through, via, arith,
}
use q2_26_accel_v1c70ryg0d.AnchorEscrow.{
  Escrow, TokenAccount, escrow_account, token_account, Chain, Platform,
}
use q2_26_accel_v1c70ryg0d.AnchorEscrow.Laws.{Performs}
use q2_26_accel_v1c70ryg0d.AnchorEscrow.Loads.{
  token_inj, escrow_inj, token_not_escrow, token_not_system,
}
use q2_26_accel_v1c70ryg0d.AnchorEscrow.Owners.{
  StaysToken, Evolves, Evolves-trans, transfer-Evolves,
}
use q2_26_accel_v1c70ryg0d.AnchorEscrow.Backed.{
  IsBacked, vaulted_stays, Evolves-IsBacked, close_offer-IsBacked,
}
use q2_26_accel_v1c70ryg0d.AnchorEscrow.Make.{MakeAccounts, make}
use q2_26_accel_v1c70ryg0d.AnchorEscrow.Make.Effects.{IsOffered, new_vault, make-IsOffered}
use q2_26_accel_v1c70ryg0d.AnchorEscrow.Take.{
  TakeAccounts, check_take, deposit_to_maker, swap, take,
}
use q2_26_accel_v1c70ryg0d.AnchorEscrow.Take.Open.{IsReady, ready-keeps_token, ready-keeps_escrow}
use q2_26_accel_v1c70ryg0d.AnchorEscrow.Take.Run.{take-IsRun}
use q2_26_accel_v1c70ryg0d.AnchorEscrow.Refund.Run.{refund-IsRun}
use q2_26_accel_v1c70ryg0d.AnchorEscrow.Program.{
  Request, make_request, take_request, refund_request, run,
}
use q2_26_accel_v1c70ryg0d.AnchorEscrow.Refund.{RefundAccounts, check_refund, refund}

-- What the other programs cannot do: write an escrow, or take a token account from an escrow.
pub record IsOutside (w w' : Chain) : Type 0 where
  pub escrows :
      (k : ℕ) → (e : Escrow) → w'.accounts k ≡ escrow_account e → w.accounts k ≡ escrow_account e
  pub vaults :
      (k j : ℕ) (e : Escrow) (t : TokenAccount)
      → w.accounts k ≡ escrow_account e
      → w.accounts j ≡ token_account t
      → t.owner ≡ k
      → StaysToken t (w'.accounts j)

-- An instruction that succeeds, or a transaction of other programs. One that fails changes nothing.
pub data Step (p : Platform) (w w' : Chain) : Type 0 where
  instruction : (r : Request) → run p r w ≡ ok w' → Step p w w'
  outside : IsOutside w w' → Step p w w'

pub data Reach (p : Platform) (w : Chain) : Chain → Type 0 where
  here : Reach p w w
  later : {u v : Chain} → Reach p w u → Step p u v → Reach p w v

-- A token account that was there before keeps its owner and mint.
offered-StaysToken :
    {p : Platform} {a : MakeAccounts} {seed deposit receive : ℕ} {w w' : Chain}
    (o : IsOffered p a seed deposit receive w w') (j : ℕ) (t : TokenAccount)
    → w.accounts j ≡ token_account t
    → StaysToken t (w'.accounts j)
offered-StaysToken {a} {w} {w'} o j t at = elim (Bool-cases (j == a.maker_ata_a)) [
  | inl same ↦
      let here : j ≡ a.maker_ata_a = ground arith in
      let before : o.ata ≡ t = token_inj (sym o.had ∙ ap w.accounts (sym here) ∙ at) in
      (_, ap w'.accounts here ∙ o.paid, ap (λ u. u.owner) before, ap (λ u. u.mint) before)
  | inr away ↦ (
    t,
    o.elsewhere j (ground arith) (λ q. token_not_system (sym at ∙ ap w.accounts q ∙ o.fresh.1))
          (λ q. token_not_system (sym at ∙ ap w.accounts q ∙ o.fresh.0))
        ∙ at,
    refl,
    refl,
  )
]

make-IsBacked :
    (p : Platform) (a : MakeAccounts) (seed deposit receive : ℕ) (w w' : Chain)
    → Performs p
    → make p a seed deposit receive w ≡ ok w'
    → IsBacked p w
    → IsBacked p w'
make-IsBacked p a seed deposit receive w w' performs h backed k e at =
    let o = make-IsOffered p a seed deposit receive w w' performs h in
    elim (Bool-cases (k == a.escrow)) [
      | inl new ↦
          let here : k ≡ a.escrow = ground arith in
          let same = escrow_inj (sym at ∙ ap w'.accounts here ∙ o.stored) in
          record {
            derived =
                here ∙ o.derived ∙ ap (λ f. p.escrow_address f.maker f.seed f.bump) (sym same);
            program = a.token_program;
            vault = new_vault a deposit;
            stands =
                ap w'.accounts (
                  ap (λ i. p.associated_address i e.mint_a a.token_program) here
                  ∙ ap (λ f. p.associated_address a.escrow f.mint_a a.token_program) same
                  ∙ sym o.placed)
                ∙ o.funded;
            owner_is = sym here;
            mint_is = sym (ap (λ f. f.mint_a) same);
          }
      | inr old ↦
          let other : k ≢ a.escrow = ground arith in
          let not_ata : k ≢ a.maker_ata_a =
            λ q. token_not_escrow (sym o.paid ∙ ap w'.accounts (sym q) ∙ at) in
          let not_vault : k ≢ a.vault =
            λ q. token_not_escrow (sym o.funded ∙ ap w'.accounts (sym q) ∙ at) in
          let b = backed k e (sym (o.elsewhere k not_ata not_vault other) ∙ at) in
          vaulted_stays w' b (offered-StaysToken o _ b.vault b.stands)
    ]

ready-Evolves :
    {key mint wallet : ℕ} {w w' : Chain}
    → IsReady key mint wallet w w'
    → Evolves w.accounts w'.accounts
ready-Evolves {key} {w} {w'} r = record {
  tokens = λ k t x. (t, ready-keeps_token r k t x, refl, refl);
  escrows = λ k e x.
      sym (r.elsewhere k (λ q. token_not_escrow (sym r.stands ∙ ap w'.accounts (sym q) ∙ x))) ∙ x;
  kept = ready-keeps_escrow r;
}

take-IsBacked :
    (p : Platform) (a : TakeAccounts) (w w' : Chain)
    → Performs p
    → take p a w ≡ ok w'
    → IsBacked p w
    → IsBacked p w'
unfolding swap check_take deposit_to_maker
take-IsBacked p a w w' performs h backed =
    let r = take-IsRun p a w w' performs h in
    let checked = r.checked in
    elim (through (p.invoke _ r.w2) _ r.swapped) [
      | via w3 moved paid_out ↦
          let opened = Evolves-trans (ready-Evolves r.ready_a) (ready-Evolves r.ready_b) in
          let deposited =
            transfer-Evolves p a.token_program a.taker_ata_b a.mint_b a.maker_ata_b a.taker a.taker
              r.e.receive r.n.decimals r.w2 w3 performs moved in
          let step = Evolves-trans opened deposited in
          let (v, stands, owner, _) = step.tokens a.vault r.v r.held in
          close_offer-IsBacked p a.token_program a.escrow a.vault r.e a.taker_ata_a a.maker a.mint_a
            r.m.decimals r.v.amount v w3 w' performs (step.kept a.escrow r.e r.stored) stands
            (owner ∙ ground (arith, checked)) paid_out (Evolves-IsBacked p w w3 step backed)
    ]

refund-IsBacked :
    (p : Platform) (a : RefundAccounts) (w w' : Chain)
    → Performs p
    → refund p a w ≡ ok w'
    → IsBacked p w
    → IsBacked p w'
unfolding check_refund
refund-IsBacked p a w w' performs h =
    let r = refund-IsRun p a w w' h in
    let checked = r.checked in
    close_offer-IsBacked p a.token_program a.escrow a.vault r.e a.maker_ata_a a.maker a.mint_a
      r.m.decimals r.v.amount r.v w w' performs r.stored r.held (ground (arith, checked)) r.paid_out

run-IsBacked :
    (p : Platform) (r : Request) (w w' : Chain)
    → Performs p
    → run p r w ≡ ok w'
    → IsBacked p w
    → IsBacked p w'
unfolding run
run-IsBacked p (make_request a seed deposit receive) w w' performs h =
    make-IsBacked p a seed deposit receive w w' performs h
run-IsBacked p (take_request a) w w' performs h = take-IsBacked p a w w' performs h
run-IsBacked p (refund_request a) w w' performs h = refund-IsBacked p a w w' performs h

Step-IsBacked :
    (p : Platform) (w w' : Chain) → Performs p → Step p w w' → IsBacked p w → IsBacked p w'
Step-IsBacked p w w' performs (instruction r h) backed = run-IsBacked p r w w' performs h backed
Step-IsBacked p w w' performs (outside o) backed = λ k e at.
    let before = o.escrows k e at in
    let b = backed k e before in
    vaulted_stays w' b (o.vaults k _ e b.vault before b.stands b.owner_is)

-- In every state that `make`, `take`, `refund` and transactions of other programs reach, whatever the
-- accounts, each open offer stands at its derived address and owns a vault of the maker's mint at the
-- associated address, if that held at the start, as it does with no offer open. Laws: Performs.
pub Reach-IsBacked :
    (p : Platform) (w w' : Chain) → Performs p → Reach p w w' → IsBacked p w → IsBacked p w'
Reach-IsBacked p w w' performs here b = b
Reach-IsBacked p w w' performs (later {u = u} r s) b =
    Step-IsBacked p u w' performs s (Reach-IsBacked p w u performs r b)
