-- ===== src/Solana/Sample/Lawful.antt =====
-- The laws of `Solana/Laws.antt` for the sample platform.
use q2_26_accel_v1c70ryg0d.Prelude.{
  ℕ, ◌+◌, ◌-◌, ◌≤◌, ◌≡◌, ◌≢◌, refl, sym, ap, ◌∙◌, ◌++◌, length, take, drop, ok, Result-cases, inl,
  inr, arith, length-append, length-take, length-drop, drop-append, take-append,
}
use q2_26_accel_v1c70ryg0d.Prelude.Words.{
  Bytes, to_le_bytes, from_le_bytes, length-to_le_bytes, from_le_bytes-to_le_bytes, u64_max,
}
use q2_26_accel_v1c70ryg0d.Solana.{
  Address, update, Account, World, TokenAccount, create_account, create_ata, transfer,
  close_token_account,
}
use q2_26_accel_v1c70ryg0d.Solana.Laws.{
  WritesOnly, TokensHaveLen, TokensOwned, TransferMoves, ClosesEmpty, balance, update_ne,
  update_self,
}
use q2_26_accel_v1c70ryg0d.Solana.Sample.{
  token_program, read_token, unpack, set_token_amount, close_account, move_tokens, invoke, sample,
}

move_tokens-lem :
    (from to n : ℕ) (w w' : World)
    → move_tokens from to n w ≡ ok w'
    → (f : TokenAccount) × (t : TokenAccount) × (unpack (w from) ≡ ok f)
      × (unpack (w to) ≡ ok t)
      × (n ≤ f.amount)
      × (f.amount ≤ u64_max)
      × (t.amount + n ≤ u64_max)
      × (w'
          ≡ update
              (update w from (set_token_amount (w from) (f.amount - n)))
              to
              (set_token_amount (w to) (t.amount + n)))
unfolding move_tokens
move_tokens-lem from to n w w' h = elim (Result-cases (unpack (w from))) [
  | inr (x, e) ↦ absurd (ground arith)
  | inl (f, e) ↦ elim (Result-cases (unpack (w to))) [
    | inr (x, e') ↦ absurd (ground arith)
    | inl (t, e') ↦
        (f, t, ground arith, ground arith, ground arith, ground arith, ground arith, ground arith)
  ]
]

move_tokens-spares :
    (from to n : ℕ) (w w' : World) (k : ℕ)
    → move_tokens from to n w ≡ ok w'
    → k ≢ from
    → k ≢ to
    → w' k ≡ w k
move_tokens-spares from to n w w' k h a b =
    let (f, t, ef, et, enough, small, fits, e) = move_tokens-lem from to n w w' h in
    let w1 = update w from (set_token_amount (w from) (f.amount - n)) in
    ap (λ u. u k) e
    ∙ update_ne w1 to k (set_token_amount (w to) (t.amount + n)) b
    ∙ update_ne w from k (set_token_amount (w from) (f.amount - n)) a

unfoldable splice : Bytes → Bytes → Bytes
splice b x = take 64 b ++ (x ++ drop 72 b)

length-splice : (b x : Bytes) → length b ≡ 165 → length x ≡ 8 → length (splice b x) ≡ 165
unfolding splice
length-splice b x hb hx = omega (
  arith,
  length-append (take 64 b) (x ++ drop 72 b),
  length-append x (drop 72 b),
  length-take 64 b,
  length-drop 72 b,
)

word-splice : (b x : Bytes) → length b ≡ 165 → length x ≡ 8 → take 8 (drop 64 (splice b x)) ≡ x
unfolding splice
word-splice b x hb hx =
    let front : length (take 64 b) ≡ 64 = omega (arith, length-take 64 b) in
    ap (take 8) (drop-append 64 (take 64 b) (x ++ drop 72 b) front) ∙ take-append 8 x (drop 72 b) hx

-- Writing an amount of 64 bits into a token account is read back.
unpack-set_token_amount :
    (a : Account) (t : TokenAccount) (n : ℕ)
    → n ≤ u64_max
    → unpack a ≡ ok t
    → (s : TokenAccount) × (unpack (set_token_amount a n) ≡ ok s) × (s.amount ≡ n)
unfolding unpack set_token_amount splice
unpack-set_token_amount a t n small h =
    let owned : a.owner ≡ token_program = ground arith in
    let long : length a.bytes ≡ 165 = ground arith in
    let x = to_le_bytes 8 n in
    (
      read_token (set_token_amount a n),
      ground (arith, length-splice a.bytes x long (length-to_le_bytes 8 n)),
      ap from_le_bytes (word-splice a.bytes x long (length-to_le_bytes 8 n))
          ∙ from_le_bytes-to_le_bytes 8 n (omega arith),
    )

module _ (now : ℕ) (beyond : Bytes) where
  pub sample-TokensHaveLen : TokensHaveLen (sample now beyond)
  unfolding unpack
  sample-TokensHaveLen a t h = ground arith

  pub sample-TokensOwned : TokensOwned (sample now beyond)
  unfolding unpack
  sample-TokensOwned a t h = ground arith

  pub sample-ClosesEmpty : ClosesEmpty (sample now beyond)
  unfolding close_account
  sample-ClosesEmpty a b h = ground arith

  pub sample-WritesOnly : WritesOnly (sample now beyond)
  unfolding invoke move_tokens
  sample-WritesOnly signers (create_account from to lamports space owner) w w' k h (f, t) =
      ground arith
  sample-WritesOnly signers (create_ata funder account wallet mint) w w' k h (f, t) = ground arith
  sample-WritesOnly signers (transfer from to authority n) w w' k h (f, t) =
      move_tokens-spares from to n w w' k h f t
  sample-WritesOnly signers (close_token_account account destination authority) w w' k h (f, t) =
      ground arith

  balance-unpack :
      (w : World) (k : Address) (a : Account) (t : TokenAccount)
      → w k ≡ a
      → unpack a ≡ ok t
      → balance (sample now beyond) w k ≡ t.amount
  unfolding balance
  balance-unpack w k a t e h = rw (e, h, balance)

  pub sample-TransferMoves : TransferMoves (sample now beyond)
  unfolding invoke
  sample-TransferMoves signers from to authority n w w' h apart =
      let (f, t, ef, et, enough, small, fits, e) = move_tokens-lem from to n w w' h in
      let (f', ef', af) = unpack-set_token_amount (w from) f (f.amount - n) (omega arith) ef in
      let (t', et', at) = unpack-set_token_amount (w to) t (t.amount + n) fits et in
      let w1 = update w from (set_token_amount (w from) (f.amount - n)) in
      let w2 = update w1 to (set_token_amount (w to) (t.amount + n)) in
      let at_from : w' from ≡ set_token_amount (w from) (f.amount - n) =
        ap (λ u. u from) e
        ∙ update_ne w1 to from (set_token_amount (w to) (t.amount + n)) apart
        ∙ update_self w from (set_token_amount (w from) (f.amount - n)) in
      let at_to : w' to ≡ set_token_amount (w to) (t.amount + n) =
        ap (λ u. u to) e ∙ update_self w1 to (set_token_amount (w to) (t.amount + n)) in
      let b_from = balance-unpack w from (w from) f refl ef in
      let b_to = balance-unpack w to (w to) t refl et in
      let b_from' =
        balance-unpack w' from (set_token_amount (w from) (f.amount - n)) f' at_from ef' in
      let b_to' = balance-unpack w' to (set_token_amount (w to) (t.amount + n)) t' at_to et' in
      (
        omega (arith, b_from),
        b_from' ∙ af ∙ ap (λ i. i - n) (sym b_from),
        b_to' ∙ at ∙ ap (λ i. i + n) (sym b_to),
      )
