-- ===== src/Staking/ClaimRewards/Effects.antt =====
-- What a claim pays and leaves (instructions/claim_rewards.rs).
use q2_26_accel_v1c70ryg0d.Prelude.{
  ok-inj, ℕ, ◌+◌, ◌≡◌, ◌⊎◌, inl, inr, subst, sym, ap, ◌∙◌, Bool, true, false, some, List,
  if◌then◌else◌, Result, ok, through, via, ok_or-eq-ok, guard-eq-ok, arith, Bool-cases,
  Option-cases,
}
use q2_26_accel_v1c70ryg0d.Prelude.Int.{ℤ, pos, negsuc, ◌≤ℤ◌, ◌*ℤ◌, checked_i64, i64_min, i64_max}
use q2_26_accel_v1c70ryg0d.Staking.{
  Attribute, ErrorCode, Chain, Host, Accounts, RewardsMint, check_accounts, check_rewards_mint,
  update_attributes, asset_not_staked,
}
use q2_26_accel_v1c70ryg0d.Staking.Laws.{Performs}
use q2_26_accel_v1c70ryg0d.Staking.Attributes.{Clocks, no_clocks, scan}
use q2_26_accel_v1c70ryg0d.Staking.Attributes.Rescan.{rescan}
use q2_26_accel_v1c70ryg0d.Staking.Rewards.{seconds_per_day, reward_amount, whole_days}
use q2_26_accel_v1c70ryg0d.Staking.Stake.Effects.{IsOwned, check_accounts-IsOwned}
use q2_26_accel_v1c70ryg0d.Staking.Unstake.{claimed_until}
use q2_26_accel_v1c70ryg0d.Staking.Unstake.Effects.{pay-IsPaid}
use q2_26_accel_v1c70ryg0d.Staking.ClaimRewards.{
  is_zero, new_last_claim, claimed_attributes, claim_days, claim_rewards,
}

-- A claim that pays: the attributes read as before, but for the clock of the claims.
pub record IsClaimed (a : Accounts) (m : RewardsMint) (w w' : Chain) (c : Clocks) (last days : ℤ)
    : Type 0 where
  pub until : ℤ
  pub advanced : new_last_claim last days ≡ ok until
  pub attributes : List Attribute
  pub written : w'.attributes ≡ some attributes
  pub reread :
      scan true no_clocks attributes
      ≡ ok (record {
        is_staked = c.is_staked;
        staked_at = c.staked_at;
        last_claim = some until;
        kept = c.kept;
      })
  pub amount : ℕ
  pub priced : reward_amount days a.config m.decimals ≡ ok amount
  pub paid : w'.rewards ≡ w.rewards + amount
  pub frozen : w'.frozen ≡ w.frozen
  pub uncounted : w'.collection_attributes ≡ w.collection_attributes

new_last_claim-fits :
    (last days until : ℤ)
    → new_last_claim last days ≡ ok until
    → (i64_min ≤ℤ until) × (until ≤ℤ i64_max)
unfolding new_last_claim checked_i64
new_last_claim-fits last days until h =
    elim (Option-cases (checked_i64 (days *ℤ pos seconds_per_day))) [
      | inl over ↦ absurd (ground arith)
      | inr (seconds, e) ↦ (ground arith, ground arith)
    ]

claim_days-IsClaimed :
    (host : Host) (a : Accounts) (m : RewardsMint) (before : List Attribute) (c : Clocks)
    (last days : ℤ) (w w' : Chain)
    → Performs host
    → scan true no_clocks before ≡ ok c
    → claim_days host a m c last days w ≡ ok w'
    → IsClaimed a m w w' c last days
unfolding claim_days
claim_days-IsClaimed host a m before c last days w w' performs read h =
    elim (through (new_last_claim last days) _ h) [
      | via until advanced h1 ↦
          elim (through (host.invoke (update_attributes (claimed_attributes c.kept until)) w) _
            h1) [
              | via w1 wrote h2 ↦ elim (through (reward_amount days a.config m.decimals) _ h2) [
                | via amount priced h3 ↦
                    let e =
                      performs (update_attributes (claimed_attributes c.kept until)) w w1 wrote in
                    let (lo, hi) = new_last_claim-fits last days until advanced in
                    let p = pay-IsPaid host amount w1 w' performs h3 in
                    record {
                      until = until;
                      advanced = advanced;
                      attributes = claimed_attributes c.kept until;
                      reread = rescan before c until read lo hi;
                      written = p.attributes ∙ ap (λ u. u.attributes) e;
                      amount = amount;
                      priced = priced;
                      paid = p.rewards ∙ ap (λ u. u.rewards + amount) e;
                      frozen = p.frozen ∙ ap (λ u. u.frozen) e;
                      uncounted = p.collection_attributes ∙ ap (λ u. u.collection_attributes) e;
                    }
              ]
            ]
    ]

-- The clocks that a claim reads, on a staked asset, and the whole days since the last claim.
pub record IsClaimable (w : Chain) (now : ℤ) (c : Clocks) (days : ℤ) : Type 0 where
  pub before : List Attribute
  pub was : w.attributes ≡ some before
  pub read : scan true no_clocks before ≡ ok c
  pub staked : c.is_staked ≡ true
  pub whole : whole_days now (claimed_until c.last_claim c.staked_at) ≡ ok days

zero_of : (d : ℤ) → is_zero d ≡ true → d ≡ pos 0
zero_of (pos n) h = ap pos (ground arith)
zero_of (negsuc n) h = absurd (ground arith)

pick_true :
    {A : Type 0} (b : Bool) (x : A) (r : Result ErrorCode A) {w' : A}
    → b ≡ true
    → (if b then ok x else r) ≡ ok w'
    → w' ≡ x
pick_true true x r e h = sym (ok-inj h)
pick_true false x r e h = absurd (cc)

pick_false :
    {A : Type 0} (b : Bool) (l r : Result ErrorCode A) {w' : A}
    → b ≡ false
    → (if b then l else r) ≡ ok w'
    → r ≡ ok w'
pick_false true l r e h = absurd (cc)
pick_false false l r e h = h

pub claim_rewards-IsClaimed :
    (host : Host) (a : Accounts) (m : RewardsMint) (w w' : Chain) (now : ℤ)
    → Performs host
    → host.unix_timestamp ≡ ok now
    → claim_rewards host a m w ≡ ok w'
    → IsOwned a
      × ((c : Clocks) × (days : ℤ) × IsClaimable w now c days
          × (((days ≡ pos 0) × (w' ≡ w))
              ⊎ IsClaimed a m w w' c (claimed_until c.last_claim c.staked_at) days))
unfolding claim_rewards
claim_rewards-IsClaimed host a m w w' now performs clock h = elim (through (check_accounts a) _ h) [
  | via _ checked g1 ↦ elim (through (check_rewards_mint a m) _ g1) [
    | via _ mint_checked g2 ↦
        let (before, was, g3) = ok_or-eq-ok w.attributes asset_not_staked _ g2 in
        elim (through host.unix_timestamp _ g3) [
          | via t time g4 ↦ elim (through (scan true no_clocks before) _ g4) [
            | via c read g5 ↦
                let (staked, g6) = guard-eq-ok c.is_staked asset_not_staked _ g5 in
                let last = claimed_until c.last_claim c.staked_at in
                elim (through (whole_days t last) _ g6) [
                  | via days whole g7 ↦ (
                    check_accounts-IsOwned a checked,
                    (
                      c,
                      days,
                      record {
                        before = before;
                        was = was;
                        read = read;
                        staked = staked;
                        whole =
                            subst (λ i. whole_days i last ≡ ok days) (ok-inj (sym time ∙ clock))
                              whole;
                      },
                      elim (Bool-cases (is_zero days)) [
                        | inl none_whole ↦ inl (
                          zero_of days none_whole,
                          pick_true (is_zero days) w (claim_days host a m c last days w) none_whole
                              g7,
                        )
                        | inr some_whole ↦ inr (
                            claim_days-IsClaimed host a m before c last days w w' performs read (
                              pick_false (is_zero days) (ok w) (claim_days host a m c last days w)
                                some_whole g7))
                      ],
                    ),
                  )
                ]
          ]
        ]
  ]
]
