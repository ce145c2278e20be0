-- ===== src/Staking/Unstake/Payout.antt =====
-- The whole of an unstake (instructions/unstake.rs).
use q2_26_accel_v1c70ryg0d.Prelude.{
  ok-inj, ℕ, ◌+◌, ◌≡◌, subst, sym, ap, ◌∙◌, false, some, List, ok, through, via, ok_or-eq-ok,
}
use q2_26_accel_v1c70ryg0d.Prelude.Int.{ℤ, pos, negsuc}
use q2_26_accel_v1c70ryg0d.Staking.{
  Attribute, Chain, Host, Accounts, RewardsMint, check_accounts, check_rewards_mint,
  update_attributes, update_freeze, asset_not_staked,
}
use q2_26_accel_v1c70ryg0d.Staking.Laws.{Performs}
use q2_26_accel_v1c70ryg0d.Staking.Attributes.{Clocks, no_clocks, scan}
use q2_26_accel_v1c70ryg0d.Staking.Attributes.Scan.{scan-AreOthers}
use q2_26_accel_v1c70ryg0d.Staking.Counters.{counters_of, update_collection_staked_count}
use q2_26_accel_v1c70ryg0d.Staking.Counters.Clamped.{
  IsCounted, update_collection_staked_count-IsCounted,
}
use q2_26_accel_v1c70ryg0d.Staking.Rewards.{reward_amount, pay}
use q2_26_accel_v1c70ryg0d.Staking.Stake.Effects.{IsOwned, check_accounts-IsOwned}
use q2_26_accel_v1c70ryg0d.Staking.Unstake.{unstaked_attributes, unstake_days, unstake}
use q2_26_accel_v1c70ryg0d.Staking.Unstake.Effects.{
  IsElapsed, unstake_days-IsElapsed, pay-IsPaid, scan_stopped,
}

-- The asset and the owner after an unstake at a time.
pub record IsUnstaked (a : Accounts) (m : RewardsMint) (w w' : Chain) (now : ℤ) : Type 0 where
  pub before : List Attribute
  pub was : w.attributes ≡ some before
  pub clocks : Clocks
  pub read : scan false no_clocks before ≡ ok clocks
  pub days : ℤ
  pub elapsed : IsElapsed a.config.freeze_period now clocks days
  pub amount : ℕ
  pub priced : reward_amount days a.config m.decimals ≡ ok amount
  pub paid : w'.rewards ≡ w.rewards + amount
  pub attributes : List Attribute
  pub written : w'.attributes ≡ some attributes
  pub stopped :
      scan false no_clocks attributes
      ≡ ok (record {
        is_staked = false;
        staked_at = pos 0;
        last_claim = some (pos 0);
        kept = clocks.kept;
      })
  pub thawed : w'.frozen ≡ some false
  pub counted :
      IsCounted
        (counters_of w.collection_attributes)
        (counters_of w'.collection_attributes)
        (negsuc 0)

-- From the first call on.
settle-IsUnstaked :
    (host : Host) (a : Accounts) (m : RewardsMint) (w w1 w2 w3 w' : Chain) (now days : ℤ)
    (before : List Attribute) (c : Clocks) (amount : ℕ)
    → Performs host
    → w.attributes ≡ some before
    → scan false no_clocks before ≡ ok c
    → unstake_days a.config.freeze_period now c ≡ ok days
    → host.invoke (update_attributes (unstaked_attributes c.kept)) w ≡ ok w1
    → host.invoke (update_freeze false) w1 ≡ ok w2
    → update_collection_staked_count host (negsuc 0) w2 ≡ ok w3
    → reward_amount days a.config m.decimals ≡ ok amount
    → pay host amount w3 ≡ ok w'
    → IsUnstaked a m w w' now
settle-IsUnstaked host a m w w1 w2 w3 w' now days before c amount performs was read due h1 h2 h3
      priced h4 =
    let e1 = performs (update_attributes (unstaked_attributes c.kept)) w w1 h1 in
    let e2 = performs (update_freeze false) w1 w2 h2 in
    let (counted, e3) =
      update_collection_staked_count-IsCounted host (negsuc 0) w2 w3 performs h3 in
    let p = pay-IsPaid host amount w3 w' performs h4 in
    record {
      before = before;
      was = was;
      clocks = c;
      read = read;
      days = days;
      elapsed = unstake_days-IsElapsed a.config.freeze_period now c days due;
      amount = amount;
      priced = priced;
      paid =
          p.rewards
          ∙ ap (λ n. n + amount)
              (ap (λ u. u.rewards) e3 ∙ ap (λ u. u.rewards) e2 ∙ ap (λ u. u.rewards) e1);
      attributes = unstaked_attributes c.kept;
      written =
          p.attributes
          ∙ ap (λ u. u.attributes) e3
          ∙ ap (λ u. u.attributes) e2
          ∙ ap (λ u. u.attributes) e1;
      stopped = scan_stopped c.kept (scan-AreOthers no_clocks before c tt read);
      thawed = p.frozen ∙ ap (λ u. u.frozen) e3 ∙ ap (λ u. u.frozen) e2;
      counted =
          subst (λ o. IsCounted (counters_of w.collection_attributes) (counters_of o) (negsuc 0))
            (sym p.collection_attributes)
            (subst
              (λ o. IsCounted (counters_of o) (counters_of w3.collection_attributes) (negsuc 0))
              (ap (λ u. u.collection_attributes) e2 ∙ ap (λ u. u.collection_attributes) e1)
              counted);
    }

pub unstake-IsUnstaked :
    (host : Host) (a : Accounts) (m : RewardsMint) (w w' : Chain) (now : ℤ)
    → Performs host
    → host.unix_timestamp ≡ ok now
    → unstake host a m w ≡ ok w'
    → IsOwned a × IsUnstaked a m w w' now
unfolding unstake
unstake-IsUnstaked host a m w w' now performs clock h = elim (through (check_accounts a) _ h) [
  | via _ checked g1 ↦ elim (through (check_rewards_mint a m) _ g1) [
    | via _ mint_checked g2 ↦
        let (before, was, g3) = ok_or-eq-ok w.attributes asset_not_staked _ g2 in
        elim (through host.unix_timestamp _ g3) [
          | via t time g4 ↦ elim (through (scan false no_clocks before) _ g4) [
            | via c read g5 ↦ elim (through (unstake_days a.config.freeze_period t c) _ g5) [
              | via days due g6 ↦
                  elim (through (host.invoke (update_attributes (unstaked_attributes c.kept)) w) _
                    g6) [
                      | via w1 h1 g7 ↦ elim (through (host.invoke (update_freeze false) w1) _ g7) [
                        | via w2 h2 g8 ↦
                            elim (through (update_collection_staked_count host (negsuc 0) w2) _
                              g8) [
                                | via w3 h3 g9 ↦
                                    elim (through (reward_amount days a.config m.decimals) _ g9) [
                                      | via amount priced h4 ↦ (
                                        check_accounts-IsOwned a checked,
                                        subst (IsUnstaked a m w w') (ok-inj (sym time ∙ clock)) (
                                            settle-IsUnstaked host a m w w1 w2 w3 w' t days before c
                                              amount performs was read due h1 h2 h3 priced h4),
                                      )
                                    ]
                              ]
                      ]
                    ]
            ]
          ]
        ]
  ]
]
