-- ===== src/Staking/Frozen.antt =====
-- How long a staked asset stays frozen (lib.rs, instructions/stake.rs, unstake.rs and
-- claim_rewards.rs).
use q2_26_accel_v1c70ryg0d.Prelude.{
  false, ℕ, ◌*◌, ◌≡◌, ◌≢◌, refl, sym, ap, subst, ◌∙◌, some-inj, inl, inr, List, [], ◌∷◌,
  Result-cases, ok, ok-inj, ok_or-eq-ok, guard-eq-ok,
}
use q2_26_accel_v1c70ryg0d.Prelude.Int.{ℤ, pos, ◌+ℤ◌, ◌≤ℤ◌, i64_min, i64_max}
use q2_26_accel_v1c70ryg0d.Staking.{account_not_initialized, Config, RewardsMint}
use q2_26_accel_v1c70ryg0d.Staking.Setup.{World, create_collection, mint_asset}
use q2_26_accel_v1c70ryg0d.Staking.Ready.{write_at-same, initialize_program-IsInitialized}
use q2_26_accel_v1c70ryg0d.Staking.Attributes.{no_clocks, scan}
use q2_26_accel_v1c70ryg0d.Staking.Rewards.{seconds_per_day}
use q2_26_accel_v1c70ryg0d.Staking.Stake.Effects.{stake-IsStaked}
use q2_26_accel_v1c70ryg0d.Staking.Unstake.{unstake}
use q2_26_accel_v1c70ryg0d.Staking.Unstake.Payout.{unstake-IsUnstaked}
use q2_26_accel_v1c70ryg0d.Staking.ClaimRewards.{claim_rewards}
use q2_26_accel_v1c70ryg0d.Staking.Program.{
  ProgramHost, AssetCall, host_at, stake_asset, Transaction, initialize_tx, create_collection_tx,
  mint_asset_tx, stake_tx, claim_rewards_tx, unstake_tx, execute, settle, execute_all,
}
use q2_26_accel_v1c70ryg0d.Staking.Ran.{AreLawful, Ran, stake_asset-Ran, with_rewards-Ran}
use q2_26_accel_v1c70ryg0d.Staking.Held.{
  IsHeld, IsConfigured, AreDistinct, execute-IsConfigured, stake-refused, claim-keeps, standing,
  ran_on, staked_of,
}

-- The end of the freeze period of an asset staked at a time.
abbrev pub frozen_until : ℤ → Config → ℤ
frozen_until since config = since +ℤ pos (config.freeze_period * seconds_per_day)

module _ (h : ProgramHost) (now since : ℤ) (key owner collection : ℕ) (config : Config)
    (w w' : World) (l : AreLawful h) (distinct : AreDistinct h.setup)
    (c : IsConfigured h.setup collection config w) (k : IsHeld key owner collection since w)
    (period : config.freeze_period ≢ 0) (early : ¬ (frozen_until since config ≤ℤ now)) where
  unstake-refused :
      (t : AssetCall)
      (r : Ran h t w w' (λ a x y. (m : RewardsMint) × (unstake (host_at h now) a m x ≡ ok y)))
      → ¬ (r.asset ≡ k.asset)
  unstake-refused t r same =
      let (m, e) = r.ran in
      let (owned, u) = unstake-IsUnstaked (host_at h now) _ m _ r.left now l.performs refl e in
      let listed =
        some-inj (sym owned.in_collection ∙ ap (λ a. a.collection) same ∙ k.in_collection) in
      let (other, place, bump_is) = c.canonical t.config r.config r.config_at in
      let this = distinct other t.collection _ _ (sym place ∙ owned.configured) in
      let here : t.config ≡ h.setup.config_address collection (h.setup.config_bump collection) =
        cc (place, this, listed, bump_is) in
      let config_is : r.config ≡ config =
        some-inj (sym r.config_at ∙ ap w.configs here ∙ c.stored) in
      let s = staked_of h now since key owner collection w w' l r.asset k same in
      let read =
        ok-inj
          (sym u.read ∙ ap (scan false no_clocks) (some-inj (sym u.was ∙ s.written)) ∙ s.read) in
      elim u.elapsed.elapsed [
        | inl zero ↦ period (ap (λ z. z.freeze_period) (sym config_is) ∙ zero)
        | inr over ↦ early (
            subst (λ z. z ≤ℤ now)
              (ap (λ z. z +ℤ pos (r.config.freeze_period * seconds_per_day))
                  (ap (λ z. z.staked_at) read ∙ s.since_is)
                ∙ ap (λ z. frozen_until since z) config_is)
              over)
      ]

  execute-IsHeld :
      (t : Transaction) → execute h now t w ≡ ok w' → IsHeld key owner collection since w'
  unfolding execute create_collection mint_asset
  execute-IsHeld (initialize_tx a rewards_bps freeze_period) e =
      let (authority, _, e1) =
        ok_or-eq-ok (w.collections a.collection) account_not_initialized _ e in
      let i =
        initialize_program-IsInitialized h.setup _ rewards_bps freeze_period w w' l.records e1 in
      standing h now since key owner collection w w' l
        (λ asset at.
          ap (λ f. f key) i.assets
          ∙ l.keeps _ i.between.0 i.between.1 key asset i.made
              (l.keeps _ w i.between.0 key asset i.created at))
        k
  execute-IsHeld (create_collection_tx a name uri) e =
      standing h now since key owner collection w w' l
        (λ asset at. l.keeps _ w w' key asset (guard-eq-ok _ _ _ e).1 at) k
  execute-IsHeld (mint_asset_tx a name uri) e =
      let (_, _, e1) = ok_or-eq-ok (w.collections a.collection) account_not_initialized _ e in
      standing h now since key owner collection w w' l
        (λ asset at. l.keeps _ w w' key asset (guard-eq-ok _ _ _ e1).1 at) k
  execute-IsHeld (stake_tx t) e =
      let r = stake_asset-Ran h now t w w' e in
      ran_on h now since key owner collection w w' l t _ r k (λ same here. absurd (
        stake-refused h now since _ _ r.left
          (staked_of h now since key owner collection w w' l r.asset k same) r.ran))
  execute-IsHeld (claim_rewards_tx t) e =
      let r = with_rewards-Ran claim_rewards h now t w w' l e in
      ran_on h now since key owner collection w w' l t.on_asset _ r k (λ same here.
        claim-keeps h now since _ r.ran.0 _ r.left l r.ran.1
          (staked_of h now since key owner collection w w' l r.asset k same))
  execute-IsHeld (unstake_tx t) e =
      let r = with_rewards-Ran unstake h now t w w' l e in
      ran_on h now since key owner collection w w' l t.on_asset _ r k
        (λ same here. absurd (unstake-refused t.on_asset r same))

-- Every transaction comes before a time.
abbrev pub AreBefore : ℤ → List (ℤ × Transaction) → Type 0
AreBefore end [] = Unit {0}
AreBefore end (t ∷ ts) = ¬ (end ≤ℤ t.0) × AreBefore end ts

execute_all-IsHeld :
    (h : ProgramHost) (since : ℤ) (key owner collection : ℕ) (config : Config)
    (ts : List (ℤ × Transaction)) (w : World)
    → AreLawful h
    → AreDistinct h.setup
    → config.freeze_period ≢ 0
    → IsConfigured h.setup collection config w
    → IsHeld key owner collection since w
    → AreBefore (frozen_until since config) ts
    → IsHeld key owner collection since (execute_all h ts w)
unfolding execute_all
execute_all-IsHeld h since key owner collection config [] w l distinct period c k before = k
execute_all-IsHeld h since key owner collection config (t ∷ ts) w l distinct period c k before =
    elim (Result-cases (execute h t.0 t.1 w)) [
      | inl (w', e) ↦
          subst (λ x. IsHeld key owner collection since (execute_all h ts (settle w x))) (sym e)
            (execute_all-IsHeld h since key owner collection config ts w' l distinct period
              (execute-IsConfigured h t.0 t.1 collection config w w' l e c)
              (execute-IsHeld h t.0 since key owner collection config w w' l distinct c k period
                before.0 t.1 e)
              before.1)
      | inr (x, e) ↦
          subst (λ y. IsHeld key owner collection since (execute_all h ts (settle w y))) (sym e)
            (execute_all-IsHeld h since key owner collection config ts w l distinct period c k
              before.1)
    ]

stake_asset-IsHeld :
    (h : ProgramHost) (now : ℤ) (t : AssetCall) (w w' : World)
    → AreLawful h
    → i64_min ≤ℤ now
    → now ≤ℤ i64_max
    → stake_asset h now t w ≡ ok w'
    → IsHeld t.asset t.owner t.collection now w'
stake_asset-IsHeld h now t w w' l lo hi e =
    let r = stake_asset-Ran h now t w w' e in
    let (owned, s) = stake-IsStaked (host_at h now) _ _ r.left now l.performs refl lo hi r.ran in
    record {
      asset = record r.asset { attributes = r.left.attributes; frozen = r.left.frozen };
      asset_at = ap (λ f. f t.asset) r.assets ∙ write_at-same t.asset _ w.assets;
      owner_is = owned.by_owner;
      in_collection = owned.in_collection;
      is_staked = record {
        listed = _;
        written = s.written;
        clocks = _;
        read = s.clocks;
        staked = refl;
        since_is = refl;
      };
      frozen = s.frozen;
    }

-- After a stake at a time of 64 bits, an asset stays with its owner, staked since that time and
-- frozen, through every sequence of transactions of the program, failed ones included, whoever sends
-- them, that come before the end of the collection's freeze period, if that is not zero. A
-- configuration of the collection is written, every configuration stands at an address that a
-- collection derives, and no two collections derive the same one. Laws: AreLawful.
pub stays_frozen :
    (h : ProgramHost) (now : ℤ) (t : AssetCall) (config : Config) (ts : List (ℤ × Transaction))
    (w w' : World)
    → AreLawful h
    → AreDistinct h.setup
    → IsConfigured h.setup t.collection config w
    → config.freeze_period ≢ 0
    → i64_min ≤ℤ now
    → now ≤ℤ i64_max
    → execute h now (stake_tx t) w ≡ ok w'
    → AreBefore (frozen_until now config) ts
    → IsHeld t.asset t.owner t.collection now (execute_all h ts w')
unfolding execute
stays_frozen h now t config ts w w' l distinct c period lo hi e before =
    execute_all-IsHeld h now t.asset t.owner t.collection config ts w' l distinct period
      (execute-IsConfigured h now (stake_tx t) t.collection config w w' l e c)
      (stake_asset-IsHeld h now t w w' l lo hi e) before
