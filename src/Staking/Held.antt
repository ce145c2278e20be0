-- ===== src/Staking/Held.antt =====
-- A staked asset over the transactions that follow (lib.rs, instructions/stake.rs, unstake.rs and
-- claim_rewards.rs).
use q2_26_accel_v1c70ryg0d.Prelude.{
  ℕ, ◌≡◌, refl, sym, ap, subst, ◌∙◌, ◌==◌, ==_iff, Option, some, some-inj, true, false, true-false,
  Bool-cases, inl, inr, List, [], ok, ok-inj, through, via,
}
use q2_26_accel_v1c70ryg0d.Prelude.Int.{ℤ}
use q2_26_accel_v1c70ryg0d.Staking.{Attribute, Config, Chain, Accounts, RewardsMint, check_accounts}
use q2_26_accel_v1c70ryg0d.Staking.Setup.{Asset, World, write_at, SetupHost}
use q2_26_accel_v1c70ryg0d.Staking.Ready.{write_at-same, write_at-other}
use q2_26_accel_v1c70ryg0d.Staking.Attributes.{Clocks, no_clocks, scan, keep_unstaked}
use q2_26_accel_v1c70ryg0d.Staking.Attributes.Alike.{scan-AreAlike, scan-unstaked}
use q2_26_accel_v1c70ryg0d.Staking.Stake.{attributes_or_empty, stake}
use q2_26_accel_v1c70ryg0d.Staking.ClaimRewards.{claim_rewards}
use q2_26_accel_v1c70ryg0d.Staking.ClaimRewards.Effects.{claim_rewards-IsClaimed}
use q2_26_accel_v1c70ryg0d.Staking.Program.{ProgramHost, AssetCall, host_at, Transaction, execute}
use q2_26_accel_v1c70ryg0d.Staking.Ran.{AreLawful, Ran}
use q2_26_accel_v1c70ryg0d.Staking.Configs.{IsCanonical, execute-IsCanonical, execute-keeps}

-- A list of attributes that reads as staked since a time.
pub record IsStakedSince (attributes : Option (List Attribute)) (since : ℤ) : Type 0 where
  pub listed : List Attribute
  pub written : attributes ≡ some listed
  pub clocks : Clocks
  pub read : scan false no_clocks listed ≡ ok clocks
  pub staked : clocks.is_staked ≡ true
  pub since_is : clocks.staked_at ≡ since

-- The asset at an address is staked and frozen.
pub record IsHeld (key owner collection : ℕ) (since : ℤ) (w : World) : Type 0 where
  pub asset : Asset
  pub asset_at : w.assets key ≡ some asset
  pub owner_is : asset.owner ≡ owner
  pub in_collection : asset.collection ≡ some collection
  pub is_staked : IsStakedSince asset.attributes since
  pub frozen : asset.frozen ≡ some true

pub stake-refused :
    (h : ProgramHost) (now since : ℤ) (a : Accounts) (x y : Chain)
    → IsStakedSince x.attributes since
    → ¬ (stake (host_at h now) a x ≡ ok y)
unfolding stake
stake-refused h now since a x y s e = elim (through (check_accounts a) _ e) [
  | via _ _ e1 ↦ elim (through (keep_unstaked [] (attributes_or_empty x.attributes)) _ e1) [
    | via kept free _ ↦ true-false (
        sym s.staked
        ∙ scan-unstaked false s.listed no_clocks s.clocks [] kept refl
            (ap (λ o. keep_unstaked [] (attributes_or_empty o)) (sym s.written) ∙ free) s.read)
  ]
]

pub claim-keeps :
    (h : ProgramHost) (now since : ℤ) (a : Accounts) (m : RewardsMint) (x y : Chain)
    → AreLawful h
    → claim_rewards (host_at h now) a m x ≡ ok y
    → IsStakedSince x.attributes since
    → IsStakedSince y.attributes since × (y.frozen ≡ x.frozen)
claim-keeps h now since a m x y l e s =
    let (_, (c, days, claimable, outcome)) =
      claim_rewards-IsClaimed (host_at h now) a m x y now l.performs refl e in
    elim outcome [
      | inl (_, same) ↦
          (subst (λ z. IsStakedSince z.attributes since) (sym same) s, ap (λ z. z.frozen) same)
      | inr claimed ↦
          let (d, again, alike) =
            scan-AreAlike true false no_clocks no_clocks claimed.attributes _
              (record { staked = refl; since = refl }) claimed.reread in
          let (e', before, alike') =
            scan-AreAlike true false no_clocks no_clocks claimable.before c
              (record { staked = refl; since = refl }) claimable.read in
          let same_list = some-inj (sym claimable.was ∙ s.written) in
          let same_clocks = ok-inj (sym before ∙ ap (scan false no_clocks) same_list ∙ s.read) in
          (
            record {
              listed = claimed.attributes;
              written = claimed.written;
              clocks = d;
              read = again;
              staked = sym alike.staked ∙ claimable.staked;
              since_is =
                  sym alike.since ∙ alike'.since ∙ ap (λ z. z.staked_at) same_clocks ∙ s.since_is;
            },
            claimed.frozen,
          )
    ]

-- What the theorems below suppose of a world: a configuration of the collection is written.
pub record IsConfigured (h : SetupHost) (collection : ℕ) (config : Config) (w : World)
    : Type 0 where
  pub canonical : IsCanonical h w
  pub stored : w.configs (h.config_address collection (h.config_bump collection)) ≡ some config

pub execute-IsConfigured :
    (h : ProgramHost) (now : ℤ) (t : Transaction) (collection : ℕ) (config : Config) (w w' : World)
    → AreLawful h
    → execute h now t w ≡ ok w'
    → IsConfigured h.setup collection config w
    → IsConfigured h.setup collection config w'
execute-IsConfigured h now t collection config w w' l e c = record {
  canonical = execute-IsCanonical h now t w w' l e c.canonical;
  stored = execute-keeps h now t w w' _ config l e c.stored;
}

-- Two collections derive no common address.
abbrev pub AreDistinct : SetupHost → Type 0
AreDistinct h = (c d m n : ℕ) → h.config_address c m ≡ h.config_address d n → c ≡ d

module _ (h : ProgramHost) (now since : ℤ) (key owner collection : ℕ) (w w' : World)
    (l : AreLawful h) where
  pub standing :
      ((asset : Asset) → w.assets key ≡ some asset → w'.assets key ≡ some asset)
      → IsHeld key owner collection since w
      → IsHeld key owner collection since w'
  standing keeps k = record {
    asset = k.asset;
    asset_at = keeps k.asset k.asset_at;
    owner_is = k.owner_is;
    in_collection = k.in_collection;
    is_staked = k.is_staked;
    frozen = k.frozen;
  }

  -- A handler that ran on this asset or on another one.
  pub ran_on :
      (t : AssetCall) (R : Accounts → Chain → Chain → Type 0) (r : Ran h t w w' R)
      → (k : IsHeld key owner collection since w)
      → (r.asset ≡ k.asset
          → t.asset ≡ key
          → IsStakedSince r.left.attributes since × (r.left.frozen ≡ r.asset.frozen))
      → IsHeld key owner collection since w'
  ran_on t R r k step = elim (Bool-cases (key == t.asset)) [
    | inl here ↦
        let there = (==_iff key t.asset).0 here in
        let same = some-inj (sym r.asset_at ∙ ap w.assets (sym there) ∙ k.asset_at) in
        let (still, frozen) = step same (sym there) in
        record {
          asset = record r.asset { attributes = r.left.attributes; frozen = r.left.frozen };
          asset_at =
              ap (λ f. f key) r.assets
              ∙ ap (write_at t.asset _ w.assets) there
              ∙ write_at-same t.asset _ w.assets;
          owner_is = ap (λ a. a.owner) same ∙ k.owner_is;
          in_collection = ap (λ a. a.collection) same ∙ k.in_collection;
          is_staked = still;
          frozen = frozen ∙ ap (λ a. a.frozen) same ∙ k.frozen;
        }
    | inr other ↦
        standing
          (λ asset at. ap (λ f. f key) r.assets ∙ write_at-other t.asset key _ w.assets other ∙ at)
          k
  ]

  pub staked_of :
      (asset : Asset) (k : IsHeld key owner collection since w)
      → asset ≡ k.asset
      → IsStakedSince asset.attributes since
  staked_of asset k same = subst (λ a. IsStakedSince a.attributes since) (sym same) k.is_staked
