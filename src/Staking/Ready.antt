-- ===== src/Staking/Ready.antt =====
-- What `initialize` establishes for the instructions that follow (instructions/initialize.rs).
use q2_26_accel_v1c70ryg0d.Prelude.{
  is_some, ℕ, ◌≡◌, refl, sym, ap, ◌∙◌, some, ◌∷◌, ◌==◌, ==_iff, ==_refl, ok, ok-inj, through, via,
  guard-eq-ok, reject_if-eq-ok, Option, if◌then◌else◌, none, false, true-false,
}
use q2_26_accel_v1c70ryg0d.Staking.{Config, initialize}
use q2_26_accel_v1c70ryg0d.Staking.Setup.{
  create_account, create_mint, World, write_at, SetupHost, InitializeAccounts, config_space,
  initialize_program, RecordsSetup,
}

pub record IsInitialized (h : SetupHost) (a : InitializeAccounts) (rewards_bps freeze_period : ℕ)
    (w w' : World) : Type 0 where
  pub config : Config
  pub written : w'.configs a.config ≡ some config
  pub free : w.configs a.config ≡ none
  pub stored : w'.configs ≡ write_at a.config config w.configs
  pub bump_is : config.bump ≡ h.config_bump a.collection
  pub between : World × World
  pub created : h.invoke (create_account a.admin a.config config_space) w ≡ ok between.0
  pub made : h.invoke (create_mint a.admin a.rewards_mint 6 a.config) between.0 ≡ ok between.1
  pub assets : w'.assets ≡ between.1.assets
  pub terms : (config.rewards_bps ≡ rewards_bps) × (config.freeze_period ≡ freeze_period)
  pub called :
      w'.sent
      ≡ create_mint a.admin a.rewards_mint 6 a.config
        ∷ create_account a.admin a.config config_space
        ∷ w.sent
  pub config_at : a.config ≡ h.config_address a.collection config.bump
  pub mint_at : a.rewards_mint ≡ h.rewards_mint_address a.config config.rewards_bump
  pub authority :
      (a.collection_authority ≡ a.update_authority)
      × (a.update_authority ≡ h.authority_address a.collection)

pub write_at-same {ℓ} : {A : Type ℓ} (k : ℕ) (a : A) (f : ℕ → Option A) → write_at k a f k ≡ some a
write_at-same k a f = ap (λ b. if b then some a else f k) (==_refl k)

pub write_at-other {ℓ} :
    {A : Type ℓ} (k n : ℕ) (a : A) (f : ℕ → Option A) → (n == k) ≡ false → write_at k a f n ≡ f n
write_at-other k n a f h = ap (λ b. if b then some a else f n) h

unwritten {ℓ} : {A : Type ℓ} (o : Option A) → is_some o ≡ false → o ≡ none
unwritten none h = refl
unwritten (some a) h = absurd (true-false h)

pub initialize_program-IsInitialized :
    (h : SetupHost) (a : InitializeAccounts) (rewards_bps freeze_period : ℕ) (w w' : World)
    → RecordsSetup h
    → initialize_program h a rewards_bps freeze_period w ≡ ok w'
    → IsInitialized h a rewards_bps freeze_period w w'
unfolding initialize_program initialize
initialize_program-IsInitialized h a rewards_bps freeze_period w w' records e =
    let (place, e1) =
      guard-eq-ok (a.config == h.config_address a.collection (h.config_bump a.collection)) _ _ e in
    let (no_config, e1') = reject_if-eq-ok (is_some (w.configs a.config)) _ _ e1 in
    elim (through (h.invoke _ w) _ e1') [
      | via w1 c1 e2 ↦
          let (mint, e3) =
            guard-eq-ok
              (a.rewards_mint == h.rewards_mint_address a.config (h.rewards_mint_bump a.config)) _ _
              e2 in
          elim (through (h.invoke _ w1) _ e3) [
            | via w2 c2 e4 ↦
                let (managed, e5) =
                  guard-eq-ok (a.collection_authority == a.update_authority) _ _ e4 in
                let (seeds, e6) =
                  guard-eq-ok (a.update_authority == h.authority_address a.collection) _ _ e5 in
                let done = sym (ok-inj e6) in
                record {
                  config =
                      initialize rewards_bps freeze_period (h.rewards_mint_bump a.config)
                        (h.config_bump a.collection);
                  written = ap (λ z. z.configs a.config) done ∙ write_at-same a.config _ w2.configs;
                  free = unwritten (w.configs a.config) no_config;
                  stored =
                      ap (λ z. z.configs) done
                      ∙ ap (write_at a.config _) ((records _ w1 w2 c2).0 ∙ (records _ w w1 c1).0);
                  bump_is = refl;
                  between = (w1, w2);
                  created = c1;
                  made = c2;
                  assets = ap (λ z. z.assets) done;
                  terms = (refl, refl);
                  called =
                      ap (λ z. z.sent) done
                      ∙ (records _ w1 w2 c2).1
                      ∙ ap (λ l. create_mint a.admin a.rewards_mint 6 a.config ∷ l)
                          (records _ w w1 c1).1;
                  config_at = (==_iff _ _).0 place;
                  mint_at = (==_iff _ _).0 mint;
                  authority = ((==_iff _ _).0 managed, (==_iff _ _).0 seeds);
                }
          ]
    ]
