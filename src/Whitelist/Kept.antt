-- ===== src/Whitelist/Kept.antt =====
-- What every transaction of the whitelist program keeps (lib.rs).
use q2_26_accel_v1c70ryg0d.Prelude.{
  is_some, ℕ, ◌≤◌, ◌≡◌, refl, sym, ap, subst, ◌∙◌, none, some, some-inj, List, [], ◌∷◌, Result, ok,
  ok-inj, err, Result-cases, inl, inr, through, via, guard-eq-ok, reject_if-eq-ok, ◌==◌, arith,
}
use q2_26_accel_v1c70ryg0d.Whitelist.{
  Vault, VaultError, vault_len, serialized_len, AdminAccounts, check_admin, add_to_whitelist,
  remove_from_whitelist, transfer_hook, initialize_vault,
}
use q2_26_accel_v1c70ryg0d.Whitelist.Entries.{IsValid}
use q2_26_accel_v1c70ryg0d.Whitelist.Map.{upsert-allowance, remove-allowance}
use q2_26_accel_v1c70ryg0d.Whitelist.Hook.{admin_only}
use q2_26_accel_v1c70ryg0d.Whitelist.Setup.{
  World, Host, Call, SetupAccounts, set_up, bumps_of, open_accounts, unwrap,
  initialize_transfer_hook, load_vault,
}
use q2_26_accel_v1c70ryg0d.Whitelist.Ready.{Records, mint_tokens-IsMinted}
use q2_26_accel_v1c70ryg0d.Whitelist.Program.{
  Transaction, initialize_vault_tx, add_to_whitelist_tx, remove_from_whitelist_tx, mint_tokens_tx,
  initialize_transfer_hook_tx, transfer_hook_tx, store_vault, execute, settle, execute_all,
}

-- A vault of an admin that is well formed.
pub record IsKept (admin mint token_account : ℕ) (w : World) : Type 0 where
  pub vault : Vault
  pub stored : w.vault ≡ some vault
  pub valid : IsValid vault
  pub named :
      (vault.admin ≡ admin) × (vault.mint ≡ mint) × (vault.vault_token_account ≡ token_account)

set_up-free : (h : Host) (a : SetupAccounts) (w w' : World) → set_up h a w ≡ ok w' → w.vault ≡ none
unfolding set_up open_accounts
set_up-free h a w w' e = elim (through (open_accounts h a w) _ e) [
  | via w1 opened _ ↦
      let (_, e1) = guard-eq-ok (a.vault == h.vault_address h.vault_bump) _ _ opened in
      let (free, _) = reject_if-eq-ok (is_some w.vault) _ _ e1 in ground (arith, free)
]

load_vault_lem : (w : World) (v : Vault) → load_vault w ≡ ok v → w.vault ≡ some v
load_vault_lem w v e = ground arith

unwrap-eq-ok {ℓ} : {A : Type ℓ} (r : Result VaultError A) {a : A} → unwrap r ≡ ok a → r ≡ ok a
unwrap-eq-ok (ok b) e = e
unwrap-eq-ok (err x) e = cc

module _ (h : Host) (admin mint token_account : ℕ) (w w' : World) (records : Records h)
    (k : IsKept admin mint token_account w) where
  loaded : (v : Vault) → load_vault w ≡ ok v → k.vault ≡ v
  loaded v e = some-inj (sym k.stored ∙ load_vault_lem w v e)

  recorded :
      (c : Call) (v v' : World) → v.vault ≡ w.vault → h.invoke c v ≡ ok v' → v'.vault ≡ w.vault
  recorded c v v' same e = ap (λ z. z.vault) (records c v v' e) ∙ same

  untouched : w'.vault ≡ w.vault → IsKept admin mint token_account w'
  untouched same = record {
    vault = k.vault;
    stored = same ∙ k.stored;
    valid = k.valid;
    named = k.named;
  }

  added :
      (a : AdminAccounts) (user amount : ℕ) (v v' : Vault)
      → k.vault ≡ v
      → add_to_whitelist a v user amount ≡ ok v'
      → w' ≡ store_vault w v'
      → IsKept admin mint token_account w'
  unfolding add_to_whitelist
  added a user amount v v' same e left = elim (through (check_admin a v) _ e) [
    | via _ _ changed ↦
        let (_, same_admin, same_mint, same_account) = admin_only a v v' user amount (inl e) in
        record {
          vault = v';
          stored = ap (λ z. z.vault) left;
          valid = (upsert-allowance v v' user amount (subst IsValid same k.valid) changed).0;
          named = ground (arith, k.named, same, same_admin, same_mint, same_account);
        }
  ]

  removed :
      (a : AdminAccounts) (user : ℕ) (v v' : Vault)
      → k.vault ≡ v
      → remove_from_whitelist a v user ≡ ok v'
      → w' ≡ store_vault w v'
      → IsKept admin mint token_account w'
  unfolding remove_from_whitelist
  removed a user v v' same e left = elim (through (check_admin a v) _ e) [
    | via _ _ changed ↦
        let (_, same_admin, same_mint, same_account) = admin_only a v v' user 0 (inr e) in
        record {
          vault = v';
          stored = ap (λ z. z.vault) left;
          valid = (remove-allowance v v' user (subst IsValid same k.valid) changed).0;
          named = ground (arith, k.named, same, same_admin, same_mint, same_account);
        }
  ]

  execute-IsKept : (t : Transaction) → execute h t w ≡ ok w' → IsKept admin mint token_account w'
  unfolding execute initialize_transfer_hook
  execute-IsKept (initialize_vault_tx a) e = cc (k.stored, set_up-free h a w w' e)
  execute-IsKept (add_to_whitelist_tx a user amount) e = elim (through (load_vault w) _ e) [
    | via v load e1 ↦ elim (through (add_to_whitelist a v user amount) _ e1) [
      | via v' done e2 ↦ added a user amount v v' (loaded v load) done (sym (ok-inj e2))
    ]
  ]
  execute-IsKept (remove_from_whitelist_tx a user) e = elim (through (load_vault w) _ e) [
    | via v load e1 ↦ elim (through (remove_from_whitelist a v user) _ e1) [
      | via v' done e2 ↦ removed a user v v' (loaded v load) done (sym (ok-inj e2))
    ]
  ]
  execute-IsKept (mint_tokens_tx a amount) e =
      untouched (mint_tokens-IsMinted h a amount w w' records e).kept
  execute-IsKept (initialize_transfer_hook_tx a) e =
      let (_, e1) =
        guard-eq-ok
          (a.extra_account_meta_list == h.meta_list_address a.mint (h.meta_list_bump a.mint)) _ _
          e in
      elim (through (h.invoke _ w) _ e1) [
        | via w1 made filled ↦
            untouched
              (recorded _ w1 w' (recorded _ w w1 refl made) (unwrap-eq-ok (h.invoke _ w1) filled))
      ]
  execute-IsKept (transfer_hook_tx a amount) e = elim (through (load_vault w) _ e) [
    | via v load e1 ↦ elim (through (transfer_hook a v amount) _ e1) [
      | via _ _ e2 ↦ untouched (ap (λ z. z.vault) (sym (ok-inj e2)))
    ]
  ]

execute_all-IsKept :
    (h : Host) (admin mint token_account : ℕ) (ts : List Transaction) (w : World)
    → Records h
    → IsKept admin mint token_account w
    → IsKept admin mint token_account (execute_all h ts w)
unfolding execute_all
execute_all-IsKept h admin mint token_account [] w records k = k
execute_all-IsKept h admin mint token_account (t ∷ ts) w records k =
    elim (Result-cases (execute h t w)) [
      | inl (w', e) ↦
          subst (λ x. IsKept admin mint token_account (execute_all h ts (settle w x))) (sym e)
            (execute_all-IsKept h admin mint token_account ts w' records
              (execute-IsKept h admin mint token_account w w' records k t e))
      | inr (x, e) ↦
          subst (λ y. IsKept admin mint token_account (execute_all h ts (settle w y))) (sym e)
            (execute_all-IsKept h admin mint token_account ts w records k)
    ]

-- After a successful `initialize_vault` and any sequence of transactions of the program, failed ones
-- included, whoever sends them, no user is listed twice, at most 16 are listed, so that the vault
-- fits its account, and the admin, the mint and the vault's token account are those of the
-- set-up. Laws: Records.
pub whitelist-IsKept :
    (h : Host) (a : SetupAccounts) (ts : List Transaction) (w w' : World)
    → Records h
    → set_up h a w ≡ ok w'
    → (v : Vault) × ((execute_all h ts w').vault ≡ some v)
      × IsValid v
      × (serialized_len v ≤ vault_len)
      × (v.admin ≡ a.admin)
      × (v.mint ≡ a.mint)
      × (v.vault_token_account ≡ a.vault_token_account)
unfolding set_up initialize_vault
whitelist-IsKept h a ts w w' records e = elim (through (open_accounts h a w) _ e) [
  | via w1 _ e1 ↦ elim (through (h.invoke _ w1) _ e1) [
    | via w2 _ e2 ↦
        let start : IsKept a.admin a.mint a.vault_token_account w' = record {
          vault = initialize_vault a.admin a.mint a.vault_token_account (bumps_of h a);
          stored = ap (λ z. z.vault) (sym (ok-inj e2));
          valid = record { distinct = tt; bounded = omega arith };
          named = (refl, refl, refl);
        } in
        let k = execute_all-IsKept h a.admin a.mint a.vault_token_account ts w' records start in
        (
          k.vault,
          k.stored,
          k.valid,
          omega (arith, k.valid.bounded),
          k.named.0,
          k.named.1,
          k.named.2,
        )
  ]
]
