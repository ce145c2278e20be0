-- ===== src/Whitelist/Map.antt =====
-- The vault's operations (`Vault` of state.rs) as operations on a map of allowances.
use q2_26_accel_v1c70ryg0d.Prelude.{
  ℕ, ◌+◌, ◌≤◌, ◌<◌, ◌≡◌, ◌↔◌, inl, inr, none, some, List, [], ◌∷◌, length, length-append, ◌==◌,
  if◌then◌else◌, Result, ok, err, arith, Option-cases, Result-cases,
}
use q2_26_accel_v1c70ryg0d.Whitelist.{
  Vault, VaultError, find, update_first, remove_first, assert_allowed, upsert_whitelist_entry,
  remove_whitelist_entry, AdminAccounts, add_to_whitelist, remove_from_whitelist,
}
use q2_26_accel_v1c70ryg0d.Whitelist.Entries.{
  allowance, IsValid, update_first-allowance, update_first-length, update_first-missing,
  update_first-AreDistinct, append-allowance, append-AreDistinct, remove_first-allowance,
  remove_first-length, remove_first-AreDistinct,
}

-- Inserting or changing an entry keeps the vault valid, gives that user exactly the amount, and
-- changes no other user's allowance.
pub upsert-allowance :
    (v w : Vault) (user amount : ℕ)
    → IsValid v
    → upsert_whitelist_entry v user amount ≡ ok w
    → IsValid w
      × ((k : ℕ)
          → allowance k w.whitelist ≡ (if user == k then some amount else allowance k v.whitelist))
unfolding upsert_whitelist_entry
upsert-allowance v w user amount valid h =
    elim (Option-cases (update_first user amount v.whitelist)) [
      | inl miss ↦
          let gone = update_first-missing user amount v.whitelist miss in
          (
            ground (
              arith,
              append-AreDistinct user amount v.whitelist,
              length-append v.whitelist (record { user = user; amount = amount } ∷ []),
            ),
            λ k. ground (arith, append-allowance user amount k v.whitelist gone),
          )
      | inr (es, hit) ↦ (
        ground (
          arith,
          update_first-AreDistinct user amount v.whitelist {es' = es},
          update_first-length user amount v.whitelist hit,
        ),
        λ k. ground (arith, update_first-allowance user amount v.whitelist hit k),
      )
    ]

-- Removing an entry keeps the vault valid, takes the user's allowance away for good, leaves
-- every other allowance, and frees one place.
pub remove-allowance :
    (v w : Vault) (user : ℕ)
    → IsValid v
    → remove_whitelist_entry v user ≡ ok w
    → IsValid w
      × (length v.whitelist ≡ length w.whitelist + 1)
      × ((k : ℕ) → allowance k w.whitelist ≡ (if user == k then none else allowance k v.whitelist))
unfolding remove_whitelist_entry
remove-allowance v w user valid h = elim (Option-cases (remove_first user v.whitelist)) [
  | inl miss ↦ absurd (ground arith)
  | inr (es, hit) ↦
      let size = remove_first-length user v.whitelist hit in
      (
        ground (arith, remove_first-AreDistinct user v.whitelist {es' = es}),
        ground arith,
        λ k. ground (arith, remove_first-allowance user v.whitelist valid.distinct hit k),
      )
]

-- A transfer of an amount is allowed exactly when the amount is positive and at most the user's
-- allowance.
pub assert_allowed_iff :
    (v : Vault) (user amount : ℕ)
    → (assert_allowed v user amount ≡ ok tt)
      ↔ ((a : ℕ) × (allowance user v.whitelist ≡ some a) × (0 < amount) × (amount ≤ a))
unfolding assert_allowed
assert_allowed_iff v user amount = elim (Option-cases (find user v.whitelist)) [
  | inl miss ↦ ((λ h. absurd (ground arith)), λ (a, e, p, q). ground arith)
  | inr (entry, hit) ↦ (
    (λ h. (entry.amount, ground arith, ground arith, ground arith)),
    λ (a, e, p, q). ground arith,
  )
]

-- A call of the admin's two instructions.
pub data AdminCall : Type 0 where
  adds : ℕ → ℕ → AdminCall
  removes : ℕ → AdminCall

-- A call that fails is rolled back by the runtime.
abbrev after : Vault → Result VaultError Vault → Vault
after v (ok w) = w
after v (err e) = v

pub run : AdminAccounts → Vault → List AdminCall → Vault
run a v [] = v
run a v (adds user amount ∷ cs) = run a (after v (add_to_whitelist a v user amount)) cs
run a v (removes user ∷ cs) = run a (after v (remove_from_whitelist a v user)) cs

pub add-IsValid :
    (a : AdminAccounts) (v : Vault) (user amount : ℕ)
    → IsValid v
    → IsValid (after v (add_to_whitelist a v user amount))
unfolding add_to_whitelist
add-IsValid a v user amount valid = elim (Result-cases (upsert_whitelist_entry v user amount)) [
  | inl (w, e) ↦ ground (arith, (upsert-allowance v w user amount valid e).0)
  | inr (e, h) ↦ ground arith
]

pub remove-IsValid :
    (a : AdminAccounts) (v : Vault) (user : ℕ)
    → IsValid v
    → IsValid (after v (remove_from_whitelist a v user))
unfolding remove_from_whitelist
remove-IsValid a v user valid = elim (Result-cases (remove_whitelist_entry v user)) [
  | inl (w, e) ↦ ground (arith, (remove-allowance v w user valid e).0)
  | inr (e, h) ↦ ground arith
]
