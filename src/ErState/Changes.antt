-- ===== src/ErState/Changes.antt =====
-- Who may change a user's state account, and how (the instructions of the state account).
use q2_26_accel_v1c70ryg0d.Prelude.{
  ℕ, ◌+◌, ◌≡◌, refl, sym, ap, ◌∙◌, min, true, Bool-cases, inl, inr, take, ◌==◌, ==_iff, ok_or-eq-ok,
  ok, ok-inj, through, via, guard-eq-ok, [], ◌∷◌,
}
use q2_26_accel_v1c70ryg0d.Prelude.Words.{Bytes, u64_max, from_le_bytes}
use q2_26_accel_v1c70ryg0d.ErState.{
  UserAccount, Account, no_account, delegated_account, user_account, World, Host, user_of, write,
  commit_accounts, commit_and_undelegate_accounts, delegate_account,
}
use q2_26_accel_v1c70ryg0d.ErState.Laws.{Performs}
use q2_26_accel_v1c70ryg0d.ErState.Handlers.{
  UserAccounts, load_own, update, update_commit, close, ConsumeAccounts, consume_random_update,
  scheduled_update,
}
use q2_26_accel_v1c70ryg0d.ErState.Outside.{
  delegate, undelegate, request_on, build_request_randomness_ix, request_random_update,
  request_random_update_er, update_instruction, schedule_tuktuk_update,
}
use q2_26_accel_v1c70ryg0d.ErState.Program.{
  Transaction, initialize_tx, update_tx, update_commit_tx, request_random_update_tx,
  request_random_update_er_tx, consume_random_update_tx, scheduled_update_tx,
  schedule_tuktuk_update_tx, delegate_tx, undelegate_tx, close_tx, execute,
}
use q2_26_accel_v1c70ryg0d.ErState.Owner.{
  IsSignedFor, user_of_lem, user_inj, load_own_lem, moved, request_on-Change, initialize-Change,
}

-- What a transaction may make of the account `u` at `k`.
pub data Change (h : Host) (k : ℕ) (u : UserAccount) (x : Account) : Transaction → Type 0 where
  kept : {t : Transaction} → x ≡ user_account u → Change h k u x t
  updated :
      (a : UserAccounts) (new_data : ℕ)
      → IsSignedFor h a k u.bump
      → x ≡ user_account (record u { user_data = new_data })
      → Change h k u x (update_tx a new_data)
  update_committed :
      (a : UserAccounts) (new_data : ℕ)
      → IsSignedFor h a k u.bump
      → x ≡ user_account (record u { user_data = new_data })
      → Change h k u x (update_commit_tx a new_data)
  randomised :
      (a : ConsumeAccounts) (randomness : Bytes)
      → (a.identity_signed ≡ true) × (a.vrf_program_identity ≡ h.vrf_program_identity)
      → x ≡ user_account (record u { user_data = from_le_bytes (take 8 randomness) })
      → Change h k u x (consume_random_update_tx a randomness)
  cranked :
      (account : ℕ)
      → x ≡ user_account (record u { user_data = min (u.user_data + 1) u64_max })
      → Change h k u x (scheduled_update_tx account)
  closed :
      (a : UserAccounts) → IsSignedFor h a k u.bump → x ≡ no_account → Change h k u x (close_tx a)
  delegated :
      (a : UserAccounts) (validator : ℕ)
      → IsSignedFor h a k u.bump
      → x ≡ delegated_account
      → Change h k u x (delegate_tx a validator)
  undelegated :
      (a : UserAccounts)
      → IsSignedFor h a k u.bump
      → x ≡ delegated_account
      → Change h k u x (undelegate_tx a)

-- A write at `j` is a change of the account at `k` if it is the same account.
module _ (h : Host) (t : Transaction) (k : ℕ) (u : UserAccount) (w w' : World)
    (before : w.accounts k ≡ user_account u) where
  written-Change :
      (j : ℕ) (v : UserAccount) (x : Account)
      → w.accounts j ≡ user_account v
      → w'.accounts ≡ (write j x w).accounts
      → (j ≡ k → v ≡ u → w'.accounts k ≡ x → Change h k u (w'.accounts k) t)
      → Change h k u (w'.accounts k) t
  written-Change j v x stored after change = elim (Bool-cases (j == k)) [
    | inl here ↦
        let e = (==_iff j k).0 here in
        change e (user_inj (sym stored ∙ ap w.accounts e ∙ before))
          (ap (λ f. f k) after ∙ rw here refl)
    | inr away ↦ kept (ap (λ f. f k) after ∙ rw away before)
  ]

  unwritten-Change : w'.accounts ≡ w.accounts → Change h k u (w'.accounts k) t
  unwritten-Change after = kept (ap (λ f. f k) after ∙ before)

-- A transaction that succeeds leaves a user's account as it is, or writes its data: what the user
-- signs for, the first eight bytes of the randomness that the oracle's identity signs, or one more,
-- at most the largest word of 64 bits, which anybody may ask for. It is closed, or handed over to
-- the delegation program, only by its user. The user and the bump never change. Laws: Performs.
pub execute-Change :
    (h : Host) (t : Transaction) (k : ℕ) (u : UserAccount) (w w' : World)
    → Performs h
    → w.accounts k ≡ user_account u
    → execute h t w ≡ ok w'
    → Change h k u (w'.accounts k) t
unfolding execute update update_commit close consume_random_update scheduled_update delegate
    undelegate request_random_update request_random_update_er request_on schedule_tuktuk_update
    build_request_randomness_ix
execute-Change h (initialize_tx a) k u w w' performs before e =
    kept (initialize-Change h a k u w w' performs before e)
execute-Change h (update_tx a d) k u w w' performs before e = elim (through (load_own h a w) _ e) [
  | via v load e1 ↦
      let (stored, s) = load_own_lem h a w v load in
      written-Change h (update_tx a d) k u w w' before a.account v _ stored
        (ap (λ z. z.accounts) (sym (ok-inj e1)))
        λ here same x.
          updated a d (moved h a k u v s here same)
            (x ∙ ap (λ z. user_account (record z { user_data = d })) same)
]
execute-Change h (update_commit_tx a d) k u w w' performs before e =
    elim (through (load_own h a w) _ e) [
      | via v load e1 ↦
          let (stored, s) = load_own_lem h a w v load in
          elim (through (h.invoke (commit_accounts a.user a.account) w) _ e1) [
            | via w1 sent e2 ↦
                let same = performs (commit_accounts a.user a.account) w w1 sent in
                written-Change h (update_commit_tx a d) k u w w' before a.account v _ stored
                  (ap (λ z. z.accounts) (sym (ok-inj e2))
                    ∙ ap
                        (λ z.
                          (write a.account (user_account (record v { user_data = d })) z).accounts)
                        same)
                  λ here same' x.
                    update_committed a d (moved h a k u v s here same')
                      (x ∙ ap (λ z. user_account (record z { user_data = d })) same')
          ]
    ]
execute-Change h (request_random_update_tx a q s) k u w w' performs before e =
    kept (request_on-Change h h.default_queue a q s k u w w' performs before e)
execute-Change h (request_random_update_er_tx a q s) k u w w' performs before e =
    kept (request_on-Change h h.default_ephemeral_queue a q s k u w w' performs before e)
execute-Change h (consume_random_update_tx a r) k u w w' performs before e =
    let (signed, e1) = guard-eq-ok a.identity_signed _ _ e in
    elim (through (user_of (w.accounts a.account)) _ e1) [
      | via v load e2 ↦
          let (key, e3) = guard-eq-ok (a.vrf_program_identity == h.vrf_program_identity) _ _ e2 in
          written-Change h (consume_random_update_tx a r) k u w w' before a.account v _
            (user_of_lem _ v load) (ap (λ z. z.accounts) (sym (ok-inj e3)))
            λ here same x.
              randomised a r (signed, (==_iff _ _).0 key)
                (x
                  ∙ ap (λ z. user_account (record z { user_data = from_le_bytes (take 8 r) })) same)
    ]
execute-Change h (scheduled_update_tx j) k u w w' performs before e =
    elim (through (user_of (w.accounts j)) _ e) [
      | via v load e1 ↦
          let (_, e2) = guard-eq-ok (j == h.user_address v.user v.bump) _ _ e1 in
          written-Change h (scheduled_update_tx j) k u w w' before j v _ (user_of_lem _ v load)
            (ap (λ z. z.accounts) (sym (ok-inj e2)))
            λ here same x. cranked j (
              x
              ∙ ap (λ z. user_account (record z { user_data = min (z.user_data + 1) u64_max }))
                  same)
    ]
execute-Change h (schedule_tuktuk_update_tx a id) k u w w' performs before e =
    let (_, e1) = guard-eq-ok a.payer_signed _ _ e in
    elim (through (user_of (w.accounts a.account)) _ e1) [
      | via v _ e2 ↦
          let (_, e3) = guard-eq-ok (a.account == h.user_address v.user v.bump) _ _ e2 in
          let (_, e4) =
            guard-eq-ok (a.queue_authority == h.queue_authority_address h.queue_authority_bump) _ _
              e3 in
          let (tx, _, e5) =
            ok_or-eq-ok (h.compile_transaction (update_instruction h a.account ∷ [])) _ _ e4 in
          unwritten-Change h (schedule_tuktuk_update_tx a id) k u w w' before
            (ap (λ z. z.accounts) (performs _ w w' e5))
    ]
execute-Change h (delegate_tx a validator) k u w w' performs before e =
    elim (through (load_own h a w) _ e) [
      | via v load e1 ↦
          let (stored, s) = load_own_lem h a w v load in
          let same = performs (delegate_account a.user a.account validator a.user) w w' e1 in
          written-Change h (delegate_tx a validator) k u w w' before a.account v _ stored
            (ap (λ z. z.accounts) same)
            λ here same' x. delegated a validator (moved h a k u v s here same') x
    ]
execute-Change h (undelegate_tx a) k u w w' performs before e =
    elim (through (load_own h a w) _ e) [
      | via v load e1 ↦
          let (stored, s) = load_own_lem h a w v load in
          let same = performs (commit_and_undelegate_accounts a.user a.account) w w' e1 in
          written-Change h (undelegate_tx a) k u w w' before a.account v _ stored
            (ap (λ z. z.accounts) same)
            λ here same' x. undelegated a (moved h a k u v s here same') x
    ]
execute-Change h (close_tx a) k u w w' performs before e = elim (through (load_own h a w) _ e) [
  | via v load e1 ↦
      let (stored, s) = load_own_lem h a w v load in
      written-Change h (close_tx a) k u w w' before a.account v _ stored
        (ap (λ z. z.accounts) (sym (ok-inj e1)))
        λ here same x. closed a (moved h a k u v s here same) x
]
