-- ===== src/ErState/Owner.antt =====
-- The account of a user who signs, and what requests and new accounts leave alone (the instructions
-- of the state account).
use q2_26_accel_v1c70ryg0d.Prelude.{
  ℕ, ◌≡◌, sym, ap, ◌∙◌, true, true-false, Bool-cases, inl, inr, ◌==◌, ==_iff, ok, ok-inj, through,
  via, guard-eq-ok,
}
use q2_26_accel_v1c70ryg0d.ErState.{
  UserAccount, init_space, Account, no_account, delegated_account, user_account, World, Host,
  user_of, create_account,
}
use q2_26_accel_v1c70ryg0d.ErState.Laws.{Performs}
use q2_26_accel_v1c70ryg0d.ErState.Handlers.{UserAccounts, is_free, load_own, initialize}
use q2_26_accel_v1c70ryg0d.ErState.Outside.{request_on, build_request_randomness_ix}

-- The user whose seeds derive the account has signed.
pub record IsSignedFor (h : Host) (a : UserAccounts) (k bump : ℕ) : Type 0 where
  pub signed : a.user_signed ≡ true
  pub derived : k ≡ h.user_address a.user bump

pub user_of_lem : (x : Account) (u : UserAccount) → user_of x ≡ ok u → x ≡ user_account u
user_of_lem (user_account v) u h = cc
user_of_lem no_account u h = cc
user_of_lem delegated_account u h = cc

pub user_inj : {u v : UserAccount} → user_account u ≡ user_account v → u ≡ v
user_inj h = cc

pub load_own_lem :
    (h : Host) (a : UserAccounts) (w : World) (u : UserAccount)
    → load_own h a w ≡ ok u
    → (w.accounts a.account ≡ user_account u) × IsSignedFor h a a.account u.bump
unfolding load_own
load_own_lem h a w u e =
    let (signed, e1) = guard-eq-ok a.user_signed _ _ e in
    elim (through (user_of (w.accounts a.account)) _ e1) [
      | via v load e2 ↦
          let (place, e3) = guard-eq-ok (a.account == h.user_address a.user v.bump) _ _ e2 in
          let same = ok-inj e3 in
          (
            user_of_lem _ v load ∙ ap user_account same,
            record {
              signed = signed;
              derived = (==_iff _ _).0 place ∙ ap (λ z. h.user_address a.user z.bump) same;
            },
          )
    ]

-- The signature for one's own account is one for the account at `k`.
pub moved :
    (h : Host) (a : UserAccounts) (k : ℕ) (u v : UserAccount)
    → IsSignedFor h a a.account v.bump
    → a.account ≡ k
    → v ≡ u
    → IsSignedFor h a k u.bump
moved h a k u v s e same = record {
  signed = s.signed;
  derived = sym e ∙ s.derived ∙ ap (λ z. h.user_address a.user z.bump) same;
}

pub request_on-Change :
    (h : Host) (queue : ℕ) (a : UserAccounts) (q seed k : ℕ) (u : UserAccount) (w w' : World)
    → Performs h
    → w.accounts k ≡ user_account u
    → request_on h queue a q seed w ≡ ok w'
    → w'.accounts k ≡ user_account u
unfolding request_on build_request_randomness_ix
request_on-Change h queue a q seed k u w w' performs before e =
    let (_, e1) = guard-eq-ok a.user_signed _ _ e in
    elim (through (user_of (w.accounts a.account)) _ e1) [
      | via v _ e2 ↦
          let (_, e3) = guard-eq-ok (a.account == h.user_address a.user v.bump) _ _ e2 in
          let (_, e4) = guard-eq-ok (v.user == a.user) _ _ e3 in
          let (_, e5) = guard-eq-ok (q == queue) _ _ e4 in
          ap (λ z. z.accounts k) (performs _ w w' e5) ∙ before
    ]

pub initialize-Change :
    (h : Host) (a : UserAccounts) (k : ℕ) (u : UserAccount) (w w' : World)
    → Performs h
    → w.accounts k ≡ user_account u
    → initialize h a w ≡ ok w'
    → w'.accounts k ≡ user_account u
unfolding initialize
initialize-Change h a k u w w' performs before e =
    let (_, e1) = guard-eq-ok a.user_signed _ _ e in
    let (_, e2) = guard-eq-ok (a.account == h.user_address a.user (h.user_bump a.user)) _ _ e1 in
    let (free, e3) = guard-eq-ok (is_free (w.accounts a.account)) _ _ e2 in
    elim (through (h.invoke (create_account a.user a.account init_space) w) _ e3) [
      | via w1 made e4 ↦
          let same = performs (create_account a.user a.account init_space) w w1 made in
          let after = ap (λ z. z.accounts k) (sym (ok-inj e4)) in
          elim (Bool-cases (a.account == k)) [
            | inl here ↦
                let e = (==_iff a.account k).0 here in
                absurd (true-false (sym free ∙ ap is_free (ap w.accounts e ∙ before)))
            | inr away ↦ after ∙ rw away (ap (λ z. z.accounts k) same ∙ before)
          ]
    ]
