-- ===== src/Whitelist/Entries.antt =====
-- The whitelist as a map from users to allowances: `Vault` of state.rs.
use q2_26_accel_v1c70ryg0d.Prelude.{
  ℕ, ◌+◌, ◌≤◌, ◌<◌, ◌≡◌, refl, inl, inr, Option, none, some, List, [], ◌∷◌, ◌++◌, length, ◌==◌,
  if◌then◌else◌, arith, Option-cases,
}
use q2_26_accel_v1c70ryg0d.Whitelist.{
  WhitelistEntry, Vault, max_whitelist_entries, find, update_first, remove_first,
}

abbrev pub allowance : ℕ → List WhitelistEntry → Option ℕ
allowance user es = elim (find user es) [ none ↦ none | some e ↦ some e.amount ]

-- No user twice, and every allowance positive.
abbrev pub AreDistinct : List WhitelistEntry → Type 0
AreDistinct [] = Unit {0}
AreDistinct (e ∷ es) = (find e.user es ≡ none) × (0 < e.amount) × AreDistinct es

pub record IsValid (v : Vault) : Type 0 where
  pub distinct : AreDistinct v.whitelist
  pub bounded : length v.whitelist ≤ max_whitelist_entries

pub update_first-allowance :
    (user amount : ℕ) (es : List WhitelistEntry) {es' : List WhitelistEntry}
    → update_first user amount es ≡ some es'
    → (k : ℕ) → allowance k es' ≡ (if user == k then some amount else allowance k es)
unfolding update_first find
update_first-allowance user amount [] h k = cc
update_first-allowance user amount (e ∷ es) h k =
    elim (Option-cases (update_first user amount es)) [
      | inl miss ↦ ground arith
      | inr (rest, hit) ↦ ground (arith, update_first-allowance user amount es hit k)
    ]

pub update_first-length :
    (user amount : ℕ) (es : List WhitelistEntry) {es' : List WhitelistEntry}
    → update_first user amount es ≡ some es'
    → length es' ≡ length es
unfolding update_first
update_first-length user amount [] h = cc
update_first-length user amount (e ∷ es) h = elim (Option-cases (update_first user amount es)) [
  | inl miss ↦ ground arith
  | inr (rest, hit) ↦ ground (arith, update_first-length user amount es hit)
]

pub update_first-missing :
    (user amount : ℕ) (es : List WhitelistEntry)
    → update_first user amount es ≡ none
    → find user es ≡ none
unfolding update_first find
update_first-missing user amount [] h = refl
update_first-missing user amount (e ∷ es) h = ground (arith, update_first-missing user amount es)

pub append-allowance :
    (user amount k : ℕ) (es : List WhitelistEntry)
    → find user es ≡ none
    → allowance k (es ++ record { user = user; amount = amount } ∷ [])
      ≡ (if user == k then some amount else allowance k es)
unfolding find
append-allowance user amount k [] h = ground arith
append-allowance user amount k (e ∷ es) h = ground (arith, append-allowance user amount k es)

-- A user is missing where there is no allowance.
pub find-none : (k : ℕ) (es : List WhitelistEntry) → allowance k es ≡ none → find k es ≡ none
find-none k es h = ground arith

pub update_first-AreDistinct :
    (user amount : ℕ) (es : List WhitelistEntry) {es' : List WhitelistEntry}
    → 0 < amount
    → update_first user amount es ≡ some es'
    → AreDistinct es
    → AreDistinct es'
unfolding update_first
update_first-AreDistinct user amount [] p h d = cc
update_first-AreDistinct user amount (e ∷ es) p h d =
    elim (Option-cases (update_first user amount es)) [
      | inl miss ↦ ground arith
      | inr (rest, hit) ↦ ground (
        arith,
        update_first-AreDistinct user amount es p hit d.2,
        update_first-allowance user amount es hit e.user,
        find-none e.user rest,
      )
    ]

pub append-AreDistinct :
    (user amount : ℕ) (es : List WhitelistEntry)
    → 0 < amount
    → find user es ≡ none
    → AreDistinct es
    → AreDistinct (es ++ record { user = user; amount = amount } ∷ [])
unfolding find
append-AreDistinct user amount [] p h d = ground arith
append-AreDistinct user amount (e ∷ es) p h d = ground (
  arith,
  append-AreDistinct user amount es p,
  append-allowance user amount e.user es,
  find-none e.user (es ++ record { user = user; amount = amount } ∷ []),
)

pub remove_first-allowance :
    (user : ℕ) (es : List WhitelistEntry) {es' : List WhitelistEntry}
    → AreDistinct es
    → remove_first user es ≡ some es'
    → (k : ℕ) → allowance k es' ≡ (if user == k then none else allowance k es)
unfolding remove_first find
remove_first-allowance user [] d h k = cc
remove_first-allowance user (e ∷ es) d h k = elim (Option-cases (remove_first user es)) [
  | inl miss ↦ ground arith
  | inr (rest, hit) ↦ ground (arith, remove_first-allowance user es d.2 hit k)
]

pub remove_first-length :
    (user : ℕ) (es : List WhitelistEntry) {es' : List WhitelistEntry}
    → remove_first user es ≡ some es'
    → length es ≡ length es' + 1
unfolding remove_first
remove_first-length user [] h = cc
remove_first-length user (e ∷ es) h = elim (Option-cases (remove_first user es)) [
  | inl miss ↦ ground arith
  | inr (rest, hit) ↦ ground (arith, remove_first-length user es hit)
]

pub remove_first-AreDistinct :
    (user : ℕ) (es : List WhitelistEntry) {es' : List WhitelistEntry}
    → AreDistinct es
    → remove_first user es ≡ some es'
    → AreDistinct es'
unfolding remove_first
remove_first-AreDistinct user [] d h = cc
remove_first-AreDistinct user (e ∷ es) d h = elim (Option-cases (remove_first user es)) [
  | inl miss ↦ ground arith
  | inr (rest, hit) ↦ ground (
    arith,
    remove_first-AreDistinct user es d.2 hit,
    remove_first-allowance user es d.2 hit e.user,
    find-none e.user rest,
  )
]
