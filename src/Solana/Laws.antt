-- ===== src/Solana/Laws.antt =====
-- The documented behaviour of the runtime, the token program and the system program that the
-- theorems about the native programs rest on. Each theorem names the law that it needs.
use q2_26_accel_v1c70ryg0d.Prelude.{
  ℕ, ◌+◌, ◌-◌, ◌≤◌, ◌≡◌, ◌≢◌, List, ok, err, length, sym, ap, ◌∙◌, ne→==_false, ==_refl,
}
use q2_26_accel_v1c70ryg0d.Solana.{
  Address, update, Account, World, Platform, Seeds, Cpi, TokenAccount, create_account, create_ata,
  transfer, close_token_account,
}

-- The accounts that a call may write.
abbrev pub Spares : ℕ → Cpi → Type 0
Spares k (create_account from to lamports space owner) = (k ≢ from) × (k ≢ to)
Spares k (create_ata funder account wallet mint) = (k ≢ funder) × (k ≢ account)
Spares k (transfer from to authority amount) = (k ≢ from) × (k ≢ to)
Spares k (close_token_account account destination authority) = (k ≢ account) × (k ≢ destination)

-- A call writes no account but those.
abbrev pub WritesOnly : Platform → Type 0
WritesOnly p =
    (signers : List Seeds) (c : Cpi) (w w' : World) (k : ℕ)
    → p.invoke_signed signers c w ≡ ok w'
    → Spares k c
    → w' k ≡ w k

-- A token account is 165 bytes long: `from_account_view` refuses any other length.
abbrev pub TokensHaveLen : Platform → Type 0
TokensHaveLen p = (a : Account) (t : TokenAccount) → p.unpack_token a ≡ ok t → length a.bytes ≡ 165

-- Accounts of different lengths are different accounts.
pub apart_by_len :
    (w : World) {m n : ℕ} (j k : Address)
    → length (w j).bytes ≡ m
    → length (w k).bytes ≡ n
    → m ≢ n
    → j ≢ k
apart_by_len w j k hj hk h e = h (sym hj ∙ ap (λ i. length (w i).bytes) e ∙ hk)

pub update_ne : (w : World) (k j : Address) (a : Account) → j ≢ k → update w k a j ≡ w j
update_ne w k j a h = rw (ne→==_false j k h)

pub update_self : (w : World) (k : Address) (a : Account) → update w k a k ≡ a
update_self w k a = rw (==_refl k)

-- A closed account holds nothing.
abbrev pub ClosesEmpty : Platform → Type 0
ClosesEmpty p = (a b : Account) → p.close a ≡ ok b → (b.lamports ≡ 0) × (length b.bytes ≡ 0)

-- A token account belongs to the token program: `from_account_view` refuses any other owner.
abbrev pub TokensOwned : Platform → Type 0
TokensOwned p =
    (a : Account) (t : TokenAccount) → p.unpack_token a ≡ ok t → a.owner ≡ p.token_program_id

-- The amount that a token account holds, 0 for what is none.
unfoldable pub balance : Platform → World → Address → ℕ
balance p w k = elim (p.unpack_token (w k)) [ ok t ↦ t.amount | err _ ↦ 0 ]

-- A transfer between two accounts takes the amount, which must be there, from one to the other.
abbrev pub TransferMoves : Platform → Type 0
TransferMoves p =
    (signers : List Seeds) (from to authority n : ℕ) (w w' : World)
    → p.invoke_signed signers (transfer from to authority n) w ≡ ok w'
    → from ≢ to
    → (n ≤ balance p w from)
      × (balance p w' from ≡ balance p w from - n)
      × (balance p w' to ≡ balance p w to + n)

pub balance-same :
    (p : Platform) (w w' : World) (k : Address) → w' k ≡ w k → balance p w' k ≡ balance p w k
unfolding balance
balance-same p w w' k e = rw (e, balance)
