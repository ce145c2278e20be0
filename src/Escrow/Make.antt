-- ===== src/Escrow/Make.antt =====
-- accel-p-escrow/src/instructions/make.rs.
pub mod Effects
use q2_26_accel_v1c70ryg0d.Prelude.{
  ℕ, not, List, [], ◌∷◌, ◌++◌, length, get_elem?, take, drop, ◌==◌, ok, err, ◌>>=◌, ◌>>◌, guard,
  reject_if, ok_or,
}
use q2_26_accel_v1c70ryg0d.Prelude.Words.{Bytes, from_le_bytes}
use q2_26_accel_v1c70ryg0d.Solana.{
  address_bytes, AccountView, World, ProgramResult, Platform, create_account, create_ata, transfer,
  owned_by, not_enough_account_keys, illegal_owner, invalid_account_data,
  account_already_initialized, panicked,
}
use q2_26_accel_v1c70ryg0d.Escrow.State.{
  Escrow, escrow_len, load_escrow, store_escrow, set_maker, set_mint_a, set_mint_b,
  set_amount_to_receive, set_amount_to_give,
}
use q2_26_accel_v1c70ryg0d.Escrow.Utils.{escrow_seed, escrow_pda}

pub record MakeAccounts : Type 0 where
  pub maker : AccountView
  pub mint_a : AccountView
  pub mint_b : AccountView
  pub escrow_account : AccountView
  pub maker_ata : AccountView
  pub escrow_ata : AccountView
  pub system_program : AccountView
  pub token_program : AccountView

unfoldable pub unpack_make : List AccountView → ProgramResult MakeAccounts
unpack_make (maker ∷ mint_a ∷ mint_b ∷ escrow ∷ maker_ata ∷ escrow_ata ∷ system ∷ token ∷ _) =
    ok (record {
      maker = maker;
      mint_a = mint_a;
      mint_b = mint_b;
      escrow_account = escrow;
      maker_ata = maker_ata;
      escrow_ata = escrow_ata;
      system_program = system;
      token_program = token;
    })
unpack_make _ = err not_enough_account_keys

-- The struct that `escrow_state` is left as, by the setters in their order.
unfoldable pub fill_escrow : Escrow → MakeAccounts → ℕ → ℕ → ℕ → Escrow
fill_escrow e a receive give bump =
    let e1 =
      set_mint_b (set_mint_a (set_maker e a.maker.address) a.mint_a.address) a.mint_b.address in
    record (set_amount_to_give (set_amount_to_receive e1 receive) give) { bump = bump }

module _ (p : Platform) where
  -- `*(data.as_ptr().add(offset) as *const u64)`: no check of the length, so the read goes on into
  -- the memory behind the instruction data.
  unfoldable pub read_unchecked : Bytes → ℕ → ℕ
  read_unchecked input offset = from_le_bytes (take 8 (drop offset (input ++ p.beyond_data)))

  unfoldable pub check_maker_ata : MakeAccounts → World → ProgramResult (Unit {0})
  check_maker_ata a w = do
    t ← p.unpack_token (w a.maker_ata.address)
    reject_if (not (t.owner == a.maker.address)) illegal_owner
    reject_if (not (t.mint == a.mint_a.address)) invalid_account_data

  -- From `CreateAccount` on.
  unfoldable pub open_escrow : MakeAccounts → ℕ → ℕ → ℕ → World → ProgramResult World
  open_escrow a receive give bump w = do
    lamports ← p.minimum_balance escrow_len
    let seeds = escrow_seed ∷ address_bytes a.maker.address ∷ (bump ∷ []) ∷ []
    w1 ←
        p.invoke_signed (seeds ∷ [])
          (create_account a.maker.address a.escrow_account.address lamports escrow_len p.program_id)
          w
    e ← load_escrow w1 a.escrow_account
    let w2 = store_escrow w1 a.escrow_account (fill_escrow e a receive give bump)
    w3 ←
        p.invoke_signed []
          (create_ata a.maker.address a.escrow_ata.address a.escrow_account.address
            a.mint_a.address)
          w2
    p.invoke_signed [] (transfer a.maker_ata.address a.escrow_ata.address a.maker.address give) w3

  unfoldable pub make : MakeAccounts → Bytes → World → ProgramResult World
  make a input w = do
    check_maker_ata a w
    bump ← ok_or (get_elem? input 0) panicked
    guard (escrow_pda p a.maker.address bump == a.escrow_account.address) panicked
    let receive = read_unchecked input 1
    let give = read_unchecked input 9
    reject_if (owned_by w a.escrow_account p.program_id) account_already_initialized
    open_escrow a receive give bump w

  unfoldable pub process_make_instruction : List AccountView → Bytes → World → ProgramResult World
  unfolding unpack_make
  process_make_instruction accounts input w = do a ← unpack_make accounts; make a input w
