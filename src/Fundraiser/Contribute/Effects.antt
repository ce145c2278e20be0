-- ===== src/Fundraiser/Contribute/Effects.antt =====
-- `contribute` (instructions/contribute.rs) as a whole: what it checks and what it records.
use q2_26_accel_v1c70ryg0d.Prelude.{
  ℕ, ◌+◌, ◌*◌, ◌^◌, ◌<◌, ◌≤◌, ◌≡◌, true, false, take, drop, ok, arith, through, via,
  reject_if-eq-ok, ◌/◌,
}
use q2_26_accel_v1c70ryg0d.Prelude.Int.{ℤ}
use q2_26_accel_v1c70ryg0d.Prelude.Words.{Bytes, from_le_bytes}
use q2_26_accel_v1c70ryg0d.Solana.{World, Platform}
use q2_26_accel_v1c70ryg0d.Solana.Laws.{WritesOnly, TokensHaveLen, apart_by_len}
use q2_26_accel_v1c70ryg0d.Fundraiser.State.{
  Fundraiser, load_fundraiser, set_current_amount, current_amount, amount_to_raise, Contributor,
  load_contributor, amount, set_amount,
}
use q2_26_accel_v1c70ryg0d.Fundraiser.State.Layout.{
  load_fundraiser-len, load_contributor-len, current_amount-set, amount-set,
}
use q2_26_accel_v1c70ryg0d.Fundraiser.Utils.{
  validate_token_account, verify_contributor_pda, has_ended,
}
use q2_26_accel_v1c70ryg0d.Fundraiser.Contribute.{ContributeAccounts, contribute_to, new_amounts}
use q2_26_accel_v1c70ryg0d.Fundraiser.Contribute.Amounts.{IsAdmissible, new_amounts_iff}
use q2_26_accel_v1c70ryg0d.Fundraiser.Contribute.Account.{
  AreApart, given_before, validate-len, record_contribution_lem,
}

-- The amount in the instruction data.
abbrev pub amount_of : Bytes → ℕ
amount_of input = from_le_bytes (take 8 (drop 1 input))

module _ (p : Platform) where
  -- A contribution of `n` to the fundraiser `f` by a contributor whose account was `c`, in the world
  -- `w`, which leaves the world `w'`.
  pub record IsRecorded (a : ContributeAccounts) (n : ℕ) (w w' : World) (f : Fundraiser)
      : Type 0 where
    pub c : Contributor
    pub now : ℤ
    pub decimals : ℕ
    pub clock : p.unix_timestamp ≡ ok now
    pub running : has_ended f now ≡ false
    pub mint : p.unpack_decimals (w a.mint_to_raise.address) ≡ ok decimals
    pub admissible : IsAdmissible f c decimals n
    pub opened : load_contributor w a.contributor_account ≡ ok c
    pub raised : load_fundraiser w' a.fundraiser ≡ ok (set_current_amount f (current_amount f + n))
    pub given : load_contributor w' a.contributor_account ≡ ok (set_amount c (amount c + n))

  pub contribute_to-IsRecorded :
      (a : ContributeAccounts) (n : ℕ) (f : Fundraiser) (w w' : World)
      → WritesOnly p
      → TokensHaveLen p
      → load_fundraiser w a.fundraiser ≡ ok f
      → contribute_to p a n f w ≡ ok w'
      → IsRecorded a n w w' f
  unfolding contribute_to
  contribute_to-IsRecorded a n f w w' writes lens hf h =
      elim (through (load_contributor w a.contributor_account) _ h) [
        | via c hc h1 ↦
            elim (through
              (verify_contributor_pda p a.contributor_account a.fundraiser a.contributor c.bump) _
              h1) [
                | via _ _ h2 ↦
                    elim (through
                      (validate_token_account p w a.contributor_ata a.contributor.address
                        a.mint_to_raise.address)
                      _ h2) [
                        | via _ ata h3 ↦
                            elim (through
                              (validate_token_account p w a.vault a.fundraiser.address
                                a.mint_to_raise.address)
                              _ h3) [
                                | via _ vault h4 ↦ elim (through p.unix_timestamp _ h4) [
                                  | via now clock h5 ↦
                                      let (running, h6) =
                                        reject_if-eq-ok (has_ended f now) _ _ h5 in
                                      elim (through (p.unpack_decimals (w a.mint_to_raise.address))
                                        _ h6) [
                                          | via decimals mint h7 ↦
                                              elim (through (new_amounts f c decimals n) _ h7) [
                                                | via totals e h8 ↦
                                                    let (v, sums) =
                                                      (new_amounts_iff f c decimals n totals).0 e in
                                                    let l1 =
                                                      load_fundraiser-len w a.fundraiser f hf in
                                                    let l2 =
                                                      load_contributor-len w a.contributor_account c
                                                        hc in
                                                    let l3 =
                                                      validate-len p w a.contributor_ata _ _ lens
                                                        ata in
                                                    let l4 =
                                                      validate-len p w a.vault _ _ lens vault in
                                                    let d : AreApart p a = record {
                                                      fund_ata =
                                                          apart_by_len w _ _ l1 l3 (omega arith);
                                                      fund_vault =
                                                          apart_by_len w _ _ l1 l4 (omega arith);
                                                      part_ata =
                                                          apart_by_len w _ _ l2 l3 (omega arith);
                                                      part_vault =
                                                          apart_by_len w _ _ l2 l4 (omega arith);
                                                      fund_part =
                                                          apart_by_len w _ _ l1 l2 (omega arith);
                                                    } in
                                                    let written =
                                                      record_contribution_lem p a n _ _ w w' f c
                                                        writes d hf hc (rw sums at h8) in
                                                    record {
                                                      c = c;
                                                      now = now;
                                                      decimals = decimals;
                                                      clock = clock;
                                                      running = running;
                                                      mint = mint;
                                                      admissible = v;
                                                      opened = hc;
                                                      raised = written.0;
                                                      given = written.1;
                                                    }
                                              ]
                                        ]
                                ]
                              ]
                      ]
              ]
      ]

  -- The same for the whole instruction, in numbers.
  pub record IsContribution (a : ContributeAccounts) (n : ℕ) (w w' : World) : Type 0 where
    pub before : Fundraiser
    pub after : Fundraiser
    pub account : Contributor
    pub decimals : ℕ
    pub signed : a.contributor.is_signer ≡ true
    pub loaded : load_fundraiser w a.fundraiser ≡ ok before
    pub stored : load_fundraiser w' a.fundraiser ≡ ok after
    pub recorded : load_contributor w' a.contributor_account ≡ ok account
    pub raised : current_amount after ≡ current_amount before + n
    pub rest_kept : after ≡ set_current_amount before (current_amount after)
    pub given : amount account ≡ given_before p a w + n
    pub at_most_tenth : amount account ≤ amount_to_raise before * 10 / 100
    pub one_token : 10 ^ decimals ≤ n

  pub IsRecorded-IsContribution :
      (a : ContributeAccounts) (n : ℕ) (w w1 w' : World) (f : Fundraiser)
      → (r : IsRecorded a n w1 w' f) → a.contributor.is_signer ≡ true
      → load_fundraiser w a.fundraiser ≡ ok f
      → amount r.c ≡ given_before p a w
      → IsContribution a n w w'
  IsRecorded-IsContribution a n w w1 w' f r signed hf before =
      let v = r.admissible in
      let sum : current_amount f + n < 2 ^ 64 = omega (arith, v.total_fits) in
      let part : amount r.c + n < 2 ^ 64 = omega (arith, v.at_most_tenth, v.goal_fits) in
      let new_sum = current_amount-set f (current_amount f + n) sum in
      let new_part = amount-set r.c (amount r.c + n) part in
      record {
        before = f;
        after = set_current_amount f (current_amount f + n);
        account = set_amount r.c (amount r.c + n);
        decimals = r.decimals;
        signed = signed;
        loaded = hf;
        stored = r.raised;
        recorded = r.given;
        raised = new_sum;
        rest_kept = rw new_sum;
        given = omega (arith, new_part, before);
        at_most_tenth = omega (arith, new_part, v.at_most_tenth);
        one_token = v.one_token;
      }
