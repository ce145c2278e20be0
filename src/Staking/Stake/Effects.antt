-- ===== src/Staking/Stake/Effects.antt =====
-- What a stake leaves on the asset (instructions/stake.rs).
use q2_26_accel_v1c70ryg0d.Prelude.{
  ok-inj, ◌≡◌, subst, sym, ap, ◌∙◌, Bool, true, false, Option, none, some, List, [], ok, through,
  via, arith,
}
use q2_26_accel_v1c70ryg0d.Prelude.Int.{ℤ, pos, ◌≤ℤ◌, i64_min, i64_max}
use q2_26_accel_v1c70ryg0d.Staking.{
  Attribute, Chain, Host, Accounts, check_accounts, add_attributes, update_attributes, add_freeze,
  update_freeze,
}
use q2_26_accel_v1c70ryg0d.Prelude.Decimal.{text_eq}
use q2_26_accel_v1c70ryg0d.Staking.Laws.{Performs}
use q2_26_accel_v1c70ryg0d.Staking.Attributes.{no_clocks, scan, keep_unstaked, text_true}
use q2_26_accel_v1c70ryg0d.Staking.Attributes.Scan.{
  AreOthers, keep_unstaked-AreOthers, scan_written,
}
use q2_26_accel_v1c70ryg0d.Staking.Counters.{counters_of}
use q2_26_accel_v1c70ryg0d.Staking.Counters.Clamped.{
  IsCounted, update_collection_staked_count-IsCounted,
}
use q2_26_accel_v1c70ryg0d.Staking.Stake.{
  attributes_or_empty, staked_attributes, write_attributes, freeze, stake,
}

-- Who may stake what: the owner of an asset of the collection that the program manages.
pub record IsOwned (a : Accounts) : Type 0 where
  pub by_owner : a.asset_owner ≡ a.owner
  pub in_collection : a.asset_collection ≡ some a.collection_key
  pub managed : a.collection_authority ≡ a.authority_address a.collection_key
  pub configured : a.config_key ≡ a.config_address a.collection_key a.config.bump

pub check_accounts-IsOwned : (a : Accounts) → check_accounts a ≡ ok tt → IsOwned a
unfolding check_accounts
check_accounts-IsOwned a h = record {
  by_owner = ground arith;
  in_collection = ground arith;
  managed = ground arith;
  configured = ground arith;
}

-- The asset after a stake at a time: both clocks start, and the attributes that the loop kept are
-- carried over.
pub record IsStaked (w w' : Chain) (now : ℤ) : Type 0 where
  pub others : List Attribute
  pub was_free : keep_unstaked [] (attributes_or_empty w.attributes) ≡ ok others
  pub written : w'.attributes ≡ some (staked_attributes others now)
  pub clocks :
      scan false no_clocks (staked_attributes others now)
      ≡ ok (record { is_staked = true; staked_at = now; last_claim = some now; kept = others })
  pub frozen : w'.frozen ≡ some true
  pub counted :
      IsCounted (counters_of w.collection_attributes) (counters_of w'.collection_attributes) (pos 1)
  pub unpaid : w'.rewards ≡ w.rewards

write_attributes_lem :
    (host : Host) (o : Option (List Attribute)) (l : List Attribute) (w w' : Chain)
    → Performs host
    → write_attributes host o l w ≡ ok w'
    → w' ≡ record w { attributes = some l }
write_attributes_lem host none l w w' performs h = performs (add_attributes l) w w' h
write_attributes_lem host (some old) l w w' performs h = performs (update_attributes l) w w' h

freeze_lem :
    (host : Host) (o : Option Bool) (w w' : Chain)
    → Performs host
    → freeze host o w ≡ ok w'
    → w' ≡ record w { frozen = some true }
freeze_lem host none w w' performs h = performs (add_freeze true) w w' h
freeze_lem host (some old) w w' performs h = performs (update_freeze true) w w' h

scan_started :
    (kept : List Attribute) (now : ℤ)
    → AreOthers kept
    → i64_min ≤ℤ now
    → now ≤ℤ i64_max
    → scan false no_clocks (staked_attributes kept now)
      ≡ ok (record { is_staked = true; staked_at = now; last_claim = some now; kept = kept })
unfolding text_eq
scan_started kept now others lo hi = scan_written kept now now text_true others lo hi lo hi

pub stake-IsStaked :
    (host : Host) (a : Accounts) (w w' : Chain) (now : ℤ)
    → Performs host
    → host.unix_timestamp ≡ ok now
    → i64_min ≤ℤ now
    → now ≤ℤ i64_max
    → stake host a w ≡ ok w'
    → IsOwned a × IsStaked w w' now
unfolding stake
stake-IsStaked host a w w' now performs clock lo hi h = elim (through (check_accounts a) _ h) [
  | via _ checked h1 ↦ elim (through (keep_unstaked [] (attributes_or_empty w.attributes)) _ h1) [
    | via kept free h2 ↦ elim (through host.unix_timestamp _ h2) [
      | via t time h3 ↦
          elim (through (write_attributes host w.attributes (staked_attributes kept t) w) _ h3) [
            | via w1 wrote h4 ↦ elim (through (freeze host w1.frozen w1) _ h4) [
              | via w2 froze h5 ↦
                  let e0 : t ≡ now = ok-inj (sym time ∙ clock) in
                  let attributes = staked_attributes kept t in
                  let e1 = write_attributes_lem host w.attributes attributes w w1 performs wrote in
                  let e2 = freeze_lem host w1.frozen w1 w2 performs froze in
                  let (counted, e3) =
                    update_collection_staked_count-IsCounted host (pos 1) w2 w' performs h5 in
                  let others =
                    keep_unstaked-AreOthers [] (attributes_or_empty w.attributes) kept tt free in
                  (
                    check_accounts-IsOwned a checked,
                    record {
                      others = kept;
                      was_free = free;
                      written =
                          ap (λ u. u.attributes) e3
                          ∙ ap (λ u. u.attributes) e2
                          ∙ ap (λ u. u.attributes) e1
                          ∙ ap (λ i. some (staked_attributes kept i)) e0;
                      clocks = scan_started kept now others lo hi;
                      frozen = ap (λ u. u.frozen) e3 ∙ ap (λ u. u.frozen) e2;
                      counted =
                          subst
                            (λ o.
                              IsCounted (counters_of o) (counters_of w'.collection_attributes)
                                (pos 1))
                            (ap (λ u. u.collection_attributes) e2
                              ∙ ap (λ u. u.collection_attributes) e1)
                            counted;
                      unpaid =
                          ap (λ u. u.rewards) e3 ∙ ap (λ u. u.rewards) e2 ∙ ap (λ u. u.rewards) e1;
                    },
                  )
            ]
          ]
    ]
  ]
]
