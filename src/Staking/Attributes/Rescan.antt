-- ===== src/Staking/Attributes/Rescan.antt =====
-- The loop of `claim_rewards` over a list that it kept.
use q2_26_accel_v1c70ryg0d.Prelude.{
  ok-inj, ◌≡◌, refl, subst, ◌∙◌, Bool, true, none, some, List, [], ◌∷◌, ◌++◌, ok, ◌>>=◌, through,
  via, Result-cases, arith, Option-cases, inl, inr,
}
use q2_26_accel_v1c70ryg0d.Prelude.Int.{ℤ, ◌≤ℤ◌, i64_min, i64_max}
use q2_26_accel_v1c70ryg0d.Prelude.Decimal.{parse_i64, show_i64, parse_i64-show_i64, text_eq}
use q2_26_accel_v1c70ryg0d.Staking.{Attribute}
use q2_26_accel_v1c70ryg0d.Staking.Attributes.{
  Kind, staked, staked_at, last_claim, other, kind_of, Clocks, no_clocks, scan_step, scan,
  key_last_claim,
}

scan-append :
    (keep : Bool) (c : Clocks) (xs ys : List Attribute)
    → scan keep c (xs ++ ys) ≡ (scan keep c xs >>= λ d. scan keep d ys)
unfolding scan
scan-append keep c [] ys = refl
scan-append keep c (x ∷ xs) ys = elim (Result-cases (scan_step keep (kind_of x.key) x c)) [
  | inl (d, e) ↦ rw (e, scan) (scan-append keep d xs ys)
  | inr (error, e) ↦ rw (e, scan) refl
]

-- What is kept reads as what was read, without the clock of the claims.
abbrev IsKept : Clocks → Type 0
IsKept c =
    scan true no_clocks c.kept
    ≡ ok (record {
      is_staked = c.is_staked;
      staked_at = c.staked_at;
      last_claim = none;
      kept = c.kept;
    })

kept_step :
    (c : Clocks) (a : Attribute) {d : Clocks}
    → IsKept c
    → scan_step true (kind_of a.key) a (record {
      is_staked = c.is_staked;
      staked_at = c.staked_at;
      last_claim = none;
      kept = c.kept;
    })
      ≡ ok d
    → scan true no_clocks (c.kept ++ (a ∷ [])) ≡ ok d
unfolding scan
kept_step c a kept h = scan-append true no_clocks c.kept (a ∷ []) ∙ rw (kept, h) refl

scan_step-IsKept :
    (k : Kind) (a : Attribute) (c r : Clocks)
    → kind_of a.key ≡ k
    → IsKept c
    → scan_step true k a c ≡ ok r
    → IsKept r
scan_step-IsKept staked a c r e kept h = subst IsKept (ok-inj h) (kept_step c a kept (rw e refl))
scan_step-IsKept staked_at a c r e kept h = elim (Option-cases (parse_i64 a.value)) [
  | inl fails ↦ absurd (ground arith)
  | inr (t, parsed) ↦
      let done : ok (record c { staked_at = t; kept = c.kept ++ (a ∷ []) }) ≡ ok r =
        rw parsed at h in
      subst IsKept (ok-inj done) (kept_step c a kept (rw (e, parsed) refl))
]
scan_step-IsKept last_claim a c r e kept h = elim (Option-cases (parse_i64 a.value)) [
  | inl fails ↦ absurd (ground arith)
  | inr (t, parsed) ↦
      let done : ok (record c { last_claim = some t }) ≡ ok r = rw parsed at h in
      subst IsKept (ok-inj done) kept
]
scan_step-IsKept other a c r e kept h = subst IsKept (ok-inj h) (kept_step c a kept (rw e refl))

scan-IsKept :
    (c : Clocks) (xs : List Attribute) (r : Clocks) → IsKept c → scan true c xs ≡ ok r → IsKept r
unfolding scan
scan-IsKept c [] r kept h = subst IsKept (ok-inj h) kept
scan-IsKept c (x ∷ xs) r kept h = elim (through (scan_step true (kind_of x.key) x c) _ h) [
  | via d step rest ↦
      scan-IsKept d xs r (scan_step-IsKept (kind_of x.key) x c d refl kept step) rest
]

no_clocks-IsKept : IsKept no_clocks
unfolding scan
no_clocks-IsKept = refl

-- The list that a claim writes reads as the one before, but for the clock of the claims.
pub rescan :
    (xs : List Attribute) (c : Clocks) (until : ℤ)
    → scan true no_clocks xs ≡ ok c
    → i64_min ≤ℤ until
    → until ≤ℤ i64_max
    → scan true no_clocks (c.kept ++ (record { key = key_last_claim; value = show_i64 until } ∷ []))
      ≡ ok (record {
        is_staked = c.is_staked;
        staked_at = c.staked_at;
        last_claim = some until;
        kept = c.kept;
      })
unfolding scan kind_of text_eq
rescan xs c until h lo hi =
    scan-append true no_clocks c.kept _
    ∙ rw (scan-IsKept no_clocks xs c no_clocks-IsKept h, parse_i64-show_i64 until lo hi) refl
