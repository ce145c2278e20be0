-- ===== src/Staking/Attributes/Alike.antt =====
-- The loops of stake.rs, unstake.rs and claim_rewards.rs over one list of attributes.
use q2_26_accel_v1c70ryg0d.Prelude.{
  ok-inj, ◌≡◌, refl, sym, ap, ◌∙◌, Bool, true, false, some, List, [], ◌∷◌, ◌++◌, ok, through, via,
  arith, Option-cases, inl, inr,
}
use q2_26_accel_v1c70ryg0d.Prelude.Decimal.{Text, parse_i64, text_eq}
use q2_26_accel_v1c70ryg0d.Staking.{Attribute}
use q2_26_accel_v1c70ryg0d.Staking.Attributes.{
  Kind, staked, staked_at, last_claim, other, kind_of, keep_step, keep_unstaked, Clocks, scan_step,
  keep_if, scan, text_true, text_false,
}

-- The same readings, whatever is kept.
pub record AreAlike (c d : Clocks) : Type 0 where
  pub staked : c.is_staked ≡ d.is_staked
  pub since : c.staked_at ≡ d.staked_at

scan_step-AreAlike :
    (keep keep' : Bool) (k : Kind) (a : Attribute) (c d r : Clocks)
    → AreAlike c d
    → scan_step keep k a c ≡ ok r
    → (s : Clocks) × (scan_step keep' k a d ≡ ok s) × AreAlike r s
scan_step-AreAlike keep keep' staked a c d r l h = (
  record d { is_staked = text_eq a.value text_true; kept = keep_if keep' a d.kept },
  refl,
  record {
    staked = ap (λ z. z.is_staked) (sym (ok-inj h));
    since = ap (λ z. z.staked_at) (sym (ok-inj h)) ∙ l.since;
  },
)
scan_step-AreAlike keep keep' staked_at a c d r l h = elim (Option-cases (parse_i64 a.value)) [
  | inl fails ↦ absurd (ground arith)
  | inr (t, parsed) ↦
      let done : ok (record c { staked_at = t; kept = keep_if keep a c.kept }) ≡ ok r =
        rw parsed at h in
      (
        record d { staked_at = t; kept = keep_if keep' a d.kept },
        rw parsed refl,
        record {
          staked = ap (λ z. z.is_staked) (sym (ok-inj done)) ∙ l.staked;
          since = ap (λ z. z.staked_at) (sym (ok-inj done));
        },
      )
]
scan_step-AreAlike keep keep' last_claim a c d r l h = elim (Option-cases (parse_i64 a.value)) [
  | inl fails ↦ absurd (ground arith)
  | inr (t, parsed) ↦
      let done : ok (record c { last_claim = some t }) ≡ ok r = rw parsed at h in
      (
        record d { last_claim = some t },
        rw parsed refl,
        record {
          staked = ap (λ z. z.is_staked) (sym (ok-inj done)) ∙ l.staked;
          since = ap (λ z. z.staked_at) (sym (ok-inj done)) ∙ l.since;
        },
      )
]
scan_step-AreAlike keep keep' other a c d r l h = (
  record d { kept = d.kept ++ (a ∷ []) },
  refl,
  record {
    staked = ap (λ z. z.is_staked) (sym (ok-inj h)) ∙ l.staked;
    since = ap (λ z. z.staked_at) (sym (ok-inj h)) ∙ l.since;
  },
)

-- The loops of `unstake` and of `claim_rewards` read the same.
pub scan-AreAlike :
    (keep keep' : Bool) (c d : Clocks) (xs : List Attribute) (r : Clocks)
    → AreAlike c d
    → scan keep c xs ≡ ok r
    → (s : Clocks) × (scan keep' d xs ≡ ok s) × AreAlike r s
unfolding scan
scan-AreAlike keep keep' c d [] r l h = (
  d,
  refl,
  record {
    staked = ap (λ z. z.is_staked) (sym (ok-inj h)) ∙ l.staked;
    since = ap (λ z. z.staked_at) (sym (ok-inj h)) ∙ l.since;
  },
)
scan-AreAlike keep keep' c d (x ∷ xs) r l h =
    elim (through (scan_step keep (kind_of x.key) x c) _ h) [
      | via c' step rest ↦
          let (d', step', l') = scan_step-AreAlike keep keep' (kind_of x.key) x c d c' l step in
          let (s, read, l'') = scan-AreAlike keep keep' c' d' xs r l' rest in
          (s, rw step' read, l'')
    ]

text_true-text_false : (v : Text) → text_eq v text_false ≡ true → text_eq v text_true ≡ false
unfolding text_eq
text_true-text_false [] h = refl
text_true-text_false (a ∷ v) h = ground arith

scan_step-unstaked :
    (keep : Bool) (k : Kind) (a : Attribute) (c r : Clocks) (kept kept' : List Attribute)
    → c.is_staked ≡ false
    → keep_step k a kept ≡ ok kept'
    → scan_step keep k a c ≡ ok r
    → r.is_staked ≡ false
scan_step-unstaked keep staked a c r kept kept' u free h =
    ap (λ z. z.is_staked) (sym (ok-inj h)) ∙ text_true-text_false a.value (ground arith)
scan_step-unstaked keep staked_at a c r kept kept' u free h = ground arith
scan_step-unstaked keep last_claim a c r kept kept' u free h = ground arith
scan_step-unstaked keep other a c r kept kept' u free h = ap (λ z. z.is_staked) (sym (ok-inj h)) ∙ u

-- A list that the loop of `stake` accepts reads as unstaked.
pub scan-unstaked :
    (keep : Bool) (xs : List Attribute) (c r : Clocks) (kept kept' : List Attribute)
    → c.is_staked ≡ false
    → keep_unstaked kept xs ≡ ok kept'
    → scan keep c xs ≡ ok r
    → r.is_staked ≡ false
unfolding scan keep_unstaked
scan-unstaked keep [] c r kept kept' u free h = ap (λ z. z.is_staked) (sym (ok-inj h)) ∙ u
scan-unstaked keep (x ∷ xs) c r kept kept' u free h =
    elim (through (keep_step (kind_of x.key) x kept) _ free) [
      | via middle step rest ↦ elim (through (scan_step keep (kind_of x.key) x c) _ h) [
        | via c' stepped later ↦
            scan-unstaked keep xs c' r middle kept'
              (scan_step-unstaked keep (kind_of x.key) x c c' kept middle u step stepped) rest later
      ]
    ]
