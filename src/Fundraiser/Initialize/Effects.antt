-- ===== src/Fundraiser/Initialize/Effects.antt =====
-- What a successful `initialize` (instructions/initialize.rs) has checked and leaves behind.
use q2_26_accel_v1c70ryg0d.Prelude.{
  ℕ, ◌*◌, ◌^◌, ◌<◌, ◌≡◌, ◌≢◌, refl, true, get_elem?, none, take, drop, ok, arith, inl, inr,
  Result-cases, through, via, some,
}
use q2_26_accel_v1c70ryg0d.Prelude.Int.{ℤ, ◌≤ℤ◌, i64_min, i64_max}
use q2_26_accel_v1c70ryg0d.Prelude.Words.{
  Bytes, from_le_bytes, to_le_bytes, AreBytes, from_le_bytes-u64, length-to_le_bytes,
  from_le_bytes-to_le_bytes, i64_of_u64-u64_of_i64, u64_of_i64, u64_of_i64-lt, checked_u64,
}
use q2_26_accel_v1c70ryg0d.Solana.{World, Platform}
use q2_26_accel_v1c70ryg0d.Fundraiser.State.{
  Fundraiser, fundraiser_len, load_fundraiser, maker, mint_to_raise, amount_to_raise,
  current_amount, time_started, set_maker, set_mint_to_raise, set_amount_to_raise,
  set_current_amount, set_time_started, set_duration,
}
use q2_26_accel_v1c70ryg0d.Fundraiser.State.Layout.{IsLaidOut, load-store_fundraiser}
use q2_26_accel_v1c70ryg0d.Fundraiser.Utils.{fundraiser_pda, verify_fundraiser_pda, read_u64, pow10}
use q2_26_accel_v1c70ryg0d.Fundraiser.Initialize.{
  InitializeAccounts, initialize, check_goal, create_fundraiser, fill_fundraiser,
}

-- The parts of the instruction data; a byte that is not there counts as 0.
abbrev pub byte_at : Bytes → ℕ → ℕ
byte_at input i = elim (get_elem? input i) [ none ↦ 0 | some b ↦ b ]

abbrev pub bump_of : Bytes → ℕ
bump_of input = byte_at input 0

abbrev pub goal_of : Bytes → ℕ
goal_of input = from_le_bytes (take 8 (drop 1 input))

abbrev pub duration_of : Bytes → ℕ
duration_of input = byte_at input 9

module _ (p : Platform) where
  -- What `initialize` has checked when it succeeds.
  pub record IsStartable (a : InitializeAccounts) (input : Bytes) (w : World) : Type 0 where
    pub signed : a.maker.is_signer ≡ true
    pub fresh : (w a.fundraiser.address).owner ≢ p.program_id
    pub derived : a.fundraiser.address ≡ fundraiser_pda p a.maker.address (bump_of input)
    pub above_minimum :
        (decimals : ℕ) × (p.unpack_decimals (w a.mint_to_raise.address) ≡ ok decimals)
        × (3 * 10 ^ decimals < goal_of input)

  -- The struct that it leaves in the account.
  pub record IsStarted (a : InitializeAccounts) (input : Bytes) (f : Fundraiser) : Type 0 where
    pub made_by : maker f ≡ a.maker.address
    pub raises : mint_to_raise f ≡ a.mint_to_raise.address
    pub goal : amount_to_raise f ≡ goal_of input
    pub nothing_yet : current_amount f ≡ 0
    pub started_now : p.unix_timestamp ≡ ok (time_started f)
    pub lasts : f.duration ≡ duration_of input
    pub bumped : f.bump ≡ bump_of input

  check_goal-lt :
      (decimals amount : ℕ) → check_goal p decimals amount ≡ ok tt → 3 * 10 ^ decimals < amount
  unfolding check_goal pow10 checked_u64
  check_goal-lt decimals amount h = ground arith

  initialize-parts :
      (a : InitializeAccounts) (input : Bytes) (w w' : World)
      → initialize p a input w ≡ ok w'
      → IsStartable a input w
        × (create_fundraiser p a (goal_of input) (duration_of input) (bump_of input) w ≡ ok w')
  unfolding initialize read_u64 verify_fundraiser_pda
  initialize-parts a input w w' h = (
    record {
      signed = ground arith;
      fresh = ground arith;
      derived = ground arith;
      above_minimum = elim (Result-cases (p.unpack_decimals (w a.mint_to_raise.address))) [
        | inl (n, e) ↦ (n, e, ground (arith, check_goal-lt n (goal_of input)))
        | inr (_, e) ↦ absurd (ground arith)
      ];
    },
    ground arith,
  )

  fill_fundraiser-IsStarted :
      (f : Fundraiser) (a : InitializeAccounts) (input : Bytes) (t : ℤ)
      → AreBytes input
      → a.maker.address < 256 ^ 32
      → a.mint_to_raise.address < 256 ^ 32
      → p.unix_timestamp ≡ ok t
      → i64_min ≤ℤ t
      → t ≤ℤ i64_max
      → IsStarted a input
          (fill_fundraiser f a (goal_of input) (duration_of input) (bump_of input) t)
  unfolding fill_fundraiser from_le_bytes to_le_bytes maker mint_to_raise amount_to_raise
      current_amount time_started set_maker set_mint_to_raise set_amount_to_raise set_current_amount
      set_time_started set_duration
  fill_fundraiser-IsStarted f a input t bytes m1 m2 clock lo hi = record {
    made_by = from_le_bytes-to_le_bytes 32 a.maker.address m1;
    raises = from_le_bytes-to_le_bytes 32 a.mint_to_raise.address m2;
    goal = from_le_bytes-to_le_bytes 8 (goal_of input) (from_le_bytes-u64 1 input bytes);
    nothing_yet = refl;
    started_now =
        rw
          (
            from_le_bytes-to_le_bytes 8 (u64_of_i64 t) (u64_of_i64-lt t),
            i64_of_u64-u64_of_i64 t lo hi,
          )
          clock;
    lasts = refl;
    bumped = refl;
  }

  fill_fundraiser-IsLaidOut :
      (f : Fundraiser) (a : InitializeAccounts) (amount duration bump : ℕ) (t : ℤ)
      → IsLaidOut (fill_fundraiser f a amount duration bump t)
  unfolding fill_fundraiser set_maker set_mint_to_raise set_amount_to_raise set_current_amount
      set_time_started set_duration
  fill_fundraiser-IsLaidOut f a amount duration bump t = record {
    maker_len = length-to_le_bytes 32 a.maker.address;
    mint_len = length-to_le_bytes 32 a.mint_to_raise.address;
    raise_len = length-to_le_bytes 8 amount;
    current_len = length-to_le_bytes 8 0;
    time_len = length-to_le_bytes 8 (u64_of_i64 t);
  }

  create_fundraiser-load :
      (a : InitializeAccounts) (amount duration bump : ℕ) (w w' : World)
      → create_fundraiser p a amount duration bump w ≡ ok w'
      → (f : Fundraiser) × (t : ℤ) × (p.unix_timestamp ≡ ok t)
        × (load_fundraiser w' a.fundraiser ≡ ok (fill_fundraiser f a amount duration bump t))
  unfolding create_fundraiser
  create_fundraiser-load a amount duration bump w w' h =
      elim (through (p.minimum_balance fundraiser_len) _ h) [
        | via _ _ h1 ↦ elim (through (p.invoke_signed _ _ w) _ h1) [
          | via w1 _ h2 ↦ elim (through (p.invoke_signed _ _ w1) _ h2) [
            | via w2 _ h3 ↦ elim (through (load_fundraiser w2 a.fundraiser) _ h3) [
              | via f _ h4 ↦ elim (through p.unix_timestamp _ h4) [
                | via t clock h5 ↦ (
                  f,
                  t,
                  clock,
                  ground (
                    arith,
                    load-store_fundraiser w2 a.fundraiser
                        (fill_fundraiser f a amount duration bump t)
                        (fill_fundraiser-IsLaidOut f a amount duration bump t),
                  ),
                )
              ]
            ]
          ]
        ]
      ]

  -- A successful `initialize` was signed by the maker, on a fresh account at the address
  -- derived from the maker and the bump, with a goal above three whole tokens. It leaves a
  -- fundraiser in that account with the maker, mint, goal and duration of the call, nothing
  -- raised, and started at the time of the clock. The instruction data are bytes, the two keys
  -- have 32 bytes and the time has 64 bits.
  pub initialize-IsStarted :
      (a : InitializeAccounts) (input : Bytes) (w w' : World) (t : ℤ)
      → AreBytes input
      → a.maker.address < 256 ^ 32
      → a.mint_to_raise.address < 256 ^ 32
      → p.unix_timestamp ≡ ok t
      → i64_min ≤ℤ t
      → t ≤ℤ i64_max
      → initialize p a input w ≡ ok w'
      → IsStartable a input w
        × ((f : Fundraiser) × (load_fundraiser w' a.fundraiser ≡ ok f) × IsStarted a input f)
  initialize-IsStarted a input w w' t bytes m1 m2 clock lo hi h =
      let (startable, created) = initialize-parts a input w w' h in
      let (f, t', clock', loaded) =
        create_fundraiser-load a (goal_of input) (duration_of input) (bump_of input) w w' created in
      let same : t' ≡ t = ground arith in
      (
        startable,
        (_, rw same at loaded, fill_fundraiser-IsStarted f a input t bytes m1 m2 clock lo hi),
      )
