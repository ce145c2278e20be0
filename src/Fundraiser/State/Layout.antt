-- ===== src/Fundraiser/State/Layout.antt =====
-- The layout of the fundraiser's accounts (src/state): bytes and structs are two forms of one thing.
use q2_26_accel_v1c70ryg0d.Prelude.{
  ℕ, ◌^◌, ◌<◌, ◌≡◌, [], ◌∷◌, length, drop, ==_refl, ok, take-append, drop-append, take-append-drop,
  two-elements, subst, length-append, length-take, length-drop, arith,
}
use q2_26_accel_v1c70ryg0d.Prelude.Words.{Bytes, length-to_le_bytes, from_le_bytes-to_le_bytes}
use q2_26_accel_v1c70ryg0d.Solana.{AccountView, World}
use q2_26_accel_v1c70ryg0d.Fundraiser.State.{
  Fundraiser, fundraiser_len, fundraiser_of_bytes, bytes_of_fundraiser, load_fundraiser,
  store_fundraiser, current_amount, set_current_amount, Contributor, contributor_len,
  contributor_of_bytes, bytes_of_contributor, load_contributor, store_contributor, amount,
  set_amount,
}

-- The lengths of the fixed arrays.
pub record IsLaidOut (f : Fundraiser) : Type 0 where
  pub maker_len : length f.maker ≡ 32
  pub mint_len : length f.mint_to_raise ≡ 32
  pub raise_len : length f.amount_to_raise ≡ 8
  pub current_len : length f.current_amount ≡ 8
  pub time_len : length f.time_started ≡ 8

fundraiser_of_bytes-bytes_of_fundraiser :
    (f : Fundraiser) → IsLaidOut f → fundraiser_of_bytes (bytes_of_fundraiser f) ≡ f
unfolding fundraiser_of_bytes bytes_of_fundraiser
fundraiser_of_bytes-bytes_of_fundraiser f v = simp (
  take-append 32 f.maker _ v.maker_len,
  drop-append 32 f.maker _ v.maker_len,
  take-append 32 f.mint_to_raise _ v.mint_len,
  drop-append 32 f.mint_to_raise _ v.mint_len,
  take-append 8 f.amount_to_raise _ v.raise_len,
  drop-append 8 f.amount_to_raise _ v.raise_len,
  take-append 8 f.current_amount _ v.current_len,
  drop-append 8 f.current_amount _ v.current_len,
  take-append 8 f.time_started _ v.time_len,
  drop-append 8 f.time_started _ v.time_len,
)

length-bytes_of_fundraiser :
    (f : Fundraiser) → IsLaidOut f → length (bytes_of_fundraiser f) ≡ fundraiser_len
unfolding bytes_of_fundraiser
length-bytes_of_fundraiser f v = simp length-append (omega arith)

-- Reading a struct from an account's bytes, of the right length, and writing it back changes no
-- byte.
pub bytes_of_fundraiser-fundraiser_of_bytes :
    (d : Bytes) → length d ≡ fundraiser_len → bytes_of_fundraiser (fundraiser_of_bytes d) ≡ d
unfolding fundraiser_of_bytes bytes_of_fundraiser
bytes_of_fundraiser-fundraiser_of_bytes d h =
    let d1 = drop 32 d in
    let d2 = drop 32 d1 in
    let d3 = drop 8 d2 in
    let d4 = drop 8 d3 in
    let d5 = drop 8 d4 in
    let e1 = length-drop 32 d in
    let e2 = length-drop 32 d1 in
    let e3 = length-drop 8 d2 in
    let e4 = length-drop 8 d3 in
    let e5 = length-drop 8 d4 in
    simp (
      two-elements 0 d5 (omega arith),
      take-append-drop 8 d4,
      take-append-drop 8 d3,
      take-append-drop 8 d2,
      take-append-drop 32 d1,
      take-append-drop 32 d,
    )

fundraiser_of_bytes-IsLaidOut :
    (d : Bytes) → length d ≡ fundraiser_len → IsLaidOut (fundraiser_of_bytes d)
unfolding fundraiser_of_bytes
fundraiser_of_bytes-IsLaidOut d h =
    let d1 = drop 32 d in
    let d2 = drop 32 d1 in
    let d3 = drop 8 d2 in
    let d4 = drop 8 d3 in
    let e1 = length-drop 32 d in
    let e2 = length-drop 32 d1 in
    let e3 = length-drop 8 d2 in
    let e4 = length-drop 8 d3 in
    record {
      maker_len = omega (arith, length-take 32 d);
      mint_len = omega (arith, length-take 32 d1);
      raise_len = omega (arith, length-take 8 d2);
      current_len = omega (arith, length-take 8 d3);
      time_len = omega (arith, length-take 8 d4);
    }

-- What `from_account_info` accepts has the struct's length.
pub load_fundraiser-len :
    (w : World) (v : AccountView) (f : Fundraiser)
    → load_fundraiser w v ≡ ok f
    → length (w v.address).bytes ≡ fundraiser_len
unfolding load_fundraiser
load_fundraiser-len w v f h = ground arith

pub load_fundraiser-IsLaidOut :
    (w : World) (v : AccountView) (f : Fundraiser) → load_fundraiser w v ≡ ok f → IsLaidOut f
unfolding load_fundraiser
load_fundraiser-IsLaidOut w v f h =
    let size = load_fundraiser-len w v f h in
    let e : fundraiser_of_bytes (w v.address).bytes ≡ f = ground arith in
    subst IsLaidOut e (fundraiser_of_bytes-IsLaidOut (w v.address).bytes size)

-- What is written through `from_account_info` is read back by it.
pub load-store_fundraiser :
    (w : World) (v : AccountView) (f : Fundraiser)
    → IsLaidOut f
    → load_fundraiser (store_fundraiser w v f) v ≡ ok f
unfolding load_fundraiser store_fundraiser
load-store_fundraiser w v f h =
    rw (
      ==_refl v.address,
      length-bytes_of_fundraiser f h,
      fundraiser_of_bytes-bytes_of_fundraiser f h,
    )

-- The account's own data depends on nothing but the bytes at its address.
pub load_fundraiser-same :
    (w w' : World) (v : AccountView)
    → w' v.address ≡ w v.address
    → load_fundraiser w' v ≡ load_fundraiser w v
unfolding load_fundraiser
load_fundraiser-same w w' v e = rw e

pub set_current_amount-IsLaidOut :
    (f : Fundraiser) (n : ℕ) → IsLaidOut f → IsLaidOut (set_current_amount f n)
unfolding set_current_amount
set_current_amount-IsLaidOut f n v = record {
  maker_len = v.maker_len;
  mint_len = v.mint_len;
  raise_len = v.raise_len;
  current_len = length-to_le_bytes 8 n;
  time_len = v.time_len;
}

pub current_amount-set :
    (f : Fundraiser) (n : ℕ) → n < 2 ^ 64 → current_amount (set_current_amount f n) ≡ n
unfolding current_amount set_current_amount
current_amount-set f n h = from_le_bytes-to_le_bytes 8 n h

pub load_contributor-len :
    (w : World) (v : AccountView) (c : Contributor)
    → load_contributor w v ≡ ok c
    → length (w v.address).bytes ≡ contributor_len
unfolding load_contributor
load_contributor-len w v c h = ground arith

pub load_contributor-same :
    (w w' : World) (v : AccountView)
    → w' v.address ≡ w v.address
    → load_contributor w' v ≡ load_contributor w v
unfolding load_contributor
load_contributor-same w w' v e = rw e

pub load-store_contributor :
    (w : World) (v : AccountView) (c : Contributor)
    → length c.amount ≡ 8
    → load_contributor (store_contributor w v c) v ≡ ok c
unfolding load_contributor store_contributor contributor_of_bytes bytes_of_contributor
load-store_contributor w v c h = rw (
  ==_refl v.address,
  length-append c.amount (c.bump ∷ []),
  h,
  take-append 8 c.amount (c.bump ∷ []) h,
  drop-append 8 c.amount (c.bump ∷ []) h,
)

pub amount-set : (c : Contributor) (n : ℕ) → n < 2 ^ 64 → amount (set_amount c n) ≡ n
unfolding amount set_amount
amount-set c n h = from_le_bytes-to_le_bytes 8 n h

pub set_amount-len : (c : Contributor) (n : ℕ) → length (set_amount c n).amount ≡ 8
unfolding set_amount
set_amount-len c n = length-to_le_bytes 8 n
