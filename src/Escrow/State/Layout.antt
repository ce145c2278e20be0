-- ===== src/Escrow/State/Layout.antt =====
-- The layout of the escrow's account (src/state/escrow.rs): bytes and struct are two forms of one
-- thing.
use q2_26_accel_v1c70ryg0d.Prelude.{
  ◌≡◌, length, drop, ok, arith, take-append, drop-append, ==_refl, take-append-drop, one-element,
  length-append, length-drop,
}
use q2_26_accel_v1c70ryg0d.Prelude.Words.{Bytes}
use q2_26_accel_v1c70ryg0d.Solana.{AccountView, World}
use q2_26_accel_v1c70ryg0d.Escrow.State.{
  Escrow, escrow_len, escrow_of_bytes, bytes_of_escrow, load_escrow, store_escrow,
}

-- The lengths of the fixed arrays.
pub record IsLaidOut (e : Escrow) : Type 0 where
  pub maker_len : length e.maker ≡ 32
  pub mint_a_len : length e.mint_a ≡ 32
  pub mint_b_len : length e.mint_b ≡ 32
  pub receive_len : length e.amount_to_receive ≡ 8
  pub give_len : length e.amount_to_give ≡ 8

escrow_of_bytes-bytes_of_escrow :
    (e : Escrow) → IsLaidOut e → escrow_of_bytes (bytes_of_escrow e) ≡ e
unfolding escrow_of_bytes bytes_of_escrow
escrow_of_bytes-bytes_of_escrow e v = simp (
  take-append 32 e.maker _ v.maker_len,
  drop-append 32 e.maker _ v.maker_len,
  take-append 32 e.mint_a _ v.mint_a_len,
  drop-append 32 e.mint_a _ v.mint_a_len,
  take-append 32 e.mint_b _ v.mint_b_len,
  drop-append 32 e.mint_b _ v.mint_b_len,
  take-append 8 e.amount_to_receive _ v.receive_len,
  drop-append 8 e.amount_to_receive _ v.receive_len,
  take-append 8 e.amount_to_give _ v.give_len,
  drop-append 8 e.amount_to_give _ v.give_len,
)

length-bytes_of_escrow : (e : Escrow) → IsLaidOut e → length (bytes_of_escrow e) ≡ escrow_len
unfolding bytes_of_escrow
length-bytes_of_escrow e v = simp length-append (omega arith)

-- Reading the struct from an account's bytes and writing it back changes no byte.
pub bytes_of_escrow-escrow_of_bytes :
    (d : Bytes) → length d ≡ escrow_len → bytes_of_escrow (escrow_of_bytes d) ≡ d
unfolding escrow_of_bytes bytes_of_escrow
bytes_of_escrow-escrow_of_bytes d h =
    let d1 = drop 32 d in
    let d2 = drop 32 d1 in
    let d3 = drop 32 d2 in
    let d4 = drop 8 d3 in
    let e1 = length-drop 32 d in
    let e2 = length-drop 32 d1 in
    let e3 = length-drop 32 d2 in
    let e4 = length-drop 8 d3 in
    let e5 = length-drop 8 d4 in
    simp (
      one-element 0 (drop 8 d4) (omega arith),
      take-append-drop 8 d4,
      take-append-drop 8 d3,
      take-append-drop 32 d2,
      take-append-drop 32 d1,
      take-append-drop 32 d,
    )

-- What is written through `from_account_info` is read back by it.
pub load-store_escrow :
    (w : World) (v : AccountView) (e : Escrow)
    → IsLaidOut e
    → load_escrow (store_escrow w v e) v ≡ ok e
unfolding load_escrow store_escrow
load-store_escrow w v e h =
    rw (==_refl v.address, length-bytes_of_escrow e h, escrow_of_bytes-bytes_of_escrow e h)

pub load_escrow-same :
    (w w' : World) (v : AccountView)
    → w' v.address ≡ w v.address
    → load_escrow w' v ≡ load_escrow w v
unfolding load_escrow
load_escrow-same w w' v e = rw e

pub load_escrow-len :
    (w : World) (v : AccountView) (e : Escrow)
    → load_escrow w v ≡ ok e
    → length (w v.address).bytes ≡ escrow_len
unfolding load_escrow
load_escrow-len w v e h = ground arith
