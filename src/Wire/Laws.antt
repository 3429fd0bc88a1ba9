-- ===== src/Wire/Laws.antt =====
-- What is written by `put_u16` and `put_u32` is read back, whatever follows it.
use home_rdp_gateway.Base.{
  ℕ, ◌-◌, ◌<◌, ◌≡◌, [], ◌∷◌, ◌++◌, length, length-append, append-nil, arith, ◌∙◌, take_all,
}
use home_rdp_gateway.Wire.{Bytes, put_u16, put_u32, read_u16, read_u32, read_slice, read_some}

pub read_u16-put_u16 : (n : ℕ) (r : Bytes) → n < 65536 → read_u16 (put_u16 n ++ r) ≡ (n, r)
read_u16-put_u16 n r h = ground arith

pub read_u32-put_u32 : (n : ℕ) (r : Bytes) → n < 4294967296 → read_u32 (put_u32 n ++ r) ≡ (n, r)
read_u32-put_u32 n r h = ground arith

append_of_length_zero : (xs r : Bytes) → length r ≡ 0 → xs ++ r ≡ xs
append_of_length_zero xs [] h = append-nil xs
append_of_length_zero xs (b ∷ r) h = absurd (omega arith)

pub read_slice_append :
    (xs r : Bytes) (n : ℕ) → length xs ≡ n → length r ≡ 0 → read_slice n (xs ++ r) ≡ xs
read_slice_append xs r n h k =
    ground (arith, length-append xs r, take_all n (xs ++ r), append_of_length_zero xs r k)

pub read_some_append :
    (xs r : Bytes) (n : ℕ) → length xs ≡ n → length r ≡ 0 → read_some n (xs ++ r) ≡ xs
read_some_append xs r n h k =
    let fit : n - length (xs ++ r) ≡ 0 = omega (arith, length-append xs r) in
    rw fit (
      append-nil _
      ∙ (take_all n (xs ++ r) (omega (arith, length-append xs r)) ∙ append_of_length_zero xs r k))
