-- ===== src/Reconstruct.antt =====
-- airtree-core/src/common/Reconstruct.cpp: from a code back to a number, as its bit pattern.
pub mod Edge
pub mod Rebuild
pub mod RoundTrip
mod Tests
use air_tree.Common.{
  ℕ, ◌+◌, ◌-◌, ◌*◌, ◌%◌, ◌^◌, bit_and, bit_or, not, ◌&&◌, leb, ◌==◌, if◌then◌else◌, shl, shr,
  to_int,
}
use Prim.Native.Nat.{min}

-- `IEEELayout<T>`, with the width of `bits_t`.
pub record IeeeLayout : Type 0 where
  pub width : ℕ
  pub exp_bits : ℕ
  pub mant_bits : ℕ
  pub bias : ℕ
  pub max_exp : ℕ

abbrev pub double_layout : IeeeLayout
double_layout = record { width = 64; exp_bits = 11; mant_bits = 52; bias = 1023; max_exp = 2046 }

abbrev pub float_layout : IeeeLayout
float_layout = record { width = 32; exp_bits = 8; mant_bits = 23; bias = 127; max_exp = 254 }

-- The exponent and the mantissa that the stream of M and P spells.
unfoldable pub spread : IeeeLayout → ℕ → ℕ → ℕ × ℕ
spread l stream stream_len =
    if leb l.exp_bits stream_len
    then (let rest = stream_len - l.exp_bits in
        (
          shr stream rest,
          if leb 1 rest
              then shl 64 (bit_and stream (shl 64 1 rest - 1)) (l.mant_bits - rest)
              else 0,
        ))
    else (shl 64 stream (l.exp_bits - stream_len), 0)

-- The stream and its length: a leading one stands before the precision bits unless the zeros are
-- capped.
unfoldable pub stream : ℕ → ℕ → ℕ → ℕ × ℕ
stream p_bits magnitude precision =
    let implicit_one = not (magnitude == 15) in
    (
      if implicit_one then bit_or (shl 64 1 p_bits) precision else precision,
      1 + magnitude + to_int implicit_one + p_bits,
    )

-- `std::clamp(absExp, 0, max_exp)`: a difference below 0 is 0.
unfoldable pub rebuild : IeeeLayout → ℕ → ℕ → ℕ → ℕ → ℕ
rebuild l sign exp_sign exp_field mantissa =
    let temp_exponent = exp_field + to_int (exp_sign == 1) in
    let abs_exp =
      min (if exp_sign == 1 then l.bias - temp_exponent else l.bias + temp_exponent) l.max_exp in
    bit_or (bit_or (shl l.width sign (l.exp_bits + l.mant_bits)) (shl l.width abs_exp l.mant_bits))
      (mantissa % 2 ^ l.width)

unfoldable pub re_construct : IeeeLayout → ℕ → ℕ → ℕ
re_construct l bit_rep bit_length =
    if not (bit_length == 12)
      && not (bit_length == 13)
      && not (bit_length == 16)
      && not (bit_length == 20)
    then 0
    else (let p_bits = bit_length - 6 in
        let sign = bit_and (shr bit_rep (bit_length - 1)) 0x1 in
        let exp_sign = bit_and (shr bit_rep (bit_length - 2)) 0x1 in
        let magnitude = bit_and (shr bit_rep p_bits) 0xF in
        let precision = bit_and bit_rep (shl 64 1 p_bits - 1) in
        let (bits, stream_len) = stream p_bits magnitude precision in
        let (exp_field, mantissa) = spread l bits stream_len in
        rebuild l sign exp_sign exp_field mantissa)
