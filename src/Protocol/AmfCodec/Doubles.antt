-- ===== src/Protocol/AmfCodec/Doubles.antt =====
-- The conversions between double and integers that the codec asks of the language, on the 64 bits of
-- an IEEE 754 double: sign, eleven bits of exponent, and 52 bits of mantissa.
use open_rtmp_claude_kiro.Common.{
  Bool, if◌then◌else◌, leb, ltb, suc, zero, ℕ, ◌%◌, ◌&&◌, ◌*◌, ◌+◌, ◌-◌, ◌/◌, ◌==◌, ◌^◌,
}

abbrev pub sign_bit : ℕ
sign_bit = 9223372036854775808

abbrev pub implicit_bit : ℕ
implicit_bit = 4503599627370496

unfoldable pub exponent : ℕ → ℕ
exponent bits = bits / implicit_bit % 2048

unfoldable pub mantissa : ℕ → ℕ
mantissa bits = bits % implicit_bit

unfoldable pub is_negative : ℕ → Bool
is_negative bits = leb sign_bit bits

-- A significand is doubled until it has its top bit, and the exponent goes down with it.
unfoldable pub normalize : ℕ → ℕ → ℕ → ℕ
normalize zero e m = e * implicit_bit + (m - implicit_bit)
normalize (suc f) e m =
    let more = normalize f (e - 1) (m * 2) in
    if leb implicit_bit m then e * implicit_bit + (m - implicit_bit) else more

-- `static_cast<double>(n)`, for n below 2 ^ 53.
unfoldable pub double_of_nat : ℕ → ℕ
double_of_nat n = if n == 0 then 0 else normalize 52 1075 n

-- The magnitude without its fraction, for a finite double.
unfoldable pub truncate : ℕ → ℕ
truncate bits =
    if ltb (exponent bits) 1023
    then 0
    else (implicit_bit + mantissa bits) * 2 ^ (exponent bits - 1075) / 2 ^ (1075 - exponent bits)

-- `static_cast<int64_t>(x)`, as 64 bits, where it is defined.
unfoldable pub int64_of_double : ℕ → ℕ
int64_of_double bits = if is_negative bits then (2 ^ 64 - truncate bits) % 2 ^ 64 else truncate bits

-- `std::floor(x) == x`, for a double of magnitude below 2 ^ 52.
unfoldable pub is_integral : ℕ → Bool
is_integral bits =
    if ltb (exponent bits) 1023
    then exponent bits == 0 && mantissa bits == 0
    else mantissa bits % 2 ^ (1075 - exponent bits) == 0
