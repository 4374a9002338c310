-- ===== src/Protocol/AmfCodec/Amf3/Integers.antt =====
-- The doubles that the AMF3 encoder writes as integers, and the doubles the decoder makes of them.
use open_rtmp_claude_kiro.Common.{
  Bool-cases, ap, arith, if◌then◌else◌, inl, inr, leb, ltb, refl, suc, sym, true, zero, ℕ, ◌%◌,
  ◌&&◌, ◌*◌, ◌+◌, ◌-◌, ◌/◌, ◌<◌, ◌==◌, ◌^◌, ◌∙◌, ◌≡◌, ◌≢◌, ◌≤◌,
}
use open_rtmp_claude_kiro.Protocol.AmfCodec.Amf3.{double_of_int29, fits_int29, int29_of_double}
use open_rtmp_claude_kiro.Protocol.AmfCodec.Doubles.{
  double_of_nat, exponent, implicit_bit, is_integral, is_negative, mantissa, normalize, sign_bit,
  truncate,
}
use native.Mathlib.Nat.{
  mod-add-div', mul-div_cancel, mul-le-mul_left, mul_assoc, one-le-pow, one-mul, zero-add,
}
use native.Mathlib.Omega.{pow_step}

power_pos : (k : ℕ) → 1 ≤ 2 ^ k
power_pos k = one-le-pow k 2 (omega arith)

-- With fuel for `k` doublings, a number that `k` doublings bring to its top bit.
normalize_lem :
    (k f e n x : ℕ)
    → k ≤ f
    → n * 2 ^ k ≡ x
    → implicit_bit ≤ x
    → x < 2 * implicit_bit
    → normalize f e n ≡ (e - k) * implicit_bit + (x - implicit_bit)
unfolding normalize
normalize_lem zero zero e n x h s a b = ground arith
normalize_lem zero (suc f) e n x h s a b = ground arith
normalize_lem (suc k) zero e n x h s a b = absurd (omega arith)
normalize_lem (suc k) (suc f) e n x h s a b =
    let twice : n * 2 * 2 ^ k ≡ x =
      mul_assoc n 2 (2 ^ k) ∙ ap (λ p. n * p) (sym (pow_step 2 k)) ∙ s in
    let positive = power_pos k in
    let small : n < implicit_bit = grind (arith, mul-le-mul_left (n * 2) positive) in
    rw (normalize_lem k f (e - 1) (n * 2) x (omega arith) twice a b) (ground arith)

power_sum : (j k : ℕ) → 2 ^ (j + k) ≡ 2 ^ j * 2 ^ k
power_sum zero k = ap (λ j. 2 ^ j) (zero-add k) ∙ sym (one-mul (2 ^ k))
power_sum (suc j) k = grind (arith, pow_step 2 j, pow_step 2 (j + k), power_sum j k)

-- A significand whose low `k` bits are zero is its integral part, shifted.
shifted : (k m : ℕ) → k ≤ 52 → m % 2 ^ k ≡ 0 → (implicit_bit + m) / 2 ^ k * 2 ^ k ≡ implicit_bit + m
shifted k m h d =
    let sum : 52 - k + k ≡ 52 = omega arith in
    let split : 2 ^ (52 - k) * 2 ^ k ≡ implicit_bit =
      sym (power_sum (52 - k) k) ∙ ap (λ j. 2 ^ j) sum in
    let positive = power_pos k in
    let whole : (2 ^ (52 - k) + m / 2 ^ k) * 2 ^ k ≡ implicit_bit + m =
      grind (arith, mod-add-div' m (2 ^ k)) in
    rw (sym whole) (ap (λ q. q * 2 ^ k) (mul-div_cancel (2 ^ (52 - k) + m / 2 ^ k) positive))

-- The integral part of the significand `implicit_bit + m` with exponent `e`.
abbrev integral : ℕ → ℕ → ℕ
integral e m = (implicit_bit + m) * 2 ^ (e - 1075) / 2 ^ (1075 - e)

double_of_nat-nonzero : (n : ℕ) → n ≢ 0 → double_of_nat n ≡ normalize 52 1075 n
unfolding double_of_nat
double_of_nat-nonzero n h = ground arith

double_of_nat-integral :
    (e m : ℕ)
    → 1023 ≤ e
    → m < implicit_bit
    → m % 2 ^ (1075 - e) ≡ 0
    → integral e m ≤ 0x10000000
    → double_of_nat (integral e m) ≡ e * implicit_bit + m
double_of_nat-integral e m l b d t = elim (Bool-cases (leb e 1075)) [
  | inl c ↦
      let none_left : e - 1075 ≡ 0 = ground arith in
      let same : (implicit_bit + m) * 2 ^ (e - 1075) ≡ implicit_bit + m =
        rw (none_left) (omega arith) in
      let back : integral e m * 2 ^ (1075 - e) ≡ implicit_bit + m =
        rw (same) (shifted (1075 - e) m (omega arith) d) in
      let some_left : integral e m ≢ 0 = λ z.
        let none_back : 0 * 2 ^ (1075 - e) ≡ implicit_bit + m =
          ap (λ q. q * 2 ^ (1075 - e)) (sym z) ∙ back in
        omega arith in
      double_of_nat-nonzero (integral e m) some_left
      ∙ normalize_lem (1075 - e) 52 1075 (integral e m) (implicit_bit + m) (omega arith) back
          (omega arith) (omega arith)
      ∙ ground arith
  | inr c ↦
      let none_right : 1075 - e ≡ 0 = ground arith in
      let all : integral e m ≡ (implicit_bit + m) * 2 ^ (e - 1075) =
        rw (none_right) (omega arith) in
      absurd (omega (arith, mul-le-mul_left (implicit_bit + m) (power_pos (e - 1075))))
]

fields : (bits : ℕ) → exponent bits * implicit_bit + mantissa bits ≡ bits % sign_bit
unfolding exponent mantissa
fields bits = omega arith

mantissa-lt : (bits : ℕ) → mantissa bits < implicit_bit
unfolding mantissa
mantissa-lt bits = omega arith

double_of_nat-zero : double_of_nat 0 ≡ 0
unfolding double_of_nat
double_of_nat-zero = refl

truncate-sign_bit : truncate sign_bit ≡ 0
unfolding truncate exponent
truncate-sign_bit = refl

-- For an integral double of magnitude at most 2^28, the double of its magnitude is the double without
-- its sign.
double_of_nat-truncate :
    (bits : ℕ)
    → is_integral bits ≡ true
    → truncate bits ≤ 0x10000000
    → double_of_nat (truncate bits) ≡ bits % sign_bit
unfolding truncate is_integral
double_of_nat-truncate bits i t = elim (Bool-cases (ltb (exponent bits) 1023)) [
  | inl c ↦ rw (c) (ground (arith, i, fields bits, double_of_nat-zero))
  | inr c ↦
      let cut : truncate bits ≡ integral (exponent bits) (mantissa bits) = rw (c) refl in
      ap double_of_nat cut
      ∙ double_of_nat-integral (exponent bits) (mantissa bits) (ground arith) (mantissa-lt bits)
          (ground (arith, i)) (rw (sym cut) t)
      ∙ fields bits
]

-- A double that the AMF3 encoder writes as an integer comes back with its value: the same bits, but
-- for negative zero, which comes back as zero.
pub double_of_int29-int29_of_double :
    (bits : ℕ)
    → bits < 2 ^ 64
    → is_integral bits ≡ true
    → fits_int29 bits ≡ true
    → double_of_int29 (int29_of_double bits) ≡ (if bits == sign_bit then 0 else bits)
unfolding double_of_int29 int29_of_double fits_int29 is_negative
double_of_int29-int29_of_double bits h i f =
    let e = double_of_nat-truncate bits i (ground (arith, f)) in
    elim (Bool-cases (truncate bits == 0)) [
      | inl z ↦
          let none_left : truncate bits ≡ 0 = ground arith in
          let low : bits % sign_bit ≡ 0 = sym e ∙ ap double_of_nat none_left ∙ double_of_nat-zero in
          rw (none_left) (ground (arith, double_of_nat-zero, low))
      | inr z ↦
          let other : bits ≢ sign_bit =
            λ q. let none_left = ap truncate q ∙ truncate-sign_bit in ground arith in
          elim (Bool-cases (leb sign_bit bits)) [
            | inl n ↦
                let back : 0x20000000 - (0x20000000 - truncate bits) ≡ truncate bits =
                  ground (arith, f) in
                rw (n, z) (rw (back) (ground (arith, f, e)))
            | inr n ↦ rw (n) (ground (arith, f, e))
          ]
    ]

-- Negative zero is written as an integer.
pub negative_zero_fits : (is_integral sign_bit && fits_int29 sign_bit) ≡ true
unfolding is_integral fits_int29 is_negative truncate exponent mantissa
negative_zero_fits = refl
