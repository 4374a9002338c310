-- ===== src/Protocol/AmfCodec/Decode/Leaves.antt =====
-- The decoders of the values that hold no others.
use open_rtmp_claude_kiro.Common.{
  List, [], add32, arith, leb, length, ltb, suc, ℕ, ◌+◌, ◌<◌, ◌==◌, ◌∷◌, ◌≤◌,
}
use open_rtmp_claude_kiro.Protocol.AmfCodec.Amf3.{
  decode_amf3_marked, decode_amf3_string, decode_amf3_value, decode_u29, double_of_int29,
  max_nesting_depth,
}
use open_rtmp_claude_kiro.Protocol.AmfCodec.Decode.{
  decode_boolean, decode_date, decode_long_string, decode_number, decode_reference, decode_string,
}
use open_rtmp_claude_kiro.Protocol.AmfCodec.Decode.Bounds.{
  HasSize, IsWithin, amf3_string-Ensures, decode_u29-Ensures,
}
use open_rtmp_claude_kiro.Protocol.AmfCodec.Values.{
  Codec, Ensures, Ensures-after, Ensures-if, Value, after, height, number, read_uint16_be,
  read_uint32_be, string, success,
}

module _ (levels : ℕ) (rest : List ℕ) (base : ℕ) (c : Codec) where
  abbrev W : Value → ℕ → Type 0
  W = IsWithin (suc levels) (suc (length rest))

  pub number-Ensures : Ensures W (decode_number rest base c).0
  unfolding decode_number height
  number-Ensures =
      Ensures-if W (ltb (length rest) 8) _ _ (λ e. tt)
        (λ e. (omega arith, ground arith, omega arith))

  pub string-Ensures : Ensures W (decode_string rest base c).0
  unfolding decode_string height
  string-Ensures =
      Ensures-if W (ltb (length rest) 2) _ _ (λ e. tt)
        (λ e.
          Ensures-if W (ltb (length rest) (2 + read_uint16_be rest)) _ _ (λ f. tt)
            (λ f. (omega arith, ground arith, omega arith)))

  pub long_string-Ensures : Ensures W (decode_long_string rest base c).0
  unfolding decode_long_string height
  long_string-Ensures =
      Ensures-if W (ltb (length rest) 4) _ _ (λ e. tt)
        (λ e.
          Ensures-if W (ltb (length rest) (add32 4 (read_uint32_be rest))) _ _ (λ f. tt)
            (λ f.
              Ensures-if W (ltb (length rest) (4 + read_uint32_be rest)) _ _ (λ g. tt)
                (λ g. (omega arith, ground arith, omega arith))))

  pub date-Ensures : Ensures W (decode_date rest base c).0
  unfolding decode_date height
  date-Ensures =
      Ensures-if W (ltb (length rest) 10) _ _ (λ e. tt)
        (λ e. (omega arith, ground arith, omega arith))

  pub reference-Ensures : Ensures W (decode_reference rest base c).0
  unfolding decode_reference height
  reference-Ensures =
      Ensures-if W (ltb (length rest) 2) _ _ (λ e. tt)
        (λ e.
          Ensures-if W (leb (length c.amf0_object_references) (read_uint16_be rest)) _ _ (λ f. tt)
            (λ f. (omega arith, ground arith, omega arith)))

pub boolean-Ensures :
    (levels : ℕ) (rest : List ℕ) (base : ℕ) (c : Codec)
    → Ensures (IsWithin (suc levels) (suc (length rest))) (decode_boolean rest base c).0
unfolding decode_boolean height
boolean-Ensures levels [] base c = tt
boolean-Ensures levels (b ∷ rest) base c = (omega arith, omega arith, omega arith)

amf3_integer-Ensures :
    (levels : ℕ) (rest : List ℕ) (base : ℕ) (c : Codec)
    → Ensures
        (IsWithin (suc levels) (suc (length rest)))
        (after
          (decode_u29 rest (base + 1), c)
          (λ u29 n d. (success (number (double_of_int29 u29)) (1 + n), d))).0
unfolding height
amf3_integer-Ensures levels rest base c =
    Ensures-after {A = ℕ} (λ v k. (0 < k) × (k ≤ 0 + length rest))
      (IsWithin (suc levels) (suc (length rest))) (decode_u29 rest (base + 1), c) _
      (decode_u29-Ensures rest (base + 1)) (λ u29 n d h. (omega arith, omega arith, omega arith))

amf3_text-Ensures :
    (levels : ℕ) (rest : List ℕ) (base : ℕ) (c : Codec)
    → Ensures
        (IsWithin (suc levels) (suc (length rest)))
        (after (decode_amf3_string rest (base + 1) c) (λ s n d. (success (string s) (1 + n), d))).0
unfolding height
amf3_text-Ensures levels rest base c =
    Ensures-after (HasSize 1 (length rest)) (IsWithin (suc levels) (suc (length rest)))
      (decode_amf3_string rest (base + 1) c) _ (amf3_string-Ensures rest (base + 1) c)
      (λ s n d h. (omega arith, omega arith, omega arith))

amf3_marked-Ensures :
    (levels m : ℕ) (rest : List ℕ) (base : ℕ) (c : Codec)
    → Ensures (IsWithin (suc levels) (suc (length rest))) (decode_amf3_marked m rest base c).0
unfolding decode_amf3_marked height
amf3_marked-Ensures levels m rest base c =
    Ensures-if W (m == 0) _ _ (λ e. one)
      (λ e.
        Ensures-if W (m == 1) _ _ (λ e. one)
          (λ e.
            Ensures-if W (m == 2) _ _ (λ e. one)
              (λ e.
                Ensures-if W (m == 3) _ _ (λ e. one)
                  (λ e.
                    Ensures-if W (m == 4) _ _ (λ e. amf3_integer-Ensures levels rest base c)
                      (λ e.
                        Ensures-if W (m == 5) _ _
                          (λ e.
                            Ensures-if W (ltb (length rest) 8) _ _ (λ f. tt)
                              (λ f. (omega arith, ground arith, omega arith)))
                          (λ e.
                            Ensures-if W (m == 6) _ _ (λ e. amf3_text-Ensures levels rest base c)
                              (λ e. tt)))))))
  where
    W : Value → ℕ → Type 0
    W = IsWithin (suc levels) (suc (length rest))

    one : (1 ≤ 1) × (1 ≤ suc (length rest)) × (0 < suc levels)
    one = (omega arith, omega arith, omega arith)

pub amf3_value-Ensures :
    (levels depth : ℕ) (bytes : List ℕ) (base : ℕ) (c : Codec)
    → Ensures (IsWithin (suc levels) (length bytes)) (decode_amf3_value depth bytes base c).0
unfolding decode_amf3_value
amf3_value-Ensures levels depth [] base c =
    Ensures-if (IsWithin (suc levels) 0) (ltb max_nesting_depth depth) _ _ (λ e. tt) (λ e. tt)
amf3_value-Ensures levels depth (m ∷ rest) base c =
    Ensures-if (IsWithin (suc levels) (suc (length rest))) (ltb max_nesting_depth depth) _ _
      (λ e. tt) (λ e. amf3_marked-Ensures levels m rest base c)
