-- ===== src/Protocol/AmfCodec/Decode/Nested.antt =====
-- The decoders of the values that hold others: the loops end and stay within the data.
use open_rtmp_claude_kiro.Common.{
  List, [], arith, drop, if◌then◌else◌, length, length-drop, ltb, suc, true, zero, ℕ, ◌+◌, ◌-◌, ◌<◌,
  ◌==◌, ◌∷◌, ◌≡◌, ◌≤◌,
}
use open_rtmp_claude_kiro.Protocol.AmfCodec.Amf3.{decode_amf3_value, max_nesting_depth}
use open_rtmp_claude_kiro.Protocol.AmfCodec.Decode.{
  AmfVersion, Decoder, all_levels, amf0, amf3, at_object_end, decode_all, decode_all_loop,
  decode_amf0, decode_date, decode_ecma_array, decode_fields, decode_items, decode_long_string,
  decode_marked, decode_object, decode_short_string, decode_strict_array, decode_value,
  decode_version,
}
use open_rtmp_claude_kiro.Protocol.AmfCodec.Decode.Bounds.{
  HasSize, IsSafe, IsWithin, short_string-Ensures,
}
use open_rtmp_claude_kiro.Protocol.AmfCodec.Decode.Leaves.{
  amf3_value-Ensures, boolean-Ensures, date-Ensures, long_string-Ensures, number-Ensures,
  reference-Ensures, string-Ensures,
}
use open_rtmp_claude_kiro.Protocol.AmfCodec.Values.{
  Codec, Ensures, Ensures-after, Ensures-if, Ensures-weaken, Fields, Items, Value, after, end,
  failure, height, height_fields, height_fields-put_field, height_items, height_items-snoc,
  invalid_type, nil, put_field, read_uint32_be, snoc, success,
}

object_end-length : (bytes : List ℕ) → at_object_end bytes ≡ true → 3 ≤ length bytes
unfolding at_object_end
object_end-length (a ∷ b ∷ d ∷ rest) e = omega arith
object_end-length (a ∷ b ∷ []) e = cc
object_end-length (a ∷ []) e = cc
object_end-length [] e = cc

module _ (n : ℕ) (dec : Decoder) (safe : IsSafe n dec) where
  -- The offset after the loop, and how deep what it has read is.
  abbrev UpTo : {A : Type 0} → (A → ℕ) → ℕ → A → ℕ → Type 0
  UpTo deep last a k = (k ≤ last) × (deep a ≤ n)

  fields-Ensures :
      (fuel : ℕ) (bytes : List ℕ) (base offset : ℕ) (fs : Fields) (c : Codec)
      → length bytes ≤ fuel
      → height_fields fs ≤ n
      → Ensures
          (UpTo height_fields (offset + length bytes))
          (decode_fields dec fuel bytes base offset fs c).0
  unfolding decode_fields
  fields-Ensures fuel [] base offset fs c f h = tt
  fields-Ensures zero (b ∷ bytes) base offset fs c f h = absurd (omega arith)
  fields-Ensures (suc fuel) (b ∷ bytes) base offset fs c f h =
      Ensures-if (UpTo height_fields (offset + length (b ∷ bytes))) (at_object_end (b ∷ bytes)) _ _
        (λ e. (omega (arith, object_end-length (b ∷ bytes) e), h))
        (λ e.
          Ensures-after (HasSize 2 (length (b ∷ bytes))) _
            (decode_short_string (b ∷ bytes) (base + 1 + offset) c) _
            (short_string-Ensures (b ∷ bytes) (base + 1 + offset) c)
            (λ name m c₁ q.
              Ensures-after (IsWithin n (length (drop m (b ∷ bytes)))) _
                (dec (drop m (b ∷ bytes)) (base + 1 + (offset + m)) c₁) _
                (safe (drop m (b ∷ bytes)) (base + 1 + (offset + m)) c₁)
                (λ v k c₂ r.
                  Ensures-weaken
                    (UpTo height_fields (offset + m + k + length (drop (m + k) (b ∷ bytes)))) _
                    (decode_fields dec fuel (drop (m + k) (b ∷ bytes)) base (offset + m + k)
                      (put_field name v fs) c₂).0
                    (λ gs j s. (
                      omega (arith, length-drop (m + k) (b ∷ bytes), length-drop m (b ∷ bytes)),
                      s.1,
                    ))
                    (fields-Ensures fuel (drop (m + k) (b ∷ bytes)) base (offset + m + k)
                      (put_field name v fs) c₂
                      (omega (arith, length-drop (m + k) (b ∷ bytes), length-drop m (b ∷ bytes)))
                      (height_fields-put_field name v fs n r.2 h)))))

  items-Ensures :
      (left : ℕ) (bytes : List ℕ) (base offset : ℕ) (vs : Items) (c : Codec)
      → height_items vs ≤ n
      → Ensures
          (UpTo height_items (offset + length bytes))
          (decode_items dec left bytes base offset vs c).0
  unfolding decode_items
  items-Ensures zero bytes base offset vs c h = (omega arith, h)
  items-Ensures (suc left) [] base offset vs c h = (omega arith, h)
  items-Ensures (suc left) (b ∷ bytes) base offset vs c h =
      Ensures-after (IsWithin n (length (b ∷ bytes))) _ (dec (b ∷ bytes) (base + 1 + offset) c) _
        (safe (b ∷ bytes) (base + 1 + offset) c)
        (λ v k c₁ r.
          Ensures-weaken (UpTo height_items (offset + k + length (drop k (b ∷ bytes)))) _
            (decode_items dec left (drop k (b ∷ bytes)) base (offset + k) (snoc vs v) c₁).0
            (λ ws j s. (omega (arith, length-drop k (b ∷ bytes)), s.1))
            (items-Ensures left (drop k (b ∷ bytes)) base (offset + k) (snoc vs v) c₁
              (height_items-snoc vs v n r.2 h)))

  module _ (rest : List ℕ) (base : ℕ) (c : Codec) where
    abbrev W : Value → ℕ → Type 0
    W = IsWithin (suc n) (suc (length rest))

    object-Ensures : Ensures W (decode_object dec rest base c).0
    unfolding decode_object height
    object-Ensures =
        Ensures-after (UpTo height_fields (0 + length rest)) W
          (decode_fields dec (length rest) rest base 0 end c) _
          (fields-Ensures (length rest) rest base 0 end c (omega arith) (omega arith))
          (λ gs k d r. (omega arith, omega arith, omega arith))

    ecma_array-Ensures : Ensures W (decode_ecma_array dec rest base c).0
    unfolding decode_ecma_array height
    ecma_array-Ensures =
        Ensures-if W (ltb (length rest) 4) _ _ (λ e. tt)
          (λ e.
            Ensures-after (UpTo height_fields (4 + length (drop 4 rest))) W
              (decode_fields dec (length rest) (drop 4 rest) base 4 end c) _
              (fields-Ensures (length rest) (drop 4 rest) base 4 end c
                (omega (arith, length-drop 4 rest)) (omega arith))
              (λ gs k d r. (omega arith, grind (arith, length-drop 4 rest), omega arith)))

    strict_array-Ensures : Ensures W (decode_strict_array dec rest base c).0
    unfolding decode_strict_array height
    strict_array-Ensures =
        Ensures-if W (ltb (length rest) 4) _ _ (λ e. tt)
          (λ e.
            Ensures-after (UpTo height_items (4 + length (drop 4 rest))) W
              (decode_items dec (read_uint32_be rest) (drop 4 rest) base 4 nil c) _
              (items-Ensures (read_uint32_be rest) (drop 4 rest) base 4 nil c (omega arith))
              (λ gs k d r. (omega arith, grind (arith, length-drop 4 rest), omega arith)))

    switched_amf3-Ensures :
        (depth : ℕ)
        → Ensures W
            (after (decode_amf3_value depth rest (base + 1) c) (λ v k d. (success v (1 + k), d))).0
    switched_amf3-Ensures depth =
        Ensures-after (IsWithin (suc n) (length rest)) W (decode_amf3_value depth rest (base + 1) c)
          _ (amf3_value-Ensures n depth rest (base + 1) c)
          (λ v k d r. (omega arith, omega arith, r.2))

    -- The markers from 8 on.
    marked_rest :
        (depth marker : ℕ)
        → Ensures W
            (if marker == 0x08
              then decode_ecma_array dec rest base c
              else if marker == 0x0A
              then decode_strict_array dec rest base c
              else if marker == 0x0B
              then decode_date rest base c
              else if marker == 0x0C
              then decode_long_string rest base c
              else if marker == 0x11
              then after
                  (decode_amf3_value depth rest (base + 1) c)
                  (λ v k d. (success v (1 + k), d))
              else (failure invalid_type base, c)).0
    marked_rest depth marker =
        Ensures-if W (marker == 8) _ _ (λ e. ecma_array-Ensures)
          (λ e.
            Ensures-if W (marker == 10) _ _ (λ e. strict_array-Ensures)
              (λ e.
                Ensures-if W (marker == 11) _ _ (λ e. date-Ensures n rest base c)
                  (λ e.
                    Ensures-if W (marker == 12) _ _ (λ e. long_string-Ensures n rest base c)
                      (λ e.
                        Ensures-if W (marker == 17) _ _ (λ e. switched_amf3-Ensures depth)
                          (λ e. tt)))))

    pub marked-Ensures :
        (depth marker : ℕ) → Ensures W (decode_marked dec depth marker rest base c).0
    unfolding decode_marked height
    marked-Ensures depth marker =
        Ensures-if W (marker == 0) _ _ (λ e. number-Ensures n rest base c)
          (λ e.
            Ensures-if W (marker == 1) _ _ (λ e. boolean-Ensures n rest base c)
              (λ e.
                Ensures-if W (marker == 2) _ _ (λ e. string-Ensures n rest base c)
                  (λ e.
                    Ensures-if W (marker == 3) _ _ (λ e. object-Ensures)
                      (λ e.
                        Ensures-if W (marker == 5) _ _ (λ e. alone)
                          (λ e.
                            Ensures-if W (marker == 6) _ _ (λ e. alone)
                              (λ e.
                                Ensures-if W (marker == 7) _ _
                                  (λ e. reference-Ensures n rest base c)
                                  (λ e. marked_rest depth marker)))))))
      where
        alone : (1 ≤ 1) × (1 ≤ suc (length rest)) × (0 < suc n)
        alone = (omega arith, omega arith, omega arith)

pub value-IsSafe : (levels : ℕ) → IsSafe levels (decode_value levels)
unfolding decode_value
value-IsSafe zero bytes base c = tt
value-IsSafe (suc levels) [] base c = tt
value-IsSafe (suc levels) (marker ∷ rest) base c =
    marked-Ensures levels (decode_value levels) (value-IsSafe levels) rest base c
      (max_nesting_depth - levels) marker

-- Whatever the bytes and the reference tables, decodeAMF0 ends: its loops do not use up the fuel
-- that the model gives them. A value that it returns has consumed at least one byte and no more than
-- there are, and at most 32 values stand inside one another below it.
pub decode_amf0-Ensures :
    (bytes : List ℕ) (c : Codec)
    → Ensures
        (λ v n. (1 ≤ n) × (n ≤ length bytes) × (height v ≤ max_nesting_depth))
        (decode_amf0 bytes c).0
unfolding decode_amf0
decode_amf0-Ensures bytes c =
    Ensures-weaken (IsWithin all_levels (length bytes)) _ (decode_value all_levels bytes 0 c).0
      (λ v n q. (q.0, q.1, omega arith)) (value-IsSafe all_levels bytes 0 c)

version-Ensures :
    (version : AmfVersion) (bytes : List ℕ) (base : ℕ) (c : Codec)
    → Ensures (IsWithin all_levels (length bytes)) (decode_version version bytes base c).0
unfolding decode_version
version-Ensures amf0 bytes base c = value-IsSafe all_levels bytes base c
version-Ensures amf3 bytes base c = amf3_value-Ensures 32 0 bytes base c

all_loop-Ensures :
    (version : AmfVersion) (fuel : ℕ) (bytes : List ℕ) (offset : ℕ) (vs : Items) (c : Codec)
    → length bytes ≤ fuel
    → height_items vs ≤ all_levels
    → Ensures
        (λ ws n. (n ≡ offset + length bytes) × (height_items ws ≤ all_levels))
        (decode_all_loop version fuel bytes offset vs c).0
unfolding decode_all_loop
all_loop-Ensures version fuel [] offset vs c f h = (omega arith, h)
all_loop-Ensures version zero (b ∷ bytes) offset vs c f h = absurd (omega arith)
all_loop-Ensures version (suc fuel) (b ∷ bytes) offset vs c f h =
    Ensures-after (IsWithin all_levels (length (b ∷ bytes))) _
      (decode_version version (b ∷ bytes) offset c) _ (version-Ensures version (b ∷ bytes) offset c)
      (λ v n c₁ q.
        Ensures-weaken
          (λ ws k. (k ≡ offset + n + length (drop n (b ∷ bytes))) × (height_items ws ≤ all_levels))
          _ (decode_all_loop version fuel (drop n (b ∷ bytes)) (offset + n) (snoc vs v) c₁).0
          (λ ws k r. (omega (arith, length-drop n (b ∷ bytes)), r.1))
          (all_loop-Ensures version fuel (drop n (b ∷ bytes)) (offset + n) (snoc vs v) c₁
            (omega (arith, length-drop n (b ∷ bytes))) (height_items-snoc vs v all_levels q.2 h)))

-- With either version, whatever the bytes and the reference tables, decodeAll ends. When it returns
-- values it has consumed all the bytes, and at most 32 values stand inside one another below each.
pub decode_all-Ensures :
    (version : AmfVersion) (bytes : List ℕ) (c : Codec)
    → Ensures
        (λ vs n. (n ≡ length bytes) × (height_items vs ≤ suc max_nesting_depth))
        (decode_all version bytes c).0
unfolding decode_all height
decode_all-Ensures version bytes c =
    Ensures-weaken (λ ws n. (n ≡ 0 + length bytes) × (height_items ws ≤ all_levels)) _
      (decode_all_loop version (length bytes) bytes 0 nil c).0 (λ ws n q. (omega arith, q.1))
      (all_loop-Ensures version (length bytes) bytes 0 nil c (omega arith) (omega arith))
