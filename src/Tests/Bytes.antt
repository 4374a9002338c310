-- ===== src/Tests/Bytes.antt =====
-- A writer's bytes read back.
use open_rtmp_claude_kiro.Common.{List, [], arith, length, some, ◌++◌, ◌∷◌, ◌≡◌}
use open_rtmp_claude_kiro.Core.Buffer.RoundTrip.{
  Item, raw, read_all_like, read_all_like-write_items, uint16_be, uint32_le, write_items,
}

abbrev items : List Item
items = uint16_be 513 ∷ raw (7 ∷ 8 ∷ []) ∷ uint32_le 3735928559 ∷ []

read_all_like-write_items_example :
    read_all_like items (record { bytes = write_items items (1 ∷ []) ++ (2 ∷ []); position = 1 })
    ≡ some (
      items,
      record {
        bytes = write_items items (1 ∷ []) ++ (2 ∷ []);
        position = length (write_items items (1 ∷ []));
      },
    )
read_all_like-write_items_example =
    read_all_like-write_items items (1 ∷ []) (2 ∷ []) (omega arith, (tt, (omega arith, tt)))
