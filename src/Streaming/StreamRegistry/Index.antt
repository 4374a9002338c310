-- ===== src/Streaming/StreamRegistry/Index.antt =====
-- The two maps of the registry: streams by key, and keys by identifier.
pub mod Steps
use open_rtmp_claude_kiro.Common.{
  Bool-cases, [], ap, arith, eq_of_some, inl, inr, none, refl, some, sym, ℕ, ◌∙◌, ◌≡◌, ◌≢◌, ◌⊎◌,
}
use open_rtmp_claude_kiro.Common.Maps.{
  beq_false, contains, contains-find-none, emplace, emplace-absent, erase, find, find-emplace-inv,
  find-emplace_absent, find-emplace_present, find-erase-inv, find-erase_other, find-insert-inv,
  find-insert_other, find-insert_self, insert, nat_eq,
}
use open_rtmp_claude_kiro.Streaming.StreamRegistry.{
  StreamInfo, StreamRegistry, new_stream_info, put_stream, register_stream,
}
use open_rtmp_claude_kiro.Streaming.Types.{
  StreamKey, stream_key_beq, stream_key_beq_iff, stream_key_eq,
}

-- Every stream is stored under its own key; every identifier of the index leads to a stream that
-- has it; and a stream that has the identifier `id` is the one that `id` leads to.
pub record IsIndexed (id : ℕ) (r : StreamRegistry) : Type 0 where
  pub named :
      (key : StreamKey) (info : StreamInfo) → find key r.streams ≡ some info → info.key ≡ key
  pub listed :
      (j : ℕ) (key : StreamKey)
      → find j r.stream_id_index ≡ some key
      → (info : StreamInfo) × (find key r.streams ≡ some info) × (info.stream_id ≡ j)
  pub owned :
      (key : StreamKey) (info : StreamInfo)
      → find key r.streams ≡ some info
      → info.stream_id ≡ id
      → find id r.stream_id_index ≡ some key

pub empty-IsIndexed :
    (id : ℕ) (r : StreamRegistry) → r.streams ≡ [] → r.stream_id_index ≡ [] → IsIndexed id r
unfolding find
empty-IsIndexed id r s i = record {
  named = λ key info h. ground arith;
  listed = λ j key h. ground arith;
  owned = λ key info h e. ground arith;
}

-- The index does not look at the identifiers to come or at the callback.
pub same-IsIndexed :
    (id : ℕ) (r t : StreamRegistry)
    → r.streams ≡ t.streams
    → r.stream_id_index ≡ t.stream_id_index
    → IsIndexed id r
    → IsIndexed id t
same-IsIndexed id r t s i v = record {
  named = λ key info h. ground (arith, v.named key info);
  listed = λ j key h. let (x, f, e) = v.listed j key (rw (i) h) in (x, rw (sym s) f, e);
  owned = λ key info h e. ground (arith, v.owned key info);
}

-- Replacing a stream by one with the same key and identifier keeps the index.
pub put_stream-IsIndexed :
    (id : ℕ) (key : StreamKey) (old info : StreamInfo) (r : StreamRegistry)
    → find key r.streams ≡ some old
    → info.key ≡ old.key
    → info.stream_id ≡ old.stream_id
    → IsIndexed id r
    → IsIndexed id (put_stream key info r)
put_stream-IsIndexed id key old info r h k i v = record {
  named =
      λ j x e. ground (arith, find-insert-inv key j r.streams e, v.named key old h, v.named j x);
  listed = λ n j e.
      let (x, f, s) = v.listed n j e in
      elim (Bool-cases (stream_key_beq key j)) [
        | inl t ↦
            let q = (stream_key_beq_iff key j).0 t in
            let p : old ≡ x = eq_of_some (sym h ∙ ap (λ k. find k r.streams) q ∙ f) in
            (
              info,
              ap (λ k. find k (insert key info r.streams)) (sym q)
                  ∙ find-insert_self key info r.streams,
              i ∙ ap StreamInfo.stream_id p ∙ s,
            )
        | inr n ↦ (x, find-insert_other key j info r.streams n ∙ f, s)
      ];
  owned =
      λ j x e m. ground (arith, find-insert-inv key j r.streams e, v.owned key old h, v.owned j x);
}

-- A stream registered under a key that no stream has. Its identifier is not `id`, or leads nowhere.
emplace-IsIndexed :
    (id : ℕ) (key : StreamKey) (info : StreamInfo) (r : StreamRegistry)
    → info.key ≡ key
    → find key r.streams ≡ none
    → (info.stream_id ≢ id) ⊎ (find info.stream_id r.stream_id_index ≡ none)
    → IsIndexed id r
    → IsIndexed id (record (put_stream key info r) {
      stream_id_index = emplace info.stream_id key r.stream_id_index;
    })
emplace-IsIndexed id key info r k a n v = record {
  named = λ j x e. ground (arith, find-insert-inv key j r.streams e, v.named j x);
  listed = λ i j e. elim (find-emplace-inv info.stream_id i r.stream_id_index e) [
    | inl (p, q) ↦ (info, rw (sym q) (find-insert_self key info r.streams), p)
    | inr f ↦
        let (x, g, s) = v.listed i j f in
        (x, find-insert_other key j info r.streams (beq_false key j (λ q. ground (arith))) ∙ g, s)
  ];
  owned = λ j x e m. ground (
    arith,
    n,
    find-insert-inv key j r.streams e,
    find-emplace_absent info.stream_id key r.stream_id_index,
    find-emplace_present {w = j} info.stream_id id key r.stream_id_index,
    v.owned j x,
  );
}

pub register_stream-IsIndexed :
    (id : ℕ) (key : StreamKey) (n publisher : ℕ) (r : StreamRegistry)
    → (n ≢ id) ⊎ (find n r.stream_id_index ≡ none)
    → IsIndexed id r
    → IsIndexed id (register_stream key n publisher r).after
unfolding register_stream new_stream_info
register_stream-IsIndexed id key n publisher r h v = elim (Bool-cases (contains key r.streams)) [
  | inl c ↦ rw (c) v
  | inr c ↦
      let a = contains-find-none key r.streams c in
      rw (c, emplace-absent key (new_stream_info key n publisher) r.streams a)
        (emplace-IsIndexed id key (new_stream_info key n publisher) r refl a h v)
]

-- A stream taken away with its identifier.
pub erase-IsIndexed :
    (id : ℕ) (key : StreamKey) (info : StreamInfo) (r : StreamRegistry)
    → find key r.streams ≡ some info
    → IsIndexed id r
    → IsIndexed id (record r {
      stream_id_index = erase info.stream_id r.stream_id_index;
      streams = erase key r.streams;
    })
erase-IsIndexed id key info r h v = record {
  named = λ j x e. ground (arith, find-erase-inv key j r.streams e, v.named j x);
  listed = λ i j e.
      let (b, f) = find-erase-inv info.stream_id i r.stream_id_index e in
      let (x, g, s) = v.listed i j f in
      let n : key ≢ j = λ q.
        let p : info ≡ x = eq_of_some (sym h ∙ ap (λ k. find k r.streams) q ∙ g) in
        ground (arith, ap StreamInfo.stream_id p) in
      (x, find-erase_other key j r.streams (beq_false key j n) ∙ g, s);
  owned = λ j x e m. ground (
    arith,
    find-erase-inv key j r.streams e,
    stream_key_beq_iff key j,
    find-erase_other info.stream_id id r.stream_id_index,
    beq_false info.stream_id id,
    v.owned key info h,
    v.owned j x,
  );
}
