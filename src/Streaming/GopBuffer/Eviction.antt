-- ===== src/Streaming/GopBuffer/Eviction.antt =====
-- What an eviction keeps: a suffix of the frames with the last group of pictures, the byte count, and
-- the keyframe index.
use open_rtmp_claude_kiro.Common.{
  All, Bool-cases, List, Option, [], ap, append_assoc, arith, drop, drop-append_self, false,
  if◌then◌else◌, inl, inr, length, length-append, ltb, none, not, refl, some, sub64, subst, suc,
  sym, true, zero, ℕ, ◌%◌, ◌&&◌, ◌++◌, ◌<◌, ◌==◌, ◌^◌, ◌||◌, ◌∙◌, ◌∷◌, ◌≡◌, ◌≤◌,
}
use open_rtmp_claude_kiro.Streaming.Frames.{
  BufferedFrame, is_video_keyframe, max_timestamp, size, total_bytes,
}
use open_rtmp_claude_kiro.Streaming.GopBuffer.{
  GopBuffer, GopBufferConfig, evict_by, evict_front, evict_old_frames, find_boundary, find_keyframe,
  is_last, keyframe_indices, meets, needs_eviction, pop_frames, set_keyframe_index, size_fits,
  update_keyframe_index, with_frames,
}
use open_rtmp_claude_kiro.Streaming.GopBuffer.Keyframes.{
  IsIndexed, any_keyframe, from_last_keyframe, from_last_keyframe-drop,
  update_keyframe_index-IsIndexed,
}

abbrev pub IsWeighed : GopBuffer → Type 0
IsWeighed b = b.buffered_bytes ≡ total_bytes b.frames % 2 ^ 64

kept :
    (o : Option ℕ) (b : GopBuffer)
    → ((set_keyframe_index o b).frames ≡ b.frames)
      × ((set_keyframe_index o b).buffered_bytes ≡ b.buffered_bytes)
unfolding set_keyframe_index
kept none b = (refl, refl)
kept (some i) b = (refl, refl)

update-frames :
    (b : GopBuffer)
    → ((update_keyframe_index b).frames ≡ b.frames)
      × ((update_keyframe_index b).buffered_bytes ≡ b.buffered_bytes)
unfolding update_keyframe_index
update-frames b = kept (find_keyframe (length b.frames) b.frames) b

evicted-size :
    (f : BufferedFrame) (bytes : ℕ) (fs : List BufferedFrame)
    → bytes ≡ total_bytes (f ∷ fs) % 2 ^ 64
    → sub64 bytes (size f) ≡ total_bytes fs % 2 ^ 64
unfolding total_bytes size
evicted-size f bytes fs h = omega arith

pop_frames-bytes :
    (n bytes : ℕ) (fs : List BufferedFrame)
    → bytes ≡ total_bytes fs % 2 ^ 64
    → ((pop_frames n bytes fs).1 ≡ total_bytes (drop n fs) % 2 ^ 64)
      × ((pop_frames n bytes fs).0 ≡ drop n fs)
unfolding pop_frames total_bytes
pop_frames-bytes zero bytes fs h = (h, refl)
pop_frames-bytes (suc n) bytes [] h = (h, refl)
pop_frames-bytes (suc n) bytes (f ∷ fs) h =
    pop_frames-bytes n (sub64 bytes (size f)) fs (evicted-size f bytes fs h)

-- What the size alone evicts.
evict_front-bytes :
    (limit bytes : ℕ) (fs : List BufferedFrame)
    → bytes ≡ total_bytes fs % 2 ^ 64
    → (n : ℕ) × ((evict_front limit bytes fs).0 ≡ drop n fs)
      × ((evict_front limit bytes fs).1 ≡ total_bytes (drop n fs) % 2 ^ 64)
      × ((evict_front limit bytes fs).1 ≤ limit)
unfolding evict_front total_bytes
evict_front-bytes limit bytes [] h = (0, refl, h, omega arith)
evict_front-bytes limit bytes (f ∷ fs) h = elim (Bool-cases (ltb limit bytes)) [
  | inl e ↦
      let (n, same, counted, bound) =
        evict_front-bytes limit (sub64 bytes (size f)) fs (evicted-size f bytes fs h) in
      rw (e) (suc n, same, counted, bound)
  | inr e ↦ rw (e) (0, refl, h, ground arith)
]

-- Each index is one from which on there is a keyframe.
indices-any :
    (i : ℕ) (before fs : List BufferedFrame)
    → i ≡ length before
    → All (λ p. any_keyframe (drop p (before ++ fs)) ≡ true) (keyframe_indices i fs)
unfolding keyframe_indices any_keyframe
indices-any i before [] e = tt
indices-any i before (f ∷ fs) e =
    let later =
      subst (λ gs. All (λ p. any_keyframe (drop p gs) ≡ true) (keyframe_indices (suc i) fs))
        (append_assoc before (f ∷ []) fs)
        (indices-any (suc i) (before ++ (f ∷ [])) fs
          (omega (arith, length-append before (f ∷ [])))) in
    elim (Bool-cases (is_video_keyframe f)) [
      | inl d ↦ rw (d) (rw (e, drop-append_self before (f ∷ fs), d) refl, later)
      | inr d ↦ rw (d) later
    ]

-- A property of the candidates holds of the boundary that is found.
find_boundary-keeps :
    (P : ℕ → Type 0) (config : GopBufferConfig) (high : ℕ) (fs : List BufferedFrame) (boundary : ℕ)
    (ps : List ℕ)
    → P boundary
    → All P ps
    → P (find_boundary config high fs boundary ps)
unfolding find_boundary
find_boundary-keeps P config high fs boundary [] h a = h
find_boundary-keeps P config high fs boundary (p ∷ ps) h a =
    let accepted = meets config high (is_last ps) (drop p fs) in
    elim (Bool-cases (accepted && size_fits config (drop p fs))) [
      | inl e ↦ rw (e, find_boundary) a.0
      | inr e ↦
          rw (e, find_boundary)
            (find_boundary-keeps P config high fs (if accepted then p else boundary) ps
              (elim accepted as (λ x. P (if x then p else boundary)) [ true ↦ a.0 | false ↦ h ])
              a.1)
    ]

-- The frames after an eviction are a suffix and are counted. With two keyframes or more the frames
-- from the last keyframe on stay; with fewer the size limit is met.
abbrev pub IsEviction : List ℕ → GopBuffer → GopBuffer → Type 0
IsEviction indices b c =
    ((n : ℕ) × (c.frames ≡ drop n b.frames))
    × IsWeighed c
    × (2 ≤ length indices → from_last_keyframe c.frames ≡ from_last_keyframe b.frames)
    × (length indices < 2 → c.buffered_bytes ≤ b.config.max_buffer_size)

-- A loop's frames and bytes, with the keyframe index brought up to date.
updated-IsEviction :
    (indices : List ℕ) (b : GopBuffer) (n : ℕ) (next : List BufferedFrame × ℕ)
    → next.0 ≡ drop n b.frames
    → next.1 ≡ total_bytes (drop n b.frames) % 2 ^ 64
    → (2 ≤ length indices → from_last_keyframe (drop n b.frames) ≡ from_last_keyframe b.frames)
    → (length indices < 2 → next.1 ≤ b.config.max_buffer_size)
    → IsEviction indices b (update_keyframe_index (with_frames next b))
unfolding with_frames
updated-IsEviction indices b n (fs, bytes) same counted whole small =
    let (frames, weight) = update-frames (with_frames (fs, bytes) b) in
    (
      (n, frames ∙ same),
      weight ∙ counted ∙ ap (λ gs. total_bytes gs % 2 ^ 64) (sym (frames ∙ same)),
      λ h. ap from_last_keyframe (frames ∙ same) ∙ whole h,
      λ h. rw (weight) (small h),
    )

front-IsEviction :
    (indices : List ℕ) (b : GopBuffer)
    → length indices < 2
    → IsWeighed b
    → IsEviction indices b (
        update_keyframe_index
          (with_frames (evict_front b.config.max_buffer_size b.buffered_bytes b.frames) b))
front-IsEviction indices b few h =
    let (n, same, counted, bound) =
      evict_front-bytes b.config.max_buffer_size b.buffered_bytes b.frames h in
    updated-IsEviction indices b n _ same counted (λ many. absurd (omega arith)) (λ few. bound)

evict_by-IsEviction :
    (indices : List ℕ) (b : GopBuffer)
    → All (λ p. any_keyframe (drop p b.frames) ≡ true) indices
    → IsWeighed b
    → IsEviction indices b (evict_by indices b)
unfolding evict_by
evict_by-IsEviction [] b a h = front-IsEviction [] b (omega arith) h
evict_by-IsEviction (k ∷ []) b a h = front-IsEviction (k ∷ []) b (omega arith) h
evict_by-IsEviction (k ∷ p ∷ ps) b a h =
    let high = max_timestamp 0 b.frames in
    let boundary = find_boundary b.config high b.frames 0 (p ∷ ps) in
    let first = (from_last_keyframe-drop k b.frames a.0).0 in
    let stays =
      find_boundary-keeps (λ i. any_keyframe (drop i b.frames) ≡ true) b.config high b.frames 0
        (p ∷ ps) first a.1 in
    let (counted, same) = pop_frames-bytes boundary b.buffered_bytes b.frames h in
    updated-IsEviction (k ∷ p ∷ ps) b boundary _ same counted
      (λ many. (from_last_keyframe-drop boundary b.frames stays).1) (λ few. absurd (omega arith))

no_bytes : (fs : List BufferedFrame) → (length fs == 0) ≡ true → total_bytes fs ≡ 0
unfolding total_bytes
no_bytes [] h = refl
no_bytes (f ∷ fs) h = absurd (ground arith)

within_size :
    (b : GopBuffer)
    → IsWeighed b
    → ((length b.frames == 0) || not (needs_eviction b)) ≡ true
    → b.buffered_bytes ≤ b.config.max_buffer_size
unfolding needs_eviction
within_size b h e = elim (Bool-cases (length b.frames == 0)) [
  | inl d ↦ let none_left = no_bytes b.frames d in omega (arith, h, none_left)
  | inr d ↦ ground arith
]

pub evict-IsEviction :
    (b : GopBuffer) → IsWeighed b → IsEviction (keyframe_indices 0 b.frames) b (evict_old_frames b)
unfolding evict_old_frames needs_eviction total_bytes
evict-IsEviction b h = elim (Bool-cases ((length b.frames == 0) || not (needs_eviction b))) [
  | inl e ↦ rw (e) ((0, refl), h, λ many. refl, λ few. within_size b h e)
  | inr e ↦ rw (e) (
      evict_by-IsEviction (keyframe_indices 0 b.frames) b (indices-any 0 [] b.frames (omega arith))
        h)
]

pub evict-IsIndexed : (b : GopBuffer) → IsIndexed b → IsIndexed (evict_old_frames b)
unfolding evict_old_frames evict_by
evict-IsIndexed b h = elim (Bool-cases ((length b.frames == 0) || not (needs_eviction b))) [
  | inl e ↦ rw (e) h
  | inr e ↦ rw (e) (by_count (keyframe_indices 0 b.frames))
]
  where
    by_count : (indices : List ℕ) → IsIndexed (evict_by indices b)
    by_count [] = update_keyframe_index-IsIndexed _
    by_count (k ∷ []) = update_keyframe_index-IsIndexed _
    by_count (k ∷ p ∷ ps) = update_keyframe_index-IsIndexed _
