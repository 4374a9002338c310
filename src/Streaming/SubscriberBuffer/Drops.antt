-- ===== src/Streaming/SubscriberBuffer/Drops.antt =====
-- What dropping frames keeps: the preserved frames in their order, and the accounts.
use open_rtmp_claude_kiro.Common.{
  Bool, Bool-cases, List, [], append-nil, append_assoc, arith, false, if◌then◌else◌, inl, inr, leb,
  length, refl, subst, suc, sym, true, zero, ℕ, ◌++◌, ◌∙◌, ◌∷◌, ◌≡◌,
}
use open_rtmp_claude_kiro.Streaming.Frames.{
  BufferedFrame, MediaType, audio, buffer_duration, data_frame, is_audio, is_data, is_video, video,
}
use open_rtmp_claude_kiro.Streaming.SubscriberBuffer.{
  SubscriberBuffer, SubscriberBufferConfig, count_frame, drop_frame, drop_pass,
  enforce_buffer_limit, enforce_loop, is_preserved, must_drop, push, report, should_drop_frame,
}

-- What the erasure of a droppable frame keeps holds after any number of them.
module _ (now : ℕ) (P : SubscriberBuffer → Type 0)
    (erased : (b : SubscriberBuffer) (f : BufferedFrame) (kept rest : List BufferedFrame)
      → is_preserved b.config f ≡ false
      → P (record b { frames = kept ++ (f ∷ rest) })
      → P (record (drop_frame now f b) { frames = kept ++ rest })) where
  drop_pass-keeps :
      (b : SubscriberBuffer) (any : Bool) (reports kept rest : List BufferedFrame)
      → P (record b { frames = kept ++ rest })
      → P (drop_pass now b any reports kept rest).buffer
  unfolding drop_pass
  drop_pass-keeps b any reports kept [] h =
      subst (λ fs. P (record b { frames = fs })) (append-nil kept) h
  drop_pass-keeps b any reports kept (f ∷ rest) h =
      elim (Bool-cases (leb (buffer_duration (kept ++ (f ∷ rest))) b.config.max_buffer_duration)) [
        | inl e ↦ rw (e, drop_pass) h
        | inr e ↦ elim (Bool-cases (is_preserved b.config f)) [
          | inl d ↦
              rw (e, d, drop_pass)
                (drop_pass-keeps b any reports (kept ++ (f ∷ [])) rest (
                  subst (λ fs. P (record b { frames = fs })) (sym (append_assoc kept (f ∷ []) rest))
                    h))
          | inr d ↦
              rw (e, d, drop_pass)
                (drop_pass-keeps (drop_frame now f b) true (report b f reports) kept rest
                  (erased b f kept rest d h))
        ]
      ]

  enforce_loop-keeps :
      (fuel : ℕ) (b : SubscriberBuffer) (reports : List BufferedFrame)
      → P b
      → P (enforce_loop now fuel b reports).0
  unfolding enforce_loop
  enforce_loop-keeps zero b reports h = h
  enforce_loop-keeps (suc fuel) b reports h =
      let p = drop_pass now b false reports [] b.frames in
      let kept = drop_pass-keeps b false reports [] b.frames h in
      elim (Bool-cases (must_drop b)) [
        | inl e ↦ elim (Bool-cases p.dropped_any) [
          | inl d ↦ rw (e, d, enforce_loop) (enforce_loop-keeps fuel p.buffer p.reports kept)
          | inr d ↦ rw (e, d, enforce_loop) kept
        ]
        | inr e ↦ rw (e, enforce_loop) h
      ]

  pub enforce-keeps : (b : SubscriberBuffer) → P b → P (enforce_buffer_limit now b).0
  unfolding enforce_buffer_limit
  enforce-keeps b h = enforce_loop-keeps (suc (length b.frames)) b [] h

-- The frames that the buffer does not drop, in their order.
unfoldable pub preserved : SubscriberBufferConfig → List BufferedFrame → List BufferedFrame
preserved config [] = []
preserved config (f ∷ fs) =
    if is_preserved config f then f ∷ preserved config fs else preserved config fs

preserved-append :
    (config : SubscriberBufferConfig) (fs gs : List BufferedFrame)
    → preserved config (fs ++ gs) ≡ preserved config fs ++ preserved config gs
unfolding preserved
preserved-append config [] gs = refl
preserved-append config (f ∷ fs) gs = elim (Bool-cases (is_preserved config f)) [
  | inl e ↦ rw (e, preserved-append config fs gs) refl
  | inr e ↦ rw (e, preserved-append config fs gs) refl
]

abbrev SamePreserved : SubscriberBufferConfig → List BufferedFrame → SubscriberBuffer → Type 0
SamePreserved config fs c = (c.config ≡ config) × (preserved config c.frames ≡ preserved config fs)

preserved-drop_frame :
    (now : ℕ) (config : SubscriberBufferConfig) (fs : List BufferedFrame) (b : SubscriberBuffer)
    (f : BufferedFrame) (kept rest : List BufferedFrame)
    → is_preserved b.config f ≡ false
    → SamePreserved config fs (record b { frames = kept ++ (f ∷ rest) })
    → SamePreserved config fs (record (drop_frame now f b) { frames = kept ++ rest })
unfolding preserved drop_frame
preserved-drop_frame now config fs b f kept rest e h =
    let d : is_preserved config f ≡ false = subst (λ g. is_preserved g f ≡ false) h.0 e in
    (
      h.0,
      preserved-append config kept rest
          ∙ sym (simp d at (preserved-append config kept (f ∷ rest)))
          ∙ h.1,
    )

video-alone : (m : MediaType) → is_video m ≡ true → (is_audio m ≡ false) × (is_data m ≡ false)
unfolding is_video is_audio is_data
video-alone audio h = absurd cc
video-alone video h = (refl, refl)
video-alone data_frame h = absurd cc

pub should_drop-droppable :
    (b : SubscriberBuffer) (f : BufferedFrame)
    → should_drop_frame b f ≡ true
    → is_preserved b.config f ≡ false
unfolding should_drop_frame is_preserved
should_drop-droppable b f h = ground (arith, video-alone f.media_type)

-- Of the frames in the buffer and the frame that is pushed, those that the configuration preserves
-- (video keyframes, data frames, and audio where it is preserved) are in the buffer afterwards, in
-- the same order, with no other preserved frame.
pub preserved-push :
    (now : ℕ) (f : BufferedFrame) (b : SubscriberBuffer)
    → preserved b.config (push now f b).0.frames ≡ preserved b.config (b.frames ++ (f ∷ []))
unfolding push preserved
preserved-push now f b = elim (Bool-cases (should_drop_frame (count_frame f b) f)) [
  | inl e ↦
      rw
        (
          e,
          preserved-append b.config b.frames (f ∷ []),
          should_drop-droppable (count_frame f b) f e,
        )
        (sym (append-nil (preserved b.config b.frames)))
  | inr e ↦
      rw (e)
        (enforce-keeps now (SamePreserved b.config (b.frames ++ (f ∷ [])))
          (preserved-drop_frame now b.config (b.frames ++ (f ∷ []))) _ (refl, refl)).1
]
