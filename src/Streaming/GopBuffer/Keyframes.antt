-- ===== src/Streaming/GopBuffer/Keyframes.antt =====
-- The last keyframe of a sequence of frames, described from the front, and the index of it.
use open_rtmp_claude_kiro.Common.{
  Bool, Bool-cases, List, [], ap, arith, drop, drop-all, drop-append, drop-append_self, false,
  if◌then◌else◌, inl, inr, length, length-append, positive-beq, refl, suc, sym, true, zero, ℕ, ◌++◌,
  ◌<◌, ◌||◌, ◌∙◌, ◌∷◌, ◌≡◌,
}
use open_rtmp_claude_kiro.Streaming.Frames.{BufferedFrame, is_video_keyframe}
use open_rtmp_claude_kiro.Streaming.GopBuffer.{
  GopBuffer, append_frame, find_keyframe, get_from_last_keyframe, keyframe_at, set_keyframe_index,
  update_keyframe_index,
}

unfoldable pub any_keyframe : List BufferedFrame → Bool
any_keyframe [] = false
any_keyframe (f ∷ fs) = is_video_keyframe f || any_keyframe fs

-- The frames from the last video keyframe on: none where there is no keyframe.
unfoldable pub from_last_keyframe : List BufferedFrame → List BufferedFrame
from_last_keyframe [] = []
from_last_keyframe (f ∷ fs) =
    if any_keyframe fs then from_last_keyframe fs else if is_video_keyframe f then f ∷ fs else []

-- The index tells whether there is a keyframe, and where the last one is.
abbrev pub IsIndexed : GopBuffer → Type 0
IsIndexed b =
    (b.has_keyframe ≡ any_keyframe b.frames)
    × (b.has_keyframe ≡ true
        → (b.last_keyframe_index < length b.frames)
          × (drop b.last_keyframe_index b.frames ≡ from_last_keyframe b.frames))

no_keyframe : (fs : List BufferedFrame) → any_keyframe fs ≡ false → from_last_keyframe fs ≡ []
unfolding any_keyframe from_last_keyframe
no_keyframe [] h = refl
no_keyframe (f ∷ fs) h = ground arith

-- For an indexed buffer the frames from the last keyframe on are those of the description.
pub get_from_last_keyframe-IsIndexed :
    (b : GopBuffer) → IsIndexed b → get_from_last_keyframe b ≡ from_last_keyframe b.frames
unfolding get_from_last_keyframe
get_from_last_keyframe-IsIndexed b h = elim (Bool-cases b.has_keyframe) [
  | inl e ↦ rw (e, positive-beq (length b.frames) (omega (arith, (h.1 e).0))) (h.1 e).1
  | inr e ↦ rw (e) (sym (no_keyframe b.frames (sym h.0 ∙ e)))
]

-- Nothing but a prefix without the last keyframe may be taken away.
pub from_last_keyframe-drop :
    (n : ℕ) (fs : List BufferedFrame)
    → any_keyframe (drop n fs) ≡ true
    → (any_keyframe fs ≡ true) × (from_last_keyframe (drop n fs) ≡ from_last_keyframe fs)
unfolding any_keyframe from_last_keyframe
from_last_keyframe-drop zero fs h = (h, refl)
from_last_keyframe-drop (suc n) [] h = (h, refl)
from_last_keyframe-drop (suc n) (f ∷ fs) h =
    let rest = from_last_keyframe-drop n fs h in (ground arith, rw (rest.0) rest.1)

found :
    (i : ℕ) (fs : List BufferedFrame)
    → keyframe_at i fs ≡ true
    → any_keyframe (drop (suc i) fs) ≡ false
    → (any_keyframe fs ≡ true) × (i < length fs) × (drop i fs ≡ from_last_keyframe fs)
unfolding keyframe_at any_keyframe from_last_keyframe
found i [] h k = absurd cc
found zero (f ∷ fs) h k = (ground arith, omega arith, rw (k, h) refl)
found (suc i) (f ∷ fs) h k =
    let rest = found i fs h k in (ground arith, omega (arith, rest.1), rw (rest.0) rest.2)

passed :
    (i : ℕ) (fs : List BufferedFrame)
    → keyframe_at i fs ≡ false
    → any_keyframe (drop (suc i) fs) ≡ false
    → any_keyframe (drop i fs) ≡ false
unfolding keyframe_at any_keyframe
passed zero [] h k = refl
passed (suc i) [] h k = refl
passed zero (f ∷ fs) h k = ground arith
passed (suc i) (f ∷ fs) h k = passed i fs h k

set_keyframe_index-IsIndexed :
    (n : ℕ) (b : GopBuffer)
    → any_keyframe (drop n b.frames) ≡ false
    → IsIndexed (set_keyframe_index (find_keyframe n b.frames) b)
unfolding set_keyframe_index find_keyframe
set_keyframe_index-IsIndexed zero b h = (sym h, λ e. absurd cc)
set_keyframe_index-IsIndexed (suc i) b h = elim (Bool-cases (keyframe_at i b.frames)) [
  | inl e ↦
      let (some_keyframe, bound, same) = found i b.frames e h in
      rw (e, find_keyframe) (sym some_keyframe, λ d. (bound, same))
  | inr e ↦ rw (e, find_keyframe) (set_keyframe_index-IsIndexed i b (passed i b.frames e h))
]

pub update_keyframe_index-IsIndexed : (b : GopBuffer) → IsIndexed (update_keyframe_index b)
unfolding update_keyframe_index any_keyframe
update_keyframe_index-IsIndexed b =
    set_keyframe_index-IsIndexed (length b.frames) b
      (ap any_keyframe (drop-all (length b.frames) b.frames (omega arith)))

any_keyframe-append :
    (fs gs : List BufferedFrame) → any_keyframe (fs ++ gs) ≡ (any_keyframe fs || any_keyframe gs)
unfolding any_keyframe
any_keyframe-append [] gs = refl
any_keyframe-append (f ∷ fs) gs = ground (arith, any_keyframe-append fs gs)

-- One frame more at the end.
from_last_keyframe-snoc :
    (fs : List BufferedFrame) (f : BufferedFrame)
    → from_last_keyframe (fs ++ (f ∷ [])) ≡ (
        if is_video_keyframe f
        then f ∷ []
        else if any_keyframe fs
        then from_last_keyframe fs ++ (f ∷ [])
        else [])
unfolding any_keyframe from_last_keyframe
from_last_keyframe-snoc [] f = refl
from_last_keyframe-snoc (g ∷ fs) f =
    ground (arith, any_keyframe-append fs (f ∷ []), from_last_keyframe-snoc fs f)

pub append_frame-IsIndexed :
    (f : BufferedFrame) (b : GopBuffer) → IsIndexed b → IsIndexed (append_frame f b)
unfolding append_frame any_keyframe
append_frame-IsIndexed f b h = elim (Bool-cases (is_video_keyframe f)) [
  | inl e ↦ rw (e) (
    ground (arith, any_keyframe-append b.frames (f ∷ [])),
    λ d. (
      omega (arith, length-append b.frames (f ∷ [])),
      drop-append_self b.frames (f ∷ []) ∙ sym (simp e at (from_last_keyframe-snoc b.frames f)),
    ),
  )
  | inr e ↦ rw (e) (
    h.0 ∙ ground (arith, any_keyframe-append b.frames (f ∷ [])),
    λ d. (
      omega (arith, length-append b.frames (f ∷ []), (h.1 d).0),
      drop-append b.last_keyframe_index b.frames (f ∷ []) (omega (arith, (h.1 d).0))
          ∙ ap (λ fs. fs ++ (f ∷ [])) (h.1 d).1
          ∙ sym (simp (e, sym h.0 ∙ d) at (from_last_keyframe-snoc b.frames f)),
    ),
  )
]
