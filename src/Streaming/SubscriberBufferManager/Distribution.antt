-- ===== src/Streaming/SubscriberBufferManager/Distribution.antt =====
-- The subscribers' buffers are independent of one another.
use open_rtmp_claude_kiro.Common.{Bool, Bool-cases, List, [], inl, inr, refl, ℕ, ◌==◌, ◌∷◌, ◌≡◌}
use open_rtmp_claude_kiro.Common.Maps.{find, nat_eq}
use open_rtmp_claude_kiro.Streaming.Frames.{BufferedFrame}
use open_rtmp_claude_kiro.Streaming.SubscriberBuffer.{SubscriberBuffer}
use open_rtmp_claude_kiro.Streaming.SubscriberBufferManager.{
  SubscriberBufferManager, distribute_to_all, push_all,
}
use open_rtmp_claude_kiro.Streaming.SubscriberBuffer
use mathlib.Core.Option

find-push_all :
    (now : ℕ) (callback : Bool) (f : BufferedFrame) (bs : List (ℕ × SubscriberBuffer)) (id : ℕ)
    → find id (push_all now callback f bs).0
      ≡ Option.map (λ b. (SubscriberBuffer.push now f b).0) (find id bs)
unfolding find push_all
find-push_all now callback f [] id = refl
find-push_all now callback f ((j, b) ∷ bs) id = elim (Bool-cases (j == id)) [
  | inl e ↦ rw (e) refl
  | inr e ↦ rw (e) (find-push_all now callback f bs id)
]

-- A frame that is distributed to all reaches each subscriber's buffer as a push to that buffer
-- alone would, whatever the other buffers hold; no subscriber appears or disappears.
pub find-distribute_to_all :
    (now : ℕ) (f : BufferedFrame) (m : SubscriberBufferManager) (id : ℕ)
    → find id (distribute_to_all now f m).0.buffers
      ≡ Option.map (λ b. (SubscriberBuffer.push now f b).0) (find id m.buffers)
unfolding distribute_to_all
find-distribute_to_all now f m id = find-push_all now m.has_callback f m.buffers id
