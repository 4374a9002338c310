-- ===== src/Core/PublisherLimit/Watermarks.antt =====
-- The order of the watermark events, and the balance of the counters.
use open_rtmp_claude_kiro.Common.{
  Bool, Bool-cases, List, [], arith, false, inl, inr, leb, length, map, map-append, mem, refl, true,
  ℕ, ◌++◌, ◌∷◌, ◌≡◌,
}
use open_rtmp_claude_kiro.Core.PublisherLimit.{
  PublisherLimit, PublisherLimitEvent, PublisherLimitEventType, Reply, acquire_publisher_slot,
  check_high, check_low, check_watermarks, drop_slot, emit_event, finish, high_watermark,
  limit_reached, low_watermark, publisher_acquired, publisher_rejected, publisher_released,
  release_publisher_slot, take_slot,
}

-- Acquiring or releasing a slot.
pub data SlotCall : Type 0 where
  acquires_slot releases_slot : ℕ → SlotCall

unfoldable pub call_slot : SlotCall → PublisherLimit → Reply
call_slot (acquires_slot id) l = acquire_publisher_slot id l
call_slot (releases_slot id) l = release_publisher_slot id l

-- The events of several calls, and the limit after them.
unfoldable pub run_slots :
    List SlotCall → PublisherLimit → List PublisherLimitEvent × PublisherLimit
run_slots [] l = ([], l)
run_slots (c ∷ cs) l =
    let r = call_slot c l in let (events, t) = run_slots cs r.after in (r.events ++ events, t)

-- Whether the watermark events of a list alternate, from the stated flag to the stated flag.
abbrev pub Alternates : Bool → List PublisherLimitEventType → Bool → Type 0
Alternates b [] c = b ≡ c
Alternates b (high_watermark ∷ es) c = (b ≡ false) × Alternates true es c
Alternates b (low_watermark ∷ es) c = (b ≡ true) × Alternates false es c
Alternates b (_ ∷ es) c = Alternates b es c

abbrev pub types : List PublisherLimitEvent → List PublisherLimitEventType
types es = map PublisherLimitEvent.type es

Alternates-append :
    (b c d : Bool) (es fs : List PublisherLimitEventType)
    → Alternates b es c
    → Alternates c fs d
    → Alternates b (es ++ fs) d
Alternates-append b c d [] fs p q = rw (p) q
Alternates-append b c d (high_watermark ∷ es) fs (p, r) q =
    (p, Alternates-append true c d es fs r q)
Alternates-append b c d (low_watermark ∷ es) fs (p, r) q =
    (p, Alternates-append false c d es fs r q)
Alternates-append b c d (publisher_acquired ∷ es) fs p q = Alternates-append b c d es fs p q
Alternates-append b c d (publisher_released ∷ es) fs p q = Alternates-append b c d es fs p q
Alternates-append b c d (publisher_rejected ∷ es) fs p q = Alternates-append b c d es fs p q
Alternates-append b c d (limit_reached ∷ es) fs p q = Alternates-append b c d es fs p q

-- The events take the limit's flag from its value before to its value after.
Marks : PublisherLimit → List PublisherLimitEvent → PublisherLimit → Type 0
Marks l es t = Alternates l.high_watermark_triggered (types es) t.high_watermark_triggered

Marks-append :
    (l t u : PublisherLimit) (es fs : List PublisherLimitEvent)
    → Marks l es t
    → Marks t fs u
    → Marks l (es ++ fs) u
unfolding Marks
Marks-append l t u es fs p q =
    rw (map-append PublisherLimitEvent.type es fs)
      (Alternates-append _ _ _ (types es) (types fs) p q)

no-Marks : (l : PublisherLimit) → Marks l [] l
unfolding Marks
no-Marks l = refl

check_high-Marks :
    (p c : ℕ) (l : PublisherLimit)
    → l.has_callback ≡ true
    → let (es, t) = check_high p c l in Marks l es t × (t.has_callback ≡ true)
unfolding Marks check_high emit_event
check_high-Marks p c l h = ground (arith, h)

check_low-Marks :
    (p c : ℕ) (l : PublisherLimit)
    → l.has_callback ≡ true
    → let (es, t) = check_low p c l in Marks l es t × (t.has_callback ≡ true)
unfolding Marks check_low emit_event
check_low-Marks p c l h = ground (arith, h)

check_watermarks-Marks :
    (p c : ℕ) (l : PublisherLimit)
    → l.has_callback ≡ true
    → let (es, t) = check_watermarks p c l in Marks l es t × (t.has_callback ≡ true)
unfolding check_watermarks
check_watermarks-Marks p c l h =
    let (m, k) = check_high-Marks p c l h in
    let (n, j) = check_low-Marks p c (check_high p c l).1 k in (Marks-append l _ _ _ _ m n, j)

-- An event that is no watermark.
plain-Marks :
    (t : PublisherLimitEventType) (id : ℕ) (l : PublisherLimit)
    → ((c : Bool) → Alternates c (t ∷ []) c)
    → Marks l (emit_event t id l) l
unfolding Marks emit_event
plain-Marks t id l h = elim (Bool-cases l.has_callback) [
  | inl c ↦ rw (c) (h l.high_watermark_triggered)
  | inr c ↦ rw (c) refl
]

finish-Marks :
    (t : PublisherLimitEventType) (id p : ℕ) (l : PublisherLimit)
    → ((c : Bool) → Alternates c (t ∷ []) c)
    → l.has_callback ≡ true
    → Marks l (finish t id p l).events (finish t id p l).after
      × ((finish t id p l).after.has_callback ≡ true)
finish-Marks t id p l h k =
    let (m, j) = check_watermarks-Marks p (length l.active_publishers) l k in
    (Marks-append l _ _ _ _ m (plain-Marks t id _ h), j)

refused-Marks :
    (id : ℕ) (l : PublisherLimit) (n : ℕ)
    → let t = record l { rejected_acquires = n } in
      Marks l (emit_event limit_reached id t ++ emit_event publisher_rejected id t) t
unfolding Marks emit_event
refused-Marks id l n = elim (Bool-cases l.has_callback) [
  | inl c ↦ rw (c) refl
  | inr c ↦ rw (c) refl
]

call_slot-Marks :
    (c : SlotCall) (l : PublisherLimit)
    → l.has_callback ≡ true
    → Marks l (call_slot c l).events (call_slot c l).after
      × ((call_slot c l).after.has_callback ≡ true)
unfolding call_slot acquire_publisher_slot release_publisher_slot take_slot drop_slot Marks
call_slot-Marks (acquires_slot id) l h = elim (Bool-cases (mem id l.active_publishers)) [
  | inl m ↦ rw (m) (no-Marks l, h)
  | inr m ↦ elim (Bool-cases (leb l.config.max_publishers (length l.active_publishers))) [
    | inl f ↦ rw (m, f) (refused-Marks id l _, h)
    | inr f ↦ rw (m, f) (finish-Marks publisher_acquired id _ (take_slot id l) (λ c. refl) h)
  ]
]
call_slot-Marks (releases_slot id) l h = elim (Bool-cases (mem id l.active_publishers)) [
  | inl m ↦ rw (m) (finish-Marks publisher_released id _ (drop_slot id l) (λ c. refl) h)
  | inr m ↦ rw (m) (no-Marks l, h)
]

run_slots-Marks :
    (cs : List SlotCall) (l : PublisherLimit)
    → l.has_callback ≡ true
    → Marks l (run_slots cs l).0 (run_slots cs l).1
unfolding run_slots
run_slots-Marks [] l h = no-Marks l
run_slots-Marks (c ∷ cs) l h =
    let (m, j) = call_slot-Marks c l h in
    Marks-append l _ _ _ _ m (run_slots-Marks cs (call_slot c l).after j)

-- While slots are acquired and released and a callback is set, the watermark events alternate:
-- a high one only while the flag is down, a low one only while it is up, and the flag after the
-- calls is the one that the events leave.
pub run_slots-Alternates :
    (cs : List SlotCall) (l : PublisherLimit)
    → l.has_callback ≡ true
    → Alternates l.high_watermark_triggered
        (types (run_slots cs l).0)
        (run_slots cs l).1.high_watermark_triggered
unfolding Marks
run_slots-Alternates cs l h = run_slots-Marks cs l h
