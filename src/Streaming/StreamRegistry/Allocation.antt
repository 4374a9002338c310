-- ===== src/Streaming/StreamRegistry/Allocation.antt =====
-- The identifiers that the registry hands out, and those that are given back.
use open_rtmp_claude_kiro.Common.{
  IsDistinct, List, [], arith, false, length, mem, mem-set_erase, positive-beq, refl, set_erase,
  set_erase-IsDistinct, subst, true, u32, ℕ, ◌+◌, ◌<◌, ◌^◌, ◌∷◌, ◌≡◌, ◌≢◌, ◌≤◌,
}
use open_rtmp_claude_kiro.Streaming.StreamRegistry.{
  StreamRegistry, allocate_stream_id, new_registry, release_stream_id,
}
use open_rtmp_claude_kiro.Streaming.Types.{invalid_stream_id}

-- A taker of identifiers, and one who gives an identifier back.
pub data Act : Type 0 where
  takes : Act
  gives : ℕ → Act

-- The identifiers in use, and the registry.
abbrev pub act : Act → List ℕ × StreamRegistry → List ℕ × StreamRegistry
act takes (held, r) = ((allocate_stream_id r).0 ∷ held, (allocate_stream_id r).1)
act (gives id) (held, r) = (set_erase id held, release_stream_id id r)

-- Only an identifier in use is given back.
abbrev pub IsAllowed : Act → List ℕ → Type 0
IsAllowed takes held = Unit {0}
IsAllowed (gives id) held = mem id held ≡ true

abbrev pub run_acts : List Act → List ℕ × StreamRegistry → List ℕ × StreamRegistry
run_acts [] s = s
run_acts (a ∷ more) s = run_acts more (act a s)

abbrev pub AllAllowed : List Act → List ℕ × StreamRegistry → Type 0
AllAllowed [] s = Unit {0}
AllAllowed (a ∷ more) s = IsAllowed a s.0 × AllAllowed more (act a s)

record IsSeparate (held : List ℕ) (r : StreamRegistry) : Type 0 where
  held_once : IsDistinct held
  released_once : IsDistinct r.released_ids
  apart : (x : ℕ) → mem x held ≡ true → mem x r.released_ids ≡ false
  held_below : (x : ℕ) → mem x held ≡ true → (0 < x) × (x < r.next_stream_id)
  released_below : (x : ℕ) → mem x r.released_ids ≡ true → (0 < x) × (x < r.next_stream_id)
  next_positive : 0 < r.next_stream_id

u32_small : (n : ℕ) → n < 2 ^ 32 → u32 n ≡ n
u32_small n h = omega arith

-- An identifier that was given back is used again.
reuse-IsSeparate :
    (held : List ℕ) (r : StreamRegistry) (id : ℕ) (ids : List ℕ)
    → IsSeparate held (record r { released_ids = id ∷ ids })
    → IsSeparate (id ∷ held) (record r { released_ids = ids })
unfolding mem IsDistinct
reuse-IsSeparate held r id ids v = record {
  held_once = ground (arith, v.held_once, v.apart id);
  released_once = ground (arith, v.released_once);
  apart = λ x h. ground (arith, v.released_once, v.apart x);
  held_below = λ x h. ground (arith, v.held_below x, v.released_below x);
  released_below = λ x h. ground (arith, v.released_below x);
  next_positive = v.next_positive;
}

-- A new identifier is the next one.
fresh-IsSeparate :
    (held : List ℕ) (r : StreamRegistry)
    → IsSeparate held r
    → IsSeparate (r.next_stream_id ∷ held) (record r { next_stream_id = r.next_stream_id + 1 })
unfolding mem IsDistinct
fresh-IsSeparate held r v = record {
  held_once = ground (arith, v.held_once, v.held_below r.next_stream_id);
  released_once = v.released_once;
  apart = λ x h. ground (arith, v.released_below x, v.apart x);
  held_below = λ x h. ground (arith, v.held_below x, v.next_positive);
  released_below = λ x h. ground (arith, v.released_below x);
  next_positive = omega arith;
}

release-IsSeparate :
    (held : List ℕ) (r : StreamRegistry) (id : ℕ)
    → mem id held ≡ true
    → IsSeparate held r
    → IsSeparate (set_erase id held) (record r { released_ids = id ∷ r.released_ids })
unfolding mem IsDistinct
release-IsSeparate held r id m v = record {
  held_once = set_erase-IsDistinct id held v.held_once;
  released_once = ground (arith, v.released_once, v.apart id m);
  apart = λ x h. ground (arith, mem-set_erase id x held, v.apart x);
  held_below = λ x h. ground (arith, mem-set_erase id x held, v.held_below x);
  released_below = λ x h. ground (arith, v.released_below x, v.held_below x);
  next_positive = v.next_positive;
}

abbrev Holds : List ℕ × StreamRegistry → Type 0
Holds s = IsSeparate s.0 s.1

takes-Holds :
    (held : List ℕ) (r : StreamRegistry) (ids : List ℕ)
    → r.released_ids ≡ ids
    → r.next_stream_id + 1 < 2 ^ 32
    → Holds (held, r)
    → Holds (act takes (held, r))
unfolding allocate_stream_id
takes-Holds held r [] e b v =
    rw
      (
        e,
        allocate_stream_id,
        positive-beq r.next_stream_id v.next_positive,
        u32_small (r.next_stream_id + 1) b,
      )
      (fresh-IsSeparate held r v)
takes-Holds held r (id ∷ ids) e b v =
    rw (e, allocate_stream_id)
      (reuse-IsSeparate held r id ids
        (subst (λ l. IsSeparate held (record r { released_ids = l })) e v))

act-Holds :
    (a : Act) (s : List ℕ × StreamRegistry)
    → IsAllowed a s.0
    → s.1.next_stream_id + 1 < 2 ^ 32
    → Holds s
    → Holds (act a s) × ((act a s).1.next_stream_id ≤ s.1.next_stream_id + 1)
unfolding allocate_stream_id release_stream_id
act-Holds takes (held, r) o b v =
    (takes-Holds held r r.released_ids refl b v, ground (arith, v.next_positive))
act-Holds (gives id) (held, r) o b v =
    (rw (positive-beq id (v.held_below id o).0) (release-IsSeparate held r id o v), ground arith)

run_acts-Holds :
    (acts : List Act) (s : List ℕ × StreamRegistry)
    → AllAllowed acts s
    → s.1.next_stream_id + length acts < 2 ^ 32
    → Holds s
    → Holds (run_acts acts s)
      × ((run_acts acts s).1.next_stream_id ≤ s.1.next_stream_id + length acts)
run_acts-Holds [] s o b v = (v, omega arith)
run_acts-Holds (a ∷ more) s (o, os) b v =
    let (w, n) = act-Holds a s o (omega arith) v in
    let (z, m) = run_acts-Holds more (act a s) os (omega (arith, n)) w in (z, omega (arith, m, n))

new_registry-Holds : Holds ([], new_registry)
unfolding new_registry mem IsDistinct
new_registry-Holds = record {
  held_once = tt;
  released_once = tt;
  apart = λ x h. ground arith;
  held_below = λ x h. ground arith;
  released_below = λ x h. ground arith;
  next_positive = omega arith;
}

-- Of a new registry, after fewer than 2 ^ 32 - 2 acts in which only identifiers in use are given
-- back, no identifier is in use twice, none of them is the invalid one, and the next identifier
-- handed out is not in use.
pub run_acts-AllDistinct :
    (acts : List Act)
    → AllAllowed acts ([], new_registry)
    → length acts + 2 < 2 ^ 32
    → let s = run_acts acts ([], new_registry) in
      IsDistinct s.0
      × ((x : ℕ) → mem x s.0 ≡ true → x ≢ invalid_stream_id)
      × (mem (allocate_stream_id s.1).0 s.0 ≡ false)
unfolding new_registry IsDistinct
run_acts-AllDistinct acts o b =
    let (v, n) = run_acts-Holds acts ([], new_registry) o (omega arith) new_registry-Holds in
    let (held, r) = run_acts acts ([], new_registry) in
    let (w, m) = act-Holds takes (held, r) tt (omega (arith, n)) v in
    (v.held_once, λ x h. omega (arith, v.held_below x h), w.held_once.0)
