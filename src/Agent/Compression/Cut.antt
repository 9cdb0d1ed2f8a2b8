-- ===== src/Agent/Compression/Cut.antt =====
-- A history is cut where a turn begins.
use ebiclaw.Prelude.{
  ℕ, zero, suc, ◌+◌, ◌-◌, ◌/◌, ◌≡◌, ◌≤◌, ◌<◌, ◌⊎◌, Bool, true, false, Option, none, some, List, [],
  ◌∷◌, if◌then◌else◌, is_empty, length, drop, leb, ltb, ◌==◌, arith, refl, ap, ◌∙◌, All, Bool-cases,
  Option-cases, inl, inr, length-drop,
}
use ebiclaw.Strings.{Text}
use ebiclaw.Maps.{get, put, get-put_self}
use ebiclaw.Protocol.{Message}
use ebiclaw.Context.{decimal}
use ebiclaw.Session.{
  Session, store, SessionManager, get_history, get_summary, set_summary, set_history,
}
use ebiclaw.Agent.Compression.{
  is_user, turns_from, parse_turn_boundaries, starts_turn, backward_of, first_after,
  choose_boundary, find_safe_boundary, turn_at, middle, last_user, kept_history, compression_note,
  force_compression,
}

-- A turn begins at the index.
abbrev IsTurn : List Message → ℕ → Type 0
IsTurn history i = starts_turn (drop i history) ≡ true

drop-suc :
    (i : ℕ) (h : List Message) (m : Message) (ms : List Message)
    → drop i h ≡ m ∷ ms
    → drop (suc i) h ≡ ms
drop-suc zero [] m ms e = absurd (cc)
drop-suc zero (x ∷ h) m ms e = cc
drop-suc (suc i) [] m ms e = absurd (cc)
drop-suc (suc i) (x ∷ h) m ms e = drop-suc i h m ms e

turns_from-IsTurn :
    (h : List Message) (i : ℕ) (ms : List Message)
    → drop i h ≡ ms
    → All (IsTurn h) (turns_from i ms)
unfolding turns_from
turns_from-IsTurn h i [] e = tt
turns_from-IsTurn h i (m ∷ ms) e = elim (Bool-cases (is_user m)) [
  | inl u ↦ rw u (ap starts_turn e ∙ u, turns_from-IsTurn h (suc i) ms (drop-suc i h m ms e))
  | inr u ↦ rw u (turns_from-IsTurn h (suc i) ms (drop-suc i h m ms e))
]

turn_at-IsTurn :
    (h : List Message) (i : ℕ) (turns : List ℕ)
    → All (IsTurn h) turns
    → i < length turns
    → IsTurn h (turn_at i turns)
unfolding turn_at
turn_at-IsTurn h i [] a k = absurd (omega arith)
turn_at-IsTurn h zero (t ∷ turns) a k = a.0
turn_at-IsTurn h (suc i) (t ∷ turns) a k = turn_at-IsTurn h i turns a.1 (omega arith)

turn_at-ge :
    (j i : ℕ) (ms : List Message)
    → j < length (turns_from i ms)
    → i + j ≤ turn_at j (turns_from i ms)
unfolding turn_at turns_from
turn_at-ge j i [] k = absurd (omega arith)
turn_at-ge j i (m ∷ ms) k = elim (Bool-cases (is_user m)) [
  | inl u ↦ rw u (at_user j (rw u at k) (λ l. turn_at-ge l (suc i) ms))
  | inr u ↦ rw u (omega (arith, turn_at-ge j (suc i) ms (rw u at k)))
]
  where
    at_user :
        (j : ℕ)
        → j < suc (length (turns_from (suc i) ms))
        → ((l : ℕ)
            → l < length (turns_from (suc i) ms)
            → suc i + l ≤ turn_at l (turns_from (suc i) ms))
        → i + j ≤ turn_at j (i ∷ turns_from (suc i) ms)
    at_user zero q ih = omega arith
    at_user (suc l) q ih = omega (arith, ih l (omega arith))

-- Zero, or an index where a turn begins.
abbrev IsCut : List Message → ℕ → Type 0
IsCut h i = (i ≡ 0) ⊎ IsTurn h i

abbrev IsCut? : List Message → Option ℕ → Type 0
IsCut? h none = Unit
IsCut? h (some i) = IsTurn h i

module _ (h : List Message) (target : ℕ) where
  backward_of-IsCut :
      (found : Option ℕ) (turns : List ℕ)
      → IsCut? h found
      → All (IsTurn h) turns
      → IsCut? h (backward_of target found turns)
  unfolding backward_of
  backward_of-IsCut found [] f a = f
  backward_of-IsCut found (t ∷ turns) f a =
      backward_of-IsCut (if leb t target then some t else found) turns (chosen (leb t target)) a.1
    where
      chosen : (b : Bool) → IsCut? h (if b then some t else found)
      chosen true = a.0
      chosen false = f

  first_after-IsCut : (turns : List ℕ) → All (IsTurn h) turns → IsCut? h (first_after target turns)
  unfolding first_after
  first_after-IsCut [] a = tt
  first_after-IsCut (t ∷ turns) a = chosen (ltb target t) (first_after-IsCut turns a.1)
    where
      chosen :
          (b : Bool)
          → IsCut? h (first_after target turns)
          → IsCut? h (if b then some t else first_after target turns)
      chosen true r = a.0
      chosen false r = r

  choose_boundary-IsCut :
      (back after : Option ℕ)
      → IsCut? h back
      → IsCut? h after
      → IsCut h (choose_boundary back after)
  choose_boundary-IsCut none none b a = inl refl
  choose_boundary-IsCut none (some t) b a = inr a
  choose_boundary-IsCut (some zero) none b a = inl refl
  choose_boundary-IsCut (some zero) (some t) b a = inr a
  choose_boundary-IsCut (some (suc t)) after b a = inr b

boundaries-IsTurn : (h : List Message) → All (IsTurn h) (parse_turn_boundaries h)
unfolding parse_turn_boundaries
boundaries-IsTurn h = turns_from-IsTurn h 0 h refl

find_safe_boundary-IsCut :
    (h : List Message) (target : ℕ)
    → target < length h
    → is_empty (parse_turn_boundaries h) ≡ false
    → IsCut h (find_safe_boundary h target)
unfolding find_safe_boundary
find_safe_boundary-IsCut [] target k e = absurd (omega arith)
find_safe_boundary-IsCut (m ∷ h) target k e = elim (Bool-cases (target == 0)) [
  | inl z ↦ rw z (inl refl)
  | inr z ↦
      rw (z, inside (length (m ∷ h)) k, e)
        (choose_boundary-IsCut (m ∷ h) target (backward_of target none turns)
          (first_after target turns)
          (backward_of-IsCut (m ∷ h) target none turns tt (boundaries-IsTurn (m ∷ h)))
          (first_after-IsCut (m ∷ h) target turns (boundaries-IsTurn (m ∷ h))))
]
  where
    turns : List ℕ
    turns = parse_turn_boundaries (m ∷ h)

    inside : (n : ℕ) → target < n → leb n target ≡ false
    inside n q = ground arith

half_lt : (n : ℕ) → 2 ≤ n → n / 2 < n
half_lt n h = omega arith

middle-IsCut :
    (h : List Message)
    → 2 < length h
    → is_empty (parse_turn_boundaries h) ≡ false
    → IsCut h (middle h)
unfolding middle
middle-IsCut h k e = elim (Bool-cases (leb 2 (length turns))) [
  | inl l ↦ rw l (
      inr (
        turn_at-IsTurn h (length turns / 2) turns (boundaries-IsTurn h)
          (half_lt (length turns) (two (length turns) l))))
  | inr l ↦ rw l (find_safe_boundary-IsCut h (length h / 2) (half_lt (length h) (omega arith)) e)
]
  where
    turns : List ℕ
    turns = parse_turn_boundaries h

    two : (n : ℕ) → leb 2 n ≡ true → 2 ≤ n
    two n q = ground arith

-- What is kept begins with a turn.
pub record IsCompressed (history kept : List Message) : Type 0 where
  pub begins : starts_turn kept ≡ true
  pub shorter : length kept < length history
  pub origin : (kept ≡ last_user history) ⊎ ((n : ℕ) × (kept ≡ drop n history))

last_user-none : (ms : List Message) (i : ℕ) → turns_from i ms ≡ [] → last_user ms ≡ []
unfolding last_user turns_from
last_user-none [] i e = refl
last_user-none (m ∷ ms) i e = elim (Bool-cases (is_user m)) [
  | inl u ↦ absurd (let q : i ∷ turns_from (suc i) ms ≡ [] = rw u at e in cc)
  | inr u ↦ rw (last_user-none ms (suc i) (rw u at e), u) refl
]

last_user-turns :
    (i : ℕ) (ms : List Message)
    → (turns_from i ms ≡ []) ⊎ ((m : Message) × (last_user ms ≡ m ∷ []) × (is_user m ≡ true))
unfolding last_user turns_from
last_user-turns i [] = inl refl
last_user-turns i (m ∷ ms) = by_rest (last_user-turns (suc i) ms) (last_user-none ms (suc i))
  where
    by_rest :
        (turns_from (suc i) ms ≡ [])
          ⊎ ((x : Message) × (last_user ms ≡ x ∷ []) × (is_user x ≡ true))
        → (turns_from (suc i) ms ≡ [] → last_user ms ≡ [])
        → (turns_from i (m ∷ ms) ≡ [])
          ⊎ ((x : Message) × (last_user (m ∷ ms) ≡ x ∷ []) × (is_user x ≡ true))
    by_rest (inr (x, e, u)) f = inr (x, (rw e refl), u)
    by_rest (inl e) f = elim (Bool-cases (is_user m)) [
      | inl u ↦ inr (m, (rw (f e, u) refl), u)
      | inr u ↦ inl (rw (u, e) refl)
    ]

last_turn :
    (ms : List Message)
    → is_empty (parse_turn_boundaries ms) ≡ false
    → (m : Message) × (last_user ms ≡ m ∷ []) × (is_user m ≡ true)
unfolding parse_turn_boundaries
last_turn ms e = elim (last_user-turns 0 ms) [
  | inl n ↦ absurd (let q = ap is_empty n in cc)
  | inr r ↦ r
]

begins-length : (n : ℕ) (h : List Message) → IsTurn h n → n < length h
begins-length n [] t = absurd (nothing n t)
  where
    nothing : (n : ℕ) → IsTurn [] n → ⊥
    nothing zero t = cc
    nothing (suc n) t = cc
begins-length zero (m ∷ h) t = omega arith
begins-length (suc n) (m ∷ h) t = omega (arith, begins-length n h t)

kept_history-IsCompressed :
    (h : List Message)
    → 2 < length h
    → is_empty (parse_turn_boundaries h) ≡ false
    → IsCompressed h (kept_history h)
unfolding kept_history
kept_history-IsCompressed h k e = elim (Bool-cases (middle h == 0)) [
  | inl z ↦
      let (m, l, u) = last_turn h e in
      rw z (record { begins = rw l u; shorter = rw l (omega arith); origin = inl refl })
  | inr z ↦ rw z (at_turn (middle h) z (middle-IsCut h k e))
]
  where
    at_turn : (n : ℕ) → (n == 0) ≡ false → IsCut h n → IsCompressed h (drop n h)
    at_turn n z (inl e) = absurd (let q : (0 == 0) ≡ false = rw e at z in cc)
    at_turn n z (inr t) = record {
      begins = t;
      shorter = ground (arith, length-drop n h, begins-length n h t);
      origin = inr (n, refl);
    }

get-set_summary :
    (key note : Text) (now : ℕ) (sm : SessionManager) (s : Session)
    → get key sm.sessions ≡ some s
    → get key (set_summary key note now sm).sessions
      ≡ some (record s { summary = note; updated = now })
unfolding set_summary store
get-set_summary key note now sm s e =
    rw (e, set_summary) (get-put_self key (record s { summary = note; updated = now }) sm.sessions)

get_history-set_history :
    (key : Text) (kept : List Message) (now : ℕ) (sm : SessionManager) (s : Session)
    → get key sm.sessions ≡ some s
    → get_history key (set_history key kept now sm) ≡ kept
unfolding set_history store get_history
get_history-set_history key kept now sm s e =
    rw (e, set_history) (read (record s { messages = kept; updated = now }))
  where
    read :
        (t : Session)
        → get_history key (record sm { sessions = put key t sm.sessions }) ≡ t.messages
    read t = rw (get-put_self key t sm.sessions, get_history) refl

session_of :
    (key : Text) (sm : SessionManager)
    → 2 < length (get_history key sm)
    → (s : Session) × (get key sm.sessions ≡ some s)
unfolding get_history
session_of key sm k = elim (Option-cases (get key sm.sessions)) [
  | inl e ↦ absurd (let q = rw (e, get_history) at k in omega arith)
  | inr (s, e) ↦ (s, e)
]

-- What a compression does to a session.
pub record IsForced (key : Text) (now : ℕ) (sm : SessionManager) : Type 0 where
  pub kept : List Message
  pub stored : get_history key (force_compression key now sm).1 ≡ kept
  pub cut : IsCompressed (get_history key sm) kept
  pub told :
      (force_compression key now sm).0
      ≡ some (record {
        dropped_messages = length (get_history key sm) - length kept;
        remaining_messages = length kept;
      })

-- A history of more than two messages with a user message among them is cut where a turn begins:
-- the history that is stored is shorter, begins with a user message, and is the end of the old one
-- or its last user message alone. The result counts what was dropped and what is left.
pub force_compression-IsForced :
    (key : Text) (now : ℕ) (sm : SessionManager)
    → 2 < length (get_history key sm)
    → is_empty (parse_turn_boundaries (get_history key sm)) ≡ false
    → IsForced key now sm
unfolding force_compression
force_compression-IsForced key now sm k e =
    let (s, g) = session_of key sm k in
    record {
      kept = kept_history history;
      stored = rw (long (length history) k) (
          get_history-set_history key (kept_history history) now (set_summary key note now sm)
            (record s { summary = note; updated = now }) (get-set_summary key note now sm s g));
      cut = kept_history-IsCompressed history k e;
      told = rw (long (length history) k) refl;
    }
  where
    history : List Message
    history = get_history key sm

    note : Text
    note =
        compression_note (get_summary key sm)
          (decimal (length history - length (kept_history history)))

    long : (n : ℕ) → 2 < n → leb n 2 ≡ false
    long n q = ground arith
