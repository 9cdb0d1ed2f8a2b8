-- ===== src/Context/Keep.antt =====
-- What a truncated context keeps.
use ebiclaw.Prelude.{
  ℕ, ◌+◌, ◌-◌, ◌≤◌, ◌<◌, ◌≡◌, inl, inr, true, false, Option, List, [], ◌∷◌, ◌++◌, if◌then◌else◌,
  length, leb, ltb, arith, refl, ap, sym, ◌∙◌, Bool-cases, subst, reverse, append_assoc, append-nil,
}
use native.Mathlib.Nat.{add_comm}
use mathlib.Core.List.{reverse-append, reverse-reverse}
use ebiclaw.Strings.{Text}
use ebiclaw.Protocol.{JsonFields, Message}
use ebiclaw.Context.{
  system_messages, other_messages, system_runes, notice, message_runes, measure_context_runes,
  keep_recent, truncate_context_smart,
}

leb-true : (a b : ℕ) → a ≤ b → leb a b ≡ true
leb-true a b h = ground arith

leb-false : (a b : ℕ) → b < a → leb a b ≡ false
leb-false a b h = ground arith

module _ (marshal : JsonFields → Option Text) where
  -- The messages that the loop keeps: a suffix of all that it was given, within the limit, and such
  -- that the message before it would not fit.
  pub record IsRecent (limit : ℕ) (all kept : List Message) : Type 0 where
    pub dropped : List Message
    pub same : all ≡ reverse dropped ++ kept
    pub fits : measure_context_runes marshal kept ≤ limit
    pub full :
        (m : Message) (ms : List Message)
        → dropped ≡ m ∷ ms
        → limit < message_runes marshal m + measure_context_runes marshal kept

  keep_recent-IsRecent :
      (limit : ℕ) (rest kept : List Message)
      → measure_context_runes marshal kept ≤ limit
      → IsRecent limit
          (reverse rest ++ kept)
          (keep_recent marshal limit rest (measure_context_runes marshal kept) kept)
  unfolding keep_recent
  keep_recent-IsRecent limit [] kept h = record {
    dropped = [];
    same = refl;
    fits = h;
    full = λ m ms e. cc;
  }
  keep_recent-IsRecent limit (m ∷ rest) kept h =
      elim (Bool-cases (ltb limit (measure_context_runes marshal kept + message_runes marshal m))) [
        | inl e ↦ rw e (record {
          dropped = m ∷ rest;
          same = refl;
          fits = h;
          full = λ m' ms p. let same_message : m ≡ m' = cc in rw (← same_message) (exceeds e);
        })
        | inr e ↦ rw e (
            subst
              (λ (p : List Message × ℕ).
                IsRecent limit p.0 (keep_recent marshal limit rest p.1 (m ∷ kept)))
              moved
              (keep_recent-IsRecent limit rest (m ∷ kept)
                (unfold measure_context_runes in (within e))))
      ]
    where
      exceeds :
          ltb limit (measure_context_runes marshal kept + message_runes marshal m) ≡ true
          → limit < message_runes marshal m + measure_context_runes marshal kept
      exceeds e = ground arith

      within :
          ltb limit (measure_context_runes marshal kept + message_runes marshal m) ≡ false
          → message_runes marshal m + measure_context_runes marshal kept ≤ limit
      within e = ground arith

      count :
          measure_context_runes marshal (m ∷ kept)
          ≡ measure_context_runes marshal kept + message_runes marshal m
      count =
          unfold measure_context_runes in
          add_comm (message_runes marshal m) (measure_context_runes marshal kept)

      order : reverse rest ++ (m ∷ kept) ≡ reverse (m ∷ rest) ++ kept
      order =
          sym (append_assoc (reverse rest) (m ∷ []) kept)
          ∙ ap (λ (l : List Message). l ++ kept) (sym (reverse-append (m ∷ []) rest))

      moved :
          ◌≡◌ {A = List Message × ℕ}
            (reverse rest ++ (m ∷ kept), measure_context_runes marshal (m ∷ kept))
            (
              reverse (m ∷ rest) ++ kept,
              measure_context_runes marshal kept + message_runes marshal m,
            )
      moved = λ i. (order i, count i)

  -- The system messages' size and the estimate for the notice.
  abbrev pub reserved : List Message → ℕ
  reserved messages = system_runes (system_messages messages) + 80

  abbrev pub mark : List Message → List Message → List Message
  mark others kept =
      if ltb (length kept) (length others) then notice (length others - length kept) ∷ [] else []

  recent :
      (limit : ℕ) (others : List Message)
      → IsRecent limit others (keep_recent marshal limit (reverse others) 0 [])
  unfolding measure_context_runes
  recent limit others =
      subst (λ l. IsRecent limit l (keep_recent marshal limit (reverse others) 0 []))
        (append-nil (reverse (reverse others)) ∙ reverse-reverse others)
        (keep_recent-IsRecent limit (reverse others) [] (omega arith))

  -- A truncated context has all the system messages, in order. Where the limit leaves no more than
  -- their size and 80 runes for the notice, it has nothing else. Otherwise they are followed by a
  -- notice, if some of the other messages were dropped, which says how many, and by the longest run
  -- of the last other messages that fits what is left.
  pub truncate_context_smart-IsRecent :
      (messages : List Message) (max_runes : ℕ)
      → (max_runes ≤ reserved messages
          → truncate_context_smart marshal messages max_runes ≡ system_messages messages)
        × (reserved messages < max_runes
            → (kept : List Message) × IsRecent
                (max_runes - reserved messages)
                (other_messages messages)
                kept
              × (truncate_context_smart marshal messages max_runes
                  ≡ system_messages messages ++ (mark (other_messages messages) kept ++ kept)))
  unfolding truncate_context_smart
  truncate_context_smart-IsRecent [] max_runes = (λ h. refl, λ h. ([], nothing, refl))
    where
      nothing : IsRecent (max_runes - reserved []) [] []
      nothing = record { dropped = []; same = refl; fits = zero_le; full = λ m ms e. cc }
        where
          zero_le : measure_context_runes marshal [] ≤ max_runes - reserved []
          zero_le = unfold measure_context_runes in omega arith
  truncate_context_smart-IsRecent (m ∷ ms) max_runes = (short, long)
    where
      systems : List Message
      systems = system_messages (m ∷ ms)

      others : List Message
      others = other_messages (m ∷ ms)

      short :
          max_runes ≤ reserved (m ∷ ms)
          → truncate_context_smart marshal (m ∷ ms) max_runes ≡ system_messages (m ∷ ms)
      short h = rw (leb-true max_runes (reserved (m ∷ ms)) h) refl

      long :
          reserved (m ∷ ms) < max_runes
          → (kept : List Message) × IsRecent
              (max_runes - reserved (m ∷ ms))
              (other_messages (m ∷ ms))
              kept
            × (truncate_context_smart marshal (m ∷ ms) max_runes
                ≡ system_messages (m ∷ ms) ++ (mark (other_messages (m ∷ ms)) kept ++ kept))
      long h = (
        keep_recent marshal (max_runes - reserved (m ∷ ms)) (reverse others) 0 [],
        recent (max_runes - reserved (m ∷ ms)) others,
        rw (leb-false max_runes (reserved (m ∷ ms)) h) refl,
      )
