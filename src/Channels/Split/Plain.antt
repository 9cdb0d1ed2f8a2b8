-- ===== src/Channels/Split/Plain.antt =====
-- A message with no code block in it.
use ebiclaw.Prelude.{
  ℕ, zero, suc, ◌≡◌, ◌≤◌, ◌<◌, Bool, true, false, none, List, [], ◌∷◌, ◌++◌, if◌then◌else◌, length,
  take, drop, leb, ◌==◌, arith, refl, ap, sym, ◌∙◌, Bool-cases, inl, inr, length-drop, append-nil,
  All,
}
use ebiclaw.Strings.{Text, contains, has_prefix, trim_left}
use ebiclaw.Channels.Split.{
  code_fence, is_gap, last_chunk, Split, chunks, prepend, index_or, natural_split,
  code_block_buffer, effective_limit, cut_plain, unclosed_from, find_last_unclosed, split_round,
  split_loop, split_message,
}
use ebiclaw.Channels.Split.Search.{index_or_pos}
use ebiclaw.Channels.Split.Chunks.{split_loop-AllShort}

abbrev pub Fenceless : Text → Type 0
Fenceless s = contains s code_fence ≡ false

Fenceless-tail : (c : ℕ) (s : Text) → Fenceless (c ∷ s) → Fenceless s
unfolding contains
Fenceless-tail c s h = ground arith

Fenceless-head : (c : ℕ) (s : Text) → Fenceless (c ∷ s) → has_prefix (c ∷ s) code_fence ≡ false
unfolding contains
Fenceless-head c s h = ground arith

Fenceless-drop : (n : ℕ) (s : Text) → Fenceless s → Fenceless (drop n s)
Fenceless-drop zero s h = h
Fenceless-drop (suc n) [] h = h
Fenceless-drop (suc n) (c ∷ s) h = Fenceless-drop n s (Fenceless-tail c s h)

Fenceless-trim_left : (p : ℕ → Bool) (s : Text) → Fenceless s → Fenceless (trim_left p s)
unfolding trim_left
Fenceless-trim_left p [] h = h
Fenceless-trim_left p (c ∷ s) h = elim (Bool-cases (p c)) [
  | inl e ↦ rw e (Fenceless-trim_left p s (Fenceless-tail c s h))
  | inr e ↦ rw e h
]

-- A prefix of the beginning is a prefix of the whole.
has_prefix-take : (n : ℕ) (s p : Text) → has_prefix s p ≡ false → has_prefix (take n s) p ≡ false
unfolding has_prefix
has_prefix-take zero s [] h = h
has_prefix-take zero s (d ∷ p) h = refl
has_prefix-take (suc n) [] p h = h
has_prefix-take (suc n) (c ∷ s) [] h = h
has_prefix-take (suc n) (c ∷ s) (d ∷ p) h = ground (arith, has_prefix-take n s p)

unclosed_from-none : (i n : ℕ) (s : Text) → Fenceless s → unclosed_from 0 i none (take n s) ≡ none
unfolding unclosed_from
unclosed_from-none i zero s h = refl
unclosed_from-none i (suc n) [] h = refl
unclosed_from-none i (suc n) (c ∷ s) h =
    rw (has_prefix-take (suc n) (c ∷ s) code_fence (Fenceless-head c s h), unclosed_from)
      (unclosed_from-none (suc i) n s (Fenceless-tail c s h))

-- What is not a blank, a tab or the end of a line.
pub visible : Text → Text
visible [] = []
visible (c ∷ s) = let rest = visible s in if is_gap c then rest else c ∷ rest

pub concat : List Text → Text
concat [] = []
concat (s ∷ ss) = s ++ concat ss

visible-append : (s t : Text) → visible (s ++ t) ≡ visible s ++ visible t
unfolding visible
visible-append [] t = refl
visible-append (c ∷ s) t = elim (Bool-cases (is_gap c)) [
  | inl e ↦ rw e (visible-append s t)
  | inr e ↦ rw e (ap (λ (r : Text). c ∷ r) (visible-append s t))
]

visible-trim_left : (s : Text) → visible (trim_left is_gap s) ≡ visible s
unfolding visible trim_left
visible-trim_left [] = refl
visible-trim_left (c ∷ s) = elim (Bool-cases (is_gap c)) [
  | inl e ↦ rw e (visible-trim_left s)
  | inr e ↦ let kept : trim_left is_gap (c ∷ s) ≡ c ∷ s = rw e refl in ap visible kept
]

take-drop : (n : ℕ) (s : Text) → take n s ++ drop n s ≡ s
take-drop zero s = refl
take-drop (suc n) [] = refl
take-drop (suc n) (c ∷ s) = ap (λ (r : Text). c ∷ r) (take-drop n s)

-- Nothing that is visible is lost where a chunk is cut.
visible-cut :
    (n : ℕ) (s : Text) → visible (take n s) ++ visible (trim_left is_gap (drop n s)) ≡ visible s
visible-cut n s =
    ap (λ (r : Text). visible (take n s) ++ r) (visible-trim_left (drop n s))
    ∙ sym (visible-append (take n s) (drop n s))
    ∙ ap visible (take-drop n s)

length-trim_left-le : (p : ℕ → Bool) (s : Text) → length (trim_left p s) ≤ length s
unfolding trim_left
length-trim_left-le p [] = omega arith
length-trim_left-le p (c ∷ s) = ground (arith, length-trim_left-le p s)

effective_limit_pos : (max_len : ℕ) → 0 < max_len → 0 < effective_limit max_len
unfolding effective_limit code_block_buffer
effective_limit_pos max_len h = omega arith

abbrev cut_at : ℕ → Text → ℕ
cut_at max_len runes =
    index_or (effective_limit max_len) (natural_split runes (effective_limit max_len))

split_round-plain :
    (max_len : ℕ) (runes : Text)
    → Fenceless runes
    → leb (length runes) max_len ≡ false
    → split_round max_len runes ≡ cut_plain (cut_at max_len runes) runes
unfolding split_round find_last_unclosed
split_round-plain max_len runes h e =
    rw (e, unclosed_from-none 0 (cut_at max_len runes) runes h) refl

split_round-last :
    (max_len : ℕ) (runes : Text)
    → leb (length runes) max_len ≡ true
    → split_round max_len runes ≡ last_chunk runes
unfolding split_round
split_round-last max_len runes e = rw e refl

-- The loop ends with chunks that have all that is visible.
abbrev Ends : Text → Split → Type 0
Ends runes s = (cs : List Text) × (s ≡ chunks cs) × (visible (concat cs) ≡ visible runes)

Ends-prepend :
    (n : ℕ) (runes : Text) (s : Split)
    → Ends (trim_left is_gap (drop n runes)) s
    → Ends runes (prepend (take n runes) s)
unfolding concat
Ends-prepend n runes s (cs, e, v) = (
  take n runes ∷ cs,
  ap (λ (t : Split). prepend (take n runes) t) e,
  visible-append (take n runes) (concat cs)
      ∙ ap (λ (r : Text). visible (take n runes) ++ r) v
      ∙ visible-cut n runes,
)

split_loop-Ends :
    (rounds max_len : ℕ) (runes : Text)
    → length runes < rounds
    → 0 < max_len
    → Fenceless runes
    → Ends runes (split_loop rounds max_len runes)
unfolding split_loop concat visible
split_loop-Ends zero max_len runes h p f = absurd (omega arith)
split_loop-Ends (suc rounds) max_len [] h p f = ([], refl, refl)
split_loop-Ends (suc rounds) max_len (c ∷ s) h p f =
    elim (Bool-cases (leb (length (c ∷ s)) max_len)) [
      | inl e ↦ rw (split_round-last max_len (c ∷ s) e) ((c ∷ s) ∷ [], refl, whole)
      | inr e ↦
          rw (split_round-plain max_len (c ∷ s) f e, cut_plain)
            (Ends-prepend n (c ∷ s) (split_loop rounds max_len rest) (
              split_loop-Ends rounds max_len rest
                (omega (
                  arith,
                  length-trim_left-le is_gap (drop n (c ∷ s)),
                  length-drop n (c ∷ s),
                  index_or_pos (effective_limit max_len)
                      (natural_split (c ∷ s) (effective_limit max_len))
                      (effective_limit_pos max_len p),
                ))
                p (Fenceless-trim_left is_gap (drop n (c ∷ s)) (Fenceless-drop n (c ∷ s) f))))
    ]
  where
    n : ℕ
    n = cut_at max_len (c ∷ s)

    rest : Text
    rest = trim_left is_gap (drop n (c ∷ s))

    whole : visible (concat ((c ∷ s) ∷ [])) ≡ visible (c ∷ s)
    whole = unfold concat in visible-append (c ∷ s) [] ∙ append-nil (visible (c ∷ s))

-- The result of a split: chunks within the limit that have all that is visible, in its order.
pub record IsSplit (max_len : ℕ) (content : Text) (s : Split) : Type 0 where
  pub parts : List Text
  pub returned : s ≡ chunks parts
  pub short : All (λ c. length c ≤ max_len) parts
  pub complete : visible (concat parts) ≡ visible content

-- With a positive limit max_len, a text without a code fence is split within as many rounds as it
-- has code points, and one: each
-- chunk has at most max_len code points, and the chunks together have the text's code points in
-- their order, where only blanks, tabs and ends of lines may be missing.
pub split_message-IsSplit :
    (content : Text) (max_len : ℕ)
    → 0 < max_len
    → contains content code_fence ≡ false
    → IsSplit max_len content (split_message (suc (length content)) content max_len)
unfolding split_message
split_message-IsSplit content max_len h f =
    let (cs, e, v) = split_loop-Ends (suc (length content)) max_len content (omega arith) h f in
    rw (test max_len h) (record {
      parts = cs;
      returned = e;
      short = rw e at (split_loop-AllShort (suc (length content)) max_len content);
      complete = v;
    })
  where
    test : (n : ℕ) → 0 < n → (n == 0) ≡ false
    test n k = ground arith
