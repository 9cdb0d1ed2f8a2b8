-- ===== src/Channels/Split/Endless.antt =====
-- A code block whose first line is longer than a chunk.
use ebiclaw.Prelude.{
  ℕ, zero, suc, ◌+◌, ◌-◌, ◌≡◌, ◌≤◌, ◌<◌, false, Option, some, [], ◌∷◌, ◌++◌, is_empty, length, take,
  drop, leb, ltb, ◌==◌, arith, refl, ap, sym, subst, ◌∙◌, Option-cases, inl, inr, length-append,
  All, take-append_le, drop-append_le, All-take, min,
}
use ebiclaw.Strings.{Text, codes, has_prefix, trim_space, trim_right, is_space}
use ebiclaw.Channels.Split.{
  code_fence, index_or, natural_split, effective_limit, chunk, still_running, prepend, cut_inside,
  unclosed_from, find_last_unclosed, closing_from, newline_from, header_at, header_end_of, is_gap,
  split_block, in_block, split_round, split_loop, split_message, Split,
}
use ebiclaw.Channels.Split.Search.{natural_split-le}
use ebiclaw.Channels.Split.Chunks.{effective_limit-le}
use ebiclaw.Channels.Split.Fence.{
  natural_split-ge, effective_limit-ge, InLine, unclosed_from-InLine, closing_from-InLine,
  newline_from-InLine, take-append, All-drop, length-drop_le, trim_right-append, trim_space-fenced,
}

-- A text that begins with a code block whose first line has no room in a chunk.
pub record LongLine (max_len : ℕ) (a t : Text) : Type 0 where
  pub room : 5 ≤ max_len
  pub long : max_len ≤ 3 + length a
  pub line : All InLine a
  pub trimmed : trim_space (code_fence ++ a) ≡ code_fence ++ a
  pub more : is_empty t ≡ false
  pub ended : trim_right is_space t ≡ t

abbrev text_of : Text → Text → Text
text_of a t = code_fence ++ (a ++ (10 ∷ t))

module _ (max_len : ℕ) (a t : Text) (h : LongLine max_len a t) where
  fence_found :
      (m : ℕ) → m ≤ length a → find_last_unclosed (text_of a t) (suc (suc (suc m))) ≡ some 0
  unfolding find_last_unclosed unclosed_from has_prefix
  fence_found m k =
      ap (λ (r : Text). unclosed_from 0 3 (some 0) r) (take-append_le m a (10 ∷ t) k)
      ∙ unclosed_from-InLine 3 (some 0) (take m a) (All-take InLine m a h.line)

  none_closing :
      (m k : ℕ)
      → m ≤ length a
      → closing_from (suc (suc (suc m))) (drop (suc (suc (suc m))) (text_of a t)) ≡ some k
      → leb k max_len ≡ false
  none_closing m k le e = far (
      omega (
        arith,
        h.long,
        length-drop_le m a le,
        closing_from-InLine (suc (suc (suc m))) k (drop m a) (10 ∷ t) (All-drop m a h.line)
            (rw (drop-append_le m a (10 ∷ t) le) at e),
      ))
    where
      far : max_len < k → leb k max_len ≡ false
      far l = ground arith

  newline_found : newline_from 0 (text_of a t) ≡ some (suc (suc (suc (length a))))
  unfolding newline_from
  newline_found = newline_from-InLine 3 a t h.line ∙ ap (λ (n : ℕ). some n) (omega arith)

  header_found : header_at (text_of a t) 0 (some (suc (suc (suc (length a))))) ≡ code_fence ++ a
  unfolding header_at
  header_found =
      ap (λ (n : ℕ). trim_space (take n (text_of a t))) zeroth
      ∙ ap (λ (r : Text). trim_space (code_fence ++ r)) (take-append a (10 ∷ t))
      ∙ h.trimmed
    where
      zeroth : suc (suc (suc (length a))) - 0 ≡ suc (suc (suc (length a)))
      zeroth = omega arith

  -- What is left after a cut has the same shape.
  left_over : Text
  left_over = drop (max_len - 5) (code_fence ++ a) ++ (10 ∷ t)

  left_over-ended : trim_right is_space left_over ≡ left_over
  unfolding left_over
  left_over-ended =
      trim_right-append is_space (drop (max_len - 5) (code_fence ++ a)) (10 ∷ t) refl
        (trim_right-append is_space (10 ∷ []) t h.more h.ended)

  left_over-nonempty : is_empty left_over ≡ false
  unfolding left_over
  left_over-nonempty = nonempty (drop (max_len - 5) (code_fence ++ a))
    where
      nonempty : (s : Text) → is_empty (s ++ (10 ∷ t)) ≡ false
      nonempty [] = refl
      nonempty (c ∷ s) = refl

  left_over-LongLine : LongLine max_len a left_over
  left_over-LongLine = record {
    room = h.room;
    long = h.long;
    line = h.line;
    trimmed = h.trimmed;
    more = left_over-nonempty;
    ended = left_over-ended;
  }

  cut_again :
      (c : Text) × (cut_inside (code_fence ++ a) (max_len - 5) (text_of a t)
        ≡ chunk c (text_of a left_over))
  unfolding cut_inside left_over
  cut_again = (
    first,
    ap (λ (r : Text). chunk first (trim_space (code_fence ++ (a ++ (10 ∷ r))))) rest
        ∙ ap (λ (r : Text). chunk first r) again,
  )
    where
      first : Text
      first = trim_right is_gap (take (max_len - 5) (text_of a t)) ++ codes "\n```"

      rest : drop (max_len - 5) (text_of a t) ≡ left_over
      rest = drop-append_le (max_len - 5) (code_fence ++ a) (10 ∷ t) (omega (arith, h.long))

      again : trim_space (text_of a left_over) ≡ text_of a left_over
      again =
          trim_space-fenced a (10 ∷ left_over) refl
            (trim_right-append is_space (10 ∷ []) left_over left_over-nonempty left_over-ended)

  whole_block :
      (msg_end : ℕ)
      → msg_end ≤ max_len
      → split_block max_len msg_end 0 (text_of a t)
        ≡ cut_inside (code_fence ++ a) (max_len - 5) (text_of a t)
  unfolding split_block
  whole_block msg_end le =
      rw (newline_found, header_found, header_end_of, behind, roomy, inner) refl
    where
      behind : ltb (suc (suc (suc (length a))) + 20) msg_end ≡ false
      behind = ground (arith, h.long)

      roomy : ltb max_len 5 ≡ false
      roomy = ground (arith, h.room)

      inner : min (max_len - 5) (length (text_of a t)) ≡ max_len - 5
      inner = omega (arith, h.long, length-append a (10 ∷ t))

  whole_round :
      split_round max_len (text_of a t) ≡ cut_inside (code_fence ++ a) (max_len - 5) (text_of a t)
  unfolding split_round in_block
  whole_round =
      rw (longer, found)
        (elim (Option-cases closing) [
          | inl e ↦ rw (e, in_block) (whole_block msg_end near)
          | inr (k, e) ↦ rw (e, in_block, far k e) (whole_block msg_end near)
        ])
    where
      msg_end : ℕ
      msg_end =
          index_or (effective_limit max_len) (natural_split (text_of a t) (effective_limit max_len))

      near : msg_end ≤ max_len
      near = omega (
        arith,
        effective_limit-le max_len,
        natural_split-le (effective_limit max_len) (effective_limit max_len) (text_of a t)
            (omega arith),
      )

      closing : Option ℕ
      closing = closing_from msg_end (drop msg_end (text_of a t))

      longer : leb (length (text_of a t)) max_len ≡ false
      longer = ground (arith, h.long, length-append a (10 ∷ t))

      split_end : msg_end ≡ suc (suc (suc (msg_end - 3)))
      split_end = omega (
        arith,
        natural_split-ge (effective_limit max_len) (a ++ (10 ∷ t))
            (effective_limit-ge max_len h.room),
      )

      found : find_last_unclosed (text_of a t) msg_end ≡ some 0
      found =
          subst (λ (n : ℕ). find_last_unclosed (text_of a t) n ≡ some 0) (sym split_end)
            (fence_found (msg_end - 3) (omega (arith, near, h.long)))

      far : (k : ℕ) → closing ≡ some k → leb k max_len ≡ false
      far k e =
          subst (λ (n : ℕ). closing_from n (drop n (text_of a t)) ≡ some k → leb k max_len ≡ false)
            (sym split_end) (none_closing (msg_end - 3) k (omega (arith, near, h.long))) e

  next_round : (c : Text) × (split_round max_len (text_of a t) ≡ chunk c (text_of a left_over))
  next_round = (cut_again.0, whole_round ∙ cut_again.1)

endless :
    (rounds max_len : ℕ) (a t : Text)
    → LongLine max_len a t
    → split_loop rounds max_len (text_of a t) ≡ still_running
unfolding split_loop
endless zero max_len a t h = refl
endless (suc rounds) max_len a t h = rw (next_round max_len a t h).1 (
    ap (λ (s : Split). prepend (next_round max_len a t h).0 s)
      (endless rounds max_len a (left_over max_len a t h) (left_over-LongLine max_len a t h)))

-- A text that begins with a code block, whose first line alone is at least as long as a chunk may
-- be, is never split: the loop is still running after any number of rounds. The line has no
-- backtick and no space at its end, more text follows it that does not end in a space, and a chunk
-- may have five code points or more.
pub split_message-still_running :
    (rounds max_len : ℕ) (a t : Text)
    → LongLine max_len a t
    → split_message rounds (code_fence ++ (a ++ (10 ∷ t))) max_len ≡ still_running
unfolding split_message
split_message-still_running rounds max_len a t h = rw unlimited (endless rounds max_len a t h)
  where
    unlimited : (max_len == 0) ≡ false
    unlimited = ground (arith, h.room)
