-- ===== src/Channels/Split/Chunks.antt =====
-- The length of the chunks that a message is split into.
use ebiclaw.Prelude.{
  ℕ, zero, suc, ◌+◌, ◌-◌, ◌≡◌, ◌≤◌, ◌<◌, Bool, true, false, Option, [], ◌∷◌, if◌then◌else◌,
  is_empty, length, take, drop, leb, ltb, ◌==◌, arith, refl, Bool-cases, Option-cases, inl, inr,
  length-take, length-append, min, All,
}
use ebiclaw.Strings.{Text, codes, trim_right, keep_unless}
use ebiclaw.Channels.Split.{
  Round, last_chunk, chunk, out_of_range, Split, chunks, panicked, still_running, prepend, is_gap,
  is_newline, index_or, natural_split, code_block_buffer, effective_limit, cut_plain, cut_inside,
  header_at, header_end_of, better_end, find_last_in_range, newline_from, closing_from,
  find_last_unclosed, split_block, in_block, split_round, split_loop, split_message,
}
use ebiclaw.Channels.Split.Search.{find_last_in_range-lt, natural_split-le, find_last_unclosed-lt}

length-keep_unless-le :
    (p : ℕ → Bool) (c : ℕ) (s : Text) → length (keep_unless p c s) ≤ suc (length s)
unfolding keep_unless
length-keep_unless-le p c [] = ground arith
length-keep_unless-le p c (d ∷ s) = omega arith

length-trim_right-le : (p : ℕ → Bool) (s : Text) → length (trim_right p s) ≤ length s
unfolding trim_right
length-trim_right-le p [] = omega arith
length-trim_right-le p (c ∷ s) =
    omega (arith, length-keep_unless-le p c (trim_right p s), length-trim_right-le p s)

abbrev IsShort : ℕ → Round → Type 0
IsShort n (last_chunk c) = length c ≤ n
IsShort n (chunk c rest) = length c ≤ n
IsShort n out_of_range = Unit

pub effective_limit-le : (max_len : ℕ) → effective_limit max_len ≤ max_len
unfolding effective_limit code_block_buffer
effective_limit-le max_len = omega arith

module _ (max_len : ℕ) (runes : Text) where
  cut_plain-IsShort : (msg_end : ℕ) → msg_end ≤ max_len → IsShort max_len (cut_plain msg_end runes)
  unfolding cut_plain
  cut_plain-IsShort msg_end h = omega (arith, length-take msg_end runes)

  cut_inside-IsShort :
      (header : Text) (msg_end : ℕ)
      → 5 ≤ max_len
      → msg_end ≤ max_len - 5
      → IsShort max_len (cut_inside header msg_end runes)
  unfolding cut_inside
  cut_inside-IsShort header msg_end h k = omega (
    arith,
    length-append (trim_right is_gap (take msg_end runes)) (codes "\n```"),
    length-trim_right-le is_gap (take msg_end runes),
    length-take msg_end runes,
  )

  better_end-le : (inner header_end : ℕ) → better_end inner header_end runes ≤ inner
  unfolding better_end
  better_end-le inner header_end =
      elim (Option-cases (find_last_in_range is_newline runes inner 200)) [
        | inl e ↦ rw (e, better_end) (omega arith)
        | inr (b, e) ↦
            rw (e, better_end) (chosen b (find_last_in_range-lt is_newline runes inner 200 b e))
      ]
    where
      chosen : (b : ℕ) → b < inner → (if ltb header_end b then b else inner) ≤ inner
      chosen b h = ground arith

  split_block-IsShort :
      (msg_end u : ℕ) → u ≤ max_len → IsShort max_len (split_block max_len msg_end u runes)
  unfolding split_block
  split_block-IsShort msg_end u h =
      by_test (ltb (header_end + 20) msg_end) (ltb 0 (index_or 0 (natural_split runes u)))
        (ltb 20 u) (ltb max_len 5) refl
    where
      newline : Option ℕ
      newline = newline_from u (drop u runes)

      header : Text
      header = header_at runes u newline

      header_end : ℕ
      header_end = header_end_of u header newline

      inner : ℕ
      inner = min (max_len - 5) (length runes)

      fits : ltb max_len 5 ≡ false → 5 ≤ max_len
      fits e = ground arith

      by_test :
          (a b c d : Bool)
          → ltb max_len 5 ≡ d
          → IsShort max_len (
              if a
              then (if d
                  then out_of_range
                  else cut_inside header (better_end inner header_end runes) runes)
              else if b
              then cut_plain (index_or 0 (natural_split runes u)) runes
              else if c
              then cut_plain u runes
              else if d
              then out_of_range
              else cut_inside header inner runes)
      by_test true b c true e = tt
      by_test true b c false e =
          cut_inside-IsShort header (better_end inner header_end runes) (fits e)
            (omega (arith, better_end-le inner header_end))
      by_test false true c d e =
          cut_plain-IsShort (index_or 0 (natural_split runes u))
            (omega (arith, natural_split-le 0 u runes (omega arith)))
      by_test false false true d e = cut_plain-IsShort u h
      by_test false false false true e = tt
      by_test false false false false e = cut_inside-IsShort header inner (fits e) (omega arith)

  in_block-IsShort :
      (msg_end u : ℕ) → u ≤ max_len → IsShort max_len (in_block max_len msg_end u runes)
  unfolding in_block
  in_block-IsShort msg_end u h = elim (Option-cases (closing_from msg_end (drop msg_end runes))) [
    | inl e ↦ rw (e, IsShort) (split_block-IsShort msg_end u h)
    | inr (k, e) ↦ elim (Bool-cases (leb k max_len)) [
      | inl f ↦ rw (e, f, IsShort) (cut_plain-IsShort k (ground arith))
      | inr f ↦ rw (e, f, IsShort) (split_block-IsShort msg_end u h)
    ]
  ]

  split_round-IsShort : IsShort max_len (split_round max_len runes)
  unfolding split_round
  split_round-IsShort = elim (Bool-cases (leb (length runes) max_len)) [
    | inl e ↦ rw e (below e)
    | inr e ↦ elim (Option-cases (find_last_unclosed runes msg_end)) [
      | inl f ↦ rw (e, f) (cut_plain-IsShort msg_end near)
      | inr (u, f) ↦
          rw (e, f)
            (in_block-IsShort msg_end u
              (omega (arith, near, find_last_unclosed-lt runes msg_end u f)))
    ]
  ]
    where
      msg_end : ℕ
      msg_end = index_or (effective_limit max_len) (natural_split runes (effective_limit max_len))

      near : msg_end ≤ max_len
      near = omega (
        arith,
        effective_limit-le max_len,
        natural_split-le (effective_limit max_len) (effective_limit max_len) runes (omega arith),
      )

      below : leb (length runes) max_len ≡ true → length runes ≤ max_len
      below e = ground arith

abbrev pub AllShort : ℕ → Split → Type 0
AllShort n (chunks cs) = All (λ c. length c ≤ n) cs
AllShort n panicked = Unit
AllShort n still_running = Unit

prepend-AllShort :
    (n : ℕ) (c : Text) (s : Split) → length c ≤ n → AllShort n s → AllShort n (prepend c s)
prepend-AllShort n c (chunks cs) h k = (h, k)
prepend-AllShort n c panicked h k = tt
prepend-AllShort n c still_running h k = tt

pub split_loop-AllShort :
    (rounds max_len : ℕ) (runes : Text) → AllShort max_len (split_loop rounds max_len runes)
unfolding split_loop
split_loop-AllShort zero max_len runes = tt
split_loop-AllShort (suc rounds) max_len runes = elim (Bool-cases (is_empty runes)) [
  | inl e ↦ rw e tt
  | inr e ↦ rw e (
      by_round (split_round max_len runes) (split_round-IsShort max_len runes)
        (λ rest. split_loop-AllShort rounds max_len rest))
]
  where
    by_round :
        (r : Round)
        → IsShort max_len r
        → ((rest : Text) → AllShort max_len (split_loop rounds max_len rest))
        → AllShort max_len (elim r [
          | last_chunk c ↦ chunks (c ∷ [])
          | chunk c rest ↦ prepend c (split_loop rounds max_len rest)
          | out_of_range ↦ panicked
        ])
    by_round (last_chunk c) h k = (h, tt)
    by_round (chunk c rest) h k =
        prepend-AllShort max_len c (split_loop rounds max_len rest) h (k rest)
    by_round out_of_range h k = tt

-- Each chunk that a split with a positive limit max_len gives has at most max_len code points,
-- whatever code blocks the text has:
-- the fence that closes a chunk and the header that opens the next one are counted.
pub split_message-AllShort :
    (rounds : ℕ) (content : Text) (max_len : ℕ)
    → 0 < max_len
    → AllShort max_len (split_message rounds content max_len)
unfolding split_message
split_message-AllShort rounds content max_len h =
    rw (test max_len h) (split_loop-AllShort rounds max_len content)
  where
    test : (n : ℕ) → 0 < n → (n == 0) ≡ false
    test n k = ground arith
