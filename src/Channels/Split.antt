-- ===== src/Channels/Split.antt =====
-- pkg/channels/split.go. The runes from `start` on are the text at hand, and an index counts from
-- there, since the code never looks at what lies before. A search that finds nothing is `none`.
-- A negative maxLen is 0.
pub mod Search
pub mod Chunks
pub mod Plain
pub mod Fence
pub mod Endless
use ebiclaw.Prelude.{
  ℕ, zero, suc, ◌+◌, ◌-◌, ◌/◌, Bool, true, false, ◌||◌, Option, none, some, List, [], ◌∷◌, ◌++◌,
  if◌then◌else◌, is_empty, length, take, drop, leb, ltb, ◌==◌, min, max,
}
use ebiclaw.Strings.{Text, codes, trim_space, trim_left, trim_right, has_prefix}

abbrev pub code_fence : Text
code_fence = codes "```"

abbrev pub is_newline : ℕ → Bool
is_newline c = c == 10

abbrev pub is_blank : ℕ → Bool
is_blank c = (c == 32) || (c == 9)

-- What is skipped in front of the next chunk, and cut from the end of a closed one.
abbrev pub is_gap : ℕ → Bool
is_gap c = (c == 32) || (c == 9) || (c == 10) || (c == 13)

-- The last code point of the text that passes the test, where the first stands at i.
unfoldable pub last_from : (ℕ → Bool) → ℕ → Text → Option ℕ
last_from test i [] = none
last_from test i (c ∷ s) = elim (last_from test (suc i) s) [
  | some j ↦ some j
  | none ↦ if test c then some i else none
]

-- findLastNewlineInRange and findLastSpaceInRange, from the start of the text.
unfoldable pub find_last_in_range : (ℕ → Bool) → Text → ℕ → ℕ → Option ℕ
unfolding last_from
find_last_in_range test runes end window =
    let from = end - window in last_from test from (take (end - from) (drop from runes))

-- inCodeBlock and lastOpenIdx in one: the index of the fence that is open.
abbrev pub toggle : ℕ → Option ℕ → Option ℕ
toggle i none = some i
toggle i (some j) = none

-- The loop of findLastUnclosedCodeBlockInRange: what is left of a fence is skipped.
unfoldable pub unclosed_from : ℕ → ℕ → Option ℕ → Text → Option ℕ
unfolding has_prefix
unclosed_from skip i opened [] = opened
unclosed_from (suc skip) i opened (c ∷ s) = unclosed_from skip (suc i) opened s
unclosed_from zero i opened (c ∷ s) =
    let fenced = has_prefix (c ∷ s) code_fence in
    unclosed_from (if fenced then 2 else 0) (suc i) (if fenced then toggle i opened else opened) s

unfoldable pub find_last_unclosed : Text → ℕ → Option ℕ
unfolding unclosed_from
find_last_unclosed runes end = unclosed_from 0 0 none (take end runes)

-- findNextClosingCodeBlockInRange: the index behind the next fence.
unfoldable pub closing_from : ℕ → Text → Option ℕ
unfolding has_prefix
closing_from i [] = none
closing_from i (c ∷ s) =
    let rest = closing_from (suc i) s in
    if has_prefix (c ∷ s) code_fence then some (i + 3) else rest

-- findNewlineFrom
unfoldable pub newline_from : ℕ → Text → Option ℕ
newline_from i [] = none
newline_from i (c ∷ s) = let rest = newline_from (suc i) s in if is_newline c then some i else rest

-- `if msgEnd <= start { msgEnd = … }`
abbrev pub or_if_zero : Option ℕ → Option ℕ → Option ℕ
or_if_zero none b = b
or_if_zero (some zero) b = b
or_if_zero (some (suc i)) b = some (suc i)

abbrev pub index_or : ℕ → Option ℕ → ℕ
index_or d none = d
index_or d (some zero) = d
index_or d (some (suc i)) = suc i

-- The last newline, or else the last blank, of the text up to an end.
unfoldable pub natural_split : Text → ℕ → Option ℕ
natural_split runes end =
    or_if_zero (find_last_in_range is_newline runes end 200)
      (find_last_in_range is_blank runes end 100)

-- max(maxLen/10, 50), but at most maxLen/2
unfoldable pub code_block_buffer : ℕ → ℕ
code_block_buffer max_len = min (max (max_len / 10) 50) (max_len / 2)

unfoldable pub effective_limit : ℕ → ℕ
unfolding code_block_buffer
effective_limit max_len = max (max_len - code_block_buffer max_len) (max_len / 2)

-- One round of the loop: the last chunk, a chunk and the text that is left, or a slice out of range.
pub data Round : Type 0 where
  last_chunk : Text → Round
  chunk : Text → Text → Round
  out_of_range : Round

-- The end of the loop body, for a chunk that is cut as it stands.
unfoldable pub cut_plain : ℕ → Text → Round
cut_plain msg_end runes = chunk (take msg_end runes) (trim_left is_gap (drop msg_end runes))

-- A chunk that ends inside a code block: the fence is closed, and the header opens it again.
unfoldable pub cut_inside : Text → ℕ → Text → Round
cut_inside header msg_end runes =
    chunk (trim_right is_gap (take msg_end runes) ++ codes "\n```")
      (trim_space (header ++ (codes "\n" ++ drop msg_end runes)))

-- The header line of the code block at an index.
unfoldable pub header_at : Text → ℕ → Option ℕ → Text
header_at runes u none = trim_space (take 3 (drop u runes))
header_at runes u (some e) = trim_space (take (e - u) (drop u runes))

abbrev pub header_end_of : ℕ → Text → Option ℕ → ℕ
header_end_of u header none = u + length header
header_end_of u header (some e) = e

-- Where a split inside is better, `betterEnd`.
unfoldable pub better_end : ℕ → ℕ → Text → ℕ
unfolding find_last_in_range
better_end inner header_end runes = elim (find_last_in_range is_newline runes inner 200) [
  | none ↦ inner
  | some b ↦ if ltb header_end b then b else inner
]

-- The code block does not fit: the split inside, before the block, at the block, or inside at last.
unfoldable pub split_block : ℕ → ℕ → ℕ → Text → Round
unfolding cut_inside cut_plain natural_split header_at better_end
split_block max_len msg_end u runes =
    let newline = newline_from u (drop u runes) in
    let header = header_at runes u newline in
    let header_end = header_end_of u header newline in
    let inner = min (max_len - 5) (length runes) in
    let before = natural_split runes u in
    if ltb (header_end + 20) msg_end
    then (if ltb max_len 5
        then out_of_range
        else cut_inside header (better_end inner header_end runes) runes)
    else if ltb 0 (index_or 0 before)
    then cut_plain (index_or 0 before) runes
    else if ltb 20 u
    then cut_plain u runes
    else if ltb max_len 5
    then out_of_range
    else cut_inside header inner runes

-- The code block that is open at `msg_end`, at u.
unfoldable pub in_block : ℕ → ℕ → ℕ → Text → Round
unfolding cut_plain
in_block max_len msg_end u runes = elim (closing_from msg_end (drop msg_end runes)) [
  | none ↦ split_block max_len msg_end u runes
  | some k ↦ if leb k max_len then cut_plain k runes else split_block max_len msg_end u runes
]

-- The body of the loop of SplitMessage.
unfoldable pub split_round : ℕ → Text → Round
unfolding cut_plain
split_round max_len runes =
    let msg_end =
      index_or (effective_limit max_len) (natural_split runes (effective_limit max_len)) in
    let long : Round = elim (find_last_unclosed runes msg_end) [
      | none ↦ cut_plain msg_end runes
      | some u ↦ in_block max_len msg_end u runes
    ] in
    if leb (length runes) max_len then last_chunk runes else long

-- How the loop ends, if it does within the rounds that it is given.
pub data Split : Type 0 where
  chunks : List Text → Split
  panicked : Split
  still_running : Split

abbrev pub prepend : Text → Split → Split
prepend c (chunks cs) = chunks (c ∷ cs)
prepend c panicked = panicked
prepend c still_running = still_running

unfoldable pub split_loop : ℕ → ℕ → Text → Split
unfolding split_round
split_loop zero max_len runes = still_running
split_loop (suc rounds) max_len runes =
    let body : Split = elim (split_round max_len runes) [
      | last_chunk c ↦ chunks (c ∷ [])
      | chunk c rest ↦ prepend c (split_loop rounds max_len rest)
      | out_of_range ↦ panicked
    ] in
    if is_empty runes then chunks [] else body

-- SplitMessage, with the number of rounds that its loop may take.
unfoldable pub split_message : ℕ → Text → ℕ → Split
unfolding split_loop
split_message rounds content max_len =
    let whole = if is_empty content then chunks [] else chunks (content ∷ []) in
    if max_len == 0 then whole else split_loop rounds max_len content
