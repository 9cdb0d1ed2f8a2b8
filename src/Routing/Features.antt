-- ===== src/Routing/Features.antt =====
-- pkg/routing/features.go.
pub mod Bounds
use ebiclaw.Prelude.{
  ℕ, zero, suc, ◌+◌, ◌-◌, ◌/◌, Bool, true, false, ◌&&◌, ◌||◌, List, [], ◌∷◌, leb, if◌then◌else◌,
  length, drop,
}
use ebiclaw.Strings.{Text, codes, to_lower, has_prefix, contains}
use ebiclaw.Protocol.{Message}

abbrev pub lookback_window : ℕ
lookback_window = 6

pub record Features : Type 0 where
  pub token_estimate : ℕ
  pub code_block_count : ℕ
  pub recent_tool_calls : ℕ
  pub conversation_depth : ℕ
  pub has_attachments : Bool

unfoldable pub is_cjk : ℕ → Bool
is_cjk r =
    (leb 0x2e80 r && leb r 0x9fff)
    || (leb 0xf900 r && leb r 0xfaff)
    || (leb 0xac00 r && leb r 0xd7af)

unfoldable pub count_cjk : Text → ℕ
unfolding is_cjk
count_cjk [] = 0
count_cjk (r ∷ s) = let rest = count_cjk s in if is_cjk r then suc rest else rest

unfoldable pub estimate_tokens : Text → ℕ
unfolding count_cjk
estimate_tokens msg = let cjk = count_cjk msg in cjk + (length msg - cjk) / 4

-- strings.Count: the first argument counts down the rest of an occurrence that was found.
unfoldable pub count_from : ℕ → Text → Text → ℕ
unfolding has_prefix
count_from skip sub [] = 0
count_from (suc skip) sub (c ∷ s) = count_from skip sub s
count_from zero sub (c ∷ s) =
    let found = suc (count_from (length sub - 1) sub s) in
    let missed = count_from 0 sub s in if has_prefix (c ∷ s) sub then found else missed

abbrev pub fence : Text
fence = codes "```"

unfoldable pub count_code_blocks : Text → ℕ
unfolding count_from
count_code_blocks msg = count_from 0 fence msg / 2

unfoldable pub sum_tool_calls : List Message → ℕ
sum_tool_calls [] = 0
sum_tool_calls (m ∷ ms) = length m.tool_calls + sum_tool_calls ms

unfoldable pub count_recent_tool_calls : List Message → ℕ
unfolding sum_tool_calls
count_recent_tool_calls history = sum_tool_calls (drop (length history - lookback_window) history)

unfoldable pub contains_any : Text → List Text → Bool
unfolding contains
contains_any s [] = false
contains_any s (sub ∷ subs) = contains s sub || contains_any s subs

abbrev pub media_exts : List Text
media_exts =
    codes ".jpg"
    ∷ codes ".jpeg"
    ∷ codes ".png"
    ∷ codes ".gif"
    ∷ codes ".webp"
    ∷ codes ".bmp"
    ∷ codes ".mp3"
    ∷ codes ".wav"
    ∷ codes ".ogg"
    ∷ codes ".m4a"
    ∷ codes ".flac"
    ∷ codes ".mp4"
    ∷ codes ".avi"
    ∷ codes ".mov"
    ∷ codes ".webm"
    ∷ []

unfoldable pub has_attachments : Text → Bool
unfolding contains_any to_lower
has_attachments msg =
    let lower = to_lower msg in
    if contains_any lower (codes "data:image/" ∷ codes "data:audio/" ∷ codes "data:video/" ∷ [])
    then true
    else contains_any lower media_exts

unfoldable pub extract_features : Text → List Message → Features
unfolding estimate_tokens count_code_blocks count_recent_tool_calls has_attachments
extract_features msg history = record {
  token_estimate = estimate_tokens msg;
  code_block_count = count_code_blocks msg;
  recent_tool_calls = count_recent_tool_calls history;
  conversation_depth = length history;
  has_attachments = has_attachments msg;
}
