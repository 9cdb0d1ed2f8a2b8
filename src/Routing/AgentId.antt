-- ===== src/Routing/AgentId.antt =====
-- pkg/routing/agent_id.go. The two regular expressions over [a-z0-9_-] are tests on code points;
-- what they leave is ASCII, so Go's byte length is the length of the list.
pub mod Shape
pub mod Stability
use ebiclaw.Prelude.{
  ℕ, Bool, true, false, ◌&&◌, ◌||◌, List, [], ◌∷◌, leb, ltb, ◌==◌, if◌then◌else◌, is_empty, length,
  take,
}
use ebiclaw.Strings.{Text, codes, trim_space, to_lower, trim_left, trim_right}

abbrev pub default_agent_id : Text
default_agent_id = codes "main"

abbrev pub default_main_key : Text
default_main_key = codes "main"

abbrev pub default_account_id : Text
default_account_id = codes "default"

abbrev pub max_agent_id_length : ℕ
max_agent_id_length = 64

-- [a-z0-9]
unfoldable pub is_id_head : ℕ → Bool
is_id_head c = (leb 97 c && leb c 122) || (leb 48 c && leb c 57)

-- [a-z0-9_-]
unfoldable pub is_id_char : ℕ → Bool
unfolding is_id_head
is_id_char c = is_id_head c || (c == 95) || (c == 45)

unfoldable pub all_id_chars : Text → Bool
unfolding is_id_char
all_id_chars [] = true
all_id_chars (c ∷ s) = is_id_char c && all_id_chars s

-- validIDRe, `^[a-z0-9][a-z0-9_-]{0,63}$`
unfoldable pub valid_id : Text → Bool
unfolding is_id_head all_id_chars
valid_id [] = false
valid_id (c ∷ s) = is_id_head c && all_id_chars s && leb (length s) 63

-- invalidCharsRe.ReplaceAllString(s, "-"); the flag says that the run at hand was replaced.
unfoldable pub replace_invalid : Bool → Text → Text
unfolding is_id_char
replace_invalid in_run [] = []
replace_invalid in_run (c ∷ s) =
    let inside = replace_invalid true s in
    let outside = replace_invalid false s in
    if is_id_char c then c ∷ outside else if in_run then inside else 45 ∷ inside

abbrev pub is_dash : ℕ → Bool
is_dash c = c == 45

-- leadingDashRe and trailingDashRe
unfoldable pub strip_dashes : Text → Text
unfolding trim_left trim_right
strip_dashes s = trim_right is_dash (trim_left is_dash s)

unfoldable pub clip : Text → Text
clip s = if ltb max_agent_id_length (length s) then take max_agent_id_length s else s

-- The text for an identifier that is not valid as it stands.
unfoldable pub sanitize : Text → Text
unfolding replace_invalid strip_dashes clip
sanitize lower = clip (strip_dashes (replace_invalid false lower))

-- The common body of NormalizeAgentID and NormalizeAccountID, over their default.
unfoldable pub normalize_id : Text → Text → Text
unfolding valid_id sanitize
normalize_id default id =
    let lower = to_lower (trim_space id) in
    if is_empty (trim_space id)
    then default
    else if valid_id lower
    then lower
    else if is_empty (sanitize lower)
    then default
    else sanitize lower

unfoldable pub normalize_agent_id : Text → Text
unfolding normalize_id
normalize_agent_id id = normalize_id default_agent_id id

unfoldable pub normalize_account_id : Text → Text
unfolding normalize_id
normalize_account_id id = normalize_id default_account_id id
