-- ===== src/Examples/Conversations.antt =====
-- pkg/session, pkg/utils and pkg/identity: two sessions, a truncated context and an allow list.
use ebiclaw.Prelude.{
  ◌-◌, ◌≡◌, ◌≤◌, ◌<◌, true, false, not, ◌&&◌, Option, some, List, [], ◌∷◌, ◌++◌, is_empty, refl,
}
use ebiclaw.Strings.{Text, codes, text_eq, trim_space, to_lower, has_prefix, lower_rune}
use ebiclaw.Strings.Cut.{Without}
use ebiclaw.Protocol.{JsonFields, Message, plain}
use ebiclaw.Identity.{SenderInfo, build_canonical_id, parse_canonical_id, is_numeric, match_allowed}
use ebiclaw.Identity.RoundTrip.{parse-build_canonical_id}
use ebiclaw.Identity.Matching.{IsPlain, match_allowed-plain, match_allowed-own}
use ebiclaw.Context.{system_messages, other_messages, truncate_context_smart}
use ebiclaw.Context.Keep.{IsRecent, reserved, mark, truncate_context_smart-IsRecent}
use ebiclaw.Session.{SessionManager, get_history, sanitize_filename}
use ebiclaw.Session.History.{
  Op, add, add_text, truncate, run, history_of, view, or_empty, get_history-history_of,
}
use ebiclaw.Session.FileNames.{sanitize_filename_collision}

abbrev fresh : SessionManager
fresh = record { sessions = []; storage = [] }

abbrev calls : List Op
calls =
    add_text (codes "a") (codes "user") (codes "hi") 1
    ∷ add_text (codes "b") (codes "user") (codes "other") 2
    ∷ add (codes "a") (plain (codes "assistant") (codes "hello")) 3
    ∷ truncate (codes "a") 1 4
    ∷ []

get_history-history_of_example :
    get_history (codes "a") (run calls fresh)
    ≡ or_empty (history_of (codes "a") calls (view (codes "a") fresh))
get_history-history_of_example = get_history-history_of calls (codes "a") fresh

sanitize_filename_collision_example :
    (sanitize_filename (codes "agent" ++ (codes ":" ++ codes "main"))
      ≡ sanitize_filename (codes "agent" ++ (codes "_" ++ codes "main")))
    × (sanitize_filename (codes "agent" ++ (codes "/" ++ codes "main"))
        ≡ sanitize_filename (codes "agent" ++ (codes "_" ++ codes "main")))
    × (sanitize_filename (codes "agent" ++ (codes "\\" ++ codes "main"))
        ≡ sanitize_filename (codes "agent" ++ (codes "_" ++ codes "main")))
sanitize_filename_collision_example = sanitize_filename_collision (codes "agent") (codes "main")

abbrev marshal : JsonFields → Option Text
marshal arguments = some (codes "{}")

abbrev talk : List Message
talk =
    plain (codes "system") (codes "be brief")
    ∷ plain (codes "user") (codes "tell me a story")
    ∷ plain (codes "assistant") (codes "once")
    ∷ []

truncate_context_smart-IsRecent_example :
    (100 ≤ reserved marshal talk → truncate_context_smart marshal talk 100 ≡ system_messages talk)
    × (reserved marshal talk < 100
        → (kept : List Message) × IsRecent marshal
            (100 - reserved marshal talk)
            (other_messages talk)
            kept
          × (truncate_context_smart marshal talk 100
              ≡ system_messages talk ++ (mark marshal (other_messages talk) kept ++ kept)))
truncate_context_smart-IsRecent_example = truncate_context_smart-IsRecent marshal talk 100

abbrev alice : SenderInfo
alice = record {
  platform = codes "slack";
  platform_id = codes "U1";
  canonical_id = codes "slack:U1";
  username = codes "alice";
  display_name = codes "Alice";
}

u1-IsPlain : IsPlain (trim_space (codes " U1 "))
unfolding trim_space has_prefix
u1-IsPlain = record {
  nonempty = refl;
  no_colon = (refl, (refl, tt));
  no_bar = (refl, (refl, tt));
  no_at = refl;
}

match_allowed-plain_example :
    match_allowed lower_rune alice (codes " U1 ")
    ≡ (not (is_empty alice.platform_id) && text_eq alice.platform_id (trim_space (codes " U1 ")))
match_allowed-plain_example = match_allowed-plain lower_rune alice (codes " U1 ") u1-IsPlain

platform_given : is_empty (to_lower (trim_space (codes " Slack"))) ≡ false
unfolding to_lower trim_space
platform_given = refl

id_given : is_empty (trim_space (codes "U1")) ≡ false
unfolding trim_space
id_given = refl

no_colon : Without 58 (to_lower (trim_space (codes " Slack")))
unfolding to_lower trim_space lower_rune
no_colon = (refl, (refl, (refl, (refl, (refl, tt)))))

parse-build_canonical_id_example :
    parse_canonical_id (build_canonical_id (codes " Slack") (codes "U1"))
    ≡ some (to_lower (trim_space (codes " Slack")), trim_space (codes "U1"))
parse-build_canonical_id_example =
    parse-build_canonical_id (codes " Slack") (codes "U1") platform_given id_given no_colon

not_numeric : is_numeric (to_lower (trim_space (codes " Slack"))) ≡ false
unfolding is_numeric to_lower trim_space lower_rune
not_numeric = refl

alice_built : alice.canonical_id ≡ build_canonical_id (codes " Slack") (codes "U1")
unfolding build_canonical_id to_lower trim_space lower_rune
alice_built = refl

match_allowed-own_example : match_allowed lower_rune alice alice.canonical_id ≡ true
match_allowed-own_example =
    match_allowed-own lower_rune alice (codes " Slack") (codes "U1") alice_built platform_given
      id_given no_colon not_numeric
