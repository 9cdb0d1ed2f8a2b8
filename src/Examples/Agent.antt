-- ===== src/Examples/Agent.antt =====
-- pkg/agent: two scopes of steering messages, and a history of two turns that is cut.
use ebiclaw.Prelude.{◌≡◌, ◌<◌, false, List, [], ◌∷◌, length, is_empty, refl, arith}
use ebiclaw.Strings.{codes}
use ebiclaw.Protocol.{plain}
use ebiclaw.Agent.Steering.{one_at_a_time, all}
use ebiclaw.Agent.Steering.Order.{
  Call, push, poll, poll_fallback, switch, watch, start, IsFair, steering-IsFair,
}
use ebiclaw.Strings.{text_eq}
use ebiclaw.Maps.{get}
use ebiclaw.Session.{SessionManager, Session, get_history}
use ebiclaw.Agent.Compression.{parse_turn_boundaries}
use ebiclaw.Agent.Compression.Cut.{IsForced, force_compression-IsForced}

abbrev steering_calls : List Call
steering_calls =
    push (codes "chat") (plain (codes "user") (codes "stop"))
    ∷ push (codes " ") (plain (codes "user") (codes "wait"))
    ∷ poll_fallback (codes "chat")
    ∷ switch all
    ∷ poll (codes "__manual__")
    ∷ []

steering-IsFair_example :
    IsFair (codes "chat") (watch (codes "chat") steering_calls (start one_at_a_time))
steering-IsFair_example = steering-IsFair one_at_a_time steering_calls (codes "chat")

abbrev turns : Session
turns = record {
  key = codes "main";
  messages =
      plain (codes "user") (codes "hi")
      ∷ plain (codes "assistant") (codes "hello")
      ∷ plain (codes "user") (codes "list the files")
      ∷ plain (codes "assistant") (codes "none")
      ∷ [];
  summary = [];
  created = 1;
  updated = 5;
}

abbrev manager : SessionManager
manager = record { sessions = (codes "main", turns) ∷ []; storage = [] }

turns_long : 2 < length (get_history (codes "main") manager)
unfolding get_history get text_eq
turns_long = omega arith

turns_begun : is_empty (parse_turn_boundaries (get_history (codes "main") manager)) ≡ false
unfolding get_history get text_eq parse_turn_boundaries
turns_begun = refl

force_compression-IsForced_example : IsForced (codes "main") 9 manager
force_compression-IsForced_example =
    force_compression-IsForced (codes "main") 9 manager turns_long turns_begun
