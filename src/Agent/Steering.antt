-- ===== src/Agent/Steering.antt =====
-- pkg/agent/steering.go: the queue of messages that are put into a running turn. Each method holds
-- the mutex, so it is one step.
pub mod Order
use ebiclaw.Prelude.{
  ℕ, ◌+◌, Bool, true, false, Option, none, some, List, [], ◌∷◌, ◌++◌, if◌then◌else◌, is_empty,
  length, leb,
}
use ebiclaw.Strings.{Text, codes, text_eq, trim_space}
use ebiclaw.Maps.{Map, get, put, remove}
use ebiclaw.Protocol.{Message}

pub data SteeringMode : Type 0 where
  one_at_a_time : SteeringMode
  all : SteeringMode

abbrev pub max_queue_size : ℕ
max_queue_size = 10

abbrev pub manual_steering_scope : Text
manual_steering_scope = codes "__manual__"

unfoldable pub parse_steering_mode : Text → SteeringMode
parse_steering_mode s = if text_eq s (codes "all") then all else one_at_a_time

pub record SteeringQueue : Type 0 where
  pub queues : Map (List Message)
  pub mode : SteeringMode

unfoldable pub new_steering_queue : SteeringMode → SteeringQueue
new_steering_queue mode = record { queues = []; mode = mode }

unfoldable pub normalize_steering_scope : Text → Text
normalize_steering_scope scope =
    let trimmed = trim_space scope in if is_empty trimmed then manual_steering_scope else trimmed

-- sq.queues[scope], which is nil for a missing key
unfoldable pub queue_at : Text → SteeringQueue → List Message
queue_at scope sq = elim (get scope sq.queues) [ none ↦ [] | some queue ↦ queue ]

-- The flag says that the message was taken.
unfoldable pub push_scope : Text → Message → SteeringQueue → Bool × SteeringQueue
unfolding queue_at normalize_steering_scope
push_scope scope msg sq =
    let key = normalize_steering_scope scope in
    let queue = queue_at key sq in
    if leb max_queue_size (length queue)
    then (false, sq)
    else (true, record sq { queues = put key (queue ++ (msg ∷ [])) sq.queues })

unfoldable pub push : Message → SteeringQueue → Bool × SteeringQueue
unfolding push_scope
push msg sq = push_scope manual_steering_scope msg sq

-- What dequeueLocked does with a queue: the messages that it returns, and those that stay.
unfoldable pub take_from : SteeringMode → List Message → List Message × List Message
take_from mode [] = ([], [])
take_from all (m ∷ ms) = (m ∷ ms, [])
take_from one_at_a_time (m ∷ ms) = (m ∷ [], ms)

unfoldable pub dequeue_locked : Text → SteeringQueue → List Message × SteeringQueue
unfolding queue_at take_from
dequeue_locked scope sq =
    let (msgs, rest) = take_from sq.mode (queue_at scope sq) in
    if is_empty (queue_at scope sq)
    then ([], sq)
    else if is_empty rest
    then (msgs, record sq { queues = remove scope sq.queues })
    else (msgs, record sq { queues = put scope rest sq.queues })

unfoldable pub dequeue_scope : Text → SteeringQueue → List Message × SteeringQueue
unfolding dequeue_locked normalize_steering_scope
dequeue_scope scope sq = dequeue_locked (normalize_steering_scope scope) sq

unfoldable pub dequeue : SteeringQueue → List Message × SteeringQueue
unfolding dequeue_scope
dequeue sq = dequeue_scope manual_steering_scope sq

unfoldable pub dequeue_scope_with_fallback : Text → SteeringQueue → List Message × SteeringQueue
dequeue_scope_with_fallback scope sq =
    let trimmed = trim_space scope in
    let (msgs, sq') = dequeue_locked trimmed sq in
    let manual = dequeue_locked manual_steering_scope sq in
    let after = dequeue_locked manual_steering_scope sq' in
    if is_empty trimmed then manual else if is_empty msgs then after else (msgs, sq')

unfoldable pub total_of : Map (List Message) → ℕ
total_of [] = 0
total_of ((k, queue) ∷ m) = length queue + total_of m

-- len
unfoldable pub total_len : SteeringQueue → ℕ
unfolding total_of
total_len sq = total_of sq.queues

unfoldable pub len_scope : Text → SteeringQueue → ℕ
unfolding queue_at normalize_steering_scope
len_scope scope sq = length (queue_at (normalize_steering_scope scope) sq)

unfoldable pub set_mode : SteeringMode → SteeringQueue → SteeringQueue
set_mode mode sq = record sq { mode = mode }
