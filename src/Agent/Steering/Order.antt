-- ===== src/Agent/Steering/Order.antt =====
-- What a queue of steering messages keeps and hands out.
use ebiclaw.Prelude.{
  ℕ, ◌≡◌, ◌≢◌, ◌⊎◌, ◌≤◌, ◌+◌, ◌&&◌, ◌||◌, Bool, true, false, Option, none, some, List, [], ◌∷◌,
  ◌++◌, if◌then◌else◌, is_empty, length, leb, arith, refl, ap, sym, ◌∙◌, Bool-cases, Option-cases,
  inl, inr, append_assoc, append-nil, length-append,
}
use ebiclaw.Strings.{Text, text_eq, trim_space}
use ebiclaw.Strings.Equal.{text_eq-cases}
use ebiclaw.Maps.{get, put, remove, get-put, get-remove}
use ebiclaw.Protocol.{Message}
use ebiclaw.Agent.Steering.{
  SteeringMode, one_at_a_time, all, max_queue_size, manual_steering_scope, SteeringQueue,
  normalize_steering_scope, new_steering_queue, queue_at, push_scope, take_from, dequeue_locked,
  dequeue_scope, dequeue_scope_with_fallback, set_mode,
}

-- The calls that change a queue.
pub data Call : Type 0 where
  push : Text → Message → Call
  poll : Text → Call
  poll_fallback : Text → Call
  switch : SteeringMode → Call

-- A queue, with the messages that one key's queue has taken and handed out.
pub record Trace : Type 0 where
  pub taken : List Message
  pub handed : List Message
  pub queue : SteeringQueue

-- The scope that a poll with fallback is served from.
abbrev pub served : Text → SteeringQueue → Text
served scope sq =
    let trimmed = trim_space scope in
    if is_empty trimmed || is_empty (queue_at trimmed sq) then manual_steering_scope else trimmed

abbrev pub append_if : Bool → List Message → List Message → List Message
append_if true new old = old ++ new
append_if false new old = old

-- One call, watched at a key.
pub step : Text → Call → Trace → Trace
step key (push scope msg) t =
    let (ok, q) = push_scope scope msg t.queue in
    record t {
      taken = append_if (ok && text_eq (normalize_steering_scope scope) key) (msg ∷ []) t.taken;
      queue = q;
    }
step key (poll scope) t =
    let (msgs, q) = dequeue_scope scope t.queue in
    record t {
      handed = append_if (text_eq (normalize_steering_scope scope) key) msgs t.handed;
      queue = q;
    }
step key (poll_fallback scope) t =
    let (msgs, q) = dequeue_scope_with_fallback scope t.queue in
    record t { handed = append_if (text_eq (served scope t.queue) key) msgs t.handed; queue = q }
step key (switch mode) t = record t { queue = set_mode mode t.queue }

pub watch : Text → List Call → Trace → Trace
watch key [] t = t
watch key (c ∷ cs) t = watch key cs (step key c t)

abbrev pub start : SteeringMode → Trace
start mode = record { taken = []; handed = []; queue = new_steering_queue mode }

abbrev queue_of : Option (List Message) → List Message
queue_of none = []
queue_of (some q) = q

queue_at-eq : (key : Text) (sq : SteeringQueue) → queue_at key sq ≡ queue_of (get key sq.queues)
unfolding queue_at
queue_at-eq key sq = elim (Option-cases (get key sq.queues)) [
  | inl e ↦ rw (e, queue_at) refl
  | inr (q, e) ↦ rw (e, queue_at) refl
]

module _ (scope key : Text) (sq : SteeringQueue) where
  queue_at-put :
      (q : List Message)
      → queue_at key (record sq { queues = put scope q sq.queues })
        ≡ (if text_eq scope key then q else queue_at key sq)
  queue_at-put q =
      queue_at-eq key (record sq { queues = put scope q sq.queues })
      ∙ ap queue_of (get-put scope key q sq.queues)
      ∙ chosen (text_eq scope key)
    where
      chosen :
          (b : Bool)
          → queue_of (if b then some q else get key sq.queues) ≡ (if b then q else queue_at key sq)
      chosen true = refl
      chosen false = sym (queue_at-eq key sq)

  queue_at-remove :
      queue_at key (record sq { queues = remove scope sq.queues })
      ≡ (if text_eq scope key then [] else queue_at key sq)
  queue_at-remove =
      queue_at-eq key (record sq { queues = remove scope sq.queues })
      ∙ ap queue_of (get-remove scope key sq.queues)
      ∙ chosen (text_eq scope key)
    where
      chosen :
          (b : Bool)
          → queue_of (if b then none else get key sq.queues) ≡ (if b then [] else queue_at key sq)
      chosen true = refl
      chosen false = sym (queue_at-eq key sq)

take_from_split :
    (mode : SteeringMode) (q : List Message) → (take_from mode q).0 ++ (take_from mode q).1 ≡ q
unfolding take_from
take_from_split all [] = refl
take_from_split one_at_a_time [] = refl
take_from_split all (m ∷ ms) = append-nil (m ∷ ms)
take_from_split one_at_a_time (m ∷ ms) = refl

empty_eq : (q : List Message) → is_empty q ≡ true → q ≡ []
empty_eq [] e = refl
empty_eq (m ∷ ms) e = cc

-- A dequeue hands out a prefix of its own queue, keeps the rest, and leaves the others.
dequeue_locked-queue_at :
    (scope key : Text) (sq : SteeringQueue)
    → (if text_eq scope key then (dequeue_locked scope sq).0 else [])
        ++ queue_at key (dequeue_locked scope sq).1
      ≡ queue_at key sq
unfolding dequeue_locked
dequeue_locked-queue_at scope key sq =
    let queue = queue_at scope sq in
    let parts = take_from sq.mode queue in
    elim (Bool-cases (is_empty queue)) [
      | inl e ↦ rw e (nothing (text_eq scope key))
      | inr e ↦ elim (Bool-cases (is_empty parts.1)) [
        | inl f ↦ rw (e, f, queue_at-remove scope key sq) (last_part f)
        | inr f ↦ rw (e, f, queue_at-put scope key sq parts.1) more_part
      ]
    ]
  where
    nothing : (b : Bool) → (if b then [] else []) ++ queue_at key sq ≡ queue_at key sq
    nothing true = refl
    nothing false = refl

    split :
        (take_from sq.mode (queue_at scope sq)).0 ++ (take_from sq.mode (queue_at scope sq)).1
        ≡ queue_at scope sq
    split = take_from_split sq.mode (queue_at scope sq)

    last_part :
        is_empty (take_from sq.mode (queue_at scope sq)).1 ≡ true
        → (if text_eq scope key then (take_from sq.mode (queue_at scope sq)).0 else [])
            ++ (if text_eq scope key then [] else queue_at key sq)
          ≡ queue_at key sq
    last_part f = elim (text_eq-cases scope key) [
      | inl (same, t) ↦ rw t (
          sym (
            ap (λ (q : List Message). (take_from sq.mode (queue_at scope sq)).0 ++ q)
              (empty_eq _ f))
          ∙ split
          ∙ ap (λ (k : Text). queue_at k sq) same)
      | inr (ne, t) ↦ rw t refl
    ]

    more_part :
        (if text_eq scope key then (take_from sq.mode (queue_at scope sq)).0 else [])
          ++ (if text_eq scope key
              then (take_from sq.mode (queue_at scope sq)).1
              else queue_at key sq)
        ≡ queue_at key sq
    more_part = elim (text_eq-cases scope key) [
      | inl (same, t) ↦ rw t (split ∙ ap (λ (k : Text). queue_at k sq) same)
      | inr (ne, t) ↦ rw t refl
    ]

-- What has been taken at a key is what was handed out and then what is queued, in this order.
pub record IsFair (key : Text) (t : Trace) : Type 0 where
  pub order : t.taken ≡ t.handed ++ queue_at key t.queue
  pub short : length (queue_at key t.queue) ≤ max_queue_size

-- A poll that serves one scope.
poll-IsFair :
    (key scope : Text) (t : Trace)
    → IsFair key t
    → IsFair key (record t {
      handed = append_if (text_eq scope key) (dequeue_locked scope t.queue).0 t.handed;
      queue = (dequeue_locked scope t.queue).1;
    })
poll-IsFair key scope t h = record {
  order =
      h.order ∙ ap (λ (q : List Message). t.handed ++ q) (sym whole) ∙ moved (text_eq scope key);
  short =
      omega
        (arith, h.short, shorter (text_eq scope key), ap (λ (q : List Message). length q) whole);
}
  where
    out : List Message
    out = (dequeue_locked scope t.queue).0

    rest : List Message
    rest = queue_at key (dequeue_locked scope t.queue).1

    whole : (if text_eq scope key then out else []) ++ rest ≡ queue_at key t.queue
    whole = dequeue_locked-queue_at scope key t.queue

    moved :
        (b : Bool)
        → t.handed ++ ((if b then out else []) ++ rest) ≡ append_if b out t.handed ++ rest
    moved true = sym (append_assoc t.handed out rest)
    moved false = refl

    shorter : (b : Bool) → length rest ≤ length ((if b then out else []) ++ rest)
    shorter true = omega (arith, length-append out rest)
    shorter false = omega arith

take_from-is_empty :
    (mode : SteeringMode) (q : List Message) → is_empty (take_from mode q).0 ≡ is_empty q
unfolding take_from
take_from-is_empty all [] = refl
take_from-is_empty one_at_a_time [] = refl
take_from-is_empty all (m ∷ ms) = refl
take_from-is_empty one_at_a_time (m ∷ ms) = refl

dequeue_locked-nonempty :
    (scope : Text) (sq : SteeringQueue)
    → is_empty (queue_at scope sq) ≡ false
    → is_empty (dequeue_locked scope sq).0 ≡ false
unfolding dequeue_locked
dequeue_locked-nonempty scope sq e =
    elim (Bool-cases (is_empty (take_from sq.mode (queue_at scope sq)).1)) [
      | inl f ↦ rw (e, f) (take_from-is_empty sq.mode (queue_at scope sq) ∙ e)
      | inr f ↦ rw (e, f) (take_from-is_empty sq.mode (queue_at scope sq) ∙ e)
    ]

dequeue_locked-empty :
    (scope : Text) (sq : SteeringQueue)
    → is_empty (queue_at scope sq) ≡ true
    → dequeue_locked scope sq ≡ ([], sq)
unfolding dequeue_locked
dequeue_locked-empty scope sq e = rw e refl

-- A poll with fallback is a poll of the scope that serves it.
fallback-served :
    (scope : Text) (sq : SteeringQueue)
    → dequeue_scope_with_fallback scope sq ≡ dequeue_locked (served scope sq) sq
unfolding dequeue_scope_with_fallback
fallback-served scope sq = elim (Bool-cases (is_empty (trim_space scope))) [
  | inl e ↦ rw e refl
  | inr e ↦ elim (Bool-cases (is_empty (queue_at (trim_space scope) sq))) [
    | inl f ↦ rw (e, f, dequeue_locked-empty (trim_space scope) sq f) refl
    | inr f ↦ rw (e, f, dequeue_locked-nonempty (trim_space scope) sq f) refl
  ]
]

room :
    (queue : List Message) (msg : Message)
    → leb max_queue_size (length queue) ≡ false
    → length (queue ++ (msg ∷ [])) ≤ max_queue_size
room queue msg e = omega (arith, length-append queue (msg ∷ []), below (length queue) e)
  where
    below : (n : ℕ) → leb max_queue_size n ≡ false → n + 1 ≤ max_queue_size
    below n k = ground arith

push-IsFair :
    (key scope : Text) (msg : Message) (t : Trace)
    → IsFair key t
    → IsFair key (step key (push scope msg) t)
unfolding step push_scope
push-IsFair key scope msg t h = elim (Bool-cases (leb max_queue_size (length queue))) [
  | inl e ↦ rw e h
  | inr e ↦ rw e (record {
    order = by_key (text_eq-cases place key);
    short = rw (queue_at-put place key t.queue (queue ++ (msg ∷ []))) (bounded e);
  })
]
  where
    place : Text
    place = normalize_steering_scope scope

    queue : List Message
    queue = queue_at place t.queue

    bounded :
        leb max_queue_size (length queue) ≡ false
        → length (if text_eq place key then queue ++ (msg ∷ []) else queue_at key t.queue)
          ≤ max_queue_size
    bounded e = elim (Bool-cases (text_eq place key)) [
      | inl b ↦ rw b (room queue msg e)
      | inr b ↦ rw b h.short
    ]

    by_key :
        (place ≡ key) × (text_eq place key ≡ true) ⊎ (place ≢ key) × (text_eq place key ≡ false)
        → append_if (text_eq place key) (msg ∷ []) t.taken
          ≡ t.handed
            ++ queue_at key
                (record t.queue { queues = put place (queue ++ (msg ∷ [])) t.queue.queues })
    by_key (inl (same, b)) =
        rw (queue_at-put place key t.queue (queue ++ (msg ∷ [])), b)
          (ap (λ (q : List Message). q ++ (msg ∷ [])) h.order
            ∙ append_assoc t.handed (queue_at key t.queue) (msg ∷ [])
            ∙ ap (λ (k : Text). t.handed ++ (queue_at k t.queue ++ (msg ∷ []))) (sym same))
    by_key (inr (ne, b)) = rw (queue_at-put place key t.queue (queue ++ (msg ∷ [])), b) h.order

step-IsFair : (key : Text) (c : Call) (t : Trace) → IsFair key t → IsFair key (step key c t)
unfolding step dequeue_scope set_mode
step-IsFair key (push scope msg) t h = push-IsFair key scope msg t h
step-IsFair key (poll scope) t h = poll-IsFair key (normalize_steering_scope scope) t h
step-IsFair key (poll_fallback scope) t h =
    rw (fallback-served scope t.queue) (poll-IsFair key (served scope t.queue) t h)
step-IsFair key (switch mode) t h = record {
  order = h.order ∙ ap (λ (q : List Message). t.handed ++ q) (kept mode);
  short = rw (← (kept mode)) h.short;
}
  where
    kept : (mode : SteeringMode) → queue_at key t.queue ≡ queue_at key (set_mode mode t.queue)
    kept mode = queue_at-eq key t.queue ∙ sym (queue_at-eq key (record t.queue { mode = mode }))

watch-IsFair :
    (key : Text) (cs : List Call) (t : Trace) → IsFair key t → IsFair key (watch key cs t)
unfolding watch
watch-IsFair key [] t h = h
watch-IsFair key (c ∷ cs) t h = watch-IsFair key cs (step key c t) (step-IsFair key c t h)

-- Whatever is pushed and polled, in whatever mode, and with or without the fallback: the messages
-- that the queue of a scope has accepted are those that it has handed out, followed by those that
-- still wait, each once and in the order of the pushes; no more than ten ever wait.
pub steering-IsFair :
    (mode : SteeringMode) (cs : List Call) (key : Text) → IsFair key (watch key cs (start mode))
steering-IsFair mode cs key = watch-IsFair key cs (start mode) (record {
  order = sym (queue_at-eq key (new_steering_queue mode) ∙ at_start);
  short = rw (queue_at-eq key (new_steering_queue mode) ∙ at_start) (omega arith);
})
  where
    at_start : queue_of (get key (new_steering_queue mode).queues) ≡ []
    at_start = unfold new_steering_queue get in refl
