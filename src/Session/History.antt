-- ===== src/Session/History.antt =====
-- The histories refine a function of the operations on one key.
use ebiclaw.Prelude.{
  ℕ, zero, suc, ◌-◌, ◌≡◌, Bool, true, false, Option, none, some, List, [], ◌∷◌, ◌++◌, if◌then◌else◌,
  length, drop, leb, ◌==◌, arith, refl, ap, sym, ◌∙◌, subst, Bool-cases, Option-cases, inl, inr,
}
use ebiclaw.Strings.{Text, text_eq}
use ebiclaw.Strings.Equal.{text_eq-cases}
use ebiclaw.Maps.{get, get-put}
use ebiclaw.Protocol.{Message, plain}
use ebiclaw.Session.{
  Session, SessionManager, new_session, get_or_create, session_or_new, add_full_message,
  add_message, get_history, set_summary, truncate_session, truncate_history, set_history, store,
}

-- The calls that change a session, each with its time.
pub data Op : Type 0 where
  create : Text → ℕ → Op
  add : Text → Message → ℕ → Op
  add_text : Text → Text → Text → ℕ → Op
  summarize : Text → Text → ℕ → Op
  truncate : Text → ℕ → ℕ → Op
  replace : Text → List Message → ℕ → Op

pub apply : Op → SessionManager → SessionManager
apply (create k now) sm = (get_or_create k now sm).1
apply (add k m now) sm = add_full_message k m now sm
apply (add_text k role content now) sm = add_message k role content now sm
apply (summarize k text now) sm = set_summary k text now sm
apply (truncate k keep now) sm = truncate_history k keep now sm
apply (replace k history now) sm = set_history k history now sm

pub run : List Op → SessionManager → SessionManager
run [] sm = sm
run (o ∷ os) sm = run os (apply o sm)

-- The last messages of a list.
abbrev pub last_of : ℕ → List Message → List Message
last_of keep ms = drop (length ms - keep) ms

abbrev pub op_key : Op → Text
op_key (create k now) = k
op_key (add k m now) = k
op_key (add_text k role content now) = k
op_key (summarize k text now) = k
op_key (truncate k keep now) = k
op_key (replace k history now) = k

-- What a call means for the history of its own session, `none` where there is no session.
abbrev pub meaning : Op → Option (List Message) → Option (List Message)
meaning (create k now) none = some []
meaning (create k now) (some ms) = some ms
meaning (add k m now) none = some (m ∷ [])
meaning (add k m now) (some ms) = some (ms ++ (m ∷ []))
meaning (add_text k role content now) none = some (plain role content ∷ [])
meaning (add_text k role content now) (some ms) = some (ms ++ (plain role content ∷ []))
meaning (summarize k text now) h = h
meaning (truncate k keep now) none = none
meaning (truncate k keep now) (some ms) = some (last_of keep ms)
meaning (replace k history now) none = none
meaning (replace k history now) (some ms) = some history

-- The history of one key, by the calls on that key alone.
abbrev pub history_of : Text → List Op → Option (List Message) → Option (List Message)
history_of k [] h = h
history_of k (o ∷ os) h = history_of k os (if text_eq (op_key o) k then meaning o h else h)

abbrev messages_of : Option Session → Option (List Message)
messages_of none = none
messages_of (some s) = some s.messages

abbrev pub view : Text → SessionManager → Option (List Message)
view k sm = messages_of (get k sm.sessions)

drop_all : (ms : List Message) → drop (length ms) ms ≡ []
drop_all [] = refl
drop_all (m ∷ ms) = drop_all ms

drop_none : (n : ℕ) (ms : List Message) → n ≡ 0 → drop n ms ≡ ms
drop_none zero ms e = refl
drop_none (suc n) ms e = absurd (omega arith)

truncate_session-messages :
    (keep now : ℕ) (s : Session) → (truncate_session keep now s).messages ≡ last_of keep s.messages
unfolding truncate_session
truncate_session-messages zero now s = sym (rw sub_zero (drop_all s.messages))
  where
    sub_zero : length s.messages - 0 ≡ length s.messages
    sub_zero = omega arith
truncate_session-messages (suc keep) now s =
    let positive : (suc keep == 0) ≡ false = ground arith in
    rw positive (elim (Bool-cases (leb (length s.messages) (suc keep))) [
      | inl l ↦ rw l (sym (drop_none (length s.messages - suc keep) s.messages (ground arith)))
      | inr l ↦ rw l refl
    ])

messages_of_if :
    (b : Bool) (s : Session) (o : Option Session)
    → messages_of (if b then some s else o) ≡ (if b then some s.messages else messages_of o)
messages_of_if true s o = refl
messages_of_if false s o = refl

view-store :
    (k j : Text) (s : Session) (sm : SessionManager)
    → view j (store k s sm) ≡ (if text_eq k j then some s.messages else view j sm)
unfolding store
view-store k j s sm =
    ap messages_of (get-put k j s sm.sessions) ∙ messages_of_if (text_eq k j) s (get j sm.sessions)

module _ (j k : Text) (sm : SessionManager)
    (f : Option (List Message) → Option (List Message)) where
  -- A call that stores a session whose history is what the call means.
  stored :
      (s : Session)
      → some s.messages ≡ f (view j sm)
      → view k (store j s sm) ≡ (if text_eq j k then f (view k sm) else view k sm)
  stored s h = elim (text_eq-cases j k) [
    | inl (e, t) ↦ view-store j k s sm ∙ (rw t (h ∙ ap (λ i. f (view i sm)) e))
    | inr (n, t) ↦ view-store j k s sm ∙ (rw t refl)
  ]

  -- A call that changes nothing, and means nothing.
  unchanged :
      view j sm ≡ f (view j sm) → view k sm ≡ (if text_eq j k then f (view k sm) else view k sm)
  unchanged h = elim (text_eq-cases j k) [
    | inl (e, t) ↦ rw t (subst (λ i. view i sm ≡ f (view i sm)) e h)
    | inr (n, t) ↦ rw t refl
  ]

add_full_message-view :
    (j : Text) (m : Message) (now : ℕ) (k : Text) (sm : SessionManager)
    → view k (add_full_message j m now sm)
      ≡ (if text_eq j k then meaning (add j m now) (view k sm) else view k sm)
unfolding add_full_message
add_full_message-view j m now k sm =
    stored j k sm (meaning (add j m now))
      (record (session_or_new j now sm) {
        messages = (session_or_new j now sm).messages ++ (m ∷ []);
        updated = now;
      })
      (added (get j sm.sessions) refl)
  where
    added :
        (o : Option Session)
        → get j sm.sessions ≡ o
        → some ((session_or_new j now sm).messages ++ (m ∷ [])) ≡ meaning (add j m now) (view j sm)
    added none e = rw (e, session_or_new) refl
    added (some d) e = rw (e, session_or_new) refl

apply-view :
    (o : Op) (k : Text) (sm : SessionManager)
    → view k (apply o sm) ≡ (if text_eq (op_key o) k then meaning o (view k sm) else view k sm)
unfolding apply get_or_create add_full_message add_message set_summary truncate_history set_history
    session_or_new
apply-view (create j now) k sm = elim (Option-cases (get j sm.sessions)) [
  | inl e ↦
      rw (e, apply, get_or_create)
        (stored j k sm (meaning (create j now)) (new_session j now) (rw e refl))
  | inr (d, e) ↦
      rw (e, apply, get_or_create) (unchanged j k sm (meaning (create j now)) (rw e refl))
]
apply-view (add j m now) k sm = add_full_message-view j m now k sm
apply-view (add_text j role content now) k sm =
    add_full_message-view j (plain role content) now k sm
apply-view (summarize j text now) k sm = elim (Option-cases (get j sm.sessions)) [
  | inl e ↦ rw (e, apply, set_summary) (unchanged j k sm (meaning (summarize j text now)) refl)
  | inr (d, e) ↦
      rw (e, apply, set_summary)
        (stored j k sm (meaning (summarize j text now)) (record d { summary = text; updated = now })
          (rw e refl))
]
apply-view (truncate j keep now) k sm = elim (Option-cases (get j sm.sessions)) [
  | inl e ↦
      rw (e, apply, truncate_history) (unchanged j k sm (meaning (truncate j keep now)) (rw e refl))
  | inr (d, e) ↦
      rw (e, apply, truncate_history)
        (stored j k sm (meaning (truncate j keep now)) (truncate_session keep now d)
          (rw e (ap some (truncate_session-messages keep now d))))
]
apply-view (replace j history now) k sm = elim (Option-cases (get j sm.sessions)) [
  | inl e ↦
      rw (e, apply, set_history) (unchanged j k sm (meaning (replace j history now)) (rw e refl))
  | inr (d, e) ↦
      rw (e, apply, set_history)
        (stored j k sm (meaning (replace j history now))
          (record d { messages = history; updated = now }) (rw e refl))
]

run-view :
    (os : List Op) (k : Text) (sm : SessionManager)
    → view k (run os sm) ≡ history_of k os (view k sm)
unfolding run
run-view [] k sm = refl
run-view (o ∷ os) k sm = run-view os k (apply o sm) ∙ ap (history_of k os) (apply-view o k sm)

abbrev pub or_empty : Option (List Message) → List Message
or_empty none = []
or_empty (some ms) = ms

-- After any calls on any sessions, GetHistory of a key is what the calls on that key alone mean: a
-- message that is added stands at the end, a truncation leaves the last messages, a replacement
-- takes effect where there is a session, and all else leaves it as it is.
pub get_history-history_of :
    (os : List Op) (k : Text) (sm : SessionManager)
    → get_history k (run os sm) ≡ or_empty (history_of k os (view k sm))
unfolding get_history
get_history-history_of os k sm =
    shown (get k (run os sm).sessions) refl ∙ ap or_empty (run-view os k sm)
  where
    shown :
        (o : Option Session)
        → get k (run os sm).sessions ≡ o
        → get_history k (run os sm) ≡ or_empty (view k (run os sm))
    shown none e = rw (e, get_history) refl
    shown (some d) e = rw (e, get_history) refl
