-- ===== src/Memory/Meaning.antt =====
-- What each call means for a history, and what is skipped of it.
use ebiclaw.Prelude.{
  ℕ, zero, suc, ◌+◌, ◌-◌, ◌≡◌, ◌≤◌, ◌⊎◌, List, [], ◌∷◌, ◌++◌, if◌then◌else◌, length, drop, ltb,
  ◌==◌, arith, refl, ap, sym, ◌∙◌, All, length-drop,
}
use ebiclaw.Strings.{Text}
use ebiclaw.Protocol.{Message, stored, stored_all}
use ebiclaw.Memory.{
  Codec, JsonlStore, System, Append, done, torn, Result, ok, err, skip_after, add_msg, set_summary,
  truncate_history, set_history, compact,
}
use ebiclaw.Memory.Holding.{Fits}

-- The calls that write, with the clock's time.
pub data Call : Type 0 where
  add : Message → Call
  summarize : Text → Call
  truncate : ℕ → Call
  replace : List Message → Call
  compact_log : Call

unfoldable pub perform : Codec → System → Text → ℕ → Call → JsonlStore → Result Unit × JsonlStore
perform codec system key now (add msg) s = add_msg codec system key msg now s
perform codec system key now (summarize text) s = set_summary system key text now s
perform codec system key now (truncate n) s = truncate_history system key n now s
perform codec system key now (replace msgs) s = set_history codec system key msgs now s
perform codec system key now compact_log s = compact codec system key now s

-- What a call means for the history, which has of a message what is stored of it.
unfoldable pub meaning : Call → List Message → List Message
unfolding stored stored_all
meaning (add msg) h = h ++ (stored msg ∷ [])
meaning (summarize text) h = h
meaning (truncate n) h = drop (length h - n) h
meaning (replace msgs) h = stored_all msgs
meaning compact_log h = h

-- The lines of the messages that a call writes have room in the reader's buffer.
abbrev pub CallFits : Codec → Call → Type 0
CallFits codec (add msg) = Fits codec msg
CallFits codec (replace msgs) = All (Fits codec) msgs
CallFits codec (summarize text) = Unit
CallFits codec (truncate n) = Unit
CallFits codec compact_log = Unit

-- An append that fails does so before it writes.
abbrev pub IsWhole : Append → Type 0
IsWhole done = Unit
IsWhole (torn zero) = Unit
IsWhole (torn (suc n)) = ⊥

-- The history after a call that returned this, of a file with these messages.
abbrev pub Kept : Result Unit → Call → List Message → List Message → List Message → Type 0
Kept (ok u) c msgs h h' = h' ≡ meaning c h
Kept (err e) c msgs h h' = (h' ≡ h) ⊎ ((h' ≡ meaning c h) ⊎ (h' ≡ msgs))

drop_nil : (n : ℕ) → drop n (let none_left : List Message = [] in none_left) ≡ []
drop_nil zero = refl
drop_nil (suc n) = refl

drop-drop : (b a : ℕ) (ms : List Message) → drop a (drop b ms) ≡ drop (b + a) ms
drop-drop zero a ms = let e : a ≡ 0 + a = omega arith in ap (λ (n : ℕ). drop n ms) e
drop-drop (suc b) a [] = drop_nil a ∙ sym (drop_nil (suc b + a))
drop-drop (suc b) a (m ∷ ms) =
    let e : suc (b + a) ≡ suc b + a = omega arith in
    drop-drop b a ms ∙ ap (λ (n : ℕ). drop n (m ∷ ms)) e

drop-length : (ms : List Message) → drop (length ms) ms ≡ []
drop-length [] = refl
drop-length (m ∷ ms) = drop-length ms

pub All-drop :
    (codec : Codec) (n : ℕ) (ms : List Message) → All (Fits codec) ms → All (Fits codec) (drop n ms)
All-drop codec zero ms h = h
All-drop codec (suc n) [] h = tt
All-drop codec (suc n) (m ∷ ms) h = All-drop codec n ms h.1

-- Truncation keeps the last messages of the history.
pub drop-skip_after :
    (keep n skip : ℕ) (msgs : List Message)
    → n ≡ length msgs
    → skip ≤ length msgs
    → drop (skip_after keep n skip) msgs ≡ drop (length (drop skip msgs) - keep) (drop skip msgs)
unfolding skip_after
drop-skip_after keep n skip msgs e le =
    ap (λ (k : ℕ). drop k msgs) (amount (length (drop skip msgs)) (length-drop skip msgs))
    ∙ sym (drop-drop skip (length (drop skip msgs) - keep) msgs)
  where
    amount :
        (l : ℕ)
        → l ≡ length msgs - skip
        → (if keep == 0 then n else if ltb keep (n - skip) then n - keep else skip)
          ≡ skip + (l - keep)
    amount l q = ground arith

pub skip_after-le : (keep n skip : ℕ) → skip ≤ n → skip_after keep n skip ≤ n
unfolding skip_after
skip_after-le keep n skip h = ground arith
