-- ===== src/Routing/SessionKey/Parse.antt =====
-- Parsing a key of the form "agent:<agent>:<rest>".
use ebiclaw.Prelude.{
  ℕ, ◌≡◌, ◌≢◌, true, false, some, List, [], ◌∷◌, ◌++◌, is_empty, arith, refl, ap, ◌∙◌, &&-eq-true,
  ◌==◌,
}
use ebiclaw.Strings.{lower_rune, Text, codes, text_eq, to_lower, is_space, cut, split_n}
use ebiclaw.Strings.Trim.{Ends, Ends-append, IsTrimmed, trim_space_id, to_lower-Ends}
use ebiclaw.Strings.Cut.{Without, split_n-append}
use ebiclaw.Strings.Case.{to_lower-append, to_lower_id}
use ebiclaw.Routing.AgentId.{is_id_head, is_id_char, all_id_chars}
use ebiclaw.Routing.AgentId.Shape.{IdChars, IsId}
use ebiclaw.Routing.AgentId.Stability.{IdChars-IsTrimmed, IdChars-NotCapital}
use ebiclaw.Routing.SessionKey.{parse_parts, parse_agent_session_key}

-- A text that may stand at the end of a key: there, and not ending with a space.
pub record IsTail (r : Text) : Type 0 where
  pub nonempty : r ≢ []
  pub ends : Ends is_space r

pub IsTail-append : (s r : Text) → IsTail r → IsTail (s ++ r)
IsTail-append s [] h = absurd (h.nonempty refl)
IsTail-append [] (c ∷ r) h = h
IsTail-append (a ∷ s) (c ∷ r) h = record {
  nonempty = λ e. cc;
  ends = Ends-append is_space (a ∷ s) c r h.ends;
}

pub trimmed-IsTail : (r : Text) → IsTrimmed r → is_empty r ≡ false → IsTail r
trimmed-IsTail r h e = record { nonempty = λ p. cc (ap is_empty p); ends = h.ends }

pub lowered-IsTail : (r : Text) → IsTail r → IsTail (to_lower r)
unfolding to_lower
lowered-IsTail [] h = absurd (h.nonempty refl)
lowered-IsTail (c ∷ r) h = record { nonempty = λ e. cc; ends = to_lower-Ends (c ∷ r) h.ends }

-- "agent:<agent>:<rest>"
abbrev pub scoped : Text → Text → Text
scoped agent rest = codes "agent:" ++ (agent ++ (codes ":" ++ rest))

is_id_char-colon : (c : ℕ) → is_id_char c ≡ true → (c == 58) ≡ false
unfolding is_id_char is_id_head
is_id_char-colon c h = ground arith

IdChars-Without : (s : Text) → IdChars s → Without 58 s
unfolding all_id_chars
IdChars-Without [] h = tt
IdChars-Without (c ∷ s) h =
    let (a, b) = &&-eq-true (is_id_char c) (all_id_chars s) h in
    (is_id_char-colon c a, IdChars-Without s b)

is_empty-false : (s : Text) → s ≢ [] → is_empty s ≡ false
is_empty-false [] h = absurd (h refl)
is_empty-false (c ∷ s) h = refl

scoped-IsTrimmed : (agent rest : Text) → IsTail rest → IsTrimmed (scoped agent rest)
unfolding is_space
scoped-IsTrimmed agent rest h = record {
  starts = refl;
  ends =
      (IsTail-append (codes "agent:") (agent ++ (codes ":" ++ rest))
        (IsTail-append agent (codes ":" ++ rest) (IsTail-append (codes ":") rest h))).ends;
}

split_scoped :
    (agent rest : Text)
    → IdChars agent
    → split_n 3 58 (scoped agent rest) ≡ codes "agent" ∷ agent ∷ rest ∷ []
unfolding split_n cut
split_scoped agent rest h =
    ap (λ (t : List Text). codes "agent" ∷ t)
      (split_n-append 0 58 agent rest (IdChars-Without agent h))

-- ParseAgentSessionKey on a key of the form "agent:<agent>:<rest>".
pub parse-scoped :
    (agent rest : Text)
    → IsId agent
    → IsTail rest
    → parse_agent_session_key (scoped agent rest) ≡ some (record { agent_id = agent; rest = rest })
unfolding parse_agent_session_key
parse-scoped agent rest h r =
    rw
      (
        trim_space_id (scoped agent rest) (scoped-IsTrimmed agent rest r),
        split_scoped agent rest h.chars,
      )
      parts
  where
    parts :
        parse_parts (codes "agent" ∷ agent ∷ rest ∷ [])
        ≡ some (record { agent_id = agent; rest = rest })
    parts =
        unfold parse_parts text_eq in
        rw
          (
            trim_space_id agent (IdChars-IsTrimmed agent h.chars),
            is_empty-false agent h.nonempty,
            is_empty-false rest r.nonempty,
          )
          refl

-- A key of that form.
pub record IsScoped (agent key : Text) : Type 0 where
  pub rest : Text
  pub tail : IsTail rest
  pub same : key ≡ scoped agent rest

pub parse-IsScoped :
    (agent key : Text)
    → IsId agent
    → (k : IsScoped agent key)
    → parse_agent_session_key key ≡ some (record { agent_id = agent; rest = k.rest })
parse-IsScoped agent key h k =
    ap parse_agent_session_key k.same ∙ parse-scoped agent k.rest h k.tail

-- A key in lower case has the same agent.
pub lower-IsScoped :
    (agent key : Text) → IsId agent → IsScoped agent key → IsScoped agent (to_lower key)
unfolding to_lower lower_rune
lower-IsScoped agent key h k = record {
  rest = to_lower k.rest;
  tail = lowered-IsTail k.rest k.tail;
  same = ap to_lower k.same ∙ spread;
}
  where
    spread : to_lower (scoped agent k.rest) ≡ scoped agent (to_lower k.rest)
    spread =
        to_lower-append (codes "agent:") (agent ++ (codes ":" ++ k.rest))
        ∙ ap (λ (t : Text). codes "agent:" ++ t)
            (to_lower-append agent (codes ":" ++ k.rest)
              ∙ ap (λ (t : Text). t ++ (codes ":" ++ to_lower k.rest))
                  (to_lower_id agent (IdChars-NotCapital agent h.chars)))
