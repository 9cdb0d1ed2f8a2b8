-- ===== src/Examples/Memory.antt =====
-- pkg/memory/jsonl.go: a session with an append that fails, under a code for the messages that are
-- but a text and tool calls with nothing that is stored: a brace, a mark for each call, each code
-- point moved out of the way of braces and ends of lines, and a brace.
use ebiclaw.Prelude.{
  ℕ, ◌+◌, ◌-◌, ◌≡◌, ◌<◌, Bool, true, false, ◌&&◌, ◌||◌, ◌==◌, Option, none, some, List, [], ◌∷◌,
  ◌++◌, if◌then◌else◌, is_empty, length, length-append, leb, arith, refl, ap, sym, ◌∙◌, All,
  Bool-cases, ◌⊎◌, inl, inr, &&-eq-true,
}
use ebiclaw.Strings.{Text, codes}
use ebiclaw.Protocol.{
  Message, ToolCall, FunctionCall, ExtraContent, no_fields, plain, stored, stored_call,
  stored_calls,
}
use ebiclaw.Memory.{Codec, System}
use ebiclaw.Memory.Brackets.{sign_of, other, run, next, outside, closed}
use ebiclaw.Memory.Lines.{LawfulCodec, IsInLine}
use ebiclaw.Memory.Holding.{healthy, no_files}
use ebiclaw.Memory.Meaning.{Call, add, truncate, compact_log}
use ebiclaw.Memory.Faults.{perform_all, Survives, perform-Survives}
use ebiclaw.Memory.Torn.{Joined, IsLost, add_msg-IsLost}

is_bare_call : ToolCall → Bool
is_bare_call c =
    is_empty c.id
    && (is_empty c.type && elim c.function [
      | some f ↦ false
      | none ↦ elim c.extra_content [ some e ↦ false | none ↦ true ]
    ])

are_bare : List ToolCall → Bool
unfolding is_bare_call
are_bare [] = true
are_bare (c ∷ cs) = is_bare_call c && are_bare cs

is_bare : Message → Bool
unfolding are_bare
is_bare m =
    is_empty m.role
    && (is_empty m.media
        && (is_empty m.reasoning_content
            && (is_empty m.system_parts && (is_empty m.tool_call_id && are_bare m.tool_calls))))

abbrev bare_call : ToolCall
bare_call = record {
  id = [];
  type = [];
  function = none;
  name = [];
  arguments = no_fields;
  thought_signature = [];
  extra_content = none;
}

raise : Text → Text
raise [] = 125 ∷ []
raise (c ∷ s) = (c + 200) ∷ raise s

mark_calls : List ToolCall → Text → Text
mark_calls [] s = s
mark_calls (c ∷ cs) s = 150 ∷ mark_calls cs s

abbrev with_content : ℕ → Message → Message
with_content c m = record m { content = c ∷ m.content }

abbrev with_call : Message → Message
with_call m = record m { tool_calls = bare_call ∷ m.tool_calls }

lower : Text → Option Message
lower [] = none
lower (c ∷ s) =
    let rest : Option Message = elim (lower s) [
      | none ↦ none
      | some m ↦ some (if c == 150 then with_call m else with_content (c - 200) m)
    ] in
    if c == 125
    then (if is_empty s then some (plain [] []) else none)
    else if c == 150 || leb 200 c
    then rest
    else none

read_line : Text → Option Message
unfolding lower
read_line [] = none
read_line (c ∷ s) = if c == 123 then lower s else none

abbrev text_codec : Codec
text_codec = record {
  marshal = λ m. if is_bare m then some (123 ∷ mark_calls m.tool_calls (raise m.content)) else none;
  unmarshal = read_line;
}

bare_calls : List ToolCall → List ToolCall
bare_calls [] = []
bare_calls (c ∷ cs) = bare_call ∷ bare_calls cs

abbrev bare : List ToolCall → Text → Message
unfolding bare_calls
bare cs s = record (plain [] s) { tool_calls = bare_calls cs }

lower-raise : (s : Text) → lower (raise s) ≡ some (plain [] s)
unfolding lower raise
lower-raise [] = refl
lower-raise (c ∷ s) = rw (lower-raise s) (ground arith)

lower-mark_calls :
    (cs : List ToolCall) (s : Text) → lower (mark_calls cs (raise s)) ≡ some (bare cs s)
unfolding lower mark_calls bare_calls
lower-mark_calls [] s = lower-raise s
lower-mark_calls (c ∷ cs) s = rw (lower-mark_calls cs s) refl

length-mark_calls :
    (cs : List ToolCall) (s : Text) → length (mark_calls cs (raise s)) ≡ length cs + (length s + 1)
unfolding mark_calls raise
length-mark_calls [] [] = refl
length-mark_calls [] (c ∷ s) = omega (arith, length-mark_calls [] s)
length-mark_calls (c ∷ cs) s = omega (arith, length-mark_calls cs s)

mark_calls-IsInLine : (cs : List ToolCall) (s : Text) → All IsInLine (mark_calls cs (raise s))
unfolding mark_calls raise
mark_calls-IsInLine [] [] = ((refl, refl), tt)
mark_calls-IsInLine [] (c ∷ s) = ((ground arith, ground arith), mark_calls-IsInLine [] s)
mark_calls-IsInLine (c ∷ cs) s = ((refl, refl), mark_calls-IsInLine cs s)

other_sign : (c : ℕ) → 125 < c → sign_of c ≡ other
unfolding sign_of
other_sign c h = ground arith

lower-cases :
    (c : ℕ) (s : Text) (m : Message)
    → lower (c ∷ s) ≡ some m
    → ((c ≡ 125) × (s ≡ [])) ⊎ ((125 < c) × (n : Message) × (lower s ≡ some n))
unfolding lower
lower-cases c s m = elim (Bool-cases (c == 125)) [
  | inl e ↦ λ h. inl (ground arith, last s (rw e at h))
  | inr e ↦ λ h. inr (by_rest (lower s) (c == 150 || leb 200 c) refl refl (rw e at h))
]
  where
    last : (t : Text) → (if is_empty t then some (plain [] []) else none) ≡ some m → t ≡ []
    last [] h = refl
    last (d ∷ t) h = cc

    by_rest :
        (o : Option Message) (b : Bool)
        → lower s ≡ o
        → (c == 150 || leb 200 c) ≡ b
        → (if b
            then elim o [
              | none ↦ none
              | some n ↦ some (if c == 150 then with_call n else with_content (c - 200) n)
            ]
            else none)
          ≡ some m
        → (125 < c) × (n : Message) × (lower s ≡ some n)
    by_rest o false p q h = absurd (cc)
    by_rest none true p q h = absurd (cc)
    by_rest (some n) true p q h = (ground arith, n, p)

-- What is read ends with its bracket.
lower-ends : (s : Text) (m : Message) → lower s ≡ some m → run (outside 0) s ≡ closed
unfolding lower run next
lower-ends [] m e = cc
lower-ends (c ∷ s) m e = elim (lower-cases c s m e) [
  | inl (brace, last) ↦ rw (brace, last) (unfold sign_of in refl)
  | inr (high, n, rest) ↦ rw (other_sign c high) (lower-ends s n rest)
]

mark_calls-ends :
    (cs : List ToolCall) (s : Text) → run (outside 0) (mark_calls cs (raise s)) ≡ closed
mark_calls-ends cs s = lower-ends (mark_calls cs (raise s)) (bare cs s) (lower-mark_calls cs s)

are_bare-stored : (cs : List ToolCall) → are_bare (stored_calls cs) ≡ are_bare cs
unfolding are_bare stored_calls
are_bare-stored [] = refl
are_bare-stored (c ∷ cs) = ap (λ (b : Bool). is_bare_call c && b) (are_bare-stored cs)

mark_calls-stored :
    (cs : List ToolCall) (s : Text) → mark_calls (stored_calls cs) s ≡ mark_calls cs s
unfolding mark_calls stored_calls
mark_calls-stored [] s = refl
mark_calls-stored (c ∷ cs) s = ap (λ (t : Text). 150 ∷ t) (mark_calls-stored cs s)

empty_eq {ℓ} : {A : Type ℓ} (xs : List A) → is_empty xs ≡ true → xs ≡ []
empty_eq [] e = refl
empty_eq (x ∷ xs) e = cc

stored_bare : (c : ToolCall) → is_bare_call c ≡ true → stored_call c ≡ bare_call
unfolding is_bare_call stored_call
stored_bare c e =
    let (i, a) = &&-eq-true (is_empty c.id) _ e in
    let (t, b) = &&-eq-true (is_empty c.type) _ a in
    by_parts c.function c.extra_content refl refl b (empty_eq c.id i) (empty_eq c.type t)
  where
    by_parts :
        (f : Option FunctionCall) (x : Option ExtraContent)
        → c.function ≡ f
        → c.extra_content ≡ x
        → elim f [ some g ↦ false | none ↦ elim x [ some y ↦ false | none ↦ true ] ] ≡ true
        → c.id ≡ []
        → c.type ≡ []
        → record c { name = []; arguments = no_fields; thought_signature = [] } ≡ bare_call
    by_parts (some f) x p q b i t = cc
    by_parts none (some x) p q b i t = cc
    by_parts none none p q b i t = ground arith

stored_bare_calls : (cs : List ToolCall) → are_bare cs ≡ true → stored_calls cs ≡ bare_calls cs
unfolding are_bare stored_calls bare_calls
stored_bare_calls [] e = refl
stored_bare_calls (c ∷ cs) e =
    let (a, b) = &&-eq-true (is_bare_call c) _ e in cc (stored_bare c a, stored_bare_calls cs b)

is_bare-stored : (m : Message) → is_bare m ≡ true → stored m ≡ bare m.tool_calls m.content
unfolding is_bare stored bare
is_bare-stored m e =
    let (r, a) = &&-eq-true (is_empty m.role) _ e in
    let (d, b) = &&-eq-true (is_empty m.media) _ a in
    let (q, c) = &&-eq-true (is_empty m.reasoning_content) _ b in
    let (p, f) = &&-eq-true (is_empty m.system_parts) _ c in
    let (i, t) = &&-eq-true (is_empty m.tool_call_id) _ f in
    λ k. record {
      role = empty_eq m.role r k;
      content = m.content;
      media = empty_eq m.media d k;
      reasoning_content = empty_eq m.reasoning_content q k;
      system_parts = empty_eq m.system_parts p k;
      tool_calls = stored_bare_calls m.tool_calls t k;
      tool_call_id = empty_eq m.tool_call_id i k;
    }

marshal-cases :
    (m : Message) (line : Text)
    → text_codec.marshal m ≡ some line
    → (stored m ≡ bare m.tool_calls m.content)
      × (line ≡ 123 ∷ mark_calls m.tool_calls (raise m.content))
marshal-cases m line e = elim (Bool-cases (is_bare m)) [
  | inl b ↦ (
    is_bare-stored m b,
    let q : some (123 ∷ mark_calls m.tool_calls (raise m.content)) ≡ some line = rw b at e in cc,
  )
  | inr b ↦ absurd (let q : Option.none ≡ some line = rw b at e in cc)
]

read_line-mark_calls :
    (cs : List ToolCall) (s : Text) → read_line (123 ∷ mark_calls cs (raise s)) ≡ some (bare cs s)
unfolding read_line
read_line-mark_calls cs s = lower-mark_calls cs s

text_codec-LawfulCodec : LawfulCodec text_codec
text_codec-LawfulCodec = record {
  decodes = λ m line e.
      let (kept, shown) = marshal-cases m line e in
      ap read_line shown
      ∙ read_line-mark_calls m.tool_calls m.content
      ∙ ap (λ (n : Message). some n) (sym kept);
  blind = λ m.
      unfold is_bare stored in
      rw (are_bare-stored m.tool_calls, mark_calls-stored m.tool_calls (raise m.content)) refl;
  one_line = λ m line e.
      rw (marshal-cases m line e).1 ((refl, refl), mark_calls-IsInLine m.tool_calls m.content);
  object = λ m line e. record {
    rest = mark_calls m.tool_calls (raise m.content);
    starts = (marshal-cases m line e).1;
    ends = mark_calls-ends m.tool_calls m.content;
  };
  ends = λ rest m e. lower-ends rest m (unfold read_line in e);
}

abbrev said : Text → Message
said s = record (plain [] (codes "hi" ++ s)) {
  tool_calls = record bare_call { name = codes "read_file"; thought_signature = codes "x" } ∷ [];
}

said-short :
    (s line : Text)
    → length s < 100
    → text_codec.marshal (said s) ≡ some line
    → length line < 10485760
said-short s line h e = omega (
  arith,
  ap (λ (t : Text). length t) (marshal-cases (said s) line e).1,
  length-mark_calls (said s).tool_calls (codes "hi" ++ s),
  length-append (codes "hi") s,
)

-- A system whose second write fails.
abbrev no_rewrite : System
no_rewrite = record healthy { rewrites_log = false }

abbrev memory_calls : List (System × ℕ × Call)
memory_calls =
    (healthy, 1, add (said (codes "a")))
    ∷ (record healthy { writes_meta = false }, 2, add (said (codes "b")))
    ∷ (healthy, 3, truncate 1)
    ∷ []

perform-Survives_example :
    Survives text_codec
      (codes "cli:me")
      4
      no_rewrite
      compact_log
      (perform_all text_codec (codes "cli:me") memory_calls no_files)
perform-Survives_example =
    perform-Survives text_codec (codes "cli:me") memory_calls no_rewrite 4 compact_log
      text_codec-LawfulCodec
      (
        ((λ line e. said-short (codes "a") line (omega arith) e), tt),
        (((λ line e. said-short (codes "b") line (omega arith) e), tt), ((tt, tt), tt)),
      )
      (tt, tt)

joined :
    Joined text_codec 2
      (said (codes "a"))
      (said (codes "b"))
      (123 ∷ 150 ∷ raise (codes "hia"))
      (123 ∷ 150 ∷ raise (codes "hib"))
unfolding is_bare mark_calls raise
joined = record {
  first = refl;
  second = refl;
  some_bytes = omega arith;
  unended = omega arith;
  room = omega arith;
}

add_msg-IsLost_example :
    IsLost text_codec
      (codes "cli:me")
      2
      5
      6
      (said (codes "a"))
      (said (codes "b"))
      (perform_all text_codec (codes "cli:me") [] no_files)
add_msg-IsLost_example =
    add_msg-IsLost text_codec (codes "cli:me") [] 2 5 6 (said (codes "a")) (said (codes "b"))
      (123 ∷ 150 ∷ raise (codes "hia")) (123 ∷ 150 ∷ raise (codes "hib")) text_codec-LawfulCodec tt
      joined
