-- ===== src/Protocol.antt =====
-- pkg/providers/protocoltypes/types.go: the messages that the agent exchanges with a model. A tool
-- call's arguments are a JSON object; a nil pointer is `none`.
use ebiclaw.Prelude.{◌≡◌, refl, ap, Bool, Option, List}
use ebiclaw.Strings.{Text}

mutual
  pub data Json : Type 0 where
    null : Json
    boolean : Bool → Json
    number : Text → Json
    string : Text → Json
    array : JsonItems → Json
    object : JsonFields → Json

  pub data JsonItems : Type 0 where
    no_items : JsonItems
    item : Json → JsonItems → JsonItems

  pub data JsonFields : Type 0 where
    no_fields : JsonFields
    field : Text → Json → JsonFields → JsonFields

pub record GoogleExtra : Type 0 where
  pub thought_signature : Text

pub record ExtraContent : Type 0 where
  pub google : Option GoogleExtra

pub record FunctionCall : Type 0 where
  pub name : Text
  pub arguments : Text
  pub thought_signature : Text

pub record ToolCall : Type 0 where
  pub id : Text
  pub type : Text
  pub function : Option FunctionCall
  pub name : Text
  pub arguments : JsonFields
  pub thought_signature : Text
  pub extra_content : Option ExtraContent

pub record CacheControl : Type 0 where
  pub type : Text

pub record ContentBlock : Type 0 where
  pub type : Text
  pub text : Text
  pub cache_control : Option CacheControl

pub record Message : Type 0 where
  pub role : Text
  pub content : Text
  pub media : List Text
  pub reasoning_content : Text
  pub system_parts : List ContentBlock
  pub tool_calls : List ToolCall
  pub tool_call_id : Text

-- What is left of a tool call, and of a message, in JSON: the fields that are tagged `json:"-"` come
-- back as their zero values.
unfoldable pub stored_call : ToolCall → ToolCall
stored_call c = record c { name = List.[]; arguments = no_fields; thought_signature = List.[] }

unfoldable pub stored_calls : List ToolCall → List ToolCall
unfolding stored_call
stored_calls List.[] = List.[]
stored_calls (List.◌∷◌ c cs) = List.◌∷◌ (stored_call c) (stored_calls cs)

unfoldable pub stored : Message → Message
unfolding stored_calls
stored msg = record msg { tool_calls = stored_calls msg.tool_calls }

unfoldable pub stored_all : List Message → List Message
unfolding stored
stored_all List.[] = List.[]
stored_all (List.◌∷◌ msg msgs) = List.◌∷◌ (stored msg) (stored_all msgs)

pub stored_twice : (msg : Message) → stored (stored msg) ≡ stored msg
unfolding stored
stored_twice msg =
    ap (λ (cs : List ToolCall). record msg { tool_calls = cs }) (calls_twice msg.tool_calls)
  where
    calls_twice : (cs : List ToolCall) → stored_calls (stored_calls cs) ≡ stored_calls cs
    calls_twice List.[] = refl
    calls_twice (List.◌∷◌ c cs) =
        ap (λ (r : List ToolCall). List.◌∷◌ (stored_call c) r) (calls_twice cs)

-- A message with a role and a text, and the zero value in every other field.
abbrev pub plain : Text → Text → Message
plain role content = record {
  role = role;
  content = content;
  media = List.[];
  reasoning_content = List.[];
  system_parts = List.[];
  tool_calls = List.[];
  tool_call_id = List.[];
}
