-- ===== src/Providers/ModelRef.antt =====
-- pkg/providers/model_ref.go. A nil reference is `none`.
use ebiclaw.Prelude.{Option, none, some, List, [], ◌∷◌, ◌++◌, if◌then◌else◌, is_empty}
use ebiclaw.Strings.{Text, codes, text_eq, trim_space, to_lower, cut}

pub record ModelRef : Type 0 where
  pub provider : Text
  pub model : Text

-- The cases of the switch, each with the name that it returns.
abbrev pub aliases : List (Text × Text)
aliases =
    (codes "z.ai", codes "zai")
    ∷ (codes "z-ai", codes "zai")
    ∷ (codes "opencode-zen", codes "opencode")
    ∷ (codes "qwen", codes "qwen-portal")
    ∷ (codes "kimi-code", codes "kimi-coding")
    ∷ (codes "gpt", codes "openai")
    ∷ (codes "claude", codes "anthropic")
    ∷ (codes "glm", codes "zhipu")
    ∷ (codes "google", codes "gemini")
    ∷ (codes "alibaba-coding", codes "coding-plan")
    ∷ (codes "qwen-coding", codes "coding-plan")
    ∷ (codes "alibaba-coding-anthropic", codes "coding-plan-anthropic")
    ∷ (codes "qwen-international", codes "qwen-intl")
    ∷ (codes "dashscope-intl", codes "qwen-intl")
    ∷ (codes "dashscope-us", codes "qwen-us")
    ∷ []

unfoldable pub resolve_alias : List (Text × Text) → Text → Text
resolve_alias [] p = p
resolve_alias ((alias, name) ∷ rest) p =
    let others = resolve_alias rest p in if text_eq p alias then name else others

unfoldable pub normalize_provider : Text → Text
unfolding resolve_alias
normalize_provider provider = resolve_alias aliases (to_lower (trim_space provider))

unfoldable pub parse_model_ref : Text → Text → Option ModelRef
parse_model_ref raw default_provider =
    let trimmed = trim_space raw in
    let whole : ModelRef = record {
      provider = normalize_provider default_provider;
      model = trimmed;
    } in
    if is_empty trimmed then none else elim (cut 47 trimmed) [
      | none ↦ some whole
      | some (before, after) ↦
          if is_empty before
          then some whole
          else if is_empty (trim_space after)
          then none
          else some (record { provider = normalize_provider before; model = trim_space after })
    ]

unfoldable pub model_key : Text → Text → Text
model_key provider model = normalize_provider provider ++ (codes "/" ++ to_lower (trim_space model))
