-- ===== src/Routing/Router/Decision.antt =====
-- Which messages the light model gets.
use ebiclaw.Prelude.{
  ℕ, ◌≤◌, ◌<◌, ◌≡◌, ◌⊎◌, inl, inr, Bool, true, false, ltb, leb, if◌then◌else◌, arith, refl,
  Bool-cases, ◌==◌, ◌&&◌, ◌||◌, not, ap, sym, ◌∙◌, List,
}
use ebiclaw.Strings.{Text}
use ebiclaw.Protocol.{Message}
use ebiclaw.Routing.Features.{Features, extract_features}
use ebiclaw.Routing.Classifier.{score, w35}
use ebiclaw.Routing.Classifier.Classes.{
  token_class, code_class, tool_class, depth_class, class_score, every_class, every_class_sound,
  token_class-lt, code_class-lt, tool_class-lt, depth_class-lt,
}
use ebiclaw.Routing.Classifier.Order.{Weaker, score_mono, score_of_attachments, score_of_classes}
use ebiclaw.Routing.Router.{
  ℤ, pos, negsuc, RouterConfig, or_default, new, below_threshold, select_model,
}

-- The signals that make the heavy model necessary at the default threshold.
abbrev pub is_heavy : Features → Bool
is_heavy f =
    f.has_attachments
    || (ltb 0 f.code_block_count
        || (ltb 200 f.token_estimate
            || ((ltb 3 f.recent_tool_calls
                  && (ltb 50 f.token_estimate || ltb 10 f.conversation_depth))
                || (ltb 50 f.token_estimate
                    && (ltb 0 f.recent_tool_calls && ltb 10 f.conversation_depth)))))

-- The same of four classes.
abbrev heavy_class : ℕ → ℕ → ℕ → ℕ → Bool
heavy_class t c k d =
    c == 1 || (t == 2 || ((k == 2 && (leb 1 t || d == 1)) || (leb 1 t && (leb 1 k && d == 1))))

same_bool : Bool → Bool → Bool
same_bool true b = b
same_bool false b = not b

eq_of_same_bool : (a b : Bool) → same_bool a b ≡ true → a ≡ b
unfolding same_bool
eq_of_same_bool true b h = sym h
eq_of_same_bool false true h = cc
eq_of_same_bool false false h = refl

light_table :
    every_class (λ t c k d. same_bool (ltb (class_score t c k d) w35) (not (heavy_class t c k d)))
    ≡ true
unfolding every_class class_score same_bool
light_table = refl

light_class :
    (t c k d : ℕ)
    → t < 3
    → c < 2
    → k < 3
    → d < 2
    → ltb (class_score t c k d) w35 ≡ not (heavy_class t c k d)
light_class t c k d ht hc hk hd =
    eq_of_same_bool (ltb (class_score t c k d) w35) (not (heavy_class t c k d)) (
      every_class_sound
        (λ a b x y. same_bool (ltb (class_score a b x y) w35) (not (heavy_class a b x y))) t c k d
        light_table ht hc hk hd)

heavy_tests :
    (p200 p50 q3 q0 c0 d10 : Bool)
    → (p200 ≡ true → p50 ≡ true)
    → (q3 ≡ true → q0 ≡ true)
    → (let t : ℕ = if p200 then 2 else (if p50 then 1 else 0) in
        let c : ℕ = if c0 then 1 else 0 in
        let k : ℕ = if q3 then 2 else (if q0 then 1 else 0) in
        let d : ℕ = if d10 then 1 else 0 in heavy_class t c k d)
      ≡ (c0 || (p200 || ((q3 && (p50 || d10)) || (p50 && (q0 && d10)))))
heavy_tests true false q3 q0 c0 d10 h k = cc (h refl)
heavy_tests p200 p50 true false c0 d10 h k = cc (k refl)
heavy_tests p200 p50 q3 q0 c0 d10 h k = ground arith

heavy_class-is_heavy :
    (f : Features)
    → f.has_attachments ≡ false
    → heavy_class (token_class f) (code_class f) (tool_class f) (depth_class f) ≡ is_heavy f
heavy_class-is_heavy f h = rw h (
    heavy_tests (ltb 200 f.token_estimate) (ltb 50 f.token_estimate) (ltb 3 f.recent_tool_calls)
      (ltb 0 f.recent_tool_calls) (ltb 0 f.code_block_count) (ltb 10 f.conversation_depth)
      (λ e. ground arith) (λ e. ground arith))

light-not_heavy : (f : Features) → ltb (score f) w35 ≡ not (is_heavy f)
light-not_heavy f = elim (Bool-cases f.has_attachments) [
  | inl e ↦ rw (score_of_attachments f e, e) refl
  | inr e ↦
      ap (λ (s : ℕ). ltb s w35) (score_of_classes f e)
      ∙ light_class (token_class f) (code_class f) (tool_class f) (depth_class f) (token_class-lt f)
          (code_class-lt f) (tool_class-lt f) (depth_class-lt f)
      ∙ ap not (heavy_class-is_heavy f e)
]

-- A router made from a configuration whose threshold is zero or negative gives a message to the
-- primary model exactly when it has an attachment, or a code block, or more than 200 tokens, or more
-- than 3 recent tool calls with more than 50 tokens or a history of more than 10 messages, or more
-- than 50 tokens, a recent tool call and such a history; any other message goes to the light model.
pub select_model-default :
    (cfg : RouterConfig) (msg : Text) (history : List Message) (primary : Text)
    → (cfg.threshold ≡ pos 0) ⊎ ((n : ℕ) × (cfg.threshold ≡ negsuc n))
    → select_model (new cfg) msg history primary ≡ (
        let f = extract_features msg history in
        if is_heavy f then (primary, false, score f) else (cfg.light_model, true, score f))
unfolding select_model new
select_model-default cfg msg history primary h =
    let f = extract_features msg history in
    rw (defaulted cfg.threshold h, light-not_heavy f)
      (if_not (is_heavy f) (cfg.light_model, true, score f) (primary, false, score f))
  where
    defaulted : (t : ℤ) → (t ≡ pos 0) ⊎ ((n : ℕ) × (t ≡ negsuc n)) → or_default t ≡ pos w35
    defaulted t (inl e) = unfold or_default in rw e refl
    defaulted t (inr (n, e)) = unfold or_default in rw e refl

    if_not : {A : Type 0} (b : Bool) (x y : A) → (if not b then x else y) ≡ (if b then y else x)
    if_not true x y = refl
    if_not false x y = refl

-- For every threshold: a message that is no stronger in any signal than one that the light model
-- gets goes to the light model too.
pub select_model_mono :
    (cfg : RouterConfig) (msg msg' : Text) (history history' : List Message) (primary : Text)
    → Weaker (extract_features msg history) (extract_features msg' history')
    → (select_model (new cfg) msg' history' primary).1 ≡ true
    → (select_model (new cfg) msg history primary).1 ≡ true
unfolding select_model new
select_model_mono cfg msg msg' history history' primary w h =
    go (or_default cfg.threshold) (score (extract_features msg history))
      (score (extract_features msg' history'))
      (score_mono (extract_features msg history) (extract_features msg' history') w).0 h
  where
    go :
        (t : ℤ) (s s' : ℕ)
        → s ≤ s'
        → (let r : Text × Bool × ℕ =
              if below_threshold s' t then (cfg.light_model, true, s') else (primary, false, s') in
            r.1)
          ≡ true
        → (let r : Text × Bool × ℕ =
              if below_threshold s t then (cfg.light_model, true, s) else (primary, false, s) in
            r.1)
          ≡ true
    go (pos t) s s' le h = ground arith
    go (negsuc t) s s' le h = h
