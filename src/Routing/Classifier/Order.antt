-- ===== src/Routing/Classifier/Order.antt =====
-- The score is in range, and grows with every signal.
use ebiclaw.Prelude.{
  ℕ, ◌≤◌, ◌<◌, ◌≡◌, inl, inr, Bool, true, false, ltb, if◌then◌else◌, arith, refl, Bool-cases, leb,
  ◌&&◌, ◌||◌, not, ◌∙◌,
}
use ebiclaw.Routing.Features.{Features}
use ebiclaw.Routing.Classifier.{one, add_tokens, add_code, add_tools, add_depth, cap_score, score}
use ebiclaw.Routing.Classifier.Classes.{
  token_class, code_class, tool_class, depth_class, class_score, score-class_score, every_class,
  every_class_sound, token_class-lt, code_class-lt, tool_class-lt, depth_class-lt,
}

-- Every signal of the first is at most that of the second.
pub record Weaker (f g : Features) : Type 0 where
  pub tokens : f.token_estimate ≤ g.token_estimate
  pub code : f.code_block_count ≤ g.code_block_count
  pub tools : f.recent_tool_calls ≤ g.recent_tool_calls
  pub depth : f.conversation_depth ≤ g.conversation_depth
  pub attachments : f.has_attachments ≡ true → g.has_attachments ≡ true

pub score-le-one : (f : Features) → score f ≤ one
unfolding score cap_score
score-le-one f = elim (Bool-cases f.has_attachments) [
  | inl e ↦ rw e (omega arith)
  | inr e ↦ rw e (cap_le (add_depth f (add_tools f (add_code f (add_tokens f 0)))))
]
  where
    cap_le : (s : ℕ) → (if ltb one s then one else s) ≤ one
    cap_le s = ground arith

-- Every class of the first is at most that of the second, as a test.
abbrev classes_le : (t c k d t' c' k' d' : ℕ) → Bool
classes_le t c k d t' c' k' d' = leb t t' && (leb c c' && (leb k k' && leb d d'))

mono_at : (t c k d t' c' k' d' : ℕ) → Bool
mono_at t c k d t' c' k' d' =
    not (classes_le t c k d t' c' k' d') || leb (class_score t c k d) (class_score t' c' k' d')

mono_table :
    every_class (λ t c k d. every_class (λ t' c' k' d'. mono_at t c k d t' c' k' d')) ≡ true
unfolding every_class mono_at class_score
mono_table = refl

implied_le : (b : Bool) (x y : ℕ) → (not b || leb x y) ≡ true → b ≡ true → x ≤ y
implied_le b x y h k = ground arith

le_true : (a b : ℕ) → a ≤ b → leb a b ≡ true
le_true a b h = ground arith

class_score_mono :
    (t c k d t' c' k' d' : ℕ)
    → t' < 3
    → c' < 2
    → k' < 3
    → d' < 2
    → t ≤ t'
    → c ≤ c'
    → k ≤ k'
    → d ≤ d'
    → class_score t c k d ≤ class_score t' c' k' d'
class_score_mono t c k d t' c' k' d' ht hc hk hd p q r s =
    let e : mono_at t c k d t' c' k' d' ≡ true =
      every_class_sound (λ a b x y. mono_at t c k d a b x y) t' c' k' d'
        (every_class_sound (λ a b x y. every_class (λ a' b' x' y'. mono_at a b x y a' b' x' y')) t c
          k d mono_table (omega arith) (omega arith) (omega arith) (omega arith))
        ht hc hk hd in
    implied_le (classes_le t c k d t' c' k' d') (class_score t c k d) (class_score t' c' k' d')
      (unfold mono_at in e)
      (rw (le_true t t' p, le_true c c' q, le_true k k' r, le_true d d' s) refl)

token_class_mono : (f g : Features) → Weaker f g → token_class f ≤ token_class g
token_class_mono f g w = ground arith

code_class_mono : (f g : Features) → Weaker f g → code_class f ≤ code_class g
code_class_mono f g w = ground arith

tool_class_mono : (f g : Features) → Weaker f g → tool_class f ≤ tool_class g
tool_class_mono f g w = ground arith

depth_class_mono : (f g : Features) → Weaker f g → depth_class f ≤ depth_class g
depth_class_mono f g w = ground arith

pub score_of_attachments : (f : Features) → f.has_attachments ≡ true → score f ≡ one
unfolding score
score_of_attachments f e = rw e refl

pub score_of_classes :
    (f : Features)
    → f.has_attachments ≡ false
    → score f ≡ class_score (token_class f) (code_class f) (tool_class f) (depth_class f)
score_of_classes f e = score-class_score f ∙ rw e refl

-- A score is at most 1.0, and it grows with the signals: where no signal of the first message is
-- stronger than that of the second, neither is its score.
pub score_mono : (f g : Features) → Weaker f g → (score f ≤ score g) × (score g ≤ one)
score_mono f g w = (below, score-le-one g)
  where
    attached : g.has_attachments ≡ true → score f ≤ score g
    attached e = rw (score_of_attachments g e) (score-le-one f)

    classes : f.has_attachments ≡ false → g.has_attachments ≡ false → score f ≤ score g
    classes e h =
        rw (score_of_classes f e, score_of_classes g h)
          (class_score_mono (token_class f) (code_class f) (tool_class f) (depth_class f)
            (token_class g) (code_class g) (tool_class g) (depth_class g) (token_class-lt g)
            (code_class-lt g) (tool_class-lt g) (depth_class-lt g) (token_class_mono f g w)
            (code_class_mono f g w) (tool_class_mono f g w) (depth_class_mono f g w))

    below : score f ≤ score g
    below = elim (Bool-cases g.has_attachments) [
      | inl e ↦ attached e
      | inr e ↦ elim (Bool-cases f.has_attachments) [
        | inl h ↦ attached (w.attachments h)
        | inr h ↦ classes h e
      ]
    ]
