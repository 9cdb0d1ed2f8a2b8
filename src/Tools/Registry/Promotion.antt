-- ===== src/Tools/Registry/Promotion.antt =====
-- What ticks and one promotion do to an entry.
use ebiclaw.Prelude.{
  ℕ, zero, suc, ◌≡◌, ◌≢◌, ◌⊎◌, Bool, true, false, ◌||◌, Option, none, some, List, [], ◌∷◌,
  if◌then◌else◌, ltb, arith, refl, ap, sym, ◌∙◌, Bool-cases, inl, inr,
}
use ebiclaw.Strings.{Text, text_eq}
use ebiclaw.Strings.Equal.{text_eq-cases}
use ebiclaw.Maps.{Map, get, put, get-put}
use ebiclaw.Tools.Registry.{
  Tool, ToolEntry, ToolRegistry, promote_tool, tick_entry, tick_entries, tick_ttl, is_visible,
  get_tool,
}

pub ticks : ℕ → ToolRegistry → ToolRegistry
ticks zero r = r
ticks (suc k) r = ticks k (tick_ttl r)

unfoldable pub is_named : Text → List Text → Bool
is_named n [] = false
is_named n (m ∷ ms) = text_eq m n || is_named n ms

-- The time to live that a promotion leaves.
abbrev pub promoted : Text → List Text → ℕ → ToolEntry → ℕ
promoted name names ttl entry = if is_named name names then ttl else entry.ttl

-- What a caller gets of an entry: a core tool always, another one while its time is not over.
abbrev pub expected : ℕ → (ToolEntry → ℕ) → Option ToolEntry → Option Tool
expected k ttl_of none = none
expected k ttl_of (some entry) =
    if entry.is_core || ltb k (ttl_of entry) then some entry.tool else none

get-tick_entries :
    (name : Text) (tools : Map ToolEntry)
    → get name (tick_entries tools)
      ≡ elim (get name tools) [ none ↦ none | some entry ↦ some (tick_entry entry) ]
unfolding get tick_entries
get-tick_entries name [] = refl
get-tick_entries name ((n, entry) ∷ tools) = elim (Bool-cases (text_eq n name)) [
  | inl e ↦ rw e refl
  | inr e ↦ rw e (get-tick_entries name tools)
]

pub get_tool-ticks :
    (k : ℕ) (name : Text) (r : ToolRegistry)
    → get_tool name (ticks k r) ≡ expected k (λ entry. entry.ttl) (get name r.tools)
unfolding ticks
get_tool-ticks zero name r = unfold get_tool is_visible in by_entry (get name r.tools)
  where
    by_entry :
        (o : Option ToolEntry)
        → elim o [
          | none ↦ none
          | some entry ↦ if entry.is_core || ltb 0 entry.ttl then some entry.tool else none
        ]
          ≡ expected 0 (λ entry. entry.ttl) o
    by_entry none = refl
    by_entry (some entry) = refl
get_tool-ticks (suc k) name r =
    get_tool-ticks k name (tick_ttl r)
    ∙ ap (expected k (λ entry. entry.ttl)) entries
    ∙ by_entry (get name r.tools)
  where
    entries :
        get name (tick_ttl r).tools
        ≡ elim (get name r.tools) [ none ↦ none | some entry ↦ some (tick_entry entry) ]
    entries = unfold tick_ttl in get-tick_entries name r.tools

    ticked :
        (entry : ToolEntry)
        → expected k (λ e. e.ttl) (some (tick_entry entry))
          ≡ expected (suc k) (λ e. e.ttl) (some entry)
    ticked entry = unfold tick_entry in ground arith

    by_entry :
        (o : Option ToolEntry)
        → expected k (λ e. e.ttl) (elim o [ none ↦ none | some entry ↦ some (tick_entry entry) ])
          ≡ expected (suc k) (λ e. e.ttl) o
    by_entry none = refl
    by_entry (some entry) = ticked entry

abbrev set_ttl : ToolEntry → ℕ → ToolEntry
set_ttl entry ttl = record entry { ttl = ttl }

-- An entry after a promotion.
abbrev pub with_ttl : (ToolEntry → ℕ) → Option ToolEntry → Option ToolEntry
with_ttl f none = none
with_ttl f (some entry) = some (set_ttl entry (if entry.is_core then entry.ttl else f entry))

same_ttl : (c : Bool) (t : ℕ) → t ≡ (if c then t else t)
same_ttl true t = refl
same_ttl false t = refl

pub with_ttl_id : (o : Option ToolEntry) → o ≡ with_ttl (λ e. e.ttl) o
with_ttl_id none = refl
with_ttl_id (some entry) = ap (λ (t : ℕ). some (set_ttl entry t)) (same_ttl entry.is_core entry.ttl)

kept : (c : Bool) (t u : ℕ) → c ≡ true → t ≡ (if c then t else u)
kept true t u p = refl
kept false t u p = absurd (cc)

risen : (c b : Bool) (t u : ℕ) → c ≡ false → b ≡ true → t ≡ (if c then u else if b then t else u)
risen false true t u p q = refl
risen false false t u p q = absurd (cc)
risen true b t u p q = absurd (cc)

module _ (ttl : ℕ) (n name : Text) (tools : Map ToolEntry) where
  abbrev ttl_after : ToolEntry → ℕ
  ttl_after e = if text_eq n name then ttl else e.ttl

  unnamed_kept : text_eq n name ≡ false → get name tools ≡ with_ttl ttl_after (get name tools)
  unnamed_kept t =
      with_ttl_id (get name tools)
      ∙ ap (λ (b : Bool). with_ttl (λ e. if b then ttl else e.ttl) (get name tools)) (sym t)

  at_name : {o : Option ToolEntry} → n ≡ name → get n tools ≡ o → get name tools ≡ o
  at_name same g = ap (λ (m : Text). get m tools) (sym same) ∙ g

  core_kept :
      (entry : ToolEntry)
      → entry.is_core ≡ true
      → get name tools ≡ some entry
      → get name tools ≡ with_ttl ttl_after (get name tools)
  core_kept entry c g =
      g
      ∙ ap (λ (t : ℕ). some (set_ttl entry t)) (kept entry.is_core entry.ttl (ttl_after entry) c)
      ∙ ap (with_ttl ttl_after) (sym g)

  hidden_raised :
      (entry : ToolEntry)
      → entry.is_core ≡ false
      → text_eq n name ≡ true
      → get name tools ≡ some entry
      → get name (put n (set_ttl entry ttl) tools) ≡ with_ttl ttl_after (get name tools)
  hidden_raised entry c t g =
      get-put n name (set_ttl entry ttl) tools
      ∙ ap (λ (b : Bool). if b then some (set_ttl entry ttl) else get name tools) t
      ∙ ap (λ (u : ℕ). some (set_ttl entry u))
          (risen entry.is_core (text_eq n name) ttl entry.ttl c t)
      ∙ ap (with_ttl ttl_after) (sym g)

  unnamed_put :
      (entry : ToolEntry)
      → text_eq n name ≡ false
      → get name (put n (set_ttl entry ttl) tools) ≡ with_ttl ttl_after (get name tools)
  unnamed_put entry t =
      get-put n name (set_ttl entry ttl) tools
      ∙ ap (λ (b : Bool). if b then some (set_ttl entry ttl) else get name tools) t
      ∙ unnamed_kept t

  pub by_core :
      (entry : ToolEntry) (c : Bool)
      → entry.is_core ≡ c
      → get n tools ≡ some entry
      → (n ≡ name) × (text_eq n name ≡ true) ⊎ (n ≢ name) × (text_eq n name ≡ false)
      → get name (if c then tools else put n (set_ttl entry ttl) tools)
        ≡ with_ttl ttl_after (get name tools)
  by_core entry true c g (inl (same, t)) = core_kept entry c (at_name same g)
  by_core entry true c g (inr (ne, t)) = unnamed_kept t
  by_core entry false c g (inl (same, t)) = hidden_raised entry c t (at_name same g)
  by_core entry false c g (inr (ne, t)) = unnamed_put entry t

  pub by_entry :
      (o : Option ToolEntry)
      → get n tools ≡ o
      → get name (elim o [
        | none ↦ tools
        | some entry ↦ if entry.is_core then tools else put n (record entry { ttl = ttl }) tools
      ])
        ≡ with_ttl ttl_after (get name tools)
  by_entry none g = elim (text_eq-cases n name) [
    | inl (same, t) ↦ at_name same g ∙ ap (with_ttl ttl_after) (sym (at_name same g))
    | inr (ne, t) ↦ unnamed_kept t
  ]
  by_entry (some entry) g = by_core entry entry.is_core refl g (text_eq-cases n name)

  pub get-promote_tool :
      get name (promote_tool ttl n tools)
      ≡ with_ttl (λ e. if text_eq n name then ttl else e.ttl) (get name tools)
  unfolding promote_tool
  get-promote_tool = by_entry (get n tools) refl

pub with_ttl_twice :
    (ttl : ℕ) (a b : Bool) (o : Option ToolEntry)
    → with_ttl (λ e. if b then ttl else e.ttl) (with_ttl (λ e. if a then ttl else e.ttl) o)
      ≡ with_ttl (λ e. if a || b then ttl else e.ttl) o
with_ttl_twice ttl a b none = refl
with_ttl_twice ttl a b (some entry) =
    ap (λ (t : ℕ). some (set_ttl entry t)) (flags entry.is_core a b)
  where
    flags :
        (c a b : Bool)
        → (let x : ℕ = if c then entry.ttl else if a then ttl else entry.ttl in
            if c then x else if b then ttl else x)
          ≡ (if c then entry.ttl else if a || b then ttl else entry.ttl)
    flags true a b = refl
    flags false true true = refl
    flags false true false = refl
    flags false false true = refl
    flags false false false = refl
