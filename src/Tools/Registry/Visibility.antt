-- ===== src/Tools/Registry/Visibility.antt =====
-- How long a tool can be called.
use ebiclaw.Prelude.{
  ℕ, ◌≡◌, Bool, true, false, ◌||◌, Option, none, some, List, [], ◌∷◌, if◌then◌else◌, ltb, refl, ap,
  ◌∙◌,
}
use ebiclaw.Strings.{Text, text_eq}
use ebiclaw.Maps.{Map, get}
use ebiclaw.Tools.Registry.{
  ToolEntry, ToolRegistry, promote_tool, promote_all, promote_tools, get_tool,
}
use ebiclaw.Tools.Registry.Promotion.{
  ticks, is_named, promoted, expected, get_tool-ticks, with_ttl, with_ttl_id, get-promote_tool,
  with_ttl_twice,
}

get-promote_all :
    (ttl : ℕ) (names : List Text) (name : Text) (tools : Map ToolEntry)
    → get name (promote_all ttl names tools)
      ≡ with_ttl (λ e. if is_named name names then ttl else e.ttl) (get name tools)
unfolding promote_all is_named
get-promote_all ttl [] name tools = with_ttl_id (get name tools)
get-promote_all ttl (n ∷ names) name tools =
    get-promote_all ttl names name (promote_tool ttl n tools)
    ∙ ap (with_ttl (λ e. if is_named name names then ttl else e.ttl))
        (get-promote_tool ttl n name tools)
    ∙ with_ttl_twice ttl (text_eq n name) (is_named name names) (get name tools)

-- After a promotion and any number of ticks, a core tool can be called, whether it was named or
-- not; a hidden tool can be called as long as there were fewer ticks than its time to live, which
-- the promotion sets if it names the tool and leaves alone otherwise; any other name gives nothing.
pub get_tool-promote_tools :
    (r : ToolRegistry) (names : List Text) (ttl k : ℕ) (name : Text)
    → get_tool name (ticks k (promote_tools names ttl r))
      ≡ expected k (promoted name names ttl) (get name r.tools)
unfolding promote_tools
get_tool-promote_tools r names ttl k name =
    get_tool-ticks k name (record r { tools = promote_all ttl names r.tools })
    ∙ ap (expected k (λ e. e.ttl)) (get-promote_all ttl names name r.tools)
    ∙ by_entry (get name r.tools)
  where
    by_entry :
        (o : Option ToolEntry)
        → expected k (λ e. e.ttl) (with_ttl (λ e. if is_named name names then ttl else e.ttl) o)
          ≡ expected k (promoted name names ttl) o
    by_entry none = refl
    by_entry (some entry) = by_core entry.is_core
      where
        by_core :
            (c : Bool)
            → (if c || ltb k (if c then entry.ttl else promoted name names ttl entry)
                then some entry.tool
                else none)
              ≡ (if c || ltb k (promoted name names ttl entry) then some entry.tool else none)
        by_core true = refl
        by_core false = refl
