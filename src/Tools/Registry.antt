-- ===== src/Tools/Registry.antt =====
-- pkg/tools/registry.go: the registered tools. A method that holds the mutex is one step. An entry
-- stands in one place, so the pointer to it is its value. A time to live of 0 also stands for a
-- negative one. A map is ranged over in the order of its list.
pub mod Promotion
pub mod Visibility
use ebiclaw.Prelude.{
  ℕ, ◌+◌, ◌-◌, ◌%◌, ◌^◌, Bool, true, false, ◌&&◌, ◌||◌, not, Option, none, some, List, [], ◌∷◌,
  ◌++◌, map, if◌then◌else◌, length, ltb, leb, ◌==◌,
}
use ebiclaw.Strings.{Text, codes, text_eq}
use ebiclaw.Maps.{Map, get, put}
use ebiclaw.Protocol.{JsonFields}

-- What the registry asks of a tool.
pub record Tool : Type 0 where
  pub name : Text
  pub description : Text
  pub parameters : JsonFields

pub record ToolEntry : Type 0 where
  pub tool : Tool
  pub is_core : Bool
  pub ttl : ℕ

pub record ToolRegistry : Type 0 where
  pub tools : Map ToolEntry
  pub version : ℕ

unfoldable pub new_tool_registry : ToolRegistry
new_tool_registry = record { tools = []; version = 0 }

-- atomic.Uint64
unfoldable pub next_version : ℕ → ℕ
next_version v = (v + 1) % 2 ^ 64

unfoldable pub register : Tool → ToolRegistry → ToolRegistry
unfolding next_version
register tool r = record {
  tools = put tool.name (record { tool = tool; is_core = true; ttl = 0 }) r.tools;
  version = next_version r.version;
}

unfoldable pub register_hidden : Tool → ToolRegistry → ToolRegistry
unfolding next_version
register_hidden tool r = record {
  tools = put tool.name (record { tool = tool; is_core = false; ttl = 0 }) r.tools;
  version = next_version r.version;
}

-- One round of the loop of PromoteTools.
unfoldable pub promote_tool : ℕ → Text → Map ToolEntry → Map ToolEntry
promote_tool ttl name tools = elim (get name tools) [
  | none ↦ tools
  | some entry ↦ if entry.is_core then tools else put name (record entry { ttl = ttl }) tools
]

unfoldable pub promote_all : ℕ → List Text → Map ToolEntry → Map ToolEntry
unfolding promote_tool
promote_all ttl [] tools = tools
promote_all ttl (name ∷ names) tools = promote_all ttl names (promote_tool ttl name tools)

unfoldable pub promote_tools : List Text → ℕ → ToolRegistry → ToolRegistry
unfolding promote_all
promote_tools names ttl r = record r { tools = promote_all ttl names r.tools }

unfoldable pub tick_entry : ToolEntry → ToolEntry
tick_entry entry =
    if not entry.is_core && ltb 0 entry.ttl then record entry { ttl = entry.ttl - 1 } else entry

unfoldable pub tick_entries : Map ToolEntry → Map ToolEntry
unfolding tick_entry
tick_entries [] = []
tick_entries ((name, entry) ∷ tools) = (name, tick_entry entry) ∷ tick_entries tools

-- TickTTL
unfoldable pub tick_ttl : ToolRegistry → ToolRegistry
unfolding tick_entries
tick_ttl r = record r { tools = tick_entries r.tools }

-- Whether a tool is core or its time to live is not over.
unfoldable pub is_visible : ToolEntry → Bool
is_visible entry = entry.is_core || ltb 0 entry.ttl

unfoldable pub get_tool : Text → ToolRegistry → Option Tool
unfolding is_visible
get_tool name r = elim (get name r.tools) [
  | none ↦ none
  | some entry ↦ if is_visible entry then some entry.tool else none
]

-- HiddenToolDoc and HiddenToolSnapshot
pub record HiddenToolDoc : Type 0 where
  pub name : Text
  pub description : Text

pub record HiddenToolSnapshot : Type 0 where
  pub docs : List HiddenToolDoc
  pub version : ℕ

unfoldable pub hidden_docs : Map ToolEntry → List HiddenToolDoc
hidden_docs [] = []
hidden_docs ((name, entry) ∷ tools) =
    let rest = hidden_docs tools in
    if entry.is_core
    then rest
    else (record { name = name; description = entry.tool.description }) ∷ rest

unfoldable pub snapshot_hidden_tools : ToolRegistry → HiddenToolSnapshot
unfolding hidden_docs
snapshot_hidden_tools r = record { docs = hidden_docs r.tools; version = r.version }

-- The order of strings, which is that of their code points.
unfoldable pub text_le : Text → Text → Bool
text_le [] t = true
text_le (a ∷ s) [] = false
text_le (a ∷ s) (b ∷ t) = ltb a b || ((a == b) && text_le s t)

-- sort.Strings
unfoldable pub insert_sorted : Text → List Text → List Text
unfolding text_le
insert_sorted n [] = n ∷ []
insert_sorted n (m ∷ ms) =
    let rest = insert_sorted n ms in if text_le n m then n ∷ m ∷ ms else m ∷ rest

unfoldable pub sorted_names : Map ToolEntry → List Text
unfolding insert_sorted
sorted_names [] = []
sorted_names ((name, entry) ∷ tools) = insert_sorted name (sorted_names tools)

-- sortedToolNames, and List
unfoldable pub list_names : ToolRegistry → List Text
unfolding sorted_names
list_names r = sorted_names r.tools

-- The loop over the sorted names that GetDefinitions, GetSummaries and GetAll share.
unfoldable pub visible_tools : List Text → Map ToolEntry → List Tool
unfolding is_visible
visible_tools [] tools = []
visible_tools (name ∷ names) tools =
    let rest = visible_tools names tools in
    elim (get name tools) [
      | none ↦ rest
      | some entry ↦ if is_visible entry then entry.tool ∷ rest else rest
    ]

unfoldable pub get_all : ToolRegistry → List Tool
unfolding visible_tools list_names
get_all r = visible_tools (list_names r) r.tools

abbrev pub summary_of : Tool → Text
summary_of tool = codes "- `" ++ (tool.name ++ (codes "` - " ++ tool.description))

unfoldable pub get_summaries : ToolRegistry → List Text
unfolding get_all
get_summaries r = map summary_of (get_all r)

unfoldable pub clone : ToolRegistry → ToolRegistry
clone r = record { tools = r.tools; version = 0 }

unfoldable pub count_tools : ToolRegistry → ℕ
count_tools r = length r.tools
