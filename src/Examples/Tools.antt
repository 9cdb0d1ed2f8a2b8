-- ===== src/Examples/Tools.antt =====
-- pkg/tools/registry.go: a core tool and a hidden one that is promoted for two ticks.
use ebiclaw.Prelude.{◌≡◌, [], ◌∷◌}
use ebiclaw.Strings.{codes}
use ebiclaw.Maps.{get}
use ebiclaw.Protocol.{JsonFields}
use ebiclaw.Tools.Registry.{
  Tool, ToolRegistry, new_tool_registry, register, register_hidden, promote_tools, get_tool,
}
use ebiclaw.Tools.Registry.Promotion.{ticks, expected, promoted}
use ebiclaw.Tools.Registry.Visibility.{get_tool-promote_tools}

abbrev shell : Tool
shell = record { name = codes "exec"; description = []; parameters = JsonFields.no_fields }

abbrev finder : Tool
finder = record { name = codes "find"; description = []; parameters = JsonFields.no_fields }

abbrev registry : ToolRegistry
registry = register_hidden finder (register shell new_tool_registry)

get_tool-promote_tools_example :
    get_tool (codes "find") (ticks 1 (promote_tools (codes "find" ∷ []) 2 registry))
    ≡ expected 1 (promoted (codes "find") (codes "find" ∷ []) 2) (get (codes "find") registry.tools)
get_tool-promote_tools_example =
    get_tool-promote_tools registry (codes "find" ∷ []) 2 1 (codes "find")
