-- ===== src/Commands.antt =====
-- pkg/commands: request.go, definition.go, registry.go and executor.go. A handler and a reply are
-- functions over a state of the world, W, that give an error or none; the runtime, R, is handed on to
-- the handlers. A nil pointer or function is `none`.
pub mod Lookup
pub mod Outcomes
use ebiclaw.Prelude.{
  ℕ, zero, suc, Bool, true, false, ◌&&◌, not, Option, none, some, List, [], ◌∷◌, ◌++◌, reverse, map,
  if◌then◌else◌, is_empty,
}
use ebiclaw.Strings.{Text, codes, text_eq, is_space, trim_space, to_lower, has_prefix, cut}
use ebiclaw.Maps.{Map, get, put}

-- strings.Fields, over the word at hand in reverse order.
unfoldable pub fields_from : Text → Text → List Text
unfolding is_space
fields_from word [] = if is_empty word then [] else reverse word ∷ []
fields_from word (c ∷ s) =
    let fresh = fields_from [] s in
    let longer = fields_from (c ∷ word) s in
    if is_space c then (if is_empty word then fresh else reverse word ∷ fresh) else longer

unfoldable pub nth : ℕ → List Text → Text
nth n [] = []
nth zero (t ∷ ts) = t
nth (suc n) (t ∷ ts) = nth n ts

unfoldable pub nth_token : Text → ℕ → Text
unfolding fields_from nth
nth_token input n = nth n (fields_from [] (trim_space input))

unfoldable pub normalize_command_name : Text → Text
normalize_command_name name = to_lower (trim_space name)

-- The prefixes are "/" and "!".
unfoldable pub trim_command_prefix : Text → Option Text
trim_command_prefix [] = none
trim_command_prefix (c ∷ s) =
    if text_eq (c ∷ []) (codes "/")
    then some s
    else if text_eq (c ∷ []) (codes "!")
    then some s
    else none

unfoldable pub has_command_prefix : Text → Bool
unfolding trim_command_prefix nth_token
has_command_prefix input = elim (trim_command_prefix (nth_token input 0)) [
  | none ↦ false
  | some name ↦ true
]

-- What stands in front of the first "@".
unfoldable pub before_at : Text → Text
unfolding cut
before_at name = elim (cut 64 name) [ none ↦ name | some (before, after) ↦ before ]

unfoldable pub named_by : Option Text → Option Text
unfolding before_at normalize_command_name
named_by none = none
named_by (some name) =
    let normal = normalize_command_name (before_at name) in
    if is_empty normal then none else some normal

unfoldable pub parse_command_name : Text → Option Text
unfolding named_by trim_command_prefix nth_token
parse_command_name input = named_by (trim_command_prefix (nth_token input 0))

module _ (E R W : Type 0) where
  pub record Request : Type 0 where
    pub channel : Text
    pub chat_id : Text
    pub sender_id : Text
    pub text : Text
    pub reply : Option (Text → W → Option E × W)

  abbrev pub Handler : Type 0
  Handler = Request → R → W → Option E × W

  pub record SubCommand : Type 0 where
    pub name : Text
    pub description : Text
    pub args_usage : Text
    pub handler : Option Handler

  pub record Definition : Type 0 where
    pub name : Text
    pub description : Text
    pub usage : Text
    pub aliases : List Text
    pub sub_commands : List SubCommand
    pub handler : Option Handler

  pub record Registry : Type 0 where
    pub defs : List Definition
    pub index : Map ℕ

  pub record Executor : Type 0 where
    pub reg : Option Registry
    pub rt : R

pub data Outcome : Type 0 where
  passthrough : Outcome
  handled : Outcome

pub record ExecuteResult (E : Type 0) : Type 0 where
  pub outcome : Outcome
  pub command : Text
  pub err : Option E

-- The index keeps the first position that claims a name.
unfoldable pub register_command_name : Map ℕ → Text → ℕ → Map ℕ
unfolding normalize_command_name
register_command_name index name i =
    let key = normalize_command_name name in
    if is_empty key then index else elim (get key index) [ none ↦ put key i index | some j ↦ index ]

unfoldable pub register_names : Map ℕ → List Text → ℕ → Map ℕ
unfolding register_command_name
register_names index [] i = index
register_names index (name ∷ names) i = register_names (register_command_name index name i) names i

unfoldable pub join_bar : List Text → Text
join_bar [] = []
join_bar (t ∷ []) = t
join_bar (t ∷ u ∷ ts) = t ++ (codes "|" ++ join_bar (u ∷ ts))

-- req.Reply, which does nothing where it was nil.
unfoldable pub reply_or_none :
    {E W : Type 0} → Option (Text → W → Option E × W) → Text → W → Option E × W
reply_or_none none text w = (none, w)
reply_or_none (some reply) text w = reply text w

-- A command that is left to the agent.
unfoldable pub deferred : {E W : Type 0} → Text → W → ExecuteResult E × W
deferred name w = (record { outcome = passthrough; command = name; err = none }, w)

module _ {E R W : Type 0} where
  unfoldable pub build_index : ℕ → List (Definition E R W) → Map ℕ → Map ℕ
  unfolding register_names
  build_index i [] index = index
  build_index i (d ∷ ds) index =
      build_index (suc i) ds (register_names index (d.name ∷ d.aliases) i)

  unfoldable pub new_registry : List (Definition E R W) → Registry E R W
  unfolding build_index
  new_registry defs = record { defs = defs; index = build_index 0 defs [] }

  -- r.defs[idx], `none` out of range
  unfoldable pub def_at : ℕ → List (Definition E R W) → Option (Definition E R W)
  def_at i [] = none
  def_at zero (d ∷ ds) = some d
  def_at (suc i) (d ∷ ds) = def_at i ds

  unfoldable pub lookup : Registry E R W → Text → Option (Definition E R W)
  unfolding normalize_command_name def_at
  lookup r name =
      let key = normalize_command_name name in
      let found : Option (Definition E R W) = elim (get key r.index) [
        | none ↦ none
        | some i ↦ def_at i r.defs
      ] in
      if is_empty key then none else found

  unfoldable pub sub_usage : SubCommand E R W → Text
  sub_usage sc = if is_empty sc.args_usage then sc.name else sc.name ++ (codes " " ++ sc.args_usage)

  unfoldable pub effective_usage : Definition E R W → Text
  unfolding join_bar sub_usage
  effective_usage d =
      if is_empty d.sub_commands
      then d.usage
      else codes "/"
        ++ (d.name ++ (codes " [" ++ (join_bar (map sub_usage d.sub_commands) ++ codes "]")))

  -- A call of a handler, or passthrough where there is none.
  unfoldable pub run_handler :
      Option (Handler E R W) → Text → Request E R W → R → W → ExecuteResult E × W
  run_handler none command req rt w =
      (record { outcome = passthrough; command = command; err = none }, w)
  run_handler (some h) command req rt w =
      let (err, w') = h req rt w in (record { outcome = handled; command = command; err = err }, w')

  unfoldable pub find_sub : Text → List (SubCommand E R W) → Option (SubCommand E R W)
  unfolding normalize_command_name
  find_sub normalized [] = none
  find_sub normalized (sc ∷ scs) =
      let rest = find_sub normalized scs in
      if text_eq (normalize_command_name sc.name) normalized then some sc else rest

  -- A reply of the executor itself.
  unfoldable pub answer : Text → Definition E R W → Request E R W → W → ExecuteResult E × W
  unfolding reply_or_none
  answer text d req w =
      let (err, w') = reply_or_none req.reply text w in
      (record { outcome = handled; command = d.name; err = err }, w')

  unfoldable pub execute_definition : Request E R W → Definition E R W → R → W → ExecuteResult E × W
  unfolding run_handler find_sub answer effective_usage reply_or_none nth_token
  execute_definition req d rt w =
      let req' = record req { reply = some (reply_or_none req.reply) } in
      let sub_name = nth_token req.text 1 in
      let usage = codes "Usage: " ++ effective_usage d in
      let routed : ExecuteResult E × W =
        elim (find_sub (normalize_command_name sub_name) d.sub_commands) [
          | some sc ↦ run_handler sc.handler d.name req' rt w
          | none ↦ answer (codes "Unknown option: " ++ (sub_name ++ (codes ". " ++ usage))) d req' w
        ] in
      if is_empty d.sub_commands
      then run_handler d.handler d.name req' rt w
      else if is_empty sub_name
      then answer usage d req' w
      else routed

  unfoldable pub dispatch :
      Text → Request E R W → Option (Registry E R W) → R → W → ExecuteResult E × W
  unfolding lookup execute_definition deferred
  dispatch name req none rt w = deferred name w
  dispatch name req (some reg) rt w = elim (lookup reg name) [
    | none ↦ deferred name w
    | some d ↦ execute_definition req d rt w
  ]

  -- A nil executor and a nil registry defer the command.
  unfoldable pub execute_named :
      Option (Executor E R W) → Text → Request E R W → W → ExecuteResult E × W
  unfolding dispatch deferred
  execute_named none name req w = deferred name w
  execute_named (some ex) name req w = dispatch name req ex.reg ex.rt w

  unfoldable pub execute : Option (Executor E R W) → Request E R W → W → ExecuteResult E × W
  unfolding parse_command_name execute_named deferred
  execute e req w = elim (parse_command_name req.text) [
    | none ↦ deferred [] w
    | some name ↦ execute_named e name req w
  ]
