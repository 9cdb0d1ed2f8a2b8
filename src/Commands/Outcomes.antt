-- ===== src/Commands/Outcomes.antt =====
-- What the executor decides.
use ebiclaw.Prelude.{
  ◌≡◌, true, false, Option, none, some, [], is_empty, refl, sym, ◌∙◌, Bool-cases, Option-cases, inl,
  inr,
}
use ebiclaw.Strings.{Text}
use ebiclaw.Commands.{
  Request, Handler, Definition, Registry, Executor, passthrough, handled, ExecuteResult, nth_token,
  trim_command_prefix, has_command_prefix, named_by, parse_command_name, normalize_command_name,
  lookup, run_handler, find_sub, answer, execute_definition, deferred, dispatch, execute_named,
  execute,
}

-- Where the command is left to the agent, nothing was done: the world is as before.
pub record IsQuiet {E W : Type 0} (w : W) (r : ExecuteResult E × W) : Type 0 where
  pub quiet : r.0.outcome ≡ passthrough → (r.1 ≡ w) × (r.0.err ≡ none)

handled-IsQuiet :
    {E W : Type 0} (w : W) (r : ExecuteResult E × W) → r.0.outcome ≡ handled → IsQuiet w r
handled-IsQuiet w r h = record { quiet = λ p. absurd (different (sym p ∙ h)) }
  where
    different : ¬ (passthrough ≡ handled)
    different e = cc

deferred-IsQuiet : {E W : Type 0} (name : Text) (w : W) → IsQuiet w (deferred {E = E} name w)
unfolding deferred
deferred-IsQuiet name w = record { quiet = λ p. (refl, refl) }

module _ {E R W : Type 0} where
  run_handler-IsQuiet :
      (h : Option (Handler E R W)) (command : Text) (req : Request E R W) (rt : R) (w : W)
      → IsQuiet w (run_handler h command req rt w)
  unfolding run_handler
  run_handler-IsQuiet none command req rt w = record { quiet = λ p. (refl, refl) }
  run_handler-IsQuiet (some h) command req rt w =
      handled-IsQuiet w (run_handler (some h) command req rt w) refl

  execute_definition-IsQuiet :
      (req : Request E R W) (d : Definition E R W) (rt : R) (w : W)
      → IsQuiet w (execute_definition req d rt w)
  unfolding execute_definition answer
  execute_definition-IsQuiet req d rt w = elim (Bool-cases (is_empty d.sub_commands)) [
    | inl e ↦ rw e (run_handler-IsQuiet d.handler d.name _ rt w)
    | inr e ↦ elim (Bool-cases (is_empty (nth_token req.text 1))) [
      | inl b ↦ rw (e, b) (handled-IsQuiet w _ refl)
      | inr b ↦
          elim (Option-cases
            (find_sub (normalize_command_name (nth_token req.text 1)) d.sub_commands)) [
              | inl n ↦ rw (e, b, n) (handled-IsQuiet w _ refl)
              | inr (sc, f) ↦ rw (e, b, f) (run_handler-IsQuiet sc.handler d.name _ rt w)
            ]
    ]
  ]

  dispatch-IsQuiet :
      (name : Text) (req : Request E R W) (reg : Option (Registry E R W)) (rt : R) (w : W)
      → IsQuiet w (dispatch name req reg rt w)
  unfolding dispatch
  dispatch-IsQuiet name req none rt w = deferred-IsQuiet name w
  dispatch-IsQuiet name req (some reg) rt w = elim (Option-cases (lookup reg name)) [
    | inl n ↦ rw (n, dispatch) (deferred-IsQuiet name w)
    | inr (d, f) ↦ rw (f, dispatch) (execute_definition-IsQuiet req d rt w)
  ]

  execute_named-IsQuiet :
      (e : Option (Executor E R W)) (name : Text) (req : Request E R W) (w : W)
      → IsQuiet w (execute_named e name req w)
  unfolding execute_named
  execute_named-IsQuiet none name req w = deferred-IsQuiet name w
  execute_named-IsQuiet (some ex) name req w = dispatch-IsQuiet name req ex.reg ex.rt w

  execute-IsQuiet :
      (e : Option (Executor E R W)) (req : Request E R W) (w : W) → IsQuiet w (execute e req w)
  unfolding execute
  execute-IsQuiet e req w = elim (Option-cases (parse_command_name req.text)) [
    | inl n ↦ rw (n, execute) (deferred-IsQuiet [] w)
    | inr (name, f) ↦ rw (f, execute) (execute_named-IsQuiet e name req w)
  ]

  -- Whatever the handlers do: an input that Execute passes on to the agent has had no effect, neither
  -- by a handler nor by a reply, and carries no error.
  pub execute-passthrough :
      (e : Option (Executor E R W)) (req : Request E R W) (w : W)
      → (execute e req w).0.outcome ≡ passthrough
      → ((execute e req w).1 ≡ w) × ((execute e req w).0.err ≡ none)
  execute-passthrough e req w h = (execute-IsQuiet e req w).quiet h

  -- An input without a command prefix is passed on with no command, whatever is registered.
  pub execute_unprefixed :
      (e : Option (Executor E R W)) (req : Request E R W) (w : W)
      → has_command_prefix req.text ≡ false
      → execute e req w ≡ (record { outcome = passthrough; command = []; err = none }, w)
  unfolding execute has_command_prefix parse_command_name named_by deferred
  execute_unprefixed e req w h = elim (Option-cases (trim_command_prefix (nth_token req.text 0))) [
    | inl n ↦ rw (n, execute, parse_command_name, named_by, deferred) refl
    | inr (name, f) ↦ absurd (different (sym (prefixed name f) ∙ h))
  ]
    where
      prefixed :
          (name : Text)
          → trim_command_prefix (nth_token req.text 0) ≡ some name
          → has_command_prefix req.text ≡ true
      prefixed name f = rw (f, has_command_prefix) refl

      different : ¬ (true ≡ false)
      different k = cc
