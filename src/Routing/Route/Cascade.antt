-- ===== src/Routing/Route/Cascade.antt =====
-- The cascade refines a table of rules.
use ebiclaw.Prelude.{
  ◌≡◌, Bool, true, false, ◌&&◌, not, Option, none, some, List, [], ◌∷◌, if◌then◌else◌, is_empty,
  refl, fun_ext, ap, sym, ◌∙◌, Bool-cases, inl, inr, arith,
}
use ebiclaw.Strings.{Text, codes, text_eq, trim_space, to_lower}
use ebiclaw.Routing.AgentId.{normalize_account_id}
use ebiclaw.Routing.SessionKey.{RoutePeer}
use ebiclaw.Routing.Route.{
  AgentBinding, AgentConfig, Config, RouteInput, in_channel, filter_bindings, first_binding,
  matches_peer, find_peer_match, find_guild_match, find_team_match, find_account_match,
  find_channel_wildcard_match, is_narrow, peer_match, select, or_next, choose, resolve_route,
  resolve_default_agent_id,
}

-- A rule: the tag that it reports, and the bindings that it accepts.
abbrev pub Rule : Type 0
Rule = Text × (AgentBinding → Bool)

abbrev for_peer : Option RoutePeer → AgentBinding → Bool
for_peer none b = false
for_peer (some p) b = not (is_empty (trim_space p.id)) && matches_peer p b.match.peer

-- A text of the binding that is given and equals the text of the input.
abbrev for_text : Text → Text → Bool
for_text given wanted =
    not (is_empty (trim_space given)) && text_eq (trim_space given) (trim_space wanted)

abbrev is_wildcard : AgentBinding → Bool
is_wildcard b = text_eq (trim_space b.match.account_id) (codes "*")

-- The six rules over bindings, the strongest first.
abbrev pub rules : RouteInput → List Rule
rules input =
    (codes "binding.peer", λ b. for_peer input.peer b)
    ∷ (codes "binding.peer.parent", λ b. for_peer input.parent_peer b)
    ∷ (codes "binding.guild", λ b. for_text b.match.guild_id input.guild_id)
    ∷ (codes "binding.team", λ b. for_text b.match.team_id input.team_id)
    ∷ (codes "binding.account", λ b. not (is_wildcard b) && not (is_narrow b))
    ∷ (codes "binding.channel", λ b. is_wildcard b && not (is_narrow b))
    ∷ []

-- The first rule that accepts a binding of the channel and account, with its first such binding.
abbrev pub first_rule :
    (AgentBinding → Bool) → List AgentBinding → List Rule → Text × Text → Text × Text
first_rule here bindings [] default = default
first_rule here bindings ((tag, accepts) ∷ rs) default =
    or_next (first_binding (λ b. here b && accepts b) bindings) tag
      (first_rule here bindings rs default)

first_binding-filter :
    (test : AgentBinding → Bool) (channel account : Text) (bs : List AgentBinding)
    → first_binding test (filter_bindings channel account bs)
      ≡ first_binding (λ b. in_channel channel account b && test b) bs
unfolding first_binding filter_bindings
first_binding-filter test channel account [] = refl
first_binding-filter test channel account (b ∷ bs) =
    elim (Bool-cases (in_channel channel account b)) [
      | inl e ↦ rw (e, first_binding-filter test channel account bs) refl
      | inr e ↦ rw e (first_binding-filter test channel account bs)
    ]

first_binding_ext :
    (f g : AgentBinding → Bool) (bs : List AgentBinding)
    → ((b : AgentBinding) → f b ≡ g b)
    → first_binding f bs ≡ first_binding g bs
first_binding_ext f g bs h = ap (λ (t : AgentBinding → Bool). first_binding t bs) (fun_ext h)

first_binding-none :
    (f : AgentBinding → Bool) (bs : List AgentBinding)
    → ((b : AgentBinding) → f b ≡ false)
    → first_binding f bs ≡ none
unfolding first_binding
first_binding-none f [] h = refl
first_binding-none f (b ∷ bs) h = rw (h b) (first_binding-none f bs h)

&&-false : (a : Bool) → (a && false) ≡ false
&&-false true = refl
&&-false false = refl

module _ (channel account : Text) (bs : List AgentBinding) where
  abbrev here : AgentBinding → Bool
  here b = in_channel channel account b

  abbrev kept : List AgentBinding
  kept = filter_bindings channel account bs

  peer_rule :
      (o : Option RoutePeer) → peer_match kept o ≡ first_binding (λ b. here b && for_peer o b) bs
  unfolding peer_match find_peer_match
  peer_rule none = sym (first_binding-none (λ b. here b && false) bs (λ b. &&-false (here b)))
  peer_rule (some p) = elim (Bool-cases (is_empty (trim_space p.id))) [
    | inl e ↦ rw e (sym (first_binding-none (λ b. here b && false) bs (λ b. &&-false (here b))))
    | inr e ↦ rw e (first_binding-filter (λ b. matches_peer p b.match.peer) channel account bs)
  ]

  -- The guard on an empty text of the input is covered by the guard on the binding's.
  for_text_empty :
      (given wanted : Text) → is_empty (trim_space wanted) ≡ true → for_text given wanted ≡ false
  unfolding text_eq
  for_text_empty given wanted e = both_empty (trim_space given) (trim_space wanted) e
    where
      both_empty : (s t : Text) → is_empty t ≡ true → (not (is_empty s) && text_eq s t) ≡ false
      both_empty [] t h = refl
      both_empty (c ∷ s) [] h = refl
      both_empty (c ∷ s) (d ∷ t) h = cc

  text_rule :
      (field : AgentBinding → Text) (wanted : Text)
      → (if is_empty (trim_space wanted)
          then none
          else first_binding
              (λ b.
                not (is_empty (trim_space (field b)))
                && text_eq (trim_space (field b)) (trim_space wanted))
              kept)
        ≡ first_binding (λ b. here b && for_text (field b) wanted) bs
  text_rule field wanted = elim (Bool-cases (is_empty (trim_space wanted))) [
    | inl e ↦ rw e (
        sym (
          first_binding-none (λ b. here b && for_text (field b) wanted) bs
            (λ b.
              ap (λ (t : Bool). here b && t) (for_text_empty (field b) wanted e)
              ∙ &&-false (here b))))
    | inr e ↦ rw e (first_binding-filter (λ b. for_text (field b) wanted) channel account bs)
  ]

  account_rule :
      find_account_match kept
      ≡ first_binding (λ b. here b && (not (is_wildcard b) && not (is_narrow b))) bs
  unfolding find_account_match
  account_rule =
      first_binding_ext
        (λ b.
          if text_eq (trim_space b.match.account_id) (codes "*") then false else not (is_narrow b))
        (λ b. not (is_wildcard b) && not (is_narrow b)) kept (λ b. ground arith)
      ∙ first_binding-filter (λ b. not (is_wildcard b) && not (is_narrow b)) channel account bs

  channel_rule :
      find_channel_wildcard_match kept
      ≡ first_binding (λ b. here b && (is_wildcard b && not (is_narrow b))) bs
  unfolding find_channel_wildcard_match
  channel_rule =
      first_binding_ext
        (λ b.
          if not (text_eq (trim_space b.match.account_id) (codes "*"))
          then false
          else not (is_narrow b))
        (λ b. is_wildcard b && not (is_narrow b)) kept (λ b. ground arith)
      ∙ first_binding-filter (λ b. is_wildcard b && not (is_narrow b)) channel account bs

  select-first_rule :
      (agents : List AgentConfig) (input : RouteInput)
      → select agents kept input
        ≡ first_rule here bs (rules input) (resolve_default_agent_id agents, codes "default")
  unfolding select find_guild_match find_team_match
  select-first_rule agents input =
      rw
        (
          peer_rule input.peer,
          peer_rule input.parent_peer,
          text_rule (λ b. b.match.guild_id) input.guild_id,
          text_rule (λ b. b.match.team_id) input.team_id,
          account_rule,
          channel_rule,
        )
        refl

-- ResolveRoute chooses by a table: of the bindings of the whole configuration that fit the channel
-- and the account, it takes the first one that the strongest satisfiable of the six rules accepts,
-- and with no such binding the default agent; what it reports as matched is that rule's tag.
pub resolve_route-first_rule :
    (cfg : Config) (input : RouteInput)
    → let channel = to_lower (trim_space input.channel) in
      let account_id = normalize_account_id input.account_id in
      let (agent_id, matched_by) =
        first_rule
          (in_channel channel account_id)
          cfg.bindings
          (rules input)
          (resolve_default_agent_id cfg.agents, codes "default") in
      resolve_route cfg input ≡ choose cfg input channel account_id agent_id matched_by
unfolding resolve_route
resolve_route-first_rule cfg input =
    let channel = to_lower (trim_space input.channel) in
    let account_id = normalize_account_id input.account_id in
    ap (λ (p : Text × Text). choose cfg input channel account_id p.0 p.1)
      (select-first_rule channel account_id cfg.bindings cfg.agents input)
