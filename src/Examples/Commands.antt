-- ===== src/Examples/Commands.antt =====
-- pkg/commands: one command with an alias, over a world that counts the calls.
use ebiclaw.Prelude.{ℕ, suc, ◌≡◌, false, Option, none, some, [], ◌∷◌, if◌then◌else◌, is_empty, refl}
use ebiclaw.Strings.{Text, codes, trim_space, text_eq, to_lower, lower_rune}
use ebiclaw.Maps.{get, put}
use ebiclaw.Commands.{
  Request, Definition, Executor, passthrough, has_command_prefix, parse_command_name,
  normalize_command_name, new_registry, lookup, execute,
}
use ebiclaw.Commands.Lookup.{first_claiming, lookup-first_claiming}
use ebiclaw.Commands.Outcomes.{execute-passthrough}

abbrev help : Definition Text Unit ℕ
help = record {
  name = codes "help";
  description = codes "Show help";
  usage = codes "/help";
  aliases = codes "h" ∷ [];
  sub_commands = [];
  handler = some (λ req rt w. (none, suc w));
}

abbrev other : Definition Text Unit ℕ
other = record {
  name = codes "H";
  description = codes "Never found";
  usage = codes "/h";
  aliases = [];
  sub_commands = [];
  handler = none;
}

abbrev executor : Option (Executor Text Unit ℕ)
executor = some (record { reg = some (new_registry (help ∷ other ∷ [])); rt = tt })

abbrev chatter : Request Text Unit ℕ
chatter = record {
  channel = codes "slack";
  chat_id = codes "C1";
  sender_id = codes "U1";
  text = codes "hi";
  reply = none;
}

lookup-first_claiming_example : lookup (new_registry (help ∷ other ∷ [])) (codes " H ") ≡ (
    if is_empty (normalize_command_name (codes " H "))
    then none
    else first_claiming (normalize_command_name (codes " H ")) (help ∷ other ∷ []))
lookup-first_claiming_example = lookup-first_claiming (help ∷ other ∷ []) (codes " H ")

abbrev unknown : Request Text Unit ℕ
unknown = record chatter { text = codes "/nope@bot now" }

unknown_passed : (execute executor unknown 7).0.outcome ≡ passthrough
unfolding execute parse_command_name trim_space text_eq lookup new_registry get put lower_rune
    to_lower
unknown_passed = refl

execute-passthrough_example :
    ((execute executor unknown 7).1 ≡ 7) × ((execute executor unknown 7).0.err ≡ none)
execute-passthrough_example = execute-passthrough executor unknown 7 unknown_passed

chatter_unprefixed : has_command_prefix chatter.text ≡ false
unfolding has_command_prefix trim_space text_eq
chatter_unprefixed = refl
