-- ===== src/Tests/Tui/Texts.antt =====
-- Formatters and commands of the terminal client at concrete inputs.
use rag_chat_cli.Prelude.{
  false, ℕ, ◌+◌, ◌&&◌, leb, map, [], ◌∷◌, none, some, ◌≡◌, refl, if◌then◌else◌,
}
use rag_chat_cli.Text.{Text, codes, is_space, same}
use rag_chat_cli.Text.Decimal.{decimal}
use rag_chat_cli.Tui.Format.{truncate, format_duration}
use rag_chat_cli.Tui.Commands.{
  CommandSpec, session, Registry, register_command, find_command, split_spaces,
  find_command-register_command,
}

truncate_test : truncate (codes "rag chat") 5 ≡ codes "rag …"
unfolding truncate
truncate_test = refl

-- Half a second before two minutes are shown as sixty seconds behind one minute.
format_duration_test : format_duration (λ ms. []) (some 119500) ≡ codes "1m60s"
unfolding format_duration decimal
format_duration_test = refl

-- `toLowerCase` of ASCII texts.
abbrev lower_unit : ℕ → ℕ
lower_unit c = if leb b'A' c && leb c b'Z' then c + 32 else c

abbrev to_lower : Text → Text
to_lower t = map lower_unit t

abbrev list : CommandSpec ℕ
list = record {
  name = codes "Sessions";
  aliases = some (codes "ls" ∷ []);
  description = [];
  usage = none;
  category = session;
  run = 1;
}

abbrev empty : Registry ℕ
empty = record { commands = []; by_name = [] }

find_command-register_command_example :
    find_command to_lower (codes "LS") (register_command to_lower list empty) ≡ some list
unfolding same
find_command-register_command_example =
    find_command-register_command to_lower (codes "LS") list empty

-- The words of a command, as `parseCommand` splits it.
split_spaces_test : split_spaces false (codes "ls  a b") ≡ codes "ls" ∷ codes "a" ∷ codes "b" ∷ []
unfolding split_spaces is_space
split_spaces_test = refl
