-- ===== src/Tui/Commands.antt =====
-- The command registry of the terminal client, clients/tui/src/commands/registry.ts: registering,
-- finding and parsing. What a command does is a parameter of its type, `toLowerCase` is a parameter.
use rag_chat_cli.Prelude.{
  Bool, true, false, not, List, [], ◌∷◌, ◌++◌, map, any, drop, Option, none, some, get_or, ◌≡◌,
  refl, ap, ◌∙◌, arith, if◌then◌else◌,
}
use rag_chat_cli.Text.{Text, codes, same, starts_with, trim, is_empty, is_space, consed}
use rag_chat_cli.Text.Objects.{lookup, insert, lookup-insert}

pub data Category : Type 0 where
  session chat rag auth config knowledge misc : Category

pub record CommandSpec (Run : Type 0) : Type 0 where
  pub name : Text
  pub aliases : Option (List Text)
  pub description : Text
  pub usage : Option Text
  pub category : Category
  pub run : Run

-- `commands` and `byName`
pub record Registry (Run : Type 0) : Type 0 where
  pub commands : List (CommandSpec Run)
  pub by_name : List (Text × CommandSpec Run)

-- `ParsedCommand`
pub record ParsedCommand (Run : Type 0) : Type 0 where
  pub spec : CommandSpec Run
  pub raw : Text
  pub args : List Text

-- `s.split(/\s+/)`, inside a run of white space or not.
unfoldable pub split_spaces : Bool → Text → List Text
unfolding is_space consed
split_spaces inside [] = [] ∷ []
split_spaces inside (c ∷ s) =
    let skipped = split_spaces true s in
    let word = split_spaces false s in
    if is_space c then (if inside then skipped else [] ∷ skipped) else consed c word

any-lower :
    (to_lower : Text → Text) (x : Text) (names : List Text)
    → any (λ k. same k x) (map to_lower names) ≡ any (λ n. same (to_lower n) x) names
any-lower to_lower x [] = refl
any-lower to_lower x (n ∷ names) = ground (arith, any-lower to_lower x names)

module _ {Run : Type 0} (to_lower : Text → Text) where
  -- The names that a command is registered under.
  abbrev pub keys : CommandSpec Run → List Text
  keys spec = to_lower spec.name ∷ map to_lower (get_or spec.aliases [])

  unfoldable pub set_all :
      CommandSpec Run → List Text → List (Text × CommandSpec Run) → List (Text × CommandSpec Run)
  set_all spec [] m = m
  set_all spec (k ∷ ks) m = set_all spec ks (insert k spec m)

  unfoldable pub register_command : CommandSpec Run → Registry Run → Registry Run
  unfolding set_all
  register_command spec r = record {
    commands = r.commands ++ (spec ∷ []);
    by_name = set_all spec (keys spec) r.by_name;
  }

  unfoldable pub find_command : Text → Registry Run → Option (CommandSpec Run)
  find_command name r = lookup (to_lower name) r.by_name

  parsed : Text → List Text → Registry Run → Option (ParsedCommand Run)
  unfolding find_command
  parsed raw [] r = none
  parsed raw (name ∷ args) r = if is_empty name then none else elim (find_command name r) [
    | none ↦ none
    | some spec ↦ some (record { spec = spec; raw = raw; args = args })
  ]

  unfoldable pub parse_command : Text → Registry Run → Option (ParsedCommand Run)
  unfolding parsed split_spaces
  parse_command raw r =
      let trimmed = trim (drop 1 raw) in
      if not (starts_with raw (codes "/"))
      then none
      else if is_empty trimmed
      then none
      else parsed raw (split_spaces false trimmed) r

  lookup-set_all :
      (name : Text) (spec : CommandSpec Run) (ks : List Text) (m : List (Text × CommandSpec Run))
      → lookup name (set_all spec ks m)
        ≡ (if any (λ k. same k name) ks then some spec else lookup name m)
  unfolding set_all
  lookup-set_all name spec [] m = refl
  lookup-set_all name spec (k ∷ ks) m =
      lookup-set_all name spec ks (insert k spec m)
      ∙ rw (lookup-insert k name spec m) (ground arith)

  -- After a command is registered, it is what is found under a name whose lower case is that of the
  -- command's name or of one of its aliases, and any other name finds what it found before.
  pub find_command-register_command :
      (name : Text) (spec : CommandSpec Run) (r : Registry Run)
      → find_command name (register_command spec r) ≡ (
          if any (λ n. same (to_lower n) (to_lower name)) (spec.name ∷ get_or spec.aliases [])
          then some spec
          else find_command name r)
  unfolding find_command register_command
  find_command-register_command name spec r =
      lookup-set_all (to_lower name) spec (keys spec) r.by_name
      ∙ ap (λ t. if t then some spec else lookup (to_lower name) r.by_name)
          (any-lower to_lower (to_lower name) (spec.name ∷ get_or spec.aliases []))
