-- ===== src/Tests/Web/Codec.antt =====
-- A codec of JSON values for the tests: a postfix notation, read with a stack.
use rag_chat_cli.Prelude.{
  ℕ, true, false, ◌+◌, ◌-◌, List, [], ◌∷◌, ◌++◌, Option, none, some, ◌==◌, leb, ◌≡◌, refl, ap, ◌∙◌,
  arith, if◌then◌else◌,
}
use rag_chat_cli.Text.{Text}
use rag_chat_cli.Web.Api.{
  Json, null, boolean, number, string, array, object, Items, no_items, item, Members, no_members,
  member,
}

data Entry : Type 0 where
  text : Text → Entry
  value : Json → Entry
  values : Items → Entry
  members : Members → Entry

data Op : Type 0 where
  unit : ℕ → Op
  push_null : Op
  push_text : Op
  push_true : Op
  push_false : Op
  make_number : Op
  make_string : Op
  make_array : Op
  make_object : Op
  push_items : Op
  add_item : Op
  push_members : Op
  add_member : Op

op_of : ℕ → Op
op_of k =
    if leb 12 k
    then unit (k - 12)
    else if k == 0
    then push_null
    else if k == 1
    then push_text
    else if k == 2
    then push_true
    else if k == 3
    then push_false
    else if k == 4
    then make_number
    else if k == 5
    then make_string
    else if k == 6
    then make_array
    else if k == 7
    then make_object
    else if k == 8
    then push_items
    else if k == 9
    then add_item
    else if k == 10
    then push_members
    else add_member

applied : Op → List Entry → List Entry
applied (unit c) (text t ∷ st) = text (c ∷ t) ∷ st
applied push_null st = value null ∷ st
applied push_text st = text [] ∷ st
applied push_true st = value (boolean true) ∷ st
applied push_false st = value (boolean false) ∷ st
applied make_number (text t ∷ st) = value (number t) ∷ st
applied make_string (text t ∷ st) = value (string t) ∷ st
applied make_array (values is ∷ st) = value (array is) ∷ st
applied make_object (members ms ∷ st) = value (object ms) ∷ st
applied push_items st = values no_items ∷ st
applied add_item (value j ∷ values is ∷ st) = values (item j is) ∷ st
applied push_members st = members no_members ∷ st
applied add_member (value j ∷ text k ∷ members ms ∷ st) = members (member k j ms) ∷ st
applied op st = st

run : Text → List Entry → List Entry
unfolding applied op_of
run [] st = st
run (k ∷ s) st = run s (applied (op_of k) st)

run-append : (s t : Text) (st : List Entry) → run (s ++ t) st ≡ run t (run s st)
unfolding run
run-append [] t st = refl
run-append (k ∷ s) t st = run-append s t _

op_of-unit : (c : ℕ) → op_of (c + 12) ≡ unit c
unfolding op_of
op_of-unit c = ground arith

write_text : Text → Text
write_text [] = 1 ∷ []
write_text (c ∷ t) = write_text t ++ ((c + 12) ∷ [])

mutual
  unfolding write_text

  pub write_json : Json → Text
  write_json null = 0 ∷ []
  write_json (boolean true) = 2 ∷ []
  write_json (boolean false) = 3 ∷ []
  write_json (number t) = write_text t ++ (4 ∷ [])
  write_json (string t) = write_text t ++ (5 ∷ [])
  write_json (array is) = write_items is ++ (6 ∷ [])
  write_json (object ms) = write_members ms ++ (7 ∷ [])

  write_items : Items → Text
  write_items no_items = 8 ∷ []
  write_items (item j is) = write_items is ++ (write_json j ++ (9 ∷ []))

  write_members : Members → Text
  write_members no_members = 10 ∷ []
  write_members (member k j ms) = write_members ms ++ (write_text k ++ (write_json j ++ (11 ∷ [])))

result : List Entry → Option Json
result (value j ∷ st) = some j
result st = none

pub read_json : Text → Option Json
unfolding run result
read_json s = result (run s [])

run-write_text : (t : Text) (st : List Entry) → run (write_text t) st ≡ text t ∷ st
unfolding run write_text
run-write_text [] st = refl
run-write_text (c ∷ t) st =
    run-append (write_text t) _ st ∙ rw (run-write_text t st, op_of-unit c) refl

mutual
  unfolding run write_json write_items write_members

  run-write_json : (j : Json) (st : List Entry) → run (write_json j) st ≡ value j ∷ st
  run-write_json null st = refl
  run-write_json (boolean true) st = refl
  run-write_json (boolean false) st = refl
  run-write_json (number t) st = run-append (write_text t) _ st ∙ rw (run-write_text t st) refl
  run-write_json (string t) st = run-append (write_text t) _ st ∙ rw (run-write_text t st) refl
  run-write_json (array is) st = run-append (write_items is) _ st ∙ rw (run-write_items is st) refl
  run-write_json (object ms) st =
      run-append (write_members ms) _ st ∙ rw (run-write_members ms st) refl

  run-write_items : (is : Items) (st : List Entry) → run (write_items is) st ≡ values is ∷ st
  run-write_items no_items st = refl
  run-write_items (item j is) st =
      run-append (write_items is) _ st
      ∙ rw (run-write_items is st)
          (run-append (write_json j) _ _ ∙ rw (run-write_json j (values is ∷ st)) refl)

  run-write_members : (ms : Members) (st : List Entry) → run (write_members ms) st ≡ members ms ∷ st
  run-write_members no_members st = refl
  run-write_members (member k j ms) st =
      run-append (write_members ms) _ st
      ∙ rw (run-write_members ms st) (
          run-append (write_text k) _ _
          ∙ rw (run-write_text k (members ms ∷ st)) (
              run-append (write_json j) _ _
              ∙ rw (run-write_json j (text k ∷ members ms ∷ st)) refl))

pub read_json-write_json : (j : Json) → read_json (write_json j) ≡ some j
unfolding read_json
read_json-write_json j = ap result (run-write_json j [])
