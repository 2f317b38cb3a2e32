-- ===== src/Web/Chat/Refetch.antt =====
-- What follows a stream that was read to its end: the persisted messages are fetched again, and their
-- ids are adopted by the messages on screen. A fetch that fails changes nothing.
use rag_chat_cli.Prelude.{
  Bool, true, false, not, ◌&&◌, List, [], ◌∷◌, any, reverse, Option, none, some, get_or,
  if◌then◌else◌,
}
use rag_chat_cli.Text.{Text, same}
use rag_chat_cli.Wire.{MessageRole, MessageOut}
use rag_chat_cli.Web.Chat.Message.{Role, user, assistant, UiMessage, is_given}
use rag_chat_cli.Web.Chat.Store.{ChatStore, is_session}

abbrev pub is_persisted : UiMessage → Bool
is_persisted m = get_or m.persisted false

abbrev pub is_user : Role → Bool
is_user user = true
is_user assistant = false

abbrev pub comes_from_user : MessageRole → Bool
comes_from_user MessageRole.user = true
comes_from_user _ = false

abbrev pub comes_from_assistant : MessageRole → Bool
comes_from_assistant MessageRole.assistant = true
comes_from_assistant _ = false

-- `knownIds.has(id)`
abbrev pub is_known : List UiMessage → Text → Bool
is_known ms id = any (λ m. is_persisted m && same m.id id) ms

pub record NewIds : Type 0 where
  pub user_id : Option Text
  pub assistant_id : Option Text

abbrev pub no_ids : NewIds
no_ids = record { user_id = none; assistant_id = none }

-- An id that is wanted, if it is of the right role and not known.
abbrev pub pick : Bool → Text → Option Text → Option Text
pick fits id old = if not (is_given old) && fits then some id else old

-- The first loop, over the persisted messages with the newest at the head.
unfoldable pub find_new : List UiMessage → NewIds → List MessageOut → NewIds
find_new ms ids [] = ids
find_new ms ids (p ∷ ps) =
    let fresh = not (is_known ms p.id) in
    let found : NewIds = record {
      user_id = pick (comes_from_user p.role && fresh) p.id ids.user_id;
      assistant_id = pick (comes_from_assistant p.role && fresh) p.id ids.assistant_id;
    } in
    let rest = find_new ms found ps in
    if is_given found.user_id && is_given found.assistant_id then found else rest

abbrev pub adopt_id : UiMessage → Text → UiMessage
adopt_id m id = record m { id = id; persisted = some true }

-- One round of the second loop: the message, and the ids that are left.
unfoldable pub adopt_one : NewIds → UiMessage → UiMessage × NewIds
adopt_one ids m =
    if is_given ids.assistant_id && (not (is_user m.role) && not (is_persisted m))
    then (adopt_id m (get_or ids.assistant_id []), record ids { assistant_id = none })
    else if is_given ids.user_id && (is_user m.role && not (is_persisted m))
    then (adopt_id m (get_or ids.user_id []), record ids { user_id = none })
    else (m, ids)

-- The second loop, over the messages on screen with the newest at the head.
unfoldable pub adopt_from : NewIds → List UiMessage → List UiMessage
adopt_from ids [] = []
adopt_from ids (m ∷ ms) =
    let one = adopt_one ids m in
    let rest = adopt_from one.1 ms in
    one.0 ∷ (if not (is_given one.1.user_id) && not (is_given one.1.assistant_id) then ms else rest)

unfoldable pub adopt : List MessageOut → List UiMessage → List UiMessage
unfolding find_new adopt_one adopt_from
adopt persisted ms = reverse (adopt_from (find_new ms no_ids (reverse persisted)) (reverse ms))

-- The refetch, `none` if it failed; another session may be shown by then.
unfoldable pub refetched : Text → Option (List MessageOut) → ChatStore → ChatStore
unfolding adopt
refetched sid none s = s
refetched sid (some persisted) s =
    if is_session sid s.session_id then record s { messages = adopt persisted s.messages } else s
