-- ===== src/Tui/Api/Calls.antt =====
-- The methods of `ApiClient` of clients/tui/src/api/client.ts that ask for JSON, as the path, method and
-- body that they give to `request`. `encodeURIComponent` is a parameter; streams are left out.
use rag_chat_cli.Prelude.{ℕ, ◌++◌, Option, none, some, get_or}
use rag_chat_cli.Text.{Text, codes}
use rag_chat_cli.Text.Decimal.{decimal}
use rag_chat_cli.Web.Api.{Json, null, string, object, no_members, member}

-- `title ?? null`
abbrev pub nullable : Option Text → Json
nullable none = null
nullable (some t) = string t

pub record Asking : Type 0 where
  pub path : Text
  pub method : Option Text
  pub body : Option Json

pub data Call : Type 0 where
  list_sessions : Call
  create_session : (title : Option Text) → Call
  update_session : (session_id : Text) → (body : Json) → Call
  delete_session : (session_id : Text) → Call
  get_messages : (session_id : Text) → Call
  edit_message : (message_id : Text) → (content : Text) → Call
  delete_message : (message_id : Text) → Call
  get_evaluation : (message_id : Text) → Call
  evaluate_message : (message_id : Text) → Call
  list_documents : (page : ℕ) → (size : ℕ) → Call
  get_document : (document_id : Text) → Call
  create_document : (title : Option Text) → (source : Option Text) → (body : Text) → Call
  update_document : (document_id : Text) → (body : Json) → Call
  delete_document : (document_id : Text) → Call
  reindex_documents : Call
  search_knowledge : (q : Text) → (top_k : ℕ) → Call
  list_providers : Call
  create_provider : (body : Json) → Call
  update_provider : (provider_id : Text) → (body : Json) → Call
  delete_provider : (provider_id : Text) → Call
  list_provider_models : (provider_id : Text) → Call
  delete_provider_model : (provider_id : Text) → (model : Text) → Call
  test_provider : (body : Json) → Call
  get_preferences : Call
  put_preferences : (body : Json) → Call

module _ (encode : Text → Text) where
  unfoldable pub asking : Call → Asking
  unfolding decimal
  asking list_sessions = record { path = codes "/chat/sessions"; method = none; body = none }
  asking (create_session title) = record {
    path = codes "/chat/sessions";
    method = some (codes "POST");
    body = some (object (member (codes "title") (nullable title) no_members));
  }
  asking (update_session session_id body) = record {
    path = codes "/chat/sessions/" ++ session_id;
    method = some (codes "PATCH");
    body = some body;
  }
  asking (delete_session session_id) = record {
    path = codes "/chat/sessions/" ++ session_id;
    method = some (codes "DELETE");
    body = none;
  }
  asking (get_messages session_id) = record {
    path = codes "/chat/sessions/" ++ (session_id ++ codes "/messages");
    method = none;
    body = none;
  }
  asking (edit_message message_id content) = record {
    path = codes "/chat/messages/" ++ message_id;
    method = some (codes "PATCH");
    body = some (object (member (codes "content") (string content) no_members));
  }
  asking (delete_message message_id) = record {
    path = codes "/chat/messages/" ++ message_id;
    method = some (codes "DELETE");
    body = none;
  }
  asking (get_evaluation message_id) = record {
    path = codes "/chat/messages/" ++ (message_id ++ codes "/evaluation");
    method = none;
    body = none;
  }
  asking (evaluate_message message_id) = record {
    path = codes "/chat/messages/" ++ (message_id ++ codes "/evaluation");
    method = some (codes "POST");
    body = none;
  }
  asking (list_documents page size) = record {
    path = codes "/knowledge/documents?page=" ++ (decimal page ++ (codes "&size=" ++ decimal size));
    method = none;
    body = none;
  }
  asking (get_document document_id) = record {
    path = codes "/knowledge/documents/" ++ document_id;
    method = none;
    body = none;
  }
  asking (create_document title source body) = record {
    path = codes "/knowledge/documents";
    method = some (codes "POST");
    body = some (
        object (
          member (codes "title") (string (get_or title (codes "Untitled"))) (
            member (codes "source") (string (get_or source (codes "cli-upload")))
              (member (codes "body") (string body) no_members))));
  }
  asking (update_document document_id body) = record {
    path = codes "/knowledge/documents/" ++ document_id;
    method = some (codes "PATCH");
    body = some body;
  }
  asking (delete_document document_id) = record {
    path = codes "/knowledge/documents/" ++ document_id;
    method = some (codes "DELETE");
    body = none;
  }
  asking reindex_documents = record {
    path = codes "/knowledge/documents:reindex";
    method = some (codes "POST");
    body = none;
  }
  asking (search_knowledge q top_k) = record {
    path = codes "/knowledge/search?q=" ++ (encode q ++ (codes "&top_k=" ++ decimal top_k));
    method = none;
    body = none;
  }
  asking list_providers = record { path = codes "/providers"; method = none; body = none }
  asking (create_provider body) = record {
    path = codes "/providers";
    method = some (codes "POST");
    body = some body;
  }
  asking (update_provider provider_id body) = record {
    path = codes "/providers/" ++ provider_id;
    method = some (codes "PATCH");
    body = some body;
  }
  asking (delete_provider provider_id) = record {
    path = codes "/providers/" ++ provider_id;
    method = some (codes "DELETE");
    body = none;
  }
  asking (list_provider_models provider_id) = record {
    path = codes "/providers/" ++ (provider_id ++ codes "/models");
    method = none;
    body = none;
  }
  asking (delete_provider_model provider_id model) = record {
    path = codes "/providers/" ++ (provider_id ++ codes "/models/delete");
    method = some (codes "POST");
    body = some (object (member (codes "model") (string model) no_members));
  }
  asking (test_provider body) = record {
    path = codes "/providers/test";
    method = some (codes "POST");
    body = some body;
  }
  asking get_preferences = record { path = codes "/me/preferences"; method = none; body = none }
  asking (put_preferences body) = record {
    path = codes "/me/preferences";
    method = some (codes "PUT");
    body = some body;
  }
