-- ===== src/NativeAccess/Scope/Values.antt =====
-- internal/nativeaccess/scope.go, agent.go and agent_capabilities.go: ids, and what is read from the
-- answers of the upstream.
use my_kb.Prelude.{
  ℕ, Bool, true, false, ◌&&◌, ◌||◌, not, String, ◌==◌, ◌=ℕ=◌, leb, Option, none, some, List, [],
  ◌∷◌, any, member, length, len, order_by, if◌then◌else◌,
}
use my_kb.Result.{Result, ok, err}
use my_kb.Text.{at_most, contains, first_of_each}
use my_kb.Http.{Headers}
use my_kb.Json.{Json, number, Fields, get, as_object, as_text, is_true, is_text, strings_value}
use my_kb.NativeAccess.{Err, refused, upstream}

-- The upstream's answer, decoded: `none` where it is no such envelope.
pub record Envelope : Type 0 where
  pub success : Bool
  pub content : Json

abbrev pub invalid_response : Err
invalid_response = refused 502 "upstream.invalid_response"

-- validID
unfoldable pub valid_id : String → Bool
valid_id id =
    not (id == "")
    && leb (len id) 128
    && not (
        contains id "/"
        || contains id "?"
        || contains id "#"
        || contains id "\\"
        || contains id "\0")
    && not (id == ".")
    && not (id == "..")

-- unique
unfoldable pub unique : List String → List String
unique ids = order_by at_most (first_of_each [] ids)

-- subset
unfoldable pub subset : List String → List String → Bool
subset [] allowed = true
subset (id ∷ ids) allowed = member id allowed && subset ids allowed

-- The envelope's test.
unfoldable pub content_of : Option Envelope → Result Err Json
content_of none = err invalid_response
content_of (some e) = if e.success then ok e.content else err invalid_response

unfoldable pub or_invalid : {A : Type 0} → Option A → Result Err A
or_invalid none = err invalid_response
or_invalid (some a) = ok a

-- The two statements of the loop of listIDs that pick the object and its id.
listed_object : Fields → Fields
listed_object fs = elim (as_object (get "knowledge_base" fs)) [ none ↦ fs | some nested ↦ nested ]

listed_id : Json → Result Err String
unfolding listed_object
listed_id row = elim (as_object row) [
  | none ↦ err invalid_response
  | some fs ↦ elim (as_text (get "id" (listed_object fs))) [
    | none ↦ err invalid_response
    | some id ↦ if valid_id id then ok id else err invalid_response
  ]
]

-- The loop of listIDs.
unfoldable pub listed_ids : List Json → Result Err (List String)
unfolding listed_id
listed_ids [] = ok []
listed_ids (row ∷ rows) =
    let rest = listed_ids rows in
    elim (listed_id row) [
      | err e ↦ err e
      | ok id ↦ elim rest [ err e ↦ err e | ok ids ↦ ok (id ∷ ids) ]
    ]

-- upstreamDenied
unfoldable pub upstream_denied : Err → Bool
upstream_denied (upstream status code) = status =ℕ= 403 || status =ℕ= 404
upstream_denied _ = false

-- The test of Defaults on the error of the shared list.
unfoldable pub unlisted : Headers → Err → Bool
unlisted h (upstream status code) = not (h.api_key == "") && status =ℕ= 403
unlisted h _ = false

unfoldable pub is_missing : Err → Bool
is_missing (upstream status code) = status =ℕ= 404
is_missing _ = false

rag_tool : String → Bool
rag_tool t = member t (
    "knowledge_search" ∷ "grep_chunks" ∷ "list_knowledge_chunks" ∷ "query_knowledge_graph"
    ∷ "get_document_info" ∷ "database_query" ∷ "data_analysis" ∷ "data_schema" ∷ [])

wiki_tool : String → Bool
wiki_tool t = member t (
    "wiki_search" ∷ "wiki_read_page" ∷ "wiki_read_source_doc" ∷ "wiki_flag_issue"
    ∷ "wiki_write_page" ∷ "wiki_replace_text" ∷ "wiki_rename_page" ∷ "wiki_delete_page"
    ∷ "wiki_read_issue" ∷ "wiki_update_issue" ∷ [])

-- What the capabilities of one knowledge base say, in the loop of compatible.
unfoldable pub serves : Bool → Bool → Json → Result Err Bool
serves rag wiki value = elim (as_object value) [
  | none ↦ err invalid_response
  | some kb ↦ elim (as_object (get "capabilities" kb)) [
    | none ↦ err (refused 502 "upstream.capabilities_missing")
    | some caps ↦ ok (
        rag && (is_true (get "vector" caps) || is_true (get "keyword" caps))
        || wiki && is_true (get "wiki" caps))
  ]
]

unfoldable pub uint_value : (String → ℕ) → Json → ℕ
uint_value parse (number s) = parse s
uint_value parse _ = 0

-- One round of the loop of agent over the shared agents; the selected agent is kept.
unfoldable pub select_agent :
    (String → ℕ) → String → Json → Option Fields → Result Err (Option Fields)
unfolding uint_value
select_agent parse id row selected = elim (as_object row) [
  | none ↦ ok selected
  | some share ↦ elim (as_object (get "agent" share)) [
    | none ↦ ok selected
    | some agent ↦
        let tenant = uint_value parse (get "source_tenant_id" share) in
        if not (is_text id (get "id" agent))
        then ok selected
        else if tenant =ℕ= 0 || not (tenant =ℕ= uint_value parse (get "tenant_id" agent))
        then err invalid_response
        else elim selected [
          | none ↦ ok (some agent)
          | some chosen ↦
              if not (uint_value parse (get "tenant_id" chosen) =ℕ= tenant)
              then err (refused 409 "agent.source_ambiguous")
              else ok (some agent)
        ]
  ]
]

unfoldable pub select_agents :
    (String → ℕ) → String → List Json → Option Fields → Result Err (Option Fields)
select_agents parse id [] selected = ok selected
select_agents parse id (row ∷ rows) selected = elim (select_agent parse id row selected) [
  | err e ↦ err e
  | ok s ↦ select_agents parse id rows s
]

-- The tests of Resolve on the agent's configuration.
unfoldable pub config_error : Fields → Option Err
config_error config =
    let tools = strings_value (get "allowed_tools" config) in
    if is_true (get "memory_enabled" config)
    then some (refused 403 "feature.disabled")
    else if is_text "quick-answer" (get "agent_mode" config)
    then none
    else if length tools =ℕ= 0
    then some (refused 409 "agent.tools_scope_unavailable")
    else if member "search_conversations" tools
    then some (refused 409 "history.vector_scope_unavailable")
    else none

-- `mode, _ := config["kb_selection_mode"].(string)`
unfoldable pub selection_mode : Fields → String
selection_mode config = elim (as_text (get "kb_selection_mode" config)) [ none ↦ "" | some m ↦ m ]

unfoldable pub any_tool : (String → Bool) → Fields → Bool
any_tool p config = any p (strings_value (get "allowed_tools" config))

unfoldable pub needs_rag : Fields → Bool
unfolding rag_tool any_tool
needs_rag config = is_text "quick-answer" (get "agent_mode" config) || any_tool rag_tool config

unfoldable pub needs_wiki : Fields → Bool
unfolding wiki_tool any_tool
needs_wiki config = any_tool wiki_tool config
