-- ===== src/Space/Service.antt =====
-- internal/space/service.go: what Create calls; Create may be repeated with one key.
use my_kb.Prelude.{
  ℕ, Bool, false, ◌||◌, ◌&&◌, not, String, ◌==◌, ◌=ℕ=◌, Option, none, some, if◌then◌else◌,
}
use my_kb.Result.{Result, ok, err, Exec}
use my_kb.Http.{Headers, UpstreamErr, rejected, unreachable}
use my_kb.Profile as Profiles
use my_kb.Profile.{Profile, ProductMode, AccessPolicy}
use my_kb.Preset.{EffectiveConfig, Definition, build, for_type, UpstreamRequest}
use my_kb.Space.Inputs.{CreateInput, Err, Normalized}
use my_kb.Space.Requests as Requests
use my_kb.Space.Requests.{Request, pending}

-- weknora.KnowledgeBase, the fields that Create reads.
pub record KnowledgeBase : Type 0 where
  pub id : String
  pub tenant_id : ℕ
  pub creator_id : String
  pub name : String
  pub kind : String
  pub vlm_enabled : Bool
  pub vlm_model_id : String

-- access.Identity
pub record Identity : Type 0 where
  pub user_id : String
  pub tenant_id : ℕ

pub record CreateResult : Type 0 where
  pub knowledge_base_id : String
  pub name : String
  pub product_mode : ProductMode
  pub index_profile : String
  pub knowledge_base_type : String
  pub access_policy : AccessPolicy
  pub created : Bool
  pub reconciled : Bool

-- RequestStore, ProfileStore and Upstream; and the calls of libraries: strings.ToLower,
-- crypto/rand, the SHA-256 of the marshalled input, json.Marshal, and json.Unmarshal followed by
-- json.Marshal.
pub record Stores (S : Type 0) : Type 0 where
  pub claim : Request → Exec S Requests.Err (Request × Bool)
  pub complete : Request → Exec S Requests.Err (Unit {0})
  pub fail_claim : Request → String → Exec S Requests.Err (Unit {0})
  pub create_profile : Profile → Exec S Profiles.Repository.Err Profile
  pub get_profile : String → Exec S Profiles.Repository.Err Profile
  pub get_kb : String → Headers → Exec S UpstreamErr KnowledgeBase
  pub create_kb : UpstreamRequest → Headers → Exec S UpstreamErr KnowledgeBase
  pub to_lower : String → String
  pub new_id : Option String
  pub hash : CreateInput → Option String
  pub encode : EffectiveConfig → Option String
  pub canonical : String → Option String

abbrev pub error : String → ℕ → Err
error code status = record { code = code; status = status }

abbrev pub reconciliation : Err
reconciliation = error "space.reconciliation_conflict" 409

abbrev pub state_unavailable : Err
state_unavailable = error "space.state_unavailable" 503

-- translateUpstreamError
unfoldable pub translate : UpstreamErr → Err
translate (rejected code status) =
    if code == "upstream.not_found" || code == "upstream.forbidden"
    then error "resource.not_found" 404
    else if code == "upstream.unauthorized"
    then error "auth.invalid" 401
    else error "upstream.unavailable" 502
translate unreachable = error "upstream.unavailable" 502

-- The translation of the claim's errors.
unfoldable pub claim_error : Requests.Err → Err
claim_error Requests.Err.conflict = error "request.idempotency_conflict" 409
claim_error Requests.Err.broken = state_unavailable

-- The tests of verifyUpstreamOwnership.
unfoldable pub is_owned : KnowledgeBase → Request → CreateInput → Bool
is_owned kb r i =
    kb.id == r.upstream_kb_id
    && kb.tenant_id =ℕ= r.tenant_id
    && kb.creator_id == r.owner_user_id
    && kb.name == i.name
    && kb.kind == i.knowledge_base_type

unfoldable pub has_vision : KnowledgeBase → CreateInput → Bool
has_vision kb i =
    not (i.knowledge_base_type == "document")
    || i.vlm_model_id == ""
    || (kb.vlm_enabled && kb.vlm_model_id == i.vlm_model_id)

-- jsonEqual
unfoldable pub json_equal : (String → Option String) → String → String → Bool
json_equal canonical a b = elim (canonical a) [
  | none ↦ false
  | some x ↦ elim (canonical b) [ none ↦ false | some y ↦ x == y ]
]

unfoldable pub found_kb : Result UpstreamErr KnowledgeBase → Result Err (Option KnowledgeBase)
found_kb (ok kb) = ok (some kb)
found_kb (err (rejected code status)) =
    if code == "upstream.not_found" then ok none else err (translate (rejected code status))
found_kb (err unreachable) = err (translate unreachable)

-- The error of the preset, and the preset.
unfoldable pub preset_for : Normalized → Option Definition
preset_for n =
    elim (build n.mode (record {
      embedding_model_id = n.input.embedding_model_id;
      summary_model_id = n.input.summary_model_id;
      rerank_model_id = n.input.rerank_model_id;
      vlm_model_id = n.input.vlm_model_id;
    })) [ none ↦ none | some d ↦ for_type d n.input.knowledge_base_type ]
