-- ===== src/Scenarios/Creating.antt =====
-- The creation of a knowledge space: a claim, its repetition, and the space that it gives.
use my_kb.Prelude.{◌≡◌, refl, Bool, true, false, String, some, []}
use my_kb.Result.{ok, pure, fail}
use my_kb.Text.{is_blank, trim_space}
use my_kb.Http.{unreachable}
use my_kb.Profile
use my_kb.Profile.{Profile, rag, upstream}
use my_kb.Preset.{Definition, build, for_type}
use my_kb.Preset as Preset
use my_kb.Space.Inputs as Inputs
use my_kb.Space.Inputs.{CreateInput, Normalized, normalize}
use my_kb.Space.Requests as Requests
use my_kb.Space.Requests.{Request, Ledger, pending, claim, same_key}
use my_kb.Space.Requests.Promises.{Calls}
use my_kb.Space.Requests.Agreement.{claims-agree}
use my_kb.Space.Service as Service
use my_kb.Space.Service.{KnowledgeBase, Identity, CreateResult, Stores, preset_for}
use my_kb.Space.Creation as Creation
use my_kb.Space.Creation.{provision, agrees}
use my_kb.Space.Creation.Provision.{Provisioned, provision-Provisioned}
use my_kb.Space.Creation.Presets.{normalize-agrees}
use my_kb.Scenarios.{headers}

abbrev candidate : String → Request
candidate kb = record {
  tenant_id = 7;
  owner_user_id = "alice";
  idempotency_key = "key-0001";
  request_hash = "0123456789012345678901234567890123456789012345678901234567890123";
  upstream_kb_id = kb;
  product_mode = "rag";
  index_profile = "plain";
  status = pending;
  last_error = "";
  created_at = 0;
  updated_at = 0;
}

abbrev fresh : Ledger
fresh = record { requests = []; faults = [] }

abbrev promised : Request
promised = record (candidate "kb1") { created_at = 100; updated_at = 100 }

first_claim : (claim 100 (candidate "kb1") fresh).0 ≡ ok (promised, true)
unfolding claim Requests.bad_request is_blank Requests.transaction Requests.statement
    Requests.finish Requests.claim_request Requests.insert_request Requests.fits
    Requests.read_request same_key Requests.new_request Requests.differs
first_claim = refl

second_claim :
    (claim 200 (candidate "kb2") (claim 100 (candidate "kb1") fresh).1).0 ≡ ok (promised, false)
unfolding claim Requests.bad_request is_blank Requests.transaction Requests.statement
    Requests.finish Requests.claim_request Requests.insert_request Requests.fits
    Requests.read_request same_key Requests.new_request Requests.differs
second_claim = refl

abbrev second_claim_inserted : Bool
second_claim_inserted = false

claims-agree_example :
    (promised.upstream_kb_id ≡ promised.upstream_kb_id)
    × (promised.request_hash ≡ (candidate "kb1").request_hash)
    × ((candidate "kb2").request_hash ≡ (candidate "kb1").request_hash)
    × (second_claim_inserted ≡ false)
unfolding same_key
claims-agree_example =
    claims-agree 100 200 (candidate "kb1") (candidate "kb2") promised promised true false fresh
      (claim 100 (candidate "kb1") fresh).1 first_claim Calls.none_yet refl second_claim

abbrev input : CreateInput
input = record {
  mode = "rag";
  index_profile = "";
  knowledge_base_type = "";
  name = " Plans ";
  description = "";
  embedding_model_id = "e1";
  summary_model_id = "";
  rerank_model_id = "";
  vlm_model_id = "";
  storage_provider = "";
}

abbrev normalized : Normalized
normalized = record {
  input = record input {
    name = "Plans";
    index_profile = "plain";
    knowledge_base_type = "document";
    storage_provider = "local";
  };
  mode = rag;
  index_profile = "plain";
  access_policy = upstream;
}

normalizing : normalize (λ s. s) input ≡ ok normalized
unfolding normalize Inputs.trimmed trim_space Inputs.by_mode Inputs.bad_rag Inputs.rag_space
normalizing = refl

normalize-agrees_example :
    (d : Definition) × (preset_for normalized ≡ some d) × (agrees d normalized ≡ true)
normalize-agrees_example = normalize-agrees (λ s. s) input normalized normalizing

abbrev alice : Identity
alice = record { user_id = "alice"; tenant_id = 7 }

abbrev plans : KnowledgeBase
plans = record {
  id = "kb1";
  tenant_id = 7;
  creator_id = "alice";
  name = "Plans";
  kind = "document";
  vlm_enabled = false;
  vlm_model_id = "";
}

-- The upstream has the knowledge base already, as after a lost answer.
abbrev stores : Stores (Unit {0})
stores = record {
  claim = λ r. pure (promised, false);
  complete = λ r. pure tt;
  fail_claim = λ r m. pure tt;
  create_profile = λ p. pure p;
  get_profile = λ id. fail Profile.Repository.Err.not_found;
  get_kb = λ id h. pure plans;
  create_kb = λ r h. fail unreachable;
  to_lower = λ s. s;
  new_id = some "kb9";
  hash = λ i. some "h";
  encode = λ c. some "{}";
  canonical = λ s. some s;
}

abbrev plan : Definition
plan = record {
  mode = rag;
  access_policy = upstream;
  config = Preset.rag_config (record {
    embedding_model_id = "e1";
    summary_model_id = "";
    rerank_model_id = "";
    vlm_model_id = "";
  });
}

abbrev reconciled : CreateResult
reconciled = record {
  knowledge_base_id = "kb1";
  name = "Plans";
  product_mode = rag;
  index_profile = "plain";
  knowledge_base_type = "document";
  access_policy = upstream;
  created = false;
  reconciled = true;
}

provisioning :
    (provision stores headers normalized plan "{}" alice (promised, false) tt).0 ≡ ok reconciled
unfolding provision Creation.recording Creation.find_or_create Creation.after_find Service.found_kb
    Creation.verify Service.is_owned Service.has_vision Creation.ensure_profile
    Creation.after_profile Creation.result_of
provisioning = refl

provision-Provisioned_example :
    Provisioned stores headers normalized plan "{}" alice promised reconciled
provision-Provisioned_example =
    provision-Provisioned stores headers normalized plan "{}" alice promised false reconciled tt
      provisioning
