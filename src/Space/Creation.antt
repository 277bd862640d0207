-- ===== src/Space/Creation.antt =====
-- internal/space/service.go: the steps of Create.
pub mod Presets
pub mod Provision
use my_kb.Prelude.{
  ℕ, Bool, true, false, ◌||◌, ◌&&◌, not, String, ◌==◌, ◌=ℕ=◌, Option, none, some, if◌then◌else◌,
}
use my_kb.Result.{Result, ok, err, Exec, fail, fail_if, pure, lift, attempt, wrap, ◌>>=◌, ◌>>◌}
use my_kb.Http.{Headers, UpstreamErr}
use my_kb.Profile as Profiles
use my_kb.Profile.{
  Profile, ProductMode, personal_notes, rag, ontology, AccessPolicy, owner_only, upstream, other,
}
use my_kb.Preset.{Definition, upstream_request}
use my_kb.Space.Inputs.{CreateInput, Err, Normalized, normalize, key_error}
use my_kb.Space.Requests.{Request, pending}
use my_kb.Space.Service.{
  KnowledgeBase, Identity, CreateResult, Stores, error, reconciliation, state_unavailable,
  translate, claim_error, is_owned, has_vision, json_equal, found_kb, preset_for,
}

unfoldable pub same_mode : ProductMode → ProductMode → Bool
same_mode personal_notes m = elim m [ personal_notes ↦ true | _ ↦ false ]
same_mode rag m = elim m [ rag ↦ true | _ ↦ false ]
same_mode ontology m = elim m [ ontology ↦ true | _ ↦ false ]
same_mode (ProductMode.other s) m = elim m [ ProductMode.other t ↦ s == t | _ ↦ false ]

unfoldable pub same_policy : AccessPolicy → AccessPolicy → Bool
same_policy owner_only p = elim p [ owner_only ↦ true | _ ↦ false ]
same_policy upstream p = elim p [ upstream ↦ true | _ ↦ false ]
same_policy (AccessPolicy.other s) p = elim p [ AccessPolicy.other t ↦ s == t | _ ↦ false ]

-- The comparison of ensureProfile.
unfoldable pub same_profile : (String → Option String) → Profile → Profile → Bool
unfolding same_mode same_policy
same_profile canonical a b =
    a.tenant_id =ℕ= b.tenant_id
    && a.owner_user_id == b.owner_user_id
    && same_mode a.product_mode b.product_mode
    && same_policy a.access_policy b.access_policy
    && a.index_profile == b.index_profile
    && a.index_profile_version =ℕ= b.index_profile_version
    && json_equal canonical a.effective_config b.effective_config

-- The profile that Create expects; the store sets the times.
unfoldable pub expected_profile : Normalized → Definition → String → Identity → Request → Profile
expected_profile n d config who ledger = record {
  upstream_kb_id = ledger.upstream_kb_id;
  tenant_id = who.tenant_id;
  owner_user_id = who.user_id;
  product_mode = n.mode;
  schema_version = 1;
  access_policy = n.access_policy;
  index_profile = n.index_profile;
  index_profile_version = d.config.profile_version;
  effective_config = config;
  created_at = 0;
  updated_at = 0;
}

-- `string(productMode)`
mode_text : ProductMode → String
mode_text personal_notes = "personal_notes"
mode_text rag = "rag"
mode_text ontology = "ontology"
mode_text (ProductMode.other s) = s

unfoldable pub candidate : Normalized → Identity → String → String → String → Request
unfolding mode_text
candidate n who key hash id = record {
  tenant_id = who.tenant_id;
  owner_user_id = who.user_id;
  idempotency_key = key;
  request_hash = hash;
  upstream_kb_id = id;
  product_mode = mode_text n.mode;
  index_profile = n.index_profile;
  status = pending;
  last_error = "";
  created_at = 0;
  updated_at = 0;
}

unfoldable pub result_of : Normalized → Request → Bool → KnowledgeBase → Bool → CreateResult
result_of n ledger inserted kb created = record {
  knowledge_base_id = ledger.upstream_kb_id;
  name = kb.name;
  product_mode = n.mode;
  index_profile = n.index_profile;
  knowledge_base_type = kb.kind;
  access_policy = n.access_policy;
  created = inserted && created;
  reconciled = not inserted || not created;
}

-- The test of Create on the preset.
unfoldable pub agrees : Definition → Normalized → Bool
unfolding same_policy
agrees d n = d.config.profile_id == n.index_profile && same_policy d.access_policy n.access_policy

module _ {S : Type 0} (stores : Stores S) (headers : Headers) where
  -- recordFailure where `m` returns an error.
  unfoldable pub recording : {A : Type 0} → Request → Exec S Err A → Exec S Err A
  recording ledger m s =
      let (r, s') = m s in
      elim r [ ok a ↦ (ok a, s') | err e ↦ (err e, (stores.fail_claim ledger e.code s').1) ]

  -- The second look after a failed creation.
  unfoldable pub second_look :
      UpstreamErr → Result Err (Option KnowledgeBase) → Exec S Err (KnowledgeBase × Bool)
  second_look e (ok (some kb)) = pure (kb, false)
  second_look e (ok none) = fail (translate e)
  second_look e (err x) = fail (translate e)

  unfoldable pub after_create :
      Request → Result UpstreamErr KnowledgeBase → Exec S Err (KnowledgeBase × Bool)
  after_create ledger (ok kb) = pure (kb, true)
  after_create ledger (err e) = do
    again ← attempt (stores.get_kb ledger.upstream_kb_id headers)
    second_look e (found_kb again)

  unfoldable pub after_find :
      Normalized
      → Definition
      → Request
      → Result Err (Option KnowledgeBase)
      → Exec S Err (KnowledgeBase × Bool)
  after_find n d ledger (err e) = fail e
  after_find n d ledger (ok (some kb)) = pure (kb, false)
  after_find n d ledger (ok none) = do
    made ← attempt (
        stores.create_kb (upstream_request d ledger.upstream_kb_id n.input.name n.input.description)
          headers)
    after_create ledger made

  -- findUpstream, and CreateKnowledgeBase where it finds nothing.
  unfoldable pub find_or_create :
      Normalized → Definition → Request → Exec S Err (KnowledgeBase × Bool)
  find_or_create n d ledger = do
    found ← attempt (stores.get_kb ledger.upstream_kb_id headers)
    after_find n d ledger (found_kb found)

  -- verifyUpstreamOwnership
  unfoldable pub verify : KnowledgeBase → Request → CreateInput → Exec S Err (Unit {0})
  verify kb ledger input =
      fail_if (not (is_owned kb ledger input)) reconciliation
        (fail_if (not (has_vision kb input)) reconciliation (pure tt))

  -- The profile that ensureProfile read after a conflict.
  unfoldable pub after_conflict :
      Profile → Result Profiles.Repository.Err Profile → Exec S Err (Unit {0})
  after_conflict expected (ok existing) =
      fail_if (not (same_profile stores.canonical existing expected)) reconciliation (pure tt)
  after_conflict expected (err e) = fail reconciliation

  unfoldable pub after_profile :
      Profile → Result Profiles.Repository.Err Profile → Exec S Err (Unit {0})
  after_profile expected (ok p) = pure tt
  after_profile expected (err Profiles.Repository.Err.conflict) = do
    existing ← attempt (stores.get_profile expected.upstream_kb_id)
    after_conflict expected existing
  after_profile expected (err e) = fail (error "space.profile_create_failed" 503)

  -- Service.ensureProfile
  unfoldable pub ensure_profile : Profile → Exec S Err (Unit {0})
  ensure_profile expected = do
    made ← attempt (stores.create_profile expected)
    after_profile expected made

  -- What Create does after the claim.
  unfoldable pub provision :
      Normalized → Definition → String → Identity → Request × Bool → Exec S Err CreateResult
  provision n d config who (ledger, inserted) = do
    found ← recording ledger (find_or_create n d ledger)
    recording ledger (verify found.0 ledger n.input)
    recording ledger (ensure_profile (expected_profile n d config who ledger))
    wrap (λ _. state_unavailable) (stores.complete ledger)
    pure (result_of n ledger inserted found.0 found.1)

  or_error : {A : Type 0} → Err → Option A → Exec S Err A
  or_error e none = fail e
  or_error e (some a) = pure a

  fail_with : Option Err → Exec S Err (Unit {0})
  fail_with none = pure tt
  fail_with (some e) = fail e

  -- Create after the input is normalised; the error of hashCreateInput has no code.
  unfoldable pub create_normalized : Normalized → String → Identity → Exec S Err CreateResult
  unfolding or_error fail_with
  create_normalized n key who = do
    d ← or_error (error "space.preset_invalid" 503) (preset_for n)
    fail_if (not (agrees d n)) (error "space.preset_invalid" 503) (do
      config ← or_error (error "space.preset_invalid" 503) (stores.encode d.config)
      fail_with (key_error key)
      fail_if (who.user_id == "" || who.tenant_id =ℕ= 0) (error "auth.principal_invalid" 502) (do
        hash ← or_error (error "" 500) (stores.hash n.input)
        id ← or_error (error "space.id_generation_failed" 500) stores.new_id
        claimed ← wrap claim_error (stores.claim (candidate n who key hash id))
        provision n d config who claimed))

  -- Service.Create
  unfoldable pub create : CreateInput → String → Identity → Exec S Err CreateResult
  create input key who = do n ← lift (normalize stores.to_lower input); create_normalized n key who
