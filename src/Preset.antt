-- ===== src/Preset.antt =====
-- internal/preset/preset.go: the index configurations that the product approves.
use my_kb.Prelude.{
  ℕ, Bool, true, false, ◌&&◌, ◌||◌, not, String, ◌==◌, ◌*◌, Option, none, some, List, [], ◌∷◌,
  if◌then◌else◌,
}
use my_kb.Profile.{ProductMode, personal_notes, rag, AccessPolicy, owner_only, upstream}

pub record Models : Type 0 where
  pub embedding_model_id : String
  pub summary_model_id : String
  pub rerank_model_id : String
  pub vlm_model_id : String

pub record Retrieval : Type 0 where
  pub mode : String
  pub vector_top_k : ℕ
  pub keyword_top_k : ℕ
  pub final_top_k : ℕ
  pub rerank_enabled : Bool
  pub rerank_model_id : String

pub record Limits : Type 0 where
  pub max_file_bytes : ℕ
  pub max_files : ℕ

-- weknora.ChunkingConfig, the fields that a preset sets.
pub record Chunking : Type 0 where
  pub chunk_size : ℕ
  pub chunk_overlap : ℕ
  pub separators : List String
  pub strategy : String

-- EffectiveConfig; the storage provider is "local", and vector and keyword indexing are enabled.
pub record EffectiveConfig : Type 0 where
  pub profile_id : String
  pub profile_version : ℕ
  pub knowledge_base_type : String
  pub storage_provider : String
  pub chunking : Chunking
  pub vector_enabled : Bool
  pub keyword_enabled : Bool
  pub retrieval : Retrieval
  pub models : Models
  pub limits : Limits

pub record Definition : Type 0 where
  pub mode : ProductMode
  pub access_policy : AccessPolicy
  pub config : EffectiveConfig

abbrev separators : List String
separators = "\n\n" ∷ "\n" ∷ "。" ∷ ". " ∷ []

unfoldable pub notes_config : Models → EffectiveConfig
notes_config m = record {
  profile_id = "notes_plain";
  profile_version = 1;
  knowledge_base_type = "";
  storage_provider = "local";
  chunking = record {
    chunk_size = 800;
    chunk_overlap = 80;
    separators = separators;
    strategy = "heading";
  };
  vector_enabled = true;
  keyword_enabled = true;
  retrieval = record {
    mode = "hybrid";
    vector_top_k = 12;
    keyword_top_k = 12;
    final_top_k = 8;
    rerank_enabled = not (m.rerank_model_id == "");
    rerank_model_id = m.rerank_model_id;
  };
  models = m;
  limits = record { max_file_bytes = 64 * 1024; max_files = 500 };
}

unfoldable pub rag_config : Models → EffectiveConfig
rag_config m = record {
  profile_id = "plain";
  profile_version = 1;
  knowledge_base_type = "";
  storage_provider = "local";
  chunking = record {
    chunk_size = 1024;
    chunk_overlap = 128;
    separators = separators;
    strategy = "auto";
  };
  vector_enabled = true;
  keyword_enabled = true;
  retrieval = record {
    mode = "hybrid";
    vector_top_k = 20;
    keyword_top_k = 20;
    final_top_k = 10;
    rerank_enabled = not (m.rerank_model_id == "");
    rerank_model_id = m.rerank_model_id;
  };
  models = m;
  limits = record { max_file_bytes = 500 * 1048576; max_files = 1000 };
}

definition_for : ProductMode → Models → Option Definition
unfolding notes_config rag_config
definition_for personal_notes m =
    some (record { mode = personal_notes; access_policy = owner_only; config = notes_config m })
definition_for rag m = some (record { mode = rag; access_policy = upstream; config = rag_config m })
definition_for _ m = none

-- BuildWithManagedModels; `none` where it returns an error.
unfoldable pub build : ProductMode → Models → Option Definition
unfolding definition_for
build mode m = if m.embedding_model_id == "" then none else definition_for mode m

unfoldable pub is_rag : ProductMode → Bool
is_rag rag = true
is_rag _ = false

-- Definition.ForKnowledgeBaseType
unfoldable pub for_type : Definition → String → Option Definition
for_type d kind =
    if kind == "" || kind == "document"
    then some (record d { config = record (d.config) { knowledge_base_type = "" } })
    else if kind == "faq"
    then (if not (is_rag d.mode)
        then none
        else some (record d {
          config = record (d.config) {
            knowledge_base_type = "faq";
            models = record (d.config.models) { vlm_model_id = "" };
          };
        }))
    else none

-- weknora.CreateKnowledgeBaseRequest; the FAQ modes where there is an FAQConfig.
pub record UpstreamRequest : Type 0 where
  pub id : String
  pub name : String
  pub description : String
  pub kind : String
  pub embedding_model_id : String
  pub summary_model_id : String
  pub vlm_enabled : Bool
  pub vlm_model_id : String
  pub storage_provider : String
  pub chunking : Chunking
  pub vector_enabled : Bool
  pub keyword_enabled : Bool
  pub questions_enabled : Bool
  pub faq_modes : Option (String × String)

unfoldable pub type_of : Definition → String
type_of d = if d.config.knowledge_base_type == "" then "document" else d.config.knowledge_base_type

unfoldable pub vlm_enabled : Definition → Bool
unfolding is_rag type_of
vlm_enabled d = is_rag d.mode && type_of d == "document" && not (d.config.models.vlm_model_id == "")

-- Definition.UpstreamRequest, with enabledModelID.
unfoldable pub upstream_request : Definition → String → String → String → UpstreamRequest
unfolding type_of vlm_enabled
upstream_request d id name description = record {
  id = id;
  name = name;
  description = description;
  kind = type_of d;
  embedding_model_id = d.config.models.embedding_model_id;
  summary_model_id = d.config.models.summary_model_id;
  vlm_enabled = vlm_enabled d;
  vlm_model_id = (if vlm_enabled d then d.config.models.vlm_model_id else "");
  storage_provider = d.config.storage_provider;
  chunking = d.config.chunking;
  vector_enabled = d.config.vector_enabled;
  keyword_enabled = d.config.keyword_enabled;
  questions_enabled = false;
  faq_modes = (if type_of d == "faq" then some ("question_only", "separate") else none);
}
