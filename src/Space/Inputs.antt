-- ===== src/Space/Inputs.antt =====
-- internal/space/service.go: the input of Create.
use my_kb.Prelude.{
  ℕ, Bool, true, ◌||◌, ◌&&◌, not, String, ◌==◌, ltb, leb, Option, none, some, len, count,
  if◌then◌else◌,
}
use Prim.Native.Char.{code}
use Prim.Native.String.{[], ◌∷◌}
use my_kb.Result.{Result, ok, err}
use my_kb.Text.{trim_space}
use my_kb.Profile.{ProductMode, personal_notes, rag, AccessPolicy, owner_only, upstream}

pub record CreateInput : Type 0 where
  pub mode : String
  pub index_profile : String
  pub knowledge_base_type : String
  pub name : String
  pub description : String
  pub embedding_model_id : String
  pub summary_model_id : String
  pub rerank_model_id : String
  pub vlm_model_id : String
  pub storage_provider : String

-- Error: its code and its status.
pub record Err : Type 0 where
  pub code : String
  pub status : ℕ

-- disabledModeError
abbrev pub disabled_mode : Err
disabled_mode = record { code = "knowledge_mode.disabled"; status = 400 }

-- What normalizeCreateInput returns beside an error.
pub record Normalized : Type 0 where
  pub input : CreateInput
  pub mode : ProductMode
  pub index_profile : String
  pub access_policy : AccessPolicy

or_default : String → String → String
or_default value text = if text == "" then value else text

-- The assignments of normalizeCreateInput before its tests.
unfoldable pub trimmed : (String → String) → CreateInput → CreateInput
unfolding or_default
trimmed to_lower i = record {
  mode = trim_space i.mode;
  index_profile = trim_space i.index_profile;
  knowledge_base_type = or_default "document" (to_lower (trim_space i.knowledge_base_type));
  name = trim_space i.name;
  description = trim_space i.description;
  embedding_model_id = trim_space i.embedding_model_id;
  summary_model_id = trim_space i.summary_model_id;
  rerank_model_id = trim_space i.rerank_model_id;
  vlm_model_id = trim_space i.vlm_model_id;
  storage_provider = or_default "local" (to_lower (trim_space i.storage_provider));
}

-- What the two cases of normalizeCreateInput return.
unfoldable pub notes_space : CreateInput → Normalized
unfolding or_default
notes_space i = record {
  input = record i { index_profile = or_default "notes_plain" i.index_profile };
  mode = personal_notes;
  index_profile = or_default "notes_plain" i.index_profile;
  access_policy = owner_only;
}

unfoldable pub rag_space : CreateInput → Normalized
unfolding or_default
rag_space i = record {
  input = record i {
    index_profile = or_default "plain" i.index_profile;
    vlm_model_id = (if i.knowledge_base_type == "faq" then "" else i.vlm_model_id);
  };
  mode = rag;
  index_profile = or_default "plain" i.index_profile;
  access_policy = upstream;
}

unfoldable pub bad_notes : CreateInput → Bool
unfolding notes_space
bad_notes i =
    not (i.knowledge_base_type == "document")
    || not ((notes_space i).index_profile == "notes_plain")

unfoldable pub bad_rag : CreateInput → Bool
unfolding rag_space
bad_rag i =
    not (i.knowledge_base_type == "document") && not (i.knowledge_base_type == "faq")
    || not ((rag_space i).index_profile == "plain")

-- The `switch` of normalizeCreateInput.
unfoldable pub by_mode : CreateInput → Result Err Normalized
by_mode i =
    if i.mode == "personal_notes"
    then (if bad_notes i then err disabled_mode else ok (notes_space i))
    else if i.mode == "rag"
    then (if bad_rag i then err disabled_mode else ok (rag_space i))
    else err disabled_mode

-- normalizeCreateInput
unfoldable pub normalize : (String → String) → CreateInput → Result Err Normalized
normalize to_lower input =
    let i = trimmed to_lower input in
    if i.name == ""
      || ltb 120 (count i.name)
      || ltb 1000 (count i.description)
      || i.embedding_model_id == ""
    then err (record { code = "space.invalid_request"; status = 400 })
    else if not (i.storage_provider == "local")
    then err (record { code = "space.storage_profile_disabled"; status = 400 })
    else by_mode i

printable : String → Bool
printable [] = true
printable (c ∷ s) = (leb 0x21 (code c) && leb (code c) 0x7e) && printable s

-- validateIdempotencyKey
unfoldable pub key_error : String → Option Err
unfolding printable
key_error key =
    if ltb (len key) 8 || ltb 128 (len key)
    then some (record { code = "request.idempotency_key_required"; status = 400 })
    else if not (printable key)
    then some (record { code = "request.idempotency_key_invalid"; status = 400 })
    else none
