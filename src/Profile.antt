-- ===== src/Profile.antt =====
-- internal/profile/profile.go: what the product keeps of a knowledge base.
pub mod Repository
use my_kb.Prelude.{ℕ, Bool, true, false, ◌||◌, ◌&&◌, not, String, ◌==◌, ◌=ℕ=◌, ltb, if◌then◌else◌}
use my_kb.Text.{is_blank}

-- A Go string type with named values: `other` holds every other text.
pub data ProductMode : Type 0 where
  personal_notes rag ontology : ProductMode
  other : String → ProductMode

unfoldable pub is_personal_notes : ProductMode → Bool
is_personal_notes personal_notes = true
is_personal_notes _ = false

-- The three cases of the `switch` statements on a mode.
unfoldable pub known_mode : ProductMode → Bool
known_mode (other s) = false
known_mode _ = true

pub data AccessPolicy : Type 0 where
  owner_only upstream : AccessPolicy
  other : String → AccessPolicy

pub record Profile : Type 0 where
  pub upstream_kb_id : String
  pub tenant_id : ℕ
  pub owner_user_id : String
  pub product_mode : ProductMode
  pub schema_version : ℕ  -- int; a negative one is refused before it is used
  pub access_policy : AccessPolicy
  pub index_profile : String
  pub index_profile_version : ℕ
  pub effective_config : String
  pub created_at : ℕ
  pub updated_at : ℕ

is_owner_only : AccessPolicy → Bool
is_owner_only owner_only = true
is_owner_only _ = false

known_policy : AccessPolicy → Bool
known_policy (other s) = false
known_policy _ = true

expected_index_profile : ProductMode → String
expected_index_profile personal_notes = "notes_plain"
expected_index_profile rag = "plain"
expected_index_profile _ = "ontology_draft"

-- Profile.validate; `valid_json` is encoding/json's Valid.
unfoldable pub is_valid : (String → Bool) → Profile → Bool
unfolding is_owner_only known_policy expected_index_profile is_personal_notes known_mode
is_valid valid_json p =
    if is_blank p.upstream_kb_id || is_blank p.owner_user_id || p.tenant_id =ℕ= 0
    then false
    else if not (known_mode p.product_mode)
    then false
    else if not (known_policy p.access_policy)
    then false
    else if is_personal_notes p.product_mode && not (is_owner_only p.access_policy)
    then false
    else if not (p.index_profile == expected_index_profile p.product_mode)
        || ltb p.index_profile_version 1
        || not (valid_json p.effective_config)
    then false
    else true
