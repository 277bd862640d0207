-- ===== src/Audit.antt =====
-- internal/audit/audit.go: the events of the audit log and their validation.
pub mod Repository
use my_kb.Prelude.{
  ℕ, Bool, true, false, ◌||◌, ◌*◌, String, ◌=ℕ=◌, ltb, Option, none, some, len, if◌then◌else◌,
}
use my_kb.Text.{is_blank}
use my_kb.Grant.{SubjectType, Permission}
use my_kb.Publication.{Audience, AccessMode}
use my_kb.Publication
use my_kb.Subscription

pub data Outcome : Type 0 where
  success denied failure : Outcome

-- The objects that the services marshal into an event's old and new value.
pub data Value : Type 0 where
  grant : SubjectType → String → Permission → Option ℕ → Option ℕ → ℕ → Value
  publication : Audience → AccessMode → Publication.Status → ℕ → ℕ → Value
  subscription : Subscription.Status → ℕ → Value

pub record Event : Type 0 where
  pub id : String
  pub tenant_id : ℕ
  pub knowledge_base_id : String
  pub actor_user_id : String
  pub action : String
  pub target_type : String
  pub target_id : String
  pub outcome : Outcome
  pub error_code : String
  pub correlation_id : String
  pub old_value : Option Value
  pub new_value : Option Value
  pub created_at : ℕ

too_large : (Value → ℕ) → Option Value → Bool
too_large json_size none = false
too_large json_size (some v) = ltb (16 * 1024) (json_size v)

-- Event.validate; `json_size` is the length of the object that encoding/json writes.
unfoldable pub is_valid : (Value → ℕ) → Event → Bool
unfolding too_large
is_valid json_size e =
    if is_blank e.id
      || ltb 36 (len e.id)
      || e.tenant_id =ℕ= 0
      || is_blank e.knowledge_base_id
      || ltb 36 (len e.knowledge_base_id)
      || is_blank e.actor_user_id
      || ltb 512 (len e.actor_user_id)
      || is_blank e.action
      || ltb 64 (len e.action)
      || is_blank e.target_type
      || ltb 32 (len e.target_type)
      || is_blank e.target_id
      || ltb 128 (len e.target_id)
      || is_blank e.correlation_id
      || ltb 128 (len e.correlation_id)
      || e.created_at =ℕ= 0
    then false
    else if too_large json_size e.old_value || too_large json_size e.new_value
    then false
    else true
