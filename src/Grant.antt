-- ===== src/Grant.antt =====
-- internal/grant/grant.go: an explicit grant of a knowledge base to a user.
pub mod Repository
pub mod Requests
pub mod Service
pub mod Uniqueness
pub mod Versions
pub mod Owner
pub mod Creation
pub mod Effect
pub mod Revocation
pub mod Expiry
use my_kb.Prelude.{
  ℕ, Bool, true, false, ◌||◌, ◌&&◌, not, String, ◌==◌, ◌=ℕ=◌, ltb, Option, none, some,
  if◌then◌else◌,
}
use my_kb.Text.{is_blank}

-- Go string types with named values: `other` holds every other text.
pub data SubjectType : Type 0 where
  user group workspace : SubjectType
  other : String → SubjectType

unfoldable pub valid_subject_type : SubjectType → Bool
valid_subject_type (other s) = false
valid_subject_type _ = true

unfoldable pub same_subject_type : SubjectType → SubjectType → Bool
same_subject_type user user = true
same_subject_type group group = true
same_subject_type workspace workspace = true
same_subject_type (other s) (other t) = s == t
same_subject_type _ _ = false

pub data Permission : Type 0 where
  viewer editor : Permission
  other : String → Permission

unfoldable pub valid_permission : Permission → Bool
valid_permission (other s) = false
valid_permission _ = true

unfoldable pub same_permission : Permission → Permission → Bool
same_permission viewer viewer = true
same_permission editor editor = true
same_permission (other s) (other t) = s == t
same_permission _ _ = false

-- Times are instants in nanoseconds after Go's zero time, which is 0.
pub record Grant : Type 0 where
  pub id : String
  pub knowledge_base_id : String
  pub subject_type : SubjectType
  pub subject_id : String
  pub permission : Permission
  pub granted_by : String
  pub created_at : ℕ
  pub updated_at : ℕ
  pub expires_at : Option ℕ
  pub revoked_at : Option ℕ
  pub revision : ℕ
  pub last_audit_correlation_id : String

unfoldable pub is_nil : Option ℕ → Bool
is_nil none = true
is_nil (some t) = false

-- `t == nil || t.After(at)`
unfoldable pub nil_or_after : Option ℕ → ℕ → Bool
nil_or_after none at = true
nil_or_after (some t) at = ltb at t

-- `t == nil || !t.Before(at)`
unfoldable pub nil_or_not_before : Option ℕ → ℕ → Bool
nil_or_not_before none at = true
nil_or_not_before (some t) at = not (ltb t at)

-- Grant.Active
unfoldable pub active : Grant → ℕ → Bool
unfolding is_nil nil_or_after
active g at = is_nil g.revoked_at && nil_or_after g.expires_at at

-- Grant.validate
unfoldable pub is_valid : Grant → Bool
unfolding valid_subject_type valid_permission nil_or_after nil_or_not_before
is_valid g =
    if is_blank g.id
      || is_blank g.knowledge_base_id
      || is_blank g.subject_id
      || is_blank g.granted_by
      || is_blank g.last_audit_correlation_id
      || not (valid_subject_type g.subject_type)
      || not (valid_permission g.permission)
    then false
    else if ltb g.revision 1
        || g.created_at =ℕ= 0
        || g.updated_at =ℕ= 0
        || ltb g.updated_at g.created_at
    then false
    else if not (nil_or_after g.expires_at g.created_at)
    then false
    else if not (nil_or_not_before g.revoked_at g.created_at)
    then false
    else true
