-- ===== src/Subscription.antt =====
-- internal/subscription/subscription.go: a live follow relation between a user and a publication.
pub mod Repository
pub mod Service
pub mod Following
pub mod Effect
pub mod Uniqueness
pub mod Outsiders
pub mod Listing
use my_kb.Prelude.{
  ℕ, Bool, true, false, ◌||◌, not, String, ◌=ℕ=◌, ltb, Option, none, some, len, if◌then◌else◌,
}
use my_kb.Text.{is_blank}

-- Only this package writes a status, and the column admits no other.
pub data Status : Type 0 where
  active inactive unsubscribed : Status

pub record Subscription : Type 0 where
  pub id : String
  pub publication_id : String
  pub subscriber_id : String
  pub subscriber_tenant_id : ℕ
  pub status : Status
  pub notification_enabled : Bool
  pub last_seen_revision : ℕ
  pub created_at : ℕ
  pub updated_at : ℕ
  pub ended_at : Option ℕ
  pub last_audit_correlation_id : String

both_active : Status → Option ℕ → Bool
both_active active none = true
both_active _ _ = false

-- Subscription.Active
unfoldable pub is_active : Subscription → Bool
unfolding both_active
is_active s = both_active s.status s.ended_at

-- The tests of Validate on the status and the end that goes with it.
status_fits : Status → Option ℕ → ℕ → Bool
status_fits active none at = true
status_fits inactive (some t) at = not (ltb t at)
status_fits unsubscribed (some t) at = not (ltb t at)
status_fits _ _ at = false

-- Subscription.Validate
unfoldable pub is_valid : Subscription → Bool
unfolding status_fits
is_valid s =
    if is_blank s.id
      || ltb 36 (len s.id)
      || is_blank s.publication_id
      || ltb 36 (len s.publication_id)
      || is_blank s.subscriber_id
      || ltb 512 (len s.subscriber_id)
      || s.subscriber_tenant_id =ℕ= 0
      || s.created_at =ℕ= 0
      || s.updated_at =ℕ= 0
      || ltb s.updated_at s.created_at
      || is_blank s.last_audit_correlation_id
      || ltb 128 (len s.last_audit_correlation_id)
    then false
    else status_fits s.status s.ended_at s.created_at
