-- ===== src/Revision.antt =====
-- internal/revision/repository.go: the rows of the content revisions and of the activity feed.
pub mod Repository
pub mod Growth
pub mod Counting
use my_kb.Prelude.{ℕ, Bool, false, true, ◌||◌, String, ◌=ℕ=◌, ltb, len, count, if◌then◌else◌}
use my_kb.Text.{is_blank}

pub record ContentRevision : Type 0 where
  pub knowledge_base_id : String
  pub content_revision : ℕ
  pub updated_at : ℕ

pub record Activity : Type 0 where
  pub id : String
  pub knowledge_base_id : String
  pub actor_id : String
  pub event_type : String
  pub content_revision : ℕ
  pub summary : String
  pub correlation_id : String
  pub created_at : ℕ

-- validate
unfoldable pub is_valid : String → String → String → String → String → ℕ → Bool
is_valid kb_id actor_id event_type summary correlation_id at =
    if is_blank kb_id
      || ltb 36 (len kb_id)
      || ltb 512 (len actor_id)
      || is_blank event_type
      || ltb 64 (len event_type)
      || ltb 500 (count summary)
      || is_blank correlation_id
      || ltb 128 (len correlation_id)
      || at =ℕ= 0
    then false
    else true
