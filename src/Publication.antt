-- ===== src/Publication.antt =====
-- internal/publication/publication.go: a publication and the audience that may see it.
pub mod Repository
pub mod Requests
pub mod Service
pub mod Uniqueness
pub mod Frames
pub mod Withdrawal
pub mod Narrowing
use my_kb.Prelude.{
  ℕ, Bool, true, false, ◌||◌, ◌&&◌, not, String, ◌==◌, ◌=ℕ=◌, ltb, Option, none, some, List, [],
  ◌∷◌, length, len, count, member, if◌then◌else◌,
}
use my_kb.Text.{is_blank, trim_space}

pub data AccessMode : Type 0 where
  subscriber organization_public : AccessMode
  other : String → AccessMode

unfoldable pub valid_access_mode : AccessMode → Bool
valid_access_mode (other s) = false
valid_access_mode _ = true

pub data AudienceType : Type 0 where
  organization workspace_set : AudienceType
  other : String → AudienceType

pub record Audience : Type 0 where
  pub kind : AudienceType
  pub workspace_ids : List ℕ  -- uint64

-- `list[i] == id` for some i; also the test of the loop's `seen` map.
unfoldable pub has_id : ℕ → List ℕ → Bool
has_id k [] = false
has_id k (x ∷ xs) = x =ℕ= k || has_id k xs

-- The loop of Audience.Valid.
unfoldable pub distinct_ids : List ℕ → List ℕ → Bool
distinct_ids seen [] = true
distinct_ids seen (x ∷ xs) = not (x =ℕ= 0 || has_id x seen) && distinct_ids (x ∷ seen) xs

valid_kind : AudienceType → List ℕ → Bool
valid_kind organization ids = length ids =ℕ= 0
valid_kind workspace_set ids =
    if length ids =ℕ= 0 || ltb 100 (length ids) then false else distinct_ids [] ids
valid_kind (other s) ids = false

-- Audience.Valid
unfoldable pub valid_audience : Audience → Bool
unfolding valid_kind
valid_audience a = valid_kind a.kind a.workspace_ids

unfoldable pub is_organization : AudienceType → Bool
is_organization organization = true
is_organization _ = false

-- Audience.Allows
unfoldable pub allows : Audience → ℕ → Bool
unfolding is_organization
allows a workspace_id =
    if workspace_id =ℕ= 0 || not (valid_audience a)
    then false
    else if is_organization a.kind
    then true
    else has_id workspace_id a.workspace_ids

-- Only this package writes a status, and the column admits no other.
pub data Status : Type 0 where
  published unpublished : Status

pub record Publication : Type 0 where
  pub id : String
  pub knowledge_base_id : String
  pub publisher_id : String
  pub publisher_tenant_id : ℕ
  pub title : String
  pub description : String
  pub tags : List String
  pub usage_guidance : String
  pub audience : Audience
  pub access_mode : AccessMode
  pub status : Status
  pub published_revision : ℕ
  pub created_at : ℕ
  pub published_at : ℕ
  pub unpublished_at : Option ℕ
  pub updated_at : ℕ
  pub row_version : ℕ
  pub last_audit_correlation_id : String

both_published : Status → Option ℕ → Bool
both_published published none = true
both_published _ _ = false

-- Publication.Published
unfoldable pub is_published : Publication → Bool
unfolding both_published
is_published p = both_published p.status p.unpublished_at

-- Publication.VisibleTo
unfoldable pub visible_to : Publication → ℕ → Bool
visible_to p workspace_id = is_published p && allows p.audience workspace_id

-- The tests of Validate on the status and the time that goes with it.
status_fits : Status → Option ℕ → ℕ → Bool
status_fits published none at = true
status_fits unpublished (some t) at = not (ltb t at)
status_fits _ _ at = false

-- The loop of Validate over the tags.
unfoldable pub valid_tags : List String → List String → Bool
valid_tags seen [] = true
valid_tags seen (t ∷ ts) =
    not (not (trim_space t == t) || t == "" || ltb 40 (count t) || member t seen)
    && valid_tags (t ∷ seen) ts

-- The first test of Validate; that of the status is always passed, since a Status has two values.
unfoldable pub bad_fields : Publication → Bool
bad_fields p =
    is_blank p.id
    || ltb 36 (len p.id)
    || is_blank p.knowledge_base_id
    || ltb 36 (len p.knowledge_base_id)
    || is_blank p.publisher_id
    || ltb 512 (len p.publisher_id)
    || p.publisher_tenant_id =ℕ= 0
    || is_blank p.title
    || ltb 160 (count p.title)
    || ltb 2000 (count p.description)
    || ltb 2000 (count p.usage_guidance)
    || ltb 20 (length p.tags)
    || not (valid_audience p.audience)
    || not (valid_access_mode p.access_mode)
    || ltb p.published_revision 1
    || ltb p.row_version 1
    || p.created_at =ℕ= 0
    || p.published_at =ℕ= 0
    || p.updated_at =ℕ= 0
    || ltb p.published_at p.created_at
    || ltb p.updated_at p.created_at
    || is_blank p.last_audit_correlation_id
    || ltb 128 (len p.last_audit_correlation_id)

-- Publication.Validate
unfoldable pub is_valid : Publication → Bool
unfolding status_fits
is_valid p =
    if bad_fields p
    then false
    else if not (status_fits p.status p.unpublished_at p.published_at)
    then false
    else valid_tags [] p.tags
