-- ===== src/Ownership.antt =====
-- internal/ownership/resolver.go: the canonical owner of an upstream knowledge base.
use my_kb.Prelude.{ℕ, Bool, ◌||◌, not, String, ◌==◌, ◌=ℕ=◌, if◌then◌else◌}
use my_kb.Result.{Result, ok, err, Exec, fail, fail_if, ◌>>=◌, attempt}
use my_kb.Text.{trim_space, is_blank}
use my_kb.Http.{Headers, UpstreamErr, rejected, unreachable, KnowledgeBase, Upstream}
use my_kb.Db.{Db}
use my_kb.Profile.{Profile, ProductMode, other, known_mode, is_personal_notes}
use my_kb.Profile.Repository

pub data Err : Type 0 where
  invalid not_found unavailable adoption_required conflict : Err

pub data Source : Type 0 where
  product_profile upstream_creator : Source

-- The zero product mode of the source, the empty text, is `other ""`.
pub record Ownership : Type 0 where
  pub knowledge_base_id : String
  pub owner_user_id : String
  pub tenant_id : ℕ
  pub product_mode : ProductMode
  pub source : Source

-- Ownership.IsPersonalNotes
unfoldable pub owns_personal_notes : Ownership → Bool
owns_personal_notes o = is_personal_notes o.product_mode

-- An upstream 403 is treated like a missing knowledge base.
upstream_error : UpstreamErr → Err
upstream_error (rejected code status) =
    if code == "upstream.not_found" || status =ℕ= 403 then not_found else unavailable
upstream_error unreachable = unavailable

from_profile : KnowledgeBase → Profile → Result Err Ownership
from_profile kb p =
    if not (p.upstream_kb_id == kb.id)
      || not (p.owner_user_id == kb.creator_id)
      || not (p.tenant_id =ℕ= kb.tenant_id)
    then err conflict
    else if not (known_mode p.product_mode)
    then err conflict
    else ok (record {
      knowledge_base_id = kb.id;
      owner_user_id = p.owner_user_id;
      tenant_id = p.tenant_id;
      product_mode = p.product_mode;
      source = product_profile;
    })

from_upstream : KnowledgeBase → Ownership
from_upstream kb = record {
  knowledge_base_id = kb.id;
  owner_user_id = kb.creator_id;
  tenant_id = kb.tenant_id;
  product_mode = other "";
  source = upstream_creator;
}

-- What the profile lookup returned.
with_profile : KnowledgeBase → Result Repository.Err Profile → Result Err Ownership
unfolding from_profile from_upstream
with_profile kb (ok p) = from_profile kb p
with_profile kb (err Repository.Err.not_found) = ok (from_upstream kb)
with_profile kb (err _) = err unavailable

after_upstream : String → Result UpstreamErr KnowledgeBase → Exec Db Err Ownership
unfolding upstream_error with_profile
after_upstream kb_id (err e) = fail (upstream_error e)
after_upstream kb_id (ok kb) = fail_if (not (kb.id == kb_id) || kb.tenant_id =ℕ= 0) unavailable (
    fail_if (is_blank kb.creator_id) adoption_required
      (do found ← attempt (Repository.get kb_id); λ db. (with_profile kb found, db)))

-- Resolver.Resolve
unfoldable pub resolve : Upstream → String → Headers → Exec Db Err Ownership
unfolding after_upstream
resolve upstream raw headers =
    let kb_id = trim_space raw in
    fail_if (kb_id == "") invalid (after_upstream kb_id (upstream kb_id headers))
