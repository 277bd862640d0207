-- ===== src/Authorization/Roles.antt =====
-- internal/authorization/decision.go: what the roles allow.
use my_kb.Prelude.{ℕ, ◌≡◌, Bool, true, false, arith, leb, Option, none, some, ◌⊎◌}
use my_kb.Authorization.{
  Decision, Action, Role, decision_allows, discover, read, edit_content, configure, manage_grants,
  delete, unknown, owner_role, editor_role, viewer_role, no_role,
}

-- How far a role reaches.
abbrev pub rank : Role → ℕ
rank no_role = 0
rank viewer_role = 1
rank editor_role = 2
rank owner_role = 3

-- The least rank that an action needs; a text that is no action has none.
abbrev pub needed : Action → Option ℕ
needed discover = some 1
needed read = some 1
needed edit_content = some 2
needed configure = some 3
needed manage_grants = some 3
needed delete = some 3
needed (unknown s) = none

abbrev pub reaches : Option ℕ → ℕ → Bool
reaches none n = false
reaches (some k) n = leb k n

-- A decision allows an action exactly where its role's rank reaches what the action needs: a viewer
-- discovers and reads, an editor edits content too, the owner does all, a decision with no role
-- allows nothing, and a text that is no action is never allowed.
pub decision_allows-needed :
    (d : Decision) (x : Action) → decision_allows d x ≡ reaches (needed x) (rank d.role)
unfolding decision_allows
decision_allows-needed d x = ground arith

pub edit-needs :
    (d : Decision)
    → decision_allows d edit_content ≡ true
    → (d.role ≡ editor_role) ⊎ (d.role ≡ owner_role)
unfolding decision_allows
edit-needs d h = ground arith
