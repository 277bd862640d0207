-- ===== src/RoutePolicy/Inventory.antt =====
-- internal/routeaction/policy.go: the actions of an inventory that was loaded.
use my_kb.Prelude.{
  ◌≡◌, true, Bool, String, ◌==◌, ◌||◌, not, ◌=ℕ=◌, some, inl, inr, List, [], ◌∷◌, All, length,
  select, member, arith, Bool-cases, Option-cases,
}
use mathlib.Core.Path.{subst}
use my_kb.Authorization.{Action, valid_action, unknown}
use my_kb.RoutePolicy.{
  Regexp, ActionEntry, ActionDocument, ActionRule, compile_action, load_action_rules,
  is_pinned_inventory, load_actions, covers, match_action,
}
use my_kb.RoutePolicy.Matching.{last_action, match_action-one}

abbrev IsValid : ActionRule → Type 0
IsValid r = valid_action r.action ≡ true

compile_action-same :
    (regexp : Regexp) (e : ActionEntry) (r : ActionRule)
    → compile_action regexp e ≡ some r
    → e.action ≡ r.action
unfolding compile_action
compile_action-same regexp e r h = elim (Option-cases (regexp.compile e.method_regex)) [
  | inl lost ↦ absurd (cc (rw (compile_action, lost) at h))
  | inr (method, m) ↦ elim (Option-cases (regexp.compile (regexp.expand e.path_regex))) [
    | inl lost ↦ absurd (cc (rw (compile_action, m, lost) at h))
    | inr (path, p) ↦ let made = rw (compile_action, m, p) at h in ground arith
  ]
]

load_action_rules-IsValid :
    (regexp : Regexp) (seen : List String) (es : List ActionEntry) (rs : List ActionRule)
    → load_action_rules regexp seen es ≡ some rs
    → All IsValid rs
unfolding load_action_rules
load_action_rules-IsValid regexp seen [] [] h = tt
load_action_rules-IsValid regexp seen [] (r ∷ rs) h = absurd (cc)
load_action_rules-IsValid regexp seen (e ∷ es) rs h =
    elim (Bool-cases (e.id == "" || member e.id seen || not (valid_action e.action))) [
      | inl bad ↦ absurd (cc (rw bad at h))
      | inr good ↦ elim (Option-cases (compile_action regexp e)) [
        | inl lost ↦ absurd (cc (rw (good, lost) at h))
        | inr (r, c) ↦ elim (Option-cases (load_action_rules regexp (e.id ∷ seen) es)) [
          | inl lost ↦ absurd (cc (rw (good, c, lost) at h))
          | inr (rest, l) ↦
              let this : r ∷ rest ≡ rs = cc (rw (good, c, l) at h) in
              let valid : valid_action e.action ≡ true = ground arith in
              subst (All IsValid) this (
                rw (compile_action-same regexp e r c) at valid,
                load_action_rules-IsValid regexp (e.id ∷ seen) es rest l,
              )
        ]
      ]
    ]

last_action-known :
    (p : ActionRule → Bool) (rs : List ActionRule) (a : Action)
    → valid_action a ≡ true
    → All IsValid rs
    → valid_action (last_action a (select p rs)) ≡ true
unfolding last_action
last_action-known p [] a h hs = h
last_action-known p (r ∷ rs) a h hs = elim (Bool-cases (p r)) [
  | inl e ↦ rw (e, last_action) (last_action-known p rs r.action hs.0 hs.1)
  | inr e ↦ rw e (last_action-known p rs a h hs.1)
]

last_action-valid :
    (p : ActionRule → Bool) (rs : List ActionRule) (a : Action)
    → All IsValid rs
    → (length (select p rs) =ℕ= 1) ≡ true
    → valid_action (last_action a (select p rs)) ≡ true
unfolding last_action
last_action-valid p [] a hs one = absurd (ground arith)
last_action-valid p (r ∷ rs) a hs one = elim (Bool-cases (p r)) [
  | inl e ↦ rw (e, last_action) (last_action-known p rs r.action hs.0 hs.1)
  | inr e ↦ rw e (last_action-valid p rs a hs.1 (rw e at one))
]

-- In an inventory that Load accepts, an action that Match gives is one of the known actions.
pub match_action-valid :
    (regexp : Regexp) (version method path : String) (document : ActionDocument)
    (rules : List ActionRule)
    → load_actions regexp version document ≡ some rules
    → (match_action method path rules).1 ≡ true
    → valid_action (match_action method path rules).0 ≡ true
unfolding load_actions
match_action-valid regexp version method path document rules h one =
    elim (Bool-cases (not (is_pinned_inventory version document) || length document.rules =ℕ= 0)) [
      | inl bad ↦ absurd (cc (rw bad at h))
      | inr good ↦
          let known = load_action_rules-IsValid regexp [] document.rules rules (rw good at h) in
          rw (match_action-one method path rules) (
            last_action-valid (covers method path) rules (unknown "") known
              (rw (match_action-one method path rules) at one))
    ]
