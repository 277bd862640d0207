-- ===== src/RoutePolicy/Matching.antt =====
-- internal/policy/policy.go and internal/routeaction/policy.go: which rule decides.
use my_kb.Prelude.{
  ℕ, ◌+◌, ◌≡◌, refl, ap, ◌∙◌, true, false, String, ◌=ℕ=◌, some, inl, inr, List, [], ◌∷◌, ◌++◌, All,
  length, select, arith, Bool-cases,
}
use my_kb.Authorization.{Action, unknown}
use my_kb.RoutePolicy.{
  Compiled, Decision, match_policy, ActionRule, covers, scan_actions, match_action,
}

abbrev pub decision_of : Compiled → Decision
decision_of c = record { classification = c.rule.classification; rule_id = c.rule.id }

abbrev pub Rejects : String → Compiled → Type 0
Rejects path c = c.accepts path ≡ false

-- The first rule that accepts the path, and those before it.
pub record FirstMatch (path : String) (rules : List Compiled) (d : Decision) : Type 0 where
  pub before : List Compiled
  pub rule : Compiled
  pub after : List Compiled
  pub split : rules ≡ before ++ rule ∷ after
  pub rejected : All (Rejects path) before
  pub accepted : rule.accepts path ≡ true
  pub decided : d ≡ decision_of rule

-- The decision of the policy is that of the first rule that accepts the path: every rule before it
-- rejects the path.
pub match_policy-first :
    (path : String) (rules : List Compiled) (d : Decision)
    → match_policy rules path ≡ some d
    → FirstMatch path rules d
unfolding match_policy
match_policy-first path [] d h = absurd (cc)
match_policy-first path (c ∷ cs) d h = elim (Bool-cases (c.accepts path)) [
  | inl hit ↦ record {
    before = [];
    rule = c;
    after = cs;
    split = refl;
    rejected = tt;
    accepted = hit;
    decided = ground arith;
  }
  | inr miss ↦
      let m = match_policy-first path cs d (rw miss at h) in
      record {
        before = c ∷ m.before;
        rule = m.rule;
        after = m.after;
        split = ap (λ l. c ∷ l) m.split;
        rejected = (miss, m.rejected);
        accepted = m.accepted;
        decided = m.decided;
      }
]

-- The action of the last rule of a list, or the one given.
unfoldable pub last_action : Action → List ActionRule → Action
last_action a [] = a
last_action a (r ∷ rs) = last_action r.action rs

scan_actions-select :
    (method path : String) (rules : List ActionRule) (a : Action) (n : ℕ)
    → scan_actions method path (a, n) rules ≡ (
      last_action a (select (covers method path) rules),
      n + length (select (covers method path) rules),
    )
unfolding scan_actions last_action
scan_actions-select method path [] a n = ap (λ k. (a, k)) (omega arith)
scan_actions-select method path (r ∷ rs) a n = elim (Bool-cases (covers method path r)) [
  | inl e ↦
      rw (e, scan_actions)
        (scan_actions-select method path rs r.action (n + 1)
          ∙ ap (λ k. (last_action r.action (select (covers method path) rs), k)) (omega arith))
  | inr e ↦ rw (e, scan_actions) (scan_actions-select method path rs a n)
]

-- The inventory says yes exactly where one rule, and only one, covers the method and the path, and
-- its action is that of the last rule that does, or the empty one.
pub match_action-one :
    (method path : String) (rules : List ActionRule)
    → match_action method path rules ≡ (
      last_action (unknown "") (select (covers method path) rules),
      length (select (covers method path) rules) =ℕ= 1,
    )
unfolding match_action
match_action-one method path rules =
    let chosen = select (covers method path) rules in
    rw (scan_actions-select method path rules (unknown "") 0) (
      ap (λ k. (last_action (unknown "") chosen, k =ℕ= 1))
        (let zero_more : 0 + length chosen ≡ length chosen = omega arith in zero_more))
