-- ===== src/RoutePolicy/Governed.antt =====
-- internal/policy/policy.go: the decisions of a policy that was loaded.
use my_kb.Prelude.{
  ◌≡◌, refl, sym, ap, eq_iff, true, false, Bool, String, ◌==◌, ◌||◌, not, ◌=ℕ=◌, some, inl, inr,
  List, [], ◌∷◌, length, select, member, arith, Bool-cases, Option-cases,
}
use mathlib.Core.Path.{subst}
use my_kb.RoutePolicy.Matching.{decision_of}
use my_kb.RoutePolicy.{
  Rule, Document, Compiled, Decision, Regexp, known_classification, is_pinned, load_rules, load,
  match_policy,
}

abbrev named : String → Rule → Bool
named id r = r.id == id

-- The rule of a document that a decision names: there is no other of that id, its pattern accepts
-- the path, and its classification is one of the three.
pub record Governed (regexp : Regexp) (path : String) (rules : List Rule) (d : Decision)
    : Type 0 where
  pub rule : Rule
  pub pattern : String → Bool
  pub only : select (named d.rule_id) rules ≡ rule ∷ []
  pub compiled : regexp.compile (regexp.expand rule.path_regex) ≡ some pattern
  pub accepted : pattern path ≡ true
  pub classified : d.classification ≡ rule.classification
  pub known : known_classification rule.classification ≡ true

module _ (regexp : Regexp) (path : String) where
  -- What the loop of Load did where it went past a rule.
  record Loaded (seen : List String) (r : Rule) (rs : List Rule) (cs : List Compiled) : Type 0 where
    new : member r.id seen ≡ false
    known : known_classification r.classification ≡ true
    pattern : String → Bool
    compiled : regexp.compile (regexp.expand r.path_regex) ≡ some pattern
    rest : List Compiled
    loaded : load_rules regexp (r.id ∷ seen) rs ≡ some rest
    head : cs ≡ (record { rule = r; accepts = pattern }) ∷ rest

  load_rules-Loaded :
      (seen : List String) (r : Rule) (rs : List Rule) (cs : List Compiled)
      → load_rules regexp seen (r ∷ rs) ≡ some cs
      → Loaded seen r rs cs
  unfolding load_rules
  load_rules-Loaded seen r rs cs h =
      let pattern_of = regexp.compile (regexp.expand r.path_regex) in
      let rest_of = load_rules regexp (r.id ∷ seen) rs in
      elim (Bool-cases
        (r.id == "" || member r.id seen || not (known_classification r.classification))) [
          | inl bad ↦ absurd (cc (rw bad at h))
          | inr good ↦ elim (Option-cases pattern_of) [
            | inl no_pattern ↦ absurd (cc (rw (good, no_pattern) at h))
            | inr (pattern, e) ↦ elim (Option-cases rest_of) [
              | inl no_rest ↦ absurd (cc (rw (good, e, no_rest) at h))
              | inr (rest, e1) ↦ record {
                new = ground arith;
                known = ground arith;
                pattern = pattern;
                compiled = e;
                rest = rest;
                loaded = e1;
                head = cc (rw (good, e, e1) at h);
              }
            ]
          ]
        ]

  -- An id that was seen does not come again.
  load_rules-fresh :
      (seen : List String) (rs : List Rule) (cs : List Compiled) (k : String)
      → load_rules regexp seen rs ≡ some cs
      → member k seen ≡ true
      → select (named k) rs ≡ []
  load_rules-fresh seen [] cs k h m = refl
  load_rules-fresh seen (r ∷ rs) cs k h m =
      let l = load_rules-Loaded seen r rs cs h in
      let rest = load_rules-fresh (r.id ∷ seen) rs l.rest k l.loaded (ground arith) in
      elim (Bool-cases (r.id == k)) [
        | inr other ↦ rw other rest
        | inl same ↦
            let this : r.id ≡ k = ground (arith, eq_iff r.id k) in absurd (cc (rw this at l.new))
      ]

  load_rules-Governed :
      (seen : List String) (rs : List Rule) (cs : List Compiled) (d : Decision)
      → load_rules regexp seen rs ≡ some cs
      → match_policy cs path ≡ some d
      → Governed regexp path rs d × (member d.rule_id seen ≡ false)
  unfolding load_rules match_policy
  load_rules-Governed seen [] [] d h m = absurd (cc)
  load_rules-Governed seen [] (c ∷ cs) d h m = absurd (cc)
  load_rules-Governed seen (r ∷ rs) cs d h m =
      let l = load_rules-Loaded seen r rs cs h in
      let matched = subst (λ (cs : List Compiled). match_policy cs path ≡ some d) l.head m in
      elim (Bool-cases (l.pattern path)) [
        | inl hit ↦
            let decided : decision_of (record { rule = r; accepts = l.pattern }) ≡ d =
              cc (rw hit at matched) in
            let here : r.id ≡ d.rule_id = ap (λ (x : Decision). x.rule_id) decided in
            let is_it : (r.id == d.rule_id) ≡ true = ground (arith, eq_iff r.id d.rule_id) in
            let none_left =
              load_rules-fresh (r.id ∷ seen) rs l.rest d.rule_id l.loaded (ground arith) in
            (
              record {
                rule = r;
                pattern = l.pattern;
                only = rw is_it (ap (λ l. r ∷ l) none_left);
                compiled = l.compiled;
                accepted = hit;
                classified = sym (ap (λ (x : Decision). x.classification) decided);
                known = l.known;
              },
              rw (← here) l.new,
            )
        | inr miss ↦
            let rest : Governed regexp path rs d × (member d.rule_id (r.id ∷ seen) ≡ false) =
              load_rules-Governed (r.id ∷ seen) rs l.rest d l.loaded (rw miss at matched) in
            let (g, fresh) = rest in
            let not_it : (r.id == d.rule_id) ≡ false = ground (arith, fresh) in
            (
              record {
                rule = g.rule;
                pattern = g.pattern;
                only = rw not_it g.only;
                compiled = g.compiled;
                accepted = g.accepted;
                classified = g.classified;
                known = g.known;
              },
              ground (arith, fresh),
            )
      ]

-- If Load accepts a document and Match decides on a path, the document has exactly one rule with the
-- id of the decision, its compiled pattern accepts the path, and the decision's classification is
-- that rule's and is one of the three that are known.
pub match_policy-Governed :
    (regexp : Regexp) (version path : String) (document : Document) (cs : List Compiled)
    (d : Decision)
    → load regexp version document ≡ some cs
    → match_policy cs path ≡ some d
    → Governed regexp path document.rules d
unfolding load
match_policy-Governed regexp version path document cs d h m =
    elim (Bool-cases (not (is_pinned version document) || length document.rules =ℕ= 0)) [
      | inl bad ↦ absurd (cc (rw bad at h))
      | inr good ↦ (load_rules-Governed regexp path [] document.rules cs d (rw good at h) m).0
    ]
