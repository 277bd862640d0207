-- ===== src/Scenarios/Policies.antt =====
-- The policies of routes and of actions, loaded and asked.
use my_kb.Prelude.{◌≡◌, refl, true, ◌==◌, ◌=ℕ=◌, some, List, [], ◌∷◌, length, select, if◌then◌else◌}
use my_kb.Authorization as Authorization
use my_kb.Authorization.{unknown, read, configure}
use my_kb.RoutePolicy as RoutePolicy
use my_kb.RoutePolicy.{
  Rule, Document, Regexp, Compiled, Decision, ActionEntry, ActionDocument, ActionRule,
}
use my_kb.RoutePolicy.Matching.{FirstMatch, match_policy-first, match_action-one, last_action}
use my_kb.RoutePolicy.Governed.{Governed, match_policy-Governed}
use my_kb.RoutePolicy.Inventory.{match_action-valid}

abbrev by_parameter : Compiled
by_parameter = record {
  rule = record {
    id = "r1";
    classification = RoutePolicy.Classification.disabled;
    path_regex = "^/a$";
  };
  accepts = λ path. path == "/a";
}

abbrev by_default : Compiled
by_default = record {
  rule = record {
    id = "r2";
    classification = RoutePolicy.Classification.pass_through;
    path_regex = "^/";
  };
  accepts = λ path. true;
}

abbrev passed : Decision
passed = record { classification = RoutePolicy.Classification.pass_through; rule_id = "r2" }

passes : RoutePolicy.match_policy (by_parameter ∷ by_default ∷ []) "/b" ≡ some passed
unfolding RoutePolicy.match_policy
passes = refl

match_policy-first_example : FirstMatch "/b" (by_parameter ∷ by_default ∷ []) passed
match_policy-first_example = match_policy-first "/b" (by_parameter ∷ by_default ∷ []) passed passes

abbrev reading : ActionRule
reading = record { id = "a1"; action = read; method = λ m. m == "GET"; path = λ p. true }

abbrev configuring : ActionRule
configuring = record { id = "a2"; action = configure; method = λ m. m == "PUT"; path = λ p. true }

abbrev actions : List ActionRule
actions = reading ∷ configuring ∷ []

match_action-one_example : RoutePolicy.match_action "GET" "/b" actions ≡ (
  last_action (unknown "") (select (RoutePolicy.covers "GET" "/b") actions),
  length (select (RoutePolicy.covers "GET" "/b") actions) =ℕ= 1,
)
match_action-one_example = match_action-one "GET" "/b" actions

-- A library of literal patterns: one pattern accepts everything, any other only its own text.
abbrev literals : Regexp
literals = record {
  compile =
      λ pattern. if pattern == "^/" then some (λ path. true) else some (λ path. path == pattern);
  expand = λ pattern. pattern;
}

abbrev policy_rules : List Rule
policy_rules =
    record { id = "r1"; classification = RoutePolicy.Classification.disabled; path_regex = "/a" }
    ∷ record {
      id = "r2";
      classification = RoutePolicy.Classification.pass_through;
      path_regex = "^/";
    }
    ∷ []

abbrev policy_file : Document
policy_file = record {
  schema_version = 1;
  upstream_tag = "v0.8.0";
  upstream_commit = "1edcd54b43606d9079bb36650efe3f68707a79ea";
  expected_route_count = 429;
  rules = policy_rules;
}

abbrev compiled_policy : List Compiled
compiled_policy =
    record {
      rule = record {
        id = "r1";
        classification = RoutePolicy.Classification.disabled;
        path_regex = "/a";
      };
      accepts = λ path. path == "/a";
    }
    ∷ record {
      rule = record {
        id = "r2";
        classification = RoutePolicy.Classification.pass_through;
        path_regex = "^/";
      };
      accepts = λ path. true;
    }
    ∷ []

policy_loads : RoutePolicy.load literals "v0.8.0" policy_file ≡ some compiled_policy
unfolding RoutePolicy.load RoutePolicy.is_pinned RoutePolicy.load_rules
    RoutePolicy.known_classification
policy_loads = refl

policy_passes : RoutePolicy.match_policy compiled_policy "/b" ≡ some passed
unfolding RoutePolicy.match_policy
policy_passes = refl

match_policy-Governed_example : Governed literals "/b" policy_rules passed
match_policy-Governed_example =
    match_policy-Governed literals "v0.8.0" "/b" policy_file compiled_policy passed policy_loads
      policy_passes

abbrev inventory_file : ActionDocument
inventory_file = record {
  schema_version = 1;
  upstream_tag = "v0.8.0";
  upstream_commit = "1edcd54b43606d9079bb36650efe3f68707a79ea";
  expected_kb_route_count = 170;
  rules =
      record { id = "a1"; action = read; method_regex = "GET"; path_regex = "^/" }
      ∷ record { id = "a2"; action = configure; method_regex = "PUT"; path_regex = "^/" }
      ∷ [];
}

abbrev inventory : List ActionRule
inventory =
    record { id = "a1"; action = read; method = λ m. m == "GET"; path = λ p. true }
    ∷ record { id = "a2"; action = configure; method = λ m. m == "PUT"; path = λ p. true }
    ∷ []

inventory_loads : RoutePolicy.load_actions literals "v0.8.0" inventory_file ≡ some inventory
unfolding RoutePolicy.load_actions RoutePolicy.is_pinned_inventory RoutePolicy.load_action_rules
    RoutePolicy.compile_action Authorization.valid_action
inventory_loads = refl

inventory_answers : (RoutePolicy.match_action "PUT" "/b" inventory).1 ≡ true
unfolding RoutePolicy.match_action RoutePolicy.scan_actions RoutePolicy.covers
inventory_answers = refl

match_action-valid_example :
    Authorization.valid_action (RoutePolicy.match_action "PUT" "/b" inventory).0 ≡ true
match_action-valid_example =
    match_action-valid literals "v0.8.0" "PUT" "/b" inventory_file inventory inventory_loads
      inventory_answers
