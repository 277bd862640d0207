-- ===== src/Scenarios/Routing.antt =====
-- The native routes: the route of a request, the session that it names, and its scope.
use my_kb.Prelude.{◌≡◌, refl, Bool, true, String, ◌==◌, some, none, List, [], ◌∷◌, All}
use my_kb.Result.{ok, pure}
use my_kb.Text.{contains, split, first_of_each}
use my_kb.Json.{text, object, field, end, as_object, is_text, get}
use my_kb.NativeAccess as NativeAccess
use my_kb.NativeAccess.{Actor, human, Err}
use my_kb.NativeAccess.Sessions as Sessions
use my_kb.NativeAccess.Sessions.{Row, Store, SessionBinding, bind}
use my_kb.NativeAccess.Sessions.Binding.{Calls, StillBound, Bound, Calls-StillBound, bind-Bound}
use my_kb.NativeAccess.Scope as Scope
use my_kb.NativeAccess.Scope.{Native}
use my_kb.NativeAccess.Scope.Values as Values
use my_kb.NativeAccess.Scope.Resolution as Resolution
use my_kb.NativeAccess.Scope.Resolution.{Guards}
use my_kb.NativeAccess.Scope.Exact.{Resolved, Usable, resolve-Resolved, check_session-Usable}
use my_kb.NativeAccess.Routes as Routes
use my_kb.NativeAccess.Routes.{Entry, Route, Document, Regexp}
use my_kb.NativeAccess.Routes.Specific.{NoMoreSpecific, match-most_specific}
use my_kb.Scenarios.{headers}

abbrev carol : Actor
carol = record { kind = human; id = "carol"; tenant_id = 7 }

abbrev dave : Actor
dave = record { kind = human; id = "dave"; tenant_id = 7 }

abbrev session : Row
session = record {
  session_id = "n1";
  actor = carol;
  kb_ids = "k1" ∷ [];
  created_at = 100;
  updated_at = 100;
}

abbrev store : Store
store = record { rows = session ∷ []; events = []; faults = [] }

Calls-StillBound_example :
    StillBound "n1" session
      (bind 120 "n1" carol ("k2" ∷ []) (bind 110 "n1" dave ("k3" ∷ []) store).1).1
unfolding Sessions.has_session
Calls-StillBound_example =
    Calls-StillBound "n1" session store
      (bind 120 "n1" carol ("k2" ∷ []) (bind 110 "n1" dave ("k3" ∷ []) store).1).1 refl
      (Calls.bound 120 "n1" carol ("k2" ∷ [])
        (Calls.bound 110 "n1" dave ("k3" ∷ []) Calls.none_yet))

extended_session : (bind 120 "n1" carol ("k2" ∷ []) store).0 ≡ ok tt
unfolding bind Sessions.bad_binding NativeAccess.same_actor first_of_each
extended_session = refl

bind-Bound_example : Bound "n1" carol ("k2" ∷ []) store (bind 120 "n1" carol ("k2" ∷ []) store).1
bind-Bound_example = bind-Bound 120 "n1" carol ("k2" ∷ []) store extended_session

abbrev native : Native (Unit {0})
native = record {
  request = λ path query h.
      pure (some (record { success = true; content = object (field "id" (text "k1") end) }));
  escape = λ s. s;
  parse_uint = λ s. 7;
}

resolving :
    (Resolution.resolve native headers carol ("k1" ∷ "k1" ∷ []) true "" tt).0 ≡ ok ("k1" ∷ [])
unfolding Resolution.resolve Values.unique first_of_each Scope.check_all Scope.check_kb
    Values.valid_id contains Scope.read_kb Scope.read_data Values.content_of Scope.is_kb as_object
    is_text get Resolution.choose_ids Resolution.without_agent Resolution.not_empty
resolving = refl

resolve-Resolved_example : Resolved native headers ("k1" ∷ "k1" ∷ []) true ("k1" ∷ [])
resolve-Resolved_example =
    resolve-Resolved native headers carol ("k1" ∷ "k1" ∷ []) true "" ("k1" ∷ []) tt resolving

abbrev carols : SessionBinding
carols = record { session_id = "n1"; actor = carol; kb_ids = "k1" ∷ [] }

abbrev guards : Guards (Unit {0})
guards = record { binding = λ id. pure carols; guard = none; validate = λ id h. pure tt }

session_passes : (Resolution.check_session native headers carol guards "n1" tt).0 ≡ ok carols
unfolding Resolution.check_session NativeAccess.same_actor Resolution.run_guard Scope.check_all
    Scope.check_kb Values.valid_id contains Scope.read_kb Scope.read_data Values.content_of
    Scope.is_kb as_object is_text get
session_passes = refl

check_session-Usable_example : Usable native headers guards carol "n1" carols tt
check_session-Usable_example =
    check_session-Usable native headers guards carol "n1" carols tt session_passes

abbrev route : String → (String → Bool) → Route
route path pattern = record {
  entry = record { method = "GET"; path = path; disposition = "native"; checks = [] };
  pattern = pattern;
}

abbrev table : List Route
table = route "/a/:id" (λ p. true) ∷ route "/a/all" (λ p. p == "/a/all") ∷ []

routed :
    Routes.match_route "GET" "/a/all" (Routes.sorted table)
    ≡ some (route "/a/all" (λ p. p == "/a/all"))
unfolding Routes.match_route Routes.sorted Routes.ahead Routes.specificity split Routes.accepts
routed = refl

match-most_specific_example :
    (Routes.accepts "GET" "/a/all" (route "/a/all" (λ p. p == "/a/all")) ≡ true)
    × All (NoMoreSpecific "GET" "/a/all" (route "/a/all" (λ p. p == "/a/all"))) table
match-most_specific_example =
    match-most_specific table "GET" "/a/all" (route "/a/all" (λ p. p == "/a/all")) routed
