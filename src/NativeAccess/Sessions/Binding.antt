-- ===== src/NativeAccess/Sessions/Binding.antt =====
-- internal/nativeaccess/store.go: the rows of native_session_bindings over the calls that write them.
use my_kb.Prelude.{
  ℕ, ◌≡◌, refl, sym, ap, ◌∙◌, true, false, ◌||◌, String, ◌==◌, Option, none, some, inl, inr, List,
  [], ◌∷◌, ◌++◌, All, member, find_row, update_where, arith, eq_iff, Bool-cases,
}
use my_kb.Prelude.Rows.{find_row-append, find_row-append_found}
use mathlib.Core.Option.{some_inj}
use my_kb.Result.{ok}
use my_kb.Text.Sets.{member-first_of_each, All-member}
use my_kb.Db.{failing, later}
use my_kb.NativeAccess.{Actor, Kind, human, api_key, other, same_kind, same_actor}
use my_kb.NativeAccess.Sessions.{
  Row, Store, has_session, extended, new_row, bad_binding, bind, extend, upsert, record_event, fits,
}

same_kind-eq : (a b : Kind) → same_kind a b ≡ true → a ≡ b
unfolding same_kind
same_kind-eq human human h = refl
same_kind-eq human api_key h = absurd (cc)
same_kind-eq human (other s) h = absurd (cc)
same_kind-eq api_key human h = absurd (cc)
same_kind-eq api_key api_key h = refl
same_kind-eq api_key (other s) h = absurd (cc)
same_kind-eq (other s) human h = absurd (cc)
same_kind-eq (other s) api_key h = absurd (cc)
same_kind-eq (other s) (other t) h = ap other ((eq_iff s t).0 h)

pub same_actor-eq : (a b : Actor) → same_actor a b ≡ true → a ≡ b
unfolding same_actor
same_actor-eq a b h = ground (arith, same_kind-eq a.kind b.kind, eq_iff a.id b.id)

member-append :
    (k : String) (xs ys : List String) → member k (xs ++ ys) ≡ (member k xs || member k ys)
member-append k [] ys = refl
member-append k (x ∷ xs) ys = ground (arith, member-append k xs ys)

member-extended :
    (now : ℕ) (ids : List String) (row : Row) (k : String)
    → member k (extended now ids row).kb_ids ≡ (member k row.kb_ids || member k ids)
unfolding extended
member-extended now ids row k =
    ground (arith, member-first_of_each k [] (row.kb_ids ++ ids), member-append k row.kb_ids ids)

find-updated :
    (now : ℕ) (id : String) (ids : List String) (rows : List Row) (row : Row)
    → find_row (has_session id) rows ≡ some row
    → find_row (has_session id) (update_where (has_session id) (extended now ids) rows)
      ≡ some (extended now ids row)
unfolding has_session extended
find-updated now id ids [] row h = absurd (cc)
find-updated now id ids (x ∷ xs) row h = ground (arith, find-updated now id ids xs row)

find-other :
    (now : ℕ) (id k : String) (ids : List String) (rows : List Row)
    → (k == id) ≡ false
    → find_row (has_session k) (update_where (has_session id) (extended now ids) rows)
      ≡ find_row (has_session k) rows
unfolding has_session extended
find-other now id k ids [] h = refl
find-other now id k ids (x ∷ xs) h =
    ground (
      arith,
      find-other now id k ids xs,
      eq_iff x.session_id id,
      eq_iff k id,
      eq_iff x.session_id k,
    )

-- The row of a session as it may be later: the same actor, and no knowledge base lost.
record Extends (a b : Row) : Type 0 where
  pub actor : b.actor ≡ a.actor
  pub keeps : (k : String) → member k a.kb_ids ≡ true → member k b.kb_ids ≡ true

record Carried (id : String) (a : Row) (store : Store) : Type 0 where
  pub row : Row
  pub found : find_row (has_session id) store.rows ≡ some row
  pub extends : Extends a row

-- The session's row in a later store: it has the same actor and all the knowledge bases.
pub record StillBound (id : String) (a : Row) (store : Store) : Type 0 where
  pub row : Row
  pub found : find_row (has_session id) store.rows ≡ some row
  pub actor : row.actor ≡ a.actor
  pub keeps : All (λ k. member k row.kb_ids ≡ true) a.kb_ids

-- What a successful Bind leaves behind.
pub record Bound (id : String) (actor : Actor) (ids : List String) (before after : Store)
    : Type 0 where
  pub row : Row
  pub found : find_row (has_session id) after.rows ≡ some row
  pub owner : row.actor ≡ actor
  pub holds : All (λ k. member k row.kb_ids ≡ true) ids
  pub log : after.events ≡ before.events

unchanged :
    (id : String) (a : Row) (store : Store)
    → find_row (has_session id) store.rows ≡ some a
    → Carried id a store
unchanged id a store h = record {
  row = a;
  found = h;
  extends = record { actor = refl; keeps = λ k m. m };
}

extend-Carried :
    (now : ℕ) (k id : String) (actor : Actor) (ids : List String) (a : Row) (store : Store)
    (found : Option Row)
    → find_row (has_session id) store.rows ≡ found
    → find_row (has_session k) store.rows ≡ some a
    → Carried k a (extend now id actor ids found store).1
unfolding extend
extend-Carried now k id actor ids a store none e h = record {
  row = a;
  found = find_row-append_found (has_session k) store.rows (new_row now id actor ids) a h;
  extends = record { actor = refl; keeps = λ k m. m };
}
extend-Carried now k id actor ids a store (some row) e h =
    elim (Bool-cases (same_actor row.actor actor)) [
      | inr no_match ↦ rw no_match (unchanged k a store h)
      | inl match ↦ elim (Bool-cases (fits (extended now ids row))) [
        | inr big ↦ rw (match, big) (unchanged k a store h)
        | inl small ↦
            rw (match, small)
              (elim (Bool-cases (k == id)) [
                | inl same ↦
                    let this : k ≡ id = (eq_iff k id).0 same in
                    let one : row ≡ a =
                      some_inj.0
                        (sym e ∙ ap (λ x. find_row (has_session x) store.rows) (sym this) ∙ h) in
                    record {
                      row = extended now ids row;
                      found = rw this (find-updated now id ids store.rows row e);
                      extends = rw (← one) (record {
                        actor = refl;
                        keeps = λ x m. ground (arith, member-extended now ids row x);
                      });
                    }
                | inr different ↦
                    unchanged k a
                      (record store {
                        rows = update_where (has_session id) (extended now ids) store.rows;
                      })
                      (find-other now id k ids store.rows different ∙ h)
              ])
      ]
    ]

-- One call of Bind, by any actor.
bind-Carried :
    (now : ℕ) (k id : String) (actor : Actor) (ids : List String) (a : Row) (store : Store)
    → find_row (has_session k) store.rows ≡ some a
    → Carried k a (bind now id actor ids store).1
unfolding bind upsert
bind-Carried now k id actor ids a store h = elim (Bool-cases (bad_binding id actor)) [
  | inl bad ↦ rw bad (unchanged k a store h)
  | inr good ↦ elim (Bool-cases (failing store.faults)) [
    | inl fault ↦ rw (good, fault) (unchanged k a (record store { faults = later store.faults }) h)
    | inr through ↦
        let next : Store = record store { faults = later store.faults } in
        elim (Bool-cases (fits (new_row now id actor ids))) [
          | inr big ↦ rw (good, through, big) (unchanged k a next h)
          | inl small ↦
              rw (good, through, small)
                (extend-Carried now k id actor ids a next (find_row (has_session id) store.rows)
                  refl h)
        ]
  ]
]

record_event-rows :
    (actor : Actor) (operation outcome code : String) (ids : List String) (correlation : String)
    (store : Store)
    → (record_event actor operation outcome code ids correlation store).1.rows ≡ store.rows
unfolding record_event
record_event-rows actor operation outcome code ids correlation store = ground arith

-- Calls of Bind and Record, one after the other, by any actors.
pub data Calls (start : Store) : Store → Type 0 where
  none_yet : Calls start start
  bound :
      {store : Store} (now : ℕ) (id : String) (actor : Actor) (ids : List String)
      → Calls start store
      → Calls start (bind now id actor ids store).1
  recorded :
      {store : Store} (actor : Actor) (operation outcome code : String) (ids : List String)
      (correlation : String)
      → Calls start store
      → Calls start (record_event actor operation outcome code ids correlation store).1

Extends-trans : (a b c : Row) → Extends a b → Extends b c → Extends a c
Extends-trans a b c h k = record {
  actor = k.actor ∙ h.actor;
  keeps = λ x m. k.keeps x (h.keeps x m);
}

onward :
    (id : String) (a : Row) (store : Store) (s : Carried id a store) (next : Store)
    → Carried id s.row next
    → Carried id a next
onward id a store s next n = record {
  row = n.row;
  found = n.found;
  extends = Extends-trans a s.row n.row s.extends n.extends;
}

Calls-Carried :
    (id : String) (a : Row) (start store : Store)
    → find_row (has_session id) start.rows ≡ some a
    → Calls start store
    → Carried id a store
Calls-Carried id a start _ h none_yet = unchanged id a start h
Calls-Carried id a start _ h (bound {store} now other_id actor ids before) =
    let s = Calls-Carried id a start store h before in
    onward id a store s (bind now other_id actor ids store).1
      (bind-Carried now id other_id actor ids s.row store s.found)
Calls-Carried id a start _ h
      (recorded {store} actor operation outcome code ids correlation before) =
    let s = Calls-Carried id a start store h before in
    let call = (record_event actor operation outcome code ids correlation store).1 in
    onward id a store s call (
      unchanged id s.row call (
        ap (find_row (has_session id))
          (record_event-rows actor operation outcome code ids correlation store)
        ∙ s.found))

-- Once a session has a row, any calls of Bind and Record, by any actors and in any order, leave it
-- with a row of the same actor, and no knowledge base that it had is lost.
pub Calls-StillBound :
    (id : String) (a : Row) (start store : Store)
    → find_row (has_session id) start.rows ≡ some a
    → Calls start store
    → StillBound id a store
Calls-StillBound id a start store h calls =
    let s = Calls-Carried id a start store h calls in
    record {
      row = s.row;
      found = s.found;
      actor = s.extends.actor;
      keeps = All-member a.kb_ids s.extends.keeps;
    }

find-new :
    (now : ℕ) (id : String) (actor : Actor) (ids : List String) (rows : List Row)
    → find_row (has_session id) rows ≡ none
    → find_row (has_session id) (rows ++ new_row now id actor ids ∷ [])
      ≡ some (new_row now id actor ids)
unfolding has_session new_row
find-new now id actor ids rows h =
    ground (arith, find_row-append (has_session id) rows (new_row now id actor ids) h, eq_iff id id)

extend-Bound :
    (now : ℕ) (id : String) (actor : Actor) (ids : List String) (before store : Store)
    (found : Option Row)
    → find_row (has_session id) store.rows ≡ found
    → store.events ≡ before.events
    → (extend now id actor ids found store).0 ≡ ok tt
    → Bound id actor ids before (extend now id actor ids found store).1
unfolding extend
extend-Bound now id actor ids before store none e log h = record {
  row = new_row now id actor ids;
  found = find-new now id actor ids store.rows e;
  owner = refl;
  holds = All-member ids (λ k m. m);
  log = log;
}
extend-Bound now id actor ids before store (some row) e log h =
    elim (Bool-cases (same_actor row.actor actor)) [
      | inr no_match ↦ absurd (cc (rw no_match at h))
      | inl match ↦ elim (Bool-cases (fits (extended now ids row))) [
        | inr big ↦ absurd (cc (rw (match, big) at h))
        | inl small ↦
            rw (match, small)
              (record {
                row = extended now ids row;
                found = find-updated now id ids store.rows row e;
                owner = same_actor-eq row.actor actor match;
                holds = All-member ids (λ x m. ground (arith, member-extended now ids row x));
                log = log;
              })
      ]
    ]

-- Where Bind succeeds, the session's row is then of the given actor and has all the given knowledge
-- bases, and the log of the decisions is as before.
pub bind-Bound :
    (now : ℕ) (id : String) (actor : Actor) (ids : List String) (store : Store)
    → (bind now id actor ids store).0 ≡ ok tt
    → Bound id actor ids store (bind now id actor ids store).1
unfolding bind upsert
bind-Bound now id actor ids store h = elim (Bool-cases (bad_binding id actor)) [
  | inl bad ↦ absurd (cc (rw bad at h))
  | inr good ↦ elim (Bool-cases (failing store.faults)) [
    | inl fault ↦ absurd (cc (rw (good, fault) at h))
    | inr through ↦
        let next : Store = record store { faults = later store.faults } in
        elim (Bool-cases (fits (new_row now id actor ids))) [
          | inr big ↦ absurd (cc (rw (good, through, big) at h))
          | inl small ↦
              rw (good, through, small)
                (extend-Bound now id actor ids store next (find_row (has_session id) store.rows)
                  refl refl (rw (good, through, small) at h))
        ]
  ]
]
