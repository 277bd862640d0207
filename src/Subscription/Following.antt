-- ===== src/Subscription/Following.antt =====
-- internal/subscription/repository.go: which row of a follower the statements read and write.
use my_kb.Prelude.{
  ℕ, ◌≡◌, ◌≢◌, ◌≤◌, ◌⊎◌, refl, sym, ap, ◌∙◌, true, String, arith, none, some, List, [], ◌∷◌, ◌++◌,
  inl, inr, find_row, update_where, if◌then◌else◌, Option-cases, eq_iff,
}
use my_kb.Prelude.Rows.{find_row-append, find_row-holds, found_same, PairwiseNot}
use my_kb.Result.{ok, err}
use my_kb.Text.{==_sym}
use my_kb.Db.{Db}
use my_kb.Db.Times.{column_times, column_time_past, column_time_mono}
use my_kb.Subscription.{Subscription, is_valid, is_active}
use my_kb.Subscription.Service.{follows}
use my_kb.Subscription.Repository.{
  RepoErr, as_stored, is_by, collides, has_id, create, activate, activated, get_by_publication_user,
}

-- No two rows have one identifier, or one publication and one follower.
abbrev pub IsUnique : List Subscription → Type 0
IsUnique ss = PairwiseNot collides ss

pub collides_sym : (a b : Subscription) → collides a b ≡ collides b a
unfolding collides
collides_sym a b = ground (
  arith,
  ==_sym a.id b.id,
  ==_sym a.publication_id b.publication_id,
  ==_sym a.subscriber_id b.subscriber_id,
)

has_id-collides : (a b : Subscription) → has_id a.id b ≡ true → collides a b ≡ true
unfolding has_id collides
has_id-collides a b h = ground arith

-- The row of a follower.
pub record Row (publication_id user_id : String) (s : Subscription) (ss : List Subscription)
    : Type 0 where
  pub found : find_row (is_by publication_id user_id) ss ≡ some s
  pub valid : is_valid s ≡ true

pub get-Row :
    (publication_id user_id : String) (db : Db) (s : Subscription)
    → (get_by_publication_user publication_id user_id db).0 ≡ ok s
    → Row publication_id user_id s
        (get_by_publication_user publication_id user_id db).1.subscriptions
unfolding get_by_publication_user
get-Row publication_id user_id db s h =
    elim (Option-cases (find_row (is_by publication_id user_id) db.subscriptions)) [
      | inl e ↦ absurd (ground arith)
      | inr (x, e) ↦ record { found = ground arith; valid = ground arith }
    ]

pub get-not_found :
    (publication_id user_id : String) (db : Db)
    → (get_by_publication_user publication_id user_id db).0 ≡ err RepoErr.not_found
    → find_row
        (is_by publication_id user_id)
        (get_by_publication_user publication_id user_id db).1.subscriptions
      ≡ none
unfolding get_by_publication_user
get-not_found publication_id user_id db h =
    elim (Option-cases (find_row (is_by publication_id user_id) db.subscriptions)) [
      | inl e ↦ ground arith
      | inr (x, e) ↦ absurd (ground arith)
    ]

pub get-keeps :
    (publication_id user_id : String) (db : Db)
    → (get_by_publication_user publication_id user_id db).1.subscriptions ≡ db.subscriptions
unfolding get_by_publication_user
get-keeps publication_id user_id db = ground arith

is_by_self : (s : Subscription) → is_by s.publication_id s.subscriber_id s ≡ true
unfolding is_by
is_by_self s =
    ground (arith, eq_iff s.publication_id s.publication_id, eq_iff s.subscriber_id s.subscriber_id)

create-ok :
    (c : Subscription) (db : Db) (s : Subscription)
    → (create c db).0 ≡ ok s
    → (s ≡ c)
      × (is_valid c ≡ true)
      × ((create c db).1.subscriptions ≡ db.subscriptions ++ as_stored c ∷ [])
unfolding create
create-ok c db s h = ground arith

-- A row that was inserted validates when it is read.
stored-is_valid :
    (c : Subscription)
    → 1000 ≤ c.created_at
    → c.ended_at ≡ none
    → is_valid c ≡ true
    → is_valid (as_stored c) ≡ true
unfolding is_valid as_stored column_times
stored-is_valid c past open_end h =
    ground (arith, column_time_past c.created_at past, column_time_mono c.created_at c.updated_at)

as_stored-is_by : (p u : String) (c : Subscription) → is_by p u (as_stored c) ≡ is_by p u c
unfolding is_by as_stored
as_stored-is_by p u c = refl

-- The subscription is the follower's row, or the row is what the columns keep of it.
pub record Kept (p u : String) (s : Subscription) (ss : List Subscription) : Type 0 where
  pub row : Subscription
  pub there : Row p u row ss
  pub kept : (row ≡ s) ⊎ (row ≡ as_stored s)

pub Row-Kept :
    (p u : String) (s : Subscription) (ss : List Subscription) → Row p u s ss → Kept p u s ss
Row-Kept p u s ss h = record { row = s; there = h; kept = inl refl }

pub create-Kept :
    (c : Subscription) (db : Db) (s : Subscription)
    → find_row (is_by c.publication_id c.subscriber_id) db.subscriptions ≡ none
    → 1000 ≤ c.created_at
    → c.ended_at ≡ none
    → (create c db).0 ≡ ok s
    → (s ≡ c) × Kept c.publication_id c.subscriber_id c (create c db).1.subscriptions
create-Kept c db s nobody past open_end h =
    let (same, valid, rows) = create-ok c db s h in
    let last =
      find_row-append (is_by c.publication_id c.subscriber_id) db.subscriptions (as_stored c)
        nobody in
    let own = as_stored-is_by c.publication_id c.subscriber_id c ∙ is_by_self c in
    (
      same,
      record {
        row = as_stored c;
        there = record {
          found = rw (rows, last, own) refl;
          valid = stored-is_valid c past open_end valid;
        };
        kept = inr refl;
      },
    )

activated-is_by :
    (p u : String) (t n : ℕ) (c : String) (at : ℕ) (a : Subscription)
    → is_by p u (activated t n c at a) ≡ is_by p u a
unfolding is_by activated
activated-is_by p u t n c at a = refl

find_row-update_where :
    (p u id : String) (f : Subscription → Subscription)
    (kept : (a : Subscription) → is_by p u (f a) ≡ is_by p u a) (xs : List Subscription)
    (x : Subscription)
    → find_row (is_by p u) xs ≡ some x
    → find_row (is_by p u) (update_where (has_id id) f xs) ≡ some (if has_id id x then f x else x)
find_row-update_where p u id f kept [] x h = cc
find_row-update_where p u id f kept (y ∷ ys) x h =
    ground (arith, kept y, find_row-update_where p u id f kept ys x)

activate-ok :
    (id c : String) (t n at : ℕ) (db : Db) (y s : Subscription)
    → find_row (has_id id) db.subscriptions ≡ some y
    → (activate id t n c at db).0 ≡ ok s
    → (s ≡ activated t n c at y)
      × (is_valid s ≡ true)
      × ((activate id t n c at db).1.subscriptions
          ≡ update_where (has_id id) (activated t n c at) db.subscriptions)
unfolding activate
activate-ok id c t n at db y s row h = ground arith

activate-missing :
    (id c : String) (t n at : ℕ) (db : Db) (s : Subscription)
    → find_row (has_id id) db.subscriptions ≡ none
    → (activate id t n c at db).0 ≢ ok s
unfolding activate
activate-missing id c t n at db s row h = ground arith

activated-follows :
    (t n : ℕ) (c : String) (at : ℕ) (a : Subscription) → follows (activated t n c at a) t ≡ true
unfolding follows activated is_active
activated-follows t n c at a = ground arith

pub activate-Row :
    (p u c : String) (t n at : ℕ) (db : Db) (x s : Subscription)
    → IsUnique db.subscriptions
    → find_row (is_by p u) db.subscriptions ≡ some x
    → (activate x.id t n c at db).0 ≡ ok s
    → Row p u s (activate x.id t n c at db).1.subscriptions × (follows s t ≡ true)
activate-Row p u c t n at db x s unique row h =
    elim (Option-cases (find_row (has_id x.id) db.subscriptions)) [
      | inl e ↦ absurd (activate-missing x.id c t n at db s e h)
      | inr (y, e) ↦
          let holds = find_row-holds (has_id x.id) db.subscriptions y e in
          let same : y ≡ x = sym (
            found_same collides collides_sym (is_by p u) (has_id x.id) db.subscriptions x y unique
              row e (has_id-collides x y holds)) in
          let (result, valid, rows) = activate-ok x.id c t n at db y s e h in
          let written =
            find_row-update_where p u x.id (activated t n c at) (activated-is_by p u t n c at)
              db.subscriptions x row in
          let own : has_id x.id x ≡ true = ap (has_id x.id) (sym same) ∙ holds in
          let given : s ≡ activated t n c at x = result ∙ ap (activated t n c at) same in
          let found = rw own at written in
          (
            record { found = rw rows found ∙ ap some (sym given); valid = valid },
            rw given (activated-follows t n c at x),
          )
    ]
