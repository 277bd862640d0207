-- ===== src/Subscription/Outsiders.antt =====
-- internal/subscription/repository.go: the loop of InactivateOutsideAudience.
use my_kb.Prelude.{
  ℕ, ◌≡◌, refl, Bool, true, false, ◌&&◌, not, String, ◌==◌, arith, List, [], ◌∷◌, inl, inr, any,
  eq_iff, select, if◌then◌else◌, Bool-cases,
}
use my_kb.Prelude.Rows.{any_mono, any-update_where_into}
use my_kb.Result.{ok, Result-cases}
use my_kb.Db.{Db, failing}
use my_kb.Db.Transactions.{begun, transaction-ok}
use my_kb.Publication.{Audience, valid_audience, is_organization, allows}
use my_kb.Subscription.{Subscription, inactive}
use my_kb.Subscription.Repository.{
  RepoErr, inactivate_outside_audience, end_outside, inactivate_row, live_rows, end_all_outside,
  is_live, is_live_of, has_id, is_status_active, ended,
}

-- An active subscription to the publication from outside the audience.
unfoldable pub is_outsider : String → Audience → Subscription → Bool
is_outsider id a s = is_live_of id s && not (allows a s.subscriber_tenant_id)

module _ (id : String) (a : Audience) where
  -- The row is one that the rest of the loop will end.
  awaited : List Subscription → Subscription → Bool
  awaited cs s = any (λ c. c.id == s.id && not (allows a c.subscriber_tenant_id)) cs

  missed : List Subscription → Subscription → Bool
  unfolding awaited
  missed cs s = is_outsider id a s && not (awaited cs s)

  missed-more :
      (c : Subscription) (cs : List Subscription) (s : Subscription)
      → missed (c ∷ cs) s ≡ true
      → missed cs s ≡ true
  unfolding missed
  missed-more c cs s h = ground arith

  missed-own : (c : Subscription) (cs : List Subscription) → missed (c ∷ cs) c ≡ false
  unfolding missed is_outsider
  missed-own c cs = ground (arith, eq_iff c.id c.id)

  not_live-not_missed :
      (cs : List Subscription) (s : Subscription) → is_live_of id s ≡ false → missed cs s ≡ false
  unfolding missed is_outsider
  not_live-not_missed cs s h = ground arith

  none_missed : (ss : List Subscription) → any (missed (select (is_live_of id) ss)) ss ≡ false
  none_missed [] = refl
  none_missed (x ∷ xs) = elim (Bool-cases (is_live_of id x)) [
    | inl e ↦
        let cs = select (is_live_of id) xs in
        let rest = any_mono (missed cs) (missed (x ∷ cs)) (missed-more x cs) xs (none_missed xs) in
        let own = missed-own x cs in ground arith
    | inr e ↦
        let own = not_live-not_missed (select (is_live_of id) xs) x e in
        let rest = none_missed xs in ground arith
  ]

  missed-ended :
      (c : Subscription) (cs : List Subscription) (corr : String) (at : ℕ) (s : Subscription)
      → missed cs (if is_live c.id s then ended inactive corr at s else s) ≡ true
      → missed (c ∷ cs) s ≡ true
  unfolding missed is_outsider is_live is_live_of has_id ended is_status_active
  missed-ended c cs corr at s h = ground (arith, eq_iff c.id s.id, eq_iff s.id c.id)

  missed-allowed :
      (c : Subscription) (cs : List Subscription) (s : Subscription)
      → allows a c.subscriber_tenant_id ≡ true
      → missed cs s ≡ true
      → missed (c ∷ cs) s ≡ true
  unfolding missed
  missed-allowed c cs s e h = ground arith

  row-missed :
      (c : Subscription) (cs : List Subscription) (corr : String) (at : ℕ) (db : Db) (x : Unit {0})
      → (inactivate_row c.id corr at db).0 ≡ ok x
      → any (missed (c ∷ cs)) db.subscriptions ≡ false
      → any (missed cs) (inactivate_row c.id corr at db).1.subscriptions ≡ false
  unfolding inactivate_row
  row-missed c cs corr at db x h k =
      let rest =
        any-update_where_into (missed (c ∷ cs)) (missed cs) (is_live c.id) (ended inactive corr at)
          (missed-ended c cs corr at) db.subscriptions k in
      ground arith

  none_left : (s : Subscription) → is_outsider id a s ≡ true → missed [] s ≡ true
  unfolding missed
  none_left s h = ground arith

  loop-ends :
      (cs : List Subscription) (corr : String) (at : ℕ) (db : Db) (x : Unit {0})
      → any (missed cs) db.subscriptions ≡ false
      → (end_outside a corr at cs db).0 ≡ ok x
      → any (is_outsider id a) (end_outside a corr at cs db).1.subscriptions ≡ false
  unfolding end_outside
  loop-ends [] corr at db x k h =
      any_mono (missed []) (is_outsider id a) none_left db.subscriptions k
  loop-ends (c ∷ cs) corr at db x k h =
      let write = inactivate_row c.id corr at db in
      elim (Bool-cases (allows a c.subscriber_tenant_id)) [
        | inl e ↦ rw e (
            loop-ends cs corr at db x
              (any_mono (missed (c ∷ cs)) (missed cs) (λ s w. missed-allowed c cs s e w)
                db.subscriptions k)
              (rw e at h))
        | inr e ↦ elim (Result-cases write.0) [
          | inr (y, r) ↦ absurd (cc (rw (e, r) at h))
          | inl (y, r) ↦
              rw (e, r)
                (loop-ends cs corr at write.1 x (row-missed c cs corr at db y r k) (rw (e, r) at h))
        ]
      ]

all-ended :
    (id : String) (a : Audience) (corr : String) (at : ℕ) (db : Db) (x : Unit {0})
    → (end_all_outside id a corr at db).0 ≡ ok x
    → any (is_outsider id a) (end_all_outside id a corr at db).1.subscriptions ≡ false
unfolding end_all_outside live_rows
all-ended id a corr at db x h = elim (Bool-cases (failing db.faults)) [
  | inl e ↦ absurd (cc (rw e at h))
  | inr e ↦ rw e (
      loop-ends id a (select (is_live_of id) db.subscriptions) corr at (begun db) x
        (none_missed id a db.subscriptions) (rw e at h))
]

-- When InactivateOutsideAudience succeeds for an audience of workspaces, no active subscription to
-- the publication is left from outside it.
pub outside-ended :
    (id : String) (a : Audience) (corr : String) (at : ℕ) (db : Db) (x : Unit {0})
    → is_organization a.kind ≡ false
    → (inactivate_outside_audience id a corr at db).0 ≡ ok x
    → any (is_outsider id a) (inactivate_outside_audience id a corr at db).1.subscriptions ≡ false
unfolding inactivate_outside_audience
outside-ended id a corr at db x k h = elim (Bool-cases (valid_audience a)) [
  | inr e ↦ absurd (cc (rw e at h))
  | inl e ↦
      let body = end_all_outside id a corr at in
      let (done, same) =
        transaction-ok RepoErr.database RepoErr.database body db x (rw (e, k) at h) in
      rw (e, k) (rw same (all-ended id a corr at (begun db) x done))
]
