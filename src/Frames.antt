-- ===== src/Frames.antt =====
-- Calls that leave the grants, the publications and the subscriptions as they were: the audit log,
-- the profiles and the owner resolver.
use my_kb.Prelude.{◌≡◌, String, arith, ◌∙◌, refl}
use my_kb.Http.{Headers}
use my_kb.Db.{Db, Env}
use my_kb.Audit
use my_kb.Audit.Repository.{record_event}
use my_kb.Profile
use my_kb.Profile.Repository
use my_kb.Ownership.{resolve}

-- The tables on which an authorization decision rests are left as they were.
pub record SameRows (db db' : Db) : Type 0 where
  pub grants : db'.grants ≡ db.grants
  pub publications : db'.publications ≡ db.publications
  pub subscriptions : db'.subscriptions ≡ db.subscriptions

pub SameRows-trans : {a b c : Db} → SameRows a b → SameRows b c → SameRows a c
SameRows-trans h k = record {
  grants = k.grants ∙ h.grants;
  publications = k.publications ∙ h.publications;
  subscriptions = k.subscriptions ∙ h.subscriptions;
}

SameRows-get_profile : (id : String) (db : Db) → SameRows db (Profile.Repository.get id db).1
unfolding Profile.Repository.get
SameRows-get_profile id db = ground arith

pub SameRows-resolve :
    (env : Env) (kb_id : String) (h : Headers) (db : Db)
    → SameRows db (resolve env.upstream kb_id h db).1
unfolding resolve
SameRows-resolve env kb_id h db = record {
  grants = grind (arith, SameRows-get_profile);
  publications = grind (arith, SameRows-get_profile);
  subscriptions = grind (arith, SameRows-get_profile);
}

pub SameRows-refl : (db : Db) → SameRows db db
SameRows-refl db = record { grants = refl; publications = refl; subscriptions = refl }

pub SameRows-record_event :
    (env : Env) (e : Audit.Event) (db : Db) → SameRows db (record_event env e db).1
unfolding record_event
SameRows-record_event env e db = record {
  grants = ground arith;
  publications = ground arith;
  subscriptions = ground arith;
}
