-- ===== src/Publication/Narrowing.antt =====
-- internal/publication/service.go: an update of the audience and the subscriptions outside it.
use my_kb.Db.{Db}
use my_kb.Ownership.{Ownership}
use my_kb.Revision.Repository as Revisions
use my_kb.Publication.{Publication}
use my_kb.Publication.Repository as Store
