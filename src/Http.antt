-- ===== src/Http.antt =====
-- What the code reads of an http.Header, and the upstream WeKnora server, which it only calls.
use my_kb.Prelude.{ℕ, String}
use my_kb.Result.{Result}

pub record Headers : Type 0 where
  pub authorization : String
  pub api_key : String
  pub tenant_id : String
  pub request_id : String

-- weknora.Error with its code and status, or any other failure of the call.
pub data UpstreamErr : Type 0 where
  rejected : String → ℕ → UpstreamErr
  unreachable : UpstreamErr

-- weknora.KnowledgeBase, the fields that ownership reads.
pub record KnowledgeBase : Type 0 where
  pub id : String
  pub tenant_id : ℕ
  pub creator_id : String

abbrev pub Upstream : Type 0
Upstream = String → Headers → Result UpstreamErr KnowledgeBase
