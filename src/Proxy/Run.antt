-- ===== src/Proxy/Run.antt =====
-- A session as a history of calls by its one owner.
use weregopher.Base.{ℕ, List, [], ◌∷◌}
use weregopher.Proxy.Message.{Direction}
use weregopher.Proxy.State.{Proxy, close}
use weregopher.Proxy.Admit.{Candidate, admit_candidate, admit}
use weregopher.Proxy.Release.{release}
use weregopher.Proxy.Expire.{expire_requests}

pub data Call : Type 0 where
  ingests admits : Candidate → Call
  releases : Direction → ℕ → Call
  expires : ℕ → Call
  closes : Call

module _ (sha256 : List ℕ → List ℕ) (instant_max : ℕ) where
  -- `ingest` admits what `prepare` made under the session's own limits.
  unfoldable pub step : Proxy → Call → Proxy
  step p (ingests c) = (admit_candidate sha256 p c).0
  step p (admits c) = (admit sha256 p c).0
  step p (releases d now) = (release instant_max p d now).0
  step p (expires now) = (expire_requests sha256 p now).0
  step p closes = (close p).0

  unfoldable pub run : Proxy → List Call → Proxy
  run p [] = p
  run p (c ∷ cs) = run (step p c) cs
