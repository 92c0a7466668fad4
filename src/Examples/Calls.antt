-- ===== src/Examples/Calls.antt =====
-- A table for two requests, and one second of nanoseconds per tick.
use weregopher.Base.{ℕ_key, ◌≡◌, refl, ◌≢◌, true, false, [], ◌∷◌, ok, err}
use weregopher.Base.Maps.{get, insert, remove, modify}
use weregopher.Session.Pending.{
  newly_cancelled, delivered, unknown_request, PendingRequests, new, begin, cancel, complete,
  begins, expires, step, run,
}
use weregopher.Session.Pending.Invariant.{TableInv, run-TableInv, new-TableInv}
use weregopher.Session.Pending.Lifetime.{complete_once, cancel_wins}

abbrev table : PendingRequests
table = record { maximum = 2; next_request_id = 1; requests = [] }

abbrev one_request : PendingRequests
one_request = record {
  maximum = 2;
  next_request_id = 2;
  requests = (1, record { deadline = 15; cancelled = false }) ∷ [];
}

table-TableInv : TableInv table
table-TableInv = new-TableInv 2 table (unfold new in refl)

history : run 1000 table (begins 5 10 ∷ []) ≡ one_request
unfolding run step begin insert
history = refl

one_request-TableInv : TableInv one_request
one_request-TableInv =
    let v = run-TableInv 1000 table (begins 5 10 ∷ []) table-TableInv in rw history at v

run-TableInv_example :
    TableInv (run 1000 table (begins 5 10 ∷ begins 6 10 ∷ begins 7 1 ∷ expires 15 ∷ []))
run-TableInv_example =
    run-TableInv 1000 table (begins 5 10 ∷ begins 6 10 ∷ begins 7 1 ∷ expires 15 ∷ [])
      table-TableInv

complete_once_example :
    complete (run 1000 (record one_request { requests = [] }) (begins 7 1 ∷ [])) 1
    ≡ err (unknown_request 1)
complete_once_example =
    complete_once 1000 one_request (record one_request { requests = [] }) 1 delivered
      (begins 7 1 ∷ []) one_request-TableInv (unfold complete get remove in refl)

abbrev cancelled_request : PendingRequests
cancelled_request = record one_request {
  requests = (1, record { deadline = 15; cancelled = true }) ∷ [];
}

cancel_wins_example :
    complete (run 1000 cancelled_request (begins 7 1 ∷ [])) 1 ≢ ok (one_request, delivered)
cancel_wins_example =
    cancel_wins 1000 one_request cancelled_request one_request 1 newly_cancelled (begins 7 1 ∷ [])
      one_request-TableInv (unfold cancel get modify in refl)
