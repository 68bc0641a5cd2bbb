-- ===== src/Tests/Manager.antt =====
-- The theorems of the receiver manager at concrete inputs: two receivers, of which one is started.
use multi_radio.Common.{ℕ, false, is_empty, ◌≡◌, refl, none, some, List, [], ◌∷◌, arith}
use multi_radio.Tests.Data.{whole}
use multi_radio.Tests.Worker.{stopped_worker}
use multi_radio.Worker.Lifecycle.{ReceiverWorker, Outcome, start, status}
use multi_radio.Manager.Calls.{find_worker, get_receiver_status}
use multi_radio.Manager.Lookup.{worker_of}
use multi_radio.Manager.Isolation.{
  start_request, stop_request, handle, call_of, handle-not_found, handle-found,
}

abbrev two_workers : List (ReceiverWorker ℕ)
two_workers = record stopped_worker { receiver_id = 0 } ∷ stopped_worker ∷ []

one_found : worker_of 1 two_workers ≡ some stopped_worker
unfolding find_worker
one_found = refl

start_called : call_of whole 5 start_request stopped_worker ≡ some (start whole stopped_worker)
unfolding call_of
start_called = refl

handle-found_example :
    (ws' : List (ReceiverWorker ℕ)) × (handle whole 5 1 start_request two_workers
      ≡ some (ws', (start whole stopped_worker).1))
    × (get_receiver_status 1 ws' ≡ some (status (start whole stopped_worker).0))
    × (get_receiver_status 0 ws' ≡ get_receiver_status 0 two_workers)
handle-found_example =
    handle-found whole 5 1 0 start_request two_workers stopped_worker (start whole stopped_worker).0
      (start whole stopped_worker).1 one_found start_called (λ e. omega (arith, e))

handle-not_found_example :
    (o : Outcome ℕ) × (handle whole 5 9 stop_request two_workers ≡ some (two_workers, o))
    × (o.result ≡ false)
    × (is_empty o.error ≡ false)
    × (o.host_calls ≡ [])
    × (o.events ≡ [])
    × (get_receiver_status 9 two_workers ≡ none)
handle-not_found_example =
    handle-not_found whole 5 9 stop_request two_workers
      ((λ e. omega (arith, e)), ((λ e. omega (arith, e)), tt))
