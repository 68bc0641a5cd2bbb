-- ===== src/Manager/Calls.antt =====
-- `ReceiverManager` of backend/src/receiver_manager.cpp. Its state is the list of its workers; a
-- call holds the lock from its start to its end. `none` stands for the fuel of `SetModeConfig`
-- running out.
use multi_radio.Common.{
  ℕ, suc, false, Option, none, some, List, [], ◌∷◌, map, ◌==◌, if◌then◌else◌, ◌>>=◌, get_elem?, set,
  codes,
}
use multi_radio.Types.Data.{RadioMode, ModeConfig, Int32, ReceiverDescriptor, ReceiverStatus}
use multi_radio.Types.Double.{Doubles}
use multi_radio.Worker.Lifecycle.{
  ReceiverWorker, Outcome, start, stop, set_mode as worker_set_mode,
  set_mode_config as worker_set_mode_config, status, get_mode_config,
}

-- What the factory enumerates, where there is one.
unfoldable pub build_api_only_descriptors :
    Option (List ReceiverDescriptor) → List ReceiverDescriptor
build_api_only_descriptors (some (d ∷ ds)) = d ∷ ds
build_api_only_descriptors _ = record { receiver_id = 0; serial = codes "virtual-0" } ∷ []

module _ {D : Type 0} where
  -- The position of the first worker with an id.
  unfoldable pub find_worker : ℕ → List (ReceiverWorker D) → Option ℕ
  unfolding status
  find_worker id [] = none
  find_worker id (w ∷ ws) =
      let later = find_worker id ws in
      if (status w).receiver_id == id
      then some 0
      else elim later [ none ↦ none | some i ↦ some (suc i) ]

  abbrev pub worker_at : Option ℕ → List (ReceiverWorker D) → Option (ReceiverWorker D)
  worker_at none ws = none
  worker_at (some i) ws = get_elem? ws i

  abbrev pub not_found : Outcome D
  not_found = record {
    result = false;
    error = codes "receiver not found";
    host_calls = [];
    events = [];
  }

  unfoldable pub list_receivers : List (ReceiverWorker D) → List (ReceiverStatus D)
  list_receivers ws = map status ws

  abbrev pub status_of : Option (ReceiverWorker D) → Option (ReceiverStatus D)
  status_of none = none
  status_of (some w) = some (status w)

  -- `none` is the error "receiver not found".
  unfoldable pub get_receiver_status : ℕ → List (ReceiverWorker D) → Option (ReceiverStatus D)
  get_receiver_status id ws = status_of (worker_at (find_worker id ws) ws)

  -- The worker after the call takes its place in the list.
  abbrev pub put_back :
      List (ReceiverWorker D)
      → ℕ
      → Option (ReceiverWorker D × Outcome D)
      → Option (List (ReceiverWorker D) × Outcome D)
  put_back ws i none = none
  put_back ws i (some (w, o)) = some (set ws i w, o)

  abbrev pub call_on :
      (ReceiverWorker D → Option (ReceiverWorker D × Outcome D))
      → List (ReceiverWorker D)
      → ℕ
      → Option (ReceiverWorker D)
      → Option (List (ReceiverWorker D) × Outcome D)
  call_on call ws i none = some (ws, not_found)
  call_on call ws i (some w) = put_back ws i (call w)

  abbrev pub call_at :
      (ReceiverWorker D → Option (ReceiverWorker D × Outcome D))
      → List (ReceiverWorker D)
      → Option ℕ
      → Option (List (ReceiverWorker D) × Outcome D)
  call_at call ws none = some (ws, not_found)
  call_at call ws (some i) = call_on call ws i (get_elem? ws i)

  -- A call on the worker that is found.
  unfoldable pub on_worker :
      ℕ
      → (ReceiverWorker D → Option (ReceiverWorker D × Outcome D))
      → List (ReceiverWorker D)
      → Option (List (ReceiverWorker D) × Outcome D)
  on_worker id call ws = call_at call ws (find_worker id ws)

module _ {D : Type 0} (f : Doubles D) where
  unfoldable pub start_receiver :
      ℕ → List (ReceiverWorker D) → Option (List (ReceiverWorker D) × Outcome D)
  unfolding on_worker
  start_receiver id ws = on_worker id (λ w. some (start f w)) ws

  unfoldable pub stop_receiver :
      ℕ → List (ReceiverWorker D) → Option (List (ReceiverWorker D) × Outcome D)
  unfolding on_worker
  stop_receiver id ws = on_worker id (λ w. some (stop w)) ws

  unfoldable pub set_mode :
      ℕ → RadioMode → List (ReceiverWorker D) → Option (List (ReceiverWorker D) × Outcome D)
  unfolding on_worker
  set_mode id mode ws = on_worker id (λ w. some (worker_set_mode f mode w)) ws

  unfoldable pub set_mode_config :
      ℕ → ℕ → ModeConfig D → List (ReceiverWorker D) → Option (List (ReceiverWorker D) × Outcome D)
  unfolding on_worker
  set_mode_config fuel id config ws = on_worker id (worker_set_mode_config f fuel config) ws

  -- The loop over all workers; the results are dropped.
  unfoldable pub apply_hardware_ppm :
      ℕ → Int32 → List (ReceiverWorker D) → Option (List (ReceiverWorker D))
  apply_hardware_ppm fuel correction [] = some []
  apply_hardware_ppm fuel correction (w ∷ ws) = do
    (w', _) ←
        worker_set_mode_config f fuel (record (get_mode_config w) { ppm_correction = correction }) w
    ws' ← apply_hardware_ppm fuel correction ws
    some (w' ∷ ws')
