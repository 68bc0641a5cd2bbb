-- ===== src/Manager/Isolation.antt =====
-- What the calls of backend/src/receiver_manager.cpp change and what they leave alone.
use multi_radio.Worker.Config.{is_scan_range, normalize_mode_config}
use multi_radio.Common.{
  ℕ, ◌≡◌, refl, ap, ◌∙◌, ◌≢◌, inl, inr, false, Option, none, some, List, [], ◌∷◌, arith, ◌==◌,
  Bool-cases, Option-cases, is_empty, All,
}
use multi_radio.Types.Data.{RadioMode, ModeConfig}
use multi_radio.Types.Double.{Doubles}
use multi_radio.Worker.Lifecycle.{
  ReceiverWorker, Outcome, start, stop, set_mode as worker_set_mode,
  set_mode_config as worker_set_mode_config, status, range_frequencies,
}
use multi_radio.Manager.Calls.{
  find_worker, worker_at, not_found, status_of, get_receiver_status, call_at, on_worker,
  start_receiver, stop_receiver, set_mode, set_mode_config,
}
use multi_radio.Manager.Lookup.{worker_of, on_worker-found}

-- The requests that change a receiver.
pub data Request (D : Type 0) : Type 0 where
  start_request stop_request : Request D
  mode_request : RadioMode → Request D
  config_request : ModeConfig D → Request D

module _ {D : Type 0} (f : Doubles D) where
  unfoldable pub handle :
      ℕ → ℕ → Request D → List (ReceiverWorker D) → Option (List (ReceiverWorker D) × Outcome D)
  handle fuel id start_request ws = start_receiver f id ws
  handle fuel id stop_request ws = stop_receiver f id ws
  handle fuel id (mode_request mode) ws = set_mode f id mode ws
  handle fuel id (config_request config) ws = set_mode_config f fuel id config ws

  -- The call on the worker itself.
  unfoldable pub call_of : ℕ → Request D → ReceiverWorker D → Option (ReceiverWorker D × Outcome D)
  call_of fuel start_request w = some (start f w)
  call_of fuel stop_request w = some (stop w)
  call_of fuel (mode_request mode) w = some (worker_set_mode f mode w)
  call_of fuel (config_request config) w = worker_set_mode_config f fuel config w

  handle-on_worker :
      (fuel id : ℕ) (q : Request D) (ws : List (ReceiverWorker D))
      → handle fuel id q ws ≡ on_worker id (call_of fuel q) ws
  unfolding handle call_of start_receiver stop_receiver set_mode set_mode_config
  handle-on_worker fuel id start_request ws = refl
  handle-on_worker fuel id stop_request ws = refl
  handle-on_worker fuel id (mode_request mode) ws = refl
  handle-on_worker fuel id (config_request config) ws = refl

  find_worker-none :
      (id : ℕ) (ws : List (ReceiverWorker D))
      → All (λ w. w.receiver_id ≢ id) ws
      → find_worker id ws ≡ none
  unfolding find_worker status
  find_worker-none id [] absent = refl
  find_worker-none id (w ∷ ws) absent =
      let other : (w.receiver_id == id) ≡ false = ground (arith, absent.0) in
      rw (other, find_worker-none id ws absent.1) refl

  -- A request for a receiver that is not there fails with an error and changes no receiver; it makes
  -- no call on the plugin host and no event. Its status is not there either.
  pub handle-not_found :
      (fuel id : ℕ) (q : Request D) (ws : List (ReceiverWorker D))
      → All (λ w. w.receiver_id ≢ id) ws
      → (o : Outcome D) × (handle fuel id q ws ≡ some (ws, o))
        × (o.result ≡ false)
        × (is_empty o.error ≡ false)
        × (o.host_calls ≡ [])
        × (o.events ≡ [])
        × (get_receiver_status id ws ≡ none)
  unfolding on_worker get_receiver_status
  handle-not_found fuel id q ws absent =
      let lost = find_worker-none id ws absent in
      (
        not_found,
        handle-on_worker fuel id q ws ∙ ap (call_at (call_of fuel q) ws) lost,
        refl,
        refl,
        refl,
        refl,
        ap (λ k. status_of (worker_at k ws)) lost,
      )

  call_of-receiver_id :
      (fuel : ℕ) (q : Request D) (w w' : ReceiverWorker D) (o : Outcome D)
      → call_of fuel q w ≡ some (w', o)
      → w'.receiver_id ≡ w.receiver_id
  unfolding call_of start stop worker_set_mode worker_set_mode_config
  call_of-receiver_id fuel start_request w w' o h = elim (Bool-cases w.running) [
    | inl on ↦ ground (arith, on, h)
    | inr off ↦ ground (arith, off, h)
  ]
  call_of-receiver_id fuel stop_request w w' o h = elim (Bool-cases w.running) [
    | inl on ↦ ground (arith, on, h)
    | inr off ↦ ground (arith, off, h)
  ]
  call_of-receiver_id fuel (mode_request mode) w w' o h = ground (arith, h)
  call_of-receiver_id fuel (config_request config) w w' o h =
      elim (Bool-cases (is_scan_range w.mode)) [
        | inl range ↦
            elim (Option-cases (range_frequencies f fuel (normalize_mode_config config))) [
              | inl out ↦ ground (arith, range, out, h)
              | inr (xs, listed) ↦ ground (arith, range, listed, h)
            ]
        | inr other ↦ ground (arith, other, h)
      ]

module _ {D : Type 0} (f : Doubles D) where
  -- A request for a receiver that is there is the call on the first worker with its id: it has that
  -- call's result, error, calls on the plugin host and events, the status of the receiver is then
  -- that of its worker, and the status of a receiver with another id does not change. `SetModeConfig`
  -- has such a call where the loop over its range ends within the fuel.
  pub handle-found :
      (fuel id other : ℕ) (q : Request D) (ws : List (ReceiverWorker D)) (w w' : ReceiverWorker D)
      (o : Outcome D)
      → worker_of id ws ≡ some w
      → call_of f fuel q w ≡ some (w', o)
      → other ≢ id
      → (ws' : List (ReceiverWorker D)) × (handle f fuel id q ws ≡ some (ws', o))
        × (get_receiver_status id ws' ≡ some (status w'))
        × (get_receiver_status other ws' ≡ get_receiver_status other ws)
  unfolding get_receiver_status
  handle-found fuel id other q ws w w' o found done ne =
      let kept = call_of-receiver_id f fuel q w w' o done in
      let (ws', goes, there, rest) =
        on_worker-found id (call_of f fuel q) ws w w' o other found done kept ne in
      (ws', handle-on_worker f fuel id q ws ∙ goes, ap status_of there, ap status_of rest)
