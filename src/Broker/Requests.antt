-- ===== src/Broker/Requests.antt =====
-- cmd/service-broker/app/controller.go: starting and stopping services.
use aion_core.Prelude.{
  ℕ, zero, suc, ◌+◌, String, Option, none, some, List, [], ◌∷◌, map, Dict, lookup, insert,
  if◌then◌else◌,
}
use aion_core.Prelude.Int.{ℤ, pos}
use aion_core.Config.Types.{Microservice}
use aion_core.Microservice.Scale.{
  ScaleContainer, ScaleError, get_scale, start_microservice, stop_microservice,
}
use aion_core.Broker.State.{
  Parts, Controller, ControllerError, no_such_microservice, startup_failed, scale_error,
  set_service_status_active, set_service_status_deactivate, on_worker,
}

module _ {S C E : Type 0} (parts : Parts S C E) where
  open parts use {ops}

  -- The state after a request: the service is changed in place.
  abbrev pub put_service : String → ScaleContainer C → S → Controller S C → Controller S C
  put_service name ms s msc = record msc {
    microservice_list = insert name ms msc.microservice_list;
    cluster = s;
  }

  -- go msc.watcher.WatchMicroservice(ctx, name, i), after a start without an error
  unfoldable pub watch_if_started :
      String → ℤ → Option (ScaleError E) → Controller S C → Controller S C
  watch_if_started name i none msc = record msc { watched = (name, i) ∷ msc.watched }
  watch_if_started name i (some e) msc = msc

  -- for i := 1; i <= ms.GetScale(); i++, from round `i` with `n` rounds left
  unfoldable pub start_loop : ℕ → ℕ → String → ScaleContainer C → Controller S C → Controller S C
  unfolding watch_if_started
  start_loop zero i name ms msc = msc
  start_loop (suc n) i name ms msc =
      let (ms', s', e) = start_microservice ops ms (pos i) msc.cluster in
      start_loop n (i + 1) name ms' (watch_if_started name (pos i) e (put_service name ms' s' msc))

  -- A replica that cannot be started is logged and skipped, so only a missing name is an error.
  unfoldable pub start_service :
      String → Controller S C → Controller S C × Option (ControllerError E)
  unfolding start_loop
  start_service name msc = elim (lookup name msc.microservice_list) [
    | none ↦ (msc, some no_such_microservice)
    | some ms ↦ (start_loop (get_scale ms) 1 name ms msc, none)
  ]

  unfoldable pub start_num_answer :
      String
      → ℤ
      → Option (ScaleError E)
      → Controller S C
      → Controller S C × Option (ControllerError E)
  start_num_answer name m_num (some e) msc = (msc, some (scale_error e))
  start_num_answer name m_num none msc =
      let msc' = on_worker (set_service_status_active name) msc in
      (record msc' { watched = (name, m_num) ∷ msc'.watched }, none)

  unfoldable pub start_microservice_by_num :
      String → ℤ → Controller S C → Controller S C × Option (ControllerError E)
  unfolding start_num_answer
  start_microservice_by_num name m_num msc = elim (lookup name msc.microservice_list) [
    | none ↦ (msc, some no_such_microservice)
    | some ms ↦
        let (ms', s', e) = start_microservice ops ms m_num msc.cluster in
        start_num_answer name m_num e (put_service name ms' s' msc)
  ]

  unfoldable pub stop_loop : ℕ → ℕ → String → ScaleContainer C → Controller S C → Controller S C
  stop_loop zero i name ms msc = msc
  stop_loop (suc n) i name ms msc =
      let (ms', s', e) = stop_microservice ops ms (pos i) msc.cluster in
      stop_loop n (i + 1) name ms' (put_service name ms' s' msc)

  unfoldable pub stop_service :
      String → Controller S C → Controller S C × Option (ControllerError E)
  unfolding stop_loop
  stop_service name msc = elim (lookup name msc.microservice_list) [
    | none ↦ (msc, some no_such_microservice)
    | some ms ↦ (
      on_worker (set_service_status_deactivate name) (stop_loop (get_scale ms) 1 name ms msc),
      none,
    )
  ]

  -- for name, _ := range msc.microserviceList
  unfoldable pub stop_each : List String → Controller S C → Controller S C
  unfolding stop_service
  stop_each [] msc = msc
  stop_each (name ∷ names) msc = stop_each names (stop_service name msc).0

  unfoldable pub stop_all_microservice : Controller S C → Controller S C
  unfolding stop_each
  stop_all_microservice msc = stop_each (map (λ p. p.0) msc.microservice_list) msc

  -- The error of a start skips the status; the loop goes on, and errors are reported at its end.
  unfoldable pub start_one :
      String
      → Microservice
      → Controller S C × Option (ControllerError E)
      → Controller S C × Option (ControllerError E)
  start_one ms_name ms_data (msc, errs) =
      if ms_data.startup
      then (let (msc', e) = start_service ms_name msc in
          elim e [
            | some e ↦ (msc', some startup_failed)
            | none ↦ (on_worker (set_service_status_active ms_name) msc', errs)
          ])
      else (msc, errs)

  unfoldable pub startup_loop :
      Dict (Option Microservice)
      → Controller S C × Option (ControllerError E)
      → Option (Controller S C × Option (ControllerError E))
  unfolding start_one
  startup_loop [] r = some r
  startup_loop ((ms_name, none) ∷ m) r = none
  startup_loop ((ms_name, some ms_data) ∷ m) r = startup_loop m (start_one ms_name ms_data r)

  unfoldable pub start_startup_microservice :
      Controller S C → Option (Controller S C × Option (ControllerError E))
  unfolding startup_loop
  start_startup_microservice msc = startup_loop msc.aion_setting.microservices (msc, none)
