-- ===== src/Broker/Loop.antt =====
-- cmd/service-broker/app/controller.go, WatchKanbanForMicroservice: the controller's event loop.
-- What its `select` may take up in a round is an event.
use aion_core.Prelude.{String, Bool, true, false, Option, none, some, List, [], ◌∷◌, if◌then◌else◌}
use aion_core.Prelude.Int.{ℤ}
use aion_core.Config.Types.{AionSetting}
use aion_core.Broker.State.{Parts, Controller}
use aion_core.Broker.Setup.{set_microservice_list}
use aion_core.Broker.Requests.{
  start_microservice_by_num, stop_all_microservice, start_startup_microservice,
}

pub data Event : Type 0 where
  -- from aionCh
  new_setting : AionSetting → Event
  -- from startCh
  start_request : String → ℤ → Event

-- `has_context` says that `childCtx` is set. `forwarded` is what went to the kanban watcher.
pub record Loop (S C : Type 0) : Type 0 where
  pub msc : Controller S C
  pub has_context : Bool
  pub forwarded : List AionSetting

module _ {S C E : Type 0} (parts : Parts S C E) where
  -- The part of a round with a setting that follows the loss of the old one: `cancel()` ends the
  -- old watchers, and the old services are stopped before the setting is replaced.
  unfoldable pub replace_setting : AionSetting → Controller S C → Controller S C
  replace_setting as_ msc =
      let stopped = stop_all_microservice parts (record msc { watched = [] }) in
      record stopped { aion_setting = as_.aion }

  unfoldable pub on_setting : AionSetting → Controller S C → Option (Controller S C)
  unfolding replace_setting
  on_setting as_ msc = elim (set_microservice_list parts (replace_setting as_ msc)) [
    | none ↦ none
    | some msc' ↦ elim (start_startup_microservice parts msc') [
      | none ↦ none
      | some (msc'', errors) ↦ some msc''
    ]
  ]

  -- A start that succeeds hands `childCtx` to a watcher, which panics if it is nil.
  unfoldable pub on_start : String → ℤ → Loop S C → Option (Loop S C)
  on_start name number l =
      let (msc', e) = start_microservice_by_num parts name number l.msc in
      elim e [
        | some e ↦ some (record l { msc = msc' })
        | none ↦ if l.has_context then some (record l { msc = msc' }) else none
      ]

  unfoldable pub on_event : Event → Loop S C → Option (Loop S C)
  unfolding on_setting on_start
  on_event (new_setting as_) l = elim (on_setting as_ l.msc) [
    | none ↦ none
    | some msc' ↦ some (record { msc = msc'; has_context = true; forwarded = as_ ∷ l.forwarded })
  ]
  on_event (start_request name number) l = on_start name number l

  -- One round of the `for` loop; `none` is a panic, of the round itself or of a process in it.
  unfoldable pub step : Event → Loop S C → Option (Loop S C)
  unfolding on_event
  step e l = elim (on_event e l) [
    | none ↦ none
    | some l' ↦ if parts.alive l'.msc.cluster then some l' else none
  ]

  unfoldable pub run : List Event → Loop S C → Option (Loop S C)
  unfolding step
  run [] l = some l
  run (e ∷ es) l = elim (step e l) [ none ↦ none | some l' ↦ run es l' ]

-- The controller of `StartMicroservicesController`, before any event. `aion_setting` is nil there
-- and is not read before the first setting is in place.
unfoldable pub initial : {S C : Type 0} → String → Bool → S → Loop S C
initial aion_home is_worker_mode cluster = record {
  msc = record {
    aion_home = aion_home;
    is_worker_mode = is_worker_mode;
    microservice_list = [];
    aion_setting = record { microservices = []; devices = []; device_name = ""; debug = "" };
    microservices_status = [];
    update_triggers = 0;
    watched = [];
    cluster = cluster;
  };
  has_context = false;
  forwarded = [];
}
