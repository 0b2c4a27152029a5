-- ===== src/Broker/State.antt =====
-- The state of the controller of cmd/service-broker/app/controller.go.
use aion_core.Prelude.{ℕ, ◌+◌, String, Bool, true, false, List, Dict, insert, if◌then◌else◌}
use aion_core.Prelude.Int.{ℤ}
use aion_core.Config.Types.{Microservice, Project}
use aion_core.Microservice.Scale.{ContainerOps, ScaleContainer, ScaleError}

-- What the controller is built from: the processes, and the container of a replica. A start or a
-- stop that panics leaves a state in which the program is not alive any more.
pub record Parts (S C E : Type 0) : Type 0 where
  pub ops : ContainerOps S C E
  pub new_container : String → Microservice → ℕ → C
  pub alive : S → Bool

-- `update_triggers` counts the sends on the channel `updateTrigger`: each message is a reference
-- to `microservices_status` itself. `watched` are the watchers that run, as started by `go
-- msc.watcher.WatchMicroservice`, newest first; cancelling their context ends them all.
pub record Controller (S C : Type 0) : Type 0 where
  pub aion_home : String
  pub is_worker_mode : Bool
  pub microservice_list : Dict (ScaleContainer C)
  pub aion_setting : Project
  pub microservices_status : Dict Bool
  pub update_triggers : ℕ
  pub watched : List (String × ℤ)
  pub cluster : S

pub data ControllerError (E : Type 0) : Type 0 where
  no_such_microservice : ControllerError E
  startup_failed : ControllerError E
  scale_error : ScaleError E → ControllerError E

module _ {S C : Type 0} where
  -- The two differ only in when the lock is held, which the sequence of states does not show.
  unfoldable pub set_service_status : Bool → String → Controller S C → Controller S C
  set_service_status active service_name msc = record msc {
    microservices_status = insert service_name active msc.microservices_status;
    update_triggers = msc.update_triggers + 1;
  }

  abbrev pub set_service_status_active : String → Controller S C → Controller S C
  set_service_status_active = set_service_status true

  abbrev pub set_service_status_deactivate : String → Controller S C → Controller S C
  set_service_status_deactivate = set_service_status false

  -- if msc.config.IsWorkerMode() { … }
  abbrev pub on_worker : (Controller S C → Controller S C) → Controller S C → Controller S C
  on_worker f msc = if msc.is_worker_mode then f msc else msc
