-- ===== src/Broker/Setup.antt =====
-- cmd/service-broker/app/controller.go: the services of a setting become replicas. The state comes
-- back from each method; a panic of the source is `none`.
use aion_core.Prelude.{String, Option, none, some, [], ◌∷◌, Dict, insert}
use aion_core.Config.Types.{Microservice}
use aion_core.Microservice.Scale.{put_env, new_scale_container}
use aion_core.Broker.State.{Parts, Controller, on_worker, set_service_status_deactivate}

module _ {S C E : Type 0} (parts : Parts S C E) where
  open parts use {ops, new_container}

  -- The three environment values of `setMicroserviceList`.
  unfoldable pub set_aion_env : Controller S C → Microservice → Option Microservice
  set_aion_env msc ms_data = elim (put_env "AION_HOME" msc.aion_home ms_data) [
    | none ↦ none
    | some a ↦ elim (put_env "DEVICE_NAME" msc.aion_setting.device_name a) [
      | none ↦ none
      | some b ↦ put_env "DEBUG" msc.aion_setting.debug b
    ]
  ]

  -- The service's data comes back too, since NewScaleContainer writes to its environment.
  unfoldable pub set_microservice :
      String → Microservice → Controller S C → Option (Microservice × Controller S C)
  set_microservice ms_name ms_data msc =
      elim (new_scale_container (new_container ms_name) ms_name ms_data) [
        | none ↦ none
        | some (last, sc) ↦
            some (last, record msc { microservice_list = insert ms_name sc msc.microservice_list })
      ]

  -- One round of the loop.
  unfoldable pub set_one :
      String → Microservice → Controller S C → Option (Microservice × Controller S C)
  unfolding set_aion_env set_microservice
  set_one ms_name ms_data msc = elim (set_aion_env msc ms_data) [
    | none ↦ none
    | some with_env ↦ elim (set_microservice ms_name with_env msc) [
      | none ↦ none
      | some (last, msc') ↦ some (last, on_worker (set_service_status_deactivate ms_name) msc')
    ]
  ]

  unfoldable pub set_loop :
      Dict (Option Microservice)
      → Controller S C
      → Option (Dict (Option Microservice) × Controller S C)
  unfolding set_one
  set_loop [] msc = some ([], msc)
  set_loop ((ms_name, none) ∷ m) msc = none
  set_loop ((ms_name, some ms_data) ∷ m) msc = elim (set_one ms_name ms_data msc) [
    | none ↦ none
    | some (last, msc') ↦ elim (set_loop m msc') [
      | none ↦ none
      | some (rest, msc'') ↦ some ((ms_name, some last) ∷ rest, msc'')
    ]
  ]

  unfoldable pub set_microservice_list : Controller S C → Option (Controller S C)
  unfolding set_loop
  set_microservice_list msc = elim (set_loop msc.aion_setting.microservices msc) [
    | none ↦ none
    | some (services, msc') ↦
        some (record msc' { aion_setting = record msc'.aion_setting { microservices = services } })
  ]
