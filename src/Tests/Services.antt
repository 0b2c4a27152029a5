-- ===== src/Tests/Services.antt =====
-- The replicas of a service and the controller, on a cluster that records the processes that run.
use aion_core.Prelude.{
  Dict, lookup, map, arith, eq_iff, ℕ, suc, ◌+◌, ◌≡◌, ◌≢◌, ◌⊎◌, refl, String, true, false, Option,
  none, some, List, [], ◌∷◌, if◌then◌else◌,
}
use aion_core.Prelude.Int.{ℤ, pos, pos_part, eq_ℤ, lookup_int}
use aion_core.Config.Types.{Microservice, NextServiceSetting, Device, AionSetting}
use aion_core.Config.Project.{get_device_list}
use aion_core.Kanban.Types.{Fields, StatusKanban}
use aion_core.Broker.Watcher.{Json, json_string, route_all}
use aion_core.Broker.Routing.{
  to_device, local_effects, concat_map, route_all-to_device, route_all-local_effects,
}
use aion_core.Microservice.Scale.{
  ContainerOps, ScaleContainer, process, get_scale, new_scale_container, start_microservice,
  stop_microservice,
}
use aion_core.Microservice.Scale.Laws.{
  up_state, start_microservice_ok, stop_microservice_ok, start-stop_microservice,
}
use aion_core.Microservice.Fresh.{is_between, new_scale_container_lem}
use aion_core.Tests.Project.{camera}

-- A container is the number of its replica. The cluster lists what was started; a third process
-- is refused.
abbrev start_on : ℕ → List ℕ → List ℕ × Option String
start_on c (x ∷ y ∷ s) = (x ∷ y ∷ s, some "full")
start_on c s = (c ∷ s, none)

abbrev bench : ContainerOps (List ℕ) ℕ String
bench = record { start_process = start_on; stop_all_process = λ c s. ([], none) }

abbrev two_replicas : ScaleContainer ℕ
two_replicas = record {
  name = "camera";
  container_list =
      (pos 1, record { container = 1; num_of_up_state = 1 })
      ∷ (pos 2, record { container = 2; num_of_up_state = 0 })
      ∷ [];
  multiple = false;
}

starts : (start_microservice bench two_replicas (pos 2) (1 ∷ [])).2 ≡ none
unfolding start_microservice lookup_int
starts = refl

start_microservice_ok_example :
    (k : ℕ) × (up_state two_replicas (pos 2) ≡ some k)
    × ((two_replicas.multiple ≡ true) ⊎ (k ≡ 0))
    × ((n : ℤ)
        → up_state (start_microservice bench two_replicas (pos 2) (1 ∷ [])).0 n
          ≡ (if eq_ℤ (pos 2) n then some (k + 1) else up_state two_replicas n))
start_microservice_ok_example = start_microservice_ok bench two_replicas (pos 2) (1 ∷ []) starts

stops : (stop_microservice bench two_replicas (pos 1) (1 ∷ [])).2 ≡ none
unfolding stop_microservice lookup_int
stops = refl

stop_microservice_ok_example :
    (k : ℕ) × (up_state two_replicas (pos 1) ≡ some (suc k))
    × ((n : ℤ)
        → up_state (stop_microservice bench two_replicas (pos 1) (1 ∷ [])).0 n
          ≡ (if eq_ℤ (pos 1) n then some 0 else up_state two_replicas n))
stop_microservice_ok_example = stop_microservice_ok bench two_replicas (pos 1) (1 ∷ []) stops

start-stop_microservice_example :
    let e =
      (start_microservice bench
        (stop_microservice bench two_replicas (pos 1) (1 ∷ [])).0
        (pos 1)
        []).2 in
    (e ≡ none) ⊎ ((f : String) × (e ≡ some (process f)))
start-stop_microservice_example =
    start-stop_microservice bench two_replicas (pos 1) (1 ∷ []) [] stops

abbrev with_env : Microservice
with_env = record camera { env = some (("DEBUG", "1") ∷ []) }

abbrev number_of : Microservice → ℕ → ℕ
number_of ms n = n

new_scale_container_lem_example :
    (last : Microservice) × (sc : ScaleContainer ℕ) × (new_scale_container number_of "camera"
        with_env
      ≡ some (last, sc))
    × (last.env ≢ none)
    × (get_scale sc ≡ pos_part with_env.scale)
    × (sc.multiple ≡ with_env.multiple)
    × ((j : ℤ)
        → up_state sc j ≡ (if is_between 1 (1 + pos_part with_env.scale) j then some 0 else none))
new_scale_container_lem_example = new_scale_container_lem number_of "camera" with_env (λ e. cc)

abbrev finished : StatusKanban
finished = record {
  start_at = "";
  finish_at = "";
  next_device_name = "desk";
  connection_key = "default";
  process_number = pos 2;
  prior_success = true;
  data_path = "/var/lib/aion/Data/camera_1";
  file_list = [];
  metadata = none;
}

abbrev to_lamp : NextServiceSetting
to_lamp = record { next_service_name = "lamp"; number_pattern = "n"; next_device = "" }

abbrev to_bell : NextServiceSetting
to_bell = record { next_service_name = "bell"; number_pattern = "0"; next_device = "porch" }

abbrev desk : Device
desk = record {
  addr = "10.0.0.2";
  ssh_port = pos 22;
  username = "aion";
  password = "x";
  aion_home = "/var/lib/aion";
}

abbrev house : AionSetting
house = record {
  aion = record {
    microservices = [];
    devices = ("desk", desk) ∷ [];
    device_name = "office";
    debug = "";
  };
}

named : finished.next_device_name ≢ ""
named = λ e. ground (arith, eq_iff "desk" "", e)

desk-known : lookup "desk" (get_device_list house) ≡ some desk
unfolding lookup
desk-known = refl

office-unknown : lookup "office" (get_device_list house) ≡ none
unfolding lookup
office-unknown = refl

porch-unknown : lookup "porch" (get_device_list house) ≡ none
unfolding lookup
porch-unknown = refl

blank-unknown : lookup "" (get_device_list house) ≡ none
unfolding lookup
blank-unknown = refl

route_all-to_device_example :
    route_all house finished (to_lamp ∷ to_bell ∷ [])
    ≡ map (to_device "desk" desk finished) (to_lamp ∷ to_bell ∷ [])
route_all-to_device_example =
    route_all-to_device house finished desk (to_lamp ∷ to_bell ∷ []) named desk-known

abbrev unsent : StatusKanban
unsent = record finished { next_device_name = "" }

route_all-local_effects_example :
    route_all house unsent (to_lamp ∷ to_bell ∷ [])
    ≡ concat_map (local_effects house unsent) (to_lamp ∷ to_bell ∷ [])
route_all-local_effects_example =
    route_all-local_effects house unsent (to_lamp ∷ to_bell ∷ []) office-unknown
      ((blank-unknown, blank-unknown), ((blank-unknown, porch-unknown), tt))

abbrev no_metadata : Option Fields → Option (Dict Json)
no_metadata m = some (("type", json_string "terminate") ∷ ("name", json_string "lamp") ∷ [])

abbrev stopping : StatusKanban
stopping = record finished { connection_key = "service-broker" }
