-- ===== src/Tests/Replicas.antt =====
-- Starts of the replicas of a service on a cluster that stores what it is given.
use aion_core.Prelude.{if◌then◌else◌, ◌+◌, false, [], ◌∷◌, lookup, Option, none, some, ◌≡◌, refl}
use aion_core.Prelude.Int.{ℤ, pos, eq_ℤ, lookup_int}
use aion_core.Config.Types.{Microservice}
use aion_core.Microservice.Container.{
  ContainerMicroservice, ProcessError, new_container_microservice, start_process,
}
use aion_core.Microservice.Started.{IsRunning}
use aion_core.K8s.{split_colon}
use aion_core.K8s.Panics.{HasNoColon}
use aion_core.Microservice.Container.{apply_map, container_ops}
use aion_core.Microservice.Refused.{pod_in, start_process-none}
use aion_core.Microservice.Scale.{ContainerStatus, ScaleContainer, ScaleError, start_microservice}
use aion_core.Microservice.Scale.Laws.{up_state}
use aion_core.Microservice.Scale.Running.{start_microservice-IsRunning}
use aion_core.Tests.Project.{bare}
use aion_core.Tests.Cluster.{Shelves, desks, desks_laws, env, replica, empty, full}

abbrev cameras : ScaleContainer ContainerMicroservice
cameras = record {
  name = "camera";
  container_list = (pos 1, record { container = replica; num_of_up_state = 0 }) ∷ [];
  multiple = false;
}

abbrev asked :
    ScaleContainer ContainerMicroservice × Option Shelves × Option (ScaleError ProcessError)
asked = start_microservice (container_ops desks) cameras (pos 1) (some empty)

answered : asked.2 ≡ none
unfolding start_microservice start_process lookup new_container_microservice lookup_int
answered = refl

stored_by : asked.1 ≡ some full
unfolding start_microservice start_process lookup new_container_microservice lookup_int
stored_by = refl

start_microservice-IsRunning_example :
    (status : ContainerStatus ContainerMicroservice) × (lookup_int (pos 1) cameras.container_list
      ≡ some status)
    × IsRunning desks desks_laws status.container full
    × ((n : ℤ)
        → up_state asked.0 n
          ≡ (if eq_ℤ (pos 1) n then some (status.num_of_up_state + 1) else up_state cameras n))
start_microservice-IsRunning_example =
    start_microservice-IsRunning desks desks_laws cameras (pos 1) empty full answered stored_by

abbrev one_part : Microservice
one_part = record bare { volume_mount_path_list = "/tmp:/tmp" ∷ "/dev" ∷ [] }

abbrev broken : ContainerMicroservice
broken = new_container_microservice env "camera" one_part (pos 1)

no_colon : HasNoColon (pod_in broken.k8s).volume_mount_path_list
unfolding new_container_microservice split_colon
no_colon = ("/tmp:/tmp" ∷ [], "/dev", [], refl, refl)

map_applied : (apply_map desks broken.config_map empty).1 ≡ none
unfolding apply_map new_container_microservice lookup
map_applied = refl

start_process-none_example : start_process desks broken empty ≡ none
start_process-none_example = start_process-none desks broken empty no_colon map_applied
