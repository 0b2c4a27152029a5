-- ===== src/Microservice/Container.antt =====
-- internal/microservice/container.go: a replica of a service as resources of the cluster.
use aion_core.Prelude.{String, not, Option, none, some, List, [], ◌∷◌, Dict, Result, if◌then◌else◌}
use aion_core.Prelude.Int.{ℤ}
use aion_core.Config.Types.{Microservice}
use aion_core.K8s.{K8sEnv}
use aion_core.K8s.Pod.{Pod, new_pod}
use aion_core.K8s.Api.{Api, Retry, K8sError}
use aion_core.K8s.Resources.{
  DeploymentObject, JobObject, ServiceObject, ConfigMapObject, Workload, new_workload,
  apply_deployment, apply_job, delete_deployment, delete_job, Service, new_service, apply_service,
  delete_service, ConfigMap, new_config_map, apply_config_map, delete_config_map,
}
use aion_core.Microservice.Scale.{ContainerOps}

pub data K8sResource : Type 0 where
  job deployment : Workload → K8sResource

pub record ContainerMicroservice : Type 0 where
  pub k8s : K8sResource
  pub config_map : ConfigMap
  pub service : Service

-- The copy of the environment that a container gets.
unfoldable pub copied : Option (Dict String) → Dict String
copied none = []
copied (some env) = env

unfoldable pub pod_of : K8sEnv → String → Microservice → ℤ → Pod
unfolding new_pod copied
pod_of k8s_env ms_name data_ ms_num =
    new_pod ms_name data_.tag ms_num data_.command data_.ports (copied data_.env)
      data_.volume_mount_path_list data_.service_account data_.privileged k8s_env data_.target_node
      data_.resources

unfoldable pub workload_of : K8sEnv → String → Microservice → ℤ → Workload
unfolding new_workload pod_of
workload_of k8s_env ms_name data_ ms_num =
    new_workload ms_name ms_num (pod_of k8s_env ms_name data_ ms_num) k8s_env

unfoldable pub new_container_microservice :
    K8sEnv → String → Microservice → ℤ → ContainerMicroservice
unfolding workload_of new_config_map new_service
new_container_microservice k8s_env ms_name data_ ms_num =
    let workload = workload_of k8s_env ms_name data_ ms_num in
    record {
      k8s = if not data_.always then job workload else deployment workload;
      config_map = new_config_map ms_name ms_num k8s_env data_.target_node;
      service = new_service ms_name ms_num data_.ports data_.network k8s_env;
    }

-- The objects of the cluster, each kind in a state of its own.
pub record Cluster (M D J V : Type 0) : Type 0 where
  pub config_maps : M
  pub deployments : D
  pub jobs : J
  pub services : V

-- The clients for the kinds, the retries, the quantities and the embedded file.
pub record Clients (M D J V Q : Type 0) : Type 0 where
  pub config_maps : Api M ConfigMapObject
  pub deployments : Api D (DeploymentObject Q)
  pub jobs : Api J (JobObject Q)
  pub services : Api V ServiceObject
  pub retry_config_map : Retry M
  pub retry_deployment : Retry D
  pub retry_job : Retry J
  pub retry_service : Retry V
  pub parse : String → Option Q
  pub envoy_yaml : Result String String

-- What the two requests answer with.
pub data ProcessError : Type 0 where
  start_failed : K8sError → ProcessError
  stop_failed : List K8sError → ProcessError

abbrev pub noted : Option K8sError → List K8sError → List K8sError
noted none l = l
noted (some e) l = e ∷ l

unfoldable pub stop_error : List K8sError → Option ProcessError
stop_error [] = none
stop_error (e ∷ l) = some (stop_failed (e ∷ l))

module _ {M D J V Q : Type 0} (clients : Clients M D J V Q) where
  -- An apply or a delete of one kind, in the cluster; `none` is a panic.
  abbrev put_config_map : M × Option K8sError → Cluster M D J V → Cluster M D J V × Option K8sError
  put_config_map (m, e) s = (record s { config_maps = m }, e)

  abbrev put_deployment : D × Option K8sError → Cluster M D J V → Cluster M D J V × Option K8sError
  put_deployment (d, e) s = (record s { deployments = d }, e)

  abbrev put_job : J × Option K8sError → Cluster M D J V → Cluster M D J V × Option K8sError
  put_job (j, e) s = (record s { jobs = j }, e)

  abbrev put_service : V × Option K8sError → Cluster M D J V → Cluster M D J V × Option K8sError
  put_service (v, e) s = (record s { services = v }, e)

  unfoldable pub apply_map : ConfigMap → Cluster M D J V → Cluster M D J V × Option K8sError
  unfolding apply_config_map
  apply_map c s =
      put_config_map
        (apply_config_map clients.config_maps clients.retry_config_map clients.envoy_yaml c
          s.config_maps)
        s

  unfoldable pub apply_k8s :
      K8sResource → Cluster M D J V → Option (Cluster M D J V × Option K8sError)
  unfolding apply_job apply_deployment
  apply_k8s (job w) s = elim (apply_job clients.parse clients.jobs clients.retry_job w s.jobs) [
    | none ↦ none
    | some r ↦ some (put_job r s)
  ]
  apply_k8s (deployment w) s =
      elim (apply_deployment clients.parse clients.deployments clients.retry_deployment w
        s.deployments) [ none ↦ none | some r ↦ some (put_deployment r s) ]

  unfoldable pub apply_srv : Service → Cluster M D J V → Cluster M D J V × Option K8sError
  unfolding apply_service
  apply_srv v s = put_service (apply_service clients.services clients.retry_service v s.services) s

  unfoldable pub finish :
      Service → Cluster M D J V × Option K8sError → Cluster M D J V × Option ProcessError
  unfolding apply_srv
  finish v (s, some e) = (s, some (start_failed e))
  finish v (s, none) =
      let (s', e) = apply_srv v s in
      elim e [ none ↦ (s', none) | some e ↦ (s', some (start_failed e)) ]

  unfoldable pub go_on :
      ContainerMicroservice
      → Cluster M D J V × Option K8sError
      → Option (Cluster M D J V × Option ProcessError)
  unfolding apply_k8s finish
  go_on ms (s, some e) = some (s, some (start_failed e))
  go_on ms (s, none) = elim (apply_k8s ms.k8s s) [
    | none ↦ none
    | some r ↦ some (finish ms.service r)
  ]

  -- The first error ends the start; a panic is `none`.
  unfoldable pub start_process :
      ContainerMicroservice → Cluster M D J V → Option (Cluster M D J V × Option ProcessError)
  unfolding go_on apply_map
  start_process ms s = go_on ms (apply_map ms.config_map s)

  unfoldable pub delete_k8s : K8sResource → Cluster M D J V → Cluster M D J V × Option K8sError
  unfolding delete_job delete_deployment
  delete_k8s (job w) s = put_job (delete_job clients.jobs clients.retry_job w s.jobs) s
  delete_k8s (deployment w) s =
      put_deployment
        (delete_deployment clients.deployments clients.retry_deployment w s.deployments) s

  unfoldable pub delete_srv : Service → Cluster M D J V → Cluster M D J V × Option K8sError
  unfolding delete_service
  delete_srv v s =
      put_service (delete_service clients.services clients.retry_service v s.services) s

  unfoldable pub delete_map : ConfigMap → Cluster M D J V → Cluster M D J V × Option K8sError
  unfolding delete_config_map
  delete_map c s =
      put_config_map
        (delete_config_map clients.config_maps clients.retry_config_map c s.config_maps) s

  -- Every resource is deleted, whatever the others answer.
  unfoldable pub stop_all_process :
      ContainerMicroservice → Cluster M D J V → Cluster M D J V × Option ProcessError
  unfolding delete_srv delete_k8s delete_map stop_error
  stop_all_process ms s =
      let (s1, e1) = delete_srv ms.service s in
      let (s2, e2) = delete_k8s ms.k8s s1 in
      let (s3, e3) = delete_map ms.config_map s2 in
      (s3, stop_error (noted e1 (noted e2 (noted e3 []))))

  -- The containers of scale_container.go; a state `none` is a process that has panicked.
  abbrev started :
      Option (Cluster M D J V × Option ProcessError)
      → Option (Cluster M D J V) × Option ProcessError
  started none = (none, none)
  started (some (s, e)) = (some s, e)

  abbrev start_in :
      ContainerMicroservice
      → Option (Cluster M D J V)
      → Option (Cluster M D J V) × Option ProcessError
  start_in ms none = (none, none)
  start_in ms (some s) = started (start_process ms s)

  abbrev stop_in :
      ContainerMicroservice
      → Option (Cluster M D J V)
      → Option (Cluster M D J V) × Option ProcessError
  stop_in ms none = (none, none)
  stop_in ms (some s) = let (s', e) = stop_all_process ms s in (some s', e)

  abbrev pub container_ops :
      ContainerOps (Option (Cluster M D J V)) ContainerMicroservice ProcessError
  container_ops = record { start_process = start_in; stop_all_process = stop_in }
