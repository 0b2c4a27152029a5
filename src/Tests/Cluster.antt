-- ===== src/Tests/Cluster.antt =====
-- A cluster that stores what it is given, and a replica of a service in it.
use aion_core.Prelude.{
  ℕ, zero, suc, String, true, false, [], ◌∷◌, All, Dict, lookup, insert, erase, lookup-insert,
  get_elem?, Option, none, some, ok, ◌≡◌, ◌↔◌, ◌⊎◌, refl, eq_iff, arith,
}
use aion_core.Prelude.Int.{pos}
use aion_core.Config.Types.{Microservice}
use aion_core.K8s.{K8sEnv}
use aion_core.K8s.Pod.{Pod, PodTemplateSpec, config, config_map}
use aion_core.K8s.Api.{Api}
use aion_core.K8s.Laws.{ApiLaws}
use aion_core.K8s.VolumeNames.{is_among, volume_names, AllApart}
use aion_core.K8s.Mounts.{mounts, config-IsMounted}
use aion_core.K8s.Resources.{
  DeploymentObject, JobObject, ServiceObject, ConfigMapObject, service_config,
}
use aion_core.Microservice.Container.{
  ContainerMicroservice, Cluster, Clients, ProcessError, workload_of, new_container_microservice,
  delete_k8s, start_process, stop_all_process,
}
use aion_core.Microservice.Started.{
  map_name, deployment_name, job_name, service_name, ClusterLaws, HasMap, HasWorkload, IsRunning,
  start_process_lem,
}
use aion_core.Microservice.Stopped.{
  service_gone, map_gone, stop_all_process_lem, workload_of-labels,
}
use aion_core.Tests.Project.{bare}

module _ {O : Type 0} (name_of : O → String) where
  abbrev put : O → Dict O → Dict O × Option String
  put o s = (insert (name_of o) o s, none)

  abbrev found : Option O → Option String
  found none = some "not found"
  found (some o) = none

  abbrev shelf : Api (Dict O) O
  shelf = record {
    get = λ name s. (s, found (lookup name s));
    create = put;
    update = put;
    delete = λ name s. (erase name s, none);
  }

  put-lookup : (o : O) (s : Dict O) → lookup (name_of o) (insert (name_of o) o s) ≡ some o
  put-lookup o s =
      let e = lookup-insert (name_of o) (name_of o) o s in
      ground (arith, e, eq_iff (name_of o) (name_of o))

  shelf_laws : ApiLaws shelf name_of
  shelf_laws = record {
    stored = λ s name. lookup name s;
    created = λ o s h. put-lookup o s;
    updated = λ o s h. put-lookup o s;
  }

-- Attempts until one succeeds.
abbrev attempts {ℓ} : {S : Type ℓ} → ℕ → (S → S × Option String) → S → S × Option String
attempts zero f s = (s, some "gave up")
attempts (suc n) f s =
    let (s', e) = f s in let rest = attempts n f s' in elim e [ none ↦ (s', none) | some m ↦ rest ]

abbrev pub Shelves : Type 0
Shelves =
    Cluster (Dict ConfigMapObject) (Dict (DeploymentObject String)) (Dict (JobObject String))
      (Dict ServiceObject)

abbrev pub desks :
    Clients
      (Dict ConfigMapObject)
      (Dict (DeploymentObject String))
      (Dict (JobObject String))
      (Dict ServiceObject)
      String
desks = record {
  config_maps = shelf map_name;
  deployments = shelf deployment_name;
  jobs = shelf job_name;
  services = shelf service_name;
  retry_config_map = attempts;
  retry_deployment = attempts;
  retry_job = attempts;
  retry_service = attempts;
  parse = λ t. some t;
  envoy_yaml = ok "name: {MICROSERVICE_NAME}";
}

pub desks_laws : ClusterLaws desks
desks_laws = record {
  map_laws = shelf_laws map_name;
  deployment_laws = shelf_laws deployment_name;
  job_laws = shelf_laws job_name;
  service_laws = shelf_laws service_name;
}

abbrev pub env : K8sEnv
env = record {
  aion_data_path = "/var/lib/aion";
  repository_prefix = "latonaio";
  namespace = "default";
  registry_secret = "dockerhub";
}

abbrev mounting : Microservice
mounting = record bare { volume_mount_path_list = "/dev:/dev" ∷ "/tmp:/tmp:Bidirectional" ∷ [] }

abbrev pub replica : ContainerMicroservice
replica = new_container_microservice env "registry/camera" mounting (pos 1)

abbrev pub empty : Shelves
empty = record { config_maps = []; deployments = []; jobs = []; services = [] }

abbrev state_of : Option (Shelves × Option ProcessError) → Shelves
state_of none = empty
state_of (some (s, e)) = s

abbrev pub full : Shelves
full = state_of (start_process desks replica empty)

fills : start_process desks replica empty ≡ some (full, none)
unfolding start_process lookup new_container_microservice
fills = refl

abbrev no_error : Option ProcessError
no_error = none

start_process_lem_example :
    (no_error ≡ none → IsRunning desks desks_laws replica full)
    × ((full.services ≡ empty.services)
        ⊎ (HasMap desks desks_laws replica.config_map full.config_maps
            × HasWorkload desks desks_laws replica.k8s full))
start_process_lem_example = start_process_lem desks desks_laws replica empty full no_error fills

stop_all_process_lem_example :
    ((stop_all_process desks replica full).0 ≡ record {
      config_maps = (map_gone desks replica full).0;
      deployments = (delete_k8s desks replica.k8s full).0.deployments;
      jobs = (delete_k8s desks replica.k8s full).0.jobs;
      services = (service_gone desks replica full).0;
    })
    × (((stop_all_process desks replica full).1 ≡ none) ↔ (
        ((service_gone desks replica full).1 ≡ none)
        × ((delete_k8s desks replica.k8s full).1 ≡ none)
        × ((map_gone desks replica full).1 ≡ none)))
stop_all_process_lem_example = stop_all_process_lem desks replica full

abbrev known_quantity : String → Option String
known_quantity t = some t

abbrev camera_pod : Pod
camera_pod = (workload_of env "registry/camera" mounting (pos 1)).pod

abbrev pub template_of : Option (PodTemplateSpec String) → PodTemplateSpec String
template_of none = record {
  labels = [];
  hostname = "";
  share_process_namespace = false;
  service_account_name = "";
  image_pull_secret = "";
  containers = [];
  volumes = [];
  node_selector = none;
  restart_policy = none;
}
template_of (some t) = t

abbrev camera_template : PodTemplateSpec String
camera_template = template_of (config known_quantity camera_pod)

made : config known_quantity camera_pod ≡ some camera_template
unfolding config workload_of
made = refl

config-IsMounted_example :
    All
      (λ n. is_among n (volume_names camera_template.volumes) ≡ true)
      (mounts camera_template.containers)
    × AllApart (volume_names camera_template.volumes)
config-IsMounted_example = config-IsMounted known_quantity camera_pod camera_template made

workload_of-labels_example :
    (camera_template.labels
      ≡ (service_config
          (new_container_microservice env "registry/camera" mounting (pos 1)).service).selector)
    × (get_elem? camera_template.volumes 1
        ≡ some (record {
          name = "envoy";
          volume_source =
              config_map
                (new_container_microservice env "registry/camera" mounting (pos 1)).config_map.name;
        }))
workload_of-labels_example =
    workload_of-labels known_quantity env "registry/camera" mounting (pos 1) camera_template made
