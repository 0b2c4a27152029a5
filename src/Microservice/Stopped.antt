-- ===== src/Microservice/Stopped.antt =====
-- What a stop of internal/microservice/container.go does to the cluster, and how the resources of a
-- replica refer to each other.
use aion_core.Prelude.{String, Option, none, some, List, [], ◌≡◌, ◌↔◌, refl, ap, arith, get_elem?}
use aion_core.Prelude.Int.{ℤ}
use aion_core.Config.Types.{Microservice}
use aion_core.K8s.{K8sEnv}
use aion_core.K8s.Pod.{new_pod, Volume, config_map, PodTemplateSpec, config}
use aion_core.K8s.Mounts.{config-Made}
use aion_core.K8s.Api.{K8sError}
use aion_core.K8s.Resources.{
  new_workload, Service, new_service, service_config, ConfigMap, new_config_map, delete_service,
  delete_config_map,
}
use aion_core.Microservice.Container.{
  K8sResource, job, deployment, ContainerMicroservice, Cluster, Clients, noted, stop_error, pod_of,
  workload_of, new_container_microservice, delete_k8s, delete_srv, delete_map, stop_all_process,
}

stop_error-none :
    (a b c : Option K8sError)
    → (stop_error (noted a (noted b (noted c []))) ≡ none) ↔ ((a ≡ none) × (b ≡ none) × (c ≡ none))
unfolding stop_error
stop_error-none none none none = ground arith
stop_error-none none none (some z) = ground arith
stop_error-none none (some y) none = ground arith
stop_error-none none (some y) (some z) = ground arith
stop_error-none (some x) none none = ground arith
stop_error-none (some x) none (some z) = ground arith
stop_error-none (some x) (some y) none = ground arith
stop_error-none (some x) (some y) (some z) = ground arith

module _ {M D J V Q : Type 0} (clients : Clients M D J V Q) where
  -- What the three deletions do, each to the cluster `s`.
  abbrev pub service_gone : ContainerMicroservice → Cluster M D J V → V × Option K8sError
  service_gone ms s = delete_service clients.services clients.retry_service ms.service s.services

  abbrev pub map_gone : ContainerMicroservice → Cluster M D J V → M × Option K8sError
  map_gone ms s =
      delete_config_map clients.config_maps clients.retry_config_map ms.config_map s.config_maps

  -- A stop deletes the service, the job or deployment and the config map, each as if it were alone,
  -- whatever the others answer; and it answers without an error exactly if all three did.
  pub stop_all_process_lem :
      (ms : ContainerMicroservice) (s : Cluster M D J V)
      → ((stop_all_process clients ms s).0 ≡ record {
        config_maps = (map_gone ms s).0;
        deployments = (delete_k8s clients ms.k8s s).0.deployments;
        jobs = (delete_k8s clients ms.k8s s).0.jobs;
        services = (service_gone ms s).0;
      })
        × (((stop_all_process clients ms s).1 ≡ none) ↔ (
            ((service_gone ms s).1 ≡ none)
            × ((delete_k8s clients ms.k8s s).1 ≡ none)
            × ((map_gone ms s).1 ≡ none)))
  unfolding stop_all_process delete_srv delete_map delete_k8s
  stop_all_process_lem ms s = of_resource ms.k8s ms.config_map ms.service
    where
      of_resource :
          (k : K8sResource) (c : ConfigMap) (v : Service)
          → let ms : ContainerMicroservice = record { k8s = k; config_map = c; service = v } in
            ((stop_all_process clients ms s).0 ≡ record {
              config_maps = (map_gone ms s).0;
              deployments = (delete_k8s clients ms.k8s s).0.deployments;
              jobs = (delete_k8s clients ms.k8s s).0.jobs;
              services = (service_gone ms s).0;
            })
            × (((stop_all_process clients ms s).1 ≡ none) ↔ (
                ((service_gone ms s).1 ≡ none)
                × ((delete_k8s clients ms.k8s s).1 ≡ none)
                × ((map_gone ms s).1 ≡ none)))
      of_resource (job w) c v = (refl, stop_error-none _ _ _)
      of_resource (deployment w) c v = (refl, stop_error-none _ _ _)

-- The resources of one replica, in the order of their start: the pod has the labels by which its
-- service selects, and takes Envoy's configuration from its config map.
pub workload_of-labels :
    {Q : Type 0} (parse : String → Option Q) (k8s_env : K8sEnv) (ms_name : String)
    (data_ : Microservice) (number : ℤ) (t : PodTemplateSpec Q)
    → config parse (workload_of k8s_env ms_name data_ number).pod ≡ some t
    → (t.labels
        ≡ (service_config
            (new_container_microservice k8s_env ms_name data_ number).service).selector)
      × (get_elem? t.volumes 1
          ≡ some (record {
            name = "envoy";
            volume_source =
                config_map
                  (new_container_microservice k8s_env ms_name data_ number).config_map.name;
          }))
unfolding workload_of pod_of new_workload new_pod new_container_microservice new_service
    new_config_map service_config
workload_of-labels parse k8s_env ms_name data_ number t h =
    let m = config-Made parse (workload_of k8s_env ms_name data_ number).pod t h in
    (m.labels, ap (λ (l : List Volume). get_elem? l 1) m.all_volumes)
