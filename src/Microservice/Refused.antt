-- ===== src/Microservice/Refused.antt =====
-- A start of internal/microservice/container.go that does not come to an end.
use aion_core.Prelude.{none, ◌≡◌, arith}
use aion_core.K8s.Pod.{Pod}
use aion_core.K8s.Panics.{HasNoColon, config-none}
use aion_core.K8s.Resources.{deployment_config, job_config, apply_deployment, apply_job}
use aion_core.Microservice.Container.{
  K8sResource, job, deployment, ContainerMicroservice, Cluster, Clients, apply_map, apply_k8s,
  go_on, start_process,
}

abbrev pub pod_in : K8sResource → Pod
pod_in (job w) = w.pod
pod_in (deployment w) = w.pod

module _ {M D J V Q : Type 0} (clients : Clients M D J V Q) where
  apply_k8s-none :
      (k : K8sResource) (s : Cluster M D J V)
      → HasNoColon (pod_in k).volume_mount_path_list
      → apply_k8s clients k s ≡ none
  unfolding apply_k8s apply_job apply_deployment job_config deployment_config
  apply_k8s-none (job w) s h = let e = config-none clients.parse w.pod h in ground (arith, e)
  apply_k8s-none (deployment w) s h = let e = config-none clients.parse w.pod h in ground (arith, e)

  -- If one of a service's volume paths has no colon, a start whose config map is applied without an
  -- error panics: it answers neither with a success nor with an error.
  pub start_process-none :
      (ms : ContainerMicroservice) (s : Cluster M D J V)
      → HasNoColon (pod_in ms.k8s).volume_mount_path_list
      → (apply_map clients ms.config_map s).1 ≡ none
      → start_process clients ms s ≡ none
  unfolding start_process go_on
  start_process-none ms s h applied =
      let e = apply_k8s-none ms.k8s (apply_map clients ms.config_map s).0 h in
      ground (arith, applied, e)
