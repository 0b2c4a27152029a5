-- ===== src/Microservice/Survives.antt =====
-- Starts and stops of internal/microservice/container.go that do not panic.
use aion_core.Prelude.{
  Bool, true, false, Option, none, some, ◌≡◌, refl, Option-cases, inl, inr, arith,
}
use aion_core.K8s.Pod.{PodTemplateSpec, config}
use aion_core.K8s.Resources.{deployment_config, job_config, apply_deployment, apply_job}
use aion_core.Microservice.Scale.Survival.{Survival}
use aion_core.Microservice.Container.{
  job, deployment, K8sResource, ContainerMicroservice, Cluster, Clients, apply_map, apply_k8s,
  go_on, start_process, container_ops,
}
use aion_core.Microservice.Refused.{pod_in}

-- The program is alive unless a start has panicked.
abbrev pub is_alive : {X : Type 0} → Option X → Bool
is_alive none = false
is_alive (some x) = true

module _ {M D J V Q : Type 0} (clients : Clients M D J V Q) where
  -- The pod of a container can be described: its volume paths can be taken apart, and its
  -- quantities parsed.
  abbrev pub HasPod : ContainerMicroservice → Type 0
  HasPod c = (t : PodTemplateSpec Q) × (config clients.parse (pod_in c.k8s) ≡ some t)

  apply_k8s-runs :
      (k : K8sResource) (s : Cluster M D J V) {t : PodTemplateSpec Q}
      → config clients.parse (pod_in k) ≡ some t
      → is_alive (apply_k8s clients k s) ≡ true
  unfolding apply_k8s apply_job apply_deployment job_config deployment_config
  apply_k8s-runs (job w) s h = ground (arith, h)
  apply_k8s-runs (deployment w) s h = ground (arith, h)

  start_process-runs :
      (c : ContainerMicroservice) (s : Cluster M D J V)
      → HasPod c
      → is_alive (start_process clients c s) ≡ true
  unfolding start_process go_on
  start_process-runs c s (t, h) =
      let e = apply_k8s-runs c.k8s (apply_map clients c.config_map s).0 h in ground (arith, e)

  starts :
      (c : ContainerMicroservice) (s : Option (Cluster M D J V))
      → HasPod c
      → is_alive s ≡ true
      → is_alive ((container_ops clients).start_process c s).0 ≡ true
  starts c none h a = ground (arith, a)
  starts c (some s) h a =
      let e = start_process-runs c s h in
      elim (Option-cases (start_process clients c s)) [
        | inl f ↦ ground (arith, e, f)
        | inr (r, f) ↦ rw f refl
      ]

  stops :
      (c : ContainerMicroservice) (s : Option (Cluster M D J V))
      → is_alive s ≡ true
      → is_alive ((container_ops clients).stop_all_process c s).0 ≡ true
  stops c none a = ground (arith, a)
  stops c (some s) a = refl

  pub container_ops-Survival : Survival (container_ops clients) is_alive HasPod
  container_ops-Survival = record { starts = starts; stops = stops }
