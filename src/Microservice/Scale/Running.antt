-- ===== src/Microservice/Scale/Running.antt =====
-- scale_container.go on the containers of container.go, both of internal/microservice/.
use aion_core.Prelude.{
  ◌+◌, ◌≡◌, refl, inl, inr, Option-cases, ap, ◌∙◌, Option, none, some, arith, if◌then◌else◌,
}
use aion_core.Prelude.Int.{ℤ, eq_ℤ, lookup_int}
use aion_core.Microservice.Scale.{ContainerOps, ContainerStatus, ScaleContainer, start_microservice}
use aion_core.Microservice.Scale.Laws.{up_state, start_microservice_ok}
use aion_core.Microservice.Container.{
  ContainerMicroservice, Cluster, Clients, ProcessError, start_process, container_ops,
}
use aion_core.Microservice.Started.{ClusterLaws, IsRunning, start_process_lem}

module _ {M D J V Q : Type 0} (clients : Clients M D J V Q) (laws : ClusterLaws clients) where
  start_in-IsRunning :
      (c : ContainerMicroservice) (s s' : Cluster M D J V)
      → (container_ops clients).start_process c (some s) ≡ (some s', none)
      → IsRunning clients laws c s'
  start_in-IsRunning c s s' h = elim (Option-cases (start_process clients c s)) [
    | inl e ↦ ground (arith, e, h)
    | inr ((t, f), e) ↦
        let same : start_process clients c s ≡ some (s', none) = ground (arith, e, h) in
        (start_process_lem clients laws c s s' none same).0 refl
  ]

  found-start_process :
      (ops : ContainerOps (Option (Cluster M D J V)) ContainerMicroservice ProcessError)
      (sc : ScaleContainer ContainerMicroservice) (m : ℤ) (s s' : Option (Cluster M D J V))
      (status : ContainerStatus ContainerMicroservice)
      → lookup_int m sc.container_list ≡ some status
      → (start_microservice ops sc m s).2 ≡ none
      → (start_microservice ops sc m s).1 ≡ s'
      → ops.start_process status.container s ≡ (s', none)
  unfolding start_microservice
  found-start_process ops sc m s s' status e h g = ground (arith, e, h, g)

  -- Where the writes of the four clients store what they were given: a start request that is
  -- answered without an error, on a cluster in which it does not panic, is one for a replica that
  -- exists. Afterwards the replica's config map, job or deployment and service are stored, its
  -- counter is one higher, and no other counter has changed.
  pub start_microservice-IsRunning :
      (sc : ScaleContainer ContainerMicroservice) (m : ℤ) (s s' : Cluster M D J V)
      → (start_microservice (container_ops clients) sc m (some s)).2 ≡ none
      → (start_microservice (container_ops clients) sc m (some s)).1 ≡ some s'
      → (status : ContainerStatus ContainerMicroservice) × (lookup_int m sc.container_list
          ≡ some status)
        × IsRunning clients laws status.container s'
        × ((n : ℤ)
            → up_state (start_microservice (container_ops clients) sc m (some s)).0 n
              ≡ (if eq_ℤ m n then some (status.num_of_up_state + 1) else up_state sc n))
  unfolding up_state
  start_microservice-IsRunning sc m s s' h g =
      let ops = container_ops clients in
      let (k, known, single, counters) = start_microservice_ok ops sc m (some s) h in
      elim (Option-cases (lookup_int m sc.container_list)) [
        | inl e ↦ ground (arith, e, known)
        | inr (status, e) ↦
            let same : k ≡ status.num_of_up_state = ground (arith, e, known) in
            (
              status,
              e,
              start_in-IsRunning status.container s s'
                  (found-start_process ops sc m (some s) (some s') status e h g),
              λ n. counters n ∙ ap (λ j. if eq_ℤ m n then some (j + 1) else up_state sc n) same,
            )
      ]
