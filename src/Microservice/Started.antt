-- ===== src/Microservice/Started.antt =====
-- What a start of internal/microservice/container.go leaves in the cluster.
use aion_core.Prelude.{
  String, Option, none, some, ok, ◌≡◌, ◌≢◌, ◌⊎◌, inl, inr, refl, sym, ap, subst, ◌∙◌, arith,
  Option-cases, Result-cases,
}
use aion_core.K8s.Api.{K8sError, create_or_update, create_or_replace}
use aion_core.K8s.Laws.{ApiLaws, create_or_update-stored, create_or_replace-stored}
use aion_core.K8s.Resources.{
  DeploymentObject, JobObject, ServiceObject, ConfigMapObject, Workload, deployment_config,
  job_config, apply_deployment, apply_job, Service, service_config, apply_service, ConfigMap,
  config_map_config, apply_config_map,
}
use aion_core.Microservice.Container.{
  K8sResource, job, deployment, ContainerMicroservice, Cluster, Clients, ProcessError, apply_map,
  apply_k8s, apply_srv, finish, go_on, start_process,
}

abbrev pub map_name : ConfigMapObject → String
map_name o = o.name

abbrev pub deployment_name : {Q : Type 0} → DeploymentObject Q → String
deployment_name o = o.object_meta.name

abbrev pub job_name : {Q : Type 0} → JobObject Q → String
job_name o = o.object_meta.name

abbrev pub service_name : ServiceObject → String
service_name o = o.object_meta.name

-- The laws of the four clients.
pub record ClusterLaws {M D J V Q : Type 0} (clients : Clients M D J V Q) : Type 1 where
  pub map_laws : ApiLaws clients.config_maps map_name
  pub deployment_laws : ApiLaws clients.deployments deployment_name
  pub job_laws : ApiLaws clients.jobs job_name
  pub service_laws : ApiLaws clients.services service_name

module _ {M D J V Q : Type 0} (clients : Clients M D J V Q) (laws : ClusterLaws clients) where
  -- The object that the code describes is stored under its name.
  abbrev pub HasMap : ConfigMap → M → Type 0
  HasMap c s =
      (o : ConfigMapObject) × (config_map_config clients.envoy_yaml c ≡ ok o)
      × (laws.map_laws.stored s o.name ≡ some o)

  abbrev pub HasWorkload : K8sResource → Cluster M D J V → Type 0
  HasWorkload (job w) s =
      (o : JobObject Q) × (job_config clients.parse w ≡ some o)
      × (laws.job_laws.stored s.jobs o.object_meta.name ≡ some o)
  HasWorkload (deployment w) s =
      (o : DeploymentObject Q) × (deployment_config clients.parse w ≡ some o)
      × (laws.deployment_laws.stored s.deployments o.object_meta.name ≡ some o)

  abbrev pub HasService : Service → V → Type 0
  HasService v s =
      laws.service_laws.stored s (service_config v).object_meta.name ≡ some (service_config v)

  apply_map-HasMap :
      (c : ConfigMap) (s : Cluster M D J V)
      → (apply_map clients c s).1 ≡ none
      → HasMap c (apply_map clients c s).0.config_maps
  unfolding apply_map apply_config_map
  apply_map-HasMap c s h = elim (Result-cases (config_map_config clients.envoy_yaml c)) [
    | inl (e, f) ↦ ground (arith, f, h)
    | inr (o, f) ↦
        let api = clients.config_maps in
        let retry = clients.retry_config_map in
        let step : apply_config_map api retry clients.envoy_yaml c s.config_maps
            ≡ create_or_update api retry c.name o s.config_maps =
          ground (arith, f) in
        let fine : (create_or_update api retry c.name o s.config_maps).1 ≡ none =
          ap (λ r. r.1) (sym step) ∙ h in
        (
          o,
          f,
          ap (λ r. laws.map_laws.stored r.0 o.name) step
              ∙ create_or_update-stored api map_name laws.map_laws retry c.name o s.config_maps
                  fine,
        )
  ]

  -- A workload that was applied: it is there if there was no error, and the other kinds are as
  -- they were.
  record Applied (k : K8sResource) (s s' : Cluster M D J V) (e : Option K8sError) : Type 0 where
    workload : e ≡ none → HasWorkload k s'
    config_maps : s'.config_maps ≡ s.config_maps
    services : s'.services ≡ s.services

  job-Applied :
      (w : Workload) (s : Cluster M D J V) (o : JobObject Q) (r : J × Option K8sError)
      → job_config clients.parse w ≡ some o
      → r ≡ create_or_replace clients.jobs clients.retry_job w.name w.name o s.jobs
      → Applied (job w) s (record s { jobs = r.0 }) r.1
  job-Applied w s o r f e = record {
    workload = λ fine. (
      o,
      f,
      ap (λ x. laws.job_laws.stored x.0 o.object_meta.name) e
          ∙ create_or_replace-stored clients.jobs job_name laws.job_laws clients.retry_job w.name
              w.name o s.jobs (ap (λ x. x.1) (sym e) ∙ fine),
    );
    config_maps = refl;
    services = refl;
  }

  deployment-Applied :
      (w : Workload) (s : Cluster M D J V) (o : DeploymentObject Q) (r : D × Option K8sError)
      → deployment_config clients.parse w ≡ some o
      → r ≡ create_or_update clients.deployments clients.retry_deployment w.name o s.deployments
      → Applied (deployment w) s (record s { deployments = r.0 }) r.1
  deployment-Applied w s o r f e = record {
    workload = λ fine. (
      o,
      f,
      ap (λ x. laws.deployment_laws.stored x.0 o.object_meta.name) e
          ∙ create_or_update-stored clients.deployments deployment_name laws.deployment_laws
              clients.retry_deployment w.name o s.deployments (ap (λ x. x.1) (sym e) ∙ fine),
    );
    config_maps = refl;
    services = refl;
  }

  apply_k8s-Applied :
      (k : K8sResource) (s : Cluster M D J V) (r : Cluster M D J V × Option K8sError)
      → apply_k8s clients k s ≡ some r
      → Applied k s r.0 r.1
  unfolding apply_k8s apply_job apply_deployment
  apply_k8s-Applied (job w) s r h = elim (Option-cases (job_config clients.parse w)) [
    | inl f ↦ ground (arith, f, h)
    | inr (o, f) ↦
        let x = create_or_replace clients.jobs clients.retry_job w.name w.name o s.jobs in
        let same : r ≡ (record s { jobs = x.0 }, x.1) = ground (arith, f, h) in
        subst (λ t. Applied (job w) s t.0 t.1) (sym same) (job-Applied w s o x f refl)
  ]
  apply_k8s-Applied (deployment w) s r h = elim (Option-cases (deployment_config clients.parse w)) [
    | inl f ↦ ground (arith, f, h)
    | inr (o, f) ↦
        let x =
          create_or_update clients.deployments clients.retry_deployment w.name o s.deployments in
        let same : r ≡ (record s { deployments = x.0 }, x.1) = ground (arith, f, h) in
        subst (λ t. Applied (deployment w) s t.0 t.1) (sym same) (deployment-Applied w s o x f refl)
  ]

  apply_srv-HasService :
      (v : Service) (s : Cluster M D J V)
      → (apply_srv clients v s).1 ≡ none
      → HasService v (apply_srv clients v s).0.services
  unfolding apply_srv apply_service
  apply_srv-HasService v s h =
      create_or_replace-stored clients.services service_name laws.service_laws clients.retry_service
        _ _ (service_config v) s.services h

  -- The end of a start behind the workload.
  record Finished (v : Service) (s s' : Cluster M D J V) (f : Option ProcessError) : Type 0 where
    others : s' ≡ record s { services = s'.services }
    service : f ≡ none → HasService v s'.services

  finish-Finished :
      (v : Service) (s s' : Cluster M D J V) (f : Option ProcessError)
      → finish clients v (s, none) ≡ (s', f)
      → Finished v s s' f
  unfolding finish apply_srv
  finish-Finished v s s' f h = elim (Option-cases (apply_srv clients v s).1) [
    | inl e ↦
        let t = (apply_srv clients v s).0 in
        let same : s' ≡ t = ground (arith, e, h) in
        record {
          others =
              same ∙ ap (λ (x : Cluster M D J V). record s { services = x.services }) (sym same);
          service =
              λ g. subst (λ x. HasService v x.services) (sym same) (apply_srv-HasService v s e);
        }
    | inr (x, e) ↦
        let t = (apply_srv clients v s).0 in
        let same : s' ≡ t = ground (arith, e, h) in
        record {
          others =
              same ∙ ap (λ (x : Cluster M D J V). record s { services = x.services }) (sym same);
          service = λ g. ground (arith, e, h, g);
        }
  ]

  HasWorkload-services :
      (k : K8sResource) (s : Cluster M D J V) (t : V)
      → HasWorkload k s
      → HasWorkload k (record s { services = t })
  HasWorkload-services (job w) s t h = h
  HasWorkload-services (deployment w) s t h = h

  -- All three resources of a replica are in the cluster.
  abbrev pub IsRunning : ContainerMicroservice → Cluster M D J V → Type 0
  IsRunning ms s =
      HasMap ms.config_map s.config_maps × HasWorkload ms.k8s s × HasService ms.service s.services

  -- What a start comes to: nothing was done to the services, or everything before them is there.
  abbrev pub Starts :
      ContainerMicroservice → Cluster M D J V → Cluster M D J V → Option ProcessError → Type 0
  Starts ms s s' f =
      (f ≡ none → IsRunning ms s')
      × ((s'.services ≡ s.services) ⊎ (HasMap ms.config_map s'.config_maps × HasWorkload ms.k8s s'))

  go_on-Starts :
      (ms : ContainerMicroservice) (s s' : Cluster M D J V) (f : Option ProcessError)
      → HasMap ms.config_map s.config_maps
      → go_on clients ms (s, none) ≡ some (s', f)
      → Starts ms s s' f
  unfolding go_on
  go_on-Starts ms s s' f there h = elim (Option-cases (apply_k8s clients ms.k8s s)) [
    | inl e ↦ ground (arith, e, h)
    | inr ((t, none), e) ↦
        let a = apply_k8s-Applied ms.k8s s (t, none) e in
        let rest : finish clients ms.service (t, none) ≡ (s', f) = ground (arith, e, h) in
        let d = finish-Finished ms.service t s' f rest in
        let maps : s'.config_maps ≡ s.config_maps =
          ap (λ (x : Cluster M D J V). x.config_maps) d.others ∙ a.config_maps in
        let map_there = subst (HasMap ms.config_map) (sym maps) there in
        let work_there =
          subst (HasWorkload ms.k8s) (sym d.others)
            (HasWorkload-services ms.k8s t s'.services (a.workload refl)) in
        (λ g. (map_there, work_there, d.service g), inr (map_there, work_there))
    | inr ((t, some x), e) ↦
        let a = apply_k8s-Applied ms.k8s s (t, some x) e in
        let same : s' ≡ t = ground (arith, e, h) in
        let failed : f ≢ none = ground (arith, e, h) in
        (λ g. absurd (failed g), inl (ap (λ (x : Cluster M D J V). x.services) same ∙ a.services))
  ]

  -- Where the writes of the four clients store what they were given, and the start does not panic:
  -- after a start without an error the config map, the job or deployment and the service that the
  -- code describes are stored under their names. After any start the services are as they were, or
  -- the config map and the job or deployment are stored: no service is made before these.
  pub start_process_lem :
      (ms : ContainerMicroservice) (s s' : Cluster M D J V) (f : Option ProcessError)
      → start_process clients ms s ≡ some (s', f)
      → (f ≡ none → IsRunning ms s')
        × ((s'.services ≡ s.services)
            ⊎ (HasMap ms.config_map s'.config_maps × HasWorkload ms.k8s s'))
  unfolding start_process go_on apply_map
  start_process_lem ms s s' f h = elim (Option-cases (apply_map clients ms.config_map s).1) [
    | inl e ↦
        let t = (apply_map clients ms.config_map s).0 in
        let (runs, before) =
          go_on-Starts ms t s' f (apply_map-HasMap ms.config_map s e) (ground (arith, e, h)) in
        (runs, before)
    | inr (x, e) ↦
        let t = (apply_map clients ms.config_map s).0 in
        let same : s' ≡ t = ground (arith, e, h) in
        let failed : f ≢ none = ground (arith, e, h) in
        (λ g. absurd (failed g), inl (ap (λ (x : Cluster M D J V). x.services) same))
  ]
