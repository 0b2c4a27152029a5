-- ===== src/Tests/Controller.antt =====
-- A day of the controller, with the replicas of container.go on a cluster that stores what it is
-- given.
use aion_core.Prelude.{◌≡◌, refl, true, Option, some, List, [], ◌∷◌, AllValues}
use aion_core.Prelude.Int.{pos}
use aion_core.K8s.Pod.{config}
use aion_core.Config.Project.{
  set_initialize_value, initialize_microservice, initialize_microservices,
}
use aion_core.Microservice.Refused.{pod_in}
use aion_core.Microservice.Scale.Laws.{IsSingle}
use aion_core.Microservice.Container.{
  ContainerMicroservice, ProcessError, new_container_microservice, container_ops,
}
use aion_core.Microservice.Survives.{is_alive, HasPod, container_ops-Survival}
use aion_core.Broker.State.{Parts}
use aion_core.Broker.Loop.{Event, new_setting, start_request, Loop, run, initial}
use aion_core.Broker.Settings.{SafeServices}
use aion_core.Broker.Total.{run_total}
use aion_core.Tests.Project.{camera, bare, office, office_setting, office-loads}
use aion_core.Tests.Cluster.{template_of, Shelves, desks, env, empty}

abbrev parts : Parts (Option Shelves) ContainerMicroservice ProcessError
parts = record {
  ops = container_ops desks;
  new_container = λ name ms n. new_container_microservice env name ms (pos n);
  alive = is_alive;
}

abbrev day : List Event
day =
    start_request "lamp" (pos 1)
    ∷ new_setting office_setting
    ∷ start_request "lamp" (pos 1)
    ∷ new_setting office_setting
    ∷ []

-- Any replica of one of the office's services has a pod, whatever its environment.
office-safe : SafeServices parts (HasPod desks) office_setting.aion.microservices
unfolding set_initialize_value initialize_microservices new_container_microservice config
    initialize_microservice
office-safe = (
  λ e n. (
    template_of (
        config desks.parse (
          pod_in
            (parts.new_container "camera" (record (initialize_microservice camera) { env = e })
              n).k8s)),
    refl,
  ),
  (
    λ e n. (
      template_of (
          config desks.parse (
            pod_in
              (parts.new_container "lamp" (record (initialize_microservice bare) { env = e })
                n).k8s)),
      refl,
    ),
    tt,
  ),
)

run_total_example :
    (l : Loop (Option Shelves) ContainerMicroservice) × (run parts day
        (initial "/var/lib/aion" true (some empty))
      ≡ some l)
    × (is_alive l.msc.cluster ≡ true)
    × AllValues IsSingle l.msc.microservice_list
run_total_example =
    run_total parts (HasPod desks) (container_ops-Survival desks) "/var/lib/aion" true (some empty)
      day refl
      (tt, ((office, office-loads, office-safe), (tt, ((office, office-loads, office-safe), tt))))
