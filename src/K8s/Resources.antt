-- ===== src/K8s/Resources.antt =====
-- deployment.go, job.go, service.go and configMap.go of pkg/k8s/.
use aion_core.Prelude.{
  ℕ, zero, suc, String, ◌<>◌, true, false, Option, none, some, List, [], ◌∷◌, Dict, Result, ok, err,
  str_eq, if◌then◌else◌, ◌≡◌, refl,
}
use aion_core.Prelude.Int.{ℤ, pos}
use aion_core.Filepath.{has_prefix}
use aion_core.Config.Types.{PortConfig}
use aion_core.K8s.{K8sEnv, ObjectMeta, get_label_name, get_label_map, get_object_meta}
use aion_core.K8s.Pod.{Pod, PodTemplateSpec, restart_on_failure, config}
use aion_core.K8s.Api.{
  Api, Retry, K8sError, config_failed, delete_object, create_or_update, create_or_replace,
}

-- The objects of k8s.io/api, as far as the code fills them in. A deployment has one replica.
pub record DeploymentObject (Q : Type 0) : Type 0 where
  pub object_meta : ObjectMeta
  pub replicas : ℕ
  pub match_labels : Dict String
  pub template : PodTemplateSpec Q

pub record JobObject (Q : Type 0) : Type 0 where
  pub object_meta : ObjectMeta
  pub completions : ℕ
  pub parallelism : ℕ
  pub backoff_limit : ℕ
  pub template : PodTemplateSpec Q
  pub ttl_seconds_after_finished : ℕ

pub data ServiceType : Type 0 where
  node_port_type cluster_ip_type : ServiceType

pub record ServicePort : Type 0 where
  pub name : String
  pub protocol : String
  pub port : ℤ
  pub target_port : Option ℤ
  pub node_port : Option ℤ

pub record ServiceObject : Type 0 where
  pub object_meta : ObjectMeta
  pub service_type : ServiceType
  pub ports : List ServicePort
  pub selector : Dict String
  pub topology_keys : List String

pub record ConfigMapObject : Type 0 where
  pub name : String
  pub namespace : String
  pub envoy_yaml : String

-- deployment.go; a Deployment and a Job of the source differ only in their methods
pub record Workload : Type 0 where
  pub name : String
  pub service_name : String
  pub pod : Pod
  pub k8s_env : K8sEnv

unfoldable pub new_workload : String → ℤ → Pod → K8sEnv → Workload
unfolding get_label_name
new_workload service_name number pod k8s_env = record {
  name = get_label_name service_name number;
  service_name = service_name;
  pod = pod;
  k8s_env = k8s_env;
}

module _ {Q : Type 0} (parse : String → Option Q) where
  unfoldable pub deployment_config : Workload → Option (DeploymentObject Q)
  unfolding config get_object_meta
  deployment_config d = elim (config parse d.pod) [
    | none ↦ none
    | some template ↦ some (record {
      object_meta =
          get_object_meta d.k8s_env.namespace d.service_name d.pod.number d.pod.target_node;
      replicas = 1;
      match_labels = get_label_map d.service_name d.pod.number;
      template = template;
    })
  ]

  unfoldable pub job_config : Workload → Option (JobObject Q)
  unfolding config get_object_meta
  job_config j = elim (config parse j.pod) [
    | none ↦ none
    | some pod_config ↦ some (record {
      object_meta =
          get_object_meta j.k8s_env.namespace j.service_name j.pod.number j.pod.target_node;
      completions = 1;
      parallelism = 1;
      backoff_limit = 1;
      template = record pod_config { restart_policy = some restart_on_failure };
      ttl_seconds_after_finished = 2;
    })
  ]

  -- A panic of the pod's config is `none`.
  unfoldable pub apply_deployment :
      {S : Type 0}
      → Api S (DeploymentObject Q)
      → Retry S
      → Workload
      → S
      → Option (S × Option K8sError)
  unfolding deployment_config create_or_update
  apply_deployment api retry d s = elim (deployment_config d) [
    | none ↦ none
    | some c ↦ some (create_or_update api retry d.name c s)
  ]

  unfoldable pub apply_job :
      {S : Type 0} → Api S (JobObject Q) → Retry S → Workload → S → Option (S × Option K8sError)
  unfolding job_config create_or_replace
  apply_job api retry j s = elim (job_config j) [
    | none ↦ none
    | some c ↦ some (create_or_replace api retry j.name j.name c s)
  ]

unfoldable pub delete_deployment :
    {S O : Type 0} → Api S O → Retry S → Workload → S → S × Option K8sError
unfolding delete_object
delete_deployment api retry d s = delete_object api retry d.name d.name s

unfoldable pub delete_job : {S O : Type 0} → Api S O → Retry S → Workload → S → S × Option K8sError
unfolding delete_object
delete_job api retry j s = delete_object api retry j.name j.name s

-- service.go
pub record Service : Type 0 where
  pub service_name : String
  pub name : String
  pub number : ℤ
  pub ports : List PortConfig
  pub network : String
  pub k8s_env : K8sEnv

unfoldable pub service_label_name : String → ℤ → String
unfolding get_label_name
service_label_name service_name number = get_label_name service_name number <> "-srv"

unfoldable pub new_service : String → ℤ → List PortConfig → String → K8sEnv → Service
unfolding get_label_name
new_service service_name number ports network k8s_env = record {
  service_name = service_name;
  name = get_label_name service_name number <> "-srv";
  number = number;
  ports = ports;
  network = network;
  k8s_env = k8s_env;
}

unfoldable pub service_port : String → PortConfig → ServicePort
service_port network port = record {
  name = port.name;
  protocol = port.protocol;
  port = port.port;
  target_port = some port.port;
  node_port = if str_eq network "NodePort" then some port.node_port else none;
}

unfoldable pub service_ports : String → List PortConfig → List ServicePort
unfolding service_port
service_ports network [] = []
service_ports network (port ∷ l) = service_port network port ∷ service_ports network l

unfoldable pub get_port_config_list : Service → List ServicePort
unfolding service_ports
get_port_config_list s =
    record {
      name = "envoy-admin";
      protocol = "TCP";
      port = pos 10001;
      target_port = none;
      node_port = none;
    }
    ∷ service_ports s.network s.ports

unfoldable pub get_service_type : Service → ServiceType
get_service_type s = if str_eq s.network "NodePort" then node_port_type else cluster_ip_type

abbrev pub get_topology_keys : List String
get_topology_keys = "kubernetes.io/hostname" ∷ []

unfoldable pub service_config : Service → ServiceObject
unfolding get_port_config_list get_service_type get_label_map
service_config s = record {
  object_meta = record {
    labels = get_label_map s.service_name s.number;
    name = s.name;
    namespace = s.k8s_env.namespace;
  };
  service_type = get_service_type s;
  ports = get_port_config_list s;
  selector = get_label_map s.service_name s.number;
  topology_keys = get_topology_keys;
}

unfoldable pub delete_service :
    {S : Type 0} → Api S ServiceObject → Retry S → Service → S → S × Option K8sError
unfolding delete_object service_label_name
delete_service api retry v s =
    delete_object api retry (service_label_name v.service_name v.number) v.name s

unfoldable pub apply_service :
    {S : Type 0} → Api S ServiceObject → Retry S → Service → S → S × Option K8sError
unfolding create_or_replace service_label_name service_config
apply_service api retry v s =
    create_or_replace api retry (service_label_name v.service_name v.number) v.name
      (service_config v) s

-- configMap.go
pub record ConfigMap : Type 0 where
  pub service_name : String
  pub name : String
  pub number : ℤ
  pub k8s_env : K8sEnv

unfoldable pub new_config_map : String → ℤ → K8sEnv → String → ConfigMap
unfolding get_label_name
new_config_map service_name number k8s_env target_node = record {
  service_name = service_name;
  name = "envoy-config-" <> get_label_name service_name number;
  number = number;
  k8s_env = k8s_env;
}

-- strings.ReplaceAll; `skip` characters of an occurrence are still to be left out, `rest` is one
-- less than the length of `old`, which is not empty.
unfoldable pub replace_from : String → ℕ → String → ℕ → String → String
unfolding has_prefix
replace_from old rest new skip String.[] = ""
replace_from old rest new (suc skip) (String.◌∷◌ c s) = replace_from old rest new skip s
replace_from old rest new zero (String.◌∷◌ c s) = elim (has_prefix (String.◌∷◌ c s) old) [
  | true ↦ new <> replace_from old rest new rest s
  | false ↦ String.◌∷◌ c (replace_from old rest new zero s)
]

unfoldable pub fill_in : String → String → String
unfolding replace_from
fill_in service_name text = replace_from "{MICROSERVICE_NAME}" 18 service_name 0 text

-- `file` is what the embedded file system has under /envoy.yaml, or an error.
unfoldable pub config_map_config : Result String String → ConfigMap → Result String ConfigMapObject
unfolding fill_in
config_map_config (err e) c = err e
config_map_config (ok conf) c = ok (record {
  name = c.name;
  namespace = c.k8s_env.namespace;
  envoy_yaml = fill_in c.service_name conf;
})

unfoldable pub apply_config_map :
    {S : Type 0}
    → Api S ConfigMapObject
    → Retry S
    → Result String String
    → ConfigMap
    → S
    → S × Option K8sError
unfolding config_map_config create_or_update
apply_config_map api retry file c s = elim (config_map_config file c) [
  | err e ↦ (s, some (config_failed e))
  | ok o ↦ create_or_update api retry c.name o s
]

unfoldable pub delete_config_map :
    {S : Type 0} → Api S ConfigMapObject → Retry S → ConfigMap → S → S × Option K8sError
unfolding delete_object get_label_name
delete_config_map api retry c s =
    delete_object api retry ("envoy-config-" <> get_label_name c.service_name c.number) c.name s

test_fill_in :
    (fill_in "camera" "name: {MICROSERVICE_NAME}, {MICRO}" ≡ "name: camera, {MICRO}")
    × (fill_in "a" "{MICROSERVICE_NAME}{MICROSERVICE_NAME}" ≡ "aa")
unfolding fill_in
test_fill_in = (refl, refl)
