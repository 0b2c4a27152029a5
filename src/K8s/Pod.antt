-- ===== src/K8s/Pod.antt =====
-- pkg/k8s/pod.go: the pod of a service, with its own container and Envoy's.
use aion_core.Prelude.{
  ℕ, ◌+◌, String, ◌<>◌, Bool, true, Option, none, some, List, [], ◌∷◌, Dict, str_eq, if◌then◌else◌,
}
use aion_core.Prelude.Int.{ℤ, pos}
use aion_core.Prelude.Decimal.{itoa}
use aion_core.Filepath.{split_slash}
use aion_core.Config.Types.{PortConfig, ResourceConfig, Resources}
use aion_core.K8s.{K8sEnv, split_colon, first_part, get_label_name, get_label_map}

pub record Pod : Type 0 where
  pub name : String
  pub service_name : String
  pub tag : String
  pub number : ℤ
  pub command : List String
  pub ports : List PortConfig
  pub env : Dict String
  pub volume_mount_path_list : List String
  pub service_account : String
  pub privileged : Bool
  pub k8s_env : K8sEnv
  pub target_node : String
  pub resources : Option Resources

-- The types of k8s.io/api/core/v1, as far as the code fills them in.
pub record ContainerPort : Type 0 where
  pub name : String
  pub container_port : ℤ
  pub protocol : String

pub record EnvVar : Type 0 where
  pub name : String
  pub value : String

pub data MountPropagation : Type 0 where
  unset propagation_none bidirectional : MountPropagation

pub record VolumeMount : Type 0 where
  pub name : String
  pub mount_path : String
  pub mount_propagation : MountPropagation

pub data VolumeSource : Type 0 where
  host_path config_map : String → VolumeSource

pub record Volume : Type 0 where
  pub name : String
  pub volume_source : VolumeSource

-- `Q` are the quantities of k8s.io/apimachinery.
pub record ResourceRequirements (Q : Type 0) : Type 0 where
  pub limits : Option (Dict Q)
  pub requests : Option (Dict Q)

-- The image is pulled if it is not present, for each container.
pub record Container (Q : Type 0) : Type 0 where
  pub name : String
  pub image : String
  pub command : List String
  pub args : List String
  pub privileged : Option Bool
  pub ports : List ContainerPort
  pub env : List EnvVar
  pub volume_mounts : List VolumeMount
  pub resources : ResourceRequirements Q

pub data RestartPolicy : Type 0 where
  always_restart restart_on_failure : RestartPolicy

pub record PodTemplateSpec (Q : Type 0) : Type 0 where
  pub labels : Dict String
  pub hostname : String
  pub share_process_namespace : Bool
  pub service_account_name : String
  pub image_pull_secret : String
  pub containers : List (Container Q)
  pub volumes : List Volume
  pub node_selector : Option (Dict String)
  -- unset in a pod's config, which Kubernetes reads as Always
  pub restart_policy : Option RestartPolicy

unfoldable pub new_pod :
    String
    → String
    → ℤ
    → List String
    → List PortConfig
    → Dict String
    → List String
    → String
    → Bool
    → K8sEnv
    → String
    → Option Resources
    → Pod
unfolding get_label_name
new_pod service_name tag number command ports env volume_mount_path_list service_account privileged
      k8s_env target_node resources =
    record {
      name = get_label_name service_name number;
      service_name = service_name;
      tag = tag;
      number = number;
      command = command;
      ports = ports;
      env = env;
      volume_mount_path_list = volume_mount_path_list;
      service_account = service_account;
      privileged = privileged;
      k8s_env = k8s_env;
      target_node = target_node;
      resources = resources;
    }

unfoldable pub port_list : List PortConfig → List ContainerPort
port_list [] = []
port_list (port ∷ l) =
    record { name = port.name; container_port = port.port; protocol = port.protocol } ∷ port_list l

unfoldable pub get_port_list : Pod → List ContainerPort
unfolding port_list
get_port_list p = port_list p.ports

unfoldable pub env_list : Dict String → List EnvVar
env_list [] = []
env_list ((key, value) ∷ l) = record { name = key; value = value } ∷ env_list l

unfoldable pub get_env_list : Pod → List EnvVar
unfolding env_list
get_env_list p = record { name = "SERVICE_NAME"; value = p.service_name } ∷ env_list p.env

-- The third part of a path, if there is one, chooses the propagation.
unfoldable pub mount_propagation_type : List String → MountPropagation
mount_propagation_type (a ∷ b ∷ c ∷ l) =
    if str_eq c "Bidirectional" then bidirectional else propagation_none
mount_propagation_type l = propagation_none

unfoldable pub volume_name : ℕ → String
volume_name key = "data-" <> itoa key

-- The mounts of the paths, numbered from `key` on.
unfoldable pub volume_mounts : ℕ → List String → List VolumeMount
unfolding split_colon mount_propagation_type volume_name
volume_mounts key [] = []
volume_mounts key (value ∷ l) =
    record {
      name = volume_name key;
      mount_path = first_part (split_colon value);
      mount_propagation = mount_propagation_type (split_colon value);
    }
    ∷ volume_mounts (key + 1) l

unfoldable pub get_volume_mount_list : Pod → List VolumeMount
unfolding volume_mounts
get_volume_mount_list p =
    record { name = "aion-data"; mount_path = p.k8s_env.aion_data_path; mount_propagation = unset }
    ∷ volume_mounts 0 p.volume_mount_path_list

unfoldable pub host_data_path : String → List String → String
host_data_path namespace [] = ""
host_data_path namespace (path ∷ []) = namespace <> "/" <> (path <> "/")
host_data_path namespace (path ∷ next ∷ l) = path <> "/" <> host_data_path namespace (next ∷ l)

unfoldable pub get_host_aion_data_path : Pod → String
unfolding host_data_path split_slash
get_host_aion_data_path p =
    host_data_path p.k8s_env.namespace (split_slash p.k8s_env.aion_data_path)

-- The second part of a path; a path without a colon panics, `none`.
unfoldable pub container_path : List String → Option String
container_path (a ∷ b ∷ l) = some b
container_path l = none

unfoldable pub volumes : ℕ → List String → Option (List Volume)
unfolding container_path split_colon volume_name
volumes key [] = some []
volumes key (value ∷ l) = elim (container_path (split_colon value)) [
  | none ↦ none
  | some path ↦ elim (volumes (key + 1) l) [
    | none ↦ none
    | some rest ↦ some (record { name = volume_name key; volume_source = host_path path } ∷ rest)
  ]
]

unfoldable pub get_volume_list : Pod → Option (List Volume)
unfolding volumes get_host_aion_data_path
get_volume_list p = elim (volumes 0 p.volume_mount_path_list) [
  | none ↦ none
  | some rest ↦ some (
      record { name = "aion-data"; volume_source = host_path (get_host_aion_data_path p) }
      ∷ record {
        name = "envoy";
        volume_source = config_map ("envoy-config-" <> get_label_name p.service_name p.number);
      }
      ∷ rest)
]

unfoldable pub get_node_selector : Pod → Option (Dict String)
get_node_selector p =
    if str_eq p.target_node "" then none else some (("kubernetes.io/hostname", p.target_node) ∷ [])

-- `parse` is resource.ParseQuantity; MustParse panics where it fails, `none`.
module _ {Q : Type 0} (parse : String → Option Q) where
  unfoldable pub quantity : String → String → Dict Q → Option (Dict Q)
  quantity name text l =
      let parsed = parse text in
      if str_eq text "" then some l else elim parsed [ none ↦ none | some q ↦ some ((name, q) ∷ l) ]

  unfoldable pub resource_list : Option ResourceConfig → Option (Option (Dict Q))
  unfolding quantity
  resource_list none = some none
  resource_list (some r) = elim (quantity "memory" r.memory []) [
    | none ↦ none
    | some l ↦ elim (quantity "cpu" r.cpu l) [ none ↦ none | some m ↦ some (some m) ]
  ]

  unfoldable pub get_resources : Option Resources → Option (ResourceRequirements Q)
  unfolding resource_list
  get_resources none = some (record { limits = none; requests = none })
  get_resources (some r) = elim (resource_list r.limits) [
    | none ↦ none
    | some limits ↦ elim (resource_list r.requests) [
      | none ↦ none
      | some requests ↦ some (record { limits = limits; requests = requests })
    ]
  ]

  unfoldable pub get_container : Pod → Option (Container Q)
  unfolding get_port_list get_env_list get_volume_mount_list get_resources
  get_container p = elim (get_resources p.resources) [
    | none ↦ none
    | some resources ↦ some (record {
      name = p.name;
      image = p.k8s_env.repository_prefix <> ("/" <> (p.service_name <> (":" <> p.tag)));
      command = p.command;
      args = [];
      privileged = some p.privileged;
      ports = get_port_list p;
      env = get_env_list p;
      volume_mounts = get_volume_mount_list p;
      resources = resources;
    })
  ]

  unfoldable pub envoy : Q → Q → Container Q
  envoy limit request = record {
    name = "envoy";
    image = "envoyproxy/envoy:v1.16-latest";
    command = "/usr/local/bin/envoy" ∷ [];
    args = "--config-path" ∷ "/etc/envoy/envoy.yaml" ∷ "-l" ∷ "debug" ∷ [];
    privileged = none;
    ports = record { name = "envoy-admin"; container_port = pos 10001; protocol = "" } ∷ [];
    env = [];
    volume_mounts =
        record { name = "envoy"; mount_path = "/etc/envoy"; mount_propagation = unset } ∷ [];
    resources = record {
      limits = some (("memory", limit) ∷ []);
      requests = some (("memory", request) ∷ []);
    };
  }

  unfoldable pub get_envoy_container : Option (Container Q)
  unfolding envoy
  get_envoy_container = elim (parse "512Mi") [
    | none ↦ none
    | some limit ↦ elim (parse "64Mi") [ none ↦ none | some request ↦ some (envoy limit request) ]
  ]

  -- A panic on the way is `none`.
  unfoldable pub config : Pod → Option (PodTemplateSpec Q)
  unfolding get_container get_envoy_container get_volume_list get_node_selector get_label_map
  config p = elim (get_container p) [
    | none ↦ none
    | some container ↦ elim get_envoy_container [
      | none ↦ none
      | some envoy_container ↦ elim (get_volume_list p) [
        | none ↦ none
        | some volume_list ↦ some (record {
          labels = get_label_map p.service_name p.number;
          hostname = p.name;
          share_process_namespace = true;
          service_account_name = p.service_account;
          image_pull_secret = p.k8s_env.registry_secret;
          containers = container ∷ envoy_container ∷ [];
          volumes = volume_list;
          node_selector = get_node_selector p;
          restart_policy = none;
        })
      ]
    ]
  ]
