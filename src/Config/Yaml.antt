-- ===== src/Config/Yaml.antt =====
-- config/yaml_model.go: a parsed services.yml mapped onto the protobuf messages.
use aion_core.Prelude.{String, Option, none, some, List, [], ◌∷◌, map, Dict, map_values, map_option}
use aion_core.Prelude.{Result, ok, err, ◌>>=◌}
use aion_core.Config.Types.{
  PortConfig, NextServiceSetting, NextService, ResourceConfig, Resources, Microservice, Device,
  Project, YamlPortConfig, YamlNextService, YamlResourceConfig, YamlResources, YamlMicroservice,
  YamlDevice, YamlAionSetting,
}

-- What reading a project can end in besides a value. `nil_pointer` is the run-time panic of a
-- field access through a nil pointer; `open_failed`, `read_failed` and `bad_yaml` are the errors
-- of os.Open, ioutil.ReadAll and yaml.Unmarshal.
pub data ConfigError : Type 0 where
  open_failed read_failed bad_yaml : ConfigError
  nil_pointer : ConfigError
  wrong_format : ConfigError

map_port : YamlPortConfig → PortConfig
map_port v = record { name = v.name; protocol = v.protocol; port = v.port; node_port = v.node_port }

map_next_service : YamlNextService → NextServiceSetting
map_next_service e = record {
  next_service_name = e.next_service_name;
  number_pattern = e.number_pattern;
  next_device = e.next_device;
}

map_next_services : List YamlNextService → NextService
unfolding map_next_service
map_next_services v = record { next_service_setting = map map_next_service v }

-- `m.NextService` starts as an empty map, so a missing section is an empty map, never nil.
map_next_service_map : Option (Dict (List YamlNextService)) → Dict NextService
map_next_service_map none = []
map_next_service_map (some m) = map_values map_next_services m

map_resource_config : YamlResourceConfig → ResourceConfig
map_resource_config r = record { memory = r.memory; cpu = r.cpu }

map_resources : YamlResources → Resources
map_resources r = record {
  requests = map_option map_resource_config r.requests;
  limits = map_option map_resource_config r.limits;
}

unfoldable pub map_microservice : YamlMicroservice → Microservice
unfolding map_port map_next_service_map map_next_services map_resources map_resource_config
map_microservice value = record {
  command = value.command;
  next_service = some (map_next_service_map value.next_service);
  scale = value.scale;
  env = value.env;
  position = value.position;
  always = value.always;
  multiple = value.multiple;
  startup = value.startup;
  interval = value.interval;
  ports = map map_port value.ports;
  dir_path = value.dir_path;
  service_account = value.service_account;
  network = value.network;
  tag = value.tag;
  volume_mount_path_list = value.volume_mount_path_list;
  privileged = value.privileged;
  without_kanban = value.without_kanban;
  target_node = value.target_node;
  resources = map_option map_resources value.resources;
}

unfoldable pub map_device : YamlDevice → Device
map_device value = record {
  addr = value.addr;
  ssh_port = value.ssh_port;
  username = value.username;
  password = value.password;
  aion_home = value.aion_home;
}

-- `for key, value := range …`: the first nil value ends the loop by a panic.
unfoldable pub map_devices : Dict (Option YamlDevice) → Result ConfigError (Dict Device)
unfolding map_device
map_devices [] = ok []
map_devices ((key, none) ∷ m) = err nil_pointer
map_devices ((key, some value) ∷ m) = do rest ← map_devices m; ok ((key, map_device value) ∷ rest)

unfoldable pub map_microservices :
    Dict (Option YamlMicroservice) → Result ConfigError (Dict (Option Microservice))
unfolding map_microservice
map_microservices [] = ok []
map_microservices ((key, none) ∷ m) = err nil_pointer
map_microservices ((key, some value) ∷ m) = do
  rest ← map_microservices m
  ok ((key, some (map_microservice value)) ∷ rest)

unfoldable pub map_to_grpc_aion_setting : YamlAionSetting → Result ConfigError Project
map_to_grpc_aion_setting setting = do
  devices ← map_devices setting.devices
  microservices ← map_microservices setting.microservices
  ok (record {
    microservices = microservices;
    devices = devices;
    device_name = setting.device_name;
    debug = setting.debug;
  })

-- The files of the machine and the YAML library, which the source only calls.
pub record Files : Type 1 where
  pub Bytes : Type 0
  pub open_file : String → Option (Option Bytes)
  pub unmarshal_yaml : Bytes → Option YamlAionSetting

module _ (files : Files) where
  open files use {Bytes, open_file, unmarshal_yaml}

  -- `open_file p` is `none` if os.Open fails and `some none` if reading the open file does.
  read_file : String → Result ConfigError Bytes
  read_file path = elim (open_file path) [
    | none ↦ err open_failed
    | some none ↦ err read_failed
    | some (some b) ↦ ok b
  ]

  unmarshal : Bytes → Result ConfigError YamlAionSetting
  unmarshal b = elim (unmarshal_yaml b) [ none ↦ err bad_yaml | some aion ↦ ok aion ]

  unfoldable pub load_config_from_file : String → Result ConfigError Project
  unfolding read_file unmarshal
  load_config_from_file path = do
    b ← read_file path
    aion ← unmarshal b
    map_to_grpc_aion_setting aion
