-- ===== src/Config/Types.antt =====
-- The messages of proto/projectpb, proto/servicepb and proto/devicepb that a project is made of,
-- and the YAML model of config/yaml_model.go. A Go map or pointer that the code compares with
-- nil is an `Option`.
use aion_core.Prelude.{String, Bool, Option, List, Dict}
use aion_core.Prelude.Int.{ℤ}

pub record PortConfig : Type 0 where
  pub name : String
  pub protocol : String
  pub port : ℤ
  pub node_port : ℤ

pub record NextServiceSetting : Type 0 where
  pub next_service_name : String
  pub number_pattern : String
  pub next_device : String

pub record NextService : Type 0 where
  pub next_service_setting : List NextServiceSetting

pub record ResourceConfig : Type 0 where
  pub memory : String
  pub cpu : String

pub record Resources : Type 0 where
  pub requests : Option ResourceConfig
  pub limits : Option ResourceConfig

pub record Microservice : Type 0 where
  pub command : List String
  pub next_service : Option (Dict NextService)
  pub scale : ℤ
  pub env : Option (Dict String)
  pub position : String
  pub always : Bool
  pub multiple : Bool
  pub startup : Bool
  pub interval : ℤ
  pub ports : List PortConfig
  pub dir_path : String
  pub service_account : String
  pub network : String
  pub tag : String
  pub volume_mount_path_list : List String
  pub privileged : Bool
  pub without_kanban : Bool
  pub target_node : String
  pub resources : Option Resources

pub record Device : Type 0 where
  pub addr : String
  pub ssh_port : ℤ
  pub username : String
  pub password : String
  pub aion_home : String

-- projectpb.AionSetting
pub record Project : Type 0 where
  pub microservices : Dict (Option Microservice)
  pub devices : Dict Device
  pub device_name : String
  pub debug : String

-- The wrapper that config/project.go puts round the message.
pub record AionSetting : Type 0 where
  pub aion : Project

pub record YamlPortConfig : Type 0 where
  pub name : String
  pub protocol : String
  pub port : ℤ
  pub node_port : ℤ

pub record YamlNextService : Type 0 where
  pub next_service_name : String
  pub number_pattern : String
  pub next_device : String

pub record YamlResourceConfig : Type 0 where
  pub memory : String
  pub cpu : String

pub record YamlResources : Type 0 where
  pub requests : Option YamlResourceConfig
  pub limits : Option YamlResourceConfig

pub record YamlMicroservice : Type 0 where
  pub command : List String
  pub next_service : Option (Dict (List YamlNextService))
  pub scale : ℤ
  pub env : Option (Dict String)
  pub position : String
  pub always : Bool
  pub multiple : Bool
  pub startup : Bool
  pub interval : ℤ
  pub ports : List YamlPortConfig
  pub dir_path : String
  pub service_account : String
  pub network : String
  pub tag : String
  pub volume_mount_path_list : List String
  pub privileged : Bool
  pub without_kanban : Bool
  pub target_node : String
  pub resources : Option YamlResources

pub record YamlDevice : Type 0 where
  pub addr : String
  pub ssh_port : ℤ
  pub username : String
  pub password : String
  pub aion_home : String

-- A key with an empty body, `camera:`, is read as a nil pointer.
pub record YamlAionSetting : Type 0 where
  pub microservices : Dict (Option YamlMicroservice)
  pub devices : Dict (Option YamlDevice)
  pub device_name : String
  pub debug : String
