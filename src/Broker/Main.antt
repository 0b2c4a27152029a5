-- ===== src/Broker/Main.antt =====
-- cmd/service-broker/app/env.go and cmd/service-broker/main.go: the modes of the service broker.
use aion_core.Prelude.{
  String, Bool, if◌then◌else◌, Option, none, some, List, [], ◌∷◌, Dict, Result, ok, err, str_eq,
  not, ◌||◌,
}
use aion_core.Filepath.{join}
use aion_core.Config.Types.{Project, AionSetting}
use aion_core.Config.Project.{load_config_from_grpc}
use aion_core.Services.Workers.{NodeMeta, Metadata}

pub record EnvironmentValue : Type 0 where
  pub aion_home : String
  pub redis_addr : String
  pub repository_prefix : String
  pub namespace : String
  pub registry_secret : String
  pub mode : String
  pub node_name : String
  pub node_ip : String
  pub debug : String

-- The path of the flag `-c` is there after the flags are parsed.
pub record Config : Type 0 where
  pub env : EnvironmentValue
  pub config_path : String

abbrev pub default_mode : String
default_mode = "default"

abbrev pub master_mode : String
master_mode = "master"

abbrev pub worker_mode : String
worker_mode = "worker"

unfoldable pub get_mode : Config → String
get_mode e =
    let mode = e.env.mode in
    if str_eq mode default_mode || (str_eq mode master_mode || str_eq mode worker_mode)
    then mode
    else default_mode

unfoldable pub is_default_mode : Config → Bool
is_default_mode e = not (str_eq e.env.mode master_mode || str_eq e.env.mode worker_mode)

unfoldable pub is_worker_mode : Config → Bool
is_worker_mode e = str_eq e.env.mode worker_mode

unfoldable pub get_data_dir : Config → String
unfolding join
get_data_dir e = join e.env.aion_home "Data"

-- The goroutines that `main` starts by the mode.
pub data Task : Type 0 where
  master_server worker_status_monitor worker_client default_server : Task

unfoldable pub tasks : Config → List Task
unfolding get_mode
tasks env =
    let mode = get_mode env in
    if str_eq mode master_mode
    then master_server ∷ worker_status_monitor ∷ []
    else if str_eq mode worker_mode
    then worker_client ∷ []
    else default_server ∷ []

-- What `main` puts on aionCh before it starts the controller; an error ends the process, `none`.
-- `loaded` is what LoadConfigFromDirectory gives for a path.
unfoldable pub first_setting :
    {E : Type 0} → (String → Result E AionSetting) → Config → Option (List AionSetting)
unfolding is_default_mode
first_setting loaded env =
    if is_default_mode env
    then elim (loaded env.config_path) [ err e ↦ none | ok ya ↦ some (ya ∷ []) ]
    else some []

-- `main` up to the goroutines: `pods` and `controller` are the errors of PodsWatcher and of
-- StartMicroservicesController.
unfoldable pub main :
    {E : Type 0}
    → (String → Result E AionSetting)
    → Option E
    → Option E
    → Config
    → Option (List AionSetting × List Task)
unfolding first_setting tasks
main loaded pods controller env = elim (first_setting loaded env) [
  | none ↦ none
  | some sent ↦ elim pods [
    | some e ↦ none
    | none ↦ elim controller [ some e ↦ none | none ↦ some (sent, tasks env) ]
  ]
]

-- What `workerClient` tells the master about itself: the pairs of its call, and its first message.
unfoldable pub worker_metadata : Config → Metadata
worker_metadata env key =
    if str_eq key "NodeName"
    then env.env.node_name ∷ []
    else if str_eq key "NodeIP"
    then env.env.node_ip ∷ []
    else []

unfoldable pub worker_meta : Config → NodeMeta
worker_meta env = record {
  node_ip = env.env.node_ip;
  node_name = env.env.node_name;
  services_status = none;
}

-- A round of the receiving goroutine of `workerClient`: what goes to the controller for a setting
-- of the master. An error is only logged, and the pointer is nil then: `none`.
unfoldable pub on_apply : Project → Option AionSetting
on_apply setting = elim (load_config_from_grpc setting).1 [ err e ↦ none | ok as_ ↦ some as_ ]

-- A round of its other loop: the message to the master, which is kept for the next round.
unfoldable pub on_updated : Dict Bool → NodeMeta → NodeMeta
on_updated updated_status meta = record meta { services_status = some updated_status }
