-- ===== src/Config/Project.antt =====
-- config/project.go: the defaults of a project, and its lookups.
use aion_core.Prelude.{
  String, Option, none, some, List, [], ◌∷◌, map, Dict, lookup, map_values, Result, ok, err, ◌>>=◌,
  str_eq, if◌then◌else◌,
}
use aion_core.Prelude.Int.{ℤ, pos, is_zero, is_nonpos}
use aion_core.Config.Types.{
  NextServiceSetting, NextService, Microservice, Device, Project, AionSetting,
}
use aion_core.Config.Yaml.{ConfigError, wrong_format, Files, load_config_from_file}

abbrev pub default_aion_home : String
default_aion_home = "/var/lib/aion"

abbrev pub default_username : String
default_username = "aion"

abbrev pub default_password : String
default_password = "aion"

abbrev pub default_ssh_port : ℤ
default_ssh_port = pos 22

-- DefaultNumber and Spread
abbrev pub default_number : String
default_number = "0"

abbrev pub spread : String
spread = "n"

abbrev pub default_process_pattern : String
default_process_pattern = spread

abbrev pub default_connection_key : String
default_connection_key = "default"

abbrev pub default_position : String
default_position = "Runtime"

abbrev pub default_scale : ℤ
default_scale = pos 1

abbrev pub default_service_account : String
default_service_account = "default"

abbrev pub default_network : String
default_network = "ClusterIP"

abbrev pub default_tag : String
default_tag = "latest"

-- if s == "" { s = d }
unfoldable pub or_default : String → String → String
or_default d s = if str_eq s "" then d else s

unfoldable pub or_empty : {A : Type 0} → Option (Dict A) → Dict A
or_empty none = []
or_empty (some m) = m

unfoldable pub get_next_number : ℤ → String → ℤ
get_next_number previous_number ms_number_pattern =
    if str_eq ms_number_pattern default_number
    then pos 1
    else if str_eq ms_number_pattern spread
    then previous_number
    else pos 1

unfoldable pub initialize_device : Device → Device
unfolding or_default
initialize_device val = record {
  addr = val.addr;
  aion_home = or_default default_aion_home val.aion_home;
  username = or_default default_username val.username;
  password = or_default default_password val.password;
  ssh_port = if is_zero val.ssh_port then default_ssh_port else val.ssh_port;
}

unfoldable pub initialize_next_ms : NextServiceSetting → NextServiceSetting
unfolding or_default
initialize_next_ms next_ms = record next_ms {
  number_pattern = or_default default_process_pattern next_ms.number_pattern;
}

unfoldable pub initialize_next_key : NextService → NextService
unfolding initialize_next_ms
initialize_next_key next_key = record {
  next_service_setting = map initialize_next_ms next_key.next_service_setting;
}

-- The body of the loop over the microservices, for one that is not nil.
unfoldable pub initialize_microservice : Microservice → Microservice
unfolding or_default or_empty initialize_next_key
initialize_microservice ms_data = record ms_data {
  position = or_default default_position ms_data.position;
  scale = if is_nonpos ms_data.scale then default_scale else ms_data.scale;
  network = or_default default_network ms_data.network;
  service_account = or_default default_service_account ms_data.service_account;
  env = some (or_empty ms_data.env);
  next_service = some (map_values initialize_next_key (or_empty ms_data.next_service));
  tag = or_default default_tag ms_data.tag;
}

-- The loop stops at the first nil entry. The entries before it keep their new values, since they
-- are changed through pointers; so the map comes back beside the error.
unfoldable pub initialize_microservices :
    Dict (Option Microservice) → Dict (Option Microservice) × Option ConfigError
initialize_microservices [] = ([], none)
initialize_microservices ((k, none) ∷ m) = ((k, none) ∷ m, some wrong_format)
initialize_microservices ((k, some ms_data) ∷ m) =
    let (rest, e) = initialize_microservices m in
    ((k, some (initialize_microservice ms_data)) ∷ rest, e)

unfoldable pub set_initialize_value : Project → Project × Option ConfigError
set_initialize_value p =
    let (services, e) = initialize_microservices p.microservices in
    (record p { devices = map_values initialize_device p.devices; microservices = services }, e)

unfoldable pub or_error : {E A : Type 0} → A → Option E → Result E A
or_error a none = ok a
or_error a (some e) = err e

-- The message is shared with the caller, whose copy changes too: it comes back as the first part.
unfoldable pub load_config_from_grpc : Project → Project × Result ConfigError AionSetting
unfolding or_error
load_config_from_grpc project =
    let (p, e) = set_initialize_value project in (p, or_error (record { aion = p }) e)

unfoldable pub load_config_from_directory : Files → String → Result ConfigError AionSetting
unfolding or_error
load_config_from_directory files config_path = do
  aion ← load_config_from_file files config_path
  let (p, e) = set_initialize_value aion
  or_error (record { aion = p }) e

pub data LookupError : Type 0 where
  no_microservice invalid_connection_key nil_microservice : LookupError

-- A missing name and a nil entry differ: the code hands a nil entry out as a service.
unfoldable pub get_microservice_by_name :
    AionSetting → String → Result LookupError (Option Microservice)
get_microservice_by_name ya name = elim (lookup name ya.aion.microservices) [
  | none ↦ err no_microservice
  | some ms ↦ ok ms
]

-- The entry of the connection key, and else that of the key "default".
unfoldable pub choose_next :
    Option NextService → Option NextService → Result LookupError (List NextServiceSetting)
choose_next (some cl) _ = ok cl.next_service_setting
choose_next none (some cl) = ok cl.next_service_setting
choose_next none none = err invalid_connection_key

unfoldable pub by_connection_key :
    String → Dict NextService → Result LookupError (List NextServiceSetting)
unfolding choose_next
by_connection_key connection_key m =
    choose_next (lookup connection_key m) (lookup default_connection_key m)

-- Reading a nil map finds nothing; reading a field of a nil service panics.
unfoldable pub next_services_of :
    String → Option (Option Microservice) → Result LookupError (List NextServiceSetting)
unfolding by_connection_key or_empty
next_services_of connection_key none = err no_microservice
next_services_of connection_key (some none) = err nil_microservice
next_services_of connection_key (some (some ms)) =
    by_connection_key connection_key (or_empty ms.next_service)

unfoldable pub get_next_service_list :
    AionSetting → String → String → Result LookupError (List NextServiceSetting)
unfolding next_services_of
get_next_service_list ya name connection_key =
    next_services_of connection_key (lookup name ya.aion.microservices)

abbrev pub get_microservice_list : AionSetting → Dict (Option Microservice)
get_microservice_list ya = ya.aion.microservices

abbrev pub get_device_name : AionSetting → String
get_device_name ya = ya.aion.device_name

abbrev pub get_debug : AionSetting → String
get_debug ya = ya.aion.debug

abbrev pub get_device_list : AionSetting → Dict Device
get_device_list ya = ya.aion.devices
