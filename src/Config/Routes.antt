-- ===== src/Config/Routes.antt =====
-- The lookup of next services in a loaded project (`GetNextServiceList` of config/project.go).
use aion_core.Prelude.{
  String, ◌≡◌, refl, sym, subst, Bool-cases, inl, inr, str_eq, ◌≢◌, Option, none, some, List, [],
  ◌∷◌, map, Dict, lookup, map_option, lookup-map_values, Result, ok, err, arith, eq_iff, All,
}
use aion_core.Config.Types.{NextServiceSetting, NextService, Microservice, Project, AionSetting}
use aion_core.Config.Project.{
  LookupError, no_microservice, invalid_connection_key, nil_microservice, default_connection_key,
  choose_next, or_default, or_empty, initialize_next_ms, initialize_next_key,
  initialize_microservice, initialize_microservices, by_connection_key, next_services_of,
  get_next_service_list, load_config_from_grpc, set_initialize_value,
}
use aion_core.Config.Defaults.{load_config_from_grpc-ok}

abbrev HasPattern : NextServiceSetting → Type 0
HasPattern n = n.number_pattern ≢ ""

-- The service has neither an entry for the connection key nor one for "default".
abbrev pub LacksKey : String → Microservice → Type 0
LacksKey key ms =
    (lookup key (or_empty ms.next_service) ≡ none)
    × (lookup default_connection_key (or_empty ms.next_service) ≡ none)

-- What a lookup of `key` in `o`, the entry of the service's name, may end in.
abbrev pub IsRoute :
    String → Option (Option Microservice) → Result LookupError (List NextServiceSetting) → Type 0
IsRoute key o (ok l) = All HasPattern l
IsRoute key o (err no_microservice) = o ≡ none
IsRoute key o (err invalid_connection_key) =
    (ms : Microservice) × (o ≡ some (some ms)) × LacksKey key ms
IsRoute key o (err nil_microservice) = ⊥

initialize_next_ms-HasPattern : (n : NextServiceSetting) → HasPattern (initialize_next_ms n)
unfolding initialize_next_ms or_default
initialize_next_ms-HasPattern n e = ground (arith, eq_iff n.number_pattern "", eq_iff "n" "")

initialized-HasPattern : (l : List NextServiceSetting) → All HasPattern (map initialize_next_ms l)
initialized-HasPattern [] = tt
initialized-HasPattern (n ∷ l) = (initialize_next_ms-HasPattern n, initialized-HasPattern l)

-- The two entries of the initialised map, from those of the map before.
choose_next-IsRoute :
    (key : String) (ms : Microservice) (a b : Option NextService)
    → lookup key (or_empty ms.next_service) ≡ map_option initialize_next_key a
    → lookup default_connection_key (or_empty ms.next_service) ≡ map_option initialize_next_key b
    → IsRoute key
        (some (some ms))
        (choose_next (map_option initialize_next_key a) (map_option initialize_next_key b))
unfolding choose_next initialize_next_key
choose_next-IsRoute key ms (some cl) b p q = initialized-HasPattern cl.next_service_setting
choose_next-IsRoute key ms none (some cl) p q = initialized-HasPattern cl.next_service_setting
choose_next-IsRoute key ms none none p q = (ms, refl, (p, q))

initialize_microservice-IsRoute :
    (key : String) (ms : Microservice)
    → let ready = initialize_microservice ms in
      IsRoute key (some (some ready)) (next_services_of key (some (some ready)))
unfolding next_services_of by_connection_key initialize_microservice
initialize_microservice-IsRoute key ms =
    let m = or_empty ms.next_service in
    let p = lookup-map_values key initialize_next_key m in
    let q = lookup-map_values default_connection_key initialize_next_key m in
    rw (p, q)
      (choose_next-IsRoute key (initialize_microservice ms) (lookup key m)
        (lookup default_connection_key m) p q)

initialize_microservices-IsRoute :
    (m : Dict (Option Microservice)) (name key : String)
    → (initialize_microservices m).1 ≡ none
    → let o = lookup name (initialize_microservices m).0 in IsRoute key o (next_services_of key o)
unfolding initialize_microservices lookup next_services_of
initialize_microservices-IsRoute [] name key h = refl
initialize_microservices-IsRoute ((k, none) ∷ m) name key h = cc
initialize_microservices-IsRoute ((k, some ms) ∷ m) name key h = elim (Bool-cases (str_eq k name)) [
  | inl e ↦ rw e (initialize_microservice-IsRoute key ms)
  | inr e ↦ rw e (initialize_microservices-IsRoute m name key h)
]

-- In a setting that was loaded without an error a lookup of next services never panics. What it
-- finds has a number pattern each, and it fails only for a service that is not there, or for a
-- service that is there and has neither the connection key nor "default".
pub get_next_service_list-IsRoute :
    (p : Project) (setting : AionSetting) (name key : String)
    → (load_config_from_grpc p).1 ≡ ok setting
    → IsRoute key (lookup name setting.aion.microservices) (get_next_service_list setting name key)
unfolding get_next_service_list set_initialize_value
get_next_service_list-IsRoute p setting name key h =
    let (clean, e) = load_config_from_grpc-ok p setting h in
    subst
      (λ (s : AionSetting).
        let o = lookup name s.aion.microservices in IsRoute key o (next_services_of key o))
      (sym e) (initialize_microservices-IsRoute p.microservices name key clean)
