-- ===== src/Config/Defaults.antt =====
-- What `set_initialize_value` of config/project.go guarantees to the rest of the program.
use aion_core.Prelude.{
  String, ◌≡◌, sym, subst, ◌≢◌, ◌≤◌, Bool-cases, inl, inr, Option, none, some, [], ◌∷◌, Dict,
  lookup, AllValues, ok, str_eq, eq_iff, arith,
}
use aion_core.Prelude.Int.{pos_part}
use aion_core.Config.Types.{Microservice, Project, AionSetting}
use aion_core.Config.Project.{
  or_error, or_default, initialize_microservice, initialize_microservices, set_initialize_value,
  load_config_from_grpc,
}

or_default-ne-empty : (d s : String) → d ≢ "" → or_default d s ≢ ""
unfolding or_default
or_default-ne-empty d s h = ground (arith, eq_iff s "")

-- The fields that get a default are not left at their zero value.
pub record IsInitialized (ms : Microservice) : Type 0 where
  pub position : ms.position ≢ ""
  pub scale : 1 ≤ pos_part ms.scale
  pub network : ms.network ≢ ""
  pub service_account : ms.service_account ≢ ""
  pub tag : ms.tag ≢ ""
  pub env : ms.env ≢ none
  pub next_service : ms.next_service ≢ none

initialize_microservice-IsInitialized :
    (ms : Microservice) → IsInitialized (initialize_microservice ms)
unfolding initialize_microservice
initialize_microservice-IsInitialized ms = record {
  position = or_default-ne-empty "Runtime" ms.position (λ e. ground (arith, eq_iff "Runtime" ""));
  scale = ground arith;
  network = or_default-ne-empty "ClusterIP" ms.network (λ e. ground (arith, eq_iff "ClusterIP" ""));
  service_account =
      or_default-ne-empty "default" ms.service_account (λ e. ground (arith, eq_iff "default" ""));
  tag = or_default-ne-empty "latest" ms.tag (λ e. ground (arith, eq_iff "latest" ""));
  env = ground arith;
  next_service = ground arith;
}

-- A service under its name, present and with its defaults set.
abbrev pub IsReady : Option (Option Microservice) → Type 0
IsReady none = Unit
IsReady (some none) = ⊥
IsReady (some (some ms)) = IsInitialized ms

initialize_microservices-IsReady :
    (m : Dict (Option Microservice)) (name : String)
    → (initialize_microservices m).1 ≡ none
    → IsReady (lookup name (initialize_microservices m).0)
unfolding initialize_microservices lookup
initialize_microservices-IsReady [] name h = tt
initialize_microservices-IsReady ((k, none) ∷ m) name h = cc
initialize_microservices-IsReady ((k, some ms) ∷ m) name h = elim (Bool-cases (str_eq k name)) [
  | inl e ↦ rw e (initialize_microservice-IsInitialized ms)
  | inr e ↦ rw e (initialize_microservices-IsReady m name h)
]

or_error-ok :
    {E A : Type 0} (a : A) (e : Option E) {b : A} → or_error a e ≡ ok b → (e ≡ none) × (b ≡ a)
unfolding or_error
or_error-ok a e h = ground arith

-- The setting of a load without an error is the message with its defaults set, and no loop ended
-- early.
pub load_config_from_grpc-ok :
    (p : Project) (setting : AionSetting)
    → (load_config_from_grpc p).1 ≡ ok setting
    → ((set_initialize_value p).1 ≡ none) × (setting ≡ record { aion = (set_initialize_value p).0 })
unfolding load_config_from_grpc
load_config_from_grpc-ok p setting h = or_error-ok _ (set_initialize_value p).1 h

-- In a setting that was loaded without an error every service that a name leads to is present: its
-- position, network, service account and tag are not empty, its scale is at least 1, and its
-- environment and its map of next services are not nil.
pub load_config_from_grpc-IsReady :
    (p : Project) (setting : AionSetting) (name : String)
    → (load_config_from_grpc p).1 ≡ ok setting
    → IsReady (lookup name setting.aion.microservices)
unfolding set_initialize_value
load_config_from_grpc-IsReady p setting name h =
    let (clean, e) = load_config_from_grpc-ok p setting h in
    subst (λ (s : AionSetting). IsReady (lookup name s.aion.microservices)) (sym e)
      (initialize_microservices-IsReady p.microservices name clean)

-- A service that is there, and has an environment to write to.
abbrev pub IsPresent : Option Microservice → Type 0
IsPresent none = ⊥
IsPresent (some ms) = ms.env ≢ none

initialize_microservices-IsPresent :
    (m : Dict (Option Microservice))
    → (initialize_microservices m).1 ≡ none
    → AllValues IsPresent (initialize_microservices m).0
unfolding initialize_microservices
initialize_microservices-IsPresent [] h = tt
initialize_microservices-IsPresent ((k, none) ∷ m) h = cc
initialize_microservices-IsPresent ((k, some ms) ∷ m) h =
    ((initialize_microservice-IsInitialized ms).env, initialize_microservices-IsPresent m h)

pub load_config_from_grpc-IsPresent :
    (p : Project) (setting : AionSetting)
    → (load_config_from_grpc p).1 ≡ ok setting
    → AllValues IsPresent setting.aion.microservices
unfolding set_initialize_value
load_config_from_grpc-IsPresent p setting h =
    let (clean, e) = load_config_from_grpc-ok p setting h in
    subst (λ (s : AionSetting). AllValues IsPresent s.aion.microservices) (sym e)
      (initialize_microservices-IsPresent p.microservices clean)
