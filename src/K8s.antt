-- ===== src/K8s.antt =====
-- pkg/k8s/: the resources of a service in a Kubernetes cluster. This module is pkg/k8s/k8s.go, the
-- names and labels that the resources share.
pub mod Pod
pub mod Api
pub mod Resources
pub mod Laws
pub mod VolumeNames
pub mod Mounts
pub mod Panics
use Prim.Native.Char.{Char, code}
use aion_core.Prelude.{String, ◌<>◌, List, [], ◌∷◌, Dict, ◌==◌, if◌then◌else◌}
use aion_core.Prelude.Int.{ℤ}
use aion_core.Prelude.Decimal.{pad3}
use aion_core.Filepath.{split_slash}

pub record K8sEnv : Type 0 where
  pub aion_data_path : String
  pub repository_prefix : String
  pub namespace : String
  pub registry_secret : String

abbrev pub new_k8s_env : String → String → String → String → K8sEnv
new_k8s_env aion_data_path repository_prefix namespace registry_secret = record {
  aion_data_path = aion_data_path;
  repository_prefix = repository_prefix;
  namespace = namespace;
  registry_secret = registry_secret;
}

pub record ObjectMeta : Type 0 where
  pub labels : Dict String
  pub name : String
  pub namespace : String

push_first : Char → List String → List String
push_first c [] = String.◌∷◌ c "" ∷ []
push_first c (x ∷ xs) = String.◌∷◌ c x ∷ xs

-- strings.Split(s, ":"): always at least one part
unfoldable pub split_colon : String → List String
unfolding push_first
split_colon String.[] = "" ∷ []
split_colon (String.◌∷◌ c s) =
    let rest = split_colon s in if code c == b':' then "" ∷ rest else push_first c rest

-- t[len(t)-1] and t[0] of a split, which is not empty
abbrev pub last_part : List String → String
last_part [] = ""
last_part (x ∷ []) = x
last_part (x ∷ y ∷ l) = last_part (y ∷ l)

abbrev pub first_part : List String → String
first_part [] = ""
first_part (x ∷ l) = x

unfoldable pub get_label_name : String → ℤ → String
unfolding split_slash split_colon pad3
get_label_name service_name number =
    first_part (split_colon (last_part (split_slash service_name))) <> "-" <> pad3 number

unfoldable pub get_label_name_without_target_node : String → ℤ → String
unfolding split_slash split_colon pad3
get_label_name_without_target_node service_name number =
    first_part (split_colon (last_part (split_slash service_name))) <> "-" <> pad3 number

unfoldable pub get_label_map : String → ℤ → Dict String
unfolding get_label_name_without_target_node
get_label_map service_name number =
    ("run", get_label_name_without_target_node service_name number) ∷ []

unfoldable pub get_object_meta : String → String → ℤ → String → ObjectMeta
unfolding get_label_map get_label_name
get_object_meta namespace service_name number target_node = record {
  labels = get_label_map service_name number;
  name = get_label_name service_name number;
  namespace = namespace;
}
