-- ===== src/K8s/Panics.antt =====
-- A volume path that pkg/k8s/pod.go cannot take apart.
use aion_core.Prelude.{
  ℕ, ◌+◌, String, Option, none, List, [], ◌∷◌, ◌++◌, ◌≡◌, ap, ◌∙◌, Option-cases, inl, inr, arith,
}
use aion_core.K8s.{split_colon}
use aion_core.K8s.Pod.{
  Pod, container_path, volumes, get_volume_list, get_container, get_envoy_container, config,
}

-- A path without a colon stands among the paths.
abbrev pub HasNoColon : List String → Type 0
HasNoColon paths =
    (front : List String) × (path : String) × (back : List String) × (paths
      ≡ front ++ (path ∷ back))
    × (split_colon path ≡ path ∷ [])

volumes-none :
    (key : ℕ) (front : List String) (path : String) (back : List String)
    → split_colon path ≡ path ∷ []
    → volumes key (front ++ (path ∷ back)) ≡ none
unfolding volumes container_path
volumes-none key [] path back h = ground (arith, h)
volumes-none key (other ∷ front) path back h =
    let ih = volumes-none (key + 1) front path back h in
    elim (Option-cases (container_path (split_colon other))) [
      | inl e ↦ ground (arith, e)
      | inr (p, e) ↦ ground (arith, e, ih)
    ]

pub config-none :
    {Q : Type 0} (parse : String → Option Q) (p : Pod)
    → HasNoColon p.volume_mount_path_list
    → config parse p ≡ none
unfolding config get_volume_list
config-none parse p (front, path, back, where_, h) =
    let no_volumes = ap (volumes 0) where_ ∙ volumes-none 0 front path back h in
    elim (Option-cases (get_container parse p)) [
      | inl e ↦ ground (arith, e)
      | inr (c, e) ↦ elim (Option-cases (get_envoy_container parse)) [
        | inl f ↦ ground (arith, e, f)
        | inr (d, f) ↦ ground (arith, e, f, no_volumes)
      ]
    ]
