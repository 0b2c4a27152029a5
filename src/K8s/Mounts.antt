-- ===== src/K8s/Mounts.antt =====
-- The volumes of a pod, pkg/k8s/pod.go, and the places that its containers mount them at.
use aion_core.Prelude.{
  String, ◌<>◌, true, Option, some, List, [], ◌∷◌, All, ◌++◌, ◌≡◌, sym, ap, subst, ◌∙◌,
  Option-cases, inl, inr, arith,
}
use aion_core.K8s.{get_label_map, get_label_name}
use aion_core.K8s.Pod.{
  Pod, Container, Volume, host_path, config_map, PodTemplateSpec, volume_mounts,
  get_volume_mount_list, get_host_aion_data_path, volumes, get_volume_list, get_container, envoy,
  get_envoy_container, config, get_resources,
}
use aion_core.K8s.VolumeNames.{
  is_among, volume_names, mount_names, AllApart, same_names, apart_volumes, All-mounted,
}

-- Every place that a container of the pod mounts.
abbrev pub mounts : {Q : Type 0} → List (Container Q) → List String
mounts [] = []
mounts (c ∷ l) = mount_names c.volume_mounts ++ mounts l

-- What a config that is no panic is made of.
pub record Made {Q : Type 0} (parse : String → Option Q) (p : Pod) (t : PodTemplateSpec Q)
    : Type 0 where
  pub own : Container Q
  pub envoys : Container Q
  pub paths : List Volume
  pub made_paths : volumes 0 p.volume_mount_path_list ≡ some paths
  pub own_mounts : own.volume_mounts ≡ get_volume_mount_list p
  pub envoy_mounts : mount_names envoys.volume_mounts ≡ "envoy" ∷ []
  pub containers : t.containers ≡ own ∷ envoys ∷ []
  pub all_volumes :
      t.volumes
      ≡ record { name = "aion-data"; volume_source = host_path (get_host_aion_data_path p) }
        ∷ record {
          name = "envoy";
          volume_source = config_map ("envoy-config-" <> get_label_name p.service_name p.number);
        }
        ∷ paths
  pub labels : t.labels ≡ get_label_map p.service_name p.number

module _ {Q : Type 0} (parse : String → Option Q) (p : Pod) where
  get_container-mounts :
      (c : Container Q) → get_container parse p ≡ some c → c.volume_mounts ≡ get_volume_mount_list p
  unfolding get_container
  get_container-mounts c h = elim (Option-cases (get_resources parse p.resources)) [
    | inl e ↦ ground (arith, e, h)
    | inr (r, e) ↦ ground (arith, e, h)
  ]

  get_envoy_container-mounts :
      (c : Container Q)
      → get_envoy_container parse ≡ some c
      → mount_names c.volume_mounts ≡ "envoy" ∷ []
  unfolding get_envoy_container envoy
  get_envoy_container-mounts c h = elim (Option-cases (parse "512Mi")) [
    | inl e ↦ ground (arith, e, h)
    | inr (limit, e) ↦ elim (Option-cases (parse "64Mi")) [
      | inl f ↦ ground (arith, e, f, h)
      | inr (request, f) ↦
          let same : c ≡ envoy parse limit request = ground (arith, e, f, h) in
          ap (λ (x : Container Q). mount_names x.volume_mounts) same
    ]
  ]

  pub config-Made : (t : PodTemplateSpec Q) → config parse p ≡ some t → Made parse p t
  unfolding config get_volume_list
  config-Made t h = elim (Option-cases (get_container parse p)) [
    | inl e ↦ ground (arith, e, h)
    | inr (own, e) ↦ elim (Option-cases (get_envoy_container parse)) [
      | inl f ↦ ground (arith, e, f, h)
      | inr (envoys, f) ↦ elim (Option-cases (volumes 0 p.volume_mount_path_list)) [
        | inl g ↦ ground (arith, e, f, g, h)
        | inr (paths, g) ↦ record {
          own = own;
          envoys = envoys;
          paths = paths;
          made_paths = g;
          own_mounts = get_container-mounts own e;
          envoy_mounts = get_envoy_container-mounts envoys f;
          containers = ground (arith, e, f, g, h);
          all_volumes = ground (arith, e, f, g, h);
          labels = ground (arith, e, f, g, h);
        }
      ]
    ]
  ]

  -- In the config of a pod, where it is no panic: every place that one of its two containers mounts
  -- is a volume of the pod, and no two volumes have the same name.
  pub config-IsMounted :
      (t : PodTemplateSpec Q)
      → config parse p ≡ some t
      → All (λ n. is_among n (volume_names t.volumes) ≡ true) (mounts t.containers)
        × AllApart (volume_names t.volumes)
  unfolding get_volume_mount_list
  config-IsMounted t h =
      let m = config-Made t h in
      let names = mount_names (volume_mounts 0 p.volume_mount_path_list) in
      let paths = same_names 0 p.volume_mount_path_list m.paths m.made_paths in
      let all : volume_names t.volumes ≡ "aion-data" ∷ "envoy" ∷ names =
        ap volume_names m.all_volumes ∙ ap (λ l. "aion-data" ∷ "envoy" ∷ l) paths in
      let places : mounts t.containers ≡ ("aion-data" ∷ names) ++ ("envoy" ∷ []) =
        ap mounts m.containers
        ∙ ap (λ l. mount_names l ++ (mount_names m.envoys.volume_mounts ++ [])) m.own_mounts
        ∙ ap (λ l. ("aion-data" ∷ names) ++ (l ++ [])) m.envoy_mounts in
      (
        subst (λ l. All (λ n. is_among n (volume_names t.volumes) ≡ true) l) (sym places)
            (subst (λ v. All (λ n. is_among n v ≡ true) (("aion-data" ∷ names) ++ ("envoy" ∷ [])))
              (sym all) (All-mounted names)),
        subst AllApart (sym all) (apart_volumes p.volume_mount_path_list),
      )
