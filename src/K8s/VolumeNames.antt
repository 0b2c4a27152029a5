-- ===== src/K8s/VolumeNames.antt =====
-- The names of the volumes of a pod, pkg/k8s/pod.go.
use Prim.Native.Char.{code}
use text.Mathlib.TextLemmas.{cons-append, append_cancel_left}
use aion_core.Prelude.Decimal.{itoa, itoa_inj}
use aion_core.Prelude.{
  Bool-cases, ◌≤◌, ℕ, ◌+◌, String, Bool, true, false, ◌||◌, some, List, [], ◌∷◌, map, All, ◌++◌,
  ◌≡◌, ◌≢◌, refl, ap, ◌∙◌, Option-cases, inl, inr, arith, str_eq, eq_iff,
}
use aion_core.K8s.{split_colon}
use aion_core.K8s.Pod.{
  VolumeMount, Volume, host_path, volume_name, volume_mounts, container_path, volumes,
}

abbrev pub is_among : String → List String → Bool
is_among x [] = false
is_among x (y ∷ l) = let rest = is_among x l in str_eq x y || rest

abbrev pub volume_names : List Volume → List String
volume_names l = map (λ (v : Volume). v.name) l

abbrev pub mount_names : List VolumeMount → List String
mount_names l = map (λ (m : VolumeMount). m.name) l

-- How a path with a colon becomes a volume, before those of the other paths.
record OneMore (key : ℕ) (path : String) (paths : List String) (l : List Volume) : Type 0 where
  inside : String
  rest : List Volume
  others : volumes (key + 1) paths ≡ some rest
  all_of : l ≡ record { name = volume_name key; volume_source = host_path inside } ∷ rest

volumes-OneMore :
    (key : ℕ) (path : String) (paths : List String) (l : List Volume)
    → volumes key (path ∷ paths) ≡ some l
    → OneMore key path paths l
unfolding volumes
volumes-OneMore key path paths l h = elim (Option-cases (container_path (split_colon path))) [
  | inl e ↦ ground (arith, e, h)
  | inr (there, e) ↦ elim (Option-cases (volumes (key + 1) paths)) [
    | inl f ↦ ground (arith, e, f, h)
    | inr (rest, f) ↦ record {
      inside = there;
      rest = rest;
      others = f;
      all_of = ground (arith, e, f, h);
    }
  ]
]

-- The paths that are mounted and the volumes for them have the same names in the same order.
pub same_names :
    (key : ℕ) (paths : List String) (l : List Volume)
    → volumes key paths ≡ some l
    → volume_names l ≡ mount_names (volume_mounts key paths)
unfolding volumes volume_mounts
same_names key [] l h = ground (arith, h)
same_names key (path ∷ paths) l h =
    let o = volumes-OneMore key path paths l h in
    let ih = same_names (key + 1) paths o.rest o.others in
    ap volume_names o.all_of ∙ ap (λ t. volume_name key ∷ t) ih

among_self : (names : List String) → All (λ n. is_among n names ≡ true) names
among_self names = among names names (λ n h. h)
  where
    among :
        (l names : List String)
        → ((n : String) → is_among n l ≡ true → is_among n names ≡ true)
        → All (λ n. is_among n names ≡ true) l
    among [] names h = tt
    among (x ∷ l) names h =
        (h x (ground (arith, eq_iff x x)), among l names (λ n e. h n (ground (arith, e))))

-- No name twice.
abbrev pub AllApart : List String → Type 0
AllApart [] = Unit
AllApart (x ∷ l) = (is_among x l ≡ false) × AllApart l

volume_name_inj : (j k : ℕ) → volume_name j ≡ volume_name k → j ≡ k
unfolding volume_name
volume_name_inj j k h = itoa_inj j k (append_cancel_left "data-" (itoa j) (itoa k) h)

first_code : String → ℕ
first_code String.[] = 0
first_code (String.◌∷◌ c s) = code c

first_code-volume_name : (k : ℕ) → first_code (volume_name k) ≡ 100
unfolding volume_name first_code
first_code-volume_name k = rw cons-append

differ : (x y : String) → first_code x ≢ first_code y → str_eq x y ≡ false
differ x y h = elim (Bool-cases (str_eq x y)) [
  | inl e ↦ absurd (h (ap first_code (ground (arith, e, eq_iff x y))))
  | inr e ↦ e
]

not_among :
    (x : String) (key : ℕ) (paths : List String)
    → ((k : ℕ) → key ≤ k → str_eq x (volume_name k) ≡ false)
    → is_among x (mount_names (volume_mounts key paths)) ≡ false
unfolding volume_mounts
not_among x key [] h = refl
not_among x key (path ∷ paths) h =
    let ih = not_among x (key + 1) paths (λ k e. h k (omega (arith, e))) in
    let here = h key (omega arith) in ground (arith, ih, here)

apart_names : (key : ℕ) (paths : List String) → AllApart (mount_names (volume_mounts key paths))
unfolding volume_mounts
apart_names key [] = tt
apart_names key (path ∷ paths) = (
  not_among (volume_name key) (key + 1) paths (λ k e.
      elim (Bool-cases (str_eq (volume_name key) (volume_name k))) [
        | inl f ↦
            let same =
              volume_name_inj key k (ground (arith, f, eq_iff (volume_name key) (volume_name k))) in
            absurd (omega (arith, same, e))
        | inr f ↦ f
      ]),
  apart_names (key + 1) paths,
)

fixed_name :
    (x : String) (paths : List String)
    → first_code x ≢ 100
    → is_among x (mount_names (volume_mounts 0 paths)) ≡ false
fixed_name x paths h =
    not_among x 0 paths (λ k e. differ x (volume_name k) (λ f. h (f ∙ first_code-volume_name k)))

pub apart_volumes :
    (paths : List String) → AllApart ("aion-data" ∷ "envoy" ∷ mount_names (volume_mounts 0 paths))
unfolding first_code
apart_volumes paths =
    let data_name = fixed_name "aion-data" paths (λ h. omega (arith, h)) in
    let envoy_name = fixed_name "envoy" paths (λ h. omega (arith, h)) in
    (ground (arith, data_name), (envoy_name, apart_names 0 paths))

All-lift {ℓ κ μ} :
    {A : Type ℓ} {P : A → Type κ} {Q : A → Type μ}
    → ((a : A) → P a → Q a)
    → (l m : List A) → All P l
    → All Q m
    → All Q (l ++ m)
All-lift f [] m h k = k
All-lift f (a ∷ l) m (h, hs) k = (f a h, All-lift f l m hs k)

pub All-mounted :
    (names : List String)
    → All
        (λ n. is_among n ("aion-data" ∷ "envoy" ∷ names) ≡ true)
        (("aion-data" ∷ names) ++ ("envoy" ∷ []))
All-mounted names =
    (refl, All-lift (λ n h. ground (arith, h)) names ("envoy" ∷ []) (among_self names) (refl, tt))
