-- ===== src/Microservice/Scale.antt =====
-- internal/microservice/scale_container.go: the replicas of one microservice, and their start and
-- stop requests.
pub mod Laws
pub mod Running
pub mod Survival
use aion_core.Prelude.{
  ℕ, zero, suc, ◌+◌, String, Bool, true, false, not, ◌&&◌, Option, none, some, List, [], ◌∷◌, Dict,
  insert, length, ltb, ◌==◌, if◌then◌else◌,
}
use aion_core.Prelude.Int.{ℤ, pos, pos_part, ltb_length, IntMap, lookup_int, insert_int}
use aion_core.Config.Types.{Microservice}
use aion_core.Prelude.Decimal.{itoa}

-- The interface `Container`, over the state `S` of the cluster that the processes run in. The
-- error type `E` is the implementation's.
pub record ContainerOps (S C E : Type 0) : Type 0 where
  pub start_process : C → S → S × Option E
  pub stop_all_process : C → S → S × Option E

pub record ContainerStatus (C : Type 0) : Type 0 where
  pub container : C
  pub num_of_up_state : ℕ

pub record ScaleContainer (C : Type 0) : Type 0 where
  pub name : String
  pub container_list : IntMap (ContainerStatus C)
  pub multiple : Bool

pub data ScaleError (E : Type 0) : Type 0 where
  over_scale not_exists already_started already_finished : ScaleError E
  process : E → ScaleError E

unfoldable pub get_scale : {C : Type 0} → ScaleContainer C → ℕ
get_scale sc = length sc.container_list

-- m[key] = value on a map that may be nil: the assignment to a nil map panics.
unfoldable pub put_env : String → String → Microservice → Option Microservice
put_env key value ms_data = elim ms_data.env [
  | none ↦ none
  | some env ↦ some (record ms_data { env = some (insert key value env) })
]

module _ {C : Type 0} (new_container : Microservice → ℕ → C) where
  -- The loop of `NewScaleContainer`, from round `i` with `n` rounds left. Each container is made
  -- from the service with its own MS_NUMBER, which the last round leaves in the service.
  unfoldable pub make_containers :
      ℕ → ℕ → Microservice → Option (Microservice × IntMap (ContainerStatus C))
  make_containers zero i ms_data = some (ms_data, [])
  make_containers (suc n) i ms_data = elim (put_env "MS_NUMBER" (itoa i) ms_data) [
    | none ↦ none
    | some numbered ↦ elim (make_containers n (i + 1) numbered) [
      | none ↦ none
      | some (last, rest) ↦ some (
        last,
        (pos i, record { container = new_container numbered i; num_of_up_state = 0 }) ∷ rest,
      )
    ]
  ]

  -- `none` is the panic of a nil environment. The error that the source returns is always nil.
  unfoldable pub new_scale_container :
      String → Microservice → Option (Microservice × ScaleContainer C)
  unfolding make_containers
  new_scale_container ms_name ms_data = elim (make_containers (pos_part ms_data.scale) 1 ms_data) [
    | none ↦ none
    | some (last, containers) ↦
        some (
          last,
          record { name = ms_name; container_list = containers; multiple = ms_data.multiple },
        )
  ]

module _ {S C E : Type 0} (ops : ContainerOps S C E) where
  open ops use {start_process, stop_all_process}

  -- What a request leaves: the replicas, the cluster, and the error if there is one.
  abbrev pub Outcome : Type 0
  Outcome = ScaleContainer C × S × Option (ScaleError E)

  abbrev set_up_state : ScaleContainer C → ℤ → ContainerStatus C → ℕ → ScaleContainer C
  set_up_state sc m_num status up = record sc {
    container_list = insert_int m_num (record status { num_of_up_state = up }) sc.container_list;
  }

  start_found : ScaleContainer C → ℤ → ContainerStatus C → S → Outcome
  start_found sc m_num status s =
      if ltb 0 status.num_of_up_state && not sc.multiple
      then (sc, s, some already_started)
      else let (s', e) = start_process status.container s in
        elim e [
          | some e ↦ (sc, s', some (process e))
          | none ↦ (set_up_state sc m_num status (status.num_of_up_state + 1), s', none)
        ]

  unfoldable pub start_microservice : ScaleContainer C → ℤ → S → Outcome
  unfolding start_found get_scale
  start_microservice sc m_num s =
      if ltb_length (get_scale sc) m_num
      then (sc, s, some over_scale)
      else elim (lookup_int m_num sc.container_list) [
        | none ↦ (sc, s, some not_exists)
        | some status ↦ start_found sc m_num status s
      ]

  stop_found : ScaleContainer C → ℤ → ContainerStatus C → S → Outcome
  stop_found sc m_num status s =
      if status.num_of_up_state == 0
      then (sc, s, some already_finished)
      else let (s', e) = stop_all_process status.container s in
        elim e [
          | some e ↦ (sc, s', some (process e))
          | none ↦ (set_up_state sc m_num status 0, s', none)
        ]

  unfoldable pub stop_microservice : ScaleContainer C → ℤ → S → Outcome
  unfolding stop_found get_scale
  stop_microservice sc m_num s =
      if ltb_length (get_scale sc) m_num
      then (sc, s, some over_scale)
      else elim (lookup_int m_num sc.container_list) [
        | none ↦ (sc, s, some not_exists)
        | some status ↦ stop_found sc m_num status s
      ]
