-- ===== src/Microservice/Fresh.antt =====
-- NewScaleContainer of scale_container.go: how many replicas a new service has, and their state.
use aion_core.Prelude.{
  ℕ, zero, suc, ◌+◌, String, ◌≡◌, ◌≢◌, refl, ap, sym, ◌∙◌, Bool-cases, inl, inr, Option-cases, Bool,
  false, ◌&&◌, Option, none, some, [], ◌∷◌, Dict, insert, length, leb, ltb, map_option, arith,
  if◌then◌else◌,
}
use aion_core.Prelude.Int.{ℤ, pos, negsuc, pos_part, eq_ℤ, IntMap, lookup_int}
use aion_core.Config.Types.{Microservice}
use aion_core.Prelude.Decimal.{itoa}
use aion_core.Microservice.Scale.{
  ContainerStatus, ScaleContainer, get_scale, put_env, make_containers, new_scale_container,
}
use aion_core.Microservice.Scale.Laws.{up_state}

-- first ≤ n < last
abbrev pub is_between : ℕ → ℕ → ℤ → Bool
is_between first last (pos n) = leb first n && ltb n last
is_between first last (negsuc n) = false

module _ {C : Type 0} (new_container : Microservice → ℕ → C) where
  -- What a run of the loop gives: the numbers from `i` on, each with the counter zero.
  record Made (n i : ℕ) (ms : Microservice) : Type 0 where
    last : Microservice
    containers : IntMap (ContainerStatus C)
    made : make_containers new_container n i ms ≡ some (last, containers)
    count : length containers ≡ n
    env : last.env ≢ none
    counters :
        (j : ℤ)
        → map_option (λ status. status.num_of_up_state) (lookup_int j containers)
          ≡ (if is_between i (i + n) j then some 0 else none)
    origin :
        (j : ℤ) (status : ContainerStatus C)
        → lookup_int j containers ≡ some status
        → (env : Option (Dict String)) × (k : ℕ) × (status.container
            ≡ new_container (record ms { env = env }) k)

  numbered : ℕ → Dict String → Microservice → Microservice
  numbered i env ms = record ms { env = some (insert "MS_NUMBER" (itoa i) env) }

  not_between : (i : ℕ) (j : ℤ) → is_between i (i + 0) j ≡ false
  not_between i (pos j) = ground arith
  not_between i (negsuc j) = refl

  -- One more number at the front.
  next_counter :
      (i n : ℕ) (j : ℤ) (o : Option ℕ)
      → o ≡ (if is_between (i + 1) (i + 1 + n) j then some 0 else none)
      → (if eq_ℤ (pos i) j then some 0 else o)
        ≡ (if is_between i (i + suc n) j then some 0 else none)
  next_counter i n (pos j) o h = ground arith
  next_counter i n (negsuc j) o h = h

  make_containers-Made : (n i : ℕ) (ms : Microservice) → ms.env ≢ none → Made n i ms
  unfolding make_containers lookup_int put_env numbered
  make_containers-Made zero i ms h = record {
    last = ms;
    containers = [];
    made = refl;
    count = refl;
    env = h;
    counters = λ j. rw not_between;
    origin = λ j status h. ground (arith, h);
  }
  make_containers-Made (suc n) i ms h = elim (Option-cases ms.env) [
    | inl e ↦ absurd (h e)
    | inr (env, e) ↦
        let ih = make_containers-Made n (i + 1) (numbered i env ms) (λ p. cc) in
        let first : ContainerStatus C = record {
          container = new_container (numbered i env ms) i;
          num_of_up_state = 0;
        } in
        record {
          last = ih.last;
          containers = (pos i, first) ∷ ih.containers;
          made = ground (arith, e, ih.made);
          count = ap suc ih.count;
          env = ih.env;
          counters = λ j. ground (
            arith,
            next_counter i n j
                (map_option (λ (status : ContainerStatus C). status.num_of_up_state)
                  (lookup_int j ih.containers))
                (ih.counters j),
          );
          origin = λ j status h. elim (Bool-cases (eq_ℤ (pos i) j)) [
            | inl f ↦
                let same : first ≡ status = ground (arith, f, h) in
                (
                  some (insert "MS_NUMBER" (itoa i) env),
                  i,
                  ap (λ (t : ContainerStatus C). t.container) (sym same),
                )
            | inr f ↦ ih.origin j status (ground (arith, f, h))
          ];
        }
  ]

  -- A service with an environment gets as many replicas as its scale says, numbered from 1, all of
  -- them down, and the service's data keeps an environment: nothing panics.
  pub new_scale_container_lem :
      (ms_name : String) (ms_data : Microservice)
      → ms_data.env ≢ none
      → (last : Microservice) × (sc : ScaleContainer C) × (new_scale_container new_container ms_name
            ms_data
          ≡ some (last, sc))
        × (last.env ≢ none)
        × (get_scale sc ≡ pos_part ms_data.scale)
        × (sc.multiple ≡ ms_data.multiple)
        × ((j : ℤ)
            → up_state sc j
              ≡ (if is_between 1 (1 + pos_part ms_data.scale) j then some 0 else none))
  unfolding new_scale_container up_state get_scale
  new_scale_container_lem ms_name ms_data h =
      let m = make_containers-Made (pos_part ms_data.scale) 1 ms_data h in
      (
        m.last,
        record { name = ms_name; container_list = m.containers; multiple = ms_data.multiple },
        ground (arith, m.made),
        m.env,
        m.count,
        refl,
        m.counters,
      )

  -- Each replica of a new service is made from the service with some environment.
  pub new_scale_container-origin :
      (ms_name : String) (ms_data : Microservice) (last : Microservice) (sc : ScaleContainer C)
      → ms_data.env ≢ none
      → new_scale_container new_container ms_name ms_data ≡ some (last, sc)
      → (j : ℤ) (status : ContainerStatus C) → lookup_int j sc.container_list ≡ some status
      → (env : Option (Dict String)) × (k : ℕ) × (status.container
          ≡ new_container (record ms_data { env = env }) k)
  unfolding new_scale_container
  new_scale_container-origin ms_name ms_data last sc h e j status l =
      let m = make_containers-Made (pos_part ms_data.scale) 1 ms_data h in
      let same : sc.container_list ≡ m.containers = ground (arith, m.made, e) in
      m.origin j status (ap (lookup_int j) (sym same) ∙ l)
