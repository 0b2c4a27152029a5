-- ===== src/Replicator/Watched.antt =====
-- Which streams cmd/kanban-replicator/app/client.go watches.
use aion_core.Prelude.{
  ℕ, zero, suc, ◌+◌, ◌≤◌, ◌<◌, String, false, Option, none, some, List, [], ◌∷◌, ◌++◌, Dict, lookup,
  ◌≡◌, refl, sym, ap, subst, ◌∙◌, Option-cases, Bool-cases, inl, inr, arith, ◌==◌, str_eq, eq_iff,
  append_assoc, if◌then◌else◌,
}
use aion_core.Prelude.Int.{ℤ, pos, pos_part}
use aion_core.Config.Types.{Microservice, AionSetting}
use aion_core.Config.Project.{get_microservice_list}
use aion_core.Kanban.Keys.{StatusType, before, after}
use aion_core.Replicator.{watch_numbers, watch_services, start_watch_kanban}

abbrev pub Started : Type 0
Started = String × ℤ × StatusType

-- A watcher is among those that run.
abbrev pub IsStarted : Started → List Started → Type 0
IsStarted w l = (front : List Started) × (back : List Started) × (l ≡ front ++ (w ∷ back))

abbrev pub BothStarted : String → ℕ → List Started → Type 0
BothStarted name n l = IsStarted (name, pos n, after) l × IsStarted (name, pos n, before) l

IsStarted-behind : (w : Started) (l m : List Started) → IsStarted w m → IsStarted w (l ++ m)
IsStarted-behind w l m (front, back, e) =
    (l ++ front, back, ap (λ t. l ++ t) e ∙ sym (append_assoc l front (w ∷ back)))

IsStarted-before : (w : Started) (l m : List Started) → IsStarted w l → IsStarted w (l ++ m)
IsStarted-before w l m (front, back, e) =
    (front, back ++ m, ap (λ t. t ++ m) e ∙ append_assoc front (w ∷ back) m)

-- The watchers of `n` numbers from `i` on.
watch_numbers-BothStarted :
    (name : String) (i n j : ℕ) → i ≤ j → j < i + n → BothStarted name j (watch_numbers name i n)
unfolding watch_numbers
watch_numbers-BothStarted name i zero j h k = absurd (omega (arith, h, k))
watch_numbers-BothStarted name i (suc n) j h k =
    let rest = watch_numbers name (i + 1) n in
    let first : List Started = (name, pos i, after) ∷ (name, pos i, before) ∷ [] in
    elim (Bool-cases (i == j)) [
      | inl e ↦
          let same : i ≡ j = ground (arith, e) in
          subst (λ x. BothStarted name x (first ++ rest)) same
            (([], (name, pos i, before) ∷ rest, refl), ((name, pos i, after) ∷ [], rest, refl))
      | inr e ↦
          let later : i + 1 ≤ j = ground (arith, e, h) in
          let (a, b) = watch_numbers-BothStarted name (i + 1) n j later (omega (arith, k)) in
          (
            IsStarted-behind (name, pos j, after) first rest a,
            IsStarted-behind (name, pos j, before) first rest b,
          )
    ]

-- A service that is there, and the watchers of the services behind it.
record First (key : String) (ms : Microservice) (l : Dict (Option Microservice)) (ws : List Started)
    : Type 0 where
  rest : List Started
  behind : watch_services l ≡ some rest
  all_of : ws ≡ (if ms.without_kanban then [] else watch_numbers key 1 (pos_part ms.scale)) ++ rest

watch_services-First :
    (key : String) (ms : Microservice) (l : Dict (Option Microservice)) (ws : List Started)
    → watch_services ((key, some ms) ∷ l) ≡ some ws
    → First key ms l ws
unfolding watch_services
watch_services-First key ms l ws h = elim (Option-cases (watch_services l)) [
  | inl e ↦ ground (arith, e, h)
  | inr (rest, e) ↦ record { rest = rest; behind = e; all_of = ground (arith, e, h) }
]

watch_services-BothStarted :
    (l : Dict (Option Microservice)) (name : String) (ms : Microservice) (n : ℕ) (ws : List Started)
    → watch_services l ≡ some ws
    → lookup name l ≡ some (some ms)
    → ms.without_kanban ≡ false
    → 1 ≤ n
    → n ≤ pos_part ms.scale
    → BothStarted name n ws
unfolding watch_services lookup
watch_services-BothStarted [] name ms n ws h known kept low high = ground (arith, known)
watch_services-BothStarted ((key, none) ∷ l) name ms n ws h known kept low high = ground (arith, h)
watch_services-BothStarted ((key, some other) ∷ l) name ms n ws h known kept low high =
    let f = watch_services-First key other l ws h in
    let numbers = if other.without_kanban then [] else watch_numbers key 1 (pos_part other.scale) in
    elim (Bool-cases (str_eq key name)) [
      | inl e ↦
          let named : key ≡ name = ground (arith, e, eq_iff key name) in
          let same : other ≡ ms = ground (arith, e, known) in
          let mine : numbers ≡ watch_numbers name 1 (pos_part ms.scale) =
            ground (arith, named, same, kept) in
          let (a, b) =
            watch_numbers-BothStarted name 1 (pos_part ms.scale) n low (omega (arith, high)) in
          let back = sym (f.all_of ∙ ap (λ t. t ++ f.rest) mine) in
          subst (BothStarted name n) back (
            IsStarted-before (name, pos n, after) (watch_numbers name 1 (pos_part ms.scale)) f.rest
                a,
            IsStarted-before (name, pos n, before) (watch_numbers name 1 (pos_part ms.scale)) f.rest
                b,
          )
      | inr e ↦
          let there : lookup name l ≡ some (some ms) = ground (arith, e, known) in
          let (a, b) = watch_services-BothStarted l name ms n f.rest f.behind there kept low high in
          subst (BothStarted name n) (sym f.all_of) (
            IsStarted-behind (name, pos n, after) numbers f.rest a,
            IsStarted-behind (name, pos n, before) numbers f.rest b,
          )
    ]

-- When a setting is taken up without a panic, then for each replica of each service that takes part
-- in the passing of kanbans both of its streams are watched.
pub start_watch_kanban-BothStarted :
    (ya : AionSetting) (name : String) (ms : Microservice) (n : ℕ) (ws : List Started)
    → start_watch_kanban ya ≡ some ws
    → lookup name (get_microservice_list ya) ≡ some (some ms)
    → ms.without_kanban ≡ false
    → 1 ≤ n
    → n ≤ pos_part ms.scale
    → BothStarted name n ws
unfolding start_watch_kanban
start_watch_kanban-BothStarted ya name ms n ws h =
    watch_services-BothStarted (get_microservice_list ya) name ms n ws h
