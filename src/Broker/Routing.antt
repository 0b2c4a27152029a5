-- ===== src/Broker/Routing.antt =====
-- Where the watcher of cmd/service-broker/app/watcher.go sends a finished kanban.
use aion_core.Prelude.{
  Dict, String, Bool, true, false, if◌then◌else◌, ◌≡◌, ◌≢◌, refl, ap, ◌∙◌, Option, none, some, List,
  [], ◌∷◌, ◌++◌, map, All, lookup, str_eq, eq_iff, arith, Bool-cases, inl, inr,
}
use aion_core.Config.Types.{NextServiceSetting, Device, Project, AionSetting}
use aion_core.Config.Project.{get_next_number, get_device_name, get_device_list}
use aion_core.Kanban.Types.{Fields, StatusKanban}
use aion_core.Kanban.Keys.{before, get_stream_key_by_status_type}
use aion_core.Broker.Watcher.{
  Effect, send_to_device, write_kanban, start, Json, own_or, route_one, route_all, Next, stop,
  on_kanban,
}

-- The message to the device `name` for a next service.
abbrev pub to_device : String → Device → StatusKanban → NextServiceSetting → Effect
to_device name device k n = send_to_device (record {
  device_name = name;
  device_addr = device.addr;
  next_service = n.next_service_name;
  next_number = get_next_number k.process_number n.number_pattern;
  after_kanban = some k;
})

-- A kanban that names a device of the project goes, for every next service in order, to that
-- device, unchanged: the devices of the next services do not count, and nothing starts here.
pub route_all-to_device :
    (setting : AionSetting) (k : StatusKanban) (device : Device) (l : List NextServiceSetting)
    → k.next_device_name ≢ ""
    → lookup k.next_device_name (get_device_list setting) ≡ some device
    → route_all setting k l ≡ map (to_device k.next_device_name device k) l
unfolding route_all
route_all-to_device setting k device [] named known = refl
route_all-to_device setting k device (n ∷ l) named known =
    let ih = route_all-to_device setting k device l named known in
    let blank = eq_iff k.next_device_name "" in
    let same : own_or k.next_device_name n.next_device ≡ k.next_device_name =
      ground (arith, blank, named) in
    let found = ap (λ x. lookup x (get_device_list setting)) same ∙ known in
    let step : route_one setting k n ≡ (k, to_device k.next_device_name device k n ∷ []) =
      ground (arith, same, known, found) in
    ap (λ (r : StatusKanban × List Effect). r.1 ++ route_all setting r.0 l) step
    ∙ ap (λ t. to_device k.next_device_name device k n ∷ t) ih

-- The two effects of a next service on this device.
abbrev pub local_effects : AionSetting → StatusKanban → NextServiceSetting → List Effect
local_effects setting k n =
    let number = get_next_number k.process_number n.number_pattern in
    write_kanban (get_stream_key_by_status_type n.next_service_name number before)
      (some (record k { next_device_name = get_device_name setting }))
    ∷ start n.next_service_name number
    ∷ []

abbrev pub concat_map {ℓ κ} : {A : Type ℓ} {B : Type κ} → (A → List B) → List A → List B
concat_map f [] = []
concat_map f (x ∷ l) = f x ++ concat_map f l

All-map {ℓ κ μ} :
    {A : Type ℓ} {P : A → Type κ} {Q : A → Type μ}
    → ((a : A) → P a → Q a)
    → (l : List A) → All P l
    → All Q l
All-map f [] h = tt
All-map f (a ∷ l) (h, hs) = (f a h, All-map f l hs)

-- Neither the kanban nor the next service leads to a device of the project.
abbrev pub IsLocal : AionSetting → StatusKanban → NextServiceSetting → Type 0
IsLocal setting k n =
    (lookup k.next_device_name (get_device_list setting) ≡ none)
    × (lookup n.next_device (get_device_list setting) ≡ none)

own_or-none :
    (setting : AionSetting) (k : StatusKanban) (n : NextServiceSetting)
    → IsLocal setting k n
    → lookup (own_or k.next_device_name n.next_device) (get_device_list setting) ≡ none
own_or-none setting k n (a, b) = elim (Bool-cases (str_eq k.next_device_name "")) [
  | inl e ↦ rw e b
  | inr e ↦ rw e a
]

-- On a device that is not among the devices of its own project, and for next services that lead to
-- no device: every next service in order gets the kanban on its stream, with this device's name in
-- it, and is started with its number; nothing goes to another device.
pub route_all-local_effects :
    (setting : AionSetting) (k : StatusKanban) (l : List NextServiceSetting)
    → lookup (get_device_name setting) (get_device_list setting) ≡ none
    → All (IsLocal setting k) l
    → route_all setting k l ≡ concat_map (local_effects setting k) l
unfolding route_all
route_all-local_effects setting k [] own h = refl
route_all-local_effects setting k (n ∷ l) own (here, rest) =
    let k' : StatusKanban = record k { next_device_name = get_device_name setting } in
    let found = own_or-none setting k n here in
    let step : route_one setting k n ≡ (k', local_effects setting k n) = ground (arith, found) in
    let ih = route_all-local_effects setting k' l own (All-map (λ n x. (own, x.1)) l rest) in
    ap (λ (r : StatusKanban × List Effect). r.1 ++ route_all setting r.0 l) step
    ∙ ap (λ t. local_effects setting k n ++ t) ih

module _ (to_json : Option Fields → Option (Dict Json)) where
  -- Whether a kanban of the service ends the loop, which only a terminate request does.
  abbrev pub is_stop : Next → Bool
  is_stop stop = true
  is_stop _ = false

  abbrev pub ends : AionSetting → String → List StatusKanban → Bool
  ends setting ms_name [] = false
  ends setting ms_name (k ∷ ks) =
      if is_stop (on_kanban to_json setting ms_name k) then true else ends setting ms_name ks
