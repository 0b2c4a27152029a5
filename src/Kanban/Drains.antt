-- ===== src/Kanban/Drains.antt =====
-- A watcher of internal/kanban/redis.go that goes on long enough gets every kanban.
use aion_core.Prelude.{
  ℕ, zero, suc, ◌+◌, ◌≤◌, String, Bool, Bool-cases, inl, inr, if◌then◌else◌, List, [], ◌∷◌, ◌++◌,
  map, length, length-append, replicate, append-nil, append_assoc, some, ◌≡◌, refl, sym, ap, ◌∙◌,
  str_eq, arith,
}
use aion_core.Kanban.Types.{StatusKanban}
use aion_core.Redis.{Redis}
use aion_core.Kanban.Store.{AdaptorKanban, Jsonpb, init_prev_id}
use aion_core.Kanban.Queue.{
  StreamLaws, IsUp, Action, write, round, fifo, Fits, AllSurvive, deliveries,
}
use aion_core.Kanban.Refines.{deliveries-fifo}

-- The kanbans that are written to the stream `key`.
abbrev pub written_to : String → List Action → List StatusKanban
written_to key [] = []
written_to key (write other k ∷ l) =
    if str_eq other key then k ∷ written_to key l else written_to key l
written_to key (round ∷ l) = written_to key l

abbrev pub rounds : ℕ → List Action
rounds n = replicate n round

fifo-rounds :
    (key : String) (n : ℕ) (q : List StatusKanban) → length q ≤ n → fifo key (rounds n) q ≡ q
fifo-rounds key zero [] h = refl
fifo-rounds key zero (k ∷ q) h = absurd (omega (arith, h))
fifo-rounds key (suc n) [] h = fifo-rounds key n [] (omega arith)
fifo-rounds key (suc n) (k ∷ q) h = ap (λ t. k ∷ t) (fifo-rounds key n q (omega (arith, h)))

fifo-drained :
    (key : String) (n : ℕ) (l : List Action) (q : List StatusKanban)
    → length q + length (written_to key l) ≤ n
    → fifo key (l ++ rounds n) q ≡ q ++ written_to key l
fifo-drained key n [] q h = fifo-rounds key n q (omega (arith, h)) ∙ sym (append-nil q)
fifo-drained key n (write other k ∷ l) q h = elim (Bool-cases (str_eq other key)) [
  | inl e ↦
      let h' = rw e at h in
      let more : length (q ++ (k ∷ [])) + length (written_to key l) ≤ n =
        omega (arith, h', length-append q (k ∷ [])) in
      rw e (fifo-drained key n l (q ++ (k ∷ [])) more ∙ append_assoc q (k ∷ []) (written_to key l))
  | inr e ↦ rw e (fifo-drained key n l q (rw e at h))
]
fifo-drained key n (round ∷ l) [] h = fifo-drained key n l [] h
fifo-drained key n (round ∷ l) (k ∷ q) h =
    ap (λ t. k ∷ t) (fifo-drained key n l q (omega (arith, h)))

AllSurvive-rounds :
    {S : Type 0} (redis : Redis S) (jsonpb : Jsonpb) (n : ℕ) (l : List Action)
    → AllSurvive redis jsonpb l
    → AllSurvive redis jsonpb (l ++ rounds n)
AllSurvive-rounds redis jsonpb zero [] h = tt
AllSurvive-rounds redis jsonpb (suc n) [] h = AllSurvive-rounds redis jsonpb n [] tt
AllSurvive-rounds redis jsonpb n (write other k ∷ l) (s, h) =
    (s, AllSurvive-rounds redis jsonpb n l h)
AllSurvive-rounds redis jsonpb n (round ∷ l) h = AllSurvive-rounds redis jsonpb n l h

Fits-rounds :
    (key : String) (n : ℕ) (l : List Action) (q : List StatusKanban)
    → Fits key l q
    → Fits key (l ++ rounds n) q
Fits-rounds key zero [] q h = tt
Fits-rounds key (suc n) [] [] h = Fits-rounds key n [] [] tt
Fits-rounds key (suc n) [] (k ∷ q) h = Fits-rounds key n [] q tt
Fits-rounds key n (write other k ∷ l) q h = elim (Bool-cases (str_eq other key)) [
  | inl e ↦ (let (room, h') = rw e at h in rw e (room, Fits-rounds key n l (q ++ (k ∷ [])) h'))
  | inr e ↦ rw e (Fits-rounds key n l q (rw e at h))
]
Fits-rounds key n (round ∷ l) [] h = Fits-rounds key n l [] h
Fits-rounds key n (round ∷ l) (k ∷ q) h = Fits-rounds key n l q h

-- On a server that answers and on an empty stream: after any writes and rounds, of kanbans that
-- JSON keeps and never 50 of them waiting, as many more rounds as kanbans were written to the stream
-- bring the watcher every one of these, once and in the order of the writes.
pub deliveries-written_to :
    {S : Type 0} (redis : Redis S) (jsonpb : Jsonpb) (laws : StreamLaws redis) (up : IsUp redis)
    (delete_old : Bool) (key : String) (l : List Action) (n : ℕ) (s : S)
    → laws.after s key init_prev_id ≡ []
    → AllSurvive redis jsonpb l
    → Fits key l []
    → length (written_to key l) ≤ n
    → map
        (λ (a : AdaptorKanban). a.kanban)
        (deliveries redis jsonpb delete_old key (l ++ rounds n) init_prev_id s)
      ≡ map some (written_to key l)
deliveries-written_to redis jsonpb laws up delete_old key l n s fresh fine room enough =
    deliveries-fifo redis jsonpb laws up delete_old key (l ++ rounds n) s fresh
      (AllSurvive-rounds redis jsonpb n l fine) (Fits-rounds key n l [] room)
    ∙ ap (map some) (fifo-drained key n l [] (omega (arith, enough)))
