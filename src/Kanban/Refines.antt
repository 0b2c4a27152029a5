-- ===== src/Kanban/Refines.antt =====
-- The watcher of internal/kanban/redis.go and the queue it reads from.
use aion_core.Prelude.{
  suc, ◌<◌, String, Bool, true, false, Bool-cases, Option-cases, Result-cases, inl, inr,
  if◌then◌else◌, List, [], ◌∷◌, ◌++◌, map, length, Dict, lookup, Option, none, some, Result, ok,
  ◌≡◌, ◌≢◌, refl, sym, ap, subst, ◌∙◌, str_eq, eq_iff, arith,
}
use aion_core.Kanban.Types.{StatusKanban}
use aion_core.Redis.{
  Item, text, XStream, Redis, max_len, read_answer, first_message, x_read_one, x_add, x_del,
}
use aion_core.Kanban.Store.{
  AdaptorKanban, Jsonpb, UnmarshalError, init_prev_id, Watch, waiting, read, unmarshal_kanban,
  write_kanban, after_read, sent, watch_round,
}
use aion_core.Kanban.Queue.{
  Entry, StreamLaws, IsUp, Action, write, round, fifo, Fits, Survives, AllSurvive, then_sent,
  deliveries,
}

map-append {ℓ κ} :
    {A : Type ℓ} {B : Type κ} (f : A → B) (xs ys : List A) → map f (xs ++ ys) ≡ map f xs ++ map f ys
map-append f [] ys = refl
map-append f (x ∷ xs) ys = ap (λ t. f x ∷ t) (map-append f xs ys)

length-map {ℓ κ} :
    {A : Type ℓ} {B : Type κ} (f : A → B) (xs : List A) → length (map f xs) ≡ length xs
length-map f [] = refl
length-map f (x ∷ xs) = ap suc (length-map f xs)

module _ {S : Type 0} (redis : Redis S) (jsonpb : Jsonpb) (laws : StreamLaws redis)
    (up : IsUp redis) where
  decode : Entry → Result UnmarshalError (Option StatusKanban)
  decode e = unmarshal_kanban jsonpb (some e.1)

  good : StatusKanban → Result UnmarshalError (Option StatusKanban)
  good k = ok (some k)

  -- Behind `prev` the stream holds the kanbans `q`, in this order.
  record IsQueue (key prev : String) (s : S) (q : List StatusKanban) : Type 0 where
    known : laws.Known s key prev
    holds : map decode (laws.after s key prev) ≡ map good q

  length-IsQueue :
      (key prev : String) (s : S) (q : List StatusKanban)
      → IsQueue key prev s q
      → length (laws.after s key prev) ≡ length q
  length-IsQueue key prev s q h =
      sym (length-map decode (laws.after s key prev)) ∙ ap length h.holds ∙ length-map good q

  -- What was written reads back.
  decode-entry :
      (new t : String) (k : StatusKanban)
      → jsonpb.unmarshal t ≡ ok k
      → decode (new, ("kanban", text t) ∷ []) ≡ good k
  unfolding decode good unmarshal_kanban lookup
  decode-entry new t k h = rw h refl

  write_kanban-puts :
      (key t new : String) (k : StatusKanban) (s : S)
      → jsonpb.marshal_to_string (some k) ≡ ok t
      → (redis.xadd key max_len (("kanban", text t) ∷ []) s).1 ≡ ok new
      → write_kanban redis jsonpb key (some k) s
        ≡ ((redis.xadd key max_len (("kanban", text t) ∷ []) s).0, none)
  unfolding write_kanban x_add
  write_kanban-puts key t new k s h e = ground (arith, h, e)

  write_kanban-here :
      (key prev : String) (k : StatusKanban) (s : S) (q : List StatusKanban)
      → Survives redis jsonpb k
      → IsQueue key prev s q
      → length q < max_len
      → IsQueue key prev (write_kanban redis jsonpb key (some k) s).0 (q ++ (k ∷ []))
  write_kanban-here key prev k s q (t, prints, parses) h room =
      let v : Dict Item = ("kanban", text t) ∷ [] in
      let (new, added) = up.adds s key max_len v in
      let fewer : length (laws.after s key prev) < max_len =
        subst (λ n. n < max_len) (sym (length-IsQueue key prev s q h)) room in
      let behind = laws.add_here s key prev new max_len v added h.known fewer in
      rw (write_kanban-puts key t new k s prints added) (record {
        known = laws.add_known s key key prev max_len v h.known;
        holds =
            ap (map decode) behind
            ∙ map-append decode (laws.after s key prev) ((new, v) ∷ [])
            ∙ ap (λ l. l ++ map decode ((new, v) ∷ [])) h.holds
            ∙ ap (λ r. map good q ++ (r ∷ [])) (decode-entry new t k parses)
            ∙ sym (map-append good q (k ∷ []));
      })

  write_kanban-elsewhere :
      (key other prev : String) (k : StatusKanban) (s : S) (q : List StatusKanban)
      → Survives redis jsonpb k
      → IsQueue key prev s q
      → other ≢ key
      → IsQueue key prev (write_kanban redis jsonpb other (some k) s).0 q
  write_kanban-elsewhere key other prev k s q (t, prints, parses) h apart =
      let v : Dict Item = ("kanban", text t) ∷ [] in
      let (new, added) = up.adds s other max_len v in
      rw (write_kanban-puts other t new k s prints added) (record {
        known = laws.add_known s key other prev max_len v h.known;
        holds = ap (map decode) (laws.add_elsewhere s key other prev max_len v apart) ∙ h.holds;
      })

  waits :
      (delete_old : Bool) (key prev : String) (s : S)
      → redis.xread (key ∷ prev ∷ []) 1 0 s ≡ none
      → watch_round redis jsonpb false delete_old key prev s ≡ (s, waiting)
  unfolding watch_round x_read_one
  waits delete_old key prev s e = rw (e, watch_round, x_read_one) refl

  reads :
      (delete_old : Bool) (key prev i : String) (s : S) (v : Dict Item) (l : List XStream)
      → redis.xread (key ∷ prev ∷ []) 1 0 s ≡ some (ok l)
      → first_message l ≡ ok (some v, i)
      → watch_round redis jsonpb false delete_old key prev s ≡ (
        if delete_old then (redis.xdel key (prev ∷ []) s).0 else s,
        read i (sent i (unmarshal_kanban jsonpb (some v))),
      )
  unfolding watch_round x_read_one after_read read_answer x_del
  reads delete_old key prev i s v l e m = ground (arith, e, m)

  -- A round with nothing in the queue waits.
  watch_round-waits :
      (delete_old : Bool) (key prev : String) (s : S)
      → IsQueue key prev s []
      → watch_round redis jsonpb false delete_old key prev s ≡ (s, waiting)
  watch_round-waits delete_old key prev s h =
      elim (Option-cases (redis.xread (key ∷ prev ∷ []) 1 0 s)) [
        | inl e ↦ waits delete_old key prev s e
        | inr (r, e) ↦ elim (Result-cases r) [
          | inl (f, is_err) ↦ absurd (up.reads s (key ∷ prev ∷ []) 1 0 f (e ∙ ap some is_err))
          | inr (l, is_ok) ↦
              let (i, v, rest, behind, l_is) = laws.read_gives s key prev l (e ∙ ap some is_ok) in
              let c : map decode ((i, v) ∷ rest) ≡ [] = sym (ap (map decode) behind) ∙ h.holds in
              ground (arith, c)
        ]
      ]

  -- A round reads the head of the queue, and the queue goes on behind it.
  record Reads (delete_old : Bool) (key prev : String) (s : S) (k : StatusKanban)
      (q : List StatusKanban) : Type 0 where
    next : String
    store : S
    result :
        watch_round redis jsonpb false delete_old key prev s
        ≡ (store, read next (some (record { id = next; kanban = some k })))
    queue : IsQueue key next store q

  next-IsQueue :
      (delete_old : Bool) (key prev i : String) (s : S) (v : Dict Item) (rest : List Entry)
      (q : List StatusKanban)
      → laws.Known s key prev
      → laws.after s key prev ≡ (i, v) ∷ rest
      → map decode rest ≡ map good q
      → IsQueue key i (if delete_old then (redis.xdel key (prev ∷ []) s).0 else s) q
  next-IsQueue true key prev i s v rest q known behind h =
      let (k, a) = laws.del_read s key prev i v rest known behind in
      record { known = k; holds = ap (map decode) a ∙ h }
  next-IsQueue false key prev i s v rest q known behind h =
      let (k, a) = laws.known_next s key prev i v rest known behind in
      record { known = k; holds = ap (map decode) a ∙ h }

  found :
      (delete_old : Bool) (key prev i : String) (s : S) (v : Dict Item) (rest : List Entry)
      (l : List XStream) (k : StatusKanban) (q : List StatusKanban)
      → redis.xread (key ∷ prev ∷ []) 1 0 s ≡ some (ok l)
      → first_message l ≡ ok (some v, i)
      → laws.after s key prev ≡ (i, v) ∷ rest
      → IsQueue key prev s (k ∷ q)
      → Reads delete_old key prev s k q
  unfolding decode good sent
  found delete_old key prev i s v rest l k q e m behind h =
      let c : map decode ((i, v) ∷ rest) ≡ map good (k ∷ q) =
        sym (ap (map decode) behind) ∙ h.holds in
      let head : unmarshal_kanban jsonpb (some v) ≡ ok (some k) = ground (arith, c) in
      let tail : map decode rest ≡ map good q = ground (arith, c) in
      let store' = if delete_old then (redis.xdel key (prev ∷ []) s).0 else s in
      record {
        next = i;
        store = store';
        result = reads delete_old key prev i s v l e m ∙ ap (λ r. (store', read i (sent i r))) head;
        queue = next-IsQueue delete_old key prev i s v rest q h.known behind tail;
      }

  watch_round-reads :
      (delete_old : Bool) (key prev : String) (s : S) (k : StatusKanban) (q : List StatusKanban)
      → IsQueue key prev s (k ∷ q)
      → Reads delete_old key prev s k q
  unfolding first_message
  watch_round-reads delete_old key prev s k q h =
      elim (Option-cases (redis.xread (key ∷ prev ∷ []) 1 0 s)) [
        | inl e ↦
            let c : [] ≡ map good (k ∷ q) =
              sym (ap (map decode) (laws.read_waits s key prev e)) ∙ h.holds in
            ground (arith, c)
        | inr (r, e) ↦ elim (Result-cases r) [
          | inl (f, is_err) ↦ absurd (up.reads s (key ∷ prev ∷ []) 1 0 f (e ∙ ap some is_err))
          | inr (l, is_ok) ↦
              let (i, v, rest, behind, l_is) = laws.read_gives s key prev l (e ∙ ap some is_ok) in
              found delete_old key prev i s v rest l k q (e ∙ ap some is_ok) (ap first_message l_is)
                behind h
        ]
      ]

  -- The kanbans on the channel after a round that came to `r`.
  kanbans : Bool → String → String → List Action → S × Watch → List (Option StatusKanban)
  kanbans delete_old key prev l r =
      map (λ (a : AdaptorKanban). a.kanban)
        (then_sent redis jsonpb r (λ next s'. deliveries redis jsonpb delete_old key l next s')
          prev)

  deliveries-from :
      (delete_old : Bool) (key prev : String) (l : List Action) (s : S) (q : List StatusKanban)
      → AllSurvive redis jsonpb l
      → Fits key l q
      → IsQueue key prev s q
      → map (λ (a : AdaptorKanban). a.kanban) (deliveries redis jsonpb delete_old key l prev s)
        ≡ map some (fifo key l q)
  unfolding deliveries kanbans
  deliveries-from delete_old key prev [] s q fine room h = refl
  deliveries-from delete_old key prev (write other k ∷ l) s q (survives, fine) room h =
      let s' = (write_kanban redis jsonpb other (some k) s).0 in
      elim (Bool-cases (str_eq other key)) [
        | inl e ↦
            let (fewer, room') = rw e at room in
            let same : other ≡ key = ground (arith, e, eq_iff other key) in
            let h' =
              subst
                (λ o. IsQueue key prev (write_kanban redis jsonpb o (some k) s).0 (q ++ (k ∷ [])))
                (sym same) (write_kanban-here key prev k s q survives h fewer) in
            rw e (deliveries-from delete_old key prev l s' (q ++ (k ∷ [])) fine room' h')
        | inr e ↦
            let apart : other ≢ key = λ p. ground (arith, e, p, eq_iff other key) in
            let h' = write_kanban-elsewhere key other prev k s q survives h apart in
            rw e (deliveries-from delete_old key prev l s' q fine (rw e at room) h')
      ]
  deliveries-from delete_old key prev (round ∷ l) s [] fine room h =
      ap (kanbans delete_old key prev l) (watch_round-waits delete_old key prev s h)
      ∙ deliveries-from delete_old key prev l s [] fine room h
  deliveries-from delete_old key prev (round ∷ l) s (k ∷ q) fine room h =
      let r = watch_round-reads delete_old key prev s k q h in
      let ih = deliveries-from delete_old key r.next l r.store q fine room r.queue in
      ap (kanbans delete_old key prev l) r.result ∙ ap (λ t. some k ∷ t) ih

  -- A server that answers, whose streams behave as Redis documents; a stream that holds nothing;
  -- writes to this stream and to others, in any order with rounds of the watcher, of kanbans that
  -- JSON keeps, so that fewer than 50 wait at each write: the watcher sends, with or without the
  -- deletion of old messages, what a first-in first-out queue of the kanbans would give out.
  pub deliveries-fifo :
      (delete_old : Bool) (key : String) (l : List Action) (s : S)
      → laws.after s key init_prev_id ≡ []
      → AllSurvive redis jsonpb l
      → Fits key l []
      → map
          (λ (a : AdaptorKanban). a.kanban)
          (deliveries redis jsonpb delete_old key l init_prev_id s)
        ≡ map some (fifo key l [])
  deliveries-fifo delete_old key l s fresh fine room =
      deliveries-from delete_old key init_prev_id l s [] fine room
        (record { known = laws.known_zero s key; holds = ap (map decode) fresh })
