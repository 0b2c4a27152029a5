-- ===== src/SendAnything/TwoWays.antt =====
-- The two directions of the broker's connection to the send-anything server (server.go).
use aion_core.Prelude.Int.{ℤ}
use aion_core.Prelude.Decimal.{itoa_ℤ}
use aion_core.Prelude.{
  ◌<>◌, String, true, false, Option, none, some, List, [], ◌∷◌, ◌++◌, ◌&&◌, ◌≡◌, refl, subst, All,
  append-nil, sym, ap, append_assoc, Option-cases, Bool-cases, inl, inr, arith, if◌then◌else◌,
}
use aion_core.Kanban.Types.{Bytes, SendKanban}
use aion_core.Devices.{send_waiting}
use aion_core.SendAnything.Outside.{Codec, Link}
use aion_core.SendAnything.Take.{Source}
use aion_core.SendAnything.Folder.{send_to_other_device_client}
use aion_core.SendAnything.BrokerConn.{
  BrokerEvent, from_broker, to_broker, context_done, BrokerConn, is_panic, after_stream,
  send_received, broker_event, broker_events, service_broker_conn,
}

-- The kanbans from other devices that come before the end of the connection.
unfoldable pub pushed : List BrokerEvent → List SendKanban
pushed [] = []
pushed (to_broker (some k) ∷ l) = k ∷ pushed l
pushed (to_broker none ∷ l) = []
pushed (context_done ∷ l) = []
pushed (from_broker k ∷ l) = pushed l

-- The kanbans that the broker sends before its stream gives an error or the connection ends.
unfoldable pub received : List BrokerEvent → List SendKanban
received [] = []
received (from_broker (some k) ∷ l) = k ∷ received l
received (from_broker none ∷ l) = []
received (to_broker (some k) ∷ l) = received l
received (to_broker none ∷ l) = []
received (context_done ∷ l) = []

module _ {Any L T : Type 0} (codec : Codec Any) (link : Link Any L) (md5 : Bytes → Bytes)
    (source : Source) (aion_home : String) (client_port : ℤ) (dial : String → Option L)
    (send : SendKanban → T → T × Option String) where
  -- The stream that a kanban opens, as it is after the send, if its device can be reached.
  pub stream_of : SendKanban → List L
  stream_of k = elim (dial (k.device_addr <> ":" <> itoa_ℤ client_port)) [
    | none ↦ []
    | some l ↦ (send_to_other_device_client codec link md5 source aion_home k l).1 ∷ []
  ]

  pub streams_of : List SendKanban → List L
  streams_of [] = []
  streams_of (k ∷ l) = stream_of k ++ streams_of l

  abbrev event : BrokerEvent → BrokerConn L T → Option (BrokerConn L T)
  event = broker_event codec link md5 source aion_home client_port dial send

  abbrev events : List BrokerEvent → BrokerConn L T → Option (BrokerConn L T)
  events = broker_events codec link md5 source aion_home client_port dial send

  send_received_lem :
      (k : SendKanban) (c d : BrokerConn L T)
      → send_received codec link md5 source aion_home client_port dial send k c ≡ some d
      → record c { streams = c.streams ++ stream_of k } ≡ d
  unfolding send_received after_stream stream_of
  send_received_lem k c d h =
      elim (Option-cases (dial (k.device_addr <> ":" <> itoa_ℤ client_port))) [
        | inl e ↦
            let none_sent : record c { streams = c.streams ++ stream_of k } ≡ c =
              ap (λ l. record c { streams = l }) (ground (arith, e, append-nil c.streams)) in
            ground (arith, e, h, none_sent)
        | inr (l, e) ↦
            let sent = send_to_other_device_client codec link md5 source aion_home k l in
            elim (Bool-cases (is_panic sent.0)) [
              | inl f ↦ ground (arith, e, f, h)
              | inr f ↦ ground (arith, e, f, h)
            ]
      ]

  -- What becomes of the two directions in a list of events, from any state.
  record Both (l : List BrokerEvent) (c d : BrokerConn L T) : Type 0 where
    streams :
        d.streams
        ≡ (if c.receiving && c.serving then c.streams ++ streams_of (received l) else c.streams)
    broker : d.broker ≡ (if c.serving then send_waiting send (pushed l) c.broker else c.broker)

  cons-Both :
      (e : BrokerEvent) (l : List BrokerEvent) (c c' d : BrokerConn L T)
      → event e c ≡ some c'
      → Both l c' d
      → Both (e ∷ l) c d
  unfolding broker_event received pushed streams_of send_waiting
  cons-Both (from_broker (some k)) l c c' d h b = elim (Bool-cases (c.receiving && c.serving)) [
    | inl e ↦
        let same = send_received_lem k c c' (ground (arith, e, h)) in
        let both = subst (λ x. Both l x d) (sym same) b in
        let assoc = append_assoc c.streams (stream_of k) (streams_of (received l)) in
        record {
          streams = ground (arith, e, both.streams, assoc);
          broker = ground (arith, both.broker);
        }
    | inr e ↦
        let same : c ≡ c' = ground (arith, e, h) in
        record {
          streams = ground (arith, e, same, b.streams);
          broker = ground (arith, e, same, b.broker);
        }
  ]
  cons-Both (from_broker none) l c c' d h b = record {
    streams = ground (arith, h, b.streams, append-nil c.streams);
    broker = ground (arith, h, b.broker);
  }
  cons-Both (to_broker (some k)) l c c' d h b = elim (Bool-cases c.serving) [
    | inl e ↦ record {
      streams = ground (arith, e, h, b.streams);
      broker = ground (arith, e, h, b.broker);
    }
    | inr e ↦ record {
      streams = ground (arith, e, h, b.streams);
      broker = ground (arith, e, h, b.broker);
    }
  ]
  cons-Both (to_broker none) l c c' d h b = record {
    streams = ground (arith, h, b.streams, append-nil c.streams);
    broker = ground (arith, h, b.broker);
  }
  cons-Both context_done l c c' d h b = record {
    streams = ground (arith, h, b.streams, append-nil c.streams);
    broker = ground (arith, h, b.broker);
  }

  events-Both : (l : List BrokerEvent) (c d : BrokerConn L T) → events l c ≡ some d → Both l c d
  unfolding broker_events received pushed streams_of send_waiting
  events-Both [] c d h = record {
    streams = ground (arith, h, append-nil c.streams);
    broker = ground (arith, h);
  }
  events-Both (e ∷ l) c d h = elim (Option-cases (event e c)) [
    | inl f ↦ ground (arith, f, h)
    | inr (c', f) ↦ cons-Both e l c c' d f (events-Both l c' d (ground (arith, f, h)))
  ]

  -- The send of a kanban whose device can be reached does not panic.
  abbrev pub IsSafe : SendKanban → Type 0
  IsSafe k =
      (l : L)
      → dial (k.device_addr <> ":" <> itoa_ℤ client_port) ≡ some l
      → is_panic (send_to_other_device_client codec link md5 source aion_home k l).0 ≡ false

  send_received_total :
      (k : SendKanban) (c : BrokerConn L T)
      → IsSafe k
      → (d : BrokerConn L T) × (send_received codec link md5 source aion_home client_port dial send
            k c
          ≡ some d)
        × (d.receiving && d.serving ≡ c.receiving && c.serving)
  unfolding send_received after_stream
  send_received_total k c safe =
      elim (Option-cases (dial (k.device_addr <> ":" <> itoa_ℤ client_port))) [
        | inl e ↦ (c, ground (arith, e), refl)
        | inr (l, e) ↦
            let sent = send_to_other_device_client codec link md5 source aion_home k l in
            let f = safe l e in
            (record c { streams = c.streams ++ (sent.1 ∷ []) }, ground (arith, e, f), refl)
      ]

  -- While both loops run, what the broker sends does not panic.
  AllSafe : List BrokerEvent → BrokerConn L T → Type 0
  AllSafe l c = (c.receiving && c.serving) ≡ true → All IsSafe (received l)

  event_total :
      (e : BrokerEvent) (l : List BrokerEvent) (c : BrokerConn L T)
      → AllSafe (e ∷ l) c
      → (d : BrokerConn L T) × (event e c ≡ some d) × AllSafe l d
  unfolding broker_event received AllSafe
  event_total (from_broker (some k)) l c safe = elim (Bool-cases (c.receiving && c.serving)) [
    | inl e ↦
        let (now, later) = safe e in
        let (d, f, g) = send_received_total k c now in (d, ground (arith, e, f), λ h. later)
    | inr e ↦ (c, ground (arith, e), λ h. ground (arith, e, h))
  ]
  event_total (from_broker none) l c safe =
      (record c { receiving = false }, refl, λ h. ground (arith, h))
  event_total (to_broker (some k)) l c safe = elim (Bool-cases c.serving) [
    | inl e ↦ (record c { broker = (send k c.broker).0 }, ground (arith, e), safe)
    | inr e ↦ (c, ground (arith, e), safe)
  ]
  event_total (to_broker none) l c safe =
      (record c { serving = false }, refl, λ h. ground (arith, h))
  event_total context_done l c safe = (record c { serving = false }, refl, λ h. ground (arith, h))

  events_total :
      (l : List BrokerEvent) (c : BrokerConn L T)
      → AllSafe l c
      → (d : BrokerConn L T) × (events l c ≡ some d)
  unfolding broker_events
  events_total [] c safe = (c, refl)
  events_total (e ∷ l) c safe =
      let (c', f, rest) = event_total e l c safe in
      let (d, g) = events_total l c' rest in (d, ground (arith, f, g))

  -- For every interleaving of what happens on the broker's connection: if the sends of the kanbans
  -- that the broker sends before its stream gives an error or the connection ends do not panic, the
  -- handler does not either. Each of these kanbans whose device can be reached is sent on a stream
  -- of its own, in order; and the kanbans from other devices that come before the channel is closed
  -- or the context is done are sent to the broker, in order.
  pub service_broker_conn_lem :
      (l : List BrokerEvent) (t : T)
      → All IsSafe (received l)
      → (c : BrokerConn L T) × (service_broker_conn codec link md5 source aion_home client_port dial
            send l t
          ≡ some c)
        × (c.streams ≡ streams_of (received l))
        × (c.broker ≡ send_waiting send (pushed l) t)
  unfolding service_broker_conn AllSafe
  service_broker_conn_lem l t safe =
      let start : BrokerConn L T = record {
        receiving = true;
        serving = true;
        streams = [];
        broker = t;
      } in
      let (c, h) = events_total l start (λ e. safe) in
      let b = events-Both l start c h in (c, h, b.streams, b.broker)
