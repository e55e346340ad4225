-- ===== src/Client/Reply/Output.antt =====
-- client.cpp: the output buffer of a client: `send_pkt` and `process_send` make a queue of bytes,
-- and `client_notify_connect` moves the client on.
use usbmuxd_plugable_usb_msv.Prelude.{
  ◌⊎◌, inl, inr, ◌∙◌, Option, Option-cases, if◌then◌else◌, false, Bool-cases, ◌==◌, ℕ, ◌+◌, ◌^◌,
  ◌≤◌, ◌<◌, ◌≡◌, ◌≢◌, refl, List, ◌++◌, true, false, some, none, arith, length, take, pos, negsuc,
  length-append, length-take,
}
use usbmuxd_plugable_usb_msv.Wire.{le32}
use usbmuxd_plugable_usb_msv.World.{
  ClientState, client_listen, client_dead, World, MuxClient, Events, client_command,
  client_connecting1, client_connecting2, client_connected, update,
}
use usbmuxd_plugable_usb_msv.World.Host.{Host}
use usbmuxd_plugable_usb_msv.World.Step.{done}
use usbmuxd_plugable_usb_msv.Client.Reply.{
  header_size, build_message, capacity_for, must_grow, buffer_for, queue_message, make_room,
  copy_message, send_pkt, send_plist_pkt, send_result, result_plist, message_plist, message_result,
  notified, client_notify_connect, with_events, client_set_events,
}

-- The output of a client lies in its buffer, and the buffer is as large as it says.
pub record HasOutput (c : MuxClient) (buf : List ℕ) : Type 0 where
  pub present : c.ob_buf ≡ some buf
  pub stored : c.ob_size ≤ length buf
  pub within : c.ob_size ≤ c.ob_capacity
  pub small : c.ob_capacity < 2 ^ 31

-- The client that `send_pkt` leaves.
abbrev pub with_message : MuxClient → List ℕ → ℕ → ℕ → List ℕ → MuxClient
with_message c buf tag msg payload =
    queue_message c (capacity_for c.ob_capacity c.ob_size (header_size + length payload)) buf
      (build_message c.proto_version tag msg payload)

length-build_message :
    (version tag msg : ℕ) (payload : List ℕ)
    → length (build_message version tag msg payload) ≡ header_size + length payload
unfolding build_message
length-build_message version tag msg payload = omega arith

is_waiting : (s : ClientState) → (s ≡ client_connecting1) ⊎ (s ≢ client_connecting1)
is_waiting client_command = inr (λ e. ground arith)
is_waiting client_listen = inr (λ e. ground arith)
is_waiting client_connecting1 = inl refl
is_waiting client_connecting2 = inr (λ e. ground arith)
is_waiting client_connected = inr (λ e. ground arith)
is_waiting client_dead = inr (λ e. ground arith)

-- The output of the client is too small for a message behind what is queued, and there is no memory
-- for a larger one.
abbrev pub LacksMemory : Host → MuxClient → ℕ → World → Type 0
LacksMemory host c len w =
    (c.ob_capacity < c.ob_size + len)
    × (host.realloc w (capacity_for c.ob_capacity c.ob_size len) ≡ false)

-- The message that is queued in a client, behind what waited there.
abbrev pub Queues : MuxClient → List ℕ → List ℕ → MuxClient → Type 0
Queues c buf message c' =
    (c'.ob_buf ≡ some (take c.ob_size buf ++ message))
    × (c'.ob_size ≡ length (take c.ob_size buf ++ message))
    × (c'.ob_size ≤ c'.ob_capacity)
    × (c'.events.pollout ≡ true)

module _ (host : Host) where
  make_room_cases :
      (c : MuxClient) (buf : List ℕ) (len : ℕ) (w : World)
      → HasOutput c buf
      → len < 2 ^ 31
      → (LacksMemory host c len w × (make_room host c len w ≡ done false w))
        ⊎ (((c.ob_size + len ≤ c.ob_capacity)
              ⊎ (host.realloc w (capacity_for c.ob_capacity c.ob_size len) ≡ true))
            × (make_room host c len w ≡ done true w))
  unfolding make_room must_grow
  make_room_cases c buf len w v h = elim (Bool-cases (must_grow c.ob_capacity c.ob_size len)) [
    | inr fits ↦ inr (inl (ground (arith, fits)), ground (arith, fits))
    | inl grow ↦ elim (Bool-cases (host.realloc w (capacity_for c.ob_capacity c.ob_size len))) [
      | inl granted ↦ inr (inr granted, ground (arith, grow, granted))
      | inr denied ↦ inl ((ground (arith, grow), denied), ground (arith, grow, denied))
    ]
  ]

  copy_message_lem :
      (p tag msg : ℕ) (payload buf : List ℕ) (c : MuxClient) (w : World)
      → HasOutput c buf
      → length payload < 2 ^ 30
      → let c' = with_message c buf tag msg payload in
        let message = build_message c.proto_version tag msg payload in
        (copy_message host p c (header_size + length payload) message w
          ≡ done
              (pos (header_size + length payload))
              (record w { clients = update w.clients p (some c') }))
        × Queues c buf message c'
  unfolding copy_message queue_message capacity_for must_grow buffer_for
  copy_message_lem p tag msg payload buf c w v h =
      (ground (arith, v.present), (refl, ground (arith, size), ground (arith, size), refl))
    where
      size :
          (length (build_message c.proto_version tag msg payload) ≡ header_size + length payload)
          × (length (take c.ob_size buf ++ build_message c.proto_version tag msg payload)
              ≡ c.ob_size + (header_size + length payload))
      size = (
        length-build_message c.proto_version tag msg payload,
        omega (
          arith,
          length-append (take c.ob_size buf) (build_message c.proto_version tag msg payload),
          length-build_message c.proto_version tag msg payload,
          length-take c.ob_size buf,
        ),
      )

  -- `send_pkt` on a client whose output buffer is in order, with a payload below 2 ^ 30 bytes: if the
  -- message does not fit and there is no memory for a larger buffer, the result is -1 and nothing
  -- changes. Otherwise it fits or there is memory, the result is the length of the message, which
  -- stands behind what was queued; the copy stays inside the buffer, the client polls for output, and
  -- is in the state in which it was.
  pub send_pkt_lem :
      (p tag msg : ℕ) (payload buf : List ℕ) (c : MuxClient) (w : World)
      → w.clients p ≡ some c
      → HasOutput c buf
      → length payload < 2 ^ 30
      → let c' = with_message c buf tag msg payload in
        let len = header_size + length payload in
        (LacksMemory host c len w × (send_pkt host p tag msg payload w ≡ done (negsuc 0) w))
        ⊎ (((c.ob_size + len ≤ c.ob_capacity)
              ⊎ (host.realloc w (capacity_for c.ob_capacity c.ob_size len) ≡ true))
            × (send_pkt host p tag msg payload w
                ≡ done (pos len) (record w { clients = update w.clients p (some c') }))
            × Queues c buf (build_message c.proto_version tag msg payload) c'
            × (c'.state ≡ c.state))
  unfolding send_pkt queue_message
  send_pkt_lem p tag msg payload buf c w found v h =
      let (copied, queued) = copy_message_lem p tag msg payload buf c w v h in
      elim (make_room_cases c buf (header_size + length payload) w v (omega arith)) [
        | inl (lacks, denied) ↦ inl (lacks, ground (arith, found, denied))
        | inr (room, granted) ↦ inr (room, ground (arith, found, granted, copied), queued, refl)
      ]

  -- The type and the payload of the answer to a request to connect, in the protocol of the client;
  -- nothing if libplist cannot write it.
  abbrev pub answer_to : MuxClient → ℕ → Option (ℕ × List ℕ)
  answer_to c result =
      if c.proto_version == 1
      then elim (host.plist_to_xml (result_plist host result)) [
        | none ↦ none
        | some xml ↦ some (message_plist, xml)
      ]
      else some (message_result, le32 result)

  send_result_by :
      (p tag result : ℕ) (c : MuxClient) (w : World)
      → w.clients p ≡ some c
      → ((answer_to c result ≡ none) × (send_result host p tag result w ≡ done (negsuc 0) w))
        ⊎ ((msg : ℕ) × (payload : List ℕ) × (answer_to c result ≡ some (msg, payload))
            × (send_result host p tag result w ≡ send_pkt host p tag msg payload w))
  unfolding send_result send_plist_pkt
  send_result_by p tag result c w found = elim (Bool-cases (c.proto_version == 1)) [
    | inr binary ↦
        inr (message_result, le32 result, ground (arith, binary), ground (arith, found, binary))
    | inl plist ↦ elim (Option-cases (host.plist_to_xml (result_plist host result))) [
      | inl e ↦ inl (ground (arith, plist, e), ground (arith, found, plist, e))
      | inr (xml, e) ↦
          inr (message_plist, xml, ground (arith, plist, e), ground (arith, found, plist, e))
    ]
  ]

  -- What a good result, or another, makes of the client that waited.
  abbrev pub MovedOn : ℕ → MuxClient → MuxClient → Type 0
  MovedOn result c c' =
      ((result ≡ 0)
        × (c'.state ≡ client_connecting2)
        × (c'.ib_buf ≡ none)
        × (c'.events.pollin ≡ false))
      ⊎ ((result ≢ 0)
          × (c'.state ≡ client_command)
          × (c'.ib_buf ≡ c.ib_buf)
          × (c'.events.pollin ≡ c.events.pollin))

  -- The answer was queued in the client, which moved on; every other client is as it was.
  abbrev pub IsNotified : ℕ → ℕ → List ℕ → MuxClient → World → Type 0
  IsNotified p result buf c w =
      (msg : ℕ) × (payload : List ℕ) × (clients : ℕ → Option MuxClient) × (c' : MuxClient)
      × (answer_to c result ≡ some (msg, payload))
      × (client_notify_connect host p result w ≡ done (pos 0) (record w { clients = clients }))
      × ((q : ℕ) → q ≢ p → clients q ≡ w.clients q)
      × (clients p ≡ some c')
      × Queues c buf (build_message c.proto_version c.connect_tag msg payload) c'
      × MovedOn result c c'

  notified-MovedOn :
      (result : ℕ) (c sent : MuxClient)
      → sent.ib_buf ≡ c.ib_buf
      → sent.events.pollin ≡ c.events.pollin
      → MovedOn result c (notified result sent)
  unfolding notified
  notified-MovedOn result c sent same polls = elim (Bool-cases (result == 0)) [
    | inl good ↦ inl (ground arith, ground arith, ground arith, ground arith)
    | inr bad ↦ inr (ground arith, ground arith, ground arith, ground arith)
  ]

  notified-Queues :
      (result : ℕ) (c sent : MuxClient) (buf message : List ℕ)
      → Queues c buf message sent
      → Queues c buf message (notified result sent)
  unfolding notified
  notified-Queues result c sent buf message v = elim (Bool-cases (result == 0)) [
    | inl good ↦ ground (arith, good, v)
    | inr bad ↦ ground (arith, bad, v)
  ]

  client_notify_connect-IsNotified :
      (p result msg : ℕ) (payload buf : List ℕ) (c : MuxClient) (w : World)
      → w.clients p ≡ some c
      → c.state ≡ client_connecting1
      → answer_to c result ≡ some (msg, payload)
      → (let c' = with_message c buf c.connect_tag msg payload in
          send_result host p c.connect_tag result w
          ≡ done
              (pos (header_size + length payload))
              (record w { clients = update w.clients p (some c') }))
      → Queues c buf
          (build_message c.proto_version c.connect_tag msg payload)
          (with_message c buf c.connect_tag msg payload)
      → IsNotified p result buf c w
  unfolding client_notify_connect queue_message
  client_notify_connect-IsNotified p result msg payload buf c w found waits answer sent queued =
      let c' = with_message c buf c.connect_tag msg payload in
      (
        msg,
        payload,
        update (update w.clients p (some c')) p (some (notified result c')),
        notified result c',
        answer,
        ground (arith, found, waits, sent),
        λ q ne. ground arith,
        ground arith,
        notified-Queues result c c' buf _ queued,
        notified-MovedOn result c c' refl refl,
      )

  -- `client_notify_connect` returns -1 and changes nothing for a client that does not wait in
  -- CONNECTING1. For one that waits, with an output buffer in order and an answer below 2 ^ 30 bytes:
  -- if libplist cannot write the answer, or it does not fit and there is no memory, the result is -1
  -- and nothing changes. Otherwise the answer, in the protocol of the client and under the tag of its
  -- request, stands behind what was queued; a good result takes the client to CONNECTING2, without
  -- its in-buffer and polling for output alone, and any other back to COMMAND; every other client and
  -- all else of the world is as it was.
  pub client_notify_connect_lem :
      (p result : ℕ) (buf : List ℕ) (c : MuxClient) (w : World)
      → w.clients p ≡ some c
      → (c.state ≡ client_connecting1 → HasOutput c buf)
      → ((msg : ℕ) (payload : List ℕ)
          → answer_to c result ≡ some (msg, payload)
          → length payload < 2 ^ 30)
      → ((c.state ≢ client_connecting1)
          × (client_notify_connect host p result w ≡ done (negsuc 0) w))
        ⊎ ((c.state ≡ client_connecting1)
            × ((((answer_to c result ≡ none)
                    ⊎ ((msg : ℕ) × (payload : List ℕ) × (answer_to c result ≡ some (msg, payload))
                        × LacksMemory host c (header_size + length payload) w))
                  × (client_notify_connect host p result w ≡ done (negsuc 0) w))
                ⊎ IsNotified p result buf c w))
  unfolding client_notify_connect
  client_notify_connect_lem p result buf c w found has_output small = elim (is_waiting c.state) [
    | inr ne ↦ inl (ne, ground arith)
    | inl waits ↦ elim (send_result_by p c.connect_tag result c w found) [
      | inl (unwritten, failed) ↦
          inr (waits, inl (inl unwritten, ground (arith, found, waits, failed)))
      | inr (msg, payload, answer, sends) ↦
          elim (send_pkt_lem p c.connect_tag msg payload buf c w found (has_output waits)
            (small msg payload answer)) [
              | inl (lacks, failed) ↦ inr (
                waits,
                inl (
                  inr (msg, payload, answer, lacks),
                  ground (arith, found, waits, sends ∙ failed),
                ),
              )
              | inr (_, sent, queued, _) ↦ inr (
                waits,
                inr (
                    client_notify_connect-IsNotified p result msg payload buf c w found waits answer
                      (sends ∙ sent) queued),
              )
            ]
    ]
  ]

link_state :
    (s : ClientState)
    → (s ≡ client_connected)
      ⊎ ((s ≡ client_connecting2) ⊎ ((s ≢ client_connected) × (s ≢ client_connecting2)))
link_state client_command = inr (inr (λ e. ground arith, λ e. ground arith))
link_state client_listen = inr (inr (λ e. ground arith, λ e. ground arith))
link_state client_connecting1 = inr (inr (λ e. ground arith, λ e. ground arith))
link_state client_connecting2 = inr (inl refl)
link_state client_connected = inl refl
link_state client_dead = inr (inr (λ e. ground arith, λ e. ground arith))

-- `client_set_events` keeps the mask for a client that is connected or about to be, and sets it at
-- once only for one that is connected; any other client is left as it is.
client_set_events_lem :
    (p : ℕ) (e : Events) (c : MuxClient) (w : World)
    → w.clients p ≡ some c
    → ((c.state ≡ client_connected)
        × (client_set_events (some p) e w
            ≡ done (pos 0) (record w {
              clients = update w.clients p (some (record c { devents = e; events = e }));
            })))
      ⊎ (((c.state ≡ client_connecting2)
            × (client_set_events (some p) e w
                ≡ done
                    (pos 0)
                    (record w { clients = update w.clients p (some (record c { devents = e })) })))
          ⊎ ((c.state ≢ client_connected)
              × (c.state ≢ client_connecting2)
              × (client_set_events (some p) e w ≡ done (negsuc 0) w)))
unfolding client_set_events with_events
client_set_events_lem p e c w found = elim (link_state c.state) [
  | inl s ↦ inl (s, ground arith)
  | inr (inl s) ↦ inr (inl (s, ground arith))
  | inr (inr (s, t)) ↦ inr (inr (s, t, ground arith))
]
