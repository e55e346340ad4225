-- ===== src/Examples/ClientExamples.antt =====
-- The theorems about client.cpp at concrete worlds.
use usbmuxd_plugable_usb_msv.Prelude.{
  ◌≤◌, ◌^◌, ◌⊎◌, negsuc, ◌+◌, ◌<◌, ◌==◌, if◌then◌else◌, length, List, take, ℕ, ◌≡◌, ◌≢◌, refl, [],
  ◌∷◌, some, none, true, false, arith, pos,
}
use usbmuxd_plugable_usb_msv.World.{
  Events, client_connecting1, sock_sent, World, MuxClient, client_connected, client_connecting2,
  update,
}
use usbmuxd_plugable_usb_msv.World.Step.{done}
use usbmuxd_plugable_usb_msv.Client.Reply.{
  codes, build_message, capacity_for, header_size, send_pkt, client_notify_connect,
}
use usbmuxd_plugable_usb_msv.Client.Reply.Output.{
  HasOutput, with_message, LacksMemory, Queues, answer_to, IsNotified, send_pkt_lem,
  client_notify_connect_lem,
}
use usbmuxd_plugable_usb_msv.World.Step.Ends.{Ends}
use usbmuxd_plugable_usb_msv.World.Host.{Host, plist_dict, plist_data, plist_string}
use usbmuxd_plugable_usb_msv.Client.Socket.{process_send}
use usbmuxd_plugable_usb_msv.Client.Socket.Flow.{process_send_lem}
use usbmuxd_plugable_usb_msv.Client.Pairing.{handle_save_pair_record_command}
use usbmuxd_plugable_usb_msv.Client.Pairing.Access.{Saves, handle_save_pair_record_command_lem}
use usbmuxd_plugable_usb_msv.Examples.{calm_host, phone, session, waiting, world_of}

abbrev established : World
established = world_of phone session waiting

waiting-HasOutput : HasOutput waiting []
waiting-HasOutput = record {
  present = refl;
  stored = omega arith;
  within = omega arith;
  small = omega arith;
}

send_pkt_lem_example :
    let c' = with_message waiting [] 9 1 (0 ∷ 0 ∷ 0 ∷ 0 ∷ []) in
    (LacksMemory calm_host waiting 20 established
      × (send_pkt calm_host 30 9 1 (0 ∷ 0 ∷ 0 ∷ 0 ∷ []) established ≡ done (negsuc 0) established))
    ⊎ (((20 ≤ 65536) ⊎ (calm_host.realloc established (capacity_for 65536 0 20) ≡ true))
        × (send_pkt calm_host 30 9 1 (0 ∷ 0 ∷ 0 ∷ 0 ∷ []) established
            ≡ done
                (pos 20)
                (record established { clients = update established.clients 30 (some c') }))
        × Queues waiting [] (build_message 0 9 1 (0 ∷ 0 ∷ 0 ∷ 0 ∷ [])) c'
        × (c'.state ≡ client_connecting1))
send_pkt_lem_example =
    send_pkt_lem calm_host 30 9 1 (0 ∷ 0 ∷ 0 ∷ 0 ∷ []) [] waiting established refl waiting-HasOutput
      (omega arith)

short_answer :
    (msg : ℕ) (payload : List ℕ)
    → answer_to calm_host waiting 0 ≡ some (msg, payload)
    → length payload < 2 ^ 30
short_answer msg payload e = ground arith

client_notify_connect_lem_example :
    ((client_connecting1 ≢ client_connecting1)
      × (client_notify_connect calm_host 30 0 established ≡ done (negsuc 0) established))
    ⊎ ((client_connecting1 ≡ client_connecting1)
        × ((((answer_to calm_host waiting 0 ≡ none)
                ⊎ ((msg : ℕ) × (payload : List ℕ) × (answer_to calm_host waiting 0
                      ≡ some (msg, payload))
                    × LacksMemory calm_host waiting (header_size + length payload) established))
              × (client_notify_connect calm_host 30 0 established ≡ done (negsuc 0) established))
            ⊎ IsNotified calm_host 30 0 [] waiting established))
client_notify_connect_lem_example =
    client_notify_connect_lem calm_host 30 0 [] waiting established refl (λ _. waiting-HasOutput)
      short_answer

abbrev linked : MuxClient
linked = record waiting { state = client_connected }

abbrev both : Events
both = record { pollin = true; pollout = true }

-- A client whose answer waits to be sent.
abbrev queued : MuxClient
queued = record waiting { state = client_connecting2; ob_buf = some (1 ∷ 2 ∷ 3 ∷ []); ob_size = 3 }

queued-HasOutput : HasOutput queued (1 ∷ 2 ∷ 3 ∷ [])
queued-HasOutput = record {
  present = refl;
  stored = omega arith;
  within = omega arith;
  small = omega arith;
}

process_send_lem_example :
    (v : World) × (c' : MuxClient) × (process_send calm_host 30 (world_of phone session queued)
      ≡ done tt v)
    × (v.clients 30 ≡ some c')
    × (v.trace ≡ sock_sent 4 (1 ∷ 2 ∷ 3 ∷ []) ∷ [])
    × (c'.ob_size + 3 ≡ 3)
    × (((3 < 3)
          × (c'.ob_buf ≡ some [])
          × (◌≡◌ {A = List ℕ} (take c'.ob_size []) [])
          × (c'.state ≡ client_connecting2)
          × (c'.events ≡ queued.events))
        ⊎ (((◌≡◌ {A = ℕ} 3 3)
              × (client_connecting2 ≡ client_connecting2)
              × (c'.state ≡ client_connected)
              × (c'.events ≡ queued.devents)
              × (c'.ob_buf ≡ none))
            ⊎ ((◌≡◌ {A = ℕ} 3 3)
                × (client_connecting2 ≢ client_connecting2)
                × (c'.state ≡ client_connecting2)
                × (c'.events.pollout ≡ false)
                × (c'.ob_buf ≡ some (1 ∷ 2 ∷ 3 ∷ [])))))
process_send_lem_example =
    process_send_lem calm_host 30 3 (1 ∷ 2 ∷ 3 ∷ []) queued (world_of phone session queued) refl
      queued-HasOutput (omega arith) refl (omega arith)

-- A plist library in which the empty dictionary is a request of libusbmuxd to save a record.
abbrev saving_host : Host
saving_host = record calm_host {
  Plist = List ℕ;
  plist_dict_get_item = λ dict key. some (
      if length (codes key) == 8
      then codes "org.libimobiledevice.usbmuxd"
      else if length (codes key) == 12
      then 7 ∷ []
      else 1 ∷ 5 ∷ []);
  plist_get_node_type =
      λ p. elim p [ [] ↦ plist_dict | b ∷ bs ↦ if b == 1 then plist_data else plist_string ];
  plist_get_data_val = λ p. some p;
}

handle_save_pair_record_command_lem_example :
    Ends
      (λ _ v. Saves saving_host [] established v)
      (handle_save_pair_record_command saving_host 30 9 [] established)
handle_save_pair_record_command_lem_example =
    handle_save_pair_record_command_lem saving_host 30 9 [] established
