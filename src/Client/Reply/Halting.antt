-- ===== src/Client/Reply/Halting.antt =====
-- client.cpp: `send_result` and `client_notify_connect` end.
use usbmuxd_plugable_usb_msv.Prelude.{ℕ, List, arith, ℤ, is_neg, negsuc, ◌==◌}
use usbmuxd_plugable_usb_msv.World.{
  ClientState, client_command, client_listen, client_connecting1, client_connecting2,
  client_connected, client_dead,
}
use usbmuxd_plugable_usb_msv.World.Host.{Host}
use usbmuxd_plugable_usb_msv.World.Step.{M, pure, load_client}
use usbmuxd_plugable_usb_msv.World.Step.Ends.{
  Halts, Halts-bind, Halts-if, Halts-pure, Halts-load_client, Halts-option,
}
use usbmuxd_plugable_usb_msv.Client.Reply.{
  make_room, copy_message, send_pkt, send_plist_pkt, send_result, client_notify_connect,
  message_plist,
}

if_waiting-Halts :
    (s : ClientState) (m : M ℤ)
    → Halts m
    → Halts (elim s as (λ _. M ℤ) [ client_connecting1 ↦ m | _ ↦ pure (negsuc 0) ])
if_waiting-Halts client_connecting1 m h w = h w
if_waiting-Halts client_command m h w = tt
if_waiting-Halts client_listen m h w = tt
if_waiting-Halts client_connecting2 m h w = tt
if_waiting-Halts client_connected m h w = tt
if_waiting-Halts client_dead m h w = tt

module _ (host : Host) where
  pub send_pkt-Halts : (p tag msg : ℕ) (payload : List ℕ) → Halts (send_pkt host p tag msg payload)
  unfolding send_pkt make_room copy_message
  send_pkt-Halts p tag msg payload w = ground arith

  pub send_plist_pkt-Halts :
      (p tag : ℕ) (plist : host.Plist) → Halts (send_plist_pkt host p tag plist)
  unfolding send_plist_pkt
  send_plist_pkt-Halts p tag plist =
      Halts-option (host.plist_to_xml plist) _ _ (Halts-pure (negsuc 0))
        λ xml. send_pkt-Halts p tag message_plist xml

  pub send_result-Halts : (p tag result : ℕ) → Halts (send_result host p tag result)
  unfolding send_result
  send_result-Halts p tag result = Halts-bind (load_client p) _ (Halts-load_client p) λ c.
      Halts-if (c.proto_version == 1) _ _ (send_plist_pkt-Halts p tag _) (send_pkt-Halts p tag _ _)

  pub client_notify_connect-Halts : (p result : ℕ) → Halts (client_notify_connect host p result)
  unfolding client_notify_connect
  client_notify_connect-Halts p result = Halts-bind (load_client p) _ (Halts-load_client p) λ c.
      if_waiting-Halts c.state _ (
        Halts-bind (send_result host p c.connect_tag result) _
          (send_result-Halts p c.connect_tag result)
          λ res.
            Halts-if (is_neg res) _ _ (Halts-pure (negsuc 0))
              (Halts-bind (load_client p) _ (Halts-load_client p) λ c' v. tt))
