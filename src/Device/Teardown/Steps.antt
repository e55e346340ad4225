-- ===== src/Device/Teardown/Steps.antt =====
-- device.cpp, client.cpp: the parts of `connection_teardown` and `client_close`, one by one.
use usbmuxd_plugable_usb_msv.Prelude.{
  ℕ, ◌≡◌, ap, inl, inr, List, [], false, Option, some, none, arith, Option-cases, ℤ,
}
use usbmuxd_plugable_usb_msv.Wire.{th_rst, MuxProtocol, mux_proto_tcp, encode_tcp}
use usbmuxd_plugable_usb_msv.World.{World, MuxConnection, MuxClient, client_dead, update}
use usbmuxd_plugable_usb_msv.World.Host.{Host}
use usbmuxd_plugable_usb_msv.World.Step.{Outcome, Outcome-cases, M, pure, ◌>>◌}
use usbmuxd_plugable_usb_msv.World.Step.Ends.{Ends}
use usbmuxd_plugable_usb_msv.Device.Packet.{
  tcp_header_of, send_packet, send_tcp, transmit, usb_send, read_clock,
}
use usbmuxd_plugable_usb_msv.Device.Teardown.{
  drop_client, release_conn, is_conn_dead, send_rst, teardown_with, release_client,
}

-- The connection is there, with the client and in the state that it had.
abbrev pub SameClient : MuxConnection → Option MuxConnection → Type 0
SameClient c none = ⊥
SameClient c (some c') = (c'.client ≡ c.client) × (c'.state ≡ c.state)

module _ (host : Host) where
  send_packet-Ends :
      (dev : ℕ) (proto : MuxProtocol) (header payload : List ℕ) (w : World)
      → Ends
          (λ r v. (v.clients ≡ w.clients) × (v.conns ≡ w.conns))
          (send_packet host dev proto header payload w)
  unfolding send_packet transmit usb_send
  send_packet-Ends dev proto header payload w = ground arith

  pub send_tcp-Ends :
      (conn flags : ℕ) (payload : List ℕ) (c : MuxConnection) (w : World)
      → w.conns conn ≡ some c
      → Ends
          (λ r v. (v.clients ≡ w.clients) × SameClient c (v.conns conn))
          (send_tcp host conn flags payload w)
  unfolding send_tcp read_clock
  send_tcp-Ends conn flags payload c w found = elim (Outcome-cases packet) [
    | inl (r, v, e) ↦
        let facts = rw e at kept in
        ground (arith, e, facts.0, ap (λ (f : ℕ → Option MuxConnection). f conn) facts.1)
    | inr (inl e) ↦ ground (arith, e)
    | inr (inr e) ↦ absurd (rw e at kept)
  ]
    where
      packet : Outcome ℤ
      packet = send_packet host c.dev mux_proto_tcp (encode_tcp (tcp_header_of c flags)) payload w

      kept : Ends (λ r v. (v.clients ≡ w.clients) × (v.conns ≡ w.conns)) packet
      kept = send_packet-Ends c.dev mux_proto_tcp (encode_tcp (tcp_header_of c flags)) payload w

  pub send_rst-Ends :
      (conn : ℕ) (w : World) → Ends (λ _ v. v.clients ≡ w.clients) (send_rst host conn w)
  unfolding send_rst
  send_rst-Ends conn w = elim (Option-cases (w.conns conn)) [
    | inl e ↦ ground (arith, e)
    | inr (c, e) ↦ elim (Outcome-cases (send_tcp host conn th_rst [] w)) [
      | inl (r, v, h) ↦ ground (arith, e, h, (rw h at (send_tcp-Ends conn th_rst [] c w e)).0)
      | inr (inl h) ↦ ground (arith, e, h)
      | inr (inr h) ↦ absurd (rw h at (send_tcp-Ends conn th_rst [] c w e))
    ]
  ]

  -- The end of `connection_teardown` never fails but by a fault.
  pub release_conn-Ends :
      (conn : ℕ) (w : World)
      → Ends (λ _ v. (v.conns conn ≡ none) × (v.clients ≡ w.clients)) (release_conn host conn w)
  unfolding release_conn
  release_conn-Ends conn w = ground arith

  -- `connection_teardown` on a connection that is not marked dead.
  pub teardown_live :
      (close : ℕ → M (Unit {0})) (conn : ℕ) (c : MuxConnection) (w : World)
      → w.conns conn ≡ some c
      → is_conn_dead c.state ≡ false
      → teardown_with host close conn w
        ≡ (send_rst host conn
              >> (elim c.client [
                | none ↦ pure tt
                | some client ↦ drop_client host close conn client
              ]
                  >> release_conn host conn))
            w
  unfolding teardown_with
  teardown_live close conn c w found live = ground arith

  pub release_client-Ends :
      (q : ℕ) (w : World) → Ends (λ _ v. v.clients q ≡ none) (release_client host q w)
  unfolding release_client
  release_client-Ends q w = ground arith

  -- The world in which `client_close` has marked a client dead.
  abbrev pub marked_dead : ℕ → MuxClient → World → World
  marked_dead q c w = record w {
    clients = update w.clients q (some (record c { state = client_dead }));
  }
