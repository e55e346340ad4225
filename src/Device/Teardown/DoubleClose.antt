-- ===== src/Device/Teardown/DoubleClose.antt =====
-- device.cpp, client.cpp: a client that dies between the answer to its connect request and its
-- delivery is closed twice.
use usbmuxd_plugable_usb_msv.Prelude.{
  ℕ, suc, [], ◌≡◌, refl, ap, subst, inl, inr, Option, some, none, arith, Option-cases,
}
use usbmuxd_plugable_usb_msv.Wire.{th_rst}
use usbmuxd_plugable_usb_msv.World.{
  World, MuxConnection, MuxClient, client_connecting2, client_dead, conn_connected, conn_dead,
  update,
}
use usbmuxd_plugable_usb_msv.World.Host.{Host}
use usbmuxd_plugable_usb_msv.World.Step.{Outcome, Outcome-cases, done, fault, exhausted, M, ◌>>=◌}
use usbmuxd_plugable_usb_msv.World.Step.Ends.{Ends, Ends-bind}
use usbmuxd_plugable_usb_msv.Device.Packet.{send_tcp}
use usbmuxd_plugable_usb_msv.Device.Teardown.Steps.{
  SameClient, send_tcp-Ends, release_conn-Ends, teardown_live, marked_dead,
}
use usbmuxd_plugable_usb_msv.Device.Teardown.Close.{
  close_dead, flush_client_dead, close_mid_connect,
}
use usbmuxd_plugable_usb_msv.Device.Teardown.{
  get_mux_connection, flush_client, drop_client, release_conn, send_rst, teardown_with, abort_with,
  release_client, close_within, client_close,
}

-- An outcome that ends in the condition, and goes on to a fault from there, is a fault.
fault_after :
    {A B : Type 0} (P : A → World → Type 0) (m : M A) (f : A → M B) (w : World)
    → Ends P (m w)
    → ((a : A) (v : World) → P a v → f a v ≡ fault)
    → (m >>= f) w ≡ fault
fault_after P m f w h k = elim (Outcome-cases (m w)) [
  | inl (a, v, e) ↦ ground (arith, e, k a v (subst (Ends P) e h))
  | inr (inl e) ↦ ground (arith, e)
  | inr (inr e) ↦ absurd (subst (Ends P) e h)
]

module _ (host : Host) (q conn : ℕ) where
  send_rst_keeps :
      (c : MuxConnection) (w : World)
      → w.conns conn ≡ some c
      → Ends (λ _ v. (v.clients ≡ w.clients) × SameClient c (v.conns conn)) (send_rst host conn w)
  unfolding send_rst
  send_rst_keeps c w found = elim (Outcome-cases (send_tcp host conn th_rst [] w)) [
    | inl (r, v, h) ↦
        ground (arith, found, h, rw h at (send_tcp-Ends host conn th_rst [] c w found))
    | inr (inl h) ↦ ground (arith, found, h)
    | inr (inr h) ↦ absurd (rw h at (send_tcp-Ends host conn th_rst [] c w found))
  ]

  -- An established connection closes its client, also one that is being closed.
  drop_client_connected :
      (k : MuxClient) (c : MuxConnection) (w : World)
      → k.state ≡ client_dead
      → w.clients q ≡ some k
      → w.conns conn ≡ some c
      → c.state ≡ conn_connected
      → Ends (λ _ v. v.clients q ≡ none) (drop_client host (close_within host 1) conn q w)
  unfolding drop_client
  drop_client_connected k c w dead at found open_state =
      elim (Outcome-cases (close_within host 1 q dying)) [
        | inl (r, v, h) ↦
            ground (arith, found, h, flushed, rw h at (close_dead host q k dead 0 dying at))
        | inr (inl h) ↦ ground (arith, found, h, flushed)
        | inr (inr h) ↦ absurd (rw h at (close_dead host q k dead 0 dying at))
      ]
    where
      dying : World
      dying = record w { conns = update w.conns conn (some (record c { state = conn_dead })) }

      flushed : flush_client host (suc c.ib_size) conn q dying ≡ done tt dying
      flushed =
          flush_client_dead host q k dead c.ib_size conn (record c { state = conn_dead }) dying at
            (ground arith)

  teardown_connected :
      (k : MuxClient) (c : MuxConnection) (w : World)
      → k.state ≡ client_dead
      → w.clients q ≡ some k
      → w.conns conn ≡ some c
      → c.client ≡ some q
      → c.state ≡ conn_connected
      → Ends (λ _ v. v.clients q ≡ none) (teardown_with host (close_within host 1) conn w)
  teardown_connected k c w dead at found mine open_state =
      rw (teardown_live host (close_within host 1) conn c w found (rw open_state refl), mine)
        (Ends-bind (λ _ v. (v.clients ≡ w.clients) × SameClient c (v.conns conn))
          (λ _ v. v.clients q ≡ none) (send_rst host conn) _ w (send_rst_keeps c w found)
          (λ _ v same.
            Ends-bind (λ _ u. u.clients q ≡ none) (λ _ u. u.clients q ≡ none)
              (drop_client host (close_within host 1) conn q) _ v (dropped v same)
              (λ _ u gone. kept u gone (release_conn host conn u) (release_conn-Ends host conn u))))
    where
      dropped :
          (v : World)
          → (v.clients ≡ w.clients) × SameClient c (v.conns conn)
          → Ends (λ _ u. u.clients q ≡ none) (drop_client host (close_within host 1) conn q v)
      dropped v same = elim (Option-cases (v.conns conn)) [
        | inl e ↦ absurd (subst (SameClient c) e same.1)
        | inr (c', e) ↦
            drop_client_connected k c' v dead
              (ground (arith, ap (λ (f : ℕ → Option MuxClient). f q) same.0)) e
              (ground (arith, subst (SameClient c) e same.1))
      ]

      kept :
          (u : World)
          → u.clients q ≡ none
          → (o : Outcome (Unit {0}))
          → Ends (λ _ v. (v.conns conn ≡ none) × (v.clients ≡ u.clients)) o
          → Ends (λ _ v. v.clients q ≡ none) o
      kept u gone (done a v) h = ground (arith, gone, ap (λ (f : ℕ → Option MuxClient). f q) h.1)
      kept u gone fault h = tt
      kept u gone exhausted h = h

  abort_finds :
      (teardown : ℕ → M (Unit {0})) (id : ℕ) (w : World)
      → get_mux_connection id q w ≡ done (some conn) w
      → abort_with host teardown id q w ≡ teardown conn w
  unfolding abort_with
  abort_finds teardown id w own = ground arith

  release_gone : (w : World) → w.clients q ≡ none → release_client host q w ≡ fault
  unfolding release_client
  release_gone w gone = ground arith

  -- A client that was told that its connection stands, and dies before it could be switched over:
  -- `client_close` tears the connection down, which closes and frees the client, and then goes on
  -- with the client that it was given. That is a use after free, in every such world.
  pub client_close_twice :
      (c : MuxClient) (k : MuxConnection) (w : World)
      → w.clients q ≡ some c
      → c.state ≡ client_connecting2
      → get_mux_connection c.connect_device q (marked_dead host q c w)
        ≡ done (some conn) (marked_dead host q c w)
      → w.conns conn ≡ some k
      → k.client ≡ some q
      → k.state ≡ conn_connected
      → client_close host q w ≡ fault
  unfolding client_close close_within
  client_close_twice c k w at mid own found mine open_state =
      rw (close_mid_connect host (teardown_with host (close_within host 1)) q c w at (rw mid refl))
        (fault_after (λ _ v. v.clients q ≡ none)
          (abort_with host (teardown_with host (close_within host 1)) c.connect_device q)
          (λ _. release_client host q) (marked_dead host q c w) aborted
          (λ _ v gone. release_gone v gone))
    where
      aborted :
          Ends
            (λ _ v. v.clients q ≡ none)
            (abort_with host
              (teardown_with host (close_within host 1))
              c.connect_device
              q
              (marked_dead host q c w))
      aborted =
          rw
            (abort_finds (teardown_with host (close_within host 1)) c.connect_device
              (marked_dead host q c w) own)
            (teardown_connected (record c { state = client_dead }) k (marked_dead host q c w) refl
              (ground arith) found mine open_state)
