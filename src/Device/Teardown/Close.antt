-- ===== src/Device/Teardown/Close.antt =====
-- device.cpp, client.cpp: `client_close` ends, although it comes back to itself through
-- `device_abort_connect` and `connection_teardown`.
use usbmuxd_plugable_usb_msv.Prelude.{
  ℕ, suc, ◌≡◌, refl, ap, subst, take, inl, inr, List, true, false, Option, some, none, arith,
  Bool-cases, Option-cases, negsuc,
}
use usbmuxd_plugable_usb_msv.World.{World, MuxConnection, MuxClient, client_dead, conn_dead, update}
use usbmuxd_plugable_usb_msv.World.Host.{Host}
use usbmuxd_plugable_usb_msv.World.Step.{Outcome-cases, done, fault, M, pure, ◌>>◌}
use usbmuxd_plugable_usb_msv.World.Step.Ends.{Ends, Ends-bind, weaken}
use usbmuxd_plugable_usb_msv.Client.Reply.{client_write, client_notify_connect}
use usbmuxd_plugable_usb_msv.Device.Teardown.Search.{IsOf, OwnedBy, get_mux_connection-Ends}
use usbmuxd_plugable_usb_msv.Device.Teardown.{
  is_mid_connect, get_mux_connection, flush_client, drop_client, release_conn, is_conn_dead,
  send_rst, teardown_with, abort_with, release_client, close_with, close_within, client_close,
}
use usbmuxd_plugable_usb_msv.Device.Teardown.Steps.{
  send_rst-Ends, release_conn-Ends, teardown_live, release_client-Ends, marked_dead,
}

module _ (host : Host) where
  module _ (q : ℕ) (k : MuxClient) (dead : k.state ≡ client_dead) where
    client_write_dead :
        (buf : List ℕ) (w : World)
        → w.clients q ≡ some k
        → client_write host q buf w ≡ done (negsuc 0) w
    unfolding client_write
    client_write_dead buf w at = ground arith

    pub flush_client_dead :
        (fuel conn : ℕ) (c : MuxConnection) (w : World)
        → w.clients q ≡ some k
        → w.conns conn ≡ some c
        → flush_client host (suc fuel) conn q w ≡ done tt w
    unfolding flush_client
    flush_client_dead fuel conn c w at found =
        ground (arith, client_write_dead (take c.ib_size c.ib_buf) w at)

    -- A client that is marked dead is closed without a look at its connection.
    pub close_dead :
        (fuel : ℕ) (w : World)
        → w.clients q ≡ some k
        → Ends (λ _ v. v.clients q ≡ none) (close_within host (suc fuel) q w)
    unfolding close_within close_with release_client
    close_dead fuel w at = ground arith

    drop_client_dead :
        (fuel conn : ℕ) (w : World)
        → w.clients q ≡ some k
        → Ends (λ _ v. Unit {0}) (drop_client host (close_within host (suc fuel)) conn q w)
    unfolding drop_client client_notify_connect
    drop_client_dead fuel conn w at = elim (Option-cases (w.conns conn)) [
      | inl e ↦ ground (arith, e)
      | inr (c, e) ↦
          let dying : World = record w {
            conns = update w.conns conn (some (record c { state = conn_dead }));
          } in
          elim (Outcome-cases (close_within host (suc fuel) q dying)) [
            | inl (r, v, h) ↦ ground (
              arith,
              e,
              h,
              flush_client_dead c.ib_size conn (record c { state = conn_dead }) dying at
                  (ground arith),
            )
            | inr (inl h) ↦ ground (
              arith,
              e,
              h,
              flush_client_dead c.ib_size conn (record c { state = conn_dead }) dying at
                  (ground arith),
            )
            | inr (inr h) ↦ absurd (rw h at (close_dead fuel dying at))
          ]
    ]

    -- The connection of a client that is marked dead is torn down to the end.
    teardown_dead :
        (fuel conn : ℕ) (c : MuxConnection) (w : World)
        → w.clients q ≡ some k
        → w.conns conn ≡ some c
        → c.client ≡ some q
        → Ends (λ _ v. Unit {0}) (teardown_with host (close_within host (suc fuel)) conn w)
    unfolding teardown_with
    teardown_dead fuel conn c w at found mine = elim (Bool-cases (is_conn_dead c.state)) [
      | inl over ↦ ground arith
      | inr live ↦
          rw (teardown_live host (close_within host (suc fuel)) conn c w found live, mine)
            (Ends-bind (λ _ v. v.clients ≡ w.clients) (λ _ v. Unit {0}) (send_rst host conn) _ w
              (send_rst-Ends host conn w)
              (λ _ v same.
                Ends-bind (λ _ u. Unit {0}) (λ _ u. Unit {0})
                  (drop_client host (close_within host (suc fuel)) conn q) _ v
                  (drop_client_dead fuel conn v
                    (ground (arith, ap (λ (f : ℕ → Option MuxClient). f q) same)))
                  (λ _ u _.
                    weaken (λ _ v. (v.conns conn ≡ none) × (v.clients ≡ u.clients))
                      (release_conn host conn u) (release_conn-Ends host conn u))))
    ]

    teardown_found :
        (fuel conn : ℕ) (w : World)
        → w.clients q ≡ some k
        → IsOf q w (some conn)
        → Ends (λ _ v. Unit {0}) (teardown_with host (close_within host (suc fuel)) conn w)
    teardown_found fuel conn w at mine = elim (Option-cases (w.conns conn)) [
      | inl e ↦ absurd (subst (OwnedBy q) e mine)
      | inr (c, e) ↦ teardown_dead fuel conn c w at e (subst (OwnedBy q) e mine)
    ]

    -- The end of `device_abort_connect` for a client that is marked dead.
    abort_dead :
        (fuel id : ℕ) (w : World)
        → w.clients q ≡ some k
        → Ends
            (λ _ v. Unit {0})
            (abort_with host (teardown_with host (close_within host (suc fuel))) id q w)
    unfolding abort_with
    abort_dead fuel id w at =
        Ends-bind (λ r v. (v ≡ w) × IsOf q w r) (λ _ v. Unit {0}) (get_mux_connection id q) _ w
          (get_mux_connection-Ends id q w) go
      where
        go :
            (found : Option ℕ) (v : World)
            → (v ≡ w) × IsOf q w found
            → Ends
                (λ _ u. Unit {0})
                ((elim found as (λ _. M (Unit {0})) [
                  | none ↦ pure tt
                  | some conn ↦ teardown_with host (close_within host (suc fuel)) conn
                ])
                  v)
        go none v h = tt
        go (some conn) v h = rw h.0 (teardown_found fuel conn w at h.1)

  pub close_mid_connect :
      (teardown : ℕ → M (Unit {0})) (q : ℕ) (c : MuxClient) (w : World)
      → w.clients q ≡ some c
      → is_mid_connect c.state ≡ true
      → close_with host teardown q w
        ≡ (abort_with host teardown c.connect_device q >> release_client host q)
            (marked_dead host q c w)
  unfolding close_with
  close_mid_connect teardown q c w at mid = ground arith

  close_missing :
      (teardown : ℕ → M (Unit {0})) (q : ℕ) (w : World)
      → w.clients q ≡ none
      → close_with host teardown q w ≡ fault
  unfolding close_with
  close_missing teardown q w at = ground arith

  close_plain :
      (teardown : ℕ → M (Unit {0})) (q : ℕ) (c : MuxClient) (w : World)
      → w.clients q ≡ some c
      → is_mid_connect c.state ≡ false
      → close_with host teardown q w ≡ release_client host q w
  unfolding close_with
  close_plain teardown q c w at other = ground arith

  -- `client_close` ends, whatever the world is: its way back to itself through the connection of a
  -- client that is connecting is taken once. Unless a step on the way is a fault, the client is
  -- gone at the end.
  pub client_close-Ends :
      (q : ℕ) (w : World) → Ends (λ _ v. v.clients q ≡ none) (client_close host q w)
  unfolding client_close close_within
  client_close-Ends q w = elim (Option-cases (w.clients q)) [
    | inl e ↦ rw (close_missing (teardown_with host (close_within host 1)) q w e) tt
    | inr (c, e) ↦ elim (Bool-cases (is_mid_connect c.state)) [
      | inl mid ↦ rw (close_mid_connect (teardown_with host (close_within host 1)) q c w e mid) (
          Ends-bind {A = Unit {0}} (λ _ v. Unit {0}) (λ _ v. v.clients q ≡ none)
            (abort_with host (teardown_with host (close_within host 1)) c.connect_device q)
            (λ _. release_client host q) (marked_dead host q c w)
            (abort_dead q (record c { state = client_dead }) refl 0 c.connect_device
              (marked_dead host q c w) (ground arith))
            (λ _ v _. release_client-Ends host q v))
      | inr other ↦
          rw (close_plain (teardown_with host (close_within host 1)) q c w e other)
            (release_client-Ends host q w)
    ]
  ]
