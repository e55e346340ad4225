-- ===== src/Device/Teardown/Halting.antt =====
-- device.cpp: `connection_teardown` and what calls it end.
use usbmuxd_plugable_usb_msv.Prelude.{
  ℕ, zero, suc, ◌≤◌, ◌<◌, ◌≡◌, ◌⊎◌, inl, inr, List, true, false, none, some, arith, length, take,
  Bool-cases, Option-cases, ℤ, pos, negsuc, is_nonpos, pos_part, ltb, Bool, ◌&&◌, length-take,
  subst, sym, refl, ◌==◌,
}
use usbmuxd_plugable_usb_msv.World.{World, MuxConnection, conn_dead, update}
use usbmuxd_plugable_usb_msv.World.Host.{Host}
use usbmuxd_plugable_usb_msv.World.Step.{
  Outcome, Outcome-cases, done, fault, M, pure, ◌>>◌, load_conn, when,
}
use usbmuxd_plugable_usb_msv.World.Step.Ends.{
  Ends, Ends-bind, Halts, Halts-bind, Halts-if, Halts-pure, Halts-load_conn, Halts-option, weaken,
}
use usbmuxd_plugable_usb_msv.Client.Reply.{
  client_write, is_connected, client_notify_connect, result_connrefused,
}
use usbmuxd_plugable_usb_msv.Client.Reply.Halting.{client_notify_connect-Halts}
use usbmuxd_plugable_usb_msv.Device.Window.{drop_written}
use usbmuxd_plugable_usb_msv.Device.Teardown.{
  flush_client, drop_client, client_close, connection_teardown, teardown_with, send_rst,
  release_conn, is_conn_dead, is_unanswered,
}
use usbmuxd_plugable_usb_msv.Device.Teardown.Steps.{send_rst-Ends, release_conn-Ends}
use usbmuxd_plugable_usb_msv.Device.Teardown.Close.{client_close-Ends}

-- How much a write took: nothing, or no more than it was offered.
abbrev Took : ℤ → ℕ → Type 0
Took r n = (is_nonpos r ≡ true) ⊎ ((is_nonpos r ≡ false) × (pos_part r ≤ n))

drop_written-less :
    (c : MuxConnection) (n m : ℕ)
    → c.ib_size ≤ m
    → 0 < n
    → n ≤ c.ib_size
    → (n == c.ib_size) ≡ false
    → (drop_written c n).ib_size < m
unfolding drop_written
drop_written-less c n m h p q ne = ground arith

at_most-Took : (r : ℤ) (n : ℕ) → ((m : ℕ) → r ≡ pos m → m ≤ n) → Took r n
at_most-Took (pos zero) n h = inl refl
at_most-Took (pos (suc m)) n h = inr (refl, h (suc m) refl)
at_most-Took (negsuc m) n h = inl refl

pos_part-positive : (r : ℤ) → is_nonpos r ≡ false → 0 < pos_part r
pos_part-positive (pos zero) e = ground arith
pos_part-positive (pos (suc m)) e = ground arith
pos_part-positive (negsuc m) e = ground arith

module _ (host : Host) where
  client_write-Took :
      (p : ℕ) (buf : List ℕ) (w : World)
      → Ends (λ r v. (v.conns ≡ w.conns) × Took r (length buf)) (client_write host p buf w)
  unfolding client_write
  client_write-Took p buf w = elim (Option-cases (w.clients p)) [
    | inl e ↦ ground (arith, e)
    | inr (c, e) ↦ elim (Bool-cases (is_connected c.state)) [
      | inl linked ↦ ground (
        arith,
        e,
        linked,
        at_most-Took (host.send w.trace c.fd buf) (length buf) (host.send_at_most w.trace c.fd buf),
      )
      | inr other ↦ ground (arith, e, other)
    ]
  ]

  -- The write loop of `connection_teardown` ends: each round takes a byte at least.
  flush_client-Ends :
      (fuel conn client : ℕ) (c : MuxConnection) (w : World)
      → w.conns conn ≡ some c
      → c.ib_size < fuel
      → Ends (λ _ _. Unit {0}) (flush_client host fuel conn client w)
  unfolding flush_client
  flush_client-Ends zero conn client c w found h = absurd (omega arith)
  flush_client-Ends (suc fuel) conn client c w found h = elim (Outcome-cases wrote) [
    | inl (r, v, e) ↦
        let facts = rw e at took in
        elim facts.1 [
          | inl stop ↦ ground (arith, found, e, stop)
          | inr (goes, some_taken) ↦ elim (Bool-cases (pos_part r == c.ib_size)) [
            | inl all ↦ ground (arith, found, e, goes, all)
            | inr rest ↦ subst (Ends (λ _ _. Unit {0})) (sym (next_round r v e goes rest)) (
                flush_client-Ends fuel conn client (drop_written c (pos_part r))
                  (moved c (pos_part r) v) (ground arith)
                  (drop_written-less c (pos_part r) fuel (omega arith) (pos_part-positive r goes)
                    (omega (arith, length-take c.ib_size c.ib_buf)) rest))
          ]
        ]
    | inr (inl e) ↦ ground (arith, found, e)
    | inr (inr e) ↦ absurd (rw e at took)
  ]
    where
      wrote : Outcome ℤ
      wrote = client_write host client (take c.ib_size c.ib_buf) w

      took : Ends (λ r v. (v.conns ≡ w.conns) × Took r (length (take c.ib_size c.ib_buf))) wrote
      took = client_write-Took client (take c.ib_size c.ib_buf) w

      moved : MuxConnection → ℕ → World → World
      moved k n v = record v { conns = update v.conns conn (some (drop_written k n)) }

      next_round :
          (r : ℤ) (v : World)
          → wrote ≡ done r v
          → is_nonpos r ≡ false
          → (pos_part r == c.ib_size) ≡ false
          → flush_client host (suc fuel) conn client w
            ≡ flush_client host fuel conn client (moved c (pos_part r) v)
      next_round r v e goes rest = ground (arith, found, e, goes, rest)

  pub client_close-Halts : (client : ℕ) → Halts (client_close host client)
  client_close-Halts client w =
      weaken (λ _ v. v.clients client ≡ none) (client_close host client w)
        (client_close-Ends host client w)

  drop_answered :
      (conn client : ℕ) (c : MuxConnection) (w : World)
      → w.conns conn ≡ some c
      → is_unanswered c.state ≡ false
      → let dying = record w {
        conns = update w.conns conn (some (record c { state = conn_dead }));
      } in
        drop_client host (client_close host) conn client w
        ≡ (when
                (c.events.pollout && ltb 0 c.ib_size)
                (flush_client host (suc c.ib_size) conn client)
              >> client_close host client)
            dying
  unfolding drop_client
  drop_answered conn client c w found e = ground (arith, found, e)

  drop_unanswered :
      (conn client : ℕ) (c : MuxConnection) (w : World)
      → w.conns conn ≡ some c
      → is_unanswered c.state ≡ true
      → drop_client host (client_close host) conn client w
        ≡ (client_notify_connect host client result_connrefused >> pure tt) w
  unfolding drop_client
  drop_unanswered conn client c w found e = ground (arith, found, e)

  drop_missing :
      (conn client : ℕ) (w : World)
      → w.conns conn ≡ none
      → drop_client host (client_close host) conn client w ≡ fault
  unfolding drop_client
  drop_missing conn client w e = ground (arith, e)

  flush_if-Ends :
      (b : Bool) (conn client : ℕ) (c : MuxConnection) (w : World)
      → w.conns conn ≡ some c
      → Ends (λ _ _. Unit {0}) (when b (flush_client host (suc c.ib_size) conn client) w)
  flush_if-Ends true conn client c w found =
      flush_client-Ends (suc c.ib_size) conn client c w found (omega arith)
  flush_if-Ends false conn client c w found = tt

  drop_client-Halts : (conn client : ℕ) → Halts (drop_client host (client_close host) conn client)
  drop_client-Halts conn client w = elim (Option-cases (w.conns conn)) [
    | inl e ↦ rw (drop_missing conn client w e) tt
    | inr (c, e) ↦ elim (Bool-cases (is_unanswered c.state)) [
      | inl waits ↦ rw (drop_unanswered conn client c w e waits) (
          Halts-bind (client_notify_connect host client result_connrefused) (λ _. pure tt)
            (client_notify_connect-Halts host client result_connrefused) (λ _ v. tt) w)
      | inr told ↦
          let dying : World = record w {
            conns = update w.conns conn (some (record c { state = conn_dead }));
          } in
          rw (drop_answered conn client c w e told) (
            Ends-bind (λ _ _. Unit {0}) (λ _ _. Unit {0})
              (when (c.events.pollout && ltb 0 c.ib_size)
                (flush_client host (suc c.ib_size) conn client))
              (λ _. client_close host client) dying
              (flush_if-Ends (c.events.pollout && ltb 0 c.ib_size) conn client
                (record c { state = conn_dead }) dying (ground arith))
              (λ _ v _. client_close-Halts client v))
    ]
  ]

  send_rst-Halts : (conn : ℕ) → Halts (send_rst host conn)
  send_rst-Halts conn w =
      weaken (λ _ v. v.clients ≡ w.clients) (send_rst host conn w) (send_rst-Ends host conn w)

  release_conn-Halts : (conn : ℕ) → Halts (release_conn host conn)
  release_conn-Halts conn w =
      weaken (λ _ v. (v.conns conn ≡ none) × (v.clients ≡ w.clients)) (release_conn host conn w)
        (release_conn-Ends host conn w)

  -- `connection_teardown` ends, whatever the world is: the loop that hands the client what is left
  -- takes a byte at least in each round, and the client is closed, which ends.
  pub connection_teardown-Halts : (conn : ℕ) → Halts (connection_teardown host conn)
  unfolding connection_teardown teardown_with client_close
  connection_teardown-Halts conn = Halts-bind (load_conn conn) _ (Halts-load_conn conn) λ c.
      Halts-if (is_conn_dead c.state) (pure tt) _ (Halts-pure tt) (
        Halts-bind (send_rst host conn) _ (send_rst-Halts conn) λ _.
          Halts-bind
            (elim c.client as (λ _. M (Unit {0})) [
              | none ↦ pure tt
              | some client ↦ drop_client host (client_close host) conn client
            ])
            _
            (Halts-option c.client (pure tt) (drop_client host (client_close host) conn)
              (Halts-pure tt) (drop_client-Halts conn))
            λ _. release_conn-Halts conn)
