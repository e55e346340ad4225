-- ===== src/Client/Socket/Flow.antt =====
-- client.cpp: `process_send` takes from the front of what `send_pkt` queued, and the reads of
-- `process_recv` stay inside the in-buffer.
use usbmuxd_plugable_usb_msv.Prelude.{
  ◌⊎◌, inl, inr, Bool-cases, ◌==◌, ℕ, zero, suc, is_nonpos, ◌+◌, ◌≤◌, ◌<◌, ◌≡◌, ◌≢◌, refl, List,
  ◌∷◌, false, none, some, arith, take, drop, length-take, take-drop, pos,
}
use usbmuxd_plugable_usb_msv.World.{
  ClientState, client_command, client_listen, client_connecting1, client_dead, World, MuxClient,
  client_connecting2, client_connected, sock_sent, update,
}
use usbmuxd_plugable_usb_msv.World.Host.{Host}
use usbmuxd_plugable_usb_msv.World.Step.{done}
use usbmuxd_plugable_usb_msv.Client.Reply.Output.{HasOutput}
use usbmuxd_plugable_usb_msv.Client.Socket.{after_send, process_send}

positive : (n : ℕ) → n ≢ 0 → is_nonpos (pos n) ≡ false
positive zero h = absurd (h refl)
positive (suc n) h = refl

awaits_answer : (s : ClientState) → (s ≡ client_connecting2) ⊎ (s ≢ client_connecting2)
awaits_answer client_command = inr (λ e. ground arith)
awaits_answer client_listen = inr (λ e. ground arith)
awaits_answer client_connecting1 = inr (λ e. ground arith)
awaits_answer client_connecting2 = inl refl
awaits_answer client_connected = inr (λ e. ground arith)
awaits_answer client_dead = inr (λ e. ground arith)

-- `process_send` on a client with output, when its socket takes `n` bytes: they are the first of
-- what is queued, and what follows them stays queued, in order. Only when nothing is left, a client
-- that waited for the answer to its connect request becomes connected, with the mask that was kept
-- for it, and its out-buffer is given up; any other then stops polling for output.
pub process_send_lem :
    (host : Host) (p n : ℕ) (buf : List ℕ) (c : MuxClient) (w : World)
    → w.clients p ≡ some c
    → HasOutput c buf
    → c.ob_size ≢ 0
    → host.send w.trace c.fd (take c.ob_size buf) ≡ pos n
    → n ≢ 0
    → (v : World) × (c' : MuxClient) × (process_send host p w ≡ done tt v)
      × (v.clients p ≡ some c')
      × (v.trace ≡ sock_sent c.fd (take n (take c.ob_size buf)) ∷ w.trace)
      × (c'.ob_size + n ≡ c.ob_size)
      × (((n < c.ob_size)
            × (c'.ob_buf ≡ some (drop n buf))
            × (take c'.ob_size (drop n buf) ≡ drop n (take c.ob_size buf))
            × (c'.state ≡ c.state)
            × (c'.events ≡ c.events))
          ⊎ (((n ≡ c.ob_size)
                × (c.state ≡ client_connecting2)
                × (c'.state ≡ client_connected)
                × (c'.events ≡ c.devents)
                × (c'.ob_buf ≡ none))
              ⊎ ((n ≡ c.ob_size)
                  × (c.state ≢ client_connecting2)
                  × (c'.state ≡ c.state)
                  × (c'.events.pollout ≡ false)
                  × (c'.ob_buf ≡ c.ob_buf))))
unfolding process_send after_send
process_send_lem host p n buf c w found v some_output took some_taken = (
  record w {
    clients = update w.clients p (some (after_send c n buf));
    trace = sock_sent c.fd (take n (take c.ob_size buf)) ∷ w.trace;
  },
  after_send c n buf,
  ground (arith, found, v.present, took, positive n some_taken),
  ground arith,
  refl,
  ground (arith, bound),
  elim (Bool-cases (n == c.ob_size)) [
    | inr less ↦ inl (
      ground (arith, bound),
      ground arith,
      take-drop _ n c.ob_size buf (ground (arith, bound)),
      ground arith,
      ground arith,
    )
    | inl all ↦ elim (awaits_answer c.state) [
      | inl waits ↦ inr (inl (ground arith, waits, ground arith, ground arith, ground arith))
      | inr other ↦ inr (inr (ground arith, other, ground arith, ground arith, ground arith))
    ]
  ],
)
  where
    bound : n ≤ c.ob_size
    bound = omega (
      arith,
      host.send_at_most w.trace c.fd (take c.ob_size buf) n took,
      length-take c.ob_size buf,
      v.stored,
    )
