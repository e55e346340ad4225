-- ===== src/Usb/Commands/Queue.antt =====
-- usb-mce.cpp: `usb_process` takes the commands in the order in which they came.
use usbmuxd_plugable_usb_msv.Prelude.{
  ◌≡◌, inl, inr, refl, sym, ap, ◌∙◌, List, [], ◌∷◌, ◌++◌, length, arith, pos,
}
use mathlib.Core.List.{append-nil, append_assoc}
use usbmuxd_plugable_usb_msv.World.{World}
use usbmuxd_plugable_usb_msv.World.Host.{Host}
use usbmuxd_plugable_usb_msv.World.Step.{M, Outcome, done, fault, exhausted, Outcome-cases}
use usbmuxd_plugable_usb_msv.World.Step
use usbmuxd_plugable_usb_msv.Usb.{Usb, Plugin}
use usbmuxd_plugable_usb_msv.Usb.Commands.{
  PendingCommand, Driver, usb_append_device_command, handle_command, process_loop, usb_process,
}

-- Commands appended one after the other.
pub append_all : List PendingCommand → Driver → Driver
append_all [] v = v
append_all (c ∷ cs) v = append_all cs (usb_append_device_command c v).1

module _ (plugin : Plugin) (host : Host) where
  -- Each command of a list is handled, the first one first.
  pub handle_all : List PendingCommand → Usb → M Usb
  handle_all [] u = Step.pure u
  handle_all (c ∷ cs) u = Step.◌>>=◌ (handle_command plugin host c u) (λ r. handle_all cs r.1)

  process_loop_lem :
      (cs : List PendingCommand) (u : Usb) (w : World)
      → process_loop plugin host (length cs) (record { usb = u; pending = cs }) w
        ≡ Step.◌>>=◌ (handle_all cs u) (λ x. Step.pure (record { usb = x; pending = [] })) w
  unfolding process_loop handle_all
  process_loop_lem [] u w = refl
  process_loop_lem (c ∷ cs) u w = elim (Outcome-cases (handle_command plugin host c u w)) [
    | inl (r, v, e) ↦ ground (arith, e, process_loop_lem cs r.1 v)
    | inr (inl e) ↦ ground (arith, e)
    | inr (inr e) ↦ ground (arith, e)
  ]

  pending-append_all :
      (cs : List PendingCommand) (v : Driver)
      → append_all cs v ≡ record v { pending = v.pending ++ cs }
  unfolding append_all usb_append_device_command
  pending-append_all [] v = ap (λ q. record v { pending = q }) (sym (append-nil v.pending))
  pending-append_all (c ∷ cs) v =
      pending-append_all cs (usb_append_device_command c v).1
      ∙ ap (λ q. record v { pending = q }) (append_assoc v.pending (c ∷ []) cs)

  -- Commands that were appended to the queue are handled by `usb_process` in the order in which they
  -- came, behind those that waited already, each once; `usb_process` returns 0 and leaves the queue
  -- empty, unless handling them comes to a fault.
  pub usb_process_lem :
      (cs : List PendingCommand) (v : Driver) (w : World)
      → usb_process plugin host (append_all cs v) w
        ≡ Step.◌>>=◌
            (handle_all (v.pending ++ cs) v.usb)
            (λ x. Step.pure (pos 0, record { usb = x; pending = [] }))
            w
  unfolding usb_process
  usb_process_lem cs v w =
      let all = v.pending ++ cs in
      ap (λ d. usb_process plugin host d w) (pending-append_all cs v)
      ∙ elim (Outcome-cases (handle_all all v.usb w)) [
        | inl (u, x, e) ↦ ground (arith, e, process_loop_lem all v.usb w)
        | inr (inl e) ↦ ground (arith, e, process_loop_lem all v.usb w)
        | inr (inr e) ↦ ground (arith, e, process_loop_lem all v.usb w)
      ]
