-- ===== src/Usb/Reading/Handover.antt =====
-- usb-mce.cpp and device.cpp: the buffer of a device has one owner at a time.
use usbmuxd_plugable_usb_msv.Prelude.{
  ℕ, ◌≡◌, ◌⊎◌, inl, inr, List, ◌∷◌, Bool, true, false, ◌==◌, arith, length, take_all, Bool-cases,
}
use usbmuxd_plugable_usb_msv.Usb.Reading.{
  ReaderPlace, at_start, at_wait, at_reply, at_end, MainPlace, at_select, at_read, at_data, Rx,
  ReadEnd, read_completed, read_pending, read_failed, arrive, usb_start_read, usb_get_read_result,
  after_start, new_rx, HandoverStep, reader_starts, transfer_completes, reader_tells,
  reader_goes_on, reader_ends, main_hears, main_gets, main_fails, main_answers, Reach, start, later,
}

-- What is on its way: a transfer, the event, a byte to the main thread, a byte to the reader.
abbrev Way : Bool → Bool → ℕ → ℕ → Rx → Type 0
Way pending event to_main to_reader rx =
    (rx.is_pending ≡ pending)
    × (rx.event ≡ event)
    × (rx.to_main ≡ to_main)
    × (rx.to_reader ≡ to_reader)

-- The buffer holds the one transfer that was not delivered yet.
abbrev Held : Rx → Type 0
Held rx =
    (rx.received ≡ rx.buffer ∷ rx.delivered)
    × ((rx.data_size ≡ 0) ⊎ (rx.data_size ≡ length rx.buffer))

abbrev Place : ReaderPlace → Rx → Type 0
Place place rx = (rx.reader ≡ place) ⊎ (rx.reader ≡ at_end)

-- The phases of a handover: before the first read, while a transfer goes on, when it has come, when
-- the main thread is told, when it asks for the data, when it handles them, when it has answered, and
-- when nothing more comes.
-- What the main thread has is the one transfer that was not delivered yet.
abbrev Handled : MainPlace → Rx → Type 0
Handled at_select rx = ⊥
Handled at_read rx = ⊥
Handled (at_data bytes) rx = rx.received ≡ bytes ∷ rx.delivered

abbrev pub Phase : Rx → Type 0
Phase rx =
    (Way false false 0 0 rx
      × (rx.main ≡ at_select)
      × (rx.reader ≡ at_start)
      × (rx.received ≡ rx.delivered))
    ⊎ ((Way true false 0 0 rx
          × (rx.main ≡ at_select)
          × Place at_wait rx
          × (rx.received ≡ rx.delivered)
          × (rx.data_size ≡ 0))
        ⊎ ((Way false true 0 0 rx × (rx.main ≡ at_select) × Place at_wait rx × Held rx)
            ⊎ ((Way false false 1 0 rx × (rx.main ≡ at_select) × Place at_reply rx × Held rx)
                ⊎ ((Way false false 0 0 rx × (rx.main ≡ at_read) × Place at_reply rx × Held rx)
                    ⊎ ((Way false false 0 0 rx × Place at_reply rx × Handled rx.main rx)
                        ⊎ ((Way false false 0 1 rx
                              × (rx.main ≡ at_select)
                              × Place at_reply rx
                              × (rx.received ≡ rx.delivered))
                            ⊎ (Way false false 0 0 rx
                                × (rx.main ≡ at_select)
                                × Place at_reply rx)))))))

-- The data that `usb_get_read_result` gives are the whole transfer.
usb_get_read_result_whole :
    (rx : Rx)
    → (rx.data_size ≡ 0) ⊎ (rx.data_size ≡ length rx.buffer)
    → (usb_get_read_result rx).0 ≡ rx.buffer
unfolding usb_get_read_result
usb_get_read_result_whole rx h = elim (Bool-cases (rx.data_size == 0)) [
  | inl zero_size ↦ take_all rx.buffer _ (ground (arith, zero_size))
  | inr sized ↦ take_all rx.buffer _ (ground (arith, sized, h))
]

started-Phase :
    (r : ReadEnd) (rx : Rx)
    → Way false false 0 0 rx
    → rx.main ≡ at_select
    → rx.received ≡ rx.delivered
    → Phase (after_start (usb_start_read r rx))
unfolding after_start usb_start_read arrive
started-Phase (read_completed bytes) rx w s d = ground arith
started-Phase read_pending rx w s d = ground arith
started-Phase read_failed rx w s d = ground arith

HandoverStep-Phase : (rx next : Rx) → Phase rx → HandoverStep rx next → Phase next
unfolding usb_get_read_result arrive
HandoverStep-Phase rx _ h (reader_starts r at) =
    started-Phase r rx (ground arith) (ground arith) (ground arith)
HandoverStep-Phase rx _ h (transfer_completes bytes p) = ground arith
HandoverStep-Phase rx _ h (reader_tells at e) = ground arith
HandoverStep-Phase rx _ h (reader_goes_on r n at t) =
    started-Phase r (record rx { to_reader = n }) (ground arith) (ground arith) (ground arith)
HandoverStep-Phase rx _ h reader_ends = ground arith
HandoverStep-Phase rx _ h (main_hears n at t) = ground arith
HandoverStep-Phase rx _ h (main_gets at) = ground (arith, usb_get_read_result_whole rx)
HandoverStep-Phase rx _ h (main_fails at) = ground arith
HandoverStep-Phase rx _ h (main_answers bytes at) = ground arith

-- The handover, whatever the order of the steps.
pub Reach-Phase : (rx : Rx) → Reach rx → Phase rx
unfolding new_rx
Reach-Phase _ start = ground arith
Reach-Phase next (later {rx = rx} r s) = HandoverStep-Phase rx next (Reach-Phase rx r) s

-- While the main thread handles data of a device, in any order of the steps of the two threads and
-- the plug-in, no transfer can write to the buffer and nothing tells of new data; the data are the
-- whole transfer that came last, and all that came before have been handled, each once and in their
-- order.
pub handover_exclusive :
    (rx : Rx) (bytes : List ℕ)
    → Reach rx
    → rx.main ≡ at_data bytes
    → (rx.is_pending ≡ false)
      × (rx.event ≡ false)
      × (rx.to_main ≡ 0)
      × (rx.received ≡ bytes ∷ rx.delivered)
handover_exclusive rx bytes r at = ground (arith, Reach-Phase rx r, at)
