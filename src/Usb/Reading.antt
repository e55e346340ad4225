-- ===== src/Usb/Reading.antt =====
-- usb-mce.cpp and device.cpp: the reading thread of a device and the main thread share one buffer,
-- which they hand over by bytes on a socket.
pub mod Handover
use usbmuxd_plugable_usb_msv.Prelude.{
  ℕ, suc, ◌+◌, ◌≡◌, List, [], ◌∷◌, Bool, true, false, ◌==◌, if◌then◌else◌, Option, none, some,
  length, take,
}

-- Where the reading thread is: before its first read, at its wait, at the answer of the main thread,
-- or at its end.
pub data ReaderPlace : Type 0 where
  at_start at_wait at_reply at_end : ReaderPlace

-- Where the main thread is with this device: at `select`, behind the byte that tells of data, or at
-- the data that it hands to `device_data_input`.
pub data MainPlace : Type 0 where
  at_select at_read : MainPlace
  at_data : List ℕ → MainPlace

-- `struct usb_device_rx`, the two directions of the socket, and the two threads. `buffer` holds the
-- last transfer that came; `is_pending` says that the plug-in may still write to it. `received` and
-- `delivered` list the transfers that came and those that went through `device_data_input`, newest
-- first.
pub record Rx : Type 0 where
  pub buffer : List ℕ
  pub data_size : ℕ
  pub is_pending : Bool
  pub event : Bool
  pub to_main : ℕ
  pub to_reader : ℕ
  pub reader : ReaderPlace
  pub main : MainPlace
  pub received : List (List ℕ)
  pub delivered : List (List ℕ)

-- The answer of `com_plugin_transfer` to a read
pub data ReadEnd : Type 0 where
  read_completed : List ℕ → ReadEnd
  read_pending read_failed : ReadEnd

-- A transfer has come.
unfoldable pub arrive : List ℕ → Rx → Rx
arrive bytes rx = record rx { buffer = bytes; event = true; received = bytes ∷ rx.received }

-- `usb_start_read`: did the read start?
unfoldable pub usb_start_read : ReadEnd → Rx → Bool × Rx
usb_start_read (read_completed bytes) rx =
    (true, record (arrive bytes rx) { data_size = length bytes })
usb_start_read read_pending rx =
    (true, record rx { event = false; data_size = 0; is_pending = true })
usb_start_read read_failed rx = (false, record rx { event = false; data_size = 0 })

-- `usb_get_read_result`, when the plug-in says that the transfer is complete; the data, and the
-- state.
unfoldable pub usb_get_read_result : Rx → List ℕ × Rx
usb_get_read_result rx =
    let size = if rx.data_size == 0 then length rx.buffer else rx.data_size in
    (take size rx.buffer, record rx { data_size = size })

-- The reading thread after it called `usb_start_read`
unfoldable pub after_start : Bool × Rx → Rx
after_start (started, rx) = record rx { reader = if started then at_wait else at_end }

unfoldable pub new_rx : Rx
new_rx = record {
  buffer = [];
  data_size = 0;
  is_pending = false;
  event = false;
  to_main = 0;
  to_reader = 0;
  reader = at_start;
  main = at_select;
  received = [];
  delivered = [];
}

-- One step of a thread or of the plug-in.
pub data HandoverStep (rx : Rx) : Rx → Type 0 where
  -- `usb_read_thread_proc` up to its loop
  reader_starts :
      (r : ReadEnd) → rx.reader ≡ at_start → HandoverStep rx (after_start (usb_start_read r rx))
  -- A transfer that went on is complete.
  transfer_completes :
      (bytes : List ℕ)
      → rx.is_pending ≡ true
      → HandoverStep rx (record (arrive bytes rx) { is_pending = false })
  -- The event resets itself; the main thread is told, and its answer waited for.
  reader_tells :
      rx.reader ≡ at_wait
      → rx.event ≡ true
      → HandoverStep rx (record rx { event = false; to_main = suc rx.to_main; reader = at_reply })
  -- The answer is there, and the next read starts.
  reader_goes_on :
      (r : ReadEnd) (n : ℕ)
      → rx.reader ≡ at_reply
      → rx.to_reader ≡ suc n
      → HandoverStep rx (after_start (usb_start_read r (record rx { to_reader = n })))
  -- The stop event, or a socket that was closed
  reader_ends : HandoverStep rx (record rx { reader = at_end })
  -- `device_process_sockets` takes the byte.
  main_hears :
      (n : ℕ)
      → rx.main ≡ at_select
      → rx.to_main ≡ suc n
      → HandoverStep rx (record rx { to_main = n; main = at_read })
  main_gets :
      rx.main ≡ at_read
      → HandoverStep rx
          (record (usb_get_read_result rx).1 { main = at_data (usb_get_read_result rx).0 })
  -- `usb_get_read_result` fails, and the loop goes on to the next device.
  main_fails : rx.main ≡ at_read → HandoverStep rx (record rx { main = at_select })
  -- The data went through `device_data_input`, and the reading thread is answered.
  main_answers :
      (bytes : List ℕ)
      → rx.main ≡ at_data bytes
      → HandoverStep rx (record rx {
        main = at_select;
        to_reader = suc rx.to_reader;
        delivered = bytes ∷ rx.delivered;
      })

-- What comes after the start of the thread.
pub data Reach : Rx → Type 0 where
  start : Reach new_rx
  later : {rx next : Rx} → Reach rx → HandoverStep rx next → Reach next
