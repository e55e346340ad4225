-- ===== src/Device/Window/Flow.antt =====
-- device.cpp: flow control. The in-buffer of a connection is a queue of bytes behind a window.
use usbmuxd_plugable_usb_msv.Prelude.{
  ◌⊎◌, ℕ, ◌+◌, ◌*◌, ◌≤◌, ◌<◌, ◌≡◌, ◌≢◌, ◌↔◌, sym, inl, inr, Bool-cases, ◌==◌, List, [], ◌++◌, true,
  false, arith, length, take, drop, length-append, length-take, length-drop, take-drop,
  take-append_length, drop_all,
}
use usbmuxd_plugable_usb_msv.World.{MuxConnection}
use usbmuxd_plugable_usb_msv.Device.Window.{
  in_flight, sendable_of, refresh, new_connection, overflows, take_in, drop_written, flushed,
  conn_inbuf_size,
}
use usbmuxd_plugable_usb_msv.Device.Packet.{tcp_header_of}

-- The bytes that wait for the client.
abbrev pub live : MuxConnection → List ℕ
live c = take c.ib_size c.ib_buf

-- The window and the bytes that wait make up the buffer, and the bytes are there.
pub record InWindow (c : MuxConnection) : Type 0 where
  pub capacity : c.ib_capacity ≡ conn_inbuf_size
  pub balance : c.ib_size + c.tx_win ≡ c.ib_capacity
  pub stored : c.ib_size ≤ length c.ib_buf

-- A new connection has the whole buffer as its window.
pub new_connection-InWindow :
    (dev client sport dport : ℕ) → InWindow (new_connection dev client sport dport)
unfolding new_connection
new_connection-InWindow dev client sport dport = omega arith

-- `connection_device_input` turns a payload away exactly when it is larger than the window that
-- the device was told of. What it takes goes to the end of the queue, and the invariant holds on.
pub take_in_lem :
    (c : MuxConnection) (payload : List ℕ)
    → InWindow c
    → length payload ≤ 65536
    → ((c.tx_win < length payload) × (overflows c (length payload) ≡ true))
      ⊎ ((length payload ≤ c.tx_win)
          × (overflows c (length payload) ≡ false)
          × InWindow (take_in c payload)
          × (live (take_in c payload) ≡ live c ++ payload))
unfolding overflows take_in
take_in_lem c payload v h = elim (Bool-cases (overflows c (length payload))) [
  | inl large ↦ inl (ground arith, large)
  | inr fits ↦ inr (
    ground arith,
    fits,
    record {
      capacity = v.capacity;
      balance = ground arith;
      stored = ground (arith, length-append (live c) payload, length-take c.ib_size c.ib_buf);
    },
    take-append_length _ (live c) payload (ground (arith, length-take c.ib_size c.ib_buf)),
  )
]

-- `device_client_process` takes what the client's socket accepted from the front of the queue, and
-- gives that much back to the window.
pub flushed_lem :
    (c : MuxConnection) (n : ℕ)
    → InWindow c
    → n ≤ c.ib_size
    → InWindow (flushed c n) × (live (flushed c n) ≡ drop n (live c))
unfolding flushed drop_written
flushed_lem c n v h = elim (Bool-cases (n == c.ib_size)) [
  | inl all ↦ rw all (
    record { capacity = v.capacity; balance = ground arith; stored = omega arith },
    none_left all,
  )
  | inr some_left ↦ rw some_left (
    record {
      capacity = v.capacity;
      balance = ground arith;
      stored = ground (arith, length-drop n c.ib_buf);
    },
    take-drop _ n c.ib_size c.ib_buf (ground arith),
  )
]
  where
    none_left : (n == c.ib_size) ≡ true → [] ≡ drop n (live c)
    none_left all = sym (drop_all n (live c) (ground (arith, length-take c.ib_size c.ib_buf)))

-- What `update_connection` finds the connection able to send: never more than a packet or the
-- out-buffer holds, nor, with what is in flight, more than the device's window. Input is polled for
-- exactly when something can be sent, output exactly when bytes wait, and an acknowledgement is
-- pending exactly when the last one sent is not the last one due. The queue and
-- the window are not touched.
pub refresh_lem :
    (c : MuxConnection)
    → let r = refresh c in
      (r.sendable ≤ c.max_payload)
      × (r.sendable ≤ c.ob_capacity)
      × ((r.sendable ≡ 0) ⊎ (in_flight c + r.sendable ≤ c.rx_win))
      × ((r.events.pollin ≡ true) ↔ (0 < r.sendable))
      × ((r.events.pollout ≡ true) ↔ (c.ib_size ≢ 0))
      × ((r.ack_pending ≡ true) ↔ (c.tx_acked ≢ c.tx_ack))
      × (r.ib_buf ≡ c.ib_buf)
      × (r.ib_size ≡ c.ib_size)
      × (r.tx_win ≡ c.tx_win)
unfolding refresh sendable_of
refresh_lem c = ground arith

-- The window that `send_tcp` announces, in units of 256 bytes, is never more than the free space of
-- the in-buffer, and less than one unit below it; the 16 bits of the field do not cut it off.
announced_window :
    (c : MuxConnection) (flags : ℕ)
    → InWindow c
    → ((tcp_header_of c flags).th_win * 256 + c.ib_size ≤ c.ib_capacity)
      × (c.ib_capacity < (tcp_header_of c flags).th_win * 256 + c.ib_size + 256)
unfolding tcp_header_of
announced_window c flags v = omega arith
