-- ===== src/Usb/Transfer/Writing.antt =====
-- usb-mce.cpp: `usb_write_thread_proc`, and how `usb_disconnect` clears the pool of transfers when the
-- thread has ended.
pub mod Cleared
use usbmuxd_plugable_usb_msv.Prelude.{
  ℕ, zero, suc, List, [], ◌∷◌, ◌++◌, Bool, true, false, Option, none, some,
}
use usbmuxd_plugable_usb_msv.Usb.{TxElement, result_asked}
use usbmuxd_plugable_usb_msv.Usb.Transfer.{Tx, re_use_txq_element, add_freed}

-- The queue and the pool of a device, and the OVERLAPPED structures that were deleted. Behind the
-- queue stands the empty element that `usb_disconnect` has put there to wake the thread.
pub record Writer : Type 0 where
  pub tx : Tx
  pub deleted : List ℕ

-- How the thread goes on from an element: it saw the event `writeThreadStop`, or it handled the
-- element.
unfoldable pub handle_element : ℕ → TxElement → Tx → Tx
handle_element dev e tx = re_use_txq_element e (record tx { calls = result_asked dev ∷ tx.calls })

-- The loop of `usb_write_thread_proc`, in which the event is seen after this many elements: nothing
-- if the thread waits before, otherwise the queue and the pool at the end. The element with which
-- the event is seen is dropped.
unfoldable pub write_loop : ℕ → ℕ → List TxElement → Tx → Option Tx
write_loop dev zero [] tx = some (record tx { q = [] })
write_loop dev zero (e ∷ rest) tx = some (record tx { q = rest })
write_loop dev (suc left) [] tx = none
write_loop dev (suc left) (e ∷ rest) tx = write_loop dev left rest (handle_element dev e tx)

-- "cleaning what remains in q"
unfoldable pub clear_queue : List TxElement → Writer → Writer
clear_queue [] w = record w { tx = record (w.tx) { q = [] } }
clear_queue (e ∷ rest) w = clear_queue rest (record w {
  tx = record (w.tx) { freed = add_freed e.buffer w.tx.freed };
  deleted = w.deleted ++ (e.overlapped ∷ []);
})

-- The loop of `usb_disconnect` over the pool
unfoldable pub clear_pool : List TxElement → Writer → Writer
clear_pool [] w = record w { tx = record (w.tx) { pool = [] } }
clear_pool (e ∷ rest) w = clear_pool rest (record w { deleted = w.deleted ++ (e.overlapped ∷ []) })

-- `usb_write_thread_proc`
unfoldable pub usb_write_thread_proc : ℕ → ℕ → Tx → Option Writer
usb_write_thread_proc dev handled tx = elim (write_loop dev handled tx.q tx) [
  | none ↦ none
  | some last ↦ some (clear_queue last.q (record { tx = last; deleted = [] }))
]

-- The thread to its end, and the pool after it
unfoldable pub stop_writing : ℕ → ℕ → Tx → Option Writer
stop_writing dev handled tx = elim (usb_write_thread_proc dev handled tx) [
  | none ↦ none
  | some w ↦ some (clear_pool w.tx.pool w)
]
