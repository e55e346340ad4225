-- ===== src/Usb/Transfer.antt =====
-- usb-mce.cpp: `usb_send`, on the queue and the pool of a device's transfers.
pub mod Ownership
pub mod Writing
use usbmuxd_plugable_usb_msv.Prelude.{
  ℕ, zero, suc, ◌+◌, ◌%◌, List, [], ◌∷◌, ◌++◌, Bool, true, false, Option, none, some, ◌==◌,
  if◌then◌else◌, length, ℤ, pos, negsuc,
}
use usbmuxd_plugable_usb_msv.Usb.{
  TxElement, UsbCall, transferred, result_asked, TransferEnd, completed, io_pending, failed, Plugin,
}

-- `struct usb_device_tx` and `tx_max_packet_size`, with the number of OVERLAPPED structures that
-- were allocated, and the buffers that were freed.
pub record Tx : Type 0 where
  pub q : List TxElement
  pub pool : List TxElement
  pub thread : Bool
  pub tx_max_packet_size : ℕ
  pub allocated : ℕ
  pub freed : List (List ℕ)
  pub calls : List UsbCall

-- How `usb_send` ends: with a result, with the end of the process, or with a division by zero.
pub data SendEnd : Type 0 where
  returned : ℤ → Tx → SendEnd
  process_exited : SendEnd
  divided_by_zero : SendEnd

-- `GetTXQElement`
unfoldable pub get_txq_element : Option (List ℕ) → Tx → TxElement × Tx
get_txq_element buff tx = elim tx.pool [
  | [] ↦ (
    record { buffer = buff; overlapped = tx.allocated },
    record tx { allocated = suc tx.allocated },
  )
  | e ∷ rest ↦ (record e { buffer = buff }, record tx { pool = rest })
]

abbrev pub add_freed : Option (List ℕ) → List (List ℕ) → List (List ℕ)
add_freed none freed = freed
add_freed (some buffer) freed = buffer ∷ freed

-- `ReUseTXQElement`
unfoldable pub re_use_txq_element : TxElement → Tx → Tx
re_use_txq_element e tx = record tx {
  pool = tx.pool ++ (record e { buffer = none } ∷ []);
  freed = add_freed e.buffer tx.freed;
}

-- `tx.q.enqueue`
unfoldable pub enqueue : TxElement → Tx → Tx
enqueue e tx = record tx { q = tx.q ++ (e ∷ []) }

abbrev pub is_done : TransferEnd → Bool
is_done completed = true
is_done _ = false

module _ (plugin : Plugin) (dev : ℕ) where
  -- `com_plugin_get_transfer_result` for an element that no thread waits for; then it is used again.
  unfoldable pub wait_here : TxElement → Tx → Bool × Tx
  wait_here e tx = (
    plugin.transfer_result tx.calls dev,
    re_use_txq_element e (record tx { calls = result_asked dev ∷ tx.calls }),
  )

  -- A transfer that goes on is left to the writing thread, or waited for here.
  unfoldable pub leave : TxElement → Tx → Bool × Tx
  leave e tx = if tx.thread then (true, enqueue e tx) else wait_here e tx

  -- The transfer of the packet: did it go well?
  unfoldable pub send_data : List ℕ → Tx → Bool × Tx
  send_data buf tx =
      let (e, taken) = get_txq_element (some buf) tx in
      let asked = record taken { calls = transferred dev buf ∷ taken.calls } in
      elim (plugin.transfer taken.calls dev buf) [
        | completed ↦ (true, re_use_txq_element e asked)
        | io_pending ↦ leave e asked
        | failed ↦ (false, asked)
      ]

  -- The packet of length zero; a transfer that failed is taken for one that goes on.
  unfoldable pub send_zero : Tx → Bool × Tx
  send_zero tx =
      let (ze, taken) = get_txq_element none tx in
      let asked = record taken { calls = transferred dev [] ∷ taken.calls } in
      if is_done (plugin.transfer taken.calls dev [])
      then (true, re_use_txq_element ze asked)
      else leave ze asked

  abbrev pub result_of : Bool → ℤ
  result_of ok = if ok then pos 0 else negsuc 0

  -- `usb_send` behind the transfer of the packet
  unfoldable pub finish_send : List ℕ → Tx → SendEnd
  finish_send buf tx =
      if tx.tx_max_packet_size == 0
      then divided_by_zero
      else if length buf % tx.tx_max_packet_size == 0
      then (let (ok, last) = send_zero tx in returned (result_of ok) last)
      else returned (pos 0) tx

  -- `usb_send`
  unfoldable pub usb_send : List ℕ → Tx → SendEnd
  usb_send buf tx =
      let (ok, next) = send_data buf tx in if ok then finish_send buf next else process_exited
