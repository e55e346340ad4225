-- ===== src/Usb/Transfer/Ownership.antt =====
-- usb-mce.cpp: what `usb_send` does with the structures and the buffer of a transfer.
use usbmuxd_plugable_usb_msv.Prelude.{
  ℕ, ◌+◌, ◌%◌, ◌≡◌, ◌≢◌, ◌⊎◌, inl, inr, refl, subst, List, [], ◌∷◌, ◌++◌, Bool, true, false, ltb,
  if◌then◌else◌, Option, none, some, arith, ◌==◌, length, Bool-cases, ℤ, pos, negsuc,
}
use usbmuxd_plugable_usb_msv.Usb.{
  TxElement, transferred, result_asked, TransferEnd, completed, io_pending, failed, Plugin,
}
use usbmuxd_plugable_usb_msv.Usb.Transfer.{
  Tx, returned, process_exited, get_txq_element, re_use_txq_element, add_freed, enqueue, is_done,
  wait_here, leave, send_data, send_zero, finish_send, usb_send,
}

abbrev pub one_if : Bool → ℕ
one_if b = if b then 1 else 0

-- How often an OVERLAPPED structure stands in a list.
abbrev pub count_of : ℕ → List TxElement → ℕ
count_of x [] = 0
count_of x (e ∷ rest) = one_if (e.overlapped == x) + count_of x rest

-- How often the queue and the pool hold a structure, and whether it was allocated.
abbrev pub held : ℕ → Tx → ℕ
held x tx = count_of x tx.pool + count_of x tx.q

abbrev pub issued : ℕ → Tx → ℕ
issued x tx = one_if (ltb x tx.allocated)

count_of-append :
    (x : ℕ) (xs ys : List TxElement) → count_of x (xs ++ ys) ≡ count_of x xs + count_of x ys
count_of-append x [] ys = omega arith
count_of-append x (e ∷ rest) ys = ground (arith, count_of-append x rest ys)

-- Of one structure: a step gives back what it took of it, freed these buffers, and left the rest of the record.
abbrev Keeps : ℕ → ℕ → Option (List ℕ) → Tx → Tx → Type 0
Keeps x taken buffer tx next =
    (held x next + issued x tx ≡ held x tx + taken + issued x next)
    × (next.freed ≡ add_freed buffer tx.freed)
    × (next.thread ≡ tx.thread)
    × (next.tx_max_packet_size ≡ tx.tx_max_packet_size)

get_txq_element-Keeps :
    (x : ℕ) (buff : Option (List ℕ)) (tx : Tx)
    → ((get_txq_element buff tx).0.buffer ≡ buff)
      × (held x (get_txq_element buff tx).1
            + one_if ((get_txq_element buff tx).0.overlapped == x)
            + issued x tx
          ≡ held x tx + issued x (get_txq_element buff tx).1)
      × ((get_txq_element buff tx).1.freed ≡ tx.freed)
      × ((get_txq_element buff tx).1.thread ≡ tx.thread)
      × ((get_txq_element buff tx).1.tx_max_packet_size ≡ tx.tx_max_packet_size)
      × ((get_txq_element buff tx).1.q ≡ tx.q)
unfolding get_txq_element
get_txq_element-Keeps x buff tx = ground arith

re_use_txq_element-Keeps :
    (x : ℕ) (e : TxElement) (tx : Tx)
    → Keeps x (one_if (e.overlapped == x)) e.buffer tx (re_use_txq_element e tx)
      × ((re_use_txq_element e tx).q ≡ tx.q)
unfolding re_use_txq_element
re_use_txq_element-Keeps x e tx = (
  (ground (arith, count_of-append x tx.pool (record e { buffer = none } ∷ [])), refl, refl, refl),
  refl,
)

-- A queue with nothing, or only the packet of length zero, appended.
abbrev pub Grows : List TxElement → List TxElement → Type 0
Grows before after =
    (after ≡ before)
    ⊎ ((zero_packet : TxElement) × (zero_packet.buffer ≡ none)
        × (after ≡ before ++ (zero_packet ∷ [])))

module _ (plugin : Plugin) (dev : ℕ) where
  -- An element that was left is in the queue of the writing thread with its buffer, or used again.
  leave-Keeps :
      (x : ℕ) (e : TxElement) (tx : Tx)
      → (((leave plugin dev e tx).0 ≡ true)
          × (tx.thread ≡ true)
          × Keeps x (one_if (e.overlapped == x)) none tx (leave plugin dev e tx).1
          × ((leave plugin dev e tx).1.q ≡ tx.q ++ (e ∷ [])))
        ⊎ (Keeps x (one_if (e.overlapped == x)) e.buffer tx (leave plugin dev e tx).1
            × ((leave plugin dev e tx).1.q ≡ tx.q))
  unfolding leave enqueue wait_here
  leave-Keeps x e tx = elim (Bool-cases tx.thread) [
    | inl busy ↦ inl (ground (arith, busy, count_of-append x tx.q (e ∷ [])))
    | inr idle ↦ inr (
        ground (
          arith,
          idle,
          re_use_txq_element-Keeps x e (record tx { calls = result_asked dev ∷ tx.calls }),
        ))
  ]

  TransferEnd-cases : (t : TransferEnd) → (t ≡ completed) ⊎ ((t ≡ io_pending) ⊎ (t ≡ failed))
  TransferEnd-cases completed = inl refl
  TransferEnd-cases io_pending = inr (inl refl)
  TransferEnd-cases failed = inr (inr refl)

  send_zero-Keeps :
      (x : ℕ) (tx : Tx)
      → Keeps x 0 none tx (send_zero plugin dev tx).1
        × (((send_zero plugin dev tx).1.q ≡ tx.q)
            ⊎ ((send_zero plugin dev tx).1.q ≡ tx.q ++ ((get_txq_element none tx).0 ∷ [])))
  unfolding send_zero
  send_zero-Keeps x tx =
      let (e, taken) = get_txq_element none tx in
      let asked = record taken { calls = transferred dev [] ∷ taken.calls } in
      elim (Bool-cases (is_done (plugin.transfer taken.calls dev []))) [
        | inl ended ↦
            ground
              (arith, ended, get_txq_element-Keeps x none tx, re_use_txq_element-Keeps x e asked)
        | inr later ↦ ground (arith, later, get_txq_element-Keeps x none tx, leave-Keeps x e asked)
      ]

  send_data-Keeps :
      (x : ℕ) (buf : List ℕ) (tx : Tx)
      → ((send_data plugin dev buf tx).0 ≡ false)
        ⊎ ((((send_data plugin dev buf tx).0 ≡ true)
              × (tx.thread ≡ true)
              × Keeps x 0 none tx (send_data plugin dev buf tx).1
              × ((send_data plugin dev buf tx).1.q
                  ≡ tx.q ++ ((get_txq_element (some buf) tx).0 ∷ [])))
            ⊎ (((send_data plugin dev buf tx).0 ≡ true)
                × Keeps x 0 (some buf) tx (send_data plugin dev buf tx).1
                × ((send_data plugin dev buf tx).1.q ≡ tx.q)))
  unfolding send_data
  send_data-Keeps x buf tx =
      let (e, taken) = get_txq_element (some buf) tx in
      let asked = record taken { calls = transferred dev buf ∷ taken.calls } in
      elim (TransferEnd-cases (plugin.transfer taken.calls dev buf)) [
        | inl ended ↦ ground (
          arith,
          ended,
          get_txq_element-Keeps x (some buf) tx,
          re_use_txq_element-Keeps x e asked,
        )
        | inr (inl later) ↦ elim (Bool-cases (leave plugin dev e asked).0) [
          | inl ok ↦
              ground
                (arith, later, ok, get_txq_element-Keeps x (some buf) tx, leave-Keeps x e asked)
          | inr bad ↦ inl (ground (arith, later, bad))
        ]
        | inr (inr broken) ↦ inl (ground (arith, broken))
      ]

  send_zero_busy : (tx : Tx) → tx.thread ≡ true → (send_zero plugin dev tx).0 ≡ true
  unfolding send_zero leave get_txq_element
  send_zero_busy tx busy = ground (arith, busy)

  send_zero-Grows : (tx : Tx) → Grows tx.q (send_zero plugin dev tx).1.q
  send_zero-Grows tx = elim ((send_zero-Keeps 0 tx).1) [
    | inl same ↦ inl same
    | inr more ↦ inr ((get_txq_element none tx).0, (get_txq_element-Keeps 0 none tx).0, more)
  ]

  send_data-held :
      (x : ℕ) (buf : List ℕ) (tx : Tx)
      → (send_data plugin dev buf tx).0 ≡ true
      → held x (send_data plugin dev buf tx).1 + issued x tx
        ≡ held x tx + issued x (send_data plugin dev buf tx).1
  send_data-held x buf tx ok = elim (send_data-Keeps x buf tx) [
    | inl bad ↦ absurd (cc)
    | inr (inl (_, _, kept, _)) ↦ omega (arith, kept.0)
    | inr (inr (_, kept, _)) ↦ omega (arith, kept.0)
  ]

  finish_send-Keeps :
      (buf : List ℕ) (tx : Tx)
      → tx.tx_max_packet_size ≢ 0
      → (r : ℤ) × (next : Tx) × (finish_send plugin dev buf tx ≡ returned r next)
        × ((x : ℕ) → Keeps x 0 none tx next)
        × Grows tx.q next.q
        × ((r ≡ pos 0) ⊎ ((r ≡ negsuc 0) × (tx.thread ≡ false)))
  unfolding finish_send
  finish_send-Keeps buf tx ne = elim (Bool-cases (length buf % tx.tx_max_packet_size == 0)) [
    | inr short ↦
        (pos 0, tx, ground (arith, short), λ x. (omega arith, refl, refl, refl), inl refl, inl refl)
    | inl full ↦ elim (Bool-cases (send_zero plugin dev tx).0) [
      | inl ok ↦ (
        pos 0,
        (send_zero plugin dev tx).1,
        ground (arith, full, ok),
        λ x. (send_zero-Keeps x tx).0,
        send_zero-Grows tx,
        inl refl,
      )
      | inr bad ↦ (
        negsuc 0,
        (send_zero plugin dev tx).1,
        ground (arith, full, bad),
        λ x. (send_zero-Keeps x tx).0,
        send_zero-Grows tx,
        inr (refl, ground (arith, bad, send_zero_busy tx)),
      )
    ]
  ]

  -- For a device with a packet size that is not 0, `usb_send` ends the process or returns. Where it
  -- returns, each OVERLAPPED structure is in the queue and the pool as often as it was before, and once
  -- more if it was allocated by this call. Either the packet was left to the writing thread, which runs: it stands behind the queue
  -- with its buffer, the result is 0 and no buffer was freed; or its buffer was freed, once, and it
  -- is not in the queue. Behind this at most a packet of length zero joins the queue, and what was in
  -- the queue stays in front.
  pub usb_send_lem :
      (buf : List ℕ) (tx : Tx)
      → tx.tx_max_packet_size ≢ 0
      → (usb_send plugin dev buf tx ≡ process_exited)
        ⊎ ((r : ℤ) × (next : Tx) × (usb_send plugin dev buf tx ≡ returned r next)
            × ((x : ℕ) → held x next + issued x tx ≡ held x tx + issued x next)
            × (((r ≡ pos 0)
                  × (tx.thread ≡ true)
                  × (next.freed ≡ tx.freed)
                  × ((packet : TxElement) × (packet.buffer ≡ some buf)
                      × Grows (tx.q ++ (packet ∷ [])) next.q))
                ⊎ (((r ≡ pos 0) ⊎ (r ≡ negsuc 0))
                    × (next.freed ≡ buf ∷ tx.freed)
                    × Grows tx.q next.q)))
  unfolding usb_send
  usb_send_lem buf tx ne = elim (send_data-Keeps 0 buf tx) [
    | inl bad ↦ inl (ground (arith, bad))
    | inr (inl (ok, busy, kept, queued)) ↦
        let (r, next, ended, more, grown, how) =
          finish_send-Keeps buf (send_data plugin dev buf tx).1 (ground (arith, kept, ne)) in
        inr (
          r,
          next,
          ground (arith, ok, ended),
          λ x. omega (arith, send_data-held x buf tx ok, (more x).0),
          inl (
            ground (arith, busy, kept, more 0, how),
            busy,
            ground (arith, kept, more 0),
            (
              (get_txq_element (some buf) tx).0,
              (get_txq_element-Keeps 0 (some buf) tx).0,
              subst (λ q. Grows q next.q) queued grown,
            ),
          ),
        )
    | inr (inr (ok, kept, same)) ↦
        let (r, next, ended, more, grown, how) =
          finish_send-Keeps buf (send_data plugin dev buf tx).1 (ground (arith, kept, ne)) in
        inr (
          r,
          next,
          ground (arith, ok, ended),
          λ x. omega (arith, send_data-held x buf tx ok, (more x).0),
          inr (
            ground (arith, how),
            ground (arith, kept, more 0),
            subst (λ q. Grows q next.q) same grown,
          ),
        )
  ]
