-- ===== src/Usb/Transfer/Writing/Cleared.antt =====
-- usb-mce.cpp: which OVERLAPPED structures are deleted when the writing thread is stopped.
use usbmuxd_plugable_usb_msv.Prelude.{
  ℕ, zero, suc, ◌≤◌, ◌≡◌, refl, sym, ap, ◌∙◌, List, [], ◌∷◌, ◌++◌, none, some, length, take, drop,
  arith,
}
use mathlib.Core.List.{append-nil, append_assoc}
use usbmuxd_plugable_usb_msv.Usb.{TxElement}
use usbmuxd_plugable_usb_msv.Usb.Transfer.{Tx, re_use_txq_element, add_freed}
use usbmuxd_plugable_usb_msv.Usb.Transfer.Writing.{
  Writer, handle_element, write_loop, clear_queue, clear_pool, usb_write_thread_proc, stop_writing,
}

-- The OVERLAPPED structures of these elements
abbrev pub structures : List TxElement → List ℕ
structures [] = []
structures (e ∷ rest) = e.overlapped ∷ structures rest

structures-append :
    (es fs : List TxElement) → structures (es ++ fs) ≡ structures es ++ structures fs
structures-append [] fs = refl
structures-append (e ∷ es) fs = ap (λ l. e.overlapped ∷ l) (structures-append es fs)

clear_pool_lem :
    (es : List TxElement) (w : Writer)
    → ((clear_pool es w).deleted ≡ w.deleted ++ structures es)
      × ((clear_pool es w).tx.pool ≡ [])
      × ((clear_pool es w).tx.q ≡ w.tx.q)
unfolding clear_pool
clear_pool_lem [] w = (sym (append-nil w.deleted), refl, refl)
clear_pool_lem (e ∷ es) w =
    let v = record w { deleted = w.deleted ++ (e.overlapped ∷ []) } in
    let (gone, pool, q) = clear_pool_lem es v in
    (gone ∙ append_assoc w.deleted (e.overlapped ∷ []) (structures es), pool, q)

clear_queue_lem :
    (es : List TxElement) (w : Writer)
    → ((clear_queue es w).deleted ≡ w.deleted ++ structures es)
      × ((clear_queue es w).tx.pool ≡ w.tx.pool)
      × ((clear_queue es w).tx.q ≡ [])
unfolding clear_queue
clear_queue_lem [] w = (sym (append-nil w.deleted), refl, refl)
clear_queue_lem (e ∷ es) w =
    let v = record w {
      tx = record (w.tx) { freed = add_freed e.buffer w.tx.freed };
      deleted = w.deleted ++ (e.overlapped ∷ []);
    } in
    let (gone, pool, q) = clear_queue_lem es v in
    (gone ∙ append_assoc w.deleted (e.overlapped ∷ []) (structures es), pool, q)

write_loop_lem :
    (dev handled : ℕ) (es : List TxElement) (tx : Tx)
    → handled ≤ length es
    → (last : Tx) × (write_loop dev handled es tx ≡ some last)
      × (last.q ≡ drop (suc handled) es)
      × (structures last.pool ≡ structures tx.pool ++ structures (take handled es))
unfolding write_loop handle_element re_use_txq_element
write_loop_lem dev zero [] tx h =
    (record tx { q = [] }, refl, refl, sym (append-nil (structures tx.pool)))
write_loop_lem dev zero (e ∷ rest) tx h =
    (record tx { q = rest }, refl, refl, sym (append-nil (structures tx.pool)))
write_loop_lem dev (suc left) [] tx h = let absurd : ⊥ = omega arith in elim absurd [ ]
write_loop_lem dev (suc left) (e ∷ rest) tx h =
    let next = handle_element dev e tx in
    let (last, ends, q, pool) = write_loop_lem dev left rest next (ground (arith, h)) in
    (
      last,
      ends,
      q,
      pool
          ∙ ap (λ l. l ++ structures (take left rest))
              (structures-append tx.pool (record e { buffer = none } ∷ []))
          ∙ append_assoc (structures tx.pool) (e.overlapped ∷ []) (structures (take left rest)),
    )

-- If the writing thread sees its stop event after it has handled some of the queue, or all of it, it
-- ends; queue and pool are empty once `usb_disconnect` has cleared the pool, and the structures
-- deleted are those behind the element with which the event was seen, those of the pool, and those
-- of the elements handled, each once. The structure of that one element is not among them.
pub stop_writing_lem :
    (dev handled : ℕ) (tx : Tx)
    → handled ≤ length tx.q
    → (w : Writer) × (stop_writing dev handled tx ≡ some w)
      × (w.tx.q ≡ [])
      × (w.tx.pool ≡ [])
      × (w.deleted
          ≡ structures (drop (suc handled) tx.q)
            ++ (structures tx.pool ++ structures (take handled tx.q)))
unfolding stop_writing usb_write_thread_proc
stop_writing_lem dev handled tx h =
    let (last, ends, rest, pool) = write_loop_lem dev handled tx.q tx h in
    let cleared = clear_queue last.q (record { tx = last; deleted = [] }) in
    let (gone, kept, empty) = clear_queue_lem last.q (record { tx = last; deleted = [] }) in
    let (gone₁, pool₁, empty₁) = clear_pool_lem cleared.tx.pool cleared in
    (
      clear_pool cleared.tx.pool cleared,
      rw (ends, stop_writing, usb_write_thread_proc) refl,
      empty₁ ∙ empty,
      pool₁,
      gone₁
          ∙ ap (λ l. l ++ structures cleared.tx.pool) (gone ∙ ap structures rest)
          ∙ ap (λ l. structures (drop (suc handled) tx.q) ++ l) (ap structures kept ∙ pool),
    )
