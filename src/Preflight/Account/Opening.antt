-- ===== src/Preflight/Account/Opening.antt =====
-- preflight.cpp: the accounts at the end of a pass from `retry`.
use usbmuxd_plugable_usb_msv.Prelude.{suc, ◌<◌, ◌≡◌, ◌⊎◌, true, List, [], ◌∷◌, none, some, arith}
use usbmuxd_plugable_usb_msv.World.{DeviceInfo}
use usbmuxd_plugable_usb_msv.Preflight.{
  device_added, Phone, Worker, Call, client_new, open_client, client_free,
}
use usbmuxd_plugable_usb_msv.Preflight.Session.{
  Next, to_leave, retry, go_on, has_device_record, remove_device_record, start_session,
  after_failure, check_pairing, pre_pair, open_session,
}
use usbmuxd_plugable_usb_msv.Preflight.Account.{reports, delete, open_clients, removals, Post}

-- The calls before the record was removed and the client freed.
abbrev pub before_removal : List Call → List Call
before_removal [] = []
before_removal (c ∷ []) = []
before_removal (c ∷ d ∷ calls) = calls

module _ {Plist : Type 0} (phone : Phone Plist) where
  -- What a pass that begins at `s` may have done by the time it goes on to `next` at `t`.
  abbrev pub Opened : Worker → Next → Worker → Type 0
  Opened s (to_leave none) t =
      (reports t.calls ≡ reports s.calls) × (open_clients t.calls ≡ open_clients s.calls)
  Opened s (to_leave (some l)) t =
      ((reports t.calls ≡ reports s.calls) ⊎ (reports t.calls ≡ device_added ∷ reports s.calls))
      × (open_clients t.calls ≡ l ∷ open_clients s.calls)
  Opened s retry t =
      (reports t.calls ≡ reports s.calls)
      × (open_clients t.calls ≡ open_clients s.calls)
      × (removals s.calls < removals t.calls)
      × (removals t.calls ≡ suc (removals (before_removal t.calls)))
      × (phone.remove_device_record (before_removal t.calls) ≡ true)
  Opened s (go_on l is_device_paired) t =
      (reports t.calls ≡ reports s.calls) × (open_clients t.calls ≡ l ∷ open_clients s.calls)

  pub open_session-Opened :
      (info : DeviceInfo) (s : Worker)
      → Post (λ next t. Opened s next t) (open_session phone info s)
  unfolding open_session client_new open_client pre_pair check_pairing start_session
      has_device_record remove_device_record after_failure client_free reports open_clients removals
      delete
  open_session-Opened info s = ground arith
