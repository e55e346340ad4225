-- ===== src/Preflight/Callback.antt =====
-- preflight.cpp: what the other threads run: `np_callback`, `preflight_device_remove_cb`.
use usbmuxd_plugable_usb_msv.Prelude.{ℕ, true, false, List, [], ◌∷◌, none, some, if◌then◌else◌}
use usbmuxd_plugable_usb_msv.Client.Plist.{bytes_eq}
use usbmuxd_plugable_usb_msv.Client.Reply.{codes}
use usbmuxd_plugable_usb_msv.Preflight.{
  Phone, Arrival, notification_came, removed, paired, value_set, config_asked, event_set, P, pure,
  ◌>>=◌, ◌>>◌, when, note, ask, get_cb, set_cb, at_least, client_new, client_free,
}

abbrev pub request_pair : List ℕ
request_pair = codes "com.apple.mobile.lockdown.request_pair"

abbrev pub request_host_buid : List ℕ
request_host_buid = codes "com.apple.mobile.lockdown.request_host_buid"

-- `preflight_device_remove_cb`, for data that is there
unfoldable pub preflight_device_remove_cb : P (Unit {0})
preflight_device_remove_cb = do cb ← get_cb; set_cb (record cb { is_device_connected = false })

-- `IOS_8_SIGNAL_IS_PAIRED`
unfoldable pub signal_is_paired : P (Unit {0})
signal_is_paired = do
  cb ← get_cb
  when (at_least 8 cb.version_major) (note event_set >> set_cb (record cb { is_paired = true }))

module _ {Plist : Type 0} (phone : Phone Plist) where
  -- `lockdownd_set_untrusted_host_buid`
  unfoldable pub lockdownd_set_untrusted_host_buid : ℕ → P (Unit {0})
  lockdownd_set_untrusted_host_buid lockdown = do
    system_buid ← ask phone.system_buid (λ _. config_asked)
    note (value_set lockdown "UntrustedHostBUID" system_buid)

  -- The answer to `request_pair`. Whatever comes of the pairing, the signal is given.
  unfoldable pub pair_on_request : P (Unit {0})
  pair_on_request = do
    client ← client_new phone
    elim client [
      | none ↦ signal_is_paired
      | some lockdown ↦ do
        ask (λ t. phone.pair t (some lockdown)) (paired (some lockdown))
        client_free (some lockdown)
        signal_is_paired
    ]

  -- The answer to `request_host_buid`
  unfoldable pub set_buid_on_request : P (Unit {0})
  set_buid_on_request = do
    client ← client_new phone
    elim client [
      | none ↦ pure tt
      | some lockdown ↦ do lockdownd_set_untrusted_host_buid lockdown; client_free (some lockdown)
    ]

  -- `np_callback`
  unfoldable pub np_callback : List ℕ → P (Unit {0})
  np_callback [] = do cb ← get_cb; set_cb (record cb { np = false })
  np_callback (c ∷ cs) =
      if bytes_eq (c ∷ cs) request_pair
      then pair_on_request
      else when (bytes_eq (c ∷ cs) request_host_buid) set_buid_on_request

  unfoldable pub arrive : Arrival → P (Unit {0})
  arrive (notification_came notification) = np_callback notification
  arrive removed = preflight_device_remove_cb

  unfoldable pub arrive_all : List Arrival → P (Unit {0})
  arrive_all [] = pure tt
  arrive_all (a ∷ rest) = arrive a >> arrive_all rest

  -- The other threads run.
  unfoldable pub serve : P (Unit {0})
  serve s = arrive_all (phone.arrivals s.calls) s
