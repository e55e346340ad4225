-- ===== src/Preflight/Session.antt =====
-- preflight.cpp: `preflight_worker_handle_device_add` from the label `retry` to the version of the
-- device: the connection to the lockdown service and the session on a stored pairing record.
use usbmuxd_plugable_usb_msv.Prelude.{
  ℕ, Bool, true, false, List, [], ◌∷◌, Option, none, some, ◌==◌, if◌then◌else◌,
}
use usbmuxd_plugable_usb_msv.World.{DeviceInfo}
use usbmuxd_plugable_usb_msv.World.Host.{Host, PlistType, plist_string}
use usbmuxd_plugable_usb_msv.Client.Plist.{bytes_eq}
use usbmuxd_plugable_usb_msv.Client.Reply.{codes}
use usbmuxd_plugable_usb_msv.Preflight.{
  LockdownError, lockdown_success, invalid_host_id, ssl_error, is_success, device_added, Phone,
  told, type_asked, pair_validated, session_started, value_asked, config_asked, record_removed, P,
  pure, ◌>>=◌, ◌>>◌, when, note, ask, client_new, client_free,
}

-- Where the code goes on: to `leave` with the variable `lockdown`, to `retry`, or past the switch,
-- with `is_device_paired`.
pub data Next : Type 0 where
  to_leave : Option ℕ → Next
  retry : Next
  go_on : ℕ → Bool → Next

abbrev pub is_string : PlistType → Bool
is_string plist_string = true
is_string _ = false

-- `strchr(version_str, '.') + 1`, nothing if there is no dot
unfoldable pub after_dot : List ℕ → Option (List ℕ)
after_dot [] = none
after_dot (c ∷ cs) = if c == 46 then some cs else after_dot cs

module _ {Plist : Type 0} (phone : Phone Plist) where
  unfoldable pub has_device_record : P Bool
  has_device_record = ask phone.has_device_record (λ _. config_asked)

  -- `config_remove_device_record`: whether it returns 0
  unfoldable pub remove_device_record : P Bool
  remove_device_record = ask phone.remove_device_record record_removed

  -- `config_device_record_get_host_id` and `lockdownd_start_session`
  unfoldable pub start_session : ℕ → P LockdownError
  start_session lockdown = do
    host_id ← ask phone.host_id (λ _. config_asked)
    ask (λ t. phone.start_session t host_id) (session_started lockdown host_id)

  -- The switch on the error of the session or of the pairing
  unfoldable pub after_failure : ℕ → LockdownError → P Next
  after_failure lockdown invalid_host_id = pure (go_on lockdown false)
  after_failure lockdown ssl_error = do
    is_removed ← remove_device_record
    if is_removed then client_free (some lockdown) >> pure retry else pure (go_on lockdown false)
  after_failure lockdown _ = pure (go_on lockdown true)

  -- "Try to pre pair with the device"
  unfoldable pub check_pairing : ℕ → P LockdownError
  check_pairing lockdown = do
    is_local ← ask phone.has_local_config (λ _. config_asked)
    if is_local then ask phone.validate_pair_force_store (pair_validated lockdown) else (do
      is_known ← has_device_record
      pure (if is_known then lockdown_success else invalid_host_id))

  module _ (info : DeviceInfo) where
    unfoldable pub pre_pair : ℕ → P Next
    pre_pair lockdown = do
      err ← check_pairing lockdown
      if is_success err
          then (do
            session_err ← start_session lockdown
            if is_success session_err
                then note (told device_added info) >> pure (to_leave (some lockdown))
                else after_failure lockdown session_err)
          else (do
            is_known ← has_device_record
            when is_known (remove_device_record >> pure tt)
            after_failure lockdown err)

    -- From `retry` to the end of the switch
    unfoldable pub open_session : P Next
    open_session = do
      client ← client_new phone
      elim client [
        | none ↦ pure (to_leave none)
        | some lockdown ↦ do
          type ← ask phone.query_type (type_asked lockdown)
          elim type [
            | none ↦ pure (to_leave (some lockdown))
            | some name ↦
                if bytes_eq name (codes "com.apple.mobile.lockdown")
                then pre_pair lockdown
                else note (told device_added info) >> pure (to_leave (some lockdown))
          ]
      ]

-- The text of a plist, if it is a string
unfoldable pub version_text : (host : Host) → Option host.Plist → Option (List ℕ)
version_text host none = none
version_text host (some value) =
    if is_string (host.plist_get_node_type value) then host.plist_get_string_val value else none

-- The text of `ProductVersion`, if the device has one
unfoldable pub product_version : (host : Host) → Phone host.Plist → ℕ → P (Option (List ℕ))
product_version host phone lockdown = do
  (err, value) ←
      ask (λ t. phone.get_value t none "ProductVersion")
        (λ _. value_asked lockdown "ProductVersion")
  pure (if is_success err then version_text host value else none)
