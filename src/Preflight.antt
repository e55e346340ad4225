-- ===== src/Preflight.antt =====
-- preflight.cpp: the worker that talks to the lockdown service of a new device, in a thread of its
-- own: its state, what it calls, and what other threads do meanwhile.
pub mod Callback
pub mod Session
pub mod Polling
pub mod Trust
pub mod DeviceAdd
pub mod Account
pub mod Shown
use usbmuxd_plugable_usb_msv.Prelude.{
  ℕ, suc, Bool, true, false, List, [], ◌∷◌, Option, none, some, if◌then◌else◌, ℤ, pos, negsuc,
  is_neg, not, leb,
}
use usbmuxd_plugable_usb_msv.World.{DeviceInfo}
use usbmuxd_plugable_usb_msv.Usb.{MonitorState}
use Prim.Native.String.{String}

-- `lockdownd_error_t`, as far as the worker tells the values apart
pub data LockdownError : Type 0 where
  lockdown_success invalid_host_id ssl_error user_denied_pairing : LockdownError
  password_protected mux_error other_error : LockdownError

abbrev pub is_success : LockdownError → Bool
is_success lockdown_success = true
is_success _ = false

abbrev pub is_password_protected : LockdownError → Bool
is_password_protected password_protected = true
is_password_protected _ = false

-- What the worker reports: `client_device_add`, `client_device_user_denied_pairing`,
-- `client_device_password_protected`, `client_device_trust_pending`, `device_preflight_finished`.
pub data Report : Type 0 where
  device_added user_denied password_needed trust_pending finished : Report

-- The calls of the worker and of its callbacks, with the answers that matter later. A client of the
-- lockdown service is known by the number of clients opened before it.
pub data Call : Type 0 where
  told : Report → DeviceInfo → Call
  lockdown_opened : ℕ → Call
  lockdown_refused : Call
  lockdown_freed : ℕ → Call
  type_asked : ℕ → Option (List ℕ) → Call
  pair_validated : ℕ → LockdownError → Call
  session_started : ℕ → Option (List ℕ) → LockdownError → Call
  value_asked : ℕ → String → Call
  value_set : ℕ → String → List ℕ → Call
  paired : Option ℕ → LockdownError → Call
  service_started : ℕ → LockdownError → Call
  proxy_opened : Bool → Call
  proxy_freed : Call
  callback_set : Bool → Call
  notifications_observed : Call
  cb_data_set : ℕ → Bool → Call
  config_asked : Call
  record_removed : Bool → Call
  monitoring_asked : ℕ → MonitorState → Call
  event_created : Bool → Call
  event_set event_closed : Call
  waited : Call

-- What other threads do to the worker: a notification of the device arrives, or the device is
-- removed, upon which device.cpp calls `preflight_device_remove_cb`.
pub data Arrival : Type 0 where
  notification_came : List ℕ → Arrival
  removed : Arrival

-- libimobiledevice, Windows, and the functions of other files that other threads use as well. An
-- answer may depend on the calls before.
pub record Phone (Plist : Type 0) : Type 0 where
  -- `lockdownd_client_new`, `lockdownd_query_type`, `lockdownd_validate_pair_force_store`,
  -- `lockdownd_validate_pair`, `lockdownd_start_session`, `lockdownd_get_value`, `lockdownd_pair`,
  -- `lockdownd_start_service`
  pub client_new : List Call → LockdownError
  pub query_type : List Call → Option (List ℕ)
  pub validate_pair_force_store : List Call → LockdownError
  pub validate_pair : List Call → LockdownError
  pub start_session : List Call → Option (List ℕ) → LockdownError
  pub get_value : List Call → Option String → String → LockdownError × Option Plist
  pub pair : List Call → Option ℕ → LockdownError
  pub start_service : List Call → LockdownError
  -- `np_client_new`, whether it gives a client
  pub np_client_new : List Call → Bool
  -- `strtol` with base 10
  pub strtol : List ℕ → ℤ
  -- `CreateEvent`, and whether `WaitForSingleObject` fails
  pub create_event : List Call → Bool
  pub wait_fails : List Call → Bool
  -- conf.cpp: `config_has_local_config`, `config_has_device_record`, whether
  -- `config_remove_device_record` returns 0, `config_device_record_get_host_id`,
  -- `config_get_system_buid`
  pub has_local_config : List Call → Bool
  pub has_device_record : List Call → Bool
  pub remove_device_record : List Call → Bool
  pub host_id : List Call → Option (List ℕ)
  pub system_buid : List Call → List ℕ
  -- `usb_set_device_monitoring`
  pub set_device_monitoring : List Call → ℕ → MonitorState → ℤ
  -- What other threads have done since the last time.
  pub arrivals : List Call → List Arrival

-- `struct cb_data`: whether `np` is there, and whether the event `is_paired_signal` is set
pub record CbData : Type 0 where
  pub np : Bool
  pub version_major : ℤ
  pub is_device_connected : Bool
  pub is_paired : Bool

-- The worker: the calls made, newest first, its `cbdata`, and how many lockdown clients it has
-- opened.
pub record Worker : Type 0 where
  pub calls : List Call
  pub cb : CbData
  pub clients : ℕ

-- `fault`: a null pointer is followed. `exhausted`: the rounds given to a loop ran out.
pub data Run (A : Type 0) : Type 0 where
  done : A → Worker → Run A
  fault : Run A
  exhausted : Run A

abbrev pub P : Type 0 → Type 0
P A = Worker → Run A

abbrev pub pure : {A : Type 0} → A → P A
pure a s = done a s

infixl 5 ◌>>=◌ ◌>>◌
abbrev pub ◌>>=◌ : {A B : Type 0} → P A → (A → P B) → P B
◌>>=◌ m f s = elim (m s) [ done a t ↦ f a t | fault ↦ fault | exhausted ↦ exhausted ]

abbrev pub ◌>>◌ : {A B : Type 0} → P A → P B → P B
m >> k = m >>= λ _. k

abbrev pub when : Bool → P (Unit {0}) → P (Unit {0})
when true m = m
when false m = pure tt

abbrev pub require : {A : Type 0} → Option A → P A
require none s = fault
require (some a) s = done a s

abbrev pub stuck : {A : Type 0} → P A
stuck s = exhausted

abbrev pub note : Call → P (Unit {0})
note c s = done tt (record s { calls = c ∷ s.calls })

-- The answer to a call, which is recorded with the call.
abbrev pub ask : {A : Type 0} → (List Call → A) → (A → Call) → P A
ask answer as_call s =
    done (answer s.calls) (record s { calls = as_call (answer s.calls) ∷ s.calls })

abbrev pub get_cb : P CbData
get_cb s = done s.cb s

abbrev pub set_cb : CbData → P (Unit {0})
set_cb cb s = done tt (record s { cb = cb })

-- `a <= b` for an `int` and a count
unfoldable pub at_least : ℕ → ℤ → Bool
at_least n (pos m) = leb n m
at_least n (negsuc m) = false

-- What becomes of the variable `lockdown` that `lockdownd_client_new` is to fill: on an error it
-- stays null.
unfoldable pub open_client : LockdownError → P (Option ℕ)
open_client lockdown_success s =
    done (some s.clients)
      (record s { calls = lockdown_opened s.clients ∷ s.calls; clients = suc s.clients })
open_client _ s = done none (record s { calls = lockdown_refused ∷ s.calls })

module _ {Plist : Type 0} (phone : Phone Plist) where
  -- `lockdownd_client_new`
  unfoldable pub client_new : P (Option ℕ)
  client_new s = open_client (phone.client_new s.calls) s

  -- `usb_set_device_monitoring`: whether it succeeds
  unfoldable pub set_monitoring : ℕ → MonitorState → P Bool
  set_monitoring location monitor =
      ask (λ t. not (is_neg (phone.set_device_monitoring t location monitor)))
        (λ _. monitoring_asked location monitor)

-- `lockdownd_client_free`, which does nothing to a client that is null
unfoldable pub client_free : Option ℕ → P (Unit {0})
client_free none = pure tt
client_free (some l) = note (lockdown_freed l)
