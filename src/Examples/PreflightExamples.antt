-- ===== src/Examples/PreflightExamples.antt =====
-- A phone with iOS 8.1 that is not paired and whose user does not answer, at which the theorems on
-- preflight.cpp are applied.
use usbmuxd_plugable_usb_msv.Prelude.{
  ℕ, ◌≤◌, ◌≡◌, refl, subst, true, false, List, [], ◌∷◌, none, some, arith, leb, ◌==◌, if◌then◌else◌,
  pos, length,
}
use usbmuxd_plugable_usb_msv.World.{DeviceInfo}
use usbmuxd_plugable_usb_msv.World.Host.{Host, plist_string}
use usbmuxd_plugable_usb_msv.Client.Reply.{codes}
use usbmuxd_plugable_usb_msv.Preflight.{
  lockdown_success, password_protected, other_error, Call, removed, Phone, Run, done, Report,
  finished, device_added, trust_pending, notification_came, open_client, client_new, client_free,
  set_monitoring, at_least,
}
use usbmuxd_plugable_usb_msv.Preflight.Session.{
  after_dot, has_device_record, remove_device_record, start_session, after_failure, check_pairing,
  pre_pair, open_session, version_text, product_version,
}
use usbmuxd_plugable_usb_msv.Preflight.DeviceAdd.{
  by_version, until_leave, preflight_worker_handle_device_add,
}
use usbmuxd_plugable_usb_msv.Preflight.Polling.{
  cancel_monitoring, wait_a_second, after_poll, ask_again, wait_and_ask, poll, wait_for_user,
}
use usbmuxd_plugable_usb_msv.Preflight.Trust.{
  is_before_7_1, after_first_pair, start_watch, observe, stop_watch, conclude, watch,
  wait_for_trust, ask_for_trust, trust,
}
use usbmuxd_plugable_usb_msv.Preflight.Callback.{
  request_pair, preflight_device_remove_cb, signal_is_paired, lockdownd_set_untrusted_host_buid,
  pair_on_request, np_callback, arrive, arrive_all, serve,
}
use usbmuxd_plugable_usb_msv.Client.Plist.{bytes_eq}
use usbmuxd_plugable_usb_msv.Preflight.Account.{reports, open_clients, waits, Post}
use usbmuxd_plugable_usb_msv.Preflight.Account.Quiet.{takes_away}
use usbmuxd_plugable_usb_msv.Preflight.DeviceAdd.Verdict.{
  IsVerdict, new_worker, preflight_worker-IsVerdict,
}
use usbmuxd_plugable_usb_msv.Preflight.Shown.{is_justified}
use usbmuxd_plugable_usb_msv.Preflight.Shown.Justified.{preflight_worker_justified}
use usbmuxd_plugable_usb_msv.Examples.{calm_host}

abbrev string_host : Host
string_host = record calm_host { plist_get_node_type = λ p. plist_string }

-- The device waits for the passcode; after two seconds it is unplugged.
abbrev locked_phone : Phone (List ℕ)
locked_phone = record {
  client_new = λ t. lockdown_success;
  query_type = λ t. some (codes "com.apple.mobile.lockdown");
  validate_pair_force_store = λ t. other_error;
  validate_pair = λ t. other_error;
  start_session = λ t id. other_error;
  get_value = λ t domain key. (lockdown_success, some (codes "8.1"));
  pair = λ t client. password_protected;
  start_service = λ t. lockdown_success;
  np_client_new = λ t. true;
  strtol = λ text. if leb 3 (length text) then pos 8 else pos 1;
  create_event = λ t. true;
  wait_fails = λ t. false;
  has_local_config = λ t. false;
  has_device_record = λ t. false;
  remove_device_record = λ t. false;
  host_id = λ t. none;
  system_buid = λ t. codes "ABC";
  set_device_monitoring = λ t location monitor. pos 0;
  arrivals = λ t. if leb 2 (waits t) then removed ∷ [] else [];
}

abbrev phone_info : DeviceInfo
phone_info = record { id = 1; serial = codes "S"; location = 3; pid = 0x12a8 }

locked_phone_dotted :
    (t : List Call) (v text : List ℕ)
    → (locked_phone.get_value t none "ProductVersion").1 ≡ some v
    → string_host.plist_get_string_val v ≡ some text
    → (rest : List ℕ) × (after_dot text ≡ some rest)
unfolding after_dot
locked_phone_dotted t v text e f =
    let same : codes "8.1" ≡ text = ground (arith, e, f) in
    (codes "1", subst (λ x. after_dot x ≡ some (codes "1")) same refl)

locked_phone_leaves : (t : List Call) → 2 ≤ waits t → takes_away (locked_phone.arrivals t) ≡ true
unfolding takes_away
locked_phone_leaves t h = ground (arith, h)

preflight_worker-IsVerdict_example :
    Post
      (λ _ t. (open_clients t.calls ≡ []) × IsVerdict (reports t.calls))
      (preflight_worker_handle_device_add string_host locked_phone phone_info 1 3 new_worker)
preflight_worker-IsVerdict_example =
    preflight_worker-IsVerdict string_host locked_phone phone_info locked_phone_dotted 2
      locked_phone_leaves 0 (λ t e. ground (arith, e)) 1 3 (omega arith) (omega arith)

abbrev reports_of : Run (Unit {0}) → List Report
reports_of (done a t) = reports t.calls
reports_of _ = []

-- The worker tells that trust is pending, and is finished when the device is gone.
locked_phone_reports :
    reports_of
      (preflight_worker_handle_device_add string_host locked_phone phone_info 1 3 new_worker)
    ≡ finished ∷ trust_pending ∷ []
unfolding preflight_worker_handle_device_add until_leave by_version open_session pre_pair
    check_pairing has_device_record start_session after_failure remove_device_record product_version
    version_text after_dot trust ask_for_trust after_first_pair is_before_7_1 wait_for_trust
    start_watch observe watch stop_watch conclude cancel_monitoring wait_for_user poll wait_and_ask
    wait_a_second ask_again after_poll serve arrive_all arrive np_callback pair_on_request
    signal_is_paired preflight_device_remove_cb lockdownd_set_untrusted_host_buid client_new
    open_client client_free set_monitoring at_least reports waits bytes_eq
locked_phone_reports = refl

-- The user answers the dialog, but the pairing that follows fails.
abbrev failing_phone : Phone (List ℕ)
failing_phone = record locked_phone {
  arrivals = λ t. if waits t == 1 then notification_came request_pair ∷ [] else [];
}

-- The device is reported as there all the same.
failing_phone_reports :
    reports_of
      (preflight_worker_handle_device_add string_host failing_phone phone_info 1 3 new_worker)
    ≡ finished ∷ device_added ∷ trust_pending ∷ []
unfolding preflight_worker_handle_device_add until_leave by_version open_session pre_pair
    check_pairing has_device_record start_session after_failure remove_device_record product_version
    version_text after_dot trust ask_for_trust after_first_pair is_before_7_1 wait_for_trust
    start_watch observe watch stop_watch conclude cancel_monitoring wait_for_user poll wait_and_ask
    wait_a_second ask_again after_poll serve arrive_all arrive np_callback pair_on_request
    signal_is_paired preflight_device_remove_cb lockdownd_set_untrusted_host_buid client_new
    open_client client_free set_monitoring at_least reports waits bytes_eq
failing_phone_reports = refl

preflight_worker_justified_example :
    Post
      (λ _ t. is_justified t.calls ≡ true)
      (preflight_worker_handle_device_add string_host locked_phone phone_info 1 3 new_worker)
preflight_worker_justified_example =
    preflight_worker_justified string_host locked_phone phone_info locked_phone_dotted 2
      locked_phone_leaves 0 (λ t e. ground (arith, e)) 1 3 (omega arith) (omega arith)
