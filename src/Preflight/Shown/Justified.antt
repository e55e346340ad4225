-- ===== src/Preflight/Shown/Justified.antt =====
-- preflight.cpp: the worker as a whole reports a device as there only for a reason.
use usbmuxd_plugable_usb_msv.Prelude.{
  ℕ, zero, suc, Bool, true, false, List, Option, none, some, if◌then◌else◌, arith, ℤ, ◌≡◌, refl,
  inl, ◌≤◌, ◌<◌,
}
use usbmuxd_plugable_usb_msv.World.{DeviceInfo}
use usbmuxd_plugable_usb_msv.World.Host.{Host}
use usbmuxd_plugable_usb_msv.Preflight.{
  LockdownError, Call, Phone, P, pure, note, ◌>>=◌, ◌>>◌, require, client_free, set_monitoring,
  at_least, told, finished, cb_data_set, Run, done, fault, exhausted, Worker,
}
use usbmuxd_plugable_usb_msv.Preflight.Callback.{lockdownd_set_untrusted_host_buid, serve}
use usbmuxd_plugable_usb_msv.Preflight.Session.{
  Next, to_leave, retry, go_on, start_session, open_session, product_version, after_dot,
}
use usbmuxd_plugable_usb_msv.Preflight.Polling.{
  cancel_monitoring, wait_for_user, lockdown_recreation_attempts,
}
use usbmuxd_plugable_usb_msv.Preflight.Trust.{
  itunes_setup_has_completed, after_first_pair, start_watch, observe, stop_watch, conclude, watch,
  wait_for_trust, ask_for_trust, trust,
}
use usbmuxd_plugable_usb_msv.Preflight.DeviceAdd.{
  pair_early, by_version, until_leave, preflight_worker_handle_device_add,
}
use usbmuxd_plugable_usb_msv.Preflight.DeviceAdd.Verdict.{new_worker, preflight_worker-IsVerdict}
use usbmuxd_plugable_usb_msv.Preflight.Account.{Post, waits, removals}
use usbmuxd_plugable_usb_msv.Preflight.Account.Quiet.{takes_away}
use usbmuxd_plugable_usb_msv.Preflight.Shown.{
  is_reason, has_reason, is_justified, Right, Safe, Keeps, Keeps-bind, Keeps-if,
}
use usbmuxd_plugable_usb_msv.Preflight.Shown.Steps.{
  serve-Keeps, open_session-Keeps, wait_for_user-Keeps,
}

client_free-Keeps : (l : Option ℕ) → Keeps (client_free l)
unfolding client_free is_reason has_reason is_justified
client_free-Keeps none s r = r
client_free-Keeps (some l) s r = r

module _ (host : Host) (phone : Phone host.Plist) (info : DeviceInfo) where
  start_watch-Keeps : (l : ℕ) (err : LockdownError) → Keeps (start_watch host phone info l err)
  unfolding start_watch cancel_monitoring set_monitoring is_reason has_reason is_justified
  start_watch-Keeps l err s r = ground (arith, r)

  observe-Keeps : (np : Bool) (major : ℤ) → Keeps (observe host phone info np major)
  unfolding observe is_reason has_reason is_justified
  observe-Keeps np major s r = ground (arith, r)

  stop_watch-Keeps : (l : Option ℕ) → Keeps (stop_watch host phone info l)
  unfolding stop_watch is_reason has_reason is_justified
  stop_watch-Keeps l = Keeps-bind (client_free l) _ (client_free-Keeps l) λ _.
      Keeps-bind (note (cb_data_set info.id false)) (λ _. serve phone) (λ s r. r)
        (λ _. serve-Keeps phone)

  conclude-Keeps : (major : ℤ) → Keeps (conclude host phone info major)
  unfolding conclude cancel_monitoring set_monitoring is_reason has_reason is_justified
  conclude-Keeps major s r = ground (arith, r)

  watch-Keeps :
      (rounds l : ℕ) (major : ℤ) (np : Bool) → Keeps (watch host phone info rounds l major np)
  unfolding watch
  watch-Keeps rounds l major np =
      Keeps-bind (observe host phone info np major) _ (observe-Keeps np major) λ _.
        Keeps-bind
          (wait_for_user host phone info rounds major lockdown_recreation_attempts (some l)) _
          (wait_for_user-Keeps host phone info rounds major lockdown_recreation_attempts (some l))
          λ client.
            Keeps-bind (stop_watch host phone info client) (λ _. conclude host phone info major)
              (stop_watch-Keeps client) (λ _. conclude-Keeps major)

  wait_for_trust-Keeps :
      (rounds l : ℕ) (err : LockdownError) (major : ℤ)
      → Keeps (wait_for_trust host phone info rounds l err major)
  unfolding wait_for_trust
  wait_for_trust-Keeps rounds l err major =
      Keeps-bind (start_watch host phone info l err) _ (start_watch-Keeps l err) started
    where
      started :
          (np : Option Bool)
          → Keeps (elim np as (λ _. P (Option ℕ)) [
            | none ↦ pure (some l)
            | some there ↦ watch host phone info rounds l major there >> pure none
          ])
      started none = λ s r. r
      started (some there) =
          Keeps-bind (watch host phone info rounds l major there) (λ _. pure none)
            (watch-Keeps rounds l major there) (λ _ s r. r)

  ask_for_trust-Keeps :
      (l : ℕ) (is_device_paired : Bool) (major minor : ℤ)
      → Keeps (ask_for_trust host phone info l is_device_paired major minor)
  unfolding ask_for_trust after_first_pair itunes_setup_has_completed
      lockdownd_set_untrusted_host_buid set_monitoring is_reason has_reason is_justified
  ask_for_trust-Keeps l is_device_paired major minor s r = ground (arith, r)

  trust-Keeps :
      (rounds l : ℕ) (is_device_paired : Bool) (major minor : ℤ)
      → Keeps (trust host phone info rounds l is_device_paired major minor)
  unfolding trust
  trust-Keeps rounds l is_device_paired major minor =
      Keeps-bind (ask_for_trust host phone info l is_device_paired major minor) go
        (ask_for_trust-Keeps l is_device_paired major minor) asked
    where
      go : Option (Bool × LockdownError) → P (Option ℕ)
      go none = pure (some l)
      go (some (should_stop, err)) =
          if should_stop then pure (some l) else wait_for_trust host phone info rounds l err major

      asked : (a : Option (Bool × LockdownError)) → Keeps (go a)
      asked none = λ s r. r
      asked (some (should_stop, err)) =
          Keeps-if should_stop (pure (some l)) (wait_for_trust host phone info rounds l err major)
            (λ s r. r) (wait_for_trust-Keeps rounds l err major)

  pair_early-Keeps : (l : ℕ) → Keeps (pair_early host phone info l)
  unfolding pair_early start_session is_reason has_reason is_justified
  pair_early-Keeps l s r = ground (arith, r)

  product_version-Keeps : (l : ℕ) → Keeps (product_version host phone l)
  unfolding product_version is_reason has_reason is_justified
  product_version-Keeps l s r = r

  by_version-Keeps :
      (rounds l : ℕ) (is_device_paired : Bool)
      → Keeps (by_version host phone info rounds l is_device_paired)
  unfolding by_version
  by_version-Keeps rounds l is_device_paired =
      Keeps-bind (product_version host phone l) go (product_version-Keeps l) version
    where
      by_text : List ℕ → List ℕ → P (Option ℕ)
      by_text text minor_text =
          if at_least 7 (phone.strtol text)
          then trust host phone info rounds l is_device_paired (phone.strtol text)
              (phone.strtol minor_text)
          else pair_early host phone info l

      go : Option (List ℕ) → P (Option ℕ)
      go none = pure (some l)
      go (some text) = require (after_dot text) >>= by_text text

      required : (o : Option (List ℕ)) → Keeps (require o)
      required none = λ s r. tt
      required (some text) = λ s r. r

      version : (v : Option (List ℕ)) → Keeps (go v)
      version none = λ s r. r
      version (some text) =
          Keeps-bind (require (after_dot text)) (by_text text) (required (after_dot text))
            λ minor_text.
              Keeps-if (at_least 7 (phone.strtol text)) _ (pair_early host phone info l)
                (trust-Keeps rounds l is_device_paired (phone.strtol text)
                  (phone.strtol minor_text))
                (pair_early-Keeps l)

  until_leave-Keeps : (passes rounds : ℕ) → Keeps (until_leave host phone info passes rounds)
  unfolding until_leave
  until_leave-Keeps zero rounds = λ s r. tt
  until_leave-Keeps (suc passes) rounds =
      Keeps-bind (open_session phone info) _ (open_session-Keeps phone info)
        λ next. goes next (until_leave-Keeps passes rounds)
    where
      goes :
          (next : Next)
          → Keeps (until_leave host phone info passes rounds)
          → Keeps (elim next as (λ _. P (Option ℕ)) [
            | to_leave lockdown ↦ pure lockdown
            | retry ↦ until_leave host phone info passes rounds
            | go_on lockdown is_device_paired ↦
                by_version host phone info rounds lockdown is_device_paired
          ])
      goes (to_leave lockdown) k = λ s r. r
      goes retry k = k
      goes (go_on lockdown is_device_paired) k = by_version-Keeps rounds lockdown is_device_paired

  worker-Keeps :
      (passes rounds : ℕ) → Keeps (preflight_worker_handle_device_add host phone info passes rounds)
  unfolding preflight_worker_handle_device_add is_reason has_reason is_justified
  worker-Keeps passes rounds =
      Keeps-bind (until_leave host phone info passes rounds) _ (until_leave-Keeps passes rounds)
        λ l.
          Keeps-bind (client_free l) (λ _. note (told finished info)) (client_free-Keeps l)
            (λ _ s r. r)

  new_worker-Right : Right new_worker
  unfolding is_justified
  new_worker-Right = (refl, inl refl)

  Safe-justified :
      (Q : Unit {0} → Worker → Type 0) (r : Run (Unit {0}))
      → Post Q r
      → Safe r
      → Post (λ _ t. is_justified t.calls ≡ true) r
  Safe-justified Q (done a t) q safe = safe.0
  Safe-justified Q fault q safe = q
  Safe-justified Q exhausted q safe = q

  -- If each version of a device has a dot, pairing records are removed at most `limit` times and the
  -- device is gone after `polls` rounds of the wait, the worker ends, and in its calls each report
  -- that the device is there comes after a reason: the device said that it is in another mode than
  -- the usual one, a session was started, a pairing succeeded, or the event `is_paired_signal` was
  -- set.
  pub preflight_worker_justified :
      ((t : List Call) (v : host.Plist) (text : List ℕ)
        → (phone.get_value t none "ProductVersion").1 ≡ some v
        → host.plist_get_string_val v ≡ some text
        → (rest : List ℕ) × (after_dot text ≡ some rest))
      → (polls : ℕ) → ((t : List Call) → polls ≤ waits t → takes_away (phone.arrivals t) ≡ true)
      → (limit : ℕ) → ((t : List Call) → phone.remove_device_record t ≡ true → removals t < limit)
      → (passes rounds : ℕ) → limit < passes
      → polls < rounds
      → Post
          (λ _ t. is_justified t.calls ≡ true)
          (preflight_worker_handle_device_add host phone info passes rounds new_worker)
  preflight_worker_justified dotted polls leaves limit kept passes rounds more enough =
      Safe-justified _ (preflight_worker_handle_device_add host phone info passes rounds new_worker)
        (preflight_worker-IsVerdict host phone info dotted polls leaves limit kept passes rounds
          more enough)
        (worker-Keeps passes rounds new_worker new_worker-Right)
