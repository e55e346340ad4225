-- ===== src/Preflight/Account/Trusting.antt =====
-- preflight.cpp: what the worker reports of a device of iOS 7 or later.
use usbmuxd_plugable_usb_msv.Prelude.{
  ℕ, ◌<◌, ◌≤◌, ◌≡◌, ◌∙◌, ◌⊎◌, inr, Bool, true, false, List, ◌∷◌, Option, none, some, arith, ℤ,
  if◌then◌else◌,
}
use usbmuxd_plugable_usb_msv.World.{DeviceInfo}
use usbmuxd_plugable_usb_msv.World.Host.{Host}
use usbmuxd_plugable_usb_msv.Preflight.{
  LockdownError, Report, device_added, user_denied, password_needed, trust_pending, Phone, Worker,
  Call, P, client_free, set_monitoring, ◌>>=◌, ◌>>◌, pure, cb_data_set, note,
}
use usbmuxd_plugable_usb_msv.Preflight.Callback.{lockdownd_set_untrusted_host_buid, serve}
use usbmuxd_plugable_usb_msv.Preflight.Polling.{
  cancel_monitoring, lockdown_recreation_attempts, wait_for_user,
}
use usbmuxd_plugable_usb_msv.Preflight.Trust.{
  itunes_setup_has_completed, after_first_pair, start_watch, observe, stop_watch, conclude, watch,
  wait_for_trust, ask_for_trust, trust,
}
use usbmuxd_plugable_usb_msv.Preflight.Account.{
  reports, delete, open_clients, removals, waits, Post, Post-bind, Post-map,
}
use usbmuxd_plugable_usb_msv.Preflight.Account.Quiet.{takes_away, Quiet, Served, serve-Served}
use usbmuxd_plugable_usb_msv.Preflight.Account.Waiting.{held, Denied, wait_for_user-Denied}

-- The reports that follow `before` before the last one, newest first.
abbrev pub Early : List Report → List Report → Type 0
Early before now =
    (now ≡ before)
    ⊎ ((now ≡ device_added ∷ before)
        ⊎ ((now ≡ user_denied ∷ before) ⊎ (now ≡ password_needed ∷ before)))

abbrev pub Late : List Report → List Report → Type 0
Late before now =
    (now ≡ trust_pending ∷ before)
    ⊎ ((now ≡ user_denied ∷ trust_pending ∷ before)
        ⊎ ((now ≡ device_added ∷ trust_pending ∷ before)
            ⊎ (now ≡ device_added ∷ user_denied ∷ trust_pending ∷ before)))

abbrev pub Verdict : List Report → List Report → Type 0
Verdict before now = Early before now ⊎ Late before now

module _ (host : Host) (phone : Phone host.Plist) (info : DeviceInfo) where
  -- Perhaps the device is added.
  abbrev Added : Worker → Worker → Type 0
  Added s t =
      (reports t.calls ≡ reports s.calls) ⊎ (reports t.calls ≡ device_added ∷ reports s.calls)

  conclude-Added :
      (major : ℤ) (s : Worker)
      → Post
          (λ _ t. Added s t × (open_clients t.calls ≡ open_clients s.calls))
          (conclude host phone info major s)
  unfolding conclude cancel_monitoring set_monitoring reports open_clients
  conclude-Added major s = ground arith

  observe-Quiet :
      (np : Bool) (major : ℤ) (s : Worker)
      → Post (λ _ t. Quiet s t) (observe host phone info np major s)
  unfolding observe reports open_clients removals waits
  observe-Quiet np major s = ground arith

  -- Only the other clients are open.
  abbrev Freed : List ℕ → Worker → Unit {0} → Worker → Type 0
  Freed others s _ t = (open_clients t.calls ≡ others) × (reports t.calls ≡ reports s.calls)

  client_free-Freed :
      (l : Option ℕ) (others : List ℕ) (s : Worker)
      → open_clients s.calls ≡ held l others
      → Post (Freed others s) (client_free l s)
  unfolding client_free open_clients reports delete
  client_free-Freed none others s h = ground (arith, h)
  client_free-Freed (some l) others s h = ground (arith, h)

  stop_watch-Freed :
      (l : Option ℕ) (others : List ℕ) (s : Worker)
      → open_clients s.calls ≡ held l others
      → Post (Freed others s) (stop_watch host phone info l s)
  unfolding stop_watch reports open_clients
  stop_watch-Freed l others s h =
      Post-bind (Freed others s) (Freed others s) (client_free l)
        (λ _. note (cb_data_set info.id false) >> serve phone) s (client_free-Freed l others s h)
        λ _ t k.
          let v = record t { calls = cb_data_set info.id false ∷ t.calls } in
          Post-map (λ _ u. Served (takes_away (phone.arrivals v.calls)) v u) (Freed others s)
            (serve phone v) (λ _ u q. ground (arith, k, q)) (serve-Served phone v)

  -- Whether the wait begins, with the reports so far.
  abbrev Started : Worker → Option Bool → Worker → Type 0
  Started s none t =
      (open_clients t.calls ≡ open_clients s.calls)
      × (Early (reports s.calls) (reports t.calls)
          ⊎ (reports t.calls ≡ trust_pending ∷ reports s.calls))
  Started s (some np) t =
      (open_clients t.calls ≡ open_clients s.calls)
      × (reports t.calls ≡ trust_pending ∷ reports s.calls)

  start_watch-Started :
      (l : ℕ) (err : LockdownError) (s : Worker)
      → Post (λ np t. Started s np t) (start_watch host phone info l err s)
  unfolding start_watch cancel_monitoring set_monitoring reports open_clients
  start_watch-Started l err s = ground arith

  -- Whether the preflight stops before the wait, with the reports so far.
  abbrev Asked : Worker → Option (Bool × LockdownError) → Worker → Type 0
  Asked s none t =
      (open_clients t.calls ≡ open_clients s.calls) × (reports t.calls ≡ reports s.calls)
  Asked s (some (should_stop, err)) t =
      (open_clients t.calls ≡ open_clients s.calls)
      × Early (reports s.calls) (reports t.calls)
      × ((should_stop ≡ true) ⊎ (reports t.calls ≡ reports s.calls))

  ask_for_trust-Asked :
      (l : ℕ) (is_device_paired : Bool) (major minor : ℤ) (s : Worker)
      → Post
          (λ asked t. Asked s asked t)
          (ask_for_trust host phone info l is_device_paired major minor s)
  unfolding ask_for_trust after_first_pair itunes_setup_has_completed
      lockdownd_set_untrusted_host_buid set_monitoring reports open_clients
  ask_for_trust-Asked l is_device_paired major minor s = ground arith

  module _ (polls : ℕ)
      (leaves : (t : List Call) → polls ≤ waits t → takes_away (phone.arrivals t) ≡ true) where
    watch-Late :
        (rounds l : ℕ) (major : ℤ) (np : Bool) (s : Worker) (others : List ℕ) (before : List Report)
        → polls < rounds
        → open_clients s.calls ≡ l ∷ others
        → reports s.calls ≡ trust_pending ∷ before
        → Post
            (λ _ t. (open_clients t.calls ≡ others) × Late before (reports t.calls))
            (watch host phone info rounds l major np s)
    unfolding watch
    watch-Late rounds l major np s others before enough h k =
        Post-bind (λ _ t. Quiet s t) Q (observe host phone info np major)
          (λ _.
            wait_for_user host phone info rounds major lockdown_recreation_attempts (some l)
            >>= λ client. stop_watch host phone info client >> conclude host phone info major)
          s (observe-Quiet np major s)
          λ _ t q.
            Post-bind (λ c v. (open_clients v.calls ≡ held c others) × Denied t v) Q
              (wait_for_user host phone info rounds major lockdown_recreation_attempts (some l))
              (λ client. stop_watch host phone info client >> conclude host phone info major) t
              (wait_for_user-Denied host phone info polls leaves rounds others major
                lockdown_recreation_attempts (some l) t (ground (arith, q, h))
                (ground (arith, enough)) (ground (arith, enough)))
              λ client v d.
                Post-bind (Freed others v) Q (stop_watch host phone info client)
                  (λ _. conclude host phone info major) v (stop_watch-Freed client others v d.0)
                  λ _ w f.
                    Post-map (λ _ x. Added w x × (open_clients x.calls ≡ open_clients w.calls)) Q
                      (conclude host phone info major w) (λ _ x a. ground (arith, k, q, d, f, a))
                      (conclude-Added major w)
      where
        Q : Unit {0} → Worker → Type 0
        Q _ t = (open_clients t.calls ≡ others) × Late before (reports t.calls)

    -- The end of a part of the worker that began at `s` with these clients open besides `l`
    abbrev Left : List ℕ → Worker → Option ℕ → Worker → Type 0
    Left others s k t =
        (open_clients t.calls ≡ held k others) × Verdict (reports s.calls) (reports t.calls)

    wait_for_trust-Left :
        (rounds l : ℕ) (err : LockdownError) (major : ℤ) (s : Worker) (others : List ℕ)
        → polls < rounds
        → open_clients s.calls ≡ l ∷ others
        → Post (λ k t. Left others s k t) (wait_for_trust host phone info rounds l err major s)
    unfolding wait_for_trust
    wait_for_trust-Left rounds l err major s others enough h =
        Post-bind (λ np t. Started s np t) (λ k t. Left others s k t)
          (start_watch host phone info l err)
          (λ started. elim started [
            | none ↦ pure (some l)
            | some np ↦ watch host phone info rounds l major np >> pure none
          ])
          s (start_watch-Started l err s) rest
      where
        rest :
            (started : Option Bool) (t : Worker)
            → Started s started t
            → Post
                (λ k v. Left others s k v)
                (elim started as (λ _. P (Option ℕ)) [
                  | none ↦ pure (some l)
                  | some np ↦ watch host phone info rounds l major np >> pure none
                ]
                  t)
        rest none t k = ground (arith, h, k)
        rest (some np) t k =
            Post-bind
              (λ _ v. (open_clients v.calls ≡ others) × Late (reports s.calls) (reports v.calls))
              (λ c v. Left others s c v) (watch host phone info rounds l major np) (λ _. pure none)
              t (watch-Late rounds l major np t others (reports s.calls) enough (k.0 ∙ h) k.1)
              λ _ v q. (q.0, inr q.1)

    pub trust-Left :
        (rounds l : ℕ) (is_device_paired : Bool) (major minor : ℤ) (s : Worker) (others : List ℕ)
        → polls < rounds
        → open_clients s.calls ≡ l ∷ others
        → Post
            (λ k t. Left others s k t)
            (trust host phone info rounds l is_device_paired major minor s)
    unfolding trust
    trust-Left rounds l is_device_paired major minor s others enough h =
        Post-bind (λ asked t. Asked s asked t) (λ k t. Left others s k t)
          (ask_for_trust host phone info l is_device_paired major minor) go_on s
          (ask_for_trust-Asked l is_device_paired major minor s) rest
      where
        go_on : Option (Bool × LockdownError) → P (Option ℕ)
        go_on none = pure (some l)
        go_on (some (should_stop, err)) =
            if should_stop then pure (some l) else wait_for_trust host phone info rounds l err major

        rest :
            (asked : Option (Bool × LockdownError)) (t : Worker)
            → Asked s asked t
            → Post (λ k v. Left others s k v) (go_on asked t)
        rest none t k = ground (arith, h, k)
        rest (some (true, err)) t k = ground (arith, h, k)
        rest (some (false, err)) t k =
            Post-map (λ c v. Left others t c v) (λ c v. Left others s c v)
              (wait_for_trust host phone info rounds l err major t) (λ c v q. ground (arith, k, q))
              (wait_for_trust-Left rounds l err major t others enough (k.0 ∙ h))
