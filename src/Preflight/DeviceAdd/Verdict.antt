-- ===== src/Preflight/DeviceAdd/Verdict.antt =====
-- preflight.cpp: what the worker reports in the end, and that it ends.
use usbmuxd_plugable_usb_msv.Prelude.{
  ℕ, zero, suc, ◌+◌, ◌<◌, ◌≤◌, ◌≡◌, refl, ◌∙◌, ◌⊎◌, inl, inr, Bool, true, false, List, [], ◌∷◌,
  Option, none, some, arith, if◌then◌else◌, Bool-cases, ℤ,
}
use usbmuxd_plugable_usb_msv.World.{DeviceInfo}
use usbmuxd_plugable_usb_msv.World.Host.{Host}
use usbmuxd_plugable_usb_msv.Preflight.{
  LockdownError, is_success, Report, finished, device_added, user_denied, password_needed,
  trust_pending, Phone, Worker, Call, P, client_free, ◌>>=◌, ◌>>◌, pure, require, at_least, note,
  told,
}
use usbmuxd_plugable_usb_msv.Preflight.Session.{
  Next, to_leave, retry, go_on, after_dot, start_session, open_session, product_version,
  version_text, is_string,
}
use usbmuxd_plugable_usb_msv.Preflight.Trust.{trust}
use usbmuxd_plugable_usb_msv.Preflight.DeviceAdd.{
  pair_early, by_version, until_leave, preflight_worker_handle_device_add,
}
use usbmuxd_plugable_usb_msv.Preflight.Account.{
  reports, delete, open_clients, removals, waits, Post, Post-bind, Post-map,
}
use usbmuxd_plugable_usb_msv.Preflight.Account.Quiet.{takes_away, Quiet}
use usbmuxd_plugable_usb_msv.Preflight.Account.Opening.{Opened, open_session-Opened, before_removal}
use usbmuxd_plugable_usb_msv.Preflight.Account.Waiting.{held}
use usbmuxd_plugable_usb_msv.Preflight.Account.Trusting.{Verdict, trust-Left}

-- A worker as its thread starts.
abbrev pub new_worker : Worker
new_worker = record {
  calls = [];
  cb = record {
    np = false;
    version_major = ℤ.pos 0;
    is_device_connected = false;
    is_paired = false;
  };
  clients = 0;
}

-- Where the worker is at `leave`: only the client in `lockdown` is open besides `others`.
abbrev Left : List ℕ → Worker → Option ℕ → Worker → Type 0
Left others s k t =
    (open_clients t.calls ≡ held k others) × Verdict (reports s.calls) (reports t.calls)

-- A text, if there is one, has a dot.
abbrev Dotted : Option (List ℕ) → Type 0
Dotted none = Unit
Dotted (some text) = (rest : List ℕ) × (after_dot text ≡ some rest)

-- What a worker may have reported, newest first.
abbrev pub IsVerdict : List Report → Type 0
IsVerdict now =
    (now ≡ finished ∷ [])
    ⊎ ((now ≡ finished ∷ device_added ∷ [])
        ⊎ ((now ≡ finished ∷ user_denied ∷ [])
            ⊎ ((now ≡ finished ∷ password_needed ∷ [])
                ⊎ ((now ≡ finished ∷ trust_pending ∷ [])
                    ⊎ ((now ≡ finished ∷ user_denied ∷ trust_pending ∷ [])
                        ⊎ ((now ≡ finished ∷ device_added ∷ trust_pending ∷ [])
                            ⊎ (now
                                ≡ finished ∷ device_added ∷ user_denied ∷ trust_pending ∷ [])))))))

abbrev Ended : Unit {0} → Worker → Type 0
Ended _ t = (open_clients t.calls ≡ []) × IsVerdict (reports t.calls)

module _ (host : Host) (phone : Phone host.Plist) (info : DeviceInfo) where
  pair_early-Left :
      (l : ℕ) (s : Worker) (others : List ℕ)
      → open_clients s.calls ≡ l ∷ others
      → Post (λ k t. Left others s k t) (pair_early host phone info l s)
  unfolding pair_early start_session reports open_clients
  pair_early-Left l s others h = ground (arith, h)

  module _
      (dotted : (t : List Call) (v : host.Plist) (text : List ℕ)
        → (phone.get_value t none "ProductVersion").1 ≡ some v
        → host.plist_get_string_val v ≡ some text
        → Dotted (some text)) where
    version_text-Dotted :
        (t : List Call) (err : LockdownError) (value : Option host.Plist)
        → (phone.get_value t none "ProductVersion").1 ≡ value
        → Dotted (if is_success err then version_text host value else none)
    unfolding version_text
    version_text-Dotted t err none e = nothing (is_success err)
      where
        nothing : (success : Bool) → Dotted (if success then none else none)
        nothing true = tt
        nothing false = tt
    version_text-Dotted t err (some v) e =
        text (is_success err) (is_string (host.plist_get_node_type v)) (host.plist_get_string_val v)
          refl
      where
        text :
            (success string : Bool) (o : Option (List ℕ))
            → host.plist_get_string_val v ≡ o
            → Dotted (if success then (if string then o else none) else none)
        text false string o h = tt
        text true false o h = tt
        text true true none h = tt
        text true true (some bytes) h = dotted t v bytes e h

    product_version-Dotted :
        (l : ℕ) (s : Worker)
        → Post (λ version t. Quiet s t × Dotted version) (product_version host phone l s)
    unfolding product_version reports open_clients removals waits
    product_version-Dotted l s =
        let (err, value) = phone.get_value s.calls none "ProductVersion" in
        ((refl, refl, refl, refl), version_text-Dotted s.calls err value refl)

    module _ (polls : ℕ)
        (leaves : (t : List Call) → polls ≤ waits t → takes_away (phone.arrivals t) ≡ true) where
      by_version-Left :
          (rounds l : ℕ) (is_device_paired : Bool) (s : Worker) (others : List ℕ)
          → polls < rounds
          → open_clients s.calls ≡ l ∷ others
          → Post (λ k t. Left others s k t) (by_version host phone info rounds l is_device_paired s)
      unfolding by_version
      by_version-Left rounds l is_device_paired s others enough h =
          Post-bind (λ version t. Quiet s t × Dotted version) (λ k t. Left others s k t)
            (product_version host phone l) after s (product_version-Dotted l s) rest
        where
          by_text : List ℕ → List ℕ → P (Option ℕ)
          by_text text minor_text =
              if at_least 7 (phone.strtol text)
              then trust host phone info rounds l is_device_paired (phone.strtol text)
                  (phone.strtol minor_text)
              else pair_early host phone info l

          after : Option (List ℕ) → P (Option ℕ)
          after none = pure (some l)
          after (some text) = require (after_dot text) >>= by_text text

          with_minor :
              (text minor_text : List ℕ) (t : Worker)
              → Quiet s t
              → (at_least 7 (phone.strtol text) ≡ true) ⊎ (at_least 7 (phone.strtol text) ≡ false)
              → Post (λ k v. Left others s k v) (by_text text minor_text t)
          with_minor text minor_text t q (inl late) = rw late (
              Post-map (λ k v. Left others t k v) (λ k v. Left others s k v)
                (trust host phone info rounds l is_device_paired (phone.strtol text)
                  (phone.strtol minor_text) t)
                (λ k v a. ground (arith, q, a))
                (trust-Left host phone info polls leaves rounds l is_device_paired
                  (phone.strtol text) (phone.strtol minor_text) t others enough (q.1 ∙ h)))
          with_minor text minor_text t q (inr early) = rw early (
              Post-map (λ k v. Left others t k v) (λ k v. Left others s k v)
                (pair_early host phone info l t) (λ k v a. ground (arith, q, a))
                (pair_early-Left l t others (q.1 ∙ h)))

          rest :
              (version : Option (List ℕ)) (t : Worker)
              → Quiet s t × Dotted version
              → Post (λ k v. Left others s k v) (after version t)
          rest none t q = ground (arith, h, q.0)
          rest (some text) t (q, (minor_text, e)) =
              rw e (with_minor text minor_text t q (Bool-cases (at_least 7 (phone.strtol text))))

      module _ (limit : ℕ)
          (kept : (t : List Call) → phone.remove_device_record t ≡ true → removals t < limit) where
        until_leave-Left :
            (passes rounds : ℕ) (s : Worker) (others : List ℕ)
            → limit < passes + removals s.calls
            → 0 < passes
            → polls < rounds
            → open_clients s.calls ≡ others
            → Post (λ k t. Left others s k t) (until_leave host phone info passes rounds s)
        unfolding until_leave
        until_leave-Left zero rounds s others more some_left enough h = omega arith
        until_leave-Left (suc passes) rounds s others more some_left enough h =
            Post-bind (λ next t. Opened phone s next t) (λ k t. Left others s k t)
              (open_session phone info)
              (λ next. elim next [
                | to_leave lockdown ↦ pure lockdown
                | retry ↦ until_leave host phone info passes rounds
                | go_on lockdown is_device_paired ↦
                    by_version host phone info rounds lockdown is_device_paired
              ])
              s (open_session-Opened phone info s)
              λ next t k.
                rest next t k λ a b c. until_leave-Left passes rounds t others a b enough c
          where
            rest :
                (next : Next) (t : Worker)
                → Opened phone s next t
                → (limit < passes + removals t.calls
                    → 0 < passes
                    → open_clients t.calls ≡ others
                    → Post (λ k v. Left others t k v) (until_leave host phone info passes rounds t))
                → Post
                    (λ k v. Left others s k v)
                    (elim next as (λ _. P (Option ℕ)) [
                      | to_leave lockdown ↦ pure lockdown
                      | retry ↦ until_leave host phone info passes rounds
                      | go_on lockdown is_device_paired ↦
                          by_version host phone info rounds lockdown is_device_paired
                    ]
                      t)
            rest (to_leave none) t k go = ground (arith, h, k)
            rest (to_leave (some l)) t k go = ground (arith, h, k)
            rest retry t k go =
                let below = kept (before_removal t.calls) k.4 in
                Post-map (λ c v. Left others t c v) (λ c v. Left others s c v)
                  (until_leave host phone info passes rounds t) (λ c v a. ground (arith, k, a))
                  (go (ground (arith, k, below, more)) (ground (arith, k, below, more))
                    (ground (arith, k, h)))
            rest (go_on l is_device_paired) t k go =
                Post-map (λ c v. Left others t c v) (λ c v. Left others s c v)
                  (by_version host phone info rounds l is_device_paired t)
                  (λ c v a. ground (arith, k, a))
                  (by_version-Left rounds l is_device_paired t others enough (ground (arith, k, h)))

        -- The worker ends and follows no null pointer, if each version of a device has a dot,
        -- pairing records are removed at most `limit` times and the device is gone after `polls`
        -- rounds of the wait, however the device answers. It then has told device.cpp that it is
        -- finished, once and last; before, it told the clients at most one of: the device is there,
        -- the user has denied the pairing, a password is needed, the trust of the user is pending;
        -- after the last of these perhaps also that the user has denied, that the device is there,
        -- or the one and then the other. Every lockdown client it opened is freed.
        pub preflight_worker-IsVerdict :
            (passes rounds : ℕ)
            → limit < passes
            → polls < rounds
            → Post
                (λ _ t. (open_clients t.calls ≡ []) × IsVerdict (reports t.calls))
                (preflight_worker_handle_device_add host phone info passes rounds new_worker)
        unfolding preflight_worker_handle_device_add client_free reports open_clients delete
            removals
        preflight_worker-IsVerdict passes rounds more enough =
            Post-bind (λ k t. Left [] new_worker k t) Ended
              (until_leave host phone info passes rounds)
              (λ k. client_free k >> note (told finished info)) new_worker
              (until_leave-Left passes rounds new_worker [] (ground (arith, more))
                (ground (arith, more)) enough refl)
              last
          where
            last :
                (k : Option ℕ) (t : Worker)
                → Left [] new_worker k t
                → Post Ended ((client_free k >> note (told finished info)) t)
            last none t h = ground (arith, h)
            last (some l) t h = ground (arith, h)
