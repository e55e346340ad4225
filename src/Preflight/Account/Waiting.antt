-- ===== src/Preflight/Account/Waiting.antt =====
-- preflight.cpp: the accounts of the wait for the user, and that the wait ends.
use usbmuxd_plugable_usb_msv.Prelude.{
  ℕ, zero, suc, ◌+◌, ◌<◌, ◌≤◌, ◌≡◌, ◌∙◌, ◌⊎◌, inl, inr, Bool, true, false, not, ◌&&◌, ◌||◌, List,
  ◌∷◌, Option, none, some, arith, ℤ, is_neg, Bool-cases,
}
use usbmuxd_plugable_usb_msv.World.{DeviceInfo}
use usbmuxd_plugable_usb_msv.World.Host.{Host}
use usbmuxd_plugable_usb_msv.Preflight.{
  LockdownError, user_denied_pairing, mux_error, user_denied, paired, waited, P, Phone, Worker,
  Call, CbData, client_new, open_client, client_free, set_monitoring, note, get_cb, pure, at_least,
  ◌>>=◌, ◌>>◌, if◌then◌else◌,
}
use usbmuxd_plugable_usb_msv.Preflight.Callback.{serve, signal_is_paired}
use usbmuxd_plugable_usb_msv.Preflight.Polling.{
  PollStep, stop, again, cancel_monitoring, wait_a_second, after_poll, ask_again, wait_and_ask,
  poll, wait_for_user,
}
use usbmuxd_plugable_usb_msv.Preflight.Account.{
  reports, delete, open_clients, waits, Post, Post-bind, Post-map,
}
use usbmuxd_plugable_usb_msv.Preflight.Account.Quiet.{takes_away, Served, serve-Served}

-- The clients open when the variable `lockdown` holds this and `others` are open besides.
abbrev pub held : Option ℕ → List ℕ → List ℕ
held none others = others
held (some l) others = l ∷ others

-- The reports are those before, or one more.
abbrev pub Denied : Worker → Worker → Type 0
Denied s t = (reports t.calls ≡ reports s.calls) ⊎ (reports t.calls ≡ user_denied ∷ reports s.calls)

module _ (host : Host) (phone : Phone host.Plist) (info : DeviceInfo) where
  -- A round that began at `s`, by its end
  abbrev Polled : List ℕ → Worker → PollStep → Worker → Type 0
  Polled others s (stop l) t = (open_clients t.calls ≡ held l others) × Denied s t
  Polled others s (again attempts l) t =
      (open_clients t.calls ≡ held l others)
      × (reports t.calls ≡ reports s.calls)
      × (waits t.calls ≡ suc (waits s.calls))
      × (takes_away (phone.arrivals s.calls) ≡ false)

  -- A second went by.
  abbrev Passed : Worker → Worker → Type 0
  Passed s t =
      (reports t.calls ≡ reports s.calls)
      × (open_clients t.calls ≡ open_clients s.calls)
      × (waits t.calls ≡ suc (waits s.calls))

  wait_a_second-Passed :
      (major : ℤ) (s : Worker) → Post (λ _ t. Passed s t) (wait_a_second host phone info major s)
  unfolding wait_a_second reports open_clients waits
  wait_a_second-Passed major s =
      Post-bind (λ _ t. Passed s t) (λ _ t. Passed s t) (note waited >> serve phone)
        (λ _. get_cb >>= λ cb v.
          pure (at_least 8 major && (cb.is_paired || phone.wait_fails v.calls)) v)
        s
        (Post-map
          (λ _ t.
            Served (takes_away (phone.arrivals (waited ∷ s.calls)))
              (record s { calls = waited ∷ s.calls }) t)
          (λ _ t. Passed s t) _ (λ _ t h. ground (arith, h))
          (serve-Served phone (record s { calls = waited ∷ s.calls })))
        (λ _ t h. h)

  -- What the answer of the device to a poll made of the round, from the answer on
  abbrev Answered : List ℕ → Worker → PollStep → Worker → Type 0
  Answered others s (stop l) t = (open_clients t.calls ≡ held l others) × Denied s t
  Answered others s (again attempts l) t =
      (open_clients t.calls ≡ held l others)
      × (reports t.calls ≡ reports s.calls)
      × (waits t.calls ≡ waits s.calls)

  after_poll-Answered :
      (others : List ℕ) (attempts : ℤ) (l : Option ℕ) (err : LockdownError) (s : Worker)
      → open_clients s.calls ≡ held l others
      → Post (λ round t. Answered others s round t) (after_poll host phone info attempts l err s)
  unfolding after_poll signal_is_paired cancel_monitoring set_monitoring client_new open_client
      client_free reports open_clients waits delete
  after_poll-Answered others attempts none user_denied_pairing s h = ground (arith, h)
  after_poll-Answered others attempts none _ s h = ground (arith, h)
  after_poll-Answered others attempts (some l) user_denied_pairing s h = ground (arith, h)
  after_poll-Answered others attempts (some l) mux_error s h = ground (arith, h)
  after_poll-Answered others attempts (some l) _ s h = ground (arith, h)

  ask_again-Answered :
      (others : List ℕ) (attempts : ℤ) (l : Option ℕ) (s : Worker)
      → open_clients s.calls ≡ held l others
      → Post (λ round t. Answered others s round t) (ask_again host phone info attempts l s)
  unfolding ask_again reports open_clients waits
  ask_again-Answered others attempts l s h =
      after_poll-Answered others attempts l (phone.pair s.calls l)
        (record s { calls = paired l (phone.pair s.calls l) ∷ s.calls }) h

  -- The end of a round that has passed the loop test at `s`
  abbrev Rounded : List ℕ → Worker → PollStep → Worker → Type 0
  Rounded others s (stop l) t = (open_clients t.calls ≡ held l others) × Denied s t
  Rounded others s (again attempts l) t =
      (open_clients t.calls ≡ held l others)
      × (reports t.calls ≡ reports s.calls)
      × (waits t.calls ≡ suc (waits s.calls))

  Passed-Rounded :
      (others : List ℕ) (s t v : Worker) (round : PollStep)
      → Passed s t
      → Answered others t round v
      → Rounded others s round v
  Passed-Rounded others s t v (stop l) h k = ground (arith, h, k)
  Passed-Rounded others s t v (again attempts l) h k = ground (arith, h, k)

  wait_and_ask-Rounded :
      (others : List ℕ) (major attempts : ℤ) (l : Option ℕ) (s : Worker)
      → open_clients s.calls ≡ held l others
      → Post (λ round t. Rounded others s round t) (wait_and_ask host phone info major attempts l s)
  unfolding wait_and_ask
  wait_and_ask-Rounded others major attempts l s h =
      Post-bind (λ _ t. Passed s t) (λ round t. Rounded others s round t)
        (wait_a_second host phone info major)
        (λ is_over. if is_over then pure (stop l) else ask_again host phone info attempts l) s
        (wait_a_second-Passed major s) λ is_over t k. over is_over t k
    where
      over :
          (is_over : Bool) (t : Worker)
          → Passed s t
          → Post
              (λ round v. Rounded others s round v)
              ((if is_over then pure (stop l) else ask_again host phone info attempts l) t)
      over true t k = ground (arith, h, k)
      over false t k =
          Post-map (λ round v. Answered others t round v) (λ round v. Rounded others s round v)
            (ask_again host phone info attempts l t)
            (λ round v a. Passed-Rounded others s t v round k a)
            (ask_again-Answered others attempts l t (k.1 ∙ h))

  Served-Polled :
      (others : List ℕ) (s t v : Worker) (round : PollStep)
      → Served (takes_away (phone.arrivals s.calls)) s t
      → t.cb.is_device_connected ≡ true
      → Rounded others t round v
      → Polled others s round v
  Served-Polled others s t v (stop l) h c k = ground (arith, h, k)
  Served-Polled others s t v (again attempts l) h c k = ground (arith, h, c, k)

  poll-Polled :
      (others : List ℕ) (major attempts : ℤ) (l : Option ℕ) (s : Worker)
      → open_clients s.calls ≡ held l others
      → Post (λ round t. Polled others s round t) (poll host phone info major attempts l s)
  unfolding poll
  poll-Polled others major attempts l s h =
      Post-bind (λ _ t. Served (takes_away (phone.arrivals s.calls)) s t)
        (λ round t. Polled others s round t) (serve phone) (λ _. get_cb >>= λ cb. test cb) s
        (serve-Served phone s) λ _ t k. tested t k (Bool-cases (is_waiting t.cb))
    where
      is_waiting : CbData → Bool
      is_waiting cb = cb.np && cb.is_device_connected && not cb.is_paired && not (is_neg attempts)

      test : CbData → P PollStep
      test cb =
          if is_waiting cb then wait_and_ask host phone info major attempts l else pure (stop l)

      tested :
          (t : Worker)
          → Served (takes_away (phone.arrivals s.calls)) s t
          → (is_waiting t.cb ≡ true) ⊎ (is_waiting t.cb ≡ false)
          → Post (λ round v. Polled others s round v) (test t.cb t)
      tested t k (inl is_on) = rw is_on (
          Post-map (λ round v. Rounded others t round v) (λ round v. Polled others s round v)
            (wait_and_ask host phone info major attempts l t)
            (λ round v a. Served-Polled others s t v round k (ground (arith, is_on)) a)
            (wait_and_ask-Rounded others major attempts l t (k.0.1 ∙ h)))
      tested t k (inr no_more) = rw no_more (ground (arith, h, k))

  module _ (polls : ℕ)
      (leaves : (t : List Call) → polls ≤ waits t → takes_away (phone.arrivals t) ≡ true) where
    -- If the device is removed after so many rounds, the loop ends within one more.
    pub wait_for_user-Denied :
        (rounds : ℕ) (others : List ℕ) (major attempts : ℤ) (l : Option ℕ) (s : Worker)
        → open_clients s.calls ≡ held l others
        → polls < rounds + waits s.calls
        → 0 < rounds
        → Post
            (λ k t. (open_clients t.calls ≡ held k others) × Denied s t)
            (wait_for_user host phone info rounds major attempts l s)
    unfolding wait_for_user
    wait_for_user-Denied zero others major attempts l s h enough some_left = omega arith
    wait_for_user-Denied (suc rounds) others major attempts l s h enough some_left =
        Post-bind (λ round t. Polled others s round t)
          (λ k t. (open_clients t.calls ≡ held k others) × Denied s t)
          (poll host phone info major attempts l)
          (λ round. elim round [
            | stop client ↦ pure client
            | again left client ↦ wait_for_user host phone info rounds major left client
          ])
          s (poll-Polled others major attempts l s h)
          λ round t k.
            rest round t k λ left client e. wait_for_user-Denied rounds others major left client t e
      where
        rest :
            (round : PollStep) (t : Worker)
            → Polled others s round t
            → ((left : ℤ) (client : Option ℕ)
                → open_clients t.calls ≡ held client others
                → polls < rounds + waits t.calls
                → 0 < rounds
                → Post
                    (λ k v. (open_clients v.calls ≡ held k others) × Denied t v)
                    (wait_for_user host phone info rounds major left client t))
            → Post
                (λ k v. (open_clients v.calls ≡ held k others) × Denied s v)
                (elim round as (λ _. P (Option ℕ)) [
                  | stop client ↦ pure client
                  | again left client ↦ wait_for_user host phone info rounds major left client
                ]
                  t)
        rest (stop client) t k go = k
        rest (again left client) t k go =
            Post-map (λ c v. (open_clients v.calls ≡ held c others) × Denied t v)
              (λ c v. (open_clients v.calls ≡ held c others) × Denied s v)
              (wait_for_user host phone info rounds major left client t)
              (λ c v a. ground (arith, a, k))
              (go left client k.0 (ground (arith, k, enough, leaves s.calls))
                (ground (arith, k, enough, leaves s.calls)))
