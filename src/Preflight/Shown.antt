-- ===== src/Preflight/Shown.antt =====
-- preflight.cpp: a device is reported as there only for a reason that stands in the calls before.
pub mod Steps
pub mod Justified
use usbmuxd_plugable_usb_msv.Prelude.{
  ℕ, ◌≡◌, ◌⊎◌, Bool, true, false, not, ◌&&◌, ◌||◌, List, [], ◌∷◌, Option, none, some, if◌then◌else◌,
}
use usbmuxd_plugable_usb_msv.Client.Plist.{bytes_eq}
use usbmuxd_plugable_usb_msv.Client.Reply.{codes}
use usbmuxd_plugable_usb_msv.Preflight.{
  Call, is_success, device_added, told, type_asked, session_started, paired, event_set, Worker, Run,
  done, fault, exhausted, P, ◌>>=◌, pure,
}

-- The device is in another mode than the usual one, a session started, the device paired, or
-- `np_callback` or the loop set the event `is_paired_signal`.
unfoldable pub is_reason : Call → Bool
is_reason (type_asked l (some name)) = not (bytes_eq name (codes "com.apple.mobile.lockdown"))
is_reason (session_started l id err) = is_success err
is_reason (paired l err) = is_success err
is_reason event_set = true
is_reason _ = false

unfoldable pub has_reason : List Call → Bool
has_reason [] = false
has_reason (c ∷ calls) = is_reason c || has_reason calls

-- Each report that the device is there has a reason before it.
unfoldable pub is_justified : List Call → Bool
is_justified [] = true
is_justified (told device_added info ∷ calls) = has_reason calls && is_justified calls
is_justified (_ ∷ calls) = is_justified calls

-- So far each report has its reason, and the event is set only for a reason.
abbrev pub Right : Worker → Type 0
Right s = (is_justified s.calls ≡ true) × ((s.cb.is_paired ≡ false) ⊎ (has_reason s.calls ≡ true))

-- A step from which the worker comes out right, where it ends.
abbrev pub Safe : {A : Type 0} → Run A → Type 0
Safe (done a t) = Right t
Safe fault = Unit
Safe exhausted = Unit

abbrev pub Keeps : {A : Type 0} → P A → Type 0
Keeps m = (s : Worker) → Right s → Safe (m s)

pub Keeps-bind :
    {A B : Type 0} (m : P A) (f : A → P B) → Keeps m → ((a : A) → Keeps (f a)) → Keeps (m >>= f)
Keeps-bind {A} {B} m f h k s r = go (m s) (h s r)
  where
    go :
        (o : Run A)
        → Safe o
        → Safe (elim o as (λ _. Run B) [ done a t ↦ f a t | fault ↦ fault | exhausted ↦ exhausted ])
    go (done a t) q = k a t q
    go fault q = tt
    go exhausted q = tt

pub Keeps-if : {A : Type 0} (b : Bool) (m k : P A) → Keeps m → Keeps k → Keeps (if b then m else k)
Keeps-if true m k p q = p
Keeps-if false m k p q = q
