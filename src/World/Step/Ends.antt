-- ===== src/World/Step/Ends.antt =====
-- What holds where a step of the world ends: it does not run out of fuel, and unless it is a fault
-- its result and the world it leaves satisfy the condition.
use usbmuxd_plugable_usb_msv.World.{World}
use usbmuxd_plugable_usb_msv.Prelude.{ℕ, Option, none, some, Bool, true, false, if◌then◌else◌}
use usbmuxd_plugable_usb_msv.World.Step.{
  Outcome, done, fault, exhausted, M, ◌>>=◌, pure, require, load_conn, load_device, load_client,
  when,
}

abbrev pub Ends : {A : Type 0} → (A → World → Type 0) → Outcome A → Type 0
Ends P (done a w) = P a w
Ends P fault = Unit
Ends P exhausted = ⊥

pub Ends-bind :
    {A B : Type 0} (P : A → World → Type 0) (Q : B → World → Type 0) (m : M A) (f : A → M B)
    (w : World)
    → Ends P (m w)
    → ((a : A) (v : World) → P a v → Ends Q (f a v))
    → Ends Q ((m >>= f) w)
Ends-bind {A} {B} P Q m f w h k = go (m w) h
  where
    go :
        (o : Outcome A)
        → Ends P o
        → Ends Q (elim o as (λ _. Outcome B) [
          | done a v ↦ f a v
          | fault ↦ fault
          | exhausted ↦ exhausted
        ])
    go (done a v) p = k a v p
    go fault p = tt
    go exhausted p = p

-- That a step ends, with nothing said of where.
pub weaken :
    {A : Type 0} (P : A → World → Type 0) (o : Outcome A) → Ends P o → Ends (λ _ v. Unit {0}) o
weaken P (done a w) p = tt
weaken P fault p = tt
weaken P exhausted p = p

pub Ends-map :
    {A : Type 0} (P Q : A → World → Type 0) (o : Outcome A)
    → ((a : A) (v : World) → P a v → Q a v)
    → Ends P o
    → Ends Q o
Ends-map P Q (done a v) f p = f a v p
Ends-map P Q fault f p = tt
Ends-map P Q exhausted f p = p

-- A step that ends from every world.
abbrev pub Halts : {A : Type 0} → M A → Type 0
Halts m = (w : World) → Ends (λ _ _. Unit {0}) (m w)

pub Halts-bind :
    {A B : Type 0} (m : M A) (f : A → M B) → Halts m → ((a : A) → Halts (f a)) → Halts (m >>= f)
Halts-bind m f h k w = Ends-bind (λ _ _. Unit {0}) (λ _ _. Unit {0}) m f w (h w) (λ a v _. k a v)

pub Halts-if : {A : Type 0} (b : Bool) (m k : M A) → Halts m → Halts k → Halts (if b then m else k)
Halts-if true m k p q = p
Halts-if false m k p q = q

pub Halts-pure : {A : Type 0} (a : A) → Halts (pure a)
Halts-pure a w = tt

pub Halts-require : {A : Type 0} (o : Option A) → Halts (require o)
Halts-require none w = tt
Halts-require (some a) w = tt

pub Halts-load_conn : (p : ℕ) → Halts (load_conn p)
Halts-load_conn p w = Halts-require (w.conns p) w

pub Halts-load_device : (p : ℕ) → Halts (load_device p)
Halts-load_device p w = Halts-require (w.devices p) w

pub Halts-load_client : (p : ℕ) → Halts (load_client p)
Halts-load_client p w = Halts-require (w.clients p) w

pub Halts-when : (b : Bool) (m : M (Unit {0})) → Halts m → Halts (when b m)
Halts-when true m h = h
Halts-when false m h = Halts-pure tt

pub Halts-option :
    {A B : Type 0} (o : Option A) (m : M B) (k : A → M B)
    → Halts m
    → ((a : A) → Halts (k a))
    → Halts (elim o as (λ _. M B) [ none ↦ m | some a ↦ k a ])
Halts-option none m k p q = p
Halts-option (some a) m k p q = q a
