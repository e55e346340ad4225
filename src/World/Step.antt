-- ===== src/World/Step.antt =====
-- Steps on the world: what a C function does, with its faults, as a state monad.
pub mod Ends
pub mod Reads
use usbmuxd_plugable_usb_msv.Prelude.{
  ℕ, ◌∷◌, Option, none, some, suc, ◌≡◌, ◌⊎◌, inl, inr, refl, Bool, true, false,
}
use usbmuxd_plugable_usb_msv.World.{World, MuxConnection, MuxDevice, MuxClient, Event, update}

-- `fault`: a null dereference, a use of freed or uninitialised memory, a read past the data.
-- `exhausted`: the fuel of a loop or of a recursion ran out, which theorems rule out.
pub data Outcome (A : Type 0) : Type 0 where
  done : A → World → Outcome A
  fault : Outcome A
  exhausted : Outcome A

pub Outcome-cases :
    {A : Type 0} (o : Outcome A)
    → ((a : A) × (w : World) × (o ≡ done a w)) ⊎ ((o ≡ fault) ⊎ (o ≡ exhausted))
Outcome-cases (done a w) = inl (a, w, refl)
Outcome-cases fault = inr (inl refl)
Outcome-cases exhausted = inr (inr refl)

abbrev pub M : Type 0 → Type 0
M A = World → Outcome A

abbrev pub pure : {A : Type 0} → A → M A
pure a w = done a w

infixl 5 ◌>>=◌ ◌>>◌
abbrev pub ◌>>=◌ : {A B : Type 0} → M A → (A → M B) → M B
◌>>=◌ m f w = elim (m w) [ done a v ↦ f a v | fault ↦ fault | exhausted ↦ exhausted ]

abbrev pub ◌>>◌ : {A B : Type 0} → M A → M B → M B
m >> k = m >>= λ _. k

-- A value that must be there: the pointer is not null, the memory is initialised.
abbrev pub require : {A : Type 0} → Option A → M A
require none w = fault
require (some a) w = done a w

abbrev pub when : Bool → M (Unit {0}) → M (Unit {0})
when true m = m
when false m = pure tt

abbrev pub get_world : M World
get_world w = done w w

abbrev pub emit : Event → M (Unit {0})
emit e w = done tt (record w { trace = e ∷ w.trace })

-- `malloc`: a fresh address. That memory runs out is not modelled, as the code does not test it.
abbrev pub fresh_address : M ℕ
fresh_address w = done w.next_address (record w { next_address = suc w.next_address })

abbrev pub load_conn : ℕ → M MuxConnection
load_conn p w = require (w.conns p) w

abbrev pub load_device : ℕ → M MuxDevice
load_device p w = require (w.devices p) w

abbrev pub load_client : ℕ → M MuxClient
load_client p w = require (w.clients p) w

-- Writes go through a pointer that the same function has just read.
abbrev pub put_conn : ℕ → MuxConnection → M (Unit {0})
put_conn p c w = done tt (record w { conns = update w.conns p (some c) })

abbrev pub put_device : ℕ → MuxDevice → M (Unit {0})
put_device p d w = done tt (record w { devices = update w.devices p (some d) })

abbrev pub put_client : ℕ → MuxClient → M (Unit {0})
put_client p c w = done tt (record w { clients = update w.clients p (some c) })

-- `free`: of an address that holds nothing it is a double free.
abbrev pub free_conn : ℕ → M (Unit {0})
free_conn p = load_conn p >> λ w. done tt (record w { conns = update w.conns p none })

abbrev pub free_device : ℕ → M (Unit {0})
free_device p = load_device p >> λ w. done tt (record w { devices = update w.devices p none })

abbrev pub free_client : ℕ → M (Unit {0})
free_client p = load_client p >> λ w. done tt (record w { clients = update w.clients p none })
