-- ===== src/World/Step/Reads.antt =====
-- Steps that only read the world.
use usbmuxd_plugable_usb_msv.Prelude.{ℕ, ◌≡◌, refl, ◌∙◌, Option, none, some}
use usbmuxd_plugable_usb_msv.World.{World}
use usbmuxd_plugable_usb_msv.World.Step.{
  M, ◌>>=◌, pure, require, load_conn, load_device, load_client,
}
use usbmuxd_plugable_usb_msv.World.Step.Ends.{Ends, Ends-bind, Ends-map}

abbrev pub Reads : {A : Type 0} → M A → Type 0
Reads m = (w : World) → Ends (λ _ v. v ≡ w) (m w)

pub Reads-bind :
    {A B : Type 0} (m : M A) (f : A → M B) → Reads m → ((a : A) → Reads (f a)) → Reads (m >>= f)
Reads-bind m f h k w =
    Ends-bind (λ _ v. v ≡ w) (λ _ v. v ≡ w) m f w (h w)
      (λ a v e. Ends-map (λ _ u. u ≡ v) (λ _ u. u ≡ w) (f a v) (λ _ u d. d ∙ e) (k a v))

pub Reads-pure : {A : Type 0} (a : A) → Reads (pure a)
Reads-pure a w = refl

pub Reads-require : {A : Type 0} (o : Option A) → Reads (require o)
Reads-require none w = tt
Reads-require (some a) w = refl

pub Reads-load_conn : (p : ℕ) → Reads (load_conn p)
Reads-load_conn p w = Reads-require (w.conns p) w

pub Reads-load_device : (p : ℕ) → Reads (load_device p)
Reads-load_device p w = Reads-require (w.devices p) w

pub Reads-load_client : (p : ℕ) → Reads (load_client p)
Reads-load_client p w = Reads-require (w.clients p) w
