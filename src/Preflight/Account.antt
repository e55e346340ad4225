-- ===== src/Preflight/Account.antt =====
-- preflight.cpp: what can be read off the calls of a worker, and what holds where a step of it ends.
pub mod Quiet
pub mod Opening
pub mod Waiting
pub mod Trusting
use usbmuxd_plugable_usb_msv.Prelude.{
  ℕ, zero, suc, ◌≡◌, refl, sym, ◌∙◌, Bool, true, false, List, [], ◌∷◌, Option, none, some, ◌==◌,
  if◌then◌else◌, arith,
}
use usbmuxd_plugable_usb_msv.Preflight.{
  Report, Call, told, lockdown_opened, lockdown_freed, record_removed, waited, Worker, Run, done,
  fault, exhausted, P, ◌>>=◌,
}

-- The reports, newest first.
unfoldable pub reports : List Call → List Report
reports [] = []
reports (told r info ∷ cs) = r ∷ reports cs
reports (_ ∷ cs) = reports cs

unfoldable pub delete : ℕ → List ℕ → List ℕ
delete l [] = []
delete l (k ∷ ks) = if l == k then ks else k ∷ delete l ks

-- The lockdown clients that were opened and not freed.
unfoldable pub open_clients : List Call → List ℕ
open_clients [] = []
open_clients (lockdown_opened l ∷ cs) = l ∷ open_clients cs
open_clients (lockdown_freed l ∷ cs) = delete l (open_clients cs)
open_clients (_ ∷ cs) = open_clients cs

-- How often a pairing record was removed.
unfoldable pub removals : List Call → ℕ
removals [] = 0
removals (record_removed true ∷ cs) = suc (removals cs)
removals (_ ∷ cs) = removals cs

-- How many rounds the worker has waited.
unfoldable pub waits : List Call → ℕ
waits [] = 0
waits (waited ∷ cs) = suc (waits cs)
waits (_ ∷ cs) = waits cs

-- A step ends, follows no null pointer, and its result and the worker satisfy the condition.
abbrev pub Post : {A : Type 0} → (A → Worker → Type 0) → Run A → Type 0
Post Q (done a t) = Q a t
Post Q fault = ⊥
Post Q exhausted = ⊥

pub Post-bind :
    {A B : Type 0} (Q : A → Worker → Type 0) (R : B → Worker → Type 0) (m : P A) (f : A → P B)
    (s : Worker)
    → Post Q (m s)
    → ((a : A) (t : Worker) → Q a t → Post R (f a t))
    → Post R ((m >>= f) s)
Post-bind {A} {B} Q R m f s h k = go (m s) h
  where
    go :
        (r : Run A)
        → Post Q r
        → Post R
            (elim r as (λ _. Run B) [ done a t ↦ f a t | fault ↦ fault | exhausted ↦ exhausted ])
    go (done a t) q = k a t q
    go fault q = q
    go exhausted q = q

pub Post-map :
    {A : Type 0} (Q R : A → Worker → Type 0) (r : Run A)
    → ((a : A) (t : Worker) → Q a t → R a t)
    → Post Q r
    → Post R r
Post-map Q R (done a t) f q = f a t q
Post-map Q R fault f q = q
Post-map Q R exhausted f q = q
