-- ===== src/Usb/Descriptors/Walk.antt =====
-- usb-mce.cpp: the walk over the bytes of a configuration ends, and finds what a search over the
-- descriptors finds.
use usbmuxd_plugable_usb_msv.Prelude.{
  ℕ, zero, suc, ◌<◌, ◌≡◌, ◌≢◌, inl, inr, refl, sym, ap, ◌∙◌, List, [], ◌∷◌, ◌++◌, Bool, false, ◌&&◌,
  ◌||◌, arith, ◌==◌, if◌then◌else◌, length, drop, length-append, length-drop, Bool-cases,
  drop-append_length,
}
use mathlib.Core.List.{append_assoc, append-nil}
use usbmuxd_plugable_usb_msv.Usb.Descriptors.{
  interface_type, endpoint_type, bulk, interface_class, interface_subclass, interface_protocol,
  Endpoints, Search, found, missing, overread, exhausted, is_mux_interface, note_endpoint,
  read_endpoint, has_both, Round, go_on, finish, look_at, walk, configuration_size,
  usb_configure_mux_interface,
}

look_at_ends :
    (in_mux : Bool) (eps : Endpoints) (bs : List ℕ) → look_at in_mux eps bs ≢ finish exhausted
unfolding look_at
look_at_ends in_mux eps bs e = ground arith

walk_ends :
    (fuel : ℕ) (in_mux : Bool) (eps : Endpoints) (bs : List ℕ)
    → length bs < fuel
    → walk fuel in_mux eps bs ≢ exhausted
unfolding walk
walk_ends zero in_mux eps bs h e = omega arith
walk_ends (suc fuel) in_mux eps [] h e = cc
walk_ends (suc fuel) in_mux eps (zero ∷ rest) h e = cc
walk_ends (suc fuel) in_mux eps (suc n ∷ rest) h e =
    next (look_at in_mux eps (suc n ∷ rest)) refl
      (λ mux more. walk_ends fuel mux more (drop n rest) (omega (arith, length-drop n rest))) e
  where
    next :
        (r : Round)
        → look_at in_mux eps (suc n ∷ rest) ≡ r
        → ((mux : Bool) (more : Endpoints) → walk fuel mux more (drop n rest) ≢ exhausted)
        → elim r as (λ _. Search) [
          | finish s ↦ s
          | go_on mux more ↦ walk fuel mux more (drop n rest)
        ]
          ≢ exhausted
    next (finish s) looked again ends =
        look_at_ends in_mux eps (suc n ∷ rest) (looked ∙ ap finish ends)
    next (go_on mux more) looked again ends = again mux more ends

-- The loop of `usb_configure_mux_interface` ends on all bytes: a descriptor that is passed over is
-- at least one byte long.
usb_configure_mux_interface_ends :
    (eps : Endpoints) (config_desc : List ℕ)
    → usb_configure_mux_interface eps config_desc ≢ exhausted
unfolding usb_configure_mux_interface
usb_configure_mux_interface_ends eps config_desc =
    walk_ends (suc (length config_desc)) false eps (drop configuration_size config_desc)
      (omega (arith, length-drop configuration_size config_desc))

-- A descriptor as the USB specification lays it out, its fields in their order behind length and
-- type. Those that are neither interface nor endpoint have a type of their own.
pub data Descriptor : Type 0 where
  interface : ℕ → ℕ → ℕ → ℕ → ℕ → ℕ → ℕ → Descriptor
  endpoint : ℕ → ℕ → ℕ → ℕ → ℕ → Descriptor
  other : ℕ → List ℕ → Descriptor

pub bytes_of : List Descriptor → List ℕ
bytes_of [] = []
bytes_of (interface number alternate count class subclass protocol text ∷ ds) =
    9 ∷ 4 ∷ number ∷ alternate ∷ count ∷ class ∷ subclass ∷ protocol ∷ text ∷ bytes_of ds
bytes_of (endpoint address attributes low high interval ∷ ds) =
    7 ∷ 5 ∷ address ∷ attributes ∷ low ∷ high ∷ interval ∷ bytes_of ds
bytes_of (other type body ∷ ds) = suc (suc (length body)) ∷ type ∷ (body ++ bytes_of ds)

-- Every descriptor of the last kind has a type of its own.
abbrev pub AreTyped : List Descriptor → Type 0
AreTyped [] = Unit
AreTyped (interface _ _ _ _ _ _ _ ∷ ds) = AreTyped ds
AreTyped (endpoint _ _ _ _ _ ∷ ds) = AreTyped ds
AreTyped (other type _ ∷ ds) = (type ≢ interface_type) × (type ≢ endpoint_type) × AreTyped ds

-- The search over descriptors: from the first mux interface with two endpoints on, the bulk
-- endpoints up to the first that completes a pair.
pub search : (Endpoints → Search) → Bool → Endpoints → List Descriptor → Search
search ending in_mux eps [] = ending eps
search ending in_mux eps (interface _ _ count class subclass protocol _ ∷ ds) =
    search ending
      (in_mux
        || (class == interface_class
            && (subclass == interface_subclass && (protocol == interface_protocol && count == 2))))
      eps ds
search ending in_mux eps (endpoint address attributes low high _ ∷ ds) =
    let next = note_endpoint address low high eps in
    let later = search ending in_mux next ds in
    let passed = search ending in_mux eps ds in
    if in_mux && attributes == bulk then (if has_both next then found next else later) else passed
search ending in_mux eps (other _ _ ∷ ds) = search ending in_mux eps ds

look_at_interface :
    (in_mux : Bool) (eps : Endpoints) (n a count class subclass protocol : ℕ) (rest : List ℕ)
    → look_at in_mux eps (9 ∷ 4 ∷ n ∷ a ∷ count ∷ class ∷ subclass ∷ protocol ∷ rest)
      ≡ go_on
          (in_mux
            || (class == interface_class
                && (subclass == interface_subclass
                    && (protocol == interface_protocol && count == 2))))
          eps
unfolding look_at is_mux_interface
look_at_interface in_mux eps n a count class subclass protocol rest = ground arith

look_at_endpoint :
    (in_mux : Bool) (eps : Endpoints) (address attributes low high : ℕ) (rest : List ℕ)
    → look_at in_mux eps (7 ∷ 5 ∷ address ∷ attributes ∷ low ∷ high ∷ rest) ≡ (
        if in_mux && attributes == bulk
        then (if has_both (note_endpoint address low high eps)
            then finish (found (note_endpoint address low high eps))
            else go_on in_mux (note_endpoint address low high eps))
        else go_on in_mux eps)
unfolding look_at read_endpoint note_endpoint
look_at_endpoint in_mux eps address attributes low high rest = ground arith

look_at_other :
    (in_mux : Bool) (eps : Endpoints) (n type : ℕ) (rest : List ℕ)
    → type ≢ interface_type
    → type ≢ endpoint_type
    → look_at in_mux eps (n ∷ type ∷ rest) ≡ go_on in_mux eps
unfolding look_at
look_at_other in_mux eps n type rest p q = ground arith

-- A round that goes on.
walk_on :
    (fuel n : ℕ) (in_mux mux : Bool) (eps next : Endpoints) (rest : List ℕ)
    → look_at in_mux eps (suc n ∷ rest) ≡ go_on mux next
    → walk (suc fuel) in_mux eps (suc n ∷ rest) ≡ walk fuel mux next (drop n rest)
unfolding walk
walk_on fuel n in_mux mux eps next rest e = rw (e, walk) refl

walk_off :
    (fuel n : ℕ) (in_mux : Bool) (eps : Endpoints) (s : Search) (rest : List ℕ)
    → look_at in_mux eps (suc n ∷ rest) ≡ finish s
    → walk (suc fuel) in_mux eps (suc n ∷ rest) ≡ s
unfolding walk
walk_off fuel n in_mux eps s rest e = rw (e, walk) refl

module _ (ending : Endpoints → Search) (tail : List ℕ)
    (ends : (fuel : ℕ) (m : Bool) (e : Endpoints) → walk (suc fuel) m e tail ≡ ending e) where
  walk-search :
      (fuel : ℕ) (in_mux : Bool) (eps : Endpoints) (ds : List Descriptor)
      → AreTyped ds
      → length (bytes_of ds) < fuel
      → walk fuel in_mux eps (bytes_of ds ++ tail) ≡ search ending in_mux eps ds
  unfolding bytes_of search
  walk-search zero in_mux eps ds t h = absurd (omega arith)
  walk-search (suc fuel) in_mux eps [] t h = ends fuel in_mux eps
  walk-search (suc fuel) in_mux eps (interface n a count class subclass protocol text ∷ ds) t h =
      walk_on fuel 8 in_mux _ eps eps _
        (look_at_interface in_mux eps n a count class subclass protocol _)
      ∙ walk-search fuel _ eps ds t (omega arith)
  walk-search (suc fuel) in_mux eps (endpoint address attributes low high interval ∷ ds) t h =
      elim (Bool-cases (in_mux && attributes == bulk)) [
        | inr passed ↦ ground (
          arith,
          passed,
          walk_on fuel 6 in_mux in_mux eps eps
                (5 ∷ address ∷ attributes ∷ low ∷ high ∷ interval ∷ (bytes_of ds ++ tail))
                (ground (
                  arith,
                  passed,
                  look_at_endpoint in_mux eps address attributes low high
                      (interval ∷ (bytes_of ds ++ tail)),
                ))
              ∙ walk-search fuel in_mux eps ds t (omega arith),
        )
        | inl read ↦ elim (Bool-cases (has_both (note_endpoint address low high eps))) [
          | inl pair ↦ ground (
            arith,
            read,
            pair,
            walk_off fuel 6 in_mux eps (found (note_endpoint address low high eps))
                (5 ∷ address ∷ attributes ∷ low ∷ high ∷ interval ∷ (bytes_of ds ++ tail))
                (ground (
                  arith,
                  read,
                  pair,
                  look_at_endpoint in_mux eps address attributes low high
                      (interval ∷ (bytes_of ds ++ tail)),
                )),
          )
          | inr more ↦ ground (
            arith,
            read,
            more,
            walk_on fuel 6 in_mux in_mux eps (note_endpoint address low high eps)
                  (5 ∷ address ∷ attributes ∷ low ∷ high ∷ interval ∷ (bytes_of ds ++ tail))
                  (ground (
                    arith,
                    read,
                    more,
                    look_at_endpoint in_mux eps address attributes low high
                        (interval ∷ (bytes_of ds ++ tail)),
                  ))
                ∙ walk-search fuel in_mux (note_endpoint address low high eps) ds t (omega arith),
          )
        ]
      ]
  walk-search (suc fuel) in_mux eps (other type body ∷ ds) (p, q, t) h =
      walk_on fuel (suc (length body)) in_mux in_mux eps eps _
        (look_at_other in_mux eps _ type _ p q)
      ∙ ap (walk fuel in_mux eps) (
          ap (drop (length body)) (append_assoc body (bytes_of ds) tail)
          ∙ drop-append_length (length body) body (bytes_of ds ++ tail) refl)
      ∙ walk-search fuel in_mux eps ds t (omega (arith, length-append body (bytes_of ds)))

walk_nothing : (fuel : ℕ) (m : Bool) (e : Endpoints) → walk (suc fuel) m e [] ≡ overread
unfolding walk
walk_nothing fuel m e = refl

walk_zero :
    (rest : List ℕ) (fuel : ℕ) (m : Bool) (e : Endpoints)
    → walk (suc fuel) m e (0 ∷ rest) ≡ missing e
unfolding walk
walk_zero rest fuel m e = refl

-- On a configuration header of nine bytes and any descriptors behind it,
-- `usb_configure_mux_interface` finds the endpoints that the search over the descriptors finds.
-- Where that finds no pair, the walk ends at a zero byte that stands behind the descriptors; without
-- one it reads past the end of the configuration.
pub usb_configure_mux_interface_lem :
    (header rest : List ℕ) (eps : Endpoints) (ds : List Descriptor)
    → length header ≡ configuration_size
    → AreTyped ds
    → (usb_configure_mux_interface eps (header ++ bytes_of ds)
        ≡ search (λ _. overread) false eps ds)
      × (usb_configure_mux_interface eps (header ++ (bytes_of ds ++ (0 ∷ rest)))
          ≡ search missing false eps ds)
unfolding usb_configure_mux_interface
usb_configure_mux_interface_lem header rest eps ds h t = (
  ap (walk _ false eps)
        (drop-append_length configuration_size header _ (sym h) ∙ sym (append-nil (bytes_of ds)))
      ∙ walk-search (λ _. overread) [] walk_nothing _ false eps ds t
          (omega (arith, length-append header (bytes_of ds))),
  ap (walk _ false eps) (drop-append_length configuration_size header _ (sym h))
      ∙ walk-search missing (0 ∷ rest) (walk_zero rest) _ false eps ds t (
          omega (
            arith,
            length-append header (bytes_of ds ++ (0 ∷ rest)),
            length-append (bytes_of ds) (0 ∷ rest),
          )),
)
