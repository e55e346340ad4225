-- ===== src/Usb/Descriptors.antt =====
-- usb-mce.cpp: `usb_configure_mux_interface` looks for the endpoints of the mux interface in the
-- bytes of a configuration descriptor.
pub mod Walk
use usbmuxd_plugable_usb_msv.Prelude.{
  ℕ, zero, suc, ◌+◌, ◌*◌, ◌/◌, ◌%◌, List, [], ◌∷◌, Bool, true, false, ◌&&◌, not, Option, none, some,
  ◌==◌, if◌then◌else◌, get_elem?, drop, length,
}
use usbmuxd_plugable_usb_msv.Client.Plist.{◌>>=?◌}

-- `USB_INTERFACE_DESCRIPTOR_TYPE`, `USB_ENDPOINT_DESCRIPTOR_TYPE` and `USB_ENDPOINT_TYPE_BULK`, which
-- the USB specification fixes, and `INTERFACE_CLASS`, `INTERFACE_SUBCLASS`, `INTERFACE_PROTOCOL`
abbrev pub interface_type : ℕ
interface_type = 4

abbrev pub endpoint_type : ℕ
endpoint_type = 5

abbrev pub bulk : ℕ
bulk = 2

abbrev pub interface_class : ℕ
interface_class = 255

abbrev pub interface_subclass : ℕ
interface_subclass = 254

abbrev pub interface_protocol : ℕ
interface_protocol = 2

-- `ep_in`, `ep_out` and `tx_max_packet_size` of `struct usb_device_instance_info`
pub record Endpoints : Type 0 where
  pub ep_in : ℕ
  pub ep_out : ℕ
  pub tx_max_packet_size : ℕ

-- How the walk ends: with both endpoints, at a descriptor of length 0 without them, at a byte behind
-- the buffer, or when its rounds are used up.
pub data Search : Type 0 where
  found missing : Endpoints → Search
  overread exhausted : Search

-- The test for the mux interface, at the start of an interface descriptor; nothing for a byte that
-- is not in the buffer. The bytes are read in the order of the tests.
unfoldable pub is_mux_interface : List ℕ → Option Bool
is_mux_interface bs = get_elem? bs 5 >>=? λ class.
    if not (class == interface_class)
    then some false
    else get_elem? bs 6 >>=? λ subclass.
        if not (subclass == interface_subclass)
        then some false
        else get_elem? bs 7 >>=? λ protocol.
            if not (protocol == interface_protocol)
            then some false
            else get_elem? bs 4 >>=? λ count. some (count == 2)

-- `USB_ENDPOINT_DIRECTION_IN`
abbrev pub is_in : ℕ → Bool
is_in address = address / 128 % 2 == 1

-- The endpoints after an endpoint of the mux interface
unfoldable pub note_endpoint : ℕ → ℕ → ℕ → Endpoints → Endpoints
note_endpoint address low high eps =
    if is_in address
    then record eps { ep_in = address }
    else record eps { ep_out = address; tx_max_packet_size = low + 256 * high }

-- The endpoints after an endpoint descriptor; its packet size is read only from a bulk endpoint that
-- is not for input.
unfoldable pub read_endpoint : List ℕ → Endpoints → Option (Bool × Endpoints)
read_endpoint bs eps = get_elem? bs 3 >>=? λ attributes.
    if not (attributes == bulk)
    then some (false, eps)
    else get_elem? bs 2 >>=? λ address.
        if is_in address
        then some (true, note_endpoint address 0 0 eps)
        else get_elem? bs 4 >>=? λ low.
            get_elem? bs 5 >>=? λ high. some (true, note_endpoint address low high eps)

-- `(usb_dev->info.ep_in) && (usb_dev->info.ep_out)`
abbrev pub has_both : Endpoints → Bool
has_both eps = not (eps.ep_in == 0) && not (eps.ep_out == 0)

-- What one round does with a descriptor: go on with `bFoundInterface` and the endpoints, or end.
pub data Round : Type 0 where
  go_on : Bool → Endpoints → Round
  finish : Search → Round

unfoldable pub look_at : Bool → Endpoints → List ℕ → Round
look_at in_mux eps bs = elim (get_elem? bs 1) [
  | none ↦ finish overread
  | some type ↦
      if type == interface_type
      then elim (is_mux_interface bs) [
        | none ↦ finish overread
        | some true ↦ go_on true eps
        | some false ↦ go_on in_mux eps
      ]
      else if type == endpoint_type && in_mux
      then elim (read_endpoint bs eps) [
        | none ↦ finish overread
        | some (bulk_read, next) ↦
            if bulk_read && has_both next then finish (found next) else go_on in_mux next
      ]
      else go_on in_mux eps
]

-- The loop of `usb_configure_mux_interface`, from the descriptor at the start of the bytes on.
unfoldable pub walk : ℕ → Bool → Endpoints → List ℕ → Search
walk zero in_mux eps bs = exhausted
walk (suc fuel) in_mux eps [] = overread
walk (suc fuel) in_mux eps (zero ∷ rest) = missing eps
walk (suc fuel) in_mux eps (suc n ∷ rest) = elim (look_at in_mux eps (suc n ∷ rest)) [
  | finish s ↦ s
  | go_on mux next ↦ walk fuel mux next (drop n rest)
]

-- `sizeof(USB_CONFIGURATION_DESCRIPTOR)`
abbrev pub configuration_size : ℕ
configuration_size = 9

-- `usb_configure_mux_interface`, on the endpoints that the device had before.
unfoldable pub usb_configure_mux_interface : Endpoints → List ℕ → Search
usb_configure_mux_interface eps config_desc =
    walk (suc (length config_desc)) false eps (drop configuration_size config_desc)
