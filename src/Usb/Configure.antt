-- ===== src/Usb/Configure.antt =====
-- usb-mce.cpp: `usb_configure_device`.
use usbmuxd_plugable_usb_msv.Prelude.{
  ℕ, ◌+◌, ◌%◌, List, Bool, true, false, none, some, ◌==◌, if◌then◌else◌, get_elem?,
}
use usbmuxd_plugable_usb_msv.Usb.{
  UsbDevice, DeviceDescriptor, port_asked, Plugin, U, pure, ◌>>=◌, ◌>>◌, crash, require, load_usb,
  put_usb, ask,
}
use usbmuxd_plugable_usb_msv.Usb.Descriptors.{
  Search, found, missing, overread, exhausted, usb_configure_mux_interface,
}

-- The offset of `bConfigurationValue`
abbrev pub configuration_value_at : ℕ
configuration_value_at = 5

-- The result of `usb_configure_mux_interface`, with the endpoints that it leaves in the device.
unfoldable pub keep_endpoints : ℕ → UsbDevice → Search → U Bool
keep_endpoints dev d (found eps) = put_usb dev (record d { endpoints = eps }) >> pure true
keep_endpoints dev d (missing eps) = put_usb dev (record d { endpoints = eps }) >> pure false
keep_endpoints dev d overread = crash
keep_endpoints dev d exhausted = crash

module _ (plugin : Plugin) where
  -- The configuration is selected, and the mux interface looked for.
  unfoldable pub select_mux : ℕ → UsbDevice → List ℕ → U Bool
  select_mux dev d config_desc = do
    value ← require (get_elem? config_desc configuration_value_at)
    selected ← ask (port_asked dev) (λ t. plugin.select_configuration t d.port value)
    if selected
        then keep_endpoints dev d (usb_configure_mux_interface d.endpoints config_desc)
        else pure false

  -- The last configuration of a device whose serial number is known; its number is one byte.
  unfoldable pub read_configuration : ℕ → UsbDevice → DeviceDescriptor → U Bool
  read_configuration dev d desc = do
    let last = (desc.num_configurations + 255) % 256
    size ← ask (port_asked dev) (λ t. plugin.configuration_descriptor_size t d.port last)
    if size == 0 then pure false else (do
      answer ← ask (port_asked dev) (λ t. plugin.configuration_descriptor t d.port last)
      elim answer [ none ↦ pure false | some config_desc ↦ select_mux dev d config_desc ])

  -- `usb_configure_device`
  unfoldable pub usb_configure_device : ℕ → U Bool
  usb_configure_device dev = do
    d ← load_usb dev
    descriptor ← ask (port_asked dev) (λ t. plugin.device_descriptor t d.port)
    elim descriptor [
      | none ↦ pure false
      | some desc ↦ do
        text ← ask (port_asked dev) (λ t. plugin.string_descriptor t d.port desc.serial_index)
        elim text [
          | none ↦ pure false
          | some serial ↦ do
            put_usb dev (record d { serial = serial })
            read_configuration dev (record d { serial = serial }) desc
        ]
    ]
