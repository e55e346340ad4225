-- ===== src/Wire/RoundTrip.antt =====
-- Encoding and reading of the packet headers of device.cpp.
use usbmuxd_plugable_usb_msv.Prelude.{ℕ, ◌^◌, ◌<◌, ◌≡◌, refl, List, ◌++◌, some, arith, length}
use usbmuxd_plugable_usb_msv.Wire.{
  TcpHeader, encode_tcp, read_tcp, MuxHeader, encode_header, encode_short_header, read_short_header,
  read_header_rx_seq, VersionHeader, encode_version, read_version,
}

-- The fields of a header that fit their widths.
pub record FitsTcp (h : TcpHeader) : Type 0 where
  pub sport_fits : h.th_sport < 2 ^ 16
  pub dport_fits : h.th_dport < 2 ^ 16
  pub seq_fits : h.th_seq < 2 ^ 32
  pub ack_fits : h.th_ack < 2 ^ 32
  pub x2_fits : h.th_x2 < 16
  pub off_fits : h.th_off < 16
  pub flags_fits : h.th_flags < 256
  pub win_fits : h.th_win < 2 ^ 16
  pub sum_fits : h.th_sum < 2 ^ 16
  pub urp_fits : h.th_urp < 2 ^ 16

-- A TCP header that was encoded is read back, field by field, whatever follows it.
pub read_tcp-encode_tcp :
    (h : TcpHeader) (rest : List ℕ) → FitsTcp h → read_tcp (encode_tcp h ++ rest) ≡ some (h, rest)
unfolding read_tcp encode_tcp
read_tcp-encode_tcp h rest f = ground arith

-- The long mux header is read back: protocol, length and the receive sequence number.
pub read_header-encode_header :
    (h : MuxHeader) (rest : List ℕ)
    → h.protocol < 2 ^ 32
    → h.length < 2 ^ 32
    → h.rx_seq < 2 ^ 16
    → (read_short_header (encode_header h ++ rest) ≡ some (h.protocol, h.length))
      × (read_header_rx_seq (encode_header h ++ rest) ≡ some h.rx_seq)
unfolding read_short_header read_header_rx_seq encode_header
read_header-encode_header h rest p l r = ground arith

pub read_header-encode_short_header :
    (h : MuxHeader) (rest : List ℕ)
    → h.protocol < 2 ^ 32
    → h.length < 2 ^ 32
    → read_short_header (encode_short_header h ++ rest) ≡ some (h.protocol, h.length)
unfolding read_short_header encode_short_header
read_header-encode_short_header h rest p l = ground arith

pub read_version-encode_version :
    (h : VersionHeader) (rest : List ℕ)
    → h.major < 2 ^ 32
    → h.minor < 2 ^ 32
    → h.padding < 2 ^ 32
    → read_version (encode_version h ++ rest) ≡ some h
unfolding read_version encode_version
read_version-encode_version h rest a b c = ground arith

pub length-encode_tcp : (h : TcpHeader) → length (encode_tcp h) ≡ 20
unfolding encode_tcp
length-encode_tcp h = refl

pub length-encode_header : (h : MuxHeader) → length (encode_header h) ≡ 16
unfolding encode_header
length-encode_header h = refl

pub length-encode_short_header : (h : MuxHeader) → length (encode_short_header h) ≡ 8
unfolding encode_short_header
length-encode_short_header h = refl

pub length-encode_version : (h : VersionHeader) → length (encode_version h) ≡ 12
unfolding encode_version
length-encode_version h = refl
