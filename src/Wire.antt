-- ===== src/Wire.antt =====
-- The packet headers of device.cpp, tcp.h and usbmuxd-proto.h as bytes. Headers for the device are
-- in network order (`htons`, `htonl`), those for clients in the order of the host, little-endian.
pub mod RoundTrip
use usbmuxd_plugable_usb_msv.Prelude.{
  ℕ, ◌+◌, ◌*◌, ◌/◌, ◌%◌, List, [], ◌∷◌, ◌++◌, Option, none, some, Bool, ◌==◌,
}

-- `uint16_t` and `uint32_t` in network order
abbrev pub be16 : ℕ → List ℕ
be16 n = (n / 256 % 256) ∷ (n % 256) ∷ []

abbrev pub be32 : ℕ → List ℕ
be32 n = (n / 16777216 % 256) ∷ (n / 65536 % 256) ∷ (n / 256 % 256) ∷ (n % 256) ∷ []

-- `uint16_t` and `uint32_t` as a little-endian host stores them
abbrev pub le16 : ℕ → List ℕ
le16 n = (n % 256) ∷ (n / 256 % 256) ∷ []

abbrev pub le32 : ℕ → List ℕ
le32 n = (n % 256) ∷ (n / 256 % 256) ∷ (n / 65536 % 256) ∷ (n / 16777216 % 256) ∷ []

-- A field read from the front of the bytes, with the bytes behind it.
unfoldable pub read8 : List ℕ → Option (ℕ × List ℕ)
read8 [] = none
read8 (a ∷ rest) = some (a, rest)

unfoldable pub read_be16 : List ℕ → Option (ℕ × List ℕ)
read_be16 (a ∷ b ∷ rest) = some (a * 256 + b, rest)
read_be16 _ = none

unfoldable pub read_be32 : List ℕ → Option (ℕ × List ℕ)
read_be32 (a ∷ b ∷ c ∷ d ∷ rest) = some (a * 16777216 + b * 65536 + c * 256 + d, rest)
read_be32 _ = none

unfoldable pub read_le16 : List ℕ → Option (ℕ × List ℕ)
read_le16 (a ∷ b ∷ rest) = some (b * 256 + a, rest)
read_le16 _ = none

unfoldable pub read_le32 : List ℕ → Option (ℕ × List ℕ)
read_le32 (a ∷ b ∷ c ∷ d ∷ rest) = some (d * 16777216 + c * 65536 + b * 256 + a, rest)
read_le32 _ = none

infixl 5 ◌>>=◌
abbrev ◌>>=◌ : {A B : Type 0} → Option A → (A → Option B) → Option B
none >>= f = none
some a >>= f = f a

-- `enum mux_protocol`
pub data MuxProtocol : Type 0 where
  mux_proto_version mux_proto_control mux_proto_setup mux_proto_tcp : MuxProtocol

abbrev pub protocol_number : MuxProtocol → ℕ
protocol_number mux_proto_version = 0
protocol_number mux_proto_control = 1
protocol_number mux_proto_setup = 2
protocol_number mux_proto_tcp = 6

-- `struct mux_header`; a device below version 2 uses the first two fields alone.
pub record MuxHeader : Type 0 where
  pub protocol : ℕ
  pub length : ℕ
  pub magic : ℕ
  pub tx_seq : ℕ
  pub rx_seq : ℕ

unfoldable pub encode_short_header : MuxHeader → List ℕ
encode_short_header h = be32 h.protocol ++ be32 h.length

unfoldable pub encode_header : MuxHeader → List ℕ
encode_header h =
    be32 h.protocol ++ (be32 h.length ++ (be32 h.magic ++ (be16 h.tx_seq ++ be16 h.rx_seq)))

-- `mhdr->protocol` and `mhdr->length`
unfoldable pub read_short_header : List ℕ → Option (ℕ × ℕ)
unfolding read_be32
read_short_header bs = do
  (protocol, bs₁) ← read_be32 bs
  (len, _) ← read_be32 bs₁
  some (protocol, len)

-- `mhdr->rx_seq`, at offset 14
unfoldable pub read_header_rx_seq : List ℕ → Option ℕ
unfolding read_be32 read_be16
read_header_rx_seq bs = do
  (_, bs₁) ← read_be32 bs
  (_, bs₂) ← read_be32 bs₁
  (_, bs₃) ← read_be32 bs₂
  (_, bs₄) ← read_be16 bs₃
  (rx_seq, _) ← read_be16 bs₄
  some rx_seq

-- `struct version_header`
pub record VersionHeader : Type 0 where
  pub major : ℕ
  pub minor : ℕ
  pub padding : ℕ

unfoldable pub encode_version : VersionHeader → List ℕ
encode_version h = be32 h.major ++ (be32 h.minor ++ be32 h.padding)

unfoldable pub read_version : List ℕ → Option VersionHeader
unfolding read_be32
read_version bs = do
  (major, bs₁) ← read_be32 bs
  (minor, bs₂) ← read_be32 bs₁
  (padding, _) ← read_be32 bs₂
  some (record { major = major; minor = minor; padding = padding })

-- `struct tcphdr` with its fields as numbers; `th_off` is the upper half of its byte.
pub record TcpHeader : Type 0 where
  pub th_sport : ℕ
  pub th_dport : ℕ
  pub th_seq : ℕ
  pub th_ack : ℕ
  pub th_x2 : ℕ
  pub th_off : ℕ
  pub th_flags : ℕ
  pub th_win : ℕ
  pub th_sum : ℕ
  pub th_urp : ℕ

abbrev pub th_syn : ℕ
th_syn = 0x02

abbrev pub th_rst : ℕ
th_rst = 0x04

abbrev pub th_ack_flag : ℕ
th_ack_flag = 0x10

-- `th_flags & TH_RST`
abbrev pub has_rst : ℕ → Bool
has_rst flags = flags / 4 % 2 == 1

unfoldable pub encode_tcp : TcpHeader → List ℕ
encode_tcp h =
    be16 h.th_sport
    ++ (be16 h.th_dport
        ++ (be32 h.th_seq
            ++ (be32 h.th_ack
                ++ ((h.th_off * 16 + h.th_x2) % 256)
                  ∷ (h.th_flags % 256)
                  ∷ (be16 h.th_win ++ (be16 h.th_sum ++ be16 h.th_urp)))))

unfoldable pub read_tcp : List ℕ → Option (TcpHeader × List ℕ)
unfolding read_be32 read_be16 read8
read_tcp bs = do
  (sport, bs₁) ← read_be16 bs
  (dport, bs₂) ← read_be16 bs₁
  (seq, bs₃) ← read_be32 bs₂
  (ack, bs₄) ← read_be32 bs₃
  (off, bs₅) ← read8 bs₄
  (flags, bs₆) ← read8 bs₅
  (win, bs₇) ← read_be16 bs₆
  (checksum, bs₈) ← read_be16 bs₇
  (urp, rest) ← read_be16 bs₈
  some (
    record {
      th_sport = sport;
      th_dport = dport;
      th_seq = seq;
      th_ack = ack;
      th_x2 = off % 16;
      th_off = off / 16;
      th_flags = flags;
      th_win = win;
      th_sum = checksum;
      th_urp = urp;
    },
    rest,
  )
