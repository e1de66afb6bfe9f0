-- ===== src/Router/Packet/Reply.antt =====
-- The echo reply that `ProcessIPPacket` makes.
use torupload.Base.{eq→==, ℕ, ◌+◌, ◌/◌, ◌≤◌, ◌<◌, ◌≡◌, refl, ◌∙◌, ◌⊎◌, inr, arith, inl}
use torupload.Base.Outcome.{ok}
use torupload.Message.{Message, Buffer, load32, store8, store16, store32}
use torupload.Checksum.{csum}
use torupload.Checksum.Verify.{IsBytes, csum-put_checksum, csum_ext, store16-IsBytes}
use torupload.Router.Packet.{process_ip_packet, reply_icmp, swap_addresses, put_header_checksum}

store8-IsBytes : (f : Buffer) (o v : ℕ) → IsBytes f → IsBytes (store8 f o v)
store8-IsBytes f o v b i = ground (arith, b i)

store32-IsBytes : (f : Buffer) (o v : ℕ) → IsBytes f → IsBytes (store32 f o v)
store32-IsBytes f o v b =
    store16-IsBytes (store16 f o v) (o + 2) (v / 65536) (store16-IsBytes f o v b)

-- Whatever is stored before offset 20 leaves the rest alone.
header-outside :
    (f : Buffer) (a b c d i : ℕ)
    → 20 ≤ i
    → store16 (store16 (store32 (store32 f 12 a) 16 b) 10 c) 10 d i ≡ f i
header-outside f a b c d i h = ground arith

header-below :
    (f : Buffer) (a b c d i : ℕ)
    → i < 10
    → store16 (store16 (store32 (store32 f 12 a) 16 b) 10 c) 10 d i ≡ f i
header-below f a b c d i h = ground arith

icmp-outside :
    (f : Buffer) (c d i : ℕ)
    → (i < 20) ⊎ (24 ≤ i)
    → store16 (store16 (store8 f 20 0) 22 c) 22 d i ≡ f i
icmp-outside f c d i h = ground arith

-- What is asked of a reply `g` to the request `f`.
pub record IsReply (f g : Buffer) : Type 0 where
  pub header_sum : csum g 0 10 ≡ 0
  pub icmp_sum : csum g 20 32 ≡ 0
  pub source : load32 g 12 ≡ load32 f 16
  pub destination : load32 g 16 ≡ load32 f 12
  pub reply_type : g 20 ≡ 0
  pub code : g 21 ≡ f 21
  pub before : (i : ℕ) → i < 10 → g i ≡ f i
  pub behind : (i : ℕ) → 24 ≤ i → g i ≡ f i

-- `ProcessIPPacket` turns every message of 84 bytes into a reply of 84 bytes: source and
-- destination change places, the ICMP type becomes 0, the header's checksum and the ICMP checksum
-- verify, and the bytes before offset 10, the ICMP code and the bytes from offset 24 on stay.
pub process_ip_packet-IsReply :
    (m : Message)
    → IsBytes m.msg
    → m.actual_length ≡ 84
    → (r : Message) × (process_ip_packet m ≡ ok r) × (r.actual_length ≡ 84) × IsReply m.msg r.msg
unfolding process_ip_packet
process_ip_packet-IsReply m b size = (
  record m { msg = put_header_checksum g 0 },
  rw (eq→== m.actual_length 84 size),
  size,
  record {
    header_sum = csum-put_checksum g 0 10 5 10 g_bytes (omega arith) (omega arith) refl;
    icmp_sum =
        csum_ext (put_header_checksum g 0) (reply_icmp m.msg) 20 32 (λ i lo hi. outside i lo)
        ∙ csum-put_checksum (store8 m.msg 20 0) 20 32 1 22 (store8-IsBytes m.msg 20 0 b)
            (omega arith) (omega arith) refl;
    source = omega (arith, b 16, b 17, b 18, b 19);
    destination = omega (arith, b 12, b 13, b 14, b 15);
    reply_type = refl;
    code = refl;
    before = λ i lt.
        header-below (reply_icmp m.msg) (load32 m.msg 16) (load32 m.msg 12) 0 d i lt
        ∙ icmp-outside m.msg 0 c i (inl (omega arith));
    behind = λ i lt. outside i (omega arith) ∙ icmp-outside m.msg 0 c i (inr lt);
  },
)
  where
    g : Buffer
    g = swap_addresses (reply_icmp m.msg)

    c : ℕ
    c = csum (store16 (store8 m.msg 20 0) 22 0) 20 32

    d : ℕ
    d = csum (store16 g 10 0) 0 10

    outside : (i : ℕ) → 20 ≤ i → put_header_checksum g 0 i ≡ reply_icmp m.msg i
    outside i h = header-outside (reply_icmp m.msg) (load32 m.msg 16) (load32 m.msg 12) 0 d i h

    reply_bytes : IsBytes (reply_icmp m.msg)
    reply_bytes =
        store16-IsBytes (store16 (store8 m.msg 20 0) 22 0) 22 c
          (store16-IsBytes (store8 m.msg 20 0) 22 0 (store8-IsBytes m.msg 20 0 b))

    g_bytes : IsBytes g
    g_bytes =
        store32-IsBytes (store32 (reply_icmp m.msg) 12 (load32 m.msg 16)) 16 (load32 m.msg 12)
          (store32-IsBytes (reply_icmp m.msg) 12 (load32 m.msg 16) reply_bytes)
