-- ===== src/Message.antt =====
-- `Message` of SocketAPI.h, and the reads and writes that the program makes in its bytes.
-- A buffer is a function from the index to the byte; what lies behind the written part are
-- whatever bytes were there before. Numbers wider than a byte lie in host order, which is
-- little-endian here (stage5.router6.out shows circuit 1 arriving as 0x100).
pub mod Laws
use torupload.Base.{
  ℕ, zero, suc, ◌+◌, ◌-◌, ◌*◌, ◌/◌, ◌%◌, ◌&&◌, List, [], ◌∷◌, ltb, leb, ◌==◌, if◌then◌else◌, length,
  get_or,
}
use torupload.Base.Outcome.{Outcome, ok, out_of_bounds, guard, ◌>>=◌, ◌>>◌}

abbrev pub max_message_length : ℕ
max_message_length = 500

abbrev pub Buffer : Type 0
Buffer = ℕ → ℕ

pub record Message : Type 0 where
  pub msg : Buffer
  pub actual_length : ℕ

-- The cast to `unsigned short`.
abbrev pub u16 : ℕ → ℕ
u16 n = n % 65536

-- `a - b` stored to an `unsigned short`.
abbrev pub sub16 : ℕ → ℕ → ℕ
sub16 a b = (a + 65536 - b) % 65536

-- `*(unsigned short*)(p + o)` and `*(uint32_t*)(p + o)`, read.
abbrev pub load16 : Buffer → ℕ → ℕ
load16 f o = f o + 256 * f (o + 1)

abbrev pub load32 : Buffer → ℕ → ℕ
load32 f o = load16 f o + 65536 * load16 f (o + 2)

-- The same, written.
abbrev pub store8 : Buffer → ℕ → ℕ → Buffer
store8 f o v i = if i == o then v % 256 else f i

abbrev pub store16 : Buffer → ℕ → ℕ → Buffer
store16 f o v = store8 (store8 f o v) (o + 1) (v / 256)

abbrev pub store32 : Buffer → ℕ → ℕ → Buffer
store32 f o v = store16 (store16 f o v) (o + 2) (v / 65536)

-- `htons` and `ntohs` on a little-endian host.
abbrev pub htons : ℕ → ℕ
htons v = v % 256 * 256 + v / 256 % 256

-- The `n` bytes from `o` on.
abbrev pub slice : Buffer → ℕ → ℕ → List ℕ
slice f o zero = []
slice f o (suc n) = f o ∷ slice f (suc o) n

-- The bytes of a list written from `o` on.
abbrev pub place : Buffer → ℕ → List ℕ → Buffer
place f o xs i = if ltb i o then f i else get_or xs (i - o) (f i)

-- `memcpy(dst + o, src + p, n)` between arrays of `max_message_length` bytes.
unfoldable pub memcpy : Buffer → ℕ → Buffer → ℕ → ℕ → Outcome Buffer
memcpy dst o src p n = do
  guard (leb (o + n) max_message_length && leb (p + n) max_message_length) out_of_bounds
  ok (place dst o (slice src p n))

-- `memcpy(dst + o, bytes, n)` from a heap block that holds exactly these bytes.
unfoldable pub fill : Buffer → ℕ → List ℕ → Outcome Buffer
fill dst o xs = do guard (leb (o + length xs) max_message_length) out_of_bounds; ok (place dst o xs)

-- The bytes that the message stands for: the first `actual_length`.
abbrev pub wire : Message → List ℕ
wire m = slice m.msg 0 m.actual_length
