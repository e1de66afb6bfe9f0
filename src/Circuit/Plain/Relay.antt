-- ===== src/Circuit/Plain/Relay.antt =====
-- A data message of stage 5 at one router: `RelayThisStuff`, forward.
use torupload.Message.Laws.{slice_ext, length-slice}
use torupload.Trace.{raw_sent}
use torupload.Circuit.Home.{slice-byte}
use torupload.Router.Relay.{forwarded}
use torupload.Router.Wrap.Bytes.{IsTor}
use torupload.Router.State.{Router}
use torupload.Machine.{Machine}
use torupload.Circuit.Forward.{ping_of}
use torupload.Message.{Buffer, slice, Message, store32, store16, htons, load32}
use torupload.Base.{
  ℕ, ◌+◌, ◌*◌, ◌/◌, ◌%◌, ◌≤◌, ◌<◌, ◌≡◌, refl, sym, ap, ap₂, ◌∙◌, length, get_or, List, arith,
}

-- The packet with another source.
abbrev pub resourced : ℕ → List ℕ → List ℕ
resourced ip xs = slice (store32 (λ i. get_or xs i 0) 12 ip) 0 (length xs)

pub body-byte :
    {m : Message} {c l h : ℕ} {xs : List ℕ} (i : ℕ)
    → IsTor m c l h xs
    → i < length xs
    → m.msg (23 + i) ≡ get_or xs i 0
body-byte {m} {xs = xs} i t lt =
    sym (slice-byte m.msg 23 (length xs) i lt) ∙ ap (λ ys. get_or ys i 0) t.body

store32-shifted :
    (f g : Buffer) (id ip i : ℕ)
    → f (23 + i) ≡ g (0 + i)
    → store32 (store16 f 21 id) 35 ip (23 + i) ≡ store32 g 12 ip (0 + i)
store32-shifted f g id ip i same = ground arith

pub forwarded-IsTor :
    (e : Machine) (r : Router) {m : Message} {c l h : ℕ} {xs : List ℕ}
    → IsTor m c l h xs
    → IsTor
        (forwarded e r m)
        c
        (htons r.entry.my_circuit_id % 256)
        (htons r.entry.my_circuit_id / 256 % 256)
        (resourced (e.nic r.my_router_id) xs)
forwarded-IsTor e r {m} {xs = xs} t = record {
  head = t.head;
  command_byte = t.command_byte;
  low_byte = refl;
  high_byte = refl;
  body =
      ap (slice (forwarded e r m).msg 23) (length-slice (store32 g 12 ip) 0 (length xs))
      ∙ slice_ext (forwarded e r m).msg (store32 g 12 ip) 23 0 (length xs) (λ i lt.
        store32-shifted m.msg g (htons r.entry.my_circuit_id) ip i
          (body-byte i t lt ∙ ap g {x = i} {y = 0 + i} (omega arith)));
  len = t.len ∙ ap (λ n. 23 + n) (sym (length-slice (store32 g 12 ip) 0 (length xs)));
}
  where
    g : Buffer
    g i = get_or xs i 0

    ip : ℕ
    ip = e.nic r.my_router_id

-- What leaves for the world depends on the bytes from 16 on only, and so not on the source.
pub ping_ext :
    (f : Buffer) (xs : List ℕ)
    → ((i : ℕ) → 16 ≤ i → i < 84 → f i ≡ get_or xs i 0)
    → raw_sent (load32 f 16) (slice f 20 64) ≡ ping_of xs
ping_ext f xs same =
    ap₂ raw_sent
      (ap₂ (λ a b. a + 65536 * b)
        (ap₂ (λ a b. a + 256 * b) (same 16 (omega arith) (omega arith))
          (same 17 (omega arith) (omega arith)))
        (ap₂ (λ a b. a + 256 * b) (same 18 (omega arith) (omega arith))
          (same 19 (omega arith) (omega arith))))
      (slice_ext f (λ i. get_or xs i 0) 20 20 64
        (λ i lt. same (20 + i) (omega arith) (omega arith)))

pub ping_of-resourced :
    (ip : ℕ) (xs : List ℕ) → length xs ≡ 84 → ping_of (resourced ip xs) ≡ ping_of xs
ping_of-resourced ip xs size =
    ping_ext (λ i. get_or (resourced ip xs) i 0) xs
      (λ i far lt.
        slice-byte (store32 (λ j. get_or xs j 0) 12 ip) 0 (length xs) i (omega arith)
        ∙ outside i far)
  where
    outside : (i : ℕ) → 16 ≤ i → store32 (λ j. get_or xs j 0) 12 ip (0 + i) ≡ get_or xs i 0
    outside i far = ground arith
