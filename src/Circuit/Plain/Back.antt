-- ===== src/Circuit/Plain/Back.antt =====
-- A reply of stage 5 at one router: `RelayThisStuff`, backward.
use torupload.Message.Laws.{length-slice}
use torupload.Checksum.{csum}
use torupload.Circuit.Home.{slice-byte}
use torupload.Router.Packet.{put_header_checksum}
use torupload.Message.{slice, Buffer, store16, store32}
use torupload.Checksum.Verify.{IsBytes, store16-IsBytes, csum_shift}
use native.Mathlib.Decide.{dec_lt}
use torupload.Base.{
  ℕ, ◌+◌, ◌/◌, ◌≤◌, ◌<◌, ◌≡◌, ◌⊎◌, sym, ap, ◌∙◌, get_or, List, arith, get_or-beyond, subst,
}

-- The packet with another destination, and the checksum of its header.
abbrev pub readdressed : ℕ → List ℕ → List ℕ
readdressed ip xs = slice (put_header_checksum (store32 (λ i. get_or xs i 0) 16 ip) 0) 0 84

-- What no router changes of a reply: all but the checksum and the destination.
abbrev pub Agree : List ℕ → List ℕ → Type 0
Agree xs ys =
    (i : ℕ)
    → (i < 10) ⊎ (((12 ≤ i) × (i < 16)) ⊎ ((20 ≤ i) × (i < 84)))
    → get_or ys i 0 ≡ get_or xs i 0

pub readdressed-Agree : (ip : ℕ) (xs : List ℕ) → Agree xs (readdressed ip xs)
readdressed-Agree ip xs i out =
    slice-byte (put_header_checksum (store32 g 16 ip) 0) 0 84 i (omega arith)
    ∙ untouched (csum (store16 (store32 g 16 ip) 10 0) 0 10) i out
  where
    g : Buffer
    g j = get_or xs j 0

    untouched :
        (c j : ℕ)
        → (j < 10) ⊎ (((12 ≤ j) × (j < 16)) ⊎ ((20 ≤ j) × (j < 84)))
        → store16 (store16 (store32 g 16 ip) 10 0) 10 c (0 + j) ≡ g j
    untouched c j out = ground arith

pub readdressed-IsBytes :
    (ip : ℕ) (xs : List ℕ)
    → IsBytes (λ i. get_or xs i 0)
    → IsBytes (λ i. get_or (readdressed ip xs) i 0)
readdressed-IsBytes ip xs b i = elim (dec_lt i 84) [
  | yes inside ↦ subst (λ v. v < 256) (sym (slice-byte h 0 84 i inside)) (bytes (0 + i))
  | no outside ↦
      subst (λ v. v < 256)
        (sym (get_or-beyond (readdressed ip xs) i 0 (omega (arith, length-slice h 0 84))))
        (omega arith)
]
  where
    g : Buffer
    g j = get_or xs j 0

    h : Buffer
    h = put_header_checksum (store32 g 16 ip) 0

    bytes : IsBytes h
    bytes =
        store16-IsBytes (store16 (store32 g 16 ip) 10 0) 10
          (csum (store16 (store32 g 16 ip) 10 0) 0 10)
          (store16-IsBytes (store32 g 16 ip) 10 0
            (store16-IsBytes (store16 g 16 ip) 18 (ip / 65536) (store16-IsBytes g 16 ip b)))

-- The same 23 bytes further on.
pub readdressed-shifted :
    (f g : Buffer) (ip : ℕ)
    → ((i : ℕ) → i < 84 → f (23 + i) ≡ g (0 + i))
    → (i : ℕ) → i < 84
    → put_header_checksum (store32 f 39 ip) 23 (23 + i)
      ≡ put_header_checksum (store32 g 16 ip) 0 (0 + i)
readdressed-shifted f g ip same i lt =
    ap (λ c. store16 (store16 (store32 f 39 ip) 33 0) 33 c (23 + i))
      (csum_shift (store16 (store32 f 39 ip) 33 0) (store16 (store32 g 16 ip) 10 0) 23 0 10
        (λ j hi. cleared j (same j (omega arith))))
    ∙ stored (csum (store16 (store32 g 16 ip) 10 0) 0 10) i (cleared i (same i lt))
  where
    readdress :
        (j : ℕ) → f (23 + j) ≡ g (0 + j) → store32 f 39 ip (23 + j) ≡ store32 g 16 ip (0 + j)
    readdress j eq = ground arith

    shift16 :
        (a b : Buffer) (v j : ℕ)
        → a (23 + j) ≡ b (0 + j)
        → store16 a 33 v (23 + j) ≡ store16 b 10 v (0 + j)
    shift16 a b v j eq = ground arith

    cleared :
        (j : ℕ)
        → f (23 + j) ≡ g (0 + j)
        → store16 (store32 f 39 ip) 33 0 (23 + j) ≡ store16 (store32 g 16 ip) 10 0 (0 + j)
    cleared j eq = shift16 (store32 f 39 ip) (store32 g 16 ip) 0 j (readdress j eq)

    stored :
        (c j : ℕ)
        → store16 (store32 f 39 ip) 33 0 (23 + j) ≡ store16 (store32 g 16 ip) 10 0 (0 + j)
        → store16 (store16 (store32 f 39 ip) 33 0) 33 c (23 + j)
          ≡ store16 (store16 (store32 g 16 ip) 10 0) 10 c (0 + j)
    stored c j eq = shift16 (store16 (store32 f 39 ip) 33 0) (store16 (store32 g 16 ip) 10 0) c j eq
