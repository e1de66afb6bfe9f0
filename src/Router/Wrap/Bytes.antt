-- ===== src/Router/Wrap/Bytes.antt =====
-- Mini-Tor messages as bytes on the wire.
use torupload.Base.{
  length, get_or, ℕ, suc, ◌+◌, ◌/◌, ◌%◌, ◌≤◌, ◌≡◌, refl, ap₂, ◌∙◌, List, ◌∷◌, ◌++◌, arith, ap,
  get_or-append_right, [], ◌<◌,
}
use torupload.Base.Outcome.{ok, ◌>>=◌}
use torupload.Message.{Message, Buffer, slice, place, wire, store16, sub16, memcpy, u16, htons}
use torupload.Message.Laws.{
  slice-add, slice-place, slice-list, place-inside, memcpy_lem, length-slice,
}
use torupload.Machine.{Machine}
use torupload.Key.RoundTrip.{packed, wire-packed}
use torupload.Router.Wrap.{frame, tor_header, payload, put_payload}

-- A message with this command, these two bytes of identifier, and this payload.
abbrev pub tor_bytes : ℕ → ℕ → ℕ → List ℕ → List ℕ
tor_bytes command low high xs = tor_header ++ (command ∷ low ∷ high ∷ xs)

-- A message object that holds one.
pub record IsTor (m : Message) (command low high : ℕ) (xs : List ℕ) : Type 0 where
  pub head : slice m.msg 0 20 ≡ tor_header
  pub command_byte : m.msg 20 ≡ command
  pub low_byte : m.msg 21 ≡ low
  pub high_byte : m.msg 22 ≡ high
  pub body : slice m.msg 23 (length xs) ≡ xs
  pub len : m.actual_length ≡ 23 + length xs

pub IsTor-protocol : {m : Message} {c l h : ℕ} {xs : List ℕ} → IsTor m c l h xs → m.msg 9 ≡ 253
IsTor-protocol t = ap (λ ys. get_or ys 9 0) t.head

pub wire-IsTor :
    {m : Message} {c l h : ℕ} {xs : List ℕ} → IsTor m c l h xs → wire m ≡ tor_bytes c l h xs
wire-IsTor {m} {c} {l} {h} {xs} t =
    ap (slice m.msg 0) (t.len ∙ omega arith)
    ∙ slice-add m.msg 0 20 (3 + length xs)
    ∙ ap₂ ◌++◌ t.head (
        ap (slice m.msg 20) three
        ∙ ap₂ ◌∷◌ t.command_byte (ap₂ ◌∷◌ t.low_byte (ap₂ ◌∷◌ t.high_byte t.body)))
  where
    three : 3 + length xs ≡ suc (suc (suc (length xs)))
    three = omega arith

pub received-IsTor :
    (f : Buffer) (c l h : ℕ) (xs : List ℕ)
    → IsTor
        (record { msg = place f 0 (tor_bytes c l h xs); actual_length = 23 + length xs })
        c
        l
        h
        xs
received-IsTor f c l h xs = record {
  head = refl;
  command_byte = refl;
  low_byte = refl;
  high_byte = refl;
  body =
      slice-list (place f 0 (tor_bytes c l h xs)) 23 xs (λ i. f (0 + (23 + i)))
        (λ i lt.
          ap (place f 0 (tor_bytes c l h xs)) {x = 23 + i} {y = 0 + (23 + i)} (omega arith)
          ∙ place-inside f 0 (tor_bytes c l h xs) (23 + i)
          ∙ get_or-append_right (tor_bytes c l h []) xs i (f (0 + (23 + i))));
  len = refl;
}

-- A frame with a payload behind it.
abbrev pub attached : Buffer → Message → Message
attached f m = record { msg = place f 23 (wire m); actual_length = 23 + m.actual_length }

pub attached-IsTor :
    (f : Buffer) (command id : ℕ) (m : Message)
    → command < 256
    → IsTor (attached (frame f command (htons id)) m) command (id / 256 % 256) (id % 256) (wire m)
attached-IsTor f command id m small = record {
  head = refl;
  command_byte = omega arith;
  low_byte = omega arith;
  high_byte = omega arith;
  body = slice-place (frame f command (htons id)) 23 (wire m);
  len = omega (arith, length-slice m.msg 0 m.actual_length);
}

-- The message with its identifier (as stored) and its payload replaced.
abbrev pub framed : Message → ℕ → List ℕ → Message
framed m id xs = record { msg = place (store16 m.msg 21 id) 23 xs; actual_length = 23 + length xs }

pub framed-IsTor :
    {m : Message} {c l h : ℕ} {xs : List ℕ} (id : ℕ) (ys : List ℕ)
    → IsTor m c l h xs
    → IsTor (framed m id ys) c (id % 256) (id / 256 % 256) ys
framed-IsTor {m} id ys t = record {
  head = t.head;
  command_byte = t.command_byte;
  low_byte = refl;
  high_byte = refl;
  body = slice-place (store16 m.msg 21 id) 23 ys;
  len = refl;
}

module _ (e : Machine) where
  -- The payload, taken out.
  pub payload_lem :
      {m : Message} {c l h : ℕ} {xs : List ℕ}
      → IsTor m c l h xs
      → m.actual_length ≤ 500
      → payload e m ≡ ok (packed e xs)
  unfolding payload
  payload_lem {m} {xs = xs} t room =
      ap
        (λ n.
          memcpy e.indeterminate 0 m.msg 23 n >>= λ b. ok (record { msg = b; actual_length = n }))
        n
      ∙ ap (λ x. x >>= λ b. ok (record { msg = b; actual_length = length xs }))
          (memcpy_lem e.indeterminate 0 m.msg 23 (length xs) (omega (arith, t.len))
            (omega (arith, t.len)))
      ∙ ap (λ ys. ok (record { msg = place e.indeterminate 0 ys; actual_length = length xs }))
          t.body
    where
      n : sub16 m.actual_length 23 ≡ length xs
      n = omega (arith, t.len)

  -- A new payload, put in.
  pub put_payload_lem :
      (m : Message) (id : ℕ) (ys : List ℕ)
      → 23 + length ys ≤ 500
      → put_payload (record m { msg = store16 m.msg 21 id }) (packed e ys) ≡ ok (framed m id ys)
  unfolding put_payload
  put_payload_lem m id ys room =
      ap (λ x. x >>= λ b. ok (record { msg = b; actual_length = u16 (23 + length ys) }))
        (memcpy_lem (store16 m.msg 21 id) 23 (packed e ys).msg 0 (length ys) room (omega arith))
      ∙ ap₂ (λ zs n. ok (record { msg = place (store16 m.msg 21 id) 23 zs; actual_length = n }))
          (wire-packed e ys) (omega arith)
