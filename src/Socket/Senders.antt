-- ===== src/Socket/Senders.antt =====
-- The table of routers that have sent.
use torupload.Base.{
  lt→ltb, length, ℕ, zero, suc, ◌+◌, ◌-◌, ◌%◌, ◌≤◌, ◌<◌, ◌≡◌, refl, ap, ◌∙◌, ◌≢◌, Option, none,
  some, List, [], ◌∷◌, ◌++◌, arith, ◌⊎◌, inl, inr,
}
use torupload.Base.Outcome.{ok, fault, assertion}
use torupload.Socket.{
  SockAddr, UdpSocket, slot, set_slot, save_last_sender_info, address_of_router, draw,
  set_random_receiver,
}

abbrev pub registered : List (Option SockAddr) → ℕ
registered [] = 0
registered (none ∷ t) = registered t
registered (some a ∷ t) = suc (registered t)

-- The table has its ten places, and the counter counts those in use.
pub record IsTable (s : UdpSocket) : Type 0 where
  pub places : length s.who_have_send_me ≡ 10
  pub counted : s.sender_count ≡ registered s.who_have_send_me

slot-free : (t : List (Option SockAddr)) (i : ℕ) → slot t i ≡ ok none → registered t < length t
unfolding slot
slot-free [] i h = cc
slot-free (none ∷ t) zero h = omega (arith, registered-le t)
  where
    registered-le : (u : List (Option SockAddr)) → registered u ≤ length u
    registered-le [] = omega arith
    registered-le (none ∷ u) = omega (arith, registered-le u)
    registered-le (some a ∷ u) = omega (arith, registered-le u)
slot-free (some a ∷ t) zero h = cc
slot-free (none ∷ t) (suc i) h = omega (arith, slot-free t i h)
slot-free (some a ∷ t) (suc i) h = omega (arith, slot-free t i h)

some-registered :
    (t : List (Option SockAddr)) (i : ℕ) (a : SockAddr) → slot t i ≡ ok (some a) → 0 < registered t
unfolding slot
some-registered [] i a h = cc
some-registered (none ∷ t) zero a h = cc
some-registered (some b ∷ t) zero a h = omega arith
some-registered (none ∷ t) (suc i) a h = some-registered t i a h
some-registered (some b ∷ t) (suc i) a h = omega arith

pub slot-set_slot :
    (t : List (Option SockAddr)) (i : ℕ) (v : SockAddr)
    → i < length t
    → slot (set_slot t i v) i ≡ ok (some v)
unfolding slot set_slot
slot-set_slot [] i v h = elim h [ ]
slot-set_slot (a ∷ t) zero v h = refl
slot-set_slot (a ∷ t) (suc i) v h = slot-set_slot t i v (omega arith)

pub slot-set_slot_ne :
    (t : List (Option SockAddr)) (i j : ℕ) (v : SockAddr)
    → i ≢ j
    → slot (set_slot t i v) j ≡ slot t j
unfolding slot set_slot
slot-set_slot_ne [] i j v ne = refl
slot-set_slot_ne (a ∷ t) zero zero v ne = absurd (ne refl)
slot-set_slot_ne (a ∷ t) zero (suc j) v ne = refl
slot-set_slot_ne (a ∷ t) (suc i) zero v ne = refl
slot-set_slot_ne (a ∷ t) (suc i) (suc j) v ne = slot-set_slot_ne t i j v (λ e. ne (ap suc e))

length-set_slot :
    (t : List (Option SockAddr)) (i : ℕ) (v : SockAddr) → length (set_slot t i v) ≡ length t
unfolding set_slot
length-set_slot [] i v = refl
length-set_slot (a ∷ t) zero v = refl
length-set_slot (a ∷ t) (suc i) v = ap suc (length-set_slot t i v)

registered-set_slot :
    (t : List (Option SockAddr)) (i : ℕ) (v : SockAddr)
    → slot t i ≡ ok none
    → registered (set_slot t i v) ≡ registered t + 1
unfolding slot set_slot
registered-set_slot [] i v h = cc
registered-set_slot (none ∷ t) zero v h = omega arith
registered-set_slot (some a ∷ t) zero v h = cc
registered-set_slot (none ∷ t) (suc i) v h = registered-set_slot t i v h
registered-set_slot (some a ∷ t) (suc i) v h = omega (arith, registered-set_slot t i v h)

pub slot-some-lt :
    (t : List (Option SockAddr)) (i : ℕ) (a : Option SockAddr) → slot t i ≡ ok a → i < length t
unfolding slot
slot-some-lt [] i a h = cc
slot-some-lt (b ∷ t) zero a h = omega arith
slot-some-lt (b ∷ t) (suc i) a h = omega (arith, slot-some-lt t i a h)

-- What `SaveLastSenderInfo` leaves.
abbrev pub saved : UdpSocket → ℕ → UdpSocket
saved s id = record s {
  who_have_send_me = set_slot s.who_have_send_me (id - 1) s.last_sender;
  sender_count = s.sender_count + 1;
}

-- In a table of ten places that its counter is in step with, a router's identifier from 1 on whose
-- place is free: `SaveLastSenderInfo` succeeds, the table stays in step with its counter, the
-- router has the last sender's address from then on, and the address of every other router stays
-- what it was.
pub save_last_sender_info_lem :
    (s : UdpSocket) (id : ℕ)
    → IsTable s
    → 0 < id
    → slot s.who_have_send_me (id - 1) ≡ ok none
    → (save_last_sender_info s id ≡ ok (saved s id))
      × IsTable (saved s id)
      × (address_of_router (saved s id) id ≡ ok s.last_sender)
      × ((j : ℕ) → 0 < j → j ≢ id → address_of_router (saved s id) j ≡ address_of_router s j)
unfolding save_last_sender_info address_of_router
save_last_sender_info_lem s id table pos free =
    let room : s.sender_count < 10 =
      omega (arith, table.places, table.counted, slot-free s.who_have_send_me (id - 1) free) in
    (
      rw (lt→ltb s.sender_count 10 room, lt→ltb 0 id pos, free),
      record {
        places = length-set_slot s.who_have_send_me (id - 1) s.last_sender ∙ table.places;
        counted = omega (
          arith,
          table.counted,
          registered-set_slot s.who_have_send_me (id - 1) s.last_sender free,
        );
      },
      rw (
        lt→ltb 0 id pos,
        slot-set_slot s.who_have_send_me (id - 1) s.last_sender
            (slot-some-lt s.who_have_send_me (id - 1) none free),
      ),
      λ j jpos ne.
          rw (slot-set_slot_ne s.who_have_send_me (id - 1) (j - 1) s.last_sender (omega arith)),
    )

-- `SaveLastSenderInfo` fails an assertion for a router whose address is known already.
pub save_last_sender_info_twice :
    (s : UdpSocket) (id : ℕ) (a : SockAddr)
    → address_of_router s id ≡ ok a
    → save_last_sender_info s id ≡ fault assertion
unfolding save_last_sender_info address_of_router
save_last_sender_info_twice s id a h = ground arith

slot-total :
    (t : List (Option SockAddr)) (i : ℕ)
    → i < length t
    → (slot t i ≡ ok none) ⊎ ((a : SockAddr) × (slot t i ≡ ok (some a)))
unfolding slot
slot-total [] i h = elim h [ ]
slot-total (none ∷ t) zero h = inl refl
slot-total (some a ∷ t) zero h = inr (a, refl)
slot-total (none ∷ t) (suc i) h = slot-total t i (omega arith)
slot-total (some a ∷ t) (suc i) h = slot-total t i (omega arith)

draw-hits :
    (table : List (Option SockAddr)) (rands later : List ℕ) (r : ℕ) (a : SockAddr)
    → length table ≡ 10
    → slot table (r % 10) ≡ ok (some a)
    → (i : ℕ) × (b : SockAddr) × (draw table (rands ++ r ∷ later) ≡ ok (some b))
      × (slot table i ≡ ok (some b))
unfolding draw
draw-hits table [] later r a len hit = (r % 10, a, rw hit, hit)
draw-hits table (x ∷ rands) later r a len hit =
    let (i, b, rest, there) = draw-hits table rands later r a len hit in
    elim (slot-total table (x % 10) (omega arith)) [
      | inl miss ↦ (i, b, rw miss rest, there)
      | inr (c, found) ↦ (x % 10, c, rw found, found)
    ]

-- In a table of ten places that its counter is in step with, `SetRandomReceiver` ends when `rand()`
-- gives a value `r` whose place is in use, whatever values came before; the socket then sends to an
-- address that is in the table, and nothing else of it changes.
pub set_random_receiver_lem :
    (s : UdpSocket) (rands later : List ℕ) (r : ℕ) (a : SockAddr)
    → IsTable s
    → slot s.who_have_send_me (r % 10) ≡ ok (some a)
    → (i : ℕ) × (b : SockAddr) × (set_random_receiver s (rands ++ r ∷ later)
        ≡ ok (some (record s { send_to_address = b })))
      × (slot s.who_have_send_me i ≡ ok (some b))
unfolding set_random_receiver
set_random_receiver_lem s rands later r a table hit =
    let (i, b, drawn, there) = draw-hits s.who_have_send_me rands later r a table.places hit in
    (
      i,
      b,
      rw (
        lt→ltb 0 s.sender_count
            (omega (arith, table.counted, some-registered s.who_have_send_me i b there)),
        drawn,
      ),
      there,
    )
