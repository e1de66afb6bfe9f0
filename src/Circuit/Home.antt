-- ===== src/Circuit/Home.antt =====
-- A reply at the proxy: the layers come off, and the packet goes to the tunnel.
pub mod Pong
use torupload.Circuit.{newest}
use torupload.Onion.{onion_decrypt}
use torupload.Socket.Receive.{receive_message_lem}
use torupload.Socket.{SockAddr, arrived}
use torupload.Base.{
  length, get_or, ℕ, zero, suc, ◌+◌, ◌≤◌, ◌<◌, ◌≡◌, refl, sym, ap, ◌∙◌, ◌⊎◌, List, ◌∷◌, arith, ◌/◌,
  ◌^◌, eq→==, ◌*◌, subst, some,
}
use torupload.Base.Outcome.{ok, >>=-ok}
use torupload.Message.{Message, Buffer, slice, load32, store16, store32, place}
use torupload.Message.Laws.{length-slice, slice_ext}
use torupload.Checksum.{csum}
use torupload.Checksum.Verify.{IsBytes, csum_ext, csum-put_checksum, store16-IsBytes}
use torupload.Aes.{IsAes}
use torupload.Machine.{Machine}
use torupload.Key.{MyKey}
use torupload.Key.RoundTrip.{packed, wire-packed}
use torupload.Onion.Peel.{HasKeys, AllKeys, wrap, onion_decrypt-wrap, length-wrap}
use torupload.Trace.{tun_written}
use torupload.Router.State.{relay_data_bwd_enc}
use torupload.Router.Packet.{put_header_checksum}
use torupload.Router.Wrap.Bytes.{IsTor, tor_bytes, payload_lem, received-IsTor}
use torupload.Proxy.State.{Proxy}
use torupload.Proxy.Tunnel.{onion_from_router, router_readable}

pub slice-byte : (f : Buffer) (o n i : ℕ) → i < n → get_or (slice f o n) i 0 ≡ f (o + i)
slice-byte f o zero i h = elim h [ ]
slice-byte f o (suc n) zero h = ap f (omega arith)
slice-byte f o (suc n) (suc i) h = slice-byte f (suc o) n i (omega arith) ∙ ap f (omega arith)

store16_ext : (f g : Buffer) (o v i : ℕ) → f i ≡ g i → store16 f o v i ≡ store16 g o v i
store16_ext f g o v i h = ground (arith, h)

pub store32_ext : (f g : Buffer) (o v i : ℕ) → f i ≡ g i → store32 f o v i ≡ store32 g o v i
store32_ext f g o v i h =
    store16_ext (store16 f o v) (store16 g o v) (o + 2) (v / 65536) i (store16_ext f g o v i h)

-- The packet as it is written to the tunnel.
abbrev pub addressed : Machine → Buffer → Buffer
addressed e f = put_header_checksum (store32 f 16 (e.nic 0)) 0

pub addressed_ext :
    (e : Machine) (f g : Buffer)
    → ((i : ℕ) → i < 84 → f i ≡ g i)
    → (i : ℕ) → i < 84
    → addressed e f i ≡ addressed e g i
addressed_ext e f g h i lt =
    ap (λ c. store16 (cleared f) 10 c i)
      (csum_ext (cleared f) (cleared g) 0 10 (λ j lo hi. same j (omega arith)))
    ∙ store16_ext (cleared f) (cleared g) 10 (csum (cleared g) 0 10) i (same i lt)
  where
    cleared : Buffer → Buffer
    cleared x = store16 (store32 x 16 (e.nic 0)) 10 0

    same : (j : ℕ) → j < 84 → cleared f j ≡ cleared g j
    same j below =
        store16_ext (store32 f 16 (e.nic 0)) (store32 g 16 (e.nic 0)) 10 0 j
          (store32_ext f g 16 (e.nic 0) j (h j below))

-- What is asked of the packet `g` that is written, where `f` is the one that was sent.
pub record IsDelivered (e : Machine) (f g : Buffer) : Type 0 where
  pub header_sum : csum g 0 10 ≡ 0
  pub destination : load32 g 16 ≡ e.nic 0
  pub elsewhere : (i : ℕ) → (i < 10) ⊎ (((12 ≤ i) × (i < 16)) ⊎ (20 ≤ i)) → g i ≡ f i

pub addressed-IsDelivered :
    (e : Machine) (f : Buffer) → IsBytes f → e.nic 0 < 2 ^ 32 → IsDelivered e f (addressed e f)
addressed-IsDelivered e f b small = record {
  header_sum =
      csum-put_checksum (store32 f 16 (e.nic 0)) 0 10 5 10
        (store16-IsBytes (store16 f 16 (e.nic 0)) 18 (e.nic 0 / 65536)
          (store16-IsBytes f 16 (e.nic 0) b))
        (omega arith) (omega arith) refl;
  destination = omega (arith, small);
  elsewhere = λ i out. untouched (csum (store16 (store32 f 16 (e.nic 0)) 10 0) 0 10) i out;
}
  where
    untouched :
        (c i : ℕ)
        → (i < 10) ⊎ (((12 ≤ i) × (i < 16)) ⊎ (20 ≤ i))
        → store16 (store16 (store32 f 16 (e.nic 0)) 10 0) 10 c i ≡ f i
    untouched c i out = ground arith

-- A message as it is received: the object's length is that of the bytes.
pub received :
    (e : Machine) (c l h : ℕ) (xs : List ℕ)
    → IsTor
        (record {
          msg = place e.indeterminate 0 (tor_bytes c l h xs);
          actual_length = length (tor_bytes c l h xs);
        })
        c
        l
        h
        xs
received e c l h xs =
    subst
      (λ n.
        IsTor (record { msg = place e.indeterminate 0 (tor_bytes c l h xs); actual_length = n }) c l
          h xs)
      (omega arith) (received-IsTor e.indeterminate c l h xs)

module _ (e : Machine) (laws : IsAes e.aes) where
  onion_from_router_lem :
      (p : Proxy) {m : Message} {l h : ℕ} (ks : List MyKey) (xs : List ℕ)
      → HasKeys p.tor_cct_hops ks
      → AllKeys e ks
      → length ks ≡ p.no_of_hops
      → length xs ≡ 84
      → IsTor m relay_data_bwd_enc l h (wrap e ks xs)
      → m.actual_length ≤ 500
      → onion_from_router e p m
        ≡ ok (record p {
          trace = tun_written (slice (addressed e (λ i. get_or xs i 0)) 0 84) ∷ p.trace;
        })
  unfolding onion_from_router
  onion_from_router_lem p {m} ks xs has keys count size t room =
      let (r, opened, plain) =
        onion_decrypt-wrap e laws p.tor_cct_hops ks (packed e (wrap e ks xs)) xs has keys
          (wire-packed e (wrap e ks xs)) (omega (arith, t.len)) in
      let len : r.actual_length ≡ 84 =
        sym (length-slice r.msg 0 r.actual_length) ∙ ap length plain ∙ size in
      let same : (i : ℕ) → i < 84 → r.msg i ≡ get_or xs i 0 = λ i lt.
        ap r.msg {x = i} {y = 0 + i} (omega arith)
        ∙ sym (slice-byte r.msg 0 r.actual_length i (omega (arith, len)))
        ∙ ap (λ ys. get_or ys i 0) plain in
      rw (eq→== (m.msg 20) 100 t.command_byte) (
        >>=-ok _ _ (payload_lem e t room) (
          >>=-ok _ _
            (ap (λ n. onion_decrypt e p.tor_cct_hops n (packed e (wrap e ks xs))) (sym count)
              ∙ opened)
            (rw (eq→== r.actual_length 84 len) (
              ap (λ bytes. ok (record p { trace = tun_written bytes ∷ p.trace }))
                (slice_ext (addressed e r.msg) (addressed e (λ i. get_or xs i 0)) 0 0 84 (λ i lt.
                  addressed_ext e r.msg (λ j. get_or xs j 0) same (0 + i) (omega arith)))))))

  router_readable-stage6 :
      (p : Proxy) (from : SockAddr) (bytes : List ℕ)
      → p.stage ≡ 6
      → length bytes ≤ 500
      → router_readable e p (arrived from bytes)
        ≡ onion_from_router e
            (record p { sock_parent = record p.sock_parent { last_sender = from } })
            (record { msg = place e.indeterminate 0 bytes; actual_length = length bytes })
  unfolding router_readable
  router_readable-stage6 p from bytes stage room = rw (
    stage,
    receive_message_lem p.sock_parent (record { msg = e.indeterminate; actual_length = 0 }) from
        bytes room,
  )

  -- What comes home.
  pub router_readable_home :
      (p : Proxy) (from : SockAddr) (l h : ℕ) (ks : List MyKey) (xs : List ℕ)
      → p.stage ≡ 6
      → HasKeys p.tor_cct_hops ks
      → AllKeys e ks
      → length ks ≡ p.no_of_hops
      → length xs ≡ 84
      → 107 + 16 * length ks ≤ 500
      → (p' : Proxy) × (router_readable e p
            (arrived from (tor_bytes relay_data_bwd_enc l h (wrap e ks xs)))
          ≡ ok p')
        × (newest p'.trace ≡ some (tun_written (slice (addressed e (λ i. get_or xs i 0)) 0 84)))
  router_readable_home p from l h ks xs stage has keys count size room = (
    _,
    router_readable-stage6 p from (tor_bytes relay_data_bwd_enc l h (wrap e ks xs)) stage
          (omega (arith, length-wrap e laws ks xs))
        ∙ onion_from_router_lem
            (record p { sock_parent = record p.sock_parent { last_sender = from } }) ks xs has keys
            count size (received e relay_data_bwd_enc l h (wrap e ks xs))
            (omega (arith, length-wrap e laws ks xs)),
    refl,
  )
