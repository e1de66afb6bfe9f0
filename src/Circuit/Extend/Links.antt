-- ===== src/Circuit/Extend/Links.antt =====
-- What one router does with the messages that build a circuit through it.
use torupload.Router.Create6.Handshake.{cct_creation_6-key, cct_creation_6-extend}
use torupload.Router.Create6.Passing.{
  cct_creation_6-return_extend_done, cct_creation_6-forward_key,
  cct_creation_6-forward_secure_extend,
}
use torupload.Router.Handler.Stage6.{handle-creation, noticed, arrival-IsTor}
use torupload.Circuit.{newest}
use torupload.Key.RoundTrip.{length-seal, seal, key_from_proxy-IsKey}
use torupload.Base.Outcome.{ok}
use torupload.Trace.{udp_sent}
use torupload.Router.Wrap.Bytes.{tor_bytes}
use torupload.Key.{MyKey, key_from_proxy}
use torupload.Router.Handler.{handle, from_udp}
use torupload.Socket.{SockAddr, arrived}
use torupload.Router.State.{
  fake_diffie_hellman, Router, enc_circuit_extend, enc_circuit_extend_done,
}
use torupload.Aes.{IsAes}
use torupload.Machine.{Machine}
use torupload.Base.{
  length, ℕ, ◌+◌, ◌*◌, ◌/◌, ◌%◌, ◌≤◌, ◌<◌, ◌≡◌, refl, inl, inr, some, List, [], ◌∷◌, arith, ap₂,
}
use torupload.Circuit.Extend.{IsFresh, IsKeyed, IsLink}
use torupload.Router.Contract.{view}

module _ (e : Machine) (laws : IsAes e.aes) where
  -- A key for a router further on.
  pub handle-key_passed :
      (r : Router) (prev : SockAddr) (id port : ℕ) (xs : List ℕ) (k : MyKey)
      → IsLink e k port prev id (view r)
      → port < 65536
      → 39 + length xs ≤ 500
      → (r1 : Router) × (a : SockAddr) × (handle e r (
            from_udp (
              arrived prev
                (tor_bytes fake_diffie_hellman (id / 256 % 256) (id % 256) (seal e k xs))))
          ≡ ok r1)
        × (newest r1.trace
            ≡ some (
                udp_sent a (
                  tor_bytes fake_diffie_hellman
                    (r.entry.my_circuit_id / 256 % 256)
                    (r.entry.my_circuit_id % 256)
                    xs)))
        × (a.sin_port ≡ port)
        × (view r1 ≡ view r)
  handle-key_passed r prev id port xs k link small room =
      let l = id / 256 % 256 in
      let h = id % 256 in
      let sealed = seal e k xs in
      let len = length-seal e laws k xs in
      (
        _,
        _,
        handle-creation e r prev fake_diffie_hellman l h sealed link.stage (omega (arith, len))
            (inl refl)
            (cct_creation_6-forward_key e laws (noticed r prev fake_diffie_hellman l h sealed) xs k
              link.has_key link.key link.schedules (arrival-IsTor r fake_diffie_hellman l h sealed)
              (omega (arith, len))),
        refl,
        omega (arith, link.next),
        refl,
      )

  -- A key for this router.
  pub handle-key_taken :
      (r : Router) (prev : SockAddr) (id : ℕ) (text : List ℕ)
      → IsFresh (view r)
      → id < 65536
      → length text ≡ 16
      → (r1 : Router) × (handle e r (
            from_udp
              (arrived prev (tor_bytes fake_diffie_hellman (id / 256 % 256) (id % 256) text)))
          ≡ ok r1)
        × IsKeyed e (key_from_proxy e text) prev id (view r1)
  handle-key_taken r prev id text fresh small size =
      let l = id / 256 % 256 in
      let h = id % 256 in
      (
        _,
        handle-creation e r prev fake_diffie_hellman l h text fresh.stage (omega (arith, size))
            (inl refl)
            (cct_creation_6-key e (noticed r prev fake_diffie_hellman l h text) text fresh.no_key
              (arrival-IsTor r fake_diffie_hellman l h text) size),
        record {
          stage = fresh.stage;
          key = refl;
          schedules = key_from_proxy-IsKey e text size;
          requester = refl;
          given = omega arith;
          has_key = refl;
          no_hop = fresh.no_hop;
        },
      )

  -- An extension request for a router further on.
  pub handle-extend_passed :
      (r : Router) (prev : SockAddr) (id port : ℕ) (xs : List ℕ) (k : MyKey)
      → IsLink e k port prev id (view r)
      → 39 + length xs ≤ 500
      → (r1 : Router) × (a : SockAddr) × (handle e r (
            from_udp (
              arrived prev
                (tor_bytes enc_circuit_extend (id / 256 % 256) (id % 256) (seal e k xs))))
          ≡ ok r1)
        × (newest r1.trace
            ≡ some (
                udp_sent a (
                  tor_bytes enc_circuit_extend
                    (r.entry.my_circuit_id / 256 % 256)
                    (r.entry.my_circuit_id % 256)
                    xs)))
        × (a.sin_port ≡ port)
        × (view r1 ≡ view r)
  handle-extend_passed r prev id port xs k link room =
      let l = id / 256 % 256 in
      let h = id % 256 in
      let sealed = seal e k xs in
      let len = length-seal e laws k xs in
      (
        _,
        _,
        handle-creation e r prev enc_circuit_extend l h sealed link.stage (omega (arith, len))
            (inr (inl refl))
            (cct_creation_6-forward_secure_extend e laws
              (noticed r prev enc_circuit_extend l h sealed) xs k link.has_hop link.key
              link.schedules (arrival-IsTor r enc_circuit_extend l h sealed) (omega (arith, len))),
        refl,
        link.next,
        refl,
      )

  -- An extension request for this router.
  pub handle-extend_taken :
      (r : Router) (prev : SockAddr) (id low high : ℕ) (k : MyKey)
      → IsKeyed e k prev id (view r)
      → id < 65536
      → (r1 : Router) × (handle e r (
            from_udp (
              arrived prev (
                tor_bytes enc_circuit_extend
                  (id / 256 % 256)
                  (id % 256)
                  (seal e k (low ∷ high ∷ [])))))
          ≡ ok r1)
        × (newest r1.trace
            ≡ some
                (udp_sent prev (tor_bytes enc_circuit_extend_done (id / 256 % 256) (id % 256) [])))
        × IsLink e k (low + 256 * high) prev id (view r1)
  handle-extend_taken r prev id low high k keyed small =
      let l = id / 256 % 256 in
      let h = id % 256 in
      let sealed = seal e k (low ∷ high ∷ []) in
      let len = length-seal e laws k (low ∷ high ∷ []) in
      (
        _,
        handle-creation e r prev enc_circuit_extend l h sealed keyed.stage (omega (arith, len))
            (inr (inl refl))
            (cct_creation_6-extend e laws (noticed r prev enc_circuit_extend l h sealed) low high k
              keyed.no_hop keyed.key keyed.schedules (arrival-IsTor r enc_circuit_extend l h sealed)
              (omega (arith, len)) (omega (arith, keyed.given))),
        refl,
        record {
          stage = keyed.stage;
          key = keyed.key;
          schedules = keyed.schedules;
          requester = keyed.requester;
          given = keyed.given;
          has_key = keyed.has_key;
          has_hop = refl;
          next = refl;
          own = omega arith;
        },
      )

  -- An answer from a router further on.
  pub handle-done_returned :
      (r : Router) (from prev : SockAddr) (id port : ℕ) (k : MyKey)
      → IsLink e k port prev id (view r)
      → (r1 : Router) × (handle e r (
            from_udp (
              arrived from (
                tor_bytes enc_circuit_extend_done
                  (r.entry.my_circuit_id / 256 % 256)
                  (r.entry.my_circuit_id % 256)
                  [])))
          ≡ ok r1)
        × (newest r1.trace
            ≡ some
                (udp_sent prev (tor_bytes enc_circuit_extend_done (id / 256 % 256) (id % 256) [])))
        × (view r1 ≡ view r)
  handle-done_returned r from prev id port k link =
      let l = r.entry.my_circuit_id / 256 % 256 in
      let h = r.entry.my_circuit_id % 256 in
      (
        _,
        handle-creation e r from enc_circuit_extend_done l h [] link.stage (omega arith)
            (inr (inr refl))
            (cct_creation_6-return_extend_done e (noticed r from enc_circuit_extend_done l h [])
              (arrival-IsTor r enc_circuit_extend_done l h []) (omega (arith, link.own))),
        ap₂
            (λ a i.
              some (udp_sent a (tor_bytes enc_circuit_extend_done (i / 256 % 256) (i % 256) [])))
            link.requester link.given,
        refl,
      )
