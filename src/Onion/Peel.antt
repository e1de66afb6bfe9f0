-- ===== src/Onion/Peel.antt =====
-- What the layers are, and that they come off in the order of the hops.
use torupload.Message.Laws.{length-slice}
use torupload.Base.{
  ℕ, List, ◌≤◌, length, ◌∷◌, ◌≡◌, suc, ◌+◌, arith, some, ◌*◌, zero, [], refl, sym, ◌∙◌, fun_ext, ap,
}
use torupload.Base.Outcome.{◌>>=◌, ok, >>=-eq-ok}
use torupload.Message.{Message, wire}
use torupload.Aes.{IsAes}
use torupload.Key.{MyKey, encrypt_this_message, decrypt_this_message}
use torupload.Key.RoundTrip.{
  IsKey, seal, length-seal, packed, encrypt_this_message_lem, wire-packed, decrypt_this_message_lem,
}
use torupload.Machine.{Machine}
use torupload.Onion.{TorHop, onion_encrypt, decrypt_hops, hop_key, onion_decrypt}

-- The first hops of the array carry these keys.
abbrev pub HasKeys : List TorHop → List MyKey → Type 0
HasKeys hs [] = Unit {0}
HasKeys [] (k ∷ ks) = ⊥
HasKeys (h ∷ hs) (k ∷ ks) = (h.router_key ≡ some k) × HasKeys hs ks

abbrev pub AllKeys : Machine → List MyKey → Type 0
AllKeys e [] = Unit {0}
AllKeys e (k ∷ ks) = IsKey e k × AllKeys e ks

module _ (e : Machine) where
  -- The layers of the keys, the first key outermost.
  abbrev pub wrap : List MyKey → List ℕ → List ℕ
  wrap [] xs = xs
  wrap (k ∷ ks) xs = seal e k (wrap ks xs)

  pub length-wrap :
      IsAes e.aes
      → (ks : List MyKey) (xs : List ℕ) → length (wrap ks xs) ≤ length xs + 16 * length ks
  length-wrap laws [] xs = omega arith
  length-wrap laws (k ∷ ks) xs =
      omega (arith, length-seal e laws k (wrap ks xs), length-wrap laws ks xs)

  hop_key-suc : (h : TorHop) (hs : List TorHop) (i : ℕ) → hop_key (h ∷ hs) (suc i) ≡ hop_key hs i
  unfolding hop_key
  hop_key-suc h hs i = refl

  hop_key-zero :
      (h : TorHop) (hs : List TorHop) (k : MyKey)
      → h.router_key ≡ some k
      → hop_key (h ∷ hs) 0 ≡ ok k
  unfolding hop_key
  hop_key-zero h hs k has = rw has

  -- The encryption for hop 0 is the last one made.
  onion_encrypt-cons :
      (h : TorHop) (hs : List TorHop) (m : Message) (c : ℕ) (k : MyKey) {r s : Message}
      → h.router_key ≡ some k
      → onion_encrypt e hs m c ≡ ok r
      → encrypt_this_message e k r ≡ ok s
      → onion_encrypt e (h ∷ hs) m (suc c) ≡ ok s
  unfolding onion_encrypt
  onion_encrypt-cons h hs m zero k {r} {s} has inner outer =
      ap (λ x. x >>= λ k'. encrypt_this_message e k' m >>= λ t. ok t) (hop_key-zero h hs k has)
      ∙ ap (λ x. x >>= λ t. ok t) (ap (encrypt_this_message e k) (ground (arith, inner)) ∙ outer)
  onion_encrypt-cons h hs m (suc c) k {r} {s} has inner outer =
      let (k', at, rest) = >>=-eq-ok (hop_key hs c) _ inner in
      let (t, step, more) = >>=-eq-ok (encrypt_this_message e k' m) _ rest in
      ap
        (λ x. x >>= λ k''. encrypt_this_message e k'' m >>= λ u. onion_encrypt e (h ∷ hs) u (suc c))
        (hop_key-suc h hs c ∙ at)
      ∙ ap (λ x. x >>= λ u. onion_encrypt e (h ∷ hs) u (suc c)) step
      ∙ onion_encrypt-cons h hs t c k has more outer

  -- Where the first hops of the array carry the keys `ks` and the message leaves 16 bytes of room
  -- for each, `OnionEncrypt` for these hops succeeds, and the bytes that it gives are those of the
  -- message under one layer for each key, the first key's outermost.
  pub onion_encrypt-wrap :
      IsAes e.aes
      → (hops : List TorHop) (ks : List MyKey) (m : Message) → HasKeys hops ks
      → m.actual_length + 16 * length ks ≤ 500
      → (r : Message) × (onion_encrypt e hops m (length ks) ≡ ok r)
        × (wire r ≡ wrap ks (wire m))
        × (r.actual_length ≡ length (wrap ks (wire m)))
  onion_encrypt-wrap laws hops [] m has room =
      (m, unfold onion_encrypt in refl, refl, sym (length-slice m.msg 0 m.actual_length))
  onion_encrypt-wrap laws [] (k ∷ ks) m has room = absurd has
  onion_encrypt-wrap laws (h ∷ hs) (k ∷ ks) m has room =
      let (r, done, layers, len) = onion_encrypt-wrap laws hs ks m has.1 (omega arith) in
      (
        packed e (seal e k (wrap ks (wire m))),
        onion_encrypt-cons h hs m (length ks) k has.0 done (
            encrypt_this_message_lem e laws k r
              (omega (arith, length-wrap laws ks (wire m), length-slice m.msg 0 m.actual_length))
            ∙ ap (λ xs. ok (packed e (seal e k xs))) layers),
        wire-packed e (seal e k (wrap ks (wire m))),
        refl,
      )

  decrypt_hops-suc :
      (h : TorHop) (hs : List TorHop) (m : Message) (i rounds : ℕ)
      → decrypt_hops e (h ∷ hs) m (suc i) rounds ≡ decrypt_hops e hs m i rounds
  unfolding decrypt_hops
  decrypt_hops-suc h hs m i zero = refl
  decrypt_hops-suc h hs m i (suc rounds) =
      ap
        (λ x. x >>= λ k.
          decrypt_this_message e k m >>= λ t. decrypt_hops e (h ∷ hs) t (suc (suc i)) rounds)
        (hop_key-suc h hs i)
      ∙ ap (λ f. hop_key hs i >>= λ k. decrypt_this_message e k m >>= f)
          (fun_ext (λ t. decrypt_hops-suc h hs t (suc i) rounds))

  decrypt_hops-cons :
      IsAes e.aes
      → (h : TorHop) (hs : List TorHop) (m : Message) (xs : List ℕ) (rounds : ℕ) (k : MyKey)
        {r : Message}
      → h.router_key ≡ some k
      → IsKey e k
      → wire m ≡ seal e k xs
      → m.actual_length ≤ 500
      → decrypt_hops e hs (packed e xs) 0 rounds ≡ ok r
      → decrypt_hops e (h ∷ hs) m 0 (suc rounds) ≡ ok r
  unfolding decrypt_hops
  decrypt_hops-cons laws h hs m xs rounds k has key layer room rest =
      ap (λ x. x >>= λ k'. decrypt_this_message e k' m >>= λ t. decrypt_hops e (h ∷ hs) t 1 rounds)
        (hop_key-zero h hs k has)
      ∙ ap (λ x. x >>= λ t. decrypt_hops e (h ∷ hs) t 1 rounds)
          (decrypt_this_message_lem e laws k m xs key layer room)
      ∙ decrypt_hops-suc h hs (packed e xs) 0 rounds
      ∙ rest

  decrypt_hops-wrap :
      IsAes e.aes
      → (hops : List TorHop) (ks : List MyKey) (m : Message) (xs : List ℕ) → HasKeys hops ks
      → AllKeys e ks
      → wire m ≡ wrap ks xs
      → m.actual_length ≤ 500
      → (r : Message) × (decrypt_hops e hops m 0 (length ks) ≡ ok r) × (wire r ≡ xs)
  decrypt_hops-wrap laws hops [] m xs has keys layers room =
      (m, unfold decrypt_hops in refl, layers)
  decrypt_hops-wrap laws [] (k ∷ ks) m xs has keys layers room = absurd has
  decrypt_hops-wrap laws (h ∷ hs) (k ∷ ks) m xs has keys layers room =
      let next = packed e (wrap ks xs) in
      let (r, done, plain) =
        decrypt_hops-wrap laws hs ks next xs has.1 keys.1 (wire-packed e (wrap ks xs)) (
          omega (
            arith,
            length-seal e laws k (wrap ks xs),
            ap length layers,
            length-slice m.msg 0 m.actual_length,
          )) in
      (
        r,
        decrypt_hops-cons laws h hs m (wrap ks xs) (length ks) k has.0 keys.0 layers room done,
        plain,
      )

  -- Where the first hops of the array carry the keys `ks`, of 16 bytes and with the schedules of
  -- their texts, `OnionDecrypt` over these hops takes a message of at most 500 bytes that lies
  -- under their layers, the first key's outermost, to the bytes that the layers were put on.
  pub onion_decrypt-wrap :
      IsAes e.aes
      → (hops : List TorHop) (ks : List MyKey) (m : Message) (xs : List ℕ) → HasKeys hops ks
      → AllKeys e ks
      → wire m ≡ wrap ks xs
      → m.actual_length ≤ 500
      → (r : Message) × (onion_decrypt e hops (length ks) m ≡ ok r) × (wire r ≡ xs)
  unfolding onion_decrypt
  onion_decrypt-wrap laws hops ks m xs has keys layers room =
      decrypt_hops-wrap laws hops ks m xs has keys layers room

  -- Where the first hops of the array carry the keys `ks`, of 16 bytes and with the schedules of
  -- their texts, and the message leaves 16 bytes of room for each, `OnionEncrypt` for these hops
  -- and then `OnionDecrypt` over them both succeed and give back the bytes of the message.
  pub onion_decrypt-onion_encrypt :
      IsAes e.aes
      → (hops : List TorHop) (ks : List MyKey) (m : Message) → HasKeys hops ks
      → AllKeys e ks
      → m.actual_length + 16 * length ks ≤ 500
      → (c p : Message) × (onion_encrypt e hops m (length ks) ≡ ok c)
        × (onion_decrypt e hops (length ks) c ≡ ok p)
        × (wire p ≡ wire m)
  onion_decrypt-onion_encrypt laws hops ks m has keys room =
      let (c, sealed, layers, len) = onion_encrypt-wrap laws hops ks m has room in
      let (p, opened, plain) =
        onion_decrypt-wrap laws hops ks c (wire m) has keys layers
          (omega (arith, length-wrap laws ks (wire m), length-slice m.msg 0 m.actual_length)) in
      (c, p, sealed, opened, plain)
