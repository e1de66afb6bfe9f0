-- ===== src/Proxy/Loop/Order.antt =====
-- The order in which the loop over the descriptors comes to the two that matter.
use native.Mathlib.Decide.{dec_lt}
use torupload.Proxy.State.{Proxy}
use torupload.Proxy.Loop.{
  Readable, descriptors, descriptor, and_on, max_fd_plus1, read_socket, read_tunnel,
}
use torupload.Base.Outcome.{Outcome, ok, fault}
use torupload.Machine.{Machine}
use torupload.Base.{
  ◌≡◌, refl, ◌∙◌, arith, ◌≢◌, ltb, if◌then◌else◌, ℕ, zero, suc, ◌+◌, ◌≤◌, ◌<◌, fun_ext, Option,
  none, some, ap, ◌-◌, sym, ap₂,
}

-- One after the other: the lower descriptor first.
abbrev pub in_order : Machine → ℕ → ℕ → Readable → Proxy → Outcome (Option Proxy)
in_order e sock_fd tun_fd ready p =
    if ltb sock_fd tun_fd
    then (and_on (read_socket e sock_fd tun_fd p ready.socket)
        (λ p1. read_tunnel e sock_fd tun_fd p1 ready.tunnel))
    else (and_on (read_tunnel e sock_fd tun_fd p ready.tunnel)
        (λ p1. read_socket e sock_fd tun_fd p1 ready.socket))

and_on-end : (m : Outcome (Option Proxy)) → and_on m (λ p. ok (some p)) ≡ m
and_on-end (ok none) = refl
and_on-end (ok (some p)) = refl
and_on-end (fault why) = refl

module _ (e : Machine) (sock_fd tun_fd : ℕ) (ready : Readable) where
  other_descriptor :
      (p : Proxy) (var : ℕ)
      → var ≢ sock_fd
      → var ≢ tun_fd
      → descriptor e sock_fd tun_fd ready p var ≡ ok (some p)
  unfolding descriptor
  other_descriptor p var sock tun = ground arith

  sock_descriptor :
      (p : Proxy)
      → sock_fd ≢ tun_fd
      → descriptor e sock_fd tun_fd ready p sock_fd ≡ read_socket e sock_fd tun_fd p ready.socket
  unfolding descriptor
  sock_descriptor p apart = ground arith

  tun_descriptor :
      (p : Proxy)
      → sock_fd ≢ tun_fd
      → descriptor e sock_fd tun_fd ready p tun_fd ≡ read_tunnel e sock_fd tun_fd p ready.tunnel
  unfolding descriptor
  tun_descriptor p apart = ground arith

  -- Descriptors that are neither of the two, `n` of them from `var` on, and then the others.
  descriptors-skip :
      (p : Proxy) (var n rounds total w : ℕ)
      → total ≡ n + rounds
      → w ≡ var + n
      → ((i : ℕ) → var ≤ i → i < w → (i ≢ sock_fd) × (i ≢ tun_fd))
      → descriptors e sock_fd tun_fd ready p var total
        ≡ descriptors e sock_fd tun_fd ready p w rounds
  unfolding descriptors
  descriptors-skip p var zero rounds total w sum start others =
      ap (λ v. descriptors e sock_fd tun_fd ready p v total) {x = var} {y = w} (omega arith)
      ∙ ap (descriptors e sock_fd tun_fd ready p w) {x = total} {y = rounds} (omega arith)
  descriptors-skip p var (suc n) rounds total w sum start others =
      let (sock, tun) = others var (omega arith) (omega arith) in
      ap (descriptors e sock_fd tun_fd ready p var) {x = total} {y = suc (n + rounds)} (omega arith)
      ∙ ap (λ m. and_on m (λ p1. descriptors e sock_fd tun_fd ready p1 (var + 1) (n + rounds)))
          (other_descriptor p var sock tun)
      ∙ descriptors-skip p (var + 1) n rounds (n + rounds) w refl (omega arith)
          (λ i low high. others i (omega arith) high)

  -- Descriptors from 0 on, of which only `low` and the last one, `high`, matter.
  descriptors_two :
      (p : Proxy) (low high : ℕ)
      → low < high
      → ((i : ℕ) → i < high → i ≢ low → (i ≢ sock_fd) × (i ≢ tun_fd))
      → descriptors e sock_fd tun_fd ready p 0 (high + 1)
        ≡ and_on
            (descriptor e sock_fd tun_fd ready p low)
            (λ p1. descriptor e sock_fd tun_fd ready p1 high)
  unfolding descriptors
  descriptors_two p low high below others =
      descriptors-skip p 0 low (suc (high - low)) (high + 1) low (omega arith) (omega arith)
        (λ i a b. others i (omega arith) (λ same. absurd (omega arith)))
      ∙ ap (λ next. and_on (descriptor e sock_fd tun_fd ready p low) next)
          {x = λ p1. descriptors e sock_fd tun_fd ready p1 (low + 1) (high - low)}
          (fun_ext (λ p1.
            descriptors-skip p1 (low + 1) (high - low - 1) 1 (high - low) high (omega arith)
              (omega arith) (λ i a b. others i b (λ same. absurd (omega arith)))
            ∙ and_on-end (descriptor e sock_fd tun_fd ready p1 high)))

  -- For a socket and a tunnel with different descriptors, the loop over all descriptors up to the
  -- larger one does what the two do one after the other, the one with the lower descriptor first:
  -- each that is readable is read once, and the second as the first has left the proxy.
  pub descriptors-in_order :
      (p : Proxy)
      → sock_fd ≢ tun_fd
      → descriptors e sock_fd tun_fd ready p 0 (max_fd_plus1 e sock_fd tun_fd)
        ≡ in_order e sock_fd tun_fd ready p
  descriptors-in_order p apart = elim (dec_lt sock_fd tun_fd) [
    | yes below ↦
        ap (descriptors e sock_fd tun_fd ready p 0) {y = tun_fd + 1} (ground arith)
        ∙ descriptors_two p sock_fd tun_fd below (λ i a b. (b, λ same. absurd (omega arith)))
        ∙ ap₂ and_on (sock_descriptor p apart) (fun_ext (λ p1. tun_descriptor p1 apart))
        ∙ sym (ground arith)
    | no above ↦
        ap (descriptors e sock_fd tun_fd ready p 0) {y = sock_fd + 1} (ground arith)
        ∙ descriptors_two p tun_fd sock_fd (omega arith)
            (λ i a b. ((λ same. absurd (omega arith)), b))
        ∙ ap₂ and_on (tun_descriptor p apart) (fun_ext (λ p1. sock_descriptor p1 apart))
        ∙ sym (ground arith)
  ]
