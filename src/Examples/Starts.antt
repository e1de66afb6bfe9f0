-- ===== src/Examples/Starts.antt =====
-- The configuration, the processes at their start, and single operations.
use torupload.Circuit.Plain.{IsChain, IsJoint, exchange-IsJoint}
use torupload.Trace.{udp_sent}
use torupload.Circuit.Extend.{exchange}
use torupload.Router.Handler.Keyless.{handle-keyless}
use torupload.Router.Handler.{handle, from_udp}
use torupload.Circuit.Startup.{HasReported, router_process-HasReported}
use torupload.Router.Wrap.Bytes.{tor_bytes}
use torupload.Router.State.{Router, relay_data_fwd_enc, circuit_extend, circuit_extend_done}
use torupload.Checksum.Reference.{internet_checksum, csum-internet_checksum}
use torupload.Base.Outcome.{fault, ok, out_of_bounds, null_pointer}
use torupload.Config.Settings.{IsSetting, config_of, read_config-long_word, IsWordChar}
use torupload.Socket.Senders.{IsTable}
use torupload.Checksum.{csum}
use torupload.Router.Start.{report, address_part, ip_to_string, router_process}
use torupload.Socket.{new_socket, slot, arrived}
use torupload.Message.{htons}
use torupload.Config.{read_config}
use torupload.Config.Lines.{AreComments}
use torupload.Examples.{
  proxy, blank_message, address2, toy, address1, key1, fresh_router, packet, router_on,
  proxy_address,
}
use torupload.Proxy.Register.{register_all}
use torupload.Text.{codes, decimal, is_space}
use torupload.Proxy.Register.Table.{
  Report, Free, datagrams, filled, AreReports, address_in, register_all_lem,
}
use torupload.Base.{
  ℕ, ◌+◌, ◌-◌, ◌%◌, ◌<◌, ◌≡◌, refl, List, [], ◌∷◌, arith, ◌==◌, All, Bool, true, ◌&&◌, not, inl,
  some,
}
use torupload.Proxy.State.{Proxy}

-- A file as in the repository, its long word cut short.
abbrev comment : List (List ℕ)
comment = codes " x" ∷ []

abbrev all_words : List ℕ → Bool
all_words [] = true
all_words (c ∷ cs) = not (is_space c) && (not (c == 0) && all_words cs)

word_chars : (cs : List ℕ) → all_words cs ≡ true → All IsWordChar cs
word_chars [] h = tt
word_chars (c ∷ cs) h = ((ground (arith, h), ground (arith, h)), word_chars cs (ground (arith, h)))

stage-IsSetting : IsSetting (codes "stage") 6
unfolding decimal
stage-IsSetting = record {
  first = b's';
  others = codes "tage";
  is = refl;
  word = word_chars (codes "stage") refl;
  no_comment = refl;
  short = omega arith;
}

long-IsSetting : IsSetting (codes "num_routers") 4
unfolding decimal
long-IsSetting = record {
  first = b'n';
  others = codes "um_routers";
  is = refl;
  word = word_chars (codes "num_routers") refl;
  no_comment = refl;
  short = omega arith;
}

comment-AreComments : AreComments comment
comment-AreComments = (((refl, refl), ((refl, refl), tt)), omega arith, tt)

read_config-long_word_example :
    read_config
      (config_of (codes "stage") 6 (codes "num_routers") 4 (codes "hops") 2 comment [] comment)
    ≡ fault out_of_bounds
read_config-long_word_example =
    read_config-long_word (codes "stage") (codes "num_routers") (codes "hops") 6 4 2 comment []
      comment stage-IsSetting long-IsSetting comment-AreComments tt (omega arith) (omega arith)

router_process-HasReported_example :
    (r : Router) × (router_process toy 6 1 77 1001 1000 ≡ ok r) × HasReported toy 6 1 77 1001 1000 r
unfolding report decimal address_part ip_to_string
router_process-HasReported_example =
    router_process-HasReported toy 6 1 77 1001 1000 (λ e. absurd (omega (arith, e))) (omega arith)
      (omega arith)

-- Two routers report to a proxy that has heard of none.
abbrev new : Proxy
new = record proxy { sock_parent = new_socket }

abbrev reports : List Report
reports =
    record { id = 2; pid = 78; port = 1002; ip = 0; from = address2 }
    ∷ record { id = 1; pid = 77; port = 1001; ip = 0; from = address1 }
    ∷ []

new-IsTable : IsTable new.sock_parent
unfolding new_socket
new-IsTable = record { places = refl; counted = refl }

reports-AreReports : AreReports 6 reports
unfolding report decimal address_part ip_to_string
reports-AreReports = (
  omega arith,
  omega arith,
  omega arith,
  ((λ e. absurd (omega (arith, e))), tt),
  (omega arith, omega arith, omega arith, tt, tt),
)

reports-Free : Free new.sock_parent reports
unfolding slot new_socket
reports-Free = (refl, (refl, tt))

register_all_lem_example :
    (p' : Proxy) × (register_all 0 new blank_message (datagrams 6 reports) ≡ ok p')
    × IsTable p'.sock_parent
    × (p'.sock_parent.sender_count ≡ new.sock_parent.sender_count + 2)
    × ((i : ℕ)
        → 0 < i
        → slot p'.sock_parent.who_have_send_me (i - 1)
          ≡ filled (slot new.sock_parent.who_have_send_me (i - 1)) (address_in i reports))
register_all_lem_example =
    register_all_lem 0 new blank_message reports new-IsTable reports-AreReports reports-Free

csum-internet_checksum_example :
    htons (csum (λ i. i % 256) 0 10) ≡ internet_checksum (λ i. i % 256) 0 10
csum-internet_checksum_example =
    csum-internet_checksum (λ i. i % 256) 0 10 (λ i. omega arith) (omega arith)

handle-keyless_example :
    handle toy
      (fresh_router 1)
      (from_udp (arrived address2 (tor_bytes relay_data_fwd_enc 0 1 packet)))
    ≡ fault null_pointer
handle-keyless_example =
    handle-keyless toy (fresh_router 1) address2 relay_data_fwd_enc 0 1 packet refl refl
      (omega arith) (inl refl)

-- Two routers of stage 5; the first one has taken a request that names the second.
abbrev joint_router : Router
joint_router = record (router_on 1 proxy_address 1 258 address2 key1) {
  stage = 5;
  to_forward = true;
}

abbrev unused_router : Router
unused_router = record (fresh_router 2) { stage = 5 }

exchange-IsJoint_example :
    (rs : List Router) × (exchange toy
        (address1 ∷ address2 ∷ [])
        (joint_router ∷ unused_router ∷ [])
        proxy_address
        (some (udp_sent address1 (tor_bytes circuit_extend 0 1 (255 ∷ 255 ∷ []))))
      ≡ some (rs, some (udp_sent proxy_address (tor_bytes circuit_extend_done 1 2 []))))
    × IsChain (IsJoint 0xffff) proxy_address 1 (address1 ∷ address2 ∷ []) rs
exchange-IsJoint_example =
    exchange-IsJoint toy (address1 ∷ address2 ∷ []) (joint_router ∷ unused_router ∷ []) 255 255
      proxy_address address1 1
      (
        record {
          stage = refl;
          later = refl;
          requester = refl;
          given = refl;
          next = refl;
          own = refl;
        },
        record { stage = refl; first = refl },
      )
      (omega arith) refl
