-- ===== src/Proxy/Register/Reports.antt =====
-- One router's report, as the proxy reads it.
use torupload.Socket.Receive.{receive_message_lem}
use torupload.Trace.{router_up}
use torupload.Socket.Senders.{IsTable, saved, save_last_sender_info_lem}
use torupload.Text.Numbers.{scan_hu-decimal}
use torupload.Socket.{SockAddr, slot, arrived, UdpSocket}
use torupload.Proxy.State.{Proxy, log_it}
use torupload.Base.{
  leb, Bool-cases, length, All, length-append, ℕ, ◌/◌, ◌%◌, ◌<◌, ◌≡◌, refl, ap, ◌∙◌, inl, inr, true,
  false, some, List, [], ◌∷◌, ◌++◌, append_assoc, arith, All-append, lt→ltb, le→leb, ◌+◌, ◌-◌, sym,
  none,
}
use torupload.Base.Outcome.{ok, >>=-ok}
use torupload.Message.{Buffer, place, slice, Message}
use torupload.Message.Laws.{slice-place_more}
use torupload.Text.{codes, until_nul, formatted, printed, scan_hu, decimal}
use torupload.Text.Formats.{
  IsPlain, digit-IsPlain, decimal-All, until_nul-plain, formatted-plain, all_plain_lem,
  decimal-append,
}
use torupload.Router.Start.{ip_to_string, address_part, report}
use torupload.Proxy.Register.{has_router_word, register_router}

-- A text with its NUL is what a format prints.
pub printed-plain :
    (f : Buffer) (t : List ℕ) (n : ℕ)
    → All IsPlain t
    → length t < 500
    → printed (record { msg = place f 0 (t ++ 0 ∷ []); actual_length = n }) ≡ ok t
unfolding printed
printed-plain f t n plain room =
    let (rest, eq) =
      slice-place_more f [] (t ++ 0 ∷ []) 500 (omega (arith, room, length-append t (0 ∷ []))) in
    >>=-ok _ (formatted false)
      (ap until_nul (eq ∙ append_assoc t (0 ∷ []) rest) ∙ until_nul-plain t rest plain)
      (formatted-plain t plain)

ip_to_string-IsPlain : (ip : ℕ) → All IsPlain (ip_to_string ip [])
unfolding ip_to_string
ip_to_string-IsPlain ip = decimal-All IsPlain digit-IsPlain (ip % 256) _ (
  dot,
  decimal-All IsPlain digit-IsPlain (ip / 256 % 256) _ (
    dot,
    decimal-All IsPlain digit-IsPlain (ip / 65536 % 256) _
        (dot, decimal-All IsPlain digit-IsPlain (ip / 16777216 % 256) [] tt),
  ),
)
  where
    dot : IsPlain b'.'
    dot = (refl, refl)

address_part-IsPlain : (stage ip : ℕ) → All IsPlain (address_part stage ip)
unfolding address_part
address_part-IsPlain stage ip = elim (Bool-cases (leb 4 stage)) [
  | inl late ↦ rw late (
      All-append IsPlain (codes ", IP: ") (ip_to_string ip []) (all_plain_lem (codes ", IP: ") refl)
        (ip_to_string-IsPlain ip))
  | inr early ↦ rw early tt
]

pub report-IsPlain : (stage id pid port ip : ℕ) → All IsPlain (report stage id pid port ip)
unfolding report
report-IsPlain stage id pid port ip =
    All-append IsPlain (codes "router: ") _ (all_plain_lem (codes "router: ") refl) (
      decimal-All IsPlain digit-IsPlain id _ (
        All-append IsPlain (codes ", pid: ") _ (all_plain_lem (codes ", pid: ") refl) (
          decimal-All IsPlain digit-IsPlain pid _ (
            All-append IsPlain (codes ", port: ") _ (all_plain_lem (codes ", port: ") refl)
              (decimal-All IsPlain digit-IsPlain port _ (address_part-IsPlain stage ip))))))

report-word :
    (f : Buffer) (n stage id pid port ip : ℕ)
    → has_router_word
        (record { msg = place f 0 (report stage id pid port ip ++ 0 ∷ []); actual_length = n })
      ≡ true
unfolding report
report-word f n stage id pid port ip = refl

report-scan :
    (f : Buffer) (stage id pid port ip : ℕ)
    → id < 65536
    → length (report stage id pid port ip) < 500
    → scan_hu (slice (place f 0 (report stage id pid port ip ++ 0 ∷ [])) 7 493) ≡ some id
unfolding report
report-scan f stage id pid port ip small room =
    let after =
      codes ", pid: " ++ decimal pid (codes ", port: " ++ decimal port (address_part stage ip)) in
    let (rest, eq) =
      slice-place_more f (codes "router:") (32 ∷ (decimal id after ++ 0 ∷ [])) 493
        (omega (arith, room, length-append (decimal id after) (0 ∷ []))) in
    ap scan_hu eq
    ∙ ap (λ s. scan_hu (32 ∷ s))
        (ap (λ s. s ++ rest) (sym (decimal-append id after (0 ∷ [])))
          ∙ sym (decimal-append id (after ++ 0 ∷ []) rest))
    ∙ (unfold scan_hu in scan_hu-decimal id ((after ++ 0 ∷ []) ++ rest) small refl)

-- What a report leaves in the message.
abbrev pub received : Message → List ℕ → Message
received m text = record {
  msg = place m.msg 0 (text ++ 0 ∷ []);
  actual_length = length (text ++ 0 ∷ []);
}

-- The proxy once the report has come in from `a`.
abbrev pub registered_report : Proxy → SockAddr → ℕ → List ℕ → Proxy
registered_report p a id text =
    log_it (record p { sock_parent = saved (record p.sock_parent { last_sender = a }) id })
      (router_up text)

-- A report of a router in range that has no address yet is taken.
pub register_router-report :
    (garbage : ℕ) (p : Proxy) (m : Message) (a : SockAddr) (id pid port ip : ℕ)
    → IsTable p.sock_parent
    → 0 < id
    → id < 7
    → length (report p.stage id pid port ip) < 500
    → slot p.sock_parent.who_have_send_me (id - 1) ≡ ok none
    → register_router garbage p m (arrived a (report p.stage id pid port ip ++ 0 ∷ []))
      ≡ ok (
        registered_report p a id (report p.stage id pid port ip),
        received m (report p.stage id pid port ip),
      )
unfolding register_router
register_router-report garbage p m a id pid port ip table pos small room free =
    >>=-ok _ _ (receive_message_lem p.sock_parent m a (text ++ 0 ∷ []) (omega (arith, room, long)))
      (rw (report-word m.msg (length (text ++ 0 ∷ [])) p.stage id pid port ip) (
        >>=-ok _ _
          (printed-plain m.msg text (length (text ++ 0 ∷ []))
            (report-IsPlain p.stage id pid port ip) room)
          (rw (report-scan m.msg p.stage id pid port ip (omega (arith, small)) room) (
            rw (lt→ltb id 7 small, le→leb 1 id (omega (arith, pos)))
              (>>=-ok _ _
                (save_last_sender_info_lem sock id
                  (record { places = table.places; counted = table.counted }) pos free).0
                refl)))))
  where
    text : List ℕ
    text = report p.stage id pid port ip

    long : length (text ++ 0 ∷ []) ≡ length text + 1
    long = length-append text (0 ∷ []) ∙ omega arith

    sock : UdpSocket
    sock = record p.sock_parent { last_sender = a }
