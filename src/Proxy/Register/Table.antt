-- ===== src/Proxy/Register/Table.antt =====
-- The table of addresses after all routers have reported, against a finite map.
use native.Mathlib.Decide.{ℕ_discrete}
use torupload.Base.{
  ◌==◌, if◌then◌else◌, ne→==, length, ℕ, ◌+◌, ◌-◌, ◌<◌, ◌≡◌, refl, ap, ◌∙◌, ◌≢◌, Option, none, some,
  List, [], ◌∷◌, ◌++◌, arith, eq→==, subst, ap₂,
}
use torupload.Base.Outcome.{ok, >>=-ok, Outcome}
use torupload.Message.{Message}
use torupload.Router.Start.{report}
use torupload.Socket.{SockAddr, UdpSocket, Received, arrived, slot}
use torupload.Socket.Senders.{
  IsTable, saved, save_last_sender_info_lem, slot-set_slot_ne, slot-set_slot, slot-some-lt,
}
use torupload.Proxy.State.{Proxy}
use torupload.Proxy.Register.{register_all}
use torupload.Proxy.Register.Reports.{registered_report, received, register_router-report}

-- What one router says of itself, and the address that its datagram comes from.
pub record Report : Type 0 where
  pub id : ℕ
  pub pid : ℕ
  pub port : ℕ
  pub ip : ℕ
  pub from : SockAddr

abbrev pub text_of : ℕ → Report → List ℕ
text_of stage r = report stage r.id r.pid r.port r.ip

abbrev pub datagrams : ℕ → List Report → List Received
datagrams stage [] = []
datagrams stage (r ∷ rs) = arrived r.from (text_of stage r ++ 0 ∷ []) ∷ datagrams stage rs

-- The abstract view: the first router of a list with this identifier.
abbrev pub address_in : ℕ → List Report → Option SockAddr
address_in i [] = none
address_in i (r ∷ rs) = if r.id == i then some r.from else address_in i rs

abbrev pub Unnamed : ℕ → List Report → Type 0
Unnamed i [] = Unit {0}
Unnamed i (r ∷ rs) = (r.id ≢ i) × Unnamed i rs

-- Identifiers from 1 to 6, none of them twice, and texts that fit a message.
abbrev pub AreReports : ℕ → List Report → Type 0
AreReports stage [] = Unit {0}
AreReports stage (r ∷ rs) =
    (0 < r.id)
    × (r.id < 7)
    × (length (text_of stage r) < 500)
    × Unnamed r.id rs
    × AreReports stage rs

abbrev pub Free : UdpSocket → List Report → Type 0
Free s [] = Unit {0}
Free s (r ∷ rs) = (slot s.who_have_send_me (r.id - 1) ≡ ok none) × Free s rs

-- A place of the table: the map's address, or else what was there.
abbrev pub filled : Outcome (Option SockAddr) → Option SockAddr → Outcome (Option SockAddr)
filled old none = old
filled old (some a) = ok (some a)

saved-slot_ne :
    (s : UdpSocket) (id j : ℕ)
    → id - 1 ≢ j - 1
    → slot (saved s id).who_have_send_me (j - 1) ≡ slot s.who_have_send_me (j - 1)
saved-slot_ne s id j ne = slot-set_slot_ne s.who_have_send_me (id - 1) (j - 1) s.last_sender ne

Free-saved :
    (s : UdpSocket) (id : ℕ) (stage : ℕ) (rs : List Report)
    → 0 < id
    → Unnamed id rs
    → AreReports stage rs
    → Free s rs
    → Free (saved s id) rs
Free-saved s id stage [] pos un are free = tt
Free-saved s id stage (r ∷ rs) pos un are free = (
  saved-slot_ne s id r.id (λ e. un.0 (omega (arith, e, pos, are.0))) ∙ free.0,
  Free-saved s id stage rs pos un.1 are.4 free.1,
)

address_in-Unnamed : (i : ℕ) (rs : List Report) → Unnamed i rs → address_in i rs ≡ none
address_in-Unnamed i [] h = refl
address_in-Unnamed i (r ∷ rs) h = rw (ne→== r.id i h.0) (address_in-Unnamed i rs h.1)

-- Routers with identifiers from 1 to 6, no two the same, report with texts as `Router` makes them
-- that fit a message, and none of them is in the proxy's table, which is in step with its counter.
-- The loop of `EnterTainRouterUpMsges` ends without a fault in whatever order the reports come; the
-- table is in step with its counter again, which has grown by their number, and as a map from
-- identifiers to addresses it is the old one overlaid with the one that takes each reported
-- identifier to the report's sender.
pub register_all_lem :
    (garbage : ℕ) (p : Proxy) (m : Message) (rs : List Report)
    → IsTable p.sock_parent
    → AreReports p.stage rs
    → Free p.sock_parent rs
    → (p' : Proxy) × (register_all garbage p m (datagrams p.stage rs) ≡ ok p')
      × IsTable p'.sock_parent
      × (p'.sock_parent.sender_count ≡ p.sock_parent.sender_count + length rs)
      × ((i : ℕ)
          → 0 < i
          → slot p'.sock_parent.who_have_send_me (i - 1)
            ≡ filled (slot p.sock_parent.who_have_send_me (i - 1)) (address_in i rs))
unfolding register_all
register_all_lem garbage p m [] table are free = (p, refl, table, omega arith, λ i pos. refl)
register_all_lem garbage p m (r ∷ rs) table are free =
    let text = text_of p.stage r in
    let p1 = registered_report p r.from r.id text in
    let sock = record p.sock_parent { last_sender = r.from } in
    let table1 : IsTable sock = record { places = table.places; counted = table.counted } in
    let one = save_last_sender_info_lem sock r.id table1 are.0 free.0 in
    let (p', done, table', count, found) =
      register_all_lem garbage p1 (received m text) rs one.1 are.4
        (Free-saved sock r.id p.stage rs are.0 are.3 are.4 free.1) in
    (
      p',
      >>=-ok _ _
          (register_router-report garbage p m r.from r.id r.pid r.port r.ip table are.0 are.1 are.2
            free.0)
          done,
      table',
      omega (arith, count),
      λ i pos. found i pos ∙ place_of i pos,
    )
  where
    sock0 : UdpSocket
    sock0 = record p.sock_parent { last_sender = r.from }

    place_of :
        (i : ℕ)
        → 0 < i
        → filled (slot (saved sock0 r.id).who_have_send_me (i - 1)) (address_in i rs)
          ≡ filled
              (slot p.sock_parent.who_have_send_me (i - 1))
              (if r.id == i then some r.from else address_in i rs)
    place_of i pos = elim (ℕ_discrete r.id i) [
      | yes same ↦ rw (eq→== r.id i same) (
          ap₂ filled
            (ap (slot (saved sock0 r.id).who_have_send_me) {x = i - 1} {y = r.id - 1}
                (omega (arith, same))
              ∙ slot-set_slot p.sock_parent.who_have_send_me (r.id - 1) r.from
                  (slot-some-lt p.sock_parent.who_have_send_me (r.id - 1) none free.0))
            (subst (λ k. address_in k rs ≡ none) same (address_in-Unnamed r.id rs are.3)))
      | no other ↦ rw (ne→== r.id i other) (
          ap (λ x. filled x (address_in i rs))
            (saved-slot_ne sock0 r.id i (λ e. other (omega (arith, e, pos, are.0)))))
    ]
