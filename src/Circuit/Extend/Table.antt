-- ===== src/Circuit/Extend/Table.antt =====
-- The table of hops that `Build_An_Circuit_6` makes, for routers that are as its loop needs them.
use torupload.Router.Contract.{view}
use torupload.Key.RoundTrip.{IsKey, key_of_router-IsKey}
use torupload.Onion.Peel.{HasKeys, AllKeys}
use torupload.Key.{MyKey, key_of_router}
use torupload.Base.Outcome.{ok, >>=-ok, ◌>>=◌, Outcome}
use torupload.Socket.{SockAddr, address_of_router}
use torupload.Machine.{Machine}
use torupload.Proxy.Onion.{port_of_next_hop}
use torupload.Proxy.Build6.{make_hops}
use torupload.Base.{
  lt→ltb, ne→==, length, ℕ, suc, ◌+◌, ◌%◌, ◌<◌, ◌≡◌, refl, sym, ◌∙◌, Option, none, some, List, [],
  ◌∷◌, arith, ap, subst,
}
use torupload.Circuit.Extend.{IsFresh}
use torupload.Circuit.Extend.Plan.{Ahead, IsPlan, keys_ahead}
use torupload.Proxy.State.{Proxy}
use torupload.Onion.{TorHop, hop_at}

-- The routers that are selected: the proxy knows their addresses, their keys are made of random
-- texts of 16 bytes, and no message about a circuit has reached them.
abbrev pub AreSelected :
    Machine → (ℕ → Outcome SockAddr) → (ℕ → List ℕ) → ℕ → List ℕ → List Ahead → Type 0
AreSelected e s random var [] [] = Unit
AreSelected e s random var [] (h ∷ hs) = ⊥
AreSelected e s random var (r ∷ rs) [] = ⊥
AreSelected e s random var (r ∷ rs) (h ∷ hs) =
    (0 < r)
    × (r < 255)
    × (length (random var) ≡ 16)
    × (h.key ≡ key_of_router e (random var) (r % 256))
    × (s r ≡ ok h.address)
    × (h.address.sin_port < 0xffff)
    × IsFresh (view h.router)
    × AreSelected e s random (var + 1) rs hs

-- The table of hops.
abbrev pub table : List ℕ → List Ahead → List TorHop
table [] hs = record { router_id = 0xff; router_key = none } ∷ []
table (r ∷ rs) [] = []
table (r ∷ rs) (h ∷ hs) = record { router_id = r; router_key = some h.key } ∷ table rs hs

pub make_hops_lem :
    (e : Machine) (s : ℕ → Outcome SockAddr) (random : ℕ → List ℕ) (var : ℕ) (rs : List ℕ)
    (hs : List Ahead)
    → AreSelected e s random var rs hs
    → make_hops e random var rs ≡ ok (table rs hs)
unfolding make_hops
make_hops_lem e s random var [] [] sel = refl
make_hops_lem e s random var [] (h ∷ hs) sel = absurd sel
make_hops_lem e s random var (r ∷ rs) [] sel = absurd sel
make_hops_lem e s random var (r ∷ rs) (h ∷ hs) (pos, low, size, key, at, port, fresh, sel) =
    rw (lt→ltb 0 r pos) (
      >>=-ok _ _ (make_hops_lem e s random (var + 1) rs hs sel)
        (ap (λ k. ok (record { router_id = r; router_key = some k } ∷ table rs hs)) (sym key)))

pub table-HasKeys :
    (e : Machine) (s : ℕ → Outcome SockAddr) (random : ℕ → List ℕ) (var : ℕ) (rs : List ℕ)
    (hs : List Ahead)
    → AreSelected e s random var rs hs
    → HasKeys (table rs hs) (keys_ahead hs)
table-HasKeys e s random var [] [] sel = tt
table-HasKeys e s random var [] (h ∷ hs) sel = absurd sel
table-HasKeys e s random var (r ∷ rs) [] sel = absurd sel
table-HasKeys e s random var (r ∷ rs) (h ∷ hs) (pos, low, size, key, at, port, fresh, sel) =
    (refl, table-HasKeys e s random (var + 1) rs hs sel)

pub AreSelected-length :
    (e : Machine) (s : ℕ → Outcome SockAddr) (random : ℕ → List ℕ) (var : ℕ) (rs : List ℕ)
    (hs : List Ahead)
    → AreSelected e s random var rs hs
    → length hs ≡ length rs
AreSelected-length e s random var [] [] sel = refl
AreSelected-length e s random var [] (h ∷ hs) sel = absurd sel
AreSelected-length e s random var (r ∷ rs) [] sel = absurd sel
AreSelected-length e s random var (r ∷ rs) (h ∷ hs) (pos, low, size, key, at, port, fresh, sel) =
    ap suc (AreSelected-length e s random (var + 1) rs hs sel)

-- What the proxy names to a hop is the port of the next router of its table.
port_of_next_hop_lem :
    (p : Proxy) (var : ℕ) (r : ℕ) (k : Option MyKey) (a : SockAddr)
    → hop_at p.tor_cct_hops (var + 1) ≡ ok (record { router_id = r; router_key = k })
    → r < 255
    → address_of_router p.sock_parent r ≡ ok a
    → port_of_next_hop p var ≡ ok a.sin_port
unfolding port_of_next_hop
port_of_next_hop_lem p var r k a at low known =
    >>=-ok _ _ at (rw (ne→== r 0xff (omega arith)) (ap (λ o. o >>= λ b. ok b.sin_port) known))

port_of_next_hop_end :
    (p : Proxy) (var : ℕ)
    → hop_at p.tor_cct_hops (var + 1) ≡ ok (record { router_id = 0xff; router_key = none })
    → port_of_next_hop p var ≡ ok 0xffff
unfolding port_of_next_hop
port_of_next_hop_end p var at = >>=-ok _ _ at refl

pub hop_at-suc : (h : TorHop) (hs : List TorHop) (i : ℕ) → hop_at (h ∷ hs) (suc i) ≡ hop_at hs i
unfolding hop_at
hop_at-suc h hs i = refl

pub hop_at-zero : (h : TorHop) (hs : List TorHop) → hop_at (h ∷ hs) 0 ≡ ok h
unfolding hop_at
hop_at-zero h hs = refl

-- The rest of the table, behind hop `var`, is a plan.
pub table-IsPlan :
    (e : Machine) (p : Proxy) (random : ℕ → List ℕ) (var : ℕ) (rs : List ℕ) (hs : List Ahead)
    → AreSelected e (address_of_router p.sock_parent) random (var + 1) rs hs
    → ((i : ℕ) → hop_at p.tor_cct_hops (var + 1 + i) ≡ hop_at (table rs hs) i)
    → IsPlan e (port_of_next_hop p) var hs
table-IsPlan e p random var [] [] sel at = port_of_next_hop_end p var (
    ap (hop_at p.tor_cct_hops) {x = var + 1} {y = var + 1 + 0} (omega arith)
    ∙ at 0
    ∙ hop_at-zero _ _)
table-IsPlan e p random var [] (h ∷ hs) sel at = absurd sel
table-IsPlan e p random var (r ∷ rs) [] sel at = absurd sel
table-IsPlan e p random var (r ∷ rs) (h ∷ hs) (pos, low, size, key, known, port, fresh, sel) at = (
  port_of_next_hop_lem p var r (some h.key) h.address
      (ap (hop_at p.tor_cct_hops) {x = var + 1} {y = var + 1 + 0} (omega arith)
        ∙ at 0
        ∙ hop_at-zero _ _)
      low known,
  port,
  fresh,
  subst (IsKey e) (sym key) (key_of_router-IsKey e (random (var + 1)) (r % 256) size),
  subst (λ n. IsPlan e (port_of_next_hop p) n hs) {x = var + 1} (omega arith)
      (table-IsPlan e p random (var + 1) rs hs sel (λ i.
        ap (hop_at p.tor_cct_hops) {x = var + 1 + 1 + i} {y = var + 1 + suc i} (omega arith)
        ∙ at (suc i)
        ∙ hop_at-suc _ _ i)),
)

pub AreSelected-AllKeys :
    (e : Machine) (s : ℕ → Outcome SockAddr) (random : ℕ → List ℕ) (var : ℕ) (rs : List ℕ)
    (hs : List Ahead)
    → AreSelected e s random var rs hs
    → AllKeys e (keys_ahead hs)
AreSelected-AllKeys e s random var [] [] sel = tt
AreSelected-AllKeys e s random var [] (h ∷ hs) sel = absurd sel
AreSelected-AllKeys e s random var (r ∷ rs) [] sel = absurd sel
AreSelected-AllKeys e s random var (r ∷ rs) (h ∷ hs) (pos, low, size, key, at, port, fresh, sel) = (
  subst (IsKey e) (sym key) (key_of_router-IsKey e (random var) (r % 256) size),
  AreSelected-AllKeys e s random (var + 1) rs hs sel,
)
