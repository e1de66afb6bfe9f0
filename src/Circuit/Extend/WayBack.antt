-- ===== src/Circuit/Extend/WayBack.antt =====
-- A finished circuit of stage 6 in both directions: the routers as a path for data, and the way
-- back from the last of them to the process that built it.
use torupload.Circuit.Forward.{HoldsKey, IsPath}
use torupload.Circuit.Extend.{IsRoute, IsLink}
use torupload.Router.State.{Router}
use torupload.Key.{MyKey}
use torupload.Circuit.{Node}
use torupload.Socket.{SockAddr}
use torupload.Machine.{Machine}
use torupload.Base.{
  ℕ, ◌≡◌, refl, sym, ◌∙◌, List, [], ◌∷◌, ◌++◌, append_assoc, append-nil, ap, subst,
}
use mathlib.Core.List.{reverse, reverse-cons}
use torupload.Circuit.Backward.{IsWayBack}
use torupload.Circuit.Extend.Plan.{nodes_at, IsLink-HoldsKey, IsRoute-IsPath}

-- The nodes from the last router on: it holds its key, and from it a message finds the way back.
abbrev pub IsHomeward : Machine → List Node → List MyKey → SockAddr → Type 0
IsHomeward e [] ks own = ⊥
IsHomeward e (n ∷ nodes) [] own = ⊥
IsHomeward e (n ∷ nodes) (k ∷ ks) own =
    HoldsKey e n.router k × IsWayBack e n.router.entry.circuit_requester_addr nodes ks own

-- A chain whose last router has the end mark, with the keys of all its routers.
pub record IsCircuit (e : Machine) (own : SockAddr) (id : ℕ) (hops : List SockAddr)
    (rs : List Router) (keys : List MyKey) : Type 0 where
  pub front : List MyKey
  pub last : MyKey
  pub split : keys ≡ front ++ last ∷ []
  pub route : IsRoute e (IsLink e last 0xffff) own id hops rs front

reverse-onto {ℓ} :
    {A : Type ℓ} (x : A) (xs ys : List A) → reverse (x ∷ xs) ++ ys ≡ reverse xs ++ x ∷ ys
reverse-onto x xs ys = ap (λ l. l ++ ys) (reverse-cons x xs) ∙ append_assoc (reverse xs) (x ∷ []) ys

module _ (e : Machine) where
  -- `back` and `kb` are the nodes and keys before the chain, the nearest first.
  IsHomeward-onto :
      (hops : List SockAddr) (rs : List Router) (ks : List MyKey) (k : MyKey) (prev own : SockAddr)
      (id port : ℕ) (back : List Node) (kb : List MyKey)
      → IsRoute e (IsLink e k port) prev id hops rs ks
      → IsWayBack e prev back kb own
      → IsHomeward e (reverse (nodes_at hops rs) ++ back) (reverse (ks ++ k ∷ []) ++ kb) own
  IsHomeward-onto [] rs ks k prev own id port back kb route way = absurd route
  IsHomeward-onto (a ∷ hops) [] ks k prev own id port back kb route way = absurd route
  IsHomeward-onto (a ∷ []) (r ∷ []) [] k prev own id port back kb route way = (
    IsLink-HoldsKey e r route,
    subst (λ to. IsWayBack e to back kb own) (sym route.requester) way,
  )
  IsHomeward-onto (a ∷ []) (r ∷ []) (k' ∷ ks) k prev own id port back kb route way = absurd route
  IsHomeward-onto (a ∷ []) (r ∷ r2 ∷ rs) ks k prev own id port back kb route way = absurd route
  IsHomeward-onto (a ∷ a2 ∷ hops) (r ∷ rs) [] k prev own id port back kb route way = absurd route
  IsHomeward-onto (a ∷ a2 ∷ hops) (r ∷ rs) (k' ∷ ks) k prev own id port back kb (link, small, route)
        way =
      let n : Node = record { address = a; router = r } in
      subst (λ nodes. IsHomeward e nodes (reverse ((k' ∷ ks) ++ k ∷ []) ++ kb) own)
        (sym (reverse-onto n (nodes_at (a2 ∷ hops) rs) back))
        (subst (λ keys. IsHomeward e (reverse (nodes_at (a2 ∷ hops) rs) ++ n ∷ back) keys own)
          (sym (reverse-onto k' (ks ++ k ∷ []) kb))
          (IsHomeward-onto (a2 ∷ hops) rs ks k a own r.entry.my_circuit_id port (n ∷ back) (k' ∷ kb)
            route
            (
              IsLink-HoldsKey e r link,
              refl,
              subst (λ to. IsWayBack e to back kb own) (sym link.requester) way,
            )))

  -- It is a path for data, and a message finds its way back over it.
  pub IsCircuit-IsPath :
      {own : SockAddr} {id : ℕ} {hops : List SockAddr} {rs : List Router} {keys : List MyKey}
      → IsCircuit e own id hops rs keys
      → IsPath e (nodes_at hops rs) keys
  IsCircuit-IsPath {own} {id} {hops} {rs} c =
      subst (IsPath e (nodes_at hops rs)) (sym c.split)
        (IsRoute-IsPath e hops rs c.front c.last own id c.route)

  pub IsCircuit-IsHomeward :
      {own : SockAddr} {id : ℕ} {hops : List SockAddr} {rs : List Router} {keys : List MyKey}
      → IsCircuit e own id hops rs keys
      → IsHomeward e (reverse (nodes_at hops rs)) (reverse keys) own
  IsCircuit-IsHomeward {own} {id} {hops} {rs} c =
      subst (λ ks. IsHomeward e (reverse (nodes_at hops rs)) (reverse ks) own) (sym c.split)
        (subst (λ nodes. IsHomeward e nodes (reverse (c.front ++ c.last ∷ [])) own)
          (append-nil (reverse (nodes_at hops rs)))
          (subst (λ keys. IsHomeward e (reverse (nodes_at hops rs) ++ []) keys own)
            (append-nil (reverse (c.front ++ c.last ∷ [])))
            (IsHomeward-onto hops rs c.front c.last own own id 0xffff [] [] c.route refl)))
