-- ===== src/Proxy/Hops.antt =====
-- `RandomlySelectHops2` of proxy.cc. The value of `rand()` is an argument.
pub mod Laws
use torupload.Base.{ℕ, zero, suc, ◌+◌, ◌%◌, List, [], ◌∷◌, get_or}
use torupload.Trace.{hop}
use torupload.Proxy.State.{Proxy, log_it}

-- The array `a`, from index `var` on.
numbered : ℕ → ℕ → List ℕ
numbered var zero = []
numbered var (suc rounds) = (var + 1) ∷ numbered (var + 1) rounds

-- `randomHOPS[var1] = a[(++i) % noOfRouters]`, with `rounds` left.
select_loop : ℕ → ℕ → ℕ → List ℕ
unfolding numbered
select_loop no_of_routers i zero = []
select_loop no_of_routers i (suc rounds) =
    get_or (numbered 0 no_of_routers) ((i + 1) % no_of_routers) 0
    ∷ select_loop no_of_routers (i + 1) rounds

unfoldable pub randomly_select_hops2 : ℕ → ℕ → ℕ → List ℕ
unfolding select_loop
randomly_select_hops2 rand no_of_routers no_of_hops =
    select_loop no_of_routers (rand % no_of_routers) no_of_hops

-- The log lines of the loop, for hop `var1` on.
abbrev pub log_hops : Proxy → ℕ → List ℕ → Proxy
log_hops p var1 [] = p
log_hops p var1 (r ∷ hops) = log_hops (log_it p (hop (var1 + 1) r)) (var1 + 1) hops
