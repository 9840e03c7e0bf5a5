-- ===== src/Connector/Protocol.antt =====
-- The protocol of a net/Connector.cpp connector: what it does on every call that may come next.
use cly_server.Base.{
  ℕ, ◌≡◌, refl, sym, ap, subst, ◌∙◌, false, Option, none, some, List, [], ◌∷◌, ◌++◌, ok, arith,
}
use cly_server.Connector.{Effect, init_retry_delay_ms, new}
use cly_server.Connector.System.{System, idle, Reachable, begun, stepped}
use cly_server.Connector.Invariant.{Inv, quiet, next_of, held, socket}
use cly_server.Connector.Steps.{step-Steps}

held-append :
    (o : Option (Option ℕ)) (es es' : List Effect) → held o (es ++ es') ≡ held (held o es) es'
unfolding held
held-append o [] es' = refl
held-append o (e ∷ es) es' = held-append (next_of o e) es es'

idle-Inv : Inv idle
unfolding idle new
idle-Inv = quiet false init_retry_delay_ms [] 0 (omega arith) refl (omega arith, omega arith)

idle_holds_none : socket idle ≡ none
unfolding idle new
idle_holds_none = refl

-- However its owner, the loop and the network take turns, as far as they may: of the sockets that a
-- connector opens, it holds one at most, it closes or hands over the one that it holds before it
-- opens the next, never twice and never another, and holds one only while it dials. Its delay stays
-- between half a second and thirty; at most one call of `startInLoop` waits in the loop or on a
-- timer, and none while it dials or is connected.
pub held-Reachable :
    {s : System} {es : List Effect}
    → Reachable s es
    → Inv s × (held (some none) es ≡ some (socket s))
unfolding held
held-Reachable begun = (idle-Inv, ap (λ o. some o) (sym idle_holds_none))
held-Reachable (stepped {s} {s'} {es} {es'} event r a e) =
    let (v, h) = held-Reachable r in
    let (x, es'', e', v', h') = step-Steps event v a in
    subst Told (first (sym e' ∙ e))
      (v', held-append (some none) es es'' ∙ ap (λ o. held o es'') h ∙ h')
  where
    Told : System × List Effect → Type 0
    Told (s', es') = Inv s' × (held (some none) (es ++ es') ≡ some (socket s'))

    first : {x y : System × List Effect} → ok x ≡ ok y → x ≡ y
    first h = cc
