-- ===== src/Receiver/Asked.antt =====
-- A command that a deployment (scripts/deploy-gcp.py) ran, with what the host answered then.
use map_service_infra.Base.{String, ◌≡◌, refl, ◌⊎◌, inl, inr, Bool, true, List, [], ◌∷◌}
use map_service_infra.Base.Exec.Rules.{Triple}
use map_service_infra.Base.Result.{Error, ok}
use map_service_infra.Base.World.{Trace, Answer, call, Triple-call}
use map_service_infra.Base.Quiet.{Stable}
use map_service_infra.Receiver.Model.{Call, State, query}

-- The command is among the calls, after calls with the property.
abbrev pub Asked : List String → (Trace Call → Type 0) → Trace Call → Type 0
Asked args P [] = ⊥
Asked args P ((query a, _) ∷ t) = ((a ≡ args) × P t) ⊎ Asked args P t
Asked args P (_ ∷ t) = Asked args P t

-- Any call keeps it.
pub every : Call → Bool
every c = true

pub Asked-stable : (args : List String) (P : Trace Call → Type 0) → Stable every (Asked args P)
Asked-stable args P (query a) done t k j = inr j
Asked-stable args P _ done t k j = j

-- A command whose answer `P` accepts.
pub Triple-Asked :
    {A : Type 0} {E : Error → State → Type 0} (R : Trace Call → Type 0) (args : List String)
    (f : Answer Call A)
    → Stable every R
    → ((e : Error) (w : State) → E e w)
    → Triple
        (λ w. R w.trace)
        (call {O = Bool} (query args) f)
        (λ a w. R w.trace × Asked args (λ t. f t ≡ ok a) w.trace)
        E
unfolding every
Triple-Asked R args f stable raised =
    Triple-call _ _ (query args) f
      (λ w j a e. (stable (query args) true w.trace refl j, inl (refl, e))) (λ w j x e. raised x _)
