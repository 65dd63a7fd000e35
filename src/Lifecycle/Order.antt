-- ===== src/Lifecycle/Order.antt =====
-- lifecycle.hpp: the order of the states.
use mathlib.Core.Logic.{◌⊎◌, inl}
use rillnet.Base.{ℕ, ◌<◌, ◌≡◌, refl, List, [], ◌∷◌, arith, true}
use rillnet.Lifecycle.{
  ConnectionState, connecting, accepting, draining, closing, closed, connection_can_transition,
  connection_transition,
}

-- How far a connection has come: the two ways of opening are level.
abbrev pub stage : ConnectionState → ℕ
stage ConnectionState.created = 0
stage connecting = 1
stage accepting = 1
stage ConnectionState.active = 2
stage draining = 3
stage closing = 4
stage closed = 5

-- The states that an object passes through when these moves are asked of it.
pub connection_states : ConnectionState → List ConnectionState → ConnectionState
unfolding connection_transition
connection_states s [] = s
connection_states s (next ∷ rest) = connection_states (connection_transition s next).0 rest

forward : (s t : ConnectionState) → connection_can_transition s t ≡ true → stage s < stage t
unfolding connection_can_transition
forward s t h = ground arith

transition_cases :
    (s t : ConnectionState)
    → ((connection_transition s t).0 ≡ s) ⊎ (stage s < stage (connection_transition s t).0)
unfolding connection_transition
transition_cases s t = ground (arith, forward s t)

-- Whatever moves are asked of a connection, it ends in the state it was in or at a later stage.
pub connection_states_forward :
    (s : ConnectionState) (moves : List ConnectionState)
    → (connection_states s moves ≡ s) ⊎ (stage s < stage (connection_states s moves))
unfolding connection_states
connection_states_forward s [] = inl refl
connection_states_forward s (next ∷ rest) = ground (
  arith,
  transition_cases s next,
  connection_states_forward (connection_transition s next).0 rest,
)
