-- ===== src/Lifecycle.antt =====
-- include/rillnet/lifecycle.hpp: the states of a connection and of an operation, and the moves that
-- each lifecycle object allows.
pub mod Order
use rillnet.Base.{ℕ, ◌==◌, Bool, true, false, ◌||◌, if◌then◌else◌}

pub data ConnectionState : Type 0 where
  created connecting accepting active draining closing closed : ConnectionState

pub data OperationState : Type 0 where
  created active completed failed cancelled : OperationState

pub data LifecycleTransitionError : Type 0 where
  none invalid_transition : LifecycleTransitionError

-- The enumerators' values; `==` on states compares them.
unfoldable pub connection_value : ConnectionState → ℕ
connection_value ConnectionState.created = 0
connection_value connecting = 1
connection_value accepting = 2
connection_value ConnectionState.active = 3
connection_value draining = 4
connection_value closing = 5
connection_value closed = 6

unfoldable pub operation_value : OperationState → ℕ
operation_value OperationState.created = 0
operation_value OperationState.active = 1
operation_value completed = 2
operation_value failed = 3
operation_value cancelled = 4

unfoldable pub is_connection : ConnectionState → ConnectionState → Bool
unfolding connection_value
is_connection a b = connection_value a == connection_value b

unfoldable pub is_operation : OperationState → OperationState → Bool
unfolding operation_value
is_operation a b = operation_value a == operation_value b

-- can_transition(ConnectionState, ConnectionState)
unfoldable pub connection_can_transition : ConnectionState → ConnectionState → Bool
unfolding is_connection
connection_can_transition ConnectionState.created to =
    is_connection to connecting || is_connection to accepting
connection_can_transition connecting to = is_connection to ConnectionState.active
connection_can_transition accepting to = is_connection to ConnectionState.active
connection_can_transition ConnectionState.active to =
    is_connection to draining || (is_connection to closing || is_connection to closed)
connection_can_transition draining to = is_connection to closing || is_connection to closed
connection_can_transition closing to = is_connection to closed
connection_can_transition closed to = false

-- can_transition(OperationState, OperationState)
unfoldable pub operation_can_transition : OperationState → OperationState → Bool
unfolding is_operation
operation_can_transition OperationState.created to = is_operation to OperationState.active
operation_can_transition OperationState.active to =
    is_operation to completed || (is_operation to failed || is_operation to cancelled)
operation_can_transition _ to = false

-- ConnectionLifecycle::transition, on the state that the object holds
unfoldable pub connection_transition :
    ConnectionState → ConnectionState → ConnectionState × LifecycleTransitionError
unfolding connection_can_transition
connection_transition state next =
    if connection_can_transition state next
    then (next, LifecycleTransitionError.none)
    else (state, invalid_transition)

-- OperationLifecycle::transition
unfoldable pub operation_transition :
    OperationState → OperationState → OperationState × LifecycleTransitionError
unfolding operation_can_transition
operation_transition state next =
    if operation_can_transition state next
    then (next, LifecycleTransitionError.none)
    else (state, invalid_transition)
