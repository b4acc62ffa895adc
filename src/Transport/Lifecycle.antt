-- ===== src/Transport/Lifecycle.antt =====
-- mcp_fuzzer/transport/interfaces/behaviors.py, `LifecycleBehavior`, and states.py: the state of a
-- connection and its timing. Clock readings are numbers of ticks, an argument of every call.
pub mod Timing
use mcp_server_fuzzer.Prelude.{
  ℕ, zero, ◌-◌, Bool, true, false, ◌&&◌, ◌||◌, not, List, [], ◌∷◌, ◌++◌, Option, none, some,
  if◌then◌else◌, map, nat_beq,
}

pub data DriverState : Type 0 where
  init connecting connected disconnecting closed error : DriverState

abbrev pub is_connected_state : DriverState → Bool
is_connected_state connected = true
is_connected_state _ = false

-- state in (DriverState.CLOSED, DriverState.ERROR)
abbrev pub is_final_state : DriverState → Bool
is_final_state closed = true
is_final_state error = true
is_final_state _ = false

pub record Connection : Type 0 where
  pub state : DriverState
  pub last_activity : ℕ
  pub start_time : Option ℕ
  pub end_time : Option ℕ
  -- the registered callbacks, by number, and the calls that they got
  pub callbacks : List ℕ
  pub calls : List (ℕ × ℕ)

-- `__init__` at the time `now`
abbrev pub new_connection : ℕ → Connection
new_connection now = record {
  state = init;
  last_activity = now;
  start_time = none;
  end_time = none;
  callbacks = [];
  calls = [];
}

-- A callback that raises is logged and the loop goes on, so each is called once.
pub touch_activity : ℕ → Connection → Connection
touch_activity now c = record c {
  last_activity = now;
  calls = c.calls ++ map (λ callback. (callback, now)) c.callbacks;
}

pub set_connection_state : ℕ → DriverState → Connection → Connection
set_connection_state now state c =
    if is_connected_state state && not (is_connected_state c.state)
    then record c { state = state; start_time = some now; end_time = none }
    else if is_final_state state && is_connected_state c.state
    then record c { state = state; end_time = some now }
    else record c { state = state }

pub register_activity_callback : ℕ → Connection → Connection
register_activity_callback callback c = record c { callbacks = c.callbacks ++ callback ∷ [] }

-- `self._connection_end_time or time.time()`: an end time of 0 counts as none
or_now : ℕ → Option ℕ → ℕ
or_now now none = now
or_now now (some t) = if nat_beq t 0 then now else t

-- Clock readings do not fall, so the subtraction does not stop at 0.
pub connection_duration : ℕ → Connection → Option ℕ
unfolding or_now
connection_duration now c = elim c.start_time [
  | none ↦ none
  | some start ↦ some (or_now now c.end_time - start)
]

pub time_since_last_activity : ℕ → Connection → ℕ
time_since_last_activity now c = now - c.last_activity

pub lifecycle_connect : ℕ → Connection → Connection
unfolding touch_activity set_connection_state
lifecycle_connect now c = touch_activity now (set_connection_state now connecting c)

pub lifecycle_connected : ℕ → Connection → Connection
unfolding touch_activity set_connection_state
lifecycle_connected now c = touch_activity now (set_connection_state now connected c)

pub lifecycle_disconnect : ℕ → Connection → Connection
unfolding touch_activity set_connection_state
lifecycle_disconnect now c =
    touch_activity now
      (if is_connected_state c.state then set_connection_state now disconnecting c else c)

pub lifecycle_closed : ℕ → Connection → Connection
unfolding touch_activity set_connection_state
lifecycle_closed now c = touch_activity now (set_connection_state now closed c)

pub lifecycle_error : ℕ → Connection → Connection
unfolding touch_activity set_connection_state
lifecycle_error now c = touch_activity now (set_connection_state now error c)
