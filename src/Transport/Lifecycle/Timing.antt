-- ===== src/Transport/Lifecycle/Timing.antt =====
-- The timing of a connection over its whole life.
use mcp_server_fuzzer.Prelude.{
  ℕ, ◌+◌, ◌-◌, ◌≤◌, ◌<◌, ◌≡◌, ◌≢◌, Option, none, some, arith, length, map, length-append,
  length-map,
}
use mcp_server_fuzzer.Transport.Lifecycle.{
  init, connected, Connection, new_connection, touch_activity, register_activity_callback,
  connection_duration, lifecycle_connect, lifecycle_connected, lifecycle_disconnect,
  lifecycle_closed, lifecycle_error,
}

-- The calls that a transport makes.
pub data Event : Type 0 where
  connect mark_connected disconnect close fail : Event
  register : ℕ → Event

unfoldable pub apply : ℕ → Event → Connection → Connection
unfolding lifecycle_connect lifecycle_connected lifecycle_disconnect lifecycle_closed
    lifecycle_error register_activity_callback
apply now connect c = lifecycle_connect now c
apply now mark_connected c = lifecycle_connected now c
apply now disconnect c = lifecycle_disconnect now c
apply now close c = lifecycle_closed now c
apply now fail c = lifecycle_error now c
apply now (register callback) c = register_activity_callback callback c

-- A connection after calls at times that do not fall; `t` is the time of the last one.
pub data Reach : ℕ → Connection → Type 0 where
  start : (t : ℕ) → Reach t (new_connection t)
  step : {t : ℕ} {c : Connection} → Reach t c → (u : ℕ) (e : Event) → t ≤ u → Reach u (apply u e c)

abbrev Within : ℕ → Option ℕ → Type 0
Within t none = Unit
Within t (some a) = a ≤ t

abbrev Ordered : Option ℕ → Option ℕ → Type 0
Ordered (some a) (some b) = a ≤ b
Ordered none (some b) = ⊥
Ordered _ none = Unit

-- What holds of a connection at the time `t`.
pub record IsTimed (t : ℕ) (c : Connection) : Type 0 where
  pub active : c.last_activity ≤ t
  pub started : Within t c.start_time
  pub ended : Within t c.end_time
  pub ordered : Ordered c.start_time c.end_time
  pub running : c.state ≡ connected → (c.end_time ≡ none) × (c.start_time ≢ none)
  pub fresh : c.state ≡ init → c.start_time ≡ none

IsTimed-apply :
    {t : ℕ} {c : Connection} → IsTimed t c → (u : ℕ) (e : Event) → t ≤ u → IsTimed u (apply u e c)
unfolding apply
IsTimed-apply h u connect le = ground arith
IsTimed-apply h u mark_connected le = ground arith
IsTimed-apply h u disconnect le = ground arith
IsTimed-apply h u close le = ground arith
IsTimed-apply h u fail le = ground arith
IsTimed-apply h u (register callback) le = ground arith

-- Whatever calls a transport makes, at times that do not fall: no recorded time lies in the future,
-- an end follows its start, a connected connection has a start and no end, and one that never left
-- its first state has no start.
pub Reach-IsTimed : {t : ℕ} {c : Connection} → Reach t c → IsTimed t c
Reach-IsTimed (start t) = ground arith
Reach-IsTimed (step r u e le) = IsTimed-apply (Reach-IsTimed r) u e le

-- A connection that is closed by way of `disconnect` never gets an end time: its duration grows with
-- the clock after the close.
pub graceful_close_keeps_counting :
    (c : Connection) (a b d now : ℕ)
    → c.state ≢ connected
    → connection_duration now
        (lifecycle_closed d (lifecycle_disconnect b (lifecycle_connected a c)))
      ≡ some (now - a)
unfolding connection_duration lifecycle_connected lifecycle_disconnect lifecycle_closed
graceful_close_keeps_counting c a b d now h = ground arith

-- One that is closed from the connected state directly has the duration that it was connected for,
-- whatever the clock reads later; a close at the time 0 would count as none.
pub abrupt_close_stops_counting :
    (c : Connection) (a d now : ℕ)
    → c.state ≢ connected
    → 0 < d
    → connection_duration now (lifecycle_closed d (lifecycle_connected a c)) ≡ some (d - a)
unfolding connection_duration lifecycle_connected lifecycle_closed
abrupt_close_stops_counting c a d now h pos = ground arith

-- Every call of a transport reaches each registered callback once.
pub calls-touch_activity :
    (now : ℕ) (c : Connection)
    → length (touch_activity now c).calls ≡ length c.calls + length c.callbacks
unfolding touch_activity
calls-touch_activity now c = omega (
  arith,
  length-append c.calls (map (λ callback. (callback, now)) c.callbacks),
  length-map {B = ℕ × ℕ} (λ callback. (callback, now)) c.callbacks,
)
