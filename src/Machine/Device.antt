-- ===== src/Machine/Device.antt =====
-- The interrupt devices of machine/Processors.h and machine/Processors.cpp. The thread of `WallClock`
-- is a step of the environment that raises `IDactive`.
use cs16mem_model_vm.Base.{ℕ, ◌+◌, ◌*◌, Bool, true, false, ltb, if◌then◌else◌}

-- `TickClock`
pub record TickClock : Type 0 where
  pub tick_goal : ℕ
  pub tick_count : ℕ
  pub ticking : Bool

-- `TickClock::start`, with the quanta in milliseconds, and `TickClock::stop`.
pub start_ticks : ℕ → TickClock → TickClock
start_ticks quanta c = record { tick_goal = quanta * 1000; tick_count = 0; ticking = true }

pub stop_ticks : TickClock → TickClock
stop_ticks c = record c { ticking = false }

-- `TickClock::poll`: `tickCount++ > tickGoal`.
unfoldable pub poll_ticks : TickClock → Bool × TickClock
poll_ticks c =
    if ltb c.tick_goal c.tick_count
    then (true, record c { tick_count = 0 })
    else (false, record c { tick_count = c.tick_count + 1 })

-- What `interDev` points to.
pub data Device : Type 0 where
  no_device : Device
  tick_clock : TickClock → Device
  wall_clock : (active : Bool) → Device
  send_interrupt : Device

-- `interDev && interDev->poll()`. `WallClock::poll` takes the flag down.
unfoldable pub poll : Device → Bool × Device
unfolding poll_ticks
poll no_device = (false, no_device)
poll (tick_clock c) = let (due, c') = poll_ticks c in (due, tick_clock c')
poll (wall_clock active) = (active, wall_clock false)
poll send_interrupt = (true, send_interrupt)
