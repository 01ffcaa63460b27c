-- ===== src/Server/Backup/Loop.antt =====
-- server/backup/backup.go: the loop of `Start` and the signal of `Stop`. A ticker and the channel
-- `stop` hold one value each; a `select` with both ready takes either, so an execution is a list of
-- events, and an event that is not possible has no result.
use mobile_db.Prelude.{
  if◌then◌else◌, Str, Bool, true, false, ◌||◌, not, Option, none, some, List, [], ◌∷◌, ℤ, pos,
  ltb_ℤ,
}
use mobile_db.Prelude.Exec.{Conn}
use mobile_db.Server.Backup.{Files, run_once}

pub record Loop : Type 0 where
  pub tick_waits : Bool
  pub stop_waits : Bool
  pub ended : Bool
  pub files : Conn Files

-- The ticker ticks, `Stop` is called, the loop takes a tick and backs up, the loop takes the signal.
pub data Event : Type 0 where
  ticks stops : Event
  backs_up : (ts : Str) → Event
  ends : Event

-- The loop before its first turn; `time.NewTicker` panics on an interval that is not positive.
unfoldable pub start_loop : ℤ → Conn Files → Option Loop
start_loop interval files =
    if ltb_ℤ (pos 0) interval
    then some (record { tick_waits = false; stop_waits = false; ended = false; files = files })
    else none

-- `Stop`: the signal is sent unless one waits.
unfoldable pub signal : Loop → Loop
signal l = record l { stop_waits = true }

module _ (join : Str → Str → Str) (base : Str → Str) (part : Str → Str) (destination : Str)
    (sources : List Str) where
  unfoldable pub loop_step : Event → Loop → Option Loop
  unfolding signal
  loop_step ticks l = if l.ended then none else some (record l { tick_waits = true })
  loop_step stops l = some (signal l)
  loop_step (backs_up ts) l =
      if l.ended || not l.tick_waits
      then none
      else some (record l {
        tick_waits = false;
        files = (run_once join base part destination ts sources l.files).1;
      })
  loop_step ends l =
      if l.ended || not l.stop_waits
      then none
      else some (record l { stop_waits = false; ended = true })

  unfoldable pub run_loop : List Event → Loop → Option Loop
  unfolding loop_step
  run_loop [] l = some l
  run_loop (e ∷ es) l = elim (loop_step e l) [ none ↦ none | some l' ↦ run_loop es l' ]
