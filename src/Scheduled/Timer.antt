-- ===== src/Scheduled/Timer.antt =====
-- src/bindings/scheduled.ts, startCronTimer: each tick fires the expressions that match and have not fired in
-- this minute. The invocations that a tick makes are its output.
use lopata.Common.{
  ℕ, ◌/◌, not, Option, none, some, List, [], ◌∷◌, ◌++◌, if◌then◌else◌, Text, text_eq,
}
use lopata.Scheduled.Crons.{ParsedCron, cron_matches_date, is_value}
use lopata.Scheduled.Calendar.{Date}

-- What `new Date()` gives a tick.
pub record Tick : Type 0 where
  pub time : ℕ
  pub date : Date

abbrev pub minute_key : Tick → ℕ
minute_key t = t.time / 60000

-- The Map of the last fired minutes, the latest entry first.
abbrev pub FiredMinutes : Type 0
FiredMinutes = List (Text × ℕ)

unfoldable pub last_fired : Text → FiredMinutes → Option ℕ
last_fired expression [] = none
last_fired expression ((e, m) ∷ fired) =
    if text_eq e expression then some m else last_fired expression fired

-- An invocation, by its expression and minute.
abbrev pub Fired : Type 0
Fired = Text × ℕ

-- The callback on one cron: the new Map and the invocations.
unfoldable pub fire : Tick → ParsedCron → FiredMinutes → FiredMinutes × List Fired
unfolding cron_matches_date last_fired
fire t cron fired =
    if not (cron_matches_date cron t.date)
    then (fired, [])
    else if is_value (last_fired cron.expression fired) (minute_key t)
    then (fired, [])
    else ((cron.expression, minute_key t) ∷ fired, (cron.expression, minute_key t) ∷ [])

unfoldable pub tick : Tick → List ParsedCron → FiredMinutes → FiredMinutes × List Fired
unfolding fire
tick t [] fired = (fired, [])
tick t (cron ∷ crons) fired =
    let (fired', here) = fire t cron fired in
    let (fired'', later) = tick t crons fired' in (fired'', here ++ later)

-- The ticks of a timer; the Map outlives a reload that changes the crons.
unfoldable pub run : List (Tick × List ParsedCron) → FiredMinutes → List Fired
unfolding tick
run [] fired = []
run ((t, crons) ∷ ticks) fired = let (fired', here) = tick t crons fired in here ++ run ticks fired'
