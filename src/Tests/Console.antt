-- ===== src/Tests/Console.antt =====
-- A text of two lines, streamed while another is logged.
use mysql_to_mssql.Base.{◌≡◌, refl, List, [], ◌∷◌, codes}
use mysql_to_mssql.Syncer.Statements.Text.{join}
use mysql_to_mssql.Api.LogChan.{split_parts, split_lines, LogChan, log_chan, write, tick, take}
use mysql_to_mssql.Api.LogChan.Lost.{Event, logs, takes, run, Sent, tick-lines}

abbrev console : LogChan
console = write (codes "one\ntwo") log_chan

abbrev meanwhile : List Event
meanwhile = takes ∷ logs (codes "three") ∷ []

tick-lines_example :
    Sent console (codes "one" ∷ codes "two" ∷ []) (take (run meanwhile (tick console)))
    × (join (b'\n' ∷ []) (codes "one" ∷ codes "two" ∷ []) ≡ codes "one\ntwo")
unfolding split_lines split_parts write log_chan
tick-lines_example = tick-lines console meanwhile refl refl refl
