-- ===== src/Api/LogChan.antt =====
-- server/API/api.go: LogChan, which streams the console's text, and streamStdout of
-- server/handler.go, which takes its lines.
pub mod Lost
use mysql_to_mssql.Base.{
  ℕ, ◌==◌, Bool, true, false, if◌then◌else◌, List, [], ◌∷◌, ◌++◌, Bytes, length,
}

-- strings.Split at a byte: the first part and the others.
unfoldable pub split_parts : ℕ → Bytes → Bytes × List Bytes
split_parts sep [] = ([], [])
split_parts sep (c ∷ s) =
    let (part, rest) = split_parts sep s in if c == sep then ([], part ∷ rest) else (c ∷ part, rest)

unfoldable pub split_lines : Bytes → List Bytes
split_lines s = let (part, rest) = split_parts b'\n' s in part ∷ rest

-- LogChan is at its select, in the loop that sends lines, or has returned.
pub data Phase : Type 0 where
  selecting : Phase
  sending : List Bytes → Phase
  returned : Phase

-- `multiplexed`: the default logger writes to the buffer, and not only to the console. `stream` has
-- the lines that streamStdout has taken from the channel, each of which it sends to the client.
pub record LogChan : Type 0 where
  pub buffer : Bytes
  pub multiplexed : Bool
  pub phase : Phase
  pub stream : List Bytes

-- Up to the loop. (The logger of the database driver is set too.)
unfoldable pub log_chan : LogChan
log_chan = record { buffer = []; multiplexed = true; phase = selecting; stream = [] }

-- Any goroutine logs a text.
unfoldable pub write : Bytes → LogChan → LogChan
write text s = if s.multiplexed then record s { buffer = s.buffer ++ text } else s

-- Behind the sends, the buffer is reset.
unfoldable pub send : List Bytes → LogChan → LogChan
send [] s = record s { buffer = []; phase = selecting }
send (line ∷ lines) s = record s { phase = sending (line ∷ lines) }

unfoldable pub tick_at : Phase → LogChan → LogChan
tick_at selecting s = if length s.buffer == 0 then s else send (split_lines s.buffer) s
tick_at _ s = s

-- The ticker fires: seen only at the select.
unfoldable pub tick : LogChan → LogChan
tick s = tick_at s.phase s

unfoldable pub take_from : Phase → LogChan → LogChan
take_from (sending (line ∷ lines)) s = send lines (record s { stream = s.stream ++ line ∷ [] })
take_from _ s = s

-- The loop of streamStdout takes a line, for which LogChan must be in its sends.
unfoldable pub take : LogChan → LogChan
take s = take_from s.phase s

unfoldable pub quit_at : Phase → LogChan → LogChan
quit_at selecting s = record s { multiplexed = false; buffer = []; phase = returned }
quit_at _ s = s

-- A send on the quit channel, seen only at the select.
unfoldable pub quit : LogChan → LogChan
quit s = quit_at s.phase s
