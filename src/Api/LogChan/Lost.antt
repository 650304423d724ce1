-- ===== src/Api/LogChan/Lost.antt =====
-- What a tick streams, and what it loses.
use mysql_to_mssql.Base.{
  ℕ, ◌+◌, ◌==◌, ◌≡◌, refl, ap, ◌∙◌, Bool-cases, inl, inr, false, List, [], ◌∷◌, ◌++◌, append_assoc,
  Bytes, length, arith,
}
use mysql_to_mssql.Syncer.Statements.Text.{join}
use mysql_to_mssql.Api.LogChan.{
  split_parts, split_lines, selecting, sending, LogChan, write, send, tick, tick_at, take,
  take_from,
}

join-cons :
    (sep : Bytes) (c : ℕ) (part : Bytes) (rest : List Bytes)
    → join sep ((c ∷ part) ∷ rest) ≡ c ∷ join sep (part ∷ rest)
unfolding join
join-cons sep c part [] = refl
join-cons sep c part (p ∷ rest) = refl

join-split_parts :
    (sep : ℕ) (s : Bytes) → join (sep ∷ []) ((split_parts sep s).0 ∷ (split_parts sep s).1) ≡ s
unfolding split_parts join
join-split_parts sep [] = refl
join-split_parts sep (c ∷ s) = elim (Bool-cases (c == sep)) [
  | inl e ↦
      rw e (
        ap (λ (l : Bytes). sep ∷ l) (join-split_parts sep s) ∙ ap (λ (b : ℕ). b ∷ s) (ground arith))
  | inr e ↦ rw e (join-cons (sep ∷ []) c _ _ ∙ ap (λ (l : Bytes). c ∷ l) (join-split_parts sep s))
]

-- The lines, joined by a newline, are the text.
join-split_lines : (s : Bytes) → join (b'\n' ∷ []) (split_lines s) ≡ s
unfolding split_lines
join-split_lines s = join-split_parts b'\n' s

-- What goes on while LogChan sends: texts are logged, and lines are taken.
pub data Event : Type 0 where
  logs : Bytes → Event
  takes : Event

abbrev pub run : List Event → LogChan → LogChan
run [] s = s
run (logs text ∷ evs) s = run evs (write text s)
run (takes ∷ evs) s = run evs (take s)

abbrev pub taken : List Event → ℕ
taken [] = 0
taken (logs text ∷ evs) = taken evs
taken (takes ∷ evs) = taken evs + 1

-- The end of the sends of some lines.
abbrev pub Sent : LogChan → List Bytes → LogChan → Type 0
Sent s lines s' = (s'.phase ≡ selecting) × (s'.buffer ≡ []) × (s'.stream ≡ s.stream ++ lines)

write-phase : (text : Bytes) (s : LogChan) → (write text s).phase ≡ s.phase
unfolding write
write-phase text s = ground arith

write-stream : (text : Bytes) (s : LogChan) → (write text s).stream ≡ s.stream
unfolding write
write-stream text s = ground arith

take-more :
    (s : LogChan) (line next : Bytes) (lines : List Bytes)
    → s.phase ≡ sending (line ∷ next ∷ lines)
    → ((take s).phase ≡ sending (next ∷ lines)) × ((take s).stream ≡ s.stream ++ line ∷ [])
unfolding take take_from send
take-more s line next lines p = rw p (refl, refl)

take-last :
    (s : LogChan) (line : Bytes) → s.phase ≡ sending (line ∷ []) → Sent s (line ∷ []) (take s)
unfolding take take_from send
take-last s line p = rw p (refl, refl, refl)

run-Sent :
    (evs : List Event) (s : LogChan) (lines : List Bytes)
    → s.phase ≡ sending lines
    → length lines ≡ taken evs + 1
    → Sent s lines (take (run evs s))
run-Sent [] s [] p n = absurd (ground arith)
run-Sent [] s (line ∷ []) p n = take-last s line p
run-Sent [] s (line ∷ next ∷ lines) p n = absurd (ground arith)
run-Sent (logs text ∷ evs) s lines p n =
    let (phase, buffer, stream) = run-Sent evs (write text s) lines (write-phase text s ∙ p) n in
    (phase, buffer, stream ∙ ap (λ (l : List Bytes). l ++ lines) (write-stream text s))
run-Sent (takes ∷ evs) s [] p n = absurd (ground arith)
run-Sent (takes ∷ evs) s (line ∷ []) p n = absurd (ground arith)
run-Sent (takes ∷ evs) s (line ∷ next ∷ lines) p n =
    let (sends, streamed) = take-more s line next lines p in
    let (phase, buffer, stream) = run-Sent evs (take s) (next ∷ lines) sends (ground arith) in
    (
      phase,
      buffer,
      stream
          ∙ ap (λ (l : List Bytes). l ++ next ∷ lines) streamed
          ∙ append_assoc s.stream (line ∷ []) (next ∷ lines),
    )

tick-sending :
    (s : LogChan)
    → s.phase ≡ selecting
    → (length s.buffer == 0) ≡ false
    → ((tick s).phase ≡ sending (split_lines s.buffer)) × ((tick s).stream ≡ s.stream)
unfolding tick tick_at send split_lines
tick-sending s p n = rw (p, n) (refl, refl)

-- A tick at the select with a text in the buffer, then any texts that are logged while its lines
-- are taken one by one, up to the last: the client has been sent the lines of the text that the
-- buffer had at the tick, which are the whole of that text, and the buffer is empty, so what was
-- logged in the meantime is in neither.
pub tick-lines :
    (s : LogChan) (evs : List Event)
    → s.phase ≡ selecting
    → (length s.buffer == 0) ≡ false
    → length (split_lines s.buffer) ≡ taken evs + 1
    → Sent s (split_lines s.buffer) (take (run evs (tick s)))
      × (join (b'\n' ∷ []) (split_lines s.buffer) ≡ s.buffer)
tick-lines s evs p n count =
    let (sends, streamed) = tick-sending s p n in
    let (phase, buffer, stream) = run-Sent evs (tick s) (split_lines s.buffer) sends count in
    (
      (phase, buffer, stream ∙ ap (λ (l : List Bytes). l ++ split_lines s.buffer) streamed),
      join-split_lines s.buffer,
    )
