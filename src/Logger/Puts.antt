-- ===== src/Logger/Puts.antt =====
-- What `log_put` of src/logger.c writes, and when it is safe.
use libhelp.Base.{
  ℕ, ◌+◌, ◌≡◌, ◌≢◌, ◌⊎◌, refl, subst, if-elim, Option-elim, ap, sym, ◌∙◌, arith, false, Bool-cases,
  inl, inr, Option, none, some, [], ◌∷◌, ◌++◌, Bytes, ltb, ltb→lt, ◌==◌, ==_iff, length,
  if◌then◌else◌,
}
use libhelp.Logger.{
  Level, number, System, Log, format_line, log_str_size, Place, time_text, log_new, log_rotate,
  refresh, header, Put, done, log_put, write_line, write_to, put_line,
}
use libhelp.Logger.Lines.{format_line-fits, format_line-overflow}

module _ (sys : System) where
  -- a log whose time text is that of its time; 0 is the time of a new log, which has no text yet
  abbrev pub IsCurrent : Log → Type 0
  IsCurrent log = (log.ts ≡ 0) ⊎ (log.ts_str ≡ some (time_text sys log.ts))

  abbrev pub at_time : ℕ → Log → Log
  at_time now log = record log { ts = now; ts_str = some (time_text sys now) }

  refresh-at_time :
      (now : ℕ) (log : Log) → now ≢ 0 → IsCurrent log → refresh sys now log ≡ at_time now log
  unfolding refresh
  refresh-at_time now log later (inl zero_ts) =
      let other : (now == log.ts) ≡ false = ground (arith, zero_ts, later) in rw other refl
  refresh-at_time now log later (inr text) = elim (Bool-cases (now == log.ts)) [
    | inr h ↦ rw h refl
    | inl h ↦
        let same : log.ts ≡ now = sym ((==_iff now log.ts).0 h) in
        let stamped : log.ts_str ≡ some (time_text sys now) =
          text ∙ ap (λ t. some (time_text sys t)) same in
        rw h (λ i. record log { ts = same i; ts_str = stamped i })
  ]

  -- the line of a message, whole
  abbrev pub whole_line : Log → ℕ → Level → Option Place → Bytes → Bytes
  whole_line log now level place m =
      header sys (time_text sys now) level log.pid_str place ++ (m ++ (b'\n' ∷ []))

  -- the bytes of the line before its newline
  abbrev pub line_size : Log → ℕ → Level → Option Place → Bytes → ℕ
  line_size log now level place m =
      length (header sys (time_text sys now) level log.pid_str place) + length m

  write_line-size :
      (os : sys.Os) (log : Log) (f : ℕ) (h m : Bytes)
      → log.fd ≡ some f
      → write_line sys os log (format_line h (some m)) ≡ (
          if ltb (length h + length m) log_str_size
          then done log (sys.fwrite os f (h ++ (m ++ (b'\n' ∷ []))))
          else Put.undefined)
  write_line-size os log f h m e = elim (Bool-cases (ltb (length h + length m) log_str_size)) [
    | inl q ↦ rw q (
        ap (write_line sys os log)
          (format_line-fits h m (ltb→lt (length h + length m) log_str_size q))
        ∙ ap (λ d. write_to sys os log d (h ++ (m ++ (b'\n' ∷ [])))) e)
    | inr q ↦ rw q (ap (write_line sys os log) (format_line-overflow h m (ground (arith, q))))
  ]

  -- With an open file, at a time that is not 0: a message above the level of the log changes nothing. Any
  -- other message is written as one whole line, with the time of the call, if the line has fewer than
  -- 2048 bytes before its newline, and the log keeps that time; if it has not, `log_put` stores past
  -- the end of its array.
  pub log_put-Puts :
      (os : sys.Os) (log : Log) (f : ℕ) (level : Level) (place : Option Place) (m : Bytes)
      → sys.time os ≢ 0
      → IsCurrent log
      → log.fd ≡ some f
      → log_put sys os log level place (some m) ≡ (
          if ltb log.level (number level)
          then done log os
          else if ltb (line_size log (sys.time os) level place m) log_str_size
          then done
              (at_time (sys.time os) log)
              (sys.fwrite os f (whole_line log (sys.time os) level place m))
          else Put.undefined)
  unfolding log_put
  log_put-Puts os log f level place m later current open_fd =
      let now = sys.time os in
      ap (λ r. if ltb log.level (number level) then done log os else r)
        (ap (λ (l : Log). put_line sys os l level place (some m) l.ts_str)
            (refresh-at_time now log later current)
          ∙ write_line-size os (at_time now log) f
              (header sys (time_text sys now) level log.pid_str place) m open_fd)

  abbrev IsNew : Option Log × sys.Os → Type 0
  IsNew (none, os) = Unit
  IsNew (some log, os) = (log.file ≡ none) × (log.ts ≡ 0)

  log_new-IsNew : (os : sys.Os) (file : Bytes) (level : ℕ) → IsNew (log_new sys os file level)
  unfolding log_new
  log_new-IsNew os file level =
      let (room, os1) = sys.malloc os in
      if-elim IsNew room (Option-elim IsNew (sys.fopen os1 file).0 _ _ tt (λ f. (refl, refl))) tt

  -- A log that `log_new` opened is current, but it has no file name: `log_rotate` uses one that was never
  -- stored.
  pub log_rotate-log_new :
      (os os' later : sys.Os) (file : Bytes) (level : ℕ) {log : Log}
      → log_new sys os file level ≡ (some log, os')
      → (log_rotate sys later log ≡ none) × IsCurrent log
  unfolding log_rotate
  log_rotate-log_new os os' later file level {log} e =
      let fresh : IsNew (some log, os') = subst IsNew e (log_new-IsNew os file level) in
      (rw (fresh.0, log_rotate) refl, inl fresh.1)
