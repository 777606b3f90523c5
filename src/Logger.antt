-- ===== src/Logger.antt =====
-- The log of src/logger.c. A line is built in an array of 2048 bytes on the stack; what the C library
-- does with files and formats is the parameter `System`.
pub mod Lines
pub mod Puts
pub mod Title
mod Tests
use libhelp.Base.{
  ℕ, ◌+◌, ◌-◌, Bool, true, false, Option, none, some, List, [], ◌∷◌, ◌++◌, Bytes, codes, bytes_eq,
  ltb, leb, ◌==◌, length, take, if◌then◌else◌,
}

-- `enum log_level_e`
pub data Level : Type 0 where
  error : Level
  warn : Level
  notice : Level
  debug : Level

abbrev pub number : Level → ℕ
number error = 0
number warn = 1
number notice = 2
number debug = 3

-- `log_levels`
abbrev pub log_levels : Level → Bytes
log_levels error = codes "error  "
log_levels warn = codes "warn   "
log_levels notice = codes "notice "
log_levels debug = codes "debug  "

abbrev pub log_time_str_size : ℕ
log_time_str_size = 23

abbrev pub log_pid_str_size : ℕ
log_pid_str_size = 22

abbrev pub log_str_size : ℕ
log_str_size = 2048

-- the C library and the operating system
pub record System : Type 1 where
  pub Os : Type 0
  -- `malloc(sizeof(log_t))`: whether there is room
  pub malloc : Os → Bool × Os
  pub free : Os → Os
  pub fopen : Os → Bytes → Option ℕ × Os
  pub fclose : Os → ℕ → Os
  -- `fwrite` and `fflush`
  pub fwrite : Os → ℕ → Bytes → Os
  pub getpid : Os → ℕ
  pub time : Os → ℕ
  -- the text of `localtime_r` in the format of `log_put`
  pub stamp : ℕ → Bytes
  -- `%lu` and `%d`
  pub decimal : ℕ → Bytes

-- `log_t`; `none` in `ts_str` and `file` is a value that nothing was stored in, and in `fd` is `NULL`
pub record Log : Type 0 where
  pub level : ℕ
  pub ts : ℕ
  pub ts_str : Option Bytes
  pub pid_str : Bytes
  pub file : Option Bytes
  pub fd : Option ℕ

-- what `snprintf` stores in an array of a size: the text up to where the NUL must stand
abbrev pub snprintf : ℕ → Bytes → Bytes
snprintf size text = take (size - 1) text

pub data Line : Type 0 where
  built : Bytes → Line
  -- `vsnprintf` fails
  dropped : Line
  -- a store behind the end of `str`
  overflow : Line

-- From the first `snprintf` into `str` to the store of the newline, for what the formats give. After a
-- text of more than `LOG_STR_SIZE` bytes, `end - p` is a huge `size_t`.
unfoldable pub format_line : Bytes → Option Bytes → Line
format_line header message =
    let p = length header in
    let str = snprintf log_str_size header in
    if ltb log_str_size p then overflow else elim message [
      | none ↦ dropped
      | some m ↦
          if leb log_str_size (p + length m)
          then overflow
          else built (take p str ++ (snprintf (log_str_size - p) m ++ (b'\n' ∷ [])))
    ]

-- where a call stands: the file, the function and the line
abbrev pub Place : Type 0
Place = Bytes × Bytes × ℕ

module _ (sys : System) where
  unfoldable pub pid_text : ℕ → Bytes
  pid_text pid = snprintf log_pid_str_size (b'(' ∷ (sys.decimal pid ++ (b')' ∷ [])))

  unfoldable pub time_text : ℕ → Bytes
  time_text ts = snprintf log_time_str_size (sys.stamp ts)

  -- the log, or `none` for `NULL`
  unfoldable pub log_new : sys.Os → Bytes → ℕ → Option Log × sys.Os
  unfolding pid_text
  log_new os file level =
      let (room, os1) = sys.malloc os in
      let (fd, os2) = sys.fopen os1 file in
      let opened : Option Log × sys.Os = elim fd [
        | none ↦ (none, sys.free os2)
        | some f ↦ (
          some (record {
            level = level;
            ts = 0;
            ts_str = none;
            pid_str = pid_text (sys.getpid os2);
            file = none;
            fd = some f;
          }),
          os2,
        )
      ] in
      if room then opened else (none, os1)

  -- `fclose(log->fd)`, if it is open
  abbrev pub close_fd : sys.Os → Option ℕ → sys.Os
  close_fd os none = os
  close_fd os (some f) = sys.fclose os f

  -- `none` is a use of a file name that was never stored
  unfoldable pub log_rotate : sys.Os → Log → Option (Log × sys.Os)
  log_rotate os log = elim log.file [
    | none ↦ none
    | some file ↦
        let (fd, os') = sys.fopen (close_fd os log.fd) file in some (record log { fd = fd }, os')
  ]

  unfoldable pub log_set_pid : Log → ℕ → Log
  unfolding pid_text
  log_set_pid log pid = record log { pid_str = pid_text pid }

  -- `log_put` before the formats: the time and its text, made anew in a new second
  unfoldable pub refresh : ℕ → Log → Log
  unfolding time_text
  refresh now log =
      if now == log.ts then log else record log { ts = now; ts_str = some (time_text now) }

  -- the text of the first format
  unfoldable pub header : Bytes → Level → Bytes → Option Place → Bytes
  header ts_str level pid_str none = ts_str ++ (log_levels level ++ (pid_str ++ (b' ' ∷ [])))
  header ts_str level pid_str (some (file, func, line)) =
      ts_str
      ++ (log_levels level
          ++ (pid_str
              ++ (codes " in "
                  ++ (file ++ (b':' ∷ (func ++ (b':' ∷ (sys.decimal line ++ (b' ' ∷ [])))))))))

  pub data Put : Type 0 where
    done : Log → sys.Os → Put
    -- a store out of bounds, a text that was never stored, or a file that is `NULL`
    undefined : Put

  -- `fwrite` and `fflush`
  abbrev pub write_to : sys.Os → Log → Option ℕ → Bytes → Put
  write_to os log none text = undefined
  write_to os log (some f) text = done log (sys.fwrite os f text)

  abbrev pub write_line : sys.Os → Log → Line → Put
  write_line os log (built text) = write_to os log log.fd text
  write_line os log dropped = done log os
  write_line os log overflow = undefined

  -- the formats and what follows them, with the text of the time
  abbrev pub put_line : sys.Os → Log → Level → Option Place → Option Bytes → Option Bytes → Put
  put_line os log level place message none = undefined
  put_line os log level place message (some ts_str) =
      write_line os log (format_line (header ts_str level log.pid_str place) message)

  -- For a log that is not `NULL`. `message` is what the caller's format gives, or `none` if it fails.
  unfoldable pub log_put : sys.Os → Log → Level → Option Place → Option Bytes → Put
  unfolding refresh header format_line
  log_put os log level place message =
      if ltb log.level (number level)
      then done log os
      else (let log' = refresh (sys.time os) log in
          put_line os log' level place message log'.ts_str)

  unfoldable pub log_delete : sys.Os → Log → sys.Os
  log_delete os log = sys.free (close_fd os log.fd)

unfoldable pub log_set_str_level : Log → Bytes → Log
unfolding bytes_eq
log_set_str_level log level =
    if bytes_eq level (codes "debug")
    then record log { level = number debug }
    else if bytes_eq level (codes "notice")
    then record log { level = number notice }
    else if bytes_eq level (codes "warn")
    then record log { level = number warn }
    else record log { level = number error }
