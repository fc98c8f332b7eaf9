-- ===== src/Logger.antt =====
-- common/Logger.h and common/Logger.cpp: the levelled log. What was written is a list of lines; the clock's text is
-- an argument.
use sim_vision_sdk.Prelude.{
  ℕ, ◌≡◌, refl, sym, Bool, true, false, Option, none, some, List, [], ◌∷◌, ◌++◌, Text, text,
  text_eq, to_lower, if◌then◌else◌, arith, leb, append-nil, append_assoc, Bool-cases, inl, inr,
}

-- `enum class LogLevel`
pub data LogLevel : Type 0 where
  fatal error warn info debug : LogLevel

abbrev pub level_number : LogLevel → ℕ
level_number fatal = 0
level_number error = 1
level_number warn = 2
level_number info = 3
level_number debug = 4

unfoldable pub level_name : LogLevel → Text
level_name fatal = text "FATAL"
level_name error = text "ERROR"
level_name warn = text "WARN"
level_name info = text "INFO"
level_name debug = text "DEBUG"

unfoldable pub parse_level : Text → LogLevel
parse_level s =
    if text_eq s (text "fatal")
    then fatal
    else if text_eq s (text "error")
    then error
    else if text_eq s (text "warn")
    then warn
    else if text_eq s (text "debug")
    then debug
    else info

-- `file` is the file that is open; each line that it got stands with its path.
pub record Logger : Type 0 where
  pub level : LogLevel
  pub file : Option Text
  pub stderr : List Text
  pub written : List (Text × Text)

unfoldable pub set_level : LogLevel → Logger → Logger
set_level level lg = record lg { level = level }

abbrev pub is_empty : Text → Bool
is_empty [] = true
is_empty (_ ∷ _) = false

-- `set_file`, with what opening the file says
unfoldable pub set_file : Bool → Text → Logger → Logger
set_file opens path lg =
    if is_empty path
    then record lg { file = none }
    else record lg { file = if opens then some path else none }

abbrev pub to_file : Option Text → Text → List (Text × Text)
to_file none line = []
to_file (some path) line = (path, line) ∷ []

abbrev pub line_of : Text → LogLevel → Text → Text → Text
line_of now level name message =
    now
    ++ (text " | "
        ++ (level_name level ++ (text " | " ++ (name ++ (text " | " ++ (message ++ (10 ∷ [])))))))

-- `log`, of one message
unfoldable pub log : Text → LogLevel → Text → Text → Logger → Logger
log now level name message lg =
    let line = line_of now level name message in
    if leb (level_number level) (level_number lg.level)
    then record lg { stderr = lg.stderr ++ line ∷ []; written = lg.written ++ to_file lg.file line }
    else lg

unfoldable pub log_init : Bool → Text → Text → Logger → Logger
log_init opens level_str file_path lg =
    let lg' = set_level (parse_level level_str) lg in
    if is_empty file_path then lg' else set_file opens file_path lg'

-- The level that a name in small letters stands for is the level of that name.
pub parse_level-level_name : (level : LogLevel) → parse_level (to_lower (level_name level)) ≡ level
unfolding parse_level level_name to_lower
parse_level-level_name fatal = refl
parse_level-level_name error = refl
parse_level-level_name warn = refl
parse_level-level_name info = refl
parse_level-level_name debug = refl

-- A message.
pub record Message : Type 0 where
  pub now : Text
  pub severity : LogLevel
  pub name : Text
  pub message : Text

unfoldable pub log_all : List Message → Logger → Logger
log_all [] lg = lg
log_all (m ∷ more) lg = log_all more (log m.now m.severity m.name m.message lg)

-- The lines of the messages that are at least as severe as the level.
abbrev pub lines_upto : LogLevel → List Message → List Text
lines_upto level [] = []
lines_upto level (m ∷ more) =
    let rest = lines_upto level more in
    if leb (level_number m.severity) (level_number level)
    then line_of m.now m.severity m.name m.message ∷ rest
    else rest

abbrev pub all_to_file : Option Text → List Text → List (Text × Text)
all_to_file file [] = []
all_to_file file (line ∷ more) = to_file file line ++ all_to_file file more

-- Of a sequence of messages, `stderr` gets the lines of those that are at least as severe as the level, in their
-- order, and so does the file, if one is open; the level and the file stay.
pub log_all_lem :
    (ms : List Message) (lg : Logger)
    → ((log_all ms lg).stderr ≡ lg.stderr ++ lines_upto lg.level ms)
      × ((log_all ms lg).written ≡ lg.written ++ all_to_file lg.file (lines_upto lg.level ms))
      × ((log_all ms lg).level ≡ lg.level)
      × ((log_all ms lg).file ≡ lg.file)
unfolding log_all log
log_all_lem [] lg = (sym (append-nil lg.stderr), sym (append-nil lg.written), refl, refl)
log_all_lem (m ∷ more) lg =
    let line = line_of m.now m.severity m.name m.message in
    let lines = lines_upto lg.level more in
    elim (Bool-cases (leb (level_number m.severity) (level_number lg.level))) [
      | inl e ↦ ground (
        arith,
        e,
        append_assoc lg.stderr (line ∷ []) lines,
        append_assoc lg.written (to_file lg.file line) (all_to_file lg.file lines),
        log_all_lem more (log m.now m.severity m.name m.message lg),
      )
      | inr e ↦ ground (arith, e, log_all_lem more lg)
    ]
