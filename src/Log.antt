-- ===== src/Log.antt =====
-- base/log.h and base/log.cc: a log message is streamed into a buffer of its own, and is handed to
-- the log thread when it is complete. A string is its bytes.
pub mod Contents
pub mod Level
use libserverkit.Base.{
  ℕ, ◌+◌, ◌-◌, Bool, true, false, ◌&&◌, Option, none, some, List, [], ◌∷◌, ◌++◌, Bytes, slice,
  update, ltb, leb, ◌==◌, if◌then◌else◌,
}

-- `LogLevel`
pub data LogLevel : Type 0 where
  debug : LogLevel
  info : LogLevel
  warn : LogLevel
  error : LogLevel
  fatal : LogLevel

abbrev pub level_number : LogLevel → ℕ
level_number debug = 0
level_number info = 1
level_number warn = 2
level_number error = 3
level_number fatal = 4

abbrev pub all_levels : List LogLevel
all_levels = debug ∷ info ∷ warn ∷ error ∷ fatal ∷ []

-- `kLogLevelName`: "[D ", "[I ", "[W ", "[E " and "[F "
abbrev pub log_level_name : LogLevel → List ℕ
log_level_name debug = 91 ∷ 68 ∷ 32 ∷ []
log_level_name info = 91 ∷ 73 ∷ 32 ∷ []
log_level_name warn = 91 ∷ 87 ∷ 32 ∷ []
log_level_name error = 91 ∷ 69 ∷ 32 ∷ []
log_level_name fatal = 91 ∷ 70 ∷ 32 ∷ []

-- `!strcmp(a, b)`
abbrev pub is_same : List ℕ → List ℕ → Bool
is_same [] [] = true
is_same [] (b ∷ bs) = false
is_same (a ∷ xs) [] = false
is_same (a ∷ xs) (b ∷ ys) = (a == b) && is_same xs ys

-- The loop of `initLogLevel`
abbrev pub find_level : List LogLevel → List ℕ → LogLevel
find_level [] val = debug
find_level (l ∷ ls) val = if is_same (log_level_name l) val then l else find_level ls val

-- `initLogLevel`, with the value of the environment's variable
unfoldable pub init_log_level : Option (List ℕ) → LogLevel
init_log_level none = debug
init_log_level (some val) = find_level all_levels val

-- The test in the macros `Debug`, `Info`, `Warn`, `Error` and `Fatal`
unfoldable pub is_logged : LogLevel → LogLevel → Bool
is_logged log_level level = leb (level_number log_level) (level_number level)

abbrev pub max_log_message_len : ℕ
max_log_message_len = 30000

-- `LogMessageData`: `text_`, and how far the stream's buffer is filled.
pub record LogMessageData : Type 0 where
  pub text : Bytes
  pub pcount : ℕ

-- `LogMessageData()` and `LogStreamBuf(buf, len)`; the text is not initialised.
unfoldable pub new_data : Bytes → LogMessageData
new_data text = record { text = text; pcount = 0 }

-- One character put into the stream; where the buffer is full `overflow` returns it and drops it.
unfoldable pub sputc : ℕ → LogMessageData → LogMessageData
sputc ch d =
    if ltb d.pcount (max_log_message_len - 2)
    then record { text = update d.text d.pcount ch; pcount = d.pcount + 1 }
    else d

-- `stream << s`
unfoldable pub stream : List ℕ → LogMessageData → LogMessageData
unfolding sputc
stream [] d = d
stream (ch ∷ s) d = stream s (sputc ch d)

-- `stream << a << b << …`
unfoldable pub stream_all : List (List ℕ) → LogMessageData → LogMessageData
unfolding stream
stream_all [] d = d
stream_all (s ∷ ss) d = stream_all ss (stream s d)

-- `LogMessage`
pub record LogMessage : Type 0 where
  pub data_ : LogMessageData
  pub level : LogLevel

-- `LogMessage(file, line, level, func)`: `thread` is `CurrentThreadName()`, `time` is
-- `CurrentLogtimeString()`, `base` what `basename` returns, and `line` the digits of the line.
unfoldable pub log_prefix : LogLevel → List ℕ → List ℕ → List ℕ → List ℕ → List (List ℕ)
log_prefix level thread time base line =
    log_level_name level
    ∷ thread
    ∷ (32 ∷ [])
    ∷ time
    ∷ (32 ∷ [])
    ∷ base
    ∷ (58 ∷ [])
    ∷ line
    ∷ (93 ∷ [])
    ∷ []

unfoldable pub new_message : Bytes → LogLevel → List ℕ → List ℕ → List ℕ → List ℕ → LogMessage
unfolding stream_all log_prefix new_data
new_message text level thread time base line = record {
  data_ = stream_all (log_prefix level thread time base line) (new_data text);
  level = level;
}

-- `finish`
unfoldable pub finish : LogMessageData → LogMessageData
unfolding stream
finish d = let d' = stream (10 ∷ []) d in record d' { text = update d'.text d'.pcount 0 }

-- What the destructor does, in order: `SendLog`, what is streamed into the data behind that,
-- `Flush(true)` and `abort`.
pub data Effect : Type 0 where
  sent : LogMessageData → Effect
  streamed : LogMessageData → Effect
  flushed : Effect
  aborted : Effect

-- `~LogMessage()`, with the text of the call stack
unfoldable pub destroy : List ℕ → LogMessage → List Effect
unfolding finish stream
destroy stack m =
    let d = finish m.data_ in
    if level_number m.level == level_number fatal
    then sent d ∷ streamed (stream stack d) ∷ flushed ∷ aborted ∷ []
    else sent d ∷ []

-- `Slice(data->text_, data->stream_.pcount())`: what the log thread appends to the file.
abbrev pub contents : LogMessageData → List ℕ
contents d = slice d.text 0 d.pcount
