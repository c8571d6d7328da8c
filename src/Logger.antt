-- ===== src/Logger.antt =====
-- Source/Logger.c: the ring of the last 128 log entries and the panel that shows them.
-- The formatted text of an entry (UnicodeVSPrint) and the clock (UtilGetTimestamp) come as arguments.
pub mod History
pub mod Panel
mod Examples
use ddtsoft_net_test.Base.{
  ℕ, zero, suc, ◌+◌, ◌-◌, ◌%◌, Option, none, some, List, [], ◌∷◌, ltb, leb, ◌==◌, ◌||◌,
  if◌then◌else◌,
}
use Prim.Native.String.{String}

-- LOG_LEVEL
pub data LogLevel : Type 0 where
  debug info warning error success : LogLevel

-- LOG_ENTRY
pub record LogEntry : Type 0 where
  pub level : LogLevel
  pub timestamp : ℕ
  pub message : List ℕ

abbrev pub log_max_entries : ℕ
log_max_entries = 128

-- mLogEntries, mLogHead and mLogCount
pub record Log : Type 0 where
  pub entries : ℕ → LogEntry
  pub head : ℕ
  pub count : ℕ

abbrev zero_entry : LogEntry
zero_entry = record { level = debug; timestamp = 0; message = [] }

-- LogInit
pub log_init : Log → Log
log_init s = record { entries = λ i. zero_entry; head = 0; count = 0 }

-- LogAdd, with the entry that it writes
pub log_add : Log → LogEntry → Log
log_add s e = record {
  entries = λ i. if i == s.head then e else s.entries i;
  head = (s.head + 1) % log_max_entries;
  count = if ltb s.count log_max_entries then s.count + 1 else s.count;
}

-- LogGetCount
pub log_get_count : Log → ℕ
log_get_count s = s.count

-- LogGetEntry
pub log_get_entry : Log → ℕ → Option LogEntry
log_get_entry s index =
    if leb s.count index
    then none
    else some (s.entries ((s.head + log_max_entries - s.count + index) % log_max_entries))

-- LogClear
pub log_clear : Log → Log
log_clear s = record s { head = 0; count = 0 }

-- The colour attributes that the panel uses.
pub data Color : Type 0 where
  lightgray white yellow red green : Color

-- LogLevelColor
pub log_level_color : LogLevel → Color
log_level_color debug = lightgray
log_level_color info = white
log_level_color warning = yellow
log_level_color error = red
log_level_color success = green

-- LogLevelTag
pub log_level_tag : LogLevel → String
log_level_tag debug = "DBG"
log_level_tag info = "INF"
log_level_tag warning = "WRN"
log_level_tag error = "ERR"
log_level_tag success = "OK "

-- One call of UiSetColor and UiPrintAt.
pub record Line : Type 0 where
  pub color : Color
  pub col : ℕ
  pub row : ℕ
  pub tag : String
  pub width : ℕ
  pub text : List ℕ

-- What one round of the drawing loop prints.
pub draw_entry : ℕ → ℕ → ℕ → LogEntry → Line
draw_entry col row width e = record {
  color = log_level_color e.level;
  col = col;
  row = row;
  tag = log_level_tag e.level;
  width = width;
  text = e.message;
}

-- The drawing loop; a NULL entry is skipped and takes no row.
pub draw_loop : Log → ℕ → ℕ → ℕ → ℕ → ℕ → List Line
draw_loop s col width index row zero = []
draw_loop s col width index row (suc n) = elim (log_get_entry s index) [
  | none ↦ draw_loop s col width (index + 1) row n
  | some e ↦ draw_entry col row width e ∷ draw_loop s col width (index + 1) (row + 1) n
]

-- LogDrawPanel: what it prints, in order.
pub log_draw_panel : Log → ℕ → ℕ → ℕ → ℕ → List Line
log_draw_panel s col row width height =
    let draw_count = if ltb s.count height then s.count else height in
    let msg_width = if ltb 6 width then width - 6 else 1 in
    if s.count == 0 || height == 0
    then []
    else draw_loop s col msg_width (s.count - draw_count) row draw_count
