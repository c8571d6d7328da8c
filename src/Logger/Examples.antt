-- ===== src/Logger/Examples.antt =====
-- The theorems on Logger.c at concrete logs.
use ddtsoft_net_test.Base.{
  ◌-◌, ◌≡◌, List, [], ◌∷◌, length, get_elem?, drop, min, ltb, if◌then◌else◌,
}
use ddtsoft_net_test.Logger.{
  LogEntry, info, warning, Log, log_init, log_get_count, log_get_entry, log_clear,
}
use ddtsoft_net_test.Logger.History.{log_add_all, log_history}

abbrev started : LogEntry
started = record { level = info; timestamp = 10; message = 104 ∷ 105 ∷ [] }

abbrev stopped : LogEntry
stopped = record { level = warning; timestamp = 12; message = 98 ∷ 121 ∷ [] }

abbrev history : List LogEntry
history = started ∷ stopped ∷ []

-- A log whose two entries stand round the end of the ring.
abbrev wrapped : Log
wrapped = record { entries = λ i. if ltb i 64 then stopped else started; head = 1; count = 2 }

log_history_example :
    let cleared = log_add_all (log_clear wrapped) history in
    let fresh = log_add_all (log_init wrapped) history in
    (log_get_count cleared ≡ min (length history) 128)
    × (log_get_entry cleared 1 ≡ get_elem? (drop (length history - 128) history) 1)
    × (log_get_count fresh ≡ min (length history) 128)
    × (log_get_entry fresh 1 ≡ get_elem? (drop (length history - 128) history) 1)
log_history_example = log_history wrapped history 1
