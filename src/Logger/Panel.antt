-- ===== src/Logger/Panel.antt =====
-- The lines of LogDrawPanel in Source/Logger.c against the entries of the log.
use native.Mathlib.Nat.{add-zero}
use ddtsoft_net_test.Base.{
  ℕ, zero, suc, ◌+◌, ◌-◌, ◌%◌, ◌≤◌, ◌<◌, ◌≡◌, refl, ap, arith, some, length, get_elem?, min, false,
  ◌||◌, ltb, ◌==◌, if◌then◌else◌,
}
use mathlib.Core.Option
use ddtsoft_net_test.Logger.{LogEntry, Log, log_get_entry, draw_entry, draw_loop, log_draw_panel}

log_get_entry-some : (s : Log) (i : ℕ) → i < s.count → (e : LogEntry) × (log_get_entry s i ≡ some e)
unfolding log_get_entry
log_get_entry-some s i h = (s.entries ((s.head + 128 - s.count + i) % 128), ground arith)

-- With all entries there, round `k` of the loop shows entry `index + k` at row `row + k`.
draw_loop_at :
    (s : Log) (col width n index row k : ℕ)
    → index + n ≤ s.count
    → k < n
    → get_elem? (draw_loop s col width index row n) k
      ≡ Option.map (draw_entry col (row + k) width) (log_get_entry s (index + k))
unfolding draw_loop
draw_loop_at s col width zero index row k h lt = absurd (omega arith)
draw_loop_at s col width (suc n) index row zero h lt =
    let (e, at) = log_get_entry-some s index (omega arith) in rw (add-zero, add-zero, at, draw_loop)
draw_loop_at s col width (suc n) index row (suc k) h lt =
    let (e, at) = log_get_entry-some s index (omega arith) in
    let i : index + suc k ≡ index + 1 + k = omega arith in
    let r : row + suc k ≡ row + 1 + k = omega arith in
    rw (at, draw_loop, i, r)
      (draw_loop_at s col width n (index + 1) (row + 1) k (omega arith) (omega arith))

length-draw_loop :
    (s : Log) (col width n index row : ℕ)
    → index + n ≤ s.count
    → length (draw_loop s col width index row n) ≡ n
unfolding draw_loop
length-draw_loop s col width zero index row h = refl
length-draw_loop s col width (suc n) index row h =
    let (e, at) = log_get_entry-some s index (omega arith) in
    rw (at, draw_loop) (ap suc (length-draw_loop s col width n (index + 1) (row + 1) (omega arith)))

-- LogDrawPanel prints as many lines as entries fit in the height. They are the newest ones, oldest
-- of them first: line `k` shows the log's entry that many places before the end, at row `row + k`.
pub log_draw_panel_lem :
    (s : Log) (col row width height k : ℕ)
    → k < min s.count height
    → let lines = log_draw_panel s col row width height in
      (length lines ≡ min s.count height)
      × (get_elem? lines k
          ≡ Option.map
              (draw_entry col (row + k) (if ltb 6 width then width - 6 else 1))
              (log_get_entry s (s.count - min s.count height + k)))
unfolding log_draw_panel
log_draw_panel_lem s col row width height k h =
    let shown : (if ltb s.count height then s.count else height) ≡ min s.count height =
      ground arith in
    let some_shown : (s.count == 0 || height == 0) ≡ false = ground arith in
    rw (shown, some_shown)
      (
        length-draw_loop s col _ (min s.count height) (s.count - min s.count height) row
            (omega arith),
        draw_loop_at s col _ (min s.count height) (s.count - min s.count height) row k (omega arith)
            h,
      )
