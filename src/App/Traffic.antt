-- ===== src/App/Traffic.antt =====
-- The traffic statistics (src-tauri/src/traffic.rs). A day is its text "YYYY-MM-DD"; the calendar of
-- the chrono crate, which gives the number of a day, is an argument. The map of the days is a list
-- of its entries, each day once. Speeds are whole bytes per second.
pub mod Sums
use Prim.Native.String.{◌++◌ as ◌<>◌}
use text.Mathlib.Text.{starts_with}
use vnt_gui_dev.Prelude.{
  ℕ, ◌+◌, ◌-◌, ◌%◌, ◌^◌, String, Bool, true, false, Option, none, some, List, [], ◌∷◌, ltb, leb,
  ◌==◌, str_eq, if◌then◌else◌, min, filter,
}

pub record DayTraffic : Type 0 where
  pub sent : ℕ
  pub recv : ℕ

abbrev pub max_u64 : ℕ
max_u64 = 2 ^ 64 - 1

-- `u64::saturating_add`
abbrev pub saturating_add : ℕ → ℕ → ℕ
saturating_add a b = min (a + b) max_u64

abbrev pub no_traffic : DayTraffic
no_traffic = record { sent = 0; recv = 0 }

abbrev pub plus : DayTraffic → DayTraffic → DayTraffic
plus a b = record { sent = saturating_add a.sent b.sent; recv = saturating_add a.recv b.recv }

abbrev pub Days : Type 0
Days = List (String × DayTraffic)

pub record TrafficStats : Type 0 where
  pub days : Days

abbrev pub day_of : String → Days → DayTraffic
day_of key [] = no_traffic
day_of key (e ∷ es) = if str_eq e.0 key then e.1 else day_of key es

-- `entry(key).or_default()`, and the addition to it.
abbrev pub add_to_day : String → DayTraffic → Days → Days
add_to_day key inc [] = (key, plus no_traffic inc) ∷ []
add_to_day key inc (e ∷ es) =
    let rest = add_to_day key inc es in
    if str_eq e.0 key then (e.0, plus e.1 inc) ∷ es else e ∷ rest

unfoldable pub accumulate : (today : String) (sent_inc recv_inc : ℕ) → TrafficStats → TrafficStats
accumulate today sent_inc recv_inc s = record {
  days = add_to_day today (record { sent = sent_inc; recv = recv_inc }) s.days;
}

abbrev pub keep_days : ℕ
keep_days = 62

abbrev is_recent : ℕ → Option ℕ → Bool
is_recent today none = false
is_recent today (some d) = leb today (d + keep_days)

abbrev keep_recent : (String → Option ℕ) → ℕ → Days → Days
keep_recent number_of today [] = []
keep_recent number_of today (e ∷ es) =
    let rest = keep_recent number_of today es in
    if is_recent today (number_of e.0) then e ∷ rest else rest

-- A day after today is kept too.
unfoldable pub prune : (String → Option ℕ) → ℕ → TrafficStats → TrafficStats
prune number_of today s = record { days = keep_recent number_of today s.days }

-- `today` and `yesterday`, of their days.
unfoldable pub day : String → TrafficStats → DayTraffic
day key s = day_of key s.days

abbrev sum_of : (String → Bool) → DayTraffic → Days → DayTraffic
sum_of p acc [] = acc
sum_of p acc (e ∷ es) = if p e.0 then sum_of p (plus acc e.1) es else sum_of p acc es

-- `prefix` is the "YYYY-MM" of today.
unfoldable pub month : String → TrafficStats → DayTraffic
month prefix s = sum_of (λ k. starts_with prefix k) no_traffic s.days

unfoldable pub total : TrafficStats → DayTraffic
total s = sum_of (λ k. true) no_traffic s.days

pub record PeriodTraffic : Type 0 where
  pub today : DayTraffic
  pub yesterday : DayTraffic
  pub month : DayTraffic
  pub total : DayTraffic

unfoldable pub period : (today yesterday prefix : String) → TrafficStats → PeriodTraffic
unfolding day month total
period today yesterday prefix s = record {
  today = day today s;
  yesterday = day yesterday s;
  month = month prefix s;
  total = total s;
}

-- The counters of the network card.
pub record Sample : Type 0 where
  pub up_bytes : ℕ
  pub down_bytes : ℕ

-- The variables of the monitor's loop, the statistics of the days, and what was saved last.
pub record Monitor : Type 0 where
  pub last : Option Sample
  pub prev_bytes_up : ℕ
  pub prev_bytes_down : ℕ
  pub first : Bool
  pub save_counter : ℕ
  pub daily : TrafficStats
  pub saved : Option TrafficStats
  pub upload_speed : ℕ
  pub download_speed : ℕ

-- The difference of two counts, or nothing where the counter was reset.
abbrev pub delta : ℕ → ℕ → ℕ
delta old now = if leb old now then now - old else 0

abbrev pub deltas : Option Sample → Option Sample → ℕ × ℕ
deltas (some a) (some b) = (delta a.up_bytes b.up_bytes, delta a.down_bytes b.down_bytes)
deltas (some a) none = (0, 0)
deltas none b = (0, 0)

-- One second of the monitor. The session's counts are 64 bits wide.
unfoldable pub tick :
    (number_of : String → Option ℕ) (today : String) (today_number : ℕ)
    → Option Sample
    → Monitor
    → Monitor
unfolding accumulate prune
tick number_of today today_number current m =
    let (up, down) = deltas m.last current in
    let counter = (m.save_counter + 1) % 2 ^ 32 in
    let daily = accumulate today up down m.daily in
    let pruned = prune number_of today_number daily in
    let is_minute = (counter % 60) == 0 in
    record {
      last = current;
      prev_bytes_up = (m.prev_bytes_up + up) % 2 ^ 64;
      prev_bytes_down = (m.prev_bytes_down + down) % 2 ^ 64;
      first = false;
      save_counter = counter;
      daily = if is_minute then pruned else daily;
      saved = if is_minute then some pruned else m.saved;
      upload_speed = if m.first then 0 else up;
      download_speed = if m.first then 0 else down;
    }
