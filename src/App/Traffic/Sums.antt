-- ===== src/App/Traffic/Sums.antt =====
-- What the sums of the traffic are.
use vnt_gui_dev.Prelude.{
  ℕ, ◌+◌, ◌≤◌, ◌≡◌, String, true, [], ◌∷◌, arith, min, str_eq, eq_iff, if◌then◌else◌,
}
use vnt_gui_dev.App.Traffic.{
  DayTraffic, Days, TrafficStats, max_u64, saturating_add, plus, no_traffic, day_of, add_to_day,
  accumulate, day, total, sum_of,
}

-- The true sum over the days, without a bound.
abbrev pub sent_sum : Days → ℕ
sent_sum [] = 0
sent_sum (e ∷ es) = e.1.sent + sent_sum es

abbrev pub recv_sum : Days → ℕ
recv_sum [] = 0
recv_sum (e ∷ es) = e.1.recv + recv_sum es

sum_of-all :
    (acc : DayTraffic) (es : Days)
    → acc.sent ≤ max_u64
    → acc.recv ≤ max_u64
    → ((sum_of (λ k. true) acc es).sent ≡ min (acc.sent + sent_sum es) max_u64)
      × ((sum_of (λ k. true) acc es).recv ≡ min (acc.recv + recv_sum es) max_u64)
sum_of-all acc [] hs hr = (omega (arith, hs), omega (arith, hr))
sum_of-all acc (e ∷ es) hs hr =
    let ih = sum_of-all (plus acc e.1) es (omega arith) (omega arith) in
    (omega (arith, ih.0), omega (arith, ih.1))

-- The total is the sum over all the days, at most the greatest 64-bit number.
total_is_sum :
    (s : TrafficStats)
    → ((total s).sent ≡ min (sent_sum s.days) max_u64)
      × ((total s).recv ≡ min (recv_sum s.days) max_u64)
unfolding total
total_is_sum s =
    let t = sum_of-all no_traffic s.days (omega arith) (omega arith) in
    (omega (arith, t.0), omega (arith, t.1))

add_to_day-sums :
    (key : String) (inc : DayTraffic) (es : Days)
    → sent_sum es + inc.sent ≤ max_u64
    → recv_sum es + inc.recv ≤ max_u64
    → (sent_sum (add_to_day key inc es) ≡ sent_sum es + inc.sent)
      × (recv_sum (add_to_day key inc es) ≡ recv_sum es + inc.recv)
add_to_day-sums key inc [] hs hr = ground arith
add_to_day-sums key inc (e ∷ es) hs hr =
    let ih = add_to_day-sums key inc es (omega arith) (omega arith) in ground (arith, ih)

day_of-add_to_day :
    (key other : String) (inc : DayTraffic) (es : Days)
    → day_of other (add_to_day key inc es)
      ≡ (if str_eq key other then plus (day_of key es) inc else day_of other es)
day_of-add_to_day key other inc [] = ground (arith, eq_iff key other)
day_of-add_to_day key other inc (e ∷ es) =
    ground (
      arith,
      day_of-add_to_day key other inc es,
      eq_iff e.0 key,
      eq_iff e.0 other,
      eq_iff key other,
    )

-- While the sums fit into 64 bits, what is accumulated is added to the day it is counted for and to
-- the totals, and to no other day.
accumulate_adds :
    (today other : String) (sent recv : ℕ) (s : TrafficStats)
    → sent_sum s.days + sent ≤ max_u64
    → recv_sum s.days + recv ≤ max_u64
    → ((total (accumulate today sent recv s)).sent ≡ (total s).sent + sent)
      × ((total (accumulate today sent recv s)).recv ≡ (total s).recv + recv)
      × (day other (accumulate today sent recv s) ≡ (
          if str_eq today other
          then record {
            sent = saturating_add (day today s).sent sent;
            recv = saturating_add (day today s).recv recv;
          }
          else day other s))
unfolding accumulate day
accumulate_adds today other sent recv s hs hr =
    let inc : DayTraffic = record { sent = sent; recv = recv } in
    let sums = add_to_day-sums today inc s.days hs hr in
    let before = total_is_sum s in
    let after = total_is_sum (accumulate today sent recv s) in
    (
      omega (arith, sums.0, before.0, after.0),
      omega (arith, sums.1, before.1, after.1),
      day_of-add_to_day today other inc s.days,
    )
