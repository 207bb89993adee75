-- ===== src/Klines/Tests.antt =====
-- The history on concrete bars.
use signalix.Prelude.{ℕ, ◌≤◌, ◌≡◌, refl, none, some, List, [], ◌∷◌, length, true, arith}
use signalix.Klines.{
  Kline, trim_list, append_or_replace, append_kline, search, search_from, is_at_least, is_at,
  replace_at, insert_at, merge_at, merge_kline, ingest_history,
}
use signalix.Klines.Search.{IsSorted, insert_sorted, merge_kline-insert_sorted}
use signalix.Klines.Order.{ingest_history-IsSorted, ingest_history-bound, append_kline-IsSorted}

abbrev bar : ℕ → Kline
bar t = record {
  contract = "BTC_USDT";
  interval = "1m";
  open_price = "1";
  high = "2";
  low = "1";
  close = "2";
  volume = "9";
  volume_base = "";
  timestamp_sec = t;
  window_closed = true;
}

abbrev three_bars : List Kline
three_bars = bar 60 ∷ bar 120 ∷ bar 240 ∷ []

three_bars-IsSorted : IsSorted three_bars
three_bars-IsSorted = ((omega arith, (omega arith, tt)), ((omega arith, tt), (tt, tt)))

merged : Kline → List Kline → List Kline
unfolding merge_kline search search_from is_at_least merge_at is_at replace_at insert_at
merged = merge_kline

gap-filled : merged (bar 180) three_bars ≡ bar 60 ∷ bar 120 ∷ bar 180 ∷ bar 240 ∷ []
unfolding merged
gap-filled = refl

-- A bar that comes late is appended at the end all the same.
late-appended : append_kline 5 (bar 180) three_bars ≡ bar 60 ∷ bar 120 ∷ bar 240 ∷ bar 180 ∷ []
unfolding append_kline append_or_replace trim_list
late-appended = refl

merge_kline-insert_sorted_example :
    merge_kline (bar 180) three_bars ≡ insert_sorted (bar 180) three_bars
merge_kline-insert_sorted_example =
    merge_kline-insert_sorted (bar 180) three_bars three_bars-IsSorted

ingest_history-IsSorted_example :
    IsSorted (ingest_history 3 "1m" (some (bar 300) ∷ none ∷ some (bar 0) ∷ []) three_bars)
ingest_history-IsSorted_example =
    ingest_history-IsSorted 3 "1m" (some (bar 300) ∷ none ∷ some (bar 0) ∷ []) three_bars
      three_bars-IsSorted

ingest_history-bound_example :
    (length (ingest_history 3 "1m" (some (bar 300) ∷ []) three_bars) ≤ 3)
    × (length (append_kline 3 (bar 300) three_bars) ≤ 3)
ingest_history-bound_example =
    ingest_history-bound 3 "1m" (some (bar 300) ∷ []) (bar 300) three_bars (omega arith)

append_kline-IsSorted_example : IsSorted (append_kline 3 (bar 300) three_bars)
append_kline-IsSorted_example =
    append_kline-IsSorted 3 (bar 300) three_bars three_bars-IsSorted (omega arith)
