-- ===== src/Klines.antt =====
-- The history of closed K-lines of a market router: internal/app/market/perp/kline_history.go, with
-- internal/models/kline.go and history.go. A timestamp is a count of seconds from 1970 on.
pub mod Search
pub mod Order
mod Tests
use signalix.Prelude.{
  ℕ, zero, suc, ◌+◌, ◌-◌, ◌/◌, Bool, true, false, not, ◌&&◌, Option, none, some, List, [], ◌∷◌,
  String, str_eq, ltb, leb, ◌==◌, length, drop, get_elem?, if◌then◌else◌,
}
use signalix.Prelude.Int.{ℤ, pos, negsuc}

-- models.Kline
pub record Kline : Type 0 where
  pub contract : String
  pub interval : String
  pub open_price : String
  pub high : String
  pub low : String
  pub close : String
  pub volume : String
  pub volume_base : String
  pub timestamp_sec : ℕ
  pub window_closed : Bool

-- perp.CandlestickSnapshot
pub record CandlestickSnapshot : Type 0 where
  pub contract : String
  pub interval : String
  pub open_price : String
  pub high : String
  pub low : String
  pub close : String
  pub volume : String
  pub volume_base : String
  pub timestamp_sec : ℕ
  pub window_closed : Bool

-- KlineFromSnapshot
unfoldable pub kline_from_snapshot : CandlestickSnapshot → Kline
kline_from_snapshot s = record {
  contract = s.contract;
  interval = s.interval;
  open_price = s.open_price;
  high = s.high;
  low = s.low;
  close = s.close;
  volume = s.volume;
  volume_base = s.volume_base;
  timestamp_sec = s.timestamp_sec;
  window_closed = s.window_closed;
}

-- KlinesFromSnapshots; nil snapshots are skipped
unfoldable pub klines_from_snapshots : List (Option CandlestickSnapshot) → List Kline
unfolding kline_from_snapshot
klines_from_snapshots [] = []
klines_from_snapshots (none ∷ ss) = klines_from_snapshots ss
klines_from_snapshots (some s ∷ ss) =
    record (kline_from_snapshot s) { window_closed = true } ∷ klines_from_snapshots ss

-- `klineHistMax`, with its default
abbrev pub history_max : ℤ → ℕ
history_max (pos zero) = 2000
history_max (pos (suc n)) = suc n
history_max (negsuc n) = 2000

-- trimList, for the maximum that is in force
unfoldable pub trim_list : ℕ → List Kline → List Kline
trim_list max list = if leb (length list) max then list else drop (length list - max) list

-- The end of the list in appendKlineLocked: the last bar is replaced by one of the same time.
unfoldable pub append_or_replace : Kline → List Kline → List Kline
append_or_replace k [] = k ∷ []
append_or_replace k (b ∷ []) = if b.timestamp_sec == k.timestamp_sec then k ∷ [] else b ∷ k ∷ []
append_or_replace k (b ∷ c ∷ l) = b ∷ append_or_replace k (c ∷ l)

-- appendKlineLocked on one key's list
unfoldable pub append_kline : ℕ → Kline → List Kline → List Kline
unfolding append_or_replace
append_kline max k list = trim_list max (append_or_replace k list)

-- appendClosedKline, on the list of the snapshot's key; nil and a bar that is still open are ignored
unfoldable pub append_closed_kline : ℕ → Option CandlestickSnapshot → List Kline → List Kline
unfolding append_kline kline_from_snapshot
append_closed_kline max none list = list
append_closed_kline max (some s) list =
    if not s.window_closed then list else append_kline max (kline_from_snapshot s) list

-- The loop of sort.Search, which halves the interval from `i` to `j`, on fuel.
unfoldable pub search_from : ℕ → (ℕ → Bool) → ℕ → ℕ → ℕ
search_from zero f i j = i
search_from (suc n) f i j =
    let h = (i + j) / 2 in
    let right = search_from n f (suc h) j in
    let left = search_from n f i h in if ltb i j then (if f h then left else right) else i

-- sort.Search
unfoldable pub search : ℕ → (ℕ → Bool) → ℕ
unfolding search_from
search n f = search_from n f 0 n

-- `list[i].TimestampSec >= ts`; the search stays inside the list
unfoldable pub is_at_least : List Kline → ℕ → ℕ → Bool
is_at_least [] ts i = false
is_at_least (b ∷ l) ts zero = leb ts b.timestamp_sec
is_at_least (b ∷ l) ts (suc i) = is_at_least l ts i

-- `idx < len(list) && list[idx].TimestampSec == ts`
unfoldable pub is_at : List Kline → ℕ → ℕ → Bool
is_at [] ts i = false
is_at (b ∷ l) ts zero = b.timestamp_sec == ts
is_at (b ∷ l) ts (suc i) = is_at l ts i

-- `list[idx] = k`, and the insertion in front of `idx`
unfoldable pub replace_at : ℕ → Kline → List Kline → List Kline
replace_at i k [] = []
replace_at zero k (b ∷ l) = k ∷ l
replace_at (suc i) k (b ∷ l) = b ∷ replace_at i k l

unfoldable pub insert_at : ℕ → Kline → List Kline → List Kline
insert_at zero k l = k ∷ l
insert_at (suc i) k [] = k ∷ []
insert_at (suc i) k (b ∷ l) = b ∷ insert_at i k l

-- What mergeKlineLocked does at the index that the search gave.
unfoldable pub merge_at : ℕ → Kline → List Kline → List Kline
unfolding is_at replace_at insert_at
merge_at i k list = if is_at list k.timestamp_sec i then replace_at i k list else insert_at i k list

-- mergeKlineLocked
unfoldable pub merge_kline : Kline → List Kline → List Kline
unfolding search is_at_least merge_at
merge_kline k list = merge_at (search (length list) (is_at_least list k.timestamp_sec)) k list

-- sort.Slice by the timestamps, as an insertion sort
unfoldable pub sort_insert : Kline → List Kline → List Kline
sort_insert k [] = k ∷ []
sort_insert k (b ∷ l) =
    let rest = sort_insert k l in
    if leb k.timestamp_sec b.timestamp_sec then k ∷ b ∷ l else b ∷ rest

unfoldable pub sort_klines : List Kline → List Kline
unfolding sort_insert
sort_klines [] = []
sort_klines (b ∷ l) = sort_insert b (sort_klines l)

-- The bar as IngestHistoryKlines stores it.
abbrev pub closed_bar : String → Kline → Kline
closed_bar interval k = record k {
  window_closed = true;
  interval = if str_eq k.interval "" then interval else k.interval;
}

-- The loop of IngestHistoryKlines over the bars of a series; nil bars are skipped.
unfoldable pub merge_bars : String → List (Option Kline) → List Kline → List Kline
unfolding merge_kline
merge_bars interval [] list = list
merge_bars interval (none ∷ ks) list = merge_bars interval ks list
merge_bars interval (some k ∷ ks) list =
    merge_bars interval ks (merge_kline (closed_bar interval k) list)

-- IngestHistoryKlines on the list of one series' key: a series without bars is skipped.
unfoldable pub ingest_history : ℕ → String → List (Option Kline) → List Kline → List Kline
unfolding merge_bars sort_klines trim_list
ingest_history max interval [] list = list
ingest_history max interval (k ∷ ks) list =
    trim_list max (sort_klines (merge_bars interval (k ∷ ks) list))

-- ListClosedKlines on one key's list, whose entries are never nil
unfoldable pub list_closed_klines : ℕ → ℕ → List Kline → List Kline
list_closed_klines max limit list =
    let n = if ltb max limit then max else limit in
    if ltb n (length list) then drop (length list - n) list else list
