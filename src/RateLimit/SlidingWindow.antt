-- ===== src/RateLimit/SlidingWindow.antt =====
-- internal/ratelimit/strategies.go: the sliding window. `events[i].After(now.Add(-window))` is read as
-- `now < events[i] + window`: the constructor makes the window positive.
pub mod Exact
use pixrail_go_payment_switc.Prelude.{
  ◌+◌, Bool, true, false, Option, none, some, List, [], ◌∷◌, ◌++◌, Text, ℤ, pos, pos_part, leb_ℤ,
  ltb, Map, lookup, insert, if◌then◌else◌, length,
}
use pixrail_go_payment_switc.Rail.{Time}
use pixrail_go_payment_switc.RateLimit.TokenBucket.{or_default}
use pixrail_go_payment_switc.RateLimit.FixedWindow.{WindowConfig}

pub record SlidingWindow : Type 0 where
  pub config : WindowConfig
  pub events : Map (List Time)

-- `NewSlidingWindow`: 60 calls a minute.
unfoldable pub new : WindowConfig → SlidingWindow
new config = record {
  config = record {
    limit = or_default config.limit (pos 60);
    window = or_default config.window (pos 60000000000);
  };
  events = [];
}

abbrev pub events_of : Option (List Time) → List Time
events_of none = []
events_of (some es) = es

-- The loop over `keepFrom` and the copy after it.
unfoldable pub expire : ℤ → Time → List Time → List Time
expire window now [] = []
expire window now (e ∷ es) =
    let rest = expire window now es in if ltb now (e + pos_part window) then e ∷ es else rest

-- One call on the events of one key.
unfoldable pub enter : WindowConfig → Time → List Time → Bool × List Time
unfolding expire
enter c now events =
    let live = expire c.window now events in
    if leb_ℤ c.limit (pos (length live)) then (false, live) else (true, live ++ (now ∷ []))

-- `Allow`
unfoldable pub allow : SlidingWindow → Text → Time → Bool × SlidingWindow
unfolding enter
allow l key now =
    let r = enter l.config now (events_of (lookup key l.events)) in
    (r.0, record l { events = insert key r.1 l.events })
