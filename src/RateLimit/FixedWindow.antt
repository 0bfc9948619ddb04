-- ===== src/RateLimit/FixedWindow.antt =====
-- internal/ratelimit/strategies.go: the fixed window.
pub mod Rate
use pixrail_go_payment_switc.Prelude.{
  ℕ, suc, ◌^◌, ◌≤◌, ◌<◌, ◌≡◌, Bool, true, false, ◌||◌, ◌==◌, Option, none, some, [], Text, ℤ, pos,
  inc64, inc64-pos, sub_time, leb_ℤ, Map, lookup, insert, if◌then◌else◌, arith, Bool-cases, inl,
  inr,
}
use pixrail_go_payment_switc.Rail.{Time}
use pixrail_go_payment_switc.RateLimit.TokenBucket.{or_default}

pub record WindowConfig : Type 0 where
  pub limit : ℤ
  pub window : ℤ

pub record Window : Type 0 where
  pub start : Time
  pub count : ℤ

pub record FixedWindow : Type 0 where
  pub config : WindowConfig
  pub windows : Map Window

-- `NewFixedWindow`: 60 calls a minute.
unfoldable pub new : WindowConfig → FixedWindow
new config = record {
  config = record {
    limit = or_default config.limit (pos 60);
    window = or_default config.window (pos 60000000000);
  };
  windows = [];
}

-- The zero window of a key that the map lacks.
abbrev pub window_of : Option Window → Window
window_of none = record { start = 0; count = pos 0 }
window_of (some w) = w

-- The window after a call that is allowed; `none` when it is refused.
unfoldable pub enter : WindowConfig → Time → Window → Option Window
enter c now w =
    if w.start == 0 || leb_ℤ c.window (sub_time now w.start)
    then some (record { start = now; count = pos 1 })
    else if leb_ℤ c.limit w.count
    then none
    else some (record w { count = inc64 w.count })

abbrev write_window : FixedWindow → Text → Option Window → Bool × FixedWindow
write_window l key none = (false, l)
write_window l key (some w) = (true, record l { windows = insert key w l.windows })

-- `Allow`
unfoldable pub allow : FixedWindow → Text → Time → Bool × FixedWindow
unfolding enter
allow l key now = write_window l key (enter l.config now (window_of (lookup key l.windows)))
