-- ===== src/Reconnect/Config.antt =====
-- reconnect.go: `ReconnectConfig`, its defaults and the backoff. Durations are Go's signed
-- nanoseconds.
use native.Mathlib.Nat.{mul_assoc}
use getstream_go_webrtc.Base.{
  ap, ◌∙◌, ℕ, suc, ◌+◌, ◌*◌, ◌^◌, ◌≤◌, ◌<◌, ◌≡◌, refl, arith, if◌then◌else◌, min, zero,
}
use getstream_go_webrtc.Base.Int.{ℤ, pos, negsuc, leb_ℤ}

pub record Config : Type 0 where
  pub initial_backoff : ℤ
  pub max_backoff : ℤ
  pub max_fast_attempts : ℤ
  pub fast_deadline : ℤ  -- FallbackFastReconnectDeadline
  pub rejoin_limit : ℤ
  pub rejoin_window : ℤ
  pub disconnection_timeout : ℤ
  pub migration_timeout : ℤ  -- MigrationCompleteTimeout

abbrev pub millisecond : ℕ
millisecond = 1000000

abbrev pub default_config : Config
default_config = record {
  initial_backoff = pos (100 * millisecond);
  max_backoff = pos (5000 * millisecond);
  max_fast_attempts = pos 3;
  fast_deadline = pos (3000 * millisecond);
  rejoin_limit = pos 10;
  rejoin_window = pos (120000 * millisecond);
  disconnection_timeout = pos 0;
  migration_timeout = pos (7000 * millisecond);
}

abbrev pub or_default : ℤ → ℤ → ℤ
or_default value default = if leb_ℤ value (pos 0) then default else value

unfoldable pub with_defaults : Config → Config
with_defaults c = record {
  initial_backoff = or_default c.initial_backoff default_config.initial_backoff;
  max_backoff = or_default c.max_backoff default_config.max_backoff;
  max_fast_attempts = or_default c.max_fast_attempts default_config.max_fast_attempts;
  fast_deadline = or_default c.fast_deadline default_config.fast_deadline;
  rejoin_limit = or_default c.rejoin_limit default_config.rejoin_limit;
  rejoin_window = or_default c.rejoin_window default_config.rejoin_window;
  disconnection_timeout = c.disconnection_timeout;
  migration_timeout = or_default c.migration_timeout default_config.migration_timeout;
}

abbrev pub double : ℤ → ℤ
double (pos n) = pos (2 * n)
double (negsuc n) = negsuc (2 * n + 1)

abbrev pub min_ℤ : ℤ → ℤ → ℤ
min_ℤ a b = if leb_ℤ a b then a else b

unfoldable pub next_backoff : Config → ℤ → ℤ
next_backoff c backoff =
    if leb_ℤ c.max_backoff backoff then c.max_backoff else min_ℤ (double backoff) c.max_backoff

next_backoff-pos :
    (c : Config) (x m : ℕ) → c.max_backoff ≡ pos m → next_backoff c (pos x) ≡ pos (min (2 * x) m)
unfolding next_backoff
next_backoff-pos c x m e = ground arith

-- The backoff after `k` failures.
pub backoff_after : Config → ℕ → ℤ → ℤ
backoff_after c zero backoff = backoff
backoff_after c (suc k) backoff = next_backoff c (backoff_after c k backoff)

-- After `k` failures the backoff has doubled `k` times, up to the maximum.
pub backoff_after_lem :
    (c : Config) (k b m : ℕ)
    → c.max_backoff ≡ pos m
    → b ≤ m
    → backoff_after c k (pos b) ≡ pos (min (2 ^ k * b) m)
unfolding backoff_after
backoff_after_lem c zero b m e le = ground arith
backoff_after_lem c (suc k) b m e le =
    let ih = backoff_after_lem c k b m e le in
    let twice : 2 ^ suc k * b ≡ 2 * (2 ^ k * b) = ground (arith, mul_assoc 2 (2 ^ k) b) in
    ap (next_backoff c) ih
    ∙ next_backoff-pos c (min (2 ^ k * b) m) m e
    ∙ ap pos (omega (arith, twice))

-- Whatever the fields given, rejoins stay limited: the limit and the window are positive.
pub with_defaults_limits :
    (c : Config)
    → let d = with_defaults c in
      (n : ℕ) × (w : ℕ) × (d.rejoin_limit ≡ pos n) × (0 < n) × (d.rejoin_window ≡ pos w) × (0 < w)
unfolding with_defaults
with_defaults_limits c =
    let (n, e, on) = positive c.rejoin_limit 10 (omega arith) in
    let (w, f, up) = positive c.rejoin_window (120000 * millisecond) (omega arith) in
    (n, w, e, on, f, up)
  where
    positive : (v : ℤ) (n : ℕ) → 0 < n → (m : ℕ) × (or_default v (pos n) ≡ pos m) × (0 < m)
    positive (pos zero) n on = (n, refl, on)
    positive (pos (suc v)) n on = (suc v, ground arith, ground arith)
    positive (negsuc v) n on = (n, ground arith, on)
