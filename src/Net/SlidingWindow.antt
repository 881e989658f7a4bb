-- ===== src/Net/SlidingWindow.antt =====
-- phira-mp-plus-server/src/rate_limiter.rs: `SlidingWindowRateLimiter`, which limits the connections
-- of an address. An `Instant` is a number of nanoseconds.
pub mod History
pub mod Laws
use phira_mp_plus.Common.{
  ℕ, ◌-◌, ◌*◌, List, [], ◌∷◌, ◌++◌, Bool, true, false, length, ltb, leb, if◌then◌else◌, retain,
}
use phira_mp_plus.Wire.Text.{Text, beq_text}

pub record SlidingWindow : Type 0 where
  pub buckets : List (Text × List ℕ)
  pub max_count : ℕ
  pub window_secs : ℕ

abbrev pub new : ℕ → ℕ → SlidingWindow
new max_count window_secs = record {
  buckets = [];
  max_count = max_count;
  window_secs = window_secs;
}

-- `Duration::from_secs(window_secs)`
abbrev pub window : ℕ → ℕ
window window_secs = window_secs * 1_000_000_000

-- `now.duration_since(*t) < window`, where `duration_since` of a later instant is zero.
abbrev pub fresh : ℕ → ℕ → ℕ → Bool
fresh width now t = ltb (now - t) width

-- `buckets.entry(key).or_insert_with(Vec::new)`
unfoldable pub stamps : Text → List (Text × List ℕ) → List ℕ
stamps key [] = []
stamps key ((k, ts) ∷ m) = let rest = stamps key m in if beq_text k key then ts else rest

unfoldable pub put : Text → List ℕ → List (Text × List ℕ) → List (Text × List ℕ)
put key ts [] = (key, ts) ∷ []
put key ts ((k, old) ∷ m) =
    let rest = put key ts m in if beq_text k key then (k, ts) ∷ m else (k, old) ∷ rest

unfoldable pub check : ℕ → Text → SlidingWindow → Bool × SlidingWindow
check now key l =
    let kept = retain (fresh (window l.window_secs) now) (stamps key l.buckets) in
    if leb l.max_count (length kept)
    then (false, record l { buckets = put key kept l.buckets })
    else (true, record l { buckets = put key (kept ++ now ∷ []) l.buckets })

-- A bucket goes if none of its instants is left.
abbrev pub unless_empty : Text → List ℕ → List (Text × List ℕ) → List (Text × List ℕ)
unless_empty k [] rest = rest
unless_empty k (t ∷ ts) rest = (k, t ∷ ts) ∷ rest

unfoldable pub sweep : ℕ → ℕ → List (Text × List ℕ) → List (Text × List ℕ)
sweep width now [] = []
sweep width now ((k, ts) ∷ m) = unless_empty k (retain (fresh width now) ts) (sweep width now m)

unfoldable pub cleanup : ℕ → SlidingWindow → SlidingWindow
cleanup now l = record l { buckets = sweep (window l.window_secs) now l.buckets }

-- The calls that the limiter serves, each with its instant.
pub data Call : Type 0 where
  request : ℕ → Text → Call
  tidy : ℕ → Call

-- The answers to the requests.
pub answers : SlidingWindow → List Call → List Bool
answers l [] = []
answers l (request now key ∷ calls) = (check now key l).0 ∷ answers (check now key l).1 calls
answers l (tidy now ∷ calls) = answers (cleanup now l) calls
