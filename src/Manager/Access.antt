-- ===== src/Manager/Access.antt =====
-- Checks of the source address: src/oumigo/service/manager/access.py. What a `WorkerAllowlist` allows
-- is decided by Python's `ipaddress`, and is an argument of the handlers. `time.monotonic()` is an
-- argument. `-` stops at 0: no time is before 0, so a cutoff below 0 drops no time either.
pub mod Window
use oumigo.Prelude.{
  ℕ, ◌+◌, ◌-◌, String, Bool, true, false, ◌&&◌, Option, none, some, List, [], ◌∷◌, ◌++◌,
  if◌then◌else◌, ltb, leb, length,
}
use oumigo.Prelude.Dict.{Dict, get, put}

pub record FailureLimiter : Type 0 where
  pub max_failures : ℕ
  pub window : ℕ
  pub failures : Dict (List ℕ)

unfoldable pub limiter : ℕ → ℕ → FailureLimiter
limiter max_failures window = record { max_failures = max_failures; window = window; failures = [] }

-- The loop of `_recent`, which drops the times before `cutoff`, oldest first.
unfoldable pub drop_before : ℕ → List ℕ → List ℕ
drop_before cutoff [] = []
drop_before cutoff (t ∷ ts) =
    let rest = drop_before cutoff ts in if ltb t cutoff then rest else t ∷ ts

-- The failures of a host; a `defaultdict` gives none to a host without an entry.
abbrev pub stored : Option (List ℕ) → List ℕ
stored none = []
stored (some ts) = ts

unfoldable pub times_of : String → FailureLimiter → List ℕ
times_of host l = stored (get host l.failures)

-- `_recent`, which stores the entry.
unfoldable pub recent : String → ℕ → FailureLimiter → FailureLimiter × List ℕ
recent host now l =
    let ts = drop_before (now - l.window) (times_of host l) in
    (record l { failures = put host ts l.failures }, ts)

unfoldable pub blocked : Option String → ℕ → FailureLimiter → FailureLimiter × Bool
blocked none now l = (l, false)
blocked (some host) now l = let (k, ts) = recent host now l in (k, leb k.max_failures (length ts))

-- `record`, a keyword here: the failure is appended to the list that `recent` returned and stored.
unfoldable pub note : Option String → ℕ → FailureLimiter → FailureLimiter
note none now l = l
note (some host) now l =
    let (k, ts) = recent host now l in record k { failures = put host (ts ++ now ∷ []) k.failures }
