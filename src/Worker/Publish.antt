-- ===== src/Worker/Publish.antt =====
-- cmd/worker/main.go: startMetricPublisher, at one tick of its clock.
use web_gobbler.Prelude.{ℕ, Bool, Option, none, some, if◌then◌else◌}
use web_gobbler.Queue.Redis.{Redis, queue_depth}

-- The gauge follows a depth that CloudWatch took.
abbrev published : (ℕ → Bool) → Option ℕ → ℕ → ℕ
published put none gauge = gauge
published put (some depth) gauge = if put depth then depth else gauge

-- `put` is whether PutMetricData succeeds.
unfoldable pub publish : (ℕ → Bool) → Redis × ℕ → Redis × ℕ
unfolding queue_depth
publish put (redis, gauge) =
    let (depth, redis') = queue_depth redis in (redis', published put depth gauge)
