-- ===== src/Kbs/Prometheus.antt =====
-- kbs/src/prometheus/mod.rs: a counter with labels.
use trustmee_artifact.Prelude.{ℕ, ◌+◌, String, none, some}
use trustmee_artifact.Prelude.Dict
use trustmee_artifact.Prelude.Dict.{Dict}

-- `with_label_values(..).inc()`
unfoldable pub inc : String → Dict ℕ → Dict ℕ
inc label counters = elim (Dict.get label counters) [
  | none ↦ Dict.insert label 1 counters
  | some n ↦ Dict.insert label (n + 1) counters
]
