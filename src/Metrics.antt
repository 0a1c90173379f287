-- ===== src/Metrics.antt =====
-- app/metrics.py: the counters of `ProcessMetrics`.
use privy_gate.Common.{ℕ, ◌+◌}

pub record ProcessMetrics : Type 0 where
  pub mask_count : ℕ
  pub demask_count : ℕ
  pub retry_count : ℕ
  pub rate_limited_count : ℕ
  pub conflict_count : ℕ
  pub error_count : ℕ
  pub new_id_count : ℕ
  pub eviction_count : ℕ

abbrev pub no_metrics : ProcessMetrics
no_metrics = record {
  mask_count = 0;
  demask_count = 0;
  retry_count = 0;
  rate_limited_count = 0;
  conflict_count = 0;
  error_count = 0;
  new_id_count = 0;
  eviction_count = 0;
}

abbrev pub inc_mask : ProcessMetrics → ProcessMetrics
inc_mask m = record m { mask_count = m.mask_count + 1 }

abbrev pub inc_demask : ProcessMetrics → ProcessMetrics
inc_demask m = record m { demask_count = m.demask_count + 1 }

abbrev pub inc_retry : ProcessMetrics → ProcessMetrics
inc_retry m = record m { retry_count = m.retry_count + 1 }

abbrev pub inc_rate_limited : ProcessMetrics → ProcessMetrics
inc_rate_limited m = record m { rate_limited_count = m.rate_limited_count + 1 }

abbrev pub inc_conflict : ProcessMetrics → ProcessMetrics
inc_conflict m = record m { conflict_count = m.conflict_count + 1 }

abbrev pub inc_error : ProcessMetrics → ProcessMetrics
inc_error m = record m { error_count = m.error_count + 1 }

abbrev pub inc_new_id : ProcessMetrics → ProcessMetrics
inc_new_id m = record m { new_id_count = m.new_id_count + 1 }

abbrev pub add_evictions : ℕ → ProcessMetrics → ProcessMetrics
add_evictions count m = record m { eviction_count = m.eviction_count + count }
