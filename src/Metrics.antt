-- ===== src/Metrics.antt =====
-- internal/metrics/metrics.go: the collectors, their labels, and what is observed on them.
use directory_rbac_operator.Base.{
  ℕ, String, ◌≡◌, refl, Bool, true, not, ◌&&◌, ◌==◌, List, [], ◌∷◌, map, length,
}

-- What prometheus.NewCounterVec, NewHistogramVec and NewGaugeVec make.
pub data CollectorType : Type 0 where
  counter_vec histogram_vec gauge_vec : CollectorType

-- A histogram has the buckets of prometheus.DefBuckets.
pub record Collector : Type 0 where
  pub type : CollectorType
  pub name : String
  pub help : String
  pub labels : List String

-- SyncTotal
abbrev pub sync_total_vec : Collector
sync_total_vec = record {
  type = counter_vec;
  name = "ldaprbac_sync_total";
  help = "Total number of reconciles, by kind and result.";
  labels = "kind" ∷ "result" ∷ [];
}

-- SyncDuration
abbrev pub sync_duration_vec : Collector
sync_duration_vec = record {
  type = histogram_vec;
  name = "ldaprbac_sync_duration_seconds";
  help = "Duration of a single reconcile, by kind.";
  labels = "kind" ∷ [];
}

-- LDAPErrorsTotal
abbrev pub ldap_errors_total_vec : Collector
ldap_errors_total_vec = record {
  type = counter_vec;
  name = "ldaprbac_ldap_errors_total";
  help = "Total number of reconciles that failed against the directory, by provider.";
  labels = "provider" ∷ [];
}

-- MembersCount
abbrev pub members_count_vec : Collector
members_count_vec = record {
  type = gauge_vec;
  name = "ldaprbac_members_count";
  help = "Number of members last resolved for a binding.";
  labels = "kind" ∷ "namespace" ∷ "name" ∷ [];
}

-- What init registers, in one call of MustRegister.
abbrev pub registered : List Collector
registered = sync_total_vec ∷ sync_duration_vec ∷ ldap_errors_total_vec ∷ members_count_vec ∷ []

-- An observation, with the values that WithLabelValues is given. The two counters count up by one, the
-- histogram takes a duration, and the gauge is set to a value.
pub data Metric : Type 0 where
  sync_total : (kind result : String) → Metric
  sync_duration : (kind : String) → Metric
  ldap_errors_total : (provider : String) → Metric
  members_count : (kind namespace name : String) (count : ℕ) → Metric

-- The collector that is observed on.
unfoldable vec_of : Metric → Collector
vec_of (sync_total kind result) = sync_total_vec
vec_of (sync_duration kind) = sync_duration_vec
vec_of (ldap_errors_total provider) = ldap_errors_total_vec
vec_of (members_count kind namespace name count) = members_count_vec

unfoldable label_values : Metric → List String
label_values (sync_total kind result) = kind ∷ result ∷ []
label_values (sync_duration kind) = kind ∷ []
label_values (ldap_errors_total provider) = provider ∷ []
label_values (members_count kind namespace name count) = kind ∷ namespace ∷ name ∷ []

-- WithLabelValues does not panic: there are as many values as labels.
label_values-labels : (m : Metric) → length (label_values m) ≡ length (vec_of m).labels
unfolding label_values vec_of
label_values-labels (sync_total kind result) = refl
label_values-labels (sync_duration kind) = refl
label_values-labels (ldap_errors_total provider) = refl
label_values-labels (members_count kind namespace name count) = refl

unfoldable is_new : String → List String → Bool
is_new name [] = true
is_new name (other ∷ names) = not (other == name) && is_new name names

unfoldable are_distinct : List String → Bool
unfolding is_new
are_distinct [] = true
are_distinct (name ∷ names) = is_new name names && are_distinct names

-- MustRegister does not panic: no two collectors have the same name.
registered-are_distinct : are_distinct (map (λ c. c.name) registered) ≡ true
unfolding are_distinct is_new
registered-are_distinct = refl
