-- ===== src/Metrics.antt =====
-- internal/metrics/metrics.go: the collectors and the methods that write them. A counter of
-- prometheus is a float64; here it is a number. A vector of counters is the list of the label values
-- of its increments. Durations are not modelled. Then the answers of the HTTP endpoints.
use sftp2s.Prelude.{
  ℕ, zero, suc, ◌+◌, Bool, true, false, Bytes, bytes_eq, is_empty, codes, Dict, put, List, [], ◌∷◌,
  ◌++◌, Option, none, some, ltb, if◌then◌else◌,
}

-- The value of a gauge. `negsuc n` is -(n + 1).
pub data Gauge : Type 0 where
  pos : ℕ → Gauge
  negsuc : ℕ → Gauge

unfoldable pub inc : Gauge → Gauge
inc (pos n) = pos (suc n)
inc (negsuc zero) = pos 0
inc (negsuc (suc n)) = negsuc n

unfoldable pub dec : Gauge → Gauge
dec (pos zero) = negsuc 0
dec (pos (suc n)) = pos n
dec (negsuc n) = negsuc (suc n)

-- The labels operation, backend and status of sftp2s3_s3_operations_total.
pub record S3Op : Type 0 where
  pub operation : Bytes
  pub backend : Bytes
  pub status : Bytes

pub record Metrics : Type 0 where
  pub active_conns : Gauge
  pub total_conns : ℕ
  pub upload_bytes : ℕ
  pub download_bytes : ℕ
  pub s3_ops_total : List S3Op
  pub auth_failures : ℕ
  pub backend_healthy : Dict ℕ

-- NewMetrics
abbrev pub new_metrics : Metrics
new_metrics = record {
  active_conns = pos 0;
  total_conns = 0;
  upload_bytes = 0;
  download_bytes = 0;
  s3_ops_total = [];
  auth_failures = 0;
  backend_healthy = [];
}

-- Metrics.ConnectionOpened
unfoldable pub connection_opened : Metrics → Metrics
unfolding inc
connection_opened m = record m {
  active_conns = inc m.active_conns;
  total_conns = m.total_conns + 1;
}

-- Metrics.ConnectionClosed
unfoldable pub connection_closed : Metrics → Metrics
unfolding dec
connection_closed m = record m { active_conns = dec m.active_conns }

-- Metrics.AddUploadBytes
unfoldable pub add_upload_bytes : ℕ → Metrics → Metrics
add_upload_bytes n m = if ltb 0 n then record m { upload_bytes = m.upload_bytes + n } else m

-- Metrics.AddDownloadBytes
unfoldable pub add_download_bytes : ℕ → Metrics → Metrics
add_download_bytes n m = if ltb 0 n then record m { download_bytes = m.download_bytes + n } else m

-- Metrics.IncAuthFailures
unfoldable pub inc_auth_failures : Metrics → Metrics
inc_auth_failures m = record m { auth_failures = m.auth_failures + 1 }

-- Metrics.SetBackendHealthy
unfoldable pub set_backend_healthy : Bytes → Bool → Metrics → Metrics
set_backend_healthy backend healthy m = record m {
  backend_healthy = put backend (if healthy then 1 else 0) m.backend_healthy;
}

-- Metrics.ObserveS3Op; `success` is err == nil
unfoldable pub observe_s3_op : Bytes → Bytes → Bool → Metrics → Metrics
observe_s3_op op backend success m = record m {
  s3_ops_total =
      record {
        operation = op;
        backend = backend;
        status = if success then codes "success" else codes "error";
      }
      ∷ m.s3_ops_total;
}

-- http.ResponseWriter: the status code and the body
pub record Answer : Type 0 where
  pub status_code : ℕ
  pub body : Bytes

-- the handler of /healthz in StartServer; the argument is none for a nil checker, and what AllHealthy
-- says otherwise
unfoldable pub healthz : Option Bool → Answer
healthz (some false) = record { status_code = 503; body = codes "unhealthy" }
healthz (some true) = record { status_code = 200; body = codes "ok" }
healthz none = record { status_code = 200; body = codes "ok" }

-- metricsAuthHandler: the token, the answer of the next handler, and the header Authorization
unfoldable pub metrics_auth_handler : Bytes → Answer → Bytes → Answer
metrics_auth_handler token next authorization =
    if is_empty token
    then next
    else if bytes_eq authorization (codes "Bearer " ++ token)
    then next
    else record { status_code = 401; body = codes "unauthorized" }
