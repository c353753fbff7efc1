-- ===== src/Stream/Lag.antt =====
-- ReplicationLag of stream.go.
use phylax.Base.{ℕ, ◌+◌, ◌≤◌, ◌<◌, ◌≡◌, arith}
use phylax.Stream.{ReplicationStream, replication_lag, idle_lag_reset}

-- The lag is 0 once no data has come for more than 15 seconds, and while the stream is not behind
-- the server's last known position; otherwise it is the distance to that position, so that it
-- never wraps below zero and is never more than the server's position.
pub replication_lag_lem :
    {Payload State : Type 0} (now : ℕ) (s : ReplicationStream Payload State)
    → (s.last_data_at + idle_lag_reset < now → replication_lag now s ≡ 0)
      × (now ≤ s.last_data_at + idle_lag_reset
          → s.last_lsn ≤ s.server_wal_end
          → replication_lag now s + s.last_lsn ≡ s.server_wal_end)
      × (s.server_wal_end ≤ s.last_lsn → replication_lag now s ≡ 0)
      × (replication_lag now s ≤ s.server_wal_end)
unfolding replication_lag
replication_lag_lem now s =
    (λ h. ground arith, λ h k. ground arith, λ h. ground arith, ground arith)
