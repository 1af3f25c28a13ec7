-- ===== src/Tcp/Version.antt =====
-- tcp_client/types.ts: the protocol version and the client version that are sent.
use chwire.Prelude.{ℕ}

abbrev pub tcp_protocol : ℕ
tcp_protocol = 54479

abbrev pub major : ℕ
major = 24

abbrev pub minor : ℕ
minor = 8

abbrev pub parallel_replicas_protocol : ℕ
parallel_replicas_protocol = 5
