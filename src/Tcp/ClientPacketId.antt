-- ===== src/Tcp/ClientPacketId.antt =====
-- tcp_client/types.ts, `ClientPacketId`.
use chwire.Prelude.{ℕ}

abbrev pub hello : ℕ
hello = 0

abbrev pub query : ℕ
query = 1

-- `Data`
abbrev pub block : ℕ
block = 2

abbrev pub cancel : ℕ
cancel = 3

abbrev pub ping : ℕ
ping = 4
