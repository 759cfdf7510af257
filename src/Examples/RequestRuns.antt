-- ===== src/Examples/RequestRuns.antt =====
-- Messages of a client that the server reads.
use ist_key_value_store.Prelude.{arith}
use ist_key_value_store.Connections.{ClientInfo}
use ist_key_value_store.Requests.Messages.{FitsMessage}
use ist_key_value_store.Examples.Fixtures.{ant, bee, one}

abbrev paths : ClientInfo
paths = record { resp_fifo = ant; req_fifo = bee; notif_fifo = one }

paths-FitsMessage : FitsMessage paths
paths-FitsMessage = record {
  resp = (ground arith, omega arith);
  req = (ground arith, omega arith);
  notif = (ground arith, omega arith);
}
