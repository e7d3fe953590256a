-- ===== src/ScanRun/Tests.antt =====
-- A run that credits a payment, and one whose node does not answer at the end.
use sigvara.ScanRun.{Config, Node, Registered, State, run_payment_scan}
use sigvara.ScanRun.Runs.{run_payment_scan-IsKept, IsKept, in_range}
use sigvara.PaymentScan.{Agent, Transfer}
use sigvara.LogSpans.{Answer}
use sigvara.Prelude.{[], none, some, true, ◌∷◌}

abbrev cfg : Config
cfg = record {
  enabled = true;
  has_asset = true;
  from_block = 10;
  confirmations = 6;
  chunk_size = 100;
  min_amount = 50;
  chains = [];
}

abbrev paid_agent : Registered
paid_agent = record {
  did_hash = b'd' ∷ [];
  agent_address = b'A' ∷ [];
  operators = Agent.always (some (b'o' ∷ []));
  registered_block = some 3;
}

abbrev one_transfer : Transfer
one_transfer = record {
  tx_hash = b't' ∷ [];
  block_number = 12;
  from = b'p' ∷ [];
  to = b'a' ∷ [];
  amount = 500;
}

abbrev timed_node : Node
timed_node = record {
  head = some 30;
  transfers = λ batch from to. Answer.logs (some one_transfer ∷ []);
  block_time = λ n. some (some 1_000);
  receipt_block = λ tx. none;
  canary_logs = λ recipient block. none;
}

abbrev empty_state : State
empty_state = record {
  store = record {
    payment_events = [];
    used_payment_txs = [];
    last_accepted_at = 0;
    accepted_order = [];
  };
  checkpoint = none;
}

run_payment_scan-IsKept_example :
    IsKept cfg timed_node
      (paid_agent ∷ [])
      empty_state
      (in_range cfg timed_node (paid_agent ∷ []) empty_state (some 30))
      (run_payment_scan cfg timed_node (paid_agent ∷ []) empty_state)
run_payment_scan-IsKept_example =
    run_payment_scan-IsKept cfg timed_node (paid_agent ∷ []) empty_state
