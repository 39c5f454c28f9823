-- ===== src/Can/TxRxFifo/Tests.antt =====
-- Runs of the theorems about the FIFO for both directions on small ones.
use athrill_target_rh850f1x.Base.{ℕ, ◌≡◌, arith, refl, true, false, [], ◌∷◌, none, some}
use athrill_target_rh850f1x.Can.Types.{
  std_e_ok, std_e_limit, CanData, CanRxBuffer, CanTxBuffer, empty_buffer, empty_tx_buffer,
}
use athrill_target_rh850f1x.Can.Queue.{put, next, peek, serve_all}
use athrill_target_rh850f1x.Can.TxRxFifo.{TxRxFifo}
use athrill_target_rh850f1x.Can.Fifo.Steps.{IsReady}
use athrill_target_rh850f1x.Can.TxRxFifo.Receive.{as_rx, receive_all, receive_all_refines}
use athrill_target_rh850f1x.Can.TxRxFifo.Transmit.{
  IsSending, get, txdone, transmit_all, outgoing_all,
}
use athrill_target_rh850f1x.Can.TxRxFifo.Transmit as Transmit
use athrill_target_rh850f1x.Can.TxRxFifo.Transmit.Refine.{transmit_all_refines}

abbrev message : ℕ → CanData
message i = record { ide = false; rtr = false; dlc = 1; label = 0; id = i; bytes = i ∷ [] }

abbrev received : ℕ → CanRxBuffer
received i = record { ide = false; rtr = false; dlc = 1; label = 0; id = i; body = i ∷ [] }

abbrev outbound : ℕ → CanTxBuffer
outbound i = record { ide = false; rtr = false; dlc = 1; label = 0; id = i; body = i ∷ [] }

-- Three messages in a ring of four, the first of them in the last place; `mode` tells the direction.
abbrev fifo : ℕ → TxRxFifo
fifo mode = record {
  config = record {
    tx_bufno = 0;
    mode = mode;
    intr_timing_cnt = 7;
    enable_intr_everytime = false;
    quelen = 1;
    enable_tx_intr = true;
    enable_rx_intr = true;
    enable_fifo = true;
  };
  status = record {
    msg_num = 0;
    tx_intr = false;
    rx_intr = false;
    txrx_lost = false;
    txrx_full = false;
    txrx_empty = false;
  };
  fifo_ptr = 0;
  control = record { count = 3; roff = 3; woff = 2 };
  rx = received 2 ∷ received 3 ∷ empty_buffer ∷ received 1 ∷ [];
  tx = outbound 2 ∷ outbound 3 ∷ empty_tx_buffer ∷ outbound 1 ∷ [];
}

fifo-IsReady : IsReady (as_rx (fifo 2))
fifo-IsReady = record {
  on = refl;
  ring = record {
    small = omega arith;
    word = omega arith;
    roff_in = omega arith;
    count_in = omega arith;
    woff_at = refl;
  };
  full = refl;
  empty = refl;
}

fifo-IsSending : IsSending (fifo 1)
fifo-IsSending = record {
  mode = refl;
  on = refl;
  ring = record {
    small = omega arith;
    word = omega arith;
    roff_in = omega arith;
    count_in = omega arith;
    woff_at = refl;
  };
  full = refl;
  empty = λ _. refl;
}

receive_all_refines_example :
    receive_all (put (message 4) ∷ put (message 5) ∷ peek ∷ next ∷ peek ∷ []) (fifo 2)
    ≡ (std_e_ok, none)
      ∷ (std_e_limit, none)
      ∷ (std_e_ok, some (message 1))
      ∷ (std_e_ok, none)
      ∷ (std_e_ok, some (message 2))
      ∷ []
unfolding serve_all
receive_all_refines_example =
    receive_all_refines (put (message 4) ∷ put (message 5) ∷ peek ∷ next ∷ peek ∷ []) (fifo 2) refl
      fifo-IsReady

transmit_all_refines_example :
    transmit_all
      (Transmit.put (message 4)
        ∷ Transmit.put (message 5)
        ∷ Transmit.peek
        ∷ get
        ∷ txdone
        ∷ get
        ∷ [])
      (fifo 1)
    ≡ (std_e_ok, none)
      ∷ (std_e_limit, none)
      ∷ (std_e_ok, some (message 1))
      ∷ (std_e_ok, some (message 1))
      ∷ (std_e_ok, none)
      ∷ (std_e_ok, some (message 2))
      ∷ []
unfolding outgoing_all
transmit_all_refines_example =
    transmit_all_refines
      (Transmit.put (message 4)
        ∷ Transmit.put (message 5)
        ∷ Transmit.peek
        ∷ get
        ∷ txdone
        ∷ get
        ∷ [])
      fifo-IsSending
