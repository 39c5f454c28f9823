-- ===== src/Can/Tests.antt =====
-- Runs of the theorems about the queues on small ones.
use athrill_target_rh850f1x.Base.{
  ℕ, ◌+◌, ◌≤◌, ◌<◌, ◌≡◌, set, arith, refl, each_below, true, false, [], ◌∷◌, none, some,
}
use athrill_target_rh850f1x.Can.Types.{
  std_e_ok, std_e_limit, std_e_noent, CanData, CanRxBuffer, empty_buffer, CanTxBuffer,
}
use athrill_target_rh850f1x.Can.Queue.{put, next, peek, serve_all}
use athrill_target_rh850f1x.Can.Fifo.{RxFifo, can_rxfifo_put_rxdata}
use athrill_target_rh850f1x.Can.Fifo.Refine.{call_all, call_all_refines, put-rx_intr}
use athrill_target_rh850f1x.Can.TxQueue.{
  TxQueue, TxQueueData, slot, no_data, can_txque_put_txdata, can_txque_peek_txdata,
  can_txque_notify_txdone,
}
use athrill_target_rh850f1x.Can.Fifo.Steps.{IsReady}
use athrill_target_rh850f1x.Can.TxQueue.Inv
use athrill_target_rh850f1x.Can.TxQueue.Serve.{
  Event, txdone, put_stores, txdone_frees, after, after-IsReady,
}
use athrill_target_rh850f1x.Can.TxQueue.Serve

abbrev message : ℕ → CanData
message i = record { ide = false; rtr = false; dlc = 1; label = 0; id = i; bytes = i ∷ [] }

abbrev held : ℕ → CanRxBuffer
held i = record { ide = false; rtr = false; dlc = 1; label = 0; id = i; body = i ∷ [] }

-- Three messages in a ring of four, the first of them in the last place.
abbrev fifo : RxFifo
fifo = record {
  config = record {
    intr_timing_cnt = 7;
    enable_intr_everytime = false;
    quelen = 1;
    enable_intr = false;
    enable_fifo = true;
  };
  status = record { rx_intr = false; rx_lost = false; rx_full = false; rx_empty = false };
  control = record { count = 3; roff = 3; woff = 2 };
  buffer = held 2 ∷ held 3 ∷ empty_buffer ∷ held 1 ∷ [];
}

fifo-IsReady : IsReady fifo
fifo-IsReady = record {
  on = refl;
  ring = record {
    small = omega arith;
    word = omega arith;
    roff_in = omega arith;
    count_in = omega arith;
    woff_at = refl;
  };
  full = refl;
  empty = refl;
}

call_all_refines_example :
    call_all (put (message 4) ∷ put (message 5) ∷ peek ∷ next ∷ peek ∷ []) fifo
    ≡ (std_e_ok, none)
      ∷ (std_e_limit, none)
      ∷ (std_e_ok, some (message 1))
      ∷ (std_e_ok, none)
      ∷ (std_e_ok, some (message 2))
      ∷ []
unfolding serve_all
call_all_refines_example =
    call_all_refines (put (message 4) ∷ put (message 5) ∷ peek ∷ next ∷ peek ∷ []) fifo-IsReady

put-rx_intr_example : (can_rxfifo_put_rxdata fifo (message 4)).1.status.rx_intr ≡ true
put-rx_intr_example = put-rx_intr (message 4) fifo-IsReady (omega arith)

abbrev sending : ℕ → CanTxBuffer
sending i = record { ide = false; rtr = false; dlc = 1; label = 0; id = i; body = i ∷ [] }

abbrev idle : TxQueueData
idle = record { tx_req = false; message = no_data }

-- A queue of two buffers, the upper of them with a request.
abbrev queue : TxQueue
queue = record {
  config = record { intr_factor = false; enable_intr = true; quelen = 1; enable_queue = true };
  status = record { intr_req = false; is_full = false; is_empty = false };
  control = record {
    reqbufnum = 1;
    tx_data =
        idle
        ∷ idle
        ∷ idle
        ∷ idle
        ∷ idle
        ∷ idle
        ∷ idle
        ∷ idle
        ∷ idle
        ∷ idle
        ∷ idle
        ∷ idle
        ∷ idle
        ∷ idle
        ∷ idle
        ∷ record { tx_req = true; message = message 1 }
        ∷ [];
  };
}

queue-IsReady : Inv.IsReady queue
queue-IsReady = record {
  on = refl;
  some_len = omega arith;
  in_len = omega arith;
  size = refl;
  count = refl;
  outside = below;
  full = refl;
  empty = refl;
}
  where
    below : (i : ℕ) → i + 2 < 16 → (slot queue.control.tx_data i).tx_req ≡ false
    below i h =
        each_below 14 (λ k. (slot queue.control.tx_data k).tx_req ≡ false)
          (
            refl,
            (
              refl,
              (
                refl,
                (
                  refl,
                  (
                    refl,
                    (refl, (refl, (refl, (refl, (refl, (refl, (refl, (refl, (refl, tt))))))))),
                  ),
                ),
              ),
            ),
          )
          i (omega (arith, h))

put_stores_example :
    let q' = can_txque_put_txdata (sending 2) queue in
    (i : ℕ) × ((i < 16)
      × (16 ≤ i + 2)
      × ((slot queue.control.tx_data i).tx_req ≡ false)
      × (can_txque_peek_txdata i q' ≡ (std_e_ok, some (message 2)))
      × (q'.control.tx_data
          ≡ set queue.control.tx_data i (record { tx_req = true; message = message 2 }))
      × (q'.control.reqbufnum ≡ 2))
put_stores_example = put_stores (sending 2) queue-IsReady (omega arith)

txdone_frees_example :
    let q' = (can_txque_notify_txdone 15 queue).1 in
    (can_txque_peek_txdata 15 q' ≡ (std_e_noent, none))
    × (q'.control.reqbufnum + 1 ≡ 1)
    × (q'.control.tx_data
        ≡ set queue.control.tx_data 15 (record { tx_req = false; message = message 1 }))
txdone_frees_example = txdone_frees 15 queue-IsReady

after-IsReady_example :
    Inv.IsReady (after (Serve.put (sending 2) ∷ txdone 15 ∷ Serve.put (sending 3) ∷ []) queue)
after-IsReady_example =
    after-IsReady (Serve.put (sending 2) ∷ txdone 15 ∷ Serve.put (sending 3) ∷ []) queue-IsReady
