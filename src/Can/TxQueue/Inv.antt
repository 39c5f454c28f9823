-- ===== src/Can/TxQueue/Inv.antt =====
-- The state of the transmission queue that its operations keep.
use athrill_target_rh850f1x.Base.{
  ℕ, ◌+◌, ◌%◌, ◌≤◌, ◌<◌, ◌^◌, ◌≡◌, arith, refl, ap, ◌∙◌, true, false, leb, ◌==◌, length, set,
  length-set, get_or-set_ne, some,
}
use native.Mathlib.Decide.{dec_lt}
use athrill_target_rh850f1x.Can.Types.{CanTxBuffer, can_txbuffer_ref_data}
use athrill_target_rh850f1x.Can.TxQueue.{
  TxQueue, TxQueueData, slot, free_buffer, maxquelen, store, can_txque_put_txdata,
}
use athrill_target_rh850f1x.Can.TxQueue.Search.{requested, one_if, free_buffer-Finds, requested-set}

-- The queue is switched on with two to sixteen buffers; reqbufnum counts the requests in them,
-- there are none below them, and the flags say how full it is.
pub record IsReady (q : TxQueue) : Type 0 where
  pub on : q.config.enable_queue ≡ true
  pub some_len : 0 < q.config.quelen
  pub in_len : q.config.quelen < 16
  pub size : length q.control.tx_data ≡ 16
  pub count : q.control.reqbufnum ≡ requested (maxquelen q.config) 15 q.control.tx_data
  pub outside : (i : ℕ) → i + maxquelen q.config < 16 → (slot q.control.tx_data i).tx_req ≡ false
  pub full : q.status.is_full ≡ leb (maxquelen q.config) q.control.reqbufnum
  pub empty : q.status.is_empty ≡ (q.control.reqbufnum == 0)

abbrev pub entry : CanTxBuffer → TxQueueData
entry buf = record { tx_req = true; message = can_txbuffer_ref_data buf }

-- The queue with the message of `buf` in buffer `i`.
abbrev pub queued : CanTxBuffer → ℕ → TxQueue → TxQueue
queued buf i q = record q {
  control = record {
    reqbufnum = q.control.reqbufnum + 1;
    tx_data = set q.control.tx_data i (entry buf);
  };
  status = record (q.status) {
    is_full = leb (maxquelen q.config) (q.control.reqbufnum + 1);
    is_empty = false;
  };
}

put_found :
    {q : TxQueue} (buf : CanTxBuffer) (i : ℕ)
    → IsReady q
    → q.control.reqbufnum < maxquelen q.config
    → free_buffer (maxquelen q.config) 15 q.control.tx_data ≡ some i
    → can_txque_put_txdata buf q ≡ queued buf i q
unfolding can_txque_put_txdata store
put_found {q} buf i v room found =
    let sum : (q.control.reqbufnum + 1) % 2 ^ 8 ≡ q.control.reqbufnum + 1 =
      omega (arith, v.in_len, room) in
    rw (found, sum) (ground (arith, v.on, v.some_len, v.full, room))

-- Where there is room a message goes into a free buffer of the queue.
pub put-queued :
    {q : TxQueue} (buf : CanTxBuffer)
    → IsReady q
    → q.control.reqbufnum < maxquelen q.config
    → (i : ℕ) × ((can_txque_put_txdata buf q ≡ queued buf i q)
        × ((slot q.control.tx_data i).tx_req ≡ false)
        × (i < 16)
        × (16 ≤ i + maxquelen q.config))
put-queued {q} buf v room =
    let (i, (found, free, low, high)) =
      free_buffer-Finds (maxquelen q.config) 15 q.control.tx_data (omega (arith, v.in_len))
        (omega arith) (omega (arith, v.count)) in
    (i, (put_found buf i v room found, free, omega (arith, low), omega (arith, high)))

pub put_when_full :
    {q : TxQueue} (buf : CanTxBuffer)
    → IsReady q
    → maxquelen q.config ≤ q.control.reqbufnum
    → can_txque_put_txdata buf q ≡ q
unfolding can_txque_put_txdata
put_when_full {q} buf v full = ground (arith, v.on)

-- Trading the entry of a buffer of the queue for one with another request keeps what the counts
-- and the lower buffers say.
pub trade :
    {q : TxQueue} (i n : ℕ) (x : TxQueueData)
    → IsReady q
    → i < 16
    → 16 ≤ i + maxquelen q.config
    → n + one_if ((slot q.control.tx_data i).tx_req) ≡ q.control.reqbufnum + one_if (x.tx_req)
    → (n ≡ requested (maxquelen q.config) 15 (set q.control.tx_data i x))
      × ((k : ℕ)
          → k + maxquelen q.config < 16
          → (slot (set q.control.tx_data i x) k).tx_req ≡ false)
trade {q} i n x v low high e =
    let more =
      requested-set (maxquelen q.config) 15 i q.control.tx_data x (omega (arith, v.size))
        (omega arith) (omega arith) (omega (arith, v.in_len)) in
    (
      omega (arith, more, v.count, e),
      λ k h.
          ap (λ (y : TxQueueData). y.tx_req)
            (get_or-set_ne q.control.tx_data i k x _ (omega (arith, h, high)))
          ∙ v.outside k h,
    )

queued-IsReady :
    {q : TxQueue} (buf : CanTxBuffer) (i : ℕ)
    → IsReady q
    → (slot q.control.tx_data i).tx_req ≡ false
    → i < 16
    → 16 ≤ i + maxquelen q.config
    → IsReady (queued buf i q)
queued-IsReady {q} buf i v free low high =
    let t = trade i (q.control.reqbufnum + 1) (entry buf) v low high (rw free (omega arith)) in
    record {
      on = v.on;
      some_len = v.some_len;
      in_len = v.in_len;
      size = rw length-set (v.size);
      count = t.0;
      outside = t.1;
      full = refl;
      empty = ground arith;
    }

-- Queueing a message keeps the queue ready, whether there is room or not.
pub can_txque_put_txdata-IsReady :
    {q : TxQueue} (buf : CanTxBuffer) → IsReady q → IsReady (can_txque_put_txdata buf q)
can_txque_put_txdata-IsReady {q} buf v = elim (dec_lt q.control.reqbufnum (maxquelen q.config)) [
  | yes room ↦
      let (i, (done, free, low, high)) = put-queued buf v room in
      rw done (queued-IsReady buf i v free low high)
  | no full ↦ rw (put_when_full buf v (omega (arith, full))) v
]
