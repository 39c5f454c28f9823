-- ===== src/Can/TxQueue/Serve.antt =====
-- What the transmission queue does for its callers.
use athrill_target_rh850f1x.Base.{
  ℕ, ◌+◌, ◌-◌, ◌%◌, ◌≤◌, ◌<◌, ◌^◌, ◌≡◌, arith, refl, ap, ◌∙◌, sym, Bool, true, false, ◌||◌,
  Bool-cases, inl, inr, ◌==◌, List, [], ◌∷◌, set, length-set, get_or-none, set-get_or,
  get_or-set_self, some, none,
}
use native.Mathlib.Decide.{dec_lt}
use athrill_target_rh850f1x.Can.Types.{std_e_ok, std_e_noent, CanTxBuffer, can_txbuffer_ref_data}
use athrill_target_rh850f1x.Can.TxQueue.{
  TxQueue, TxQueueData, slot, maxquelen, no_data, can_txque_put_txdata, can_txque_notify_txdone,
  can_txque_peek_txdata,
}
use athrill_target_rh850f1x.Can.TxQueue.Search.{one_if, requested-set, requested-le}
use athrill_target_rh850f1x.Can.TxQueue.Inv.{
  IsReady, entry, queued, put-queued, trade, can_txque_put_txdata-IsReady,
}

both : {A : Type 0} {b : Bool} → b ≡ true → b ≡ false → A
both {b = true} e f = ground (arith, f)
both {b = false} e f = ground (arith, e)

-- A buffer with a request is one of the queue's, and is counted.
requested_inside :
    {q : TxQueue} (i : ℕ)
    → IsReady q
    → (slot q.control.tx_data i).tx_req ≡ true
    → (i < 16) × (16 ≤ i + maxquelen q.config) × (0 < q.control.reqbufnum)
requested_inside {q} i v busy = (low, high, counted)
  where
    low : i < 16
    low = elim (dec_lt i 16) [
      | yes p ↦ p
      | no p ↦ both busy (
          ap (λ (x : TxQueueData). x.tx_req)
            (get_or-none q.control.tx_data i _ (omega (arith, p, v.size))))
    ]

    high : 16 ≤ i + maxquelen q.config
    high = elim (dec_lt (i + maxquelen q.config) 16) [
      | yes p ↦ both busy (v.outside i p)
      | no p ↦ omega (arith, p)
    ]

    gone : TxQueueData
    gone = record { tx_req = false; message = no_data }

    counted : 0 < q.control.reqbufnum
    counted =
        let more =
          requested-set (maxquelen q.config) 15 i q.control.tx_data gone
            (omega (arith, v.size, low)) (omega (arith, low)) (omega (arith, high))
            (omega (arith, v.in_len)) in
        omega (arith, rw busy at more, v.count)

-- The queue after the message of buffer `i` was sent.
abbrev sent : ℕ → Bool → TxQueue → TxQueue
sent i intr q = record q {
  control = record {
    reqbufnum = q.control.reqbufnum - 1;
    tx_data = set q.control.tx_data i (record (slot q.control.tx_data i) { tx_req = false });
  };
  status = record { intr_req = intr; is_full = false; is_empty = (q.control.reqbufnum - 1) == 0 };
}

txdone-sent :
    {q : TxQueue} (i : ℕ)
    → IsReady q
    → (slot q.control.tx_data i).tx_req ≡ true
    → can_txque_notify_txdone i q ≡ (
      std_e_ok,
      sent i (q.config.intr_factor || (q.control.reqbufnum - 1 == 0) || q.status.intr_req) q,
    )
unfolding can_txque_notify_txdone
txdone-sent {q} i v busy =
    let counted = (requested_inside i v busy).2 in
    let top = requested-le (maxquelen q.config) 15 q.control.tx_data in
    let left : (q.control.reqbufnum + 2 ^ 8 - 1) % 2 ^ 8 ≡ q.control.reqbufnum - 1 =
      omega (arith, counted, top, v.count) in
    rw (busy, left) (ground (arith, v.empty, counted))

txdone-idle :
    {q : TxQueue} (i : ℕ)
    → (slot q.control.tx_data i).tx_req ≡ false
    → can_txque_notify_txdone i q ≡ (std_e_ok, q)
unfolding can_txque_notify_txdone
txdone-idle i idle = rw idle refl

txdone-IsReady : {q : TxQueue} (i : ℕ) → IsReady q → IsReady (can_txque_notify_txdone i q).1
txdone-IsReady {q} i v = elim (Bool-cases ((slot q.control.tx_data i).tx_req)) [
  | inl busy ↦
      let (low, high, counted) = requested_inside i v busy in
      let top = requested-le (maxquelen q.config) 15 q.control.tx_data in
      let t =
        trade i (q.control.reqbufnum - 1) (record (slot q.control.tx_data i) { tx_req = false }) v
          low high (rw busy (omega (arith, counted))) in
      rw (txdone-sent i v busy) (record {
        on = v.on;
        some_len = v.some_len;
        in_len = v.in_len;
        size = rw length-set (v.size);
        count = t.0;
        outside = t.1;
        full = ground (arith, counted, top, v.count);
        empty = refl;
      })
  | inr idle ↦ rw (txdone-idle {q = q} i idle) v
]

peek_queued :
    {q : TxQueue} (i : ℕ) (buf : CanTxBuffer)
    → IsReady q
    → i < 16
    → can_txque_peek_txdata i (queued buf i q) ≡ (std_e_ok, some (can_txbuffer_ref_data buf))
unfolding can_txque_peek_txdata
peek_queued {q} i buf v low =
    let here =
      get_or-set_self q.control.tx_data i (entry buf) (record { tx_req = false; message = no_data })
        (omega (arith, v.size, low)) in
    rw (v.on, here) (ground (arith, v.some_len))

peek_idle :
    {q : TxQueue} (i : ℕ)
    → IsReady q
    → (slot q.control.tx_data i).tx_req ≡ false
    → can_txque_peek_txdata i q ≡ (std_e_noent, none)
unfolding can_txque_peek_txdata
peek_idle {q} i v idle = rw (v.on, idle) (ground (arith, v.some_len))

peek_sent :
    {q : TxQueue} (i : ℕ) (intr : Bool)
    → IsReady q
    → i < 16
    → can_txque_peek_txdata i (sent i intr q) ≡ (std_e_noent, none)
unfolding can_txque_peek_txdata
peek_sent {q} i intr v low =
    let gone = record (slot q.control.tx_data i) { tx_req = false } in
    let here =
      get_or-set_self q.control.tx_data i gone (record { tx_req = false; message = no_data })
        (omega (arith, v.size, low)) in
    rw (v.on, here) (ground (arith, v.some_len))

unrequested :
    (qs : List TxQueueData) (i : ℕ)
    → (slot qs i).tx_req ≡ false
    → set qs i (record (slot qs i) { tx_req = false }) ≡ qs
unrequested qs i idle =
    ap (λ b. set qs i (record (slot qs i) { tx_req = b })) (sym idle) ∙ set-get_or qs i _

-- In a ready queue with room, a put message goes into a buffer of the queue that had no request:
-- it can be peeked there, no other buffer changes, and one request more is counted.
pub put_stores :
    {q : TxQueue} (buf : CanTxBuffer)
    → IsReady q
    → q.control.reqbufnum < maxquelen q.config
    → let q' = can_txque_put_txdata buf q in
      (i : ℕ) × ((i < 16)
        × (16 ≤ i + maxquelen q.config)
        × ((slot q.control.tx_data i).tx_req ≡ false)
        × (can_txque_peek_txdata i q' ≡ (std_e_ok, some (can_txbuffer_ref_data buf)))
        × (q'.control.tx_data ≡ set q.control.tx_data i (entry buf))
        × (q'.control.reqbufnum ≡ q.control.reqbufnum + 1))
put_stores {q} buf v room =
    let (i, (done, free, low, high)) = put-queued buf v room in
    (i, rw done (low, high, free, peek_queued i buf v low, refl, refl))

-- Once the message of a buffer of a ready queue is sent, the buffer has none, no other buffer
-- changes, and one request less is counted, or none where it had none.
pub txdone_frees :
    {q : TxQueue} (i : ℕ)
    → IsReady q
    → let q' = (can_txque_notify_txdone i q).1 in
      (can_txque_peek_txdata i q' ≡ (std_e_noent, none))
      × (q'.control.reqbufnum + one_if ((slot q.control.tx_data i).tx_req) ≡ q.control.reqbufnum)
      × (q'.control.tx_data
          ≡ set q.control.tx_data i (record (slot q.control.tx_data i) { tx_req = false }))
txdone_frees {q} i v = elim (Bool-cases ((slot q.control.tx_data i).tx_req)) [
  | inl busy ↦
      let (low, high, counted) = requested_inside i v busy in
      rw (txdone-sent i v busy, busy) (peek_sent i _ v low, omega (arith, counted), refl)
  | inr idle ↦
      rw (txdone-idle {q = q} i idle, idle)
        (peek_idle i v idle, omega arith, sym (unrequested q.control.tx_data i idle))
]

-- What happens to a queue: a message is put, or one is sent.
pub data Event : Type 0 where
  put : CanTxBuffer → Event
  txdone : ℕ → Event

unfoldable pub after : List Event → TxQueue → TxQueue
after [] q = q
after (put buf ∷ es) q = after es (can_txque_put_txdata buf q)
after (txdone i ∷ es) q = after es ((can_txque_notify_txdone i q).1)

-- No sequence of puts and notices, for whatever buffers, takes a ready queue out of readiness: the
-- count stays that of the requests in its buffers, there are none below, and the flags are right.
pub after-IsReady : (es : List Event) {q : TxQueue} → IsReady q → IsReady (after es q)
unfolding after
after-IsReady [] v = v
after-IsReady (put buf ∷ es) v = after-IsReady es (can_txque_put_txdata-IsReady buf v)
after-IsReady (txdone i ∷ es) v = after-IsReady es (txdone-IsReady i v)
