-- ===== src/Can/History/Refine.antt =====
-- The transmission history, can_tx_history.c, beside a bounded queue of 16 entries.
use native.Mathlib.Decide.{dec_lt}
use athrill_target_rh850f1x.Base.{
  suc, ◌+◌, ◌-◌, ◌%◌, ◌≤◌, ◌<◌, ◌^◌, ◌≡◌, arith, refl, ap, ◌∙◌, Bool, true, false, leb, ltb_of_lt,
  ltb_of_not_lt, ◌==◌, List, [], ◌∷◌, ◌++◌, length, get_or, set, length-set, none, some,
}
use athrill_target_rh850f1x.Can.Types.{std_e_ok, std_e_limit, std_e_noent}
use athrill_target_rh850f1x.Can.Ring.{
  IsRing, put_control, next_control, put_control-IsRing, next_control-IsRing, window, length-window,
  window-pos, window-none, window-set,
}
use athrill_target_rh850f1x.Can.Queue.{Request, put, next, peek, Reply, serve, serve_all}
use athrill_target_rh850f1x.Can.History.{
  TxHistory, TxHistoryData, empty_entry, can_txhl_put_thldata, can_txhl_next_thldata,
  can_txhl_peek_thldata,
}

-- The history is switched on, its ring lies in its buffer, and its flags say how full it is.
pub record IsReady (t : TxHistory) : Type 0 where
  pub on : t.config.enable_history ≡ true
  pub ring : IsRing 16 (length t.buffer) t.control
  pub full : t.status.thl_full ≡ leb 16 t.control.count
  pub empty : t.status.thl_empty ≡ (t.control.count == 0)

-- The entries that the history holds, oldest first.
abbrev pub entries : TxHistory → List TxHistoryData
entries t = window empty_entry t.buffer 16 t.control.roff t.control.count

-- One call, as the caller sees it.
unfoldable pub ask : Request TxHistoryData → TxHistory → Reply TxHistoryData × TxHistory
unfolding can_txhl_put_thldata can_txhl_next_thldata can_txhl_peek_thldata
ask (put x) t = let (status, t') = can_txhl_put_thldata t x in ((status, none), t')
ask next t = let (status, t') = can_txhl_next_thldata t in ((status, none), t')
ask peek t = (can_txhl_peek_thldata t, t)

unfoldable pub ask_all : List (Request TxHistoryData) → TxHistory → List (Reply TxHistoryData)
unfolding ask
ask_all [] t = []
ask_all (q ∷ qs) t = let (a, t') = ask q t in a ∷ ask_all qs t'

-- The history with one entry more, and with its oldest dropped.
abbrev grown : TxHistory → TxHistoryData → Bool → TxHistory
grown t x intr = record t {
  buffer = set t.buffer t.control.woff x;
  control = put_control 16 t.control;
  status = record (t.status) {
    thl_full = leb 16 (t.control.count + 1);
    thl_empty = false;
    thl_intr = intr;
  };
}

abbrev shrunk : TxHistory → TxHistory
shrunk t = record t {
  control = next_control 16 t.control;
  status = record (t.status) { thl_full = false; thl_empty = t.control.count - 1 == 0 };
}

put-grown :
    {t : TxHistory} (x : TxHistoryData)
    → IsReady t
    → t.control.count < 16
    → can_txhl_put_thldata t x
      ≡ (std_e_ok, grown t x ((can_txhl_put_thldata t x).1.status.thl_intr))
unfolding can_txhl_put_thldata
put-grown {t} x v h = ground (arith, v.on, v.full)

put_past_end :
    {t : TxHistory} (x : TxHistoryData)
    → IsReady t
    → 16 ≤ t.control.count
    → can_txhl_put_thldata t x
      ≡ (std_e_limit, record t { status = record (t.status) { thl_ovr = true } })
unfolding can_txhl_put_thldata
put_past_end {t} x v h = ground (arith, v.on)

next-shrunk :
    {t : TxHistory}
    → IsReady t
    → 0 < t.control.count
    → can_txhl_next_thldata t ≡ (std_e_ok, shrunk t)
unfolding can_txhl_next_thldata
next-shrunk {t} v h = ground (arith, v.on, v.empty)

next_past_end :
    {t : TxHistory} → IsReady t → t.control.count ≡ 0 → can_txhl_next_thldata t ≡ (std_e_noent, t)
unfolding can_txhl_next_thldata
next_past_end {t} v h = ground (arith, v.on)

peek_first :
    {t : TxHistory}
    → IsReady t
    → 0 < t.control.count
    → can_txhl_peek_thldata t ≡ (std_e_ok, some (get_or t.buffer t.control.roff empty_entry))
unfolding can_txhl_peek_thldata
peek_first {t} v h = ground (arith, v.on)

peek_past_end :
    {t : TxHistory}
    → IsReady t
    → t.control.count ≡ 0
    → can_txhl_peek_thldata t ≡ (std_e_noent, none)
unfolding can_txhl_peek_thldata
peek_past_end {t} v h = ground (arith, v.on)

entries-grown :
    {t : TxHistory} (x : TxHistoryData) (intr : Bool)
    → IsReady t
    → t.control.count < 16
    → entries (grown t x intr) ≡ entries t ++ (x ∷ [])
entries-grown {t} x intr v h =
    let r = v.ring in
    let bump : (t.control.count + 1) % 2 ^ 32 ≡ suc t.control.count = omega arith in
    ap (window empty_entry (set t.buffer t.control.woff x) 16 t.control.roff) bump
    ∙ window-set empty_entry t.buffer 16 t.control.roff t.control.count t.control.woff x r.small
        (omega arith) r.roff_in h r.woff_at

grown-IsReady :
    {t : TxHistory} (x : TxHistoryData) (intr : Bool)
    → IsReady t
    → t.control.count < 16
    → IsReady (grown t x intr)
grown-IsReady {t} x intr v h = record {
  on = v.on;
  ring = rw length-set (put_control-IsRing v.ring h);
  full = ground arith;
  empty = ground arith;
}

shrunk-IsReady : {t : TxHistory} → IsReady t → 0 < t.control.count → IsReady (shrunk t)
shrunk-IsReady {t} v h = record {
  on = v.on;
  ring = next_control-IsRing v.ring h;
  full = ground (arith, v.ring.count_in);
  empty = refl;
}

Answers : Request TxHistoryData → TxHistory → Type 0
Answers q t =
    ((ask q t).0 ≡ (serve 16 q (entries t)).0)
    × (entries ((ask q t).1) ≡ (serve 16 q (entries t)).1)
    × IsReady ((ask q t).1)

ask-Answers : (q : Request TxHistoryData) {t : TxHistory} → IsReady t → Answers q t
unfolding Answers ask serve
ask-Answers (put x) {t} v =
    let held = length-window empty_entry t.buffer 16 t.control.roff t.control.count in
    elim (dec_lt t.control.count 16) [
      | yes h ↦
          let intr = (can_txhl_put_thldata t x).1.status.thl_intr in
          rw (put-grown x v h, held, ltb_of_lt h)
            (refl, entries-grown x intr v h, grown-IsReady x intr v h)
      | no h ↦
          rw (put_past_end x v (omega (arith, h)), held, ltb_of_not_lt h)
            (refl, refl, record { on = v.on; ring = v.ring; full = v.full; empty = v.empty })
    ]
ask-Answers next {t} v = elim (dec_lt 0 t.control.count) [
  | yes h ↦
      rw (next-shrunk v h, window-pos empty_entry t.buffer 16 t.control.roff t.control.count h)
        (refl, refl, shrunk-IsReady v h)
  | no h ↦
      let gone : t.control.count ≡ 0 = omega (arith, h) in
      rw
        (
          next_past_end v gone,
          window-none empty_entry t.buffer 16 t.control.roff t.control.count gone,
        )
        (refl, refl, v)
]
ask-Answers peek {t} v = elim (dec_lt 0 t.control.count) [
  | yes h ↦
      rw (peek_first v h, window-pos empty_entry t.buffer 16 t.control.roff t.control.count h)
        (refl, refl, v)
  | no h ↦
      let gone : t.control.count ≡ 0 = omega (arith, h) in
      rw
        (
          peek_past_end v gone,
          window-none empty_entry t.buffer 16 t.control.roff t.control.count gone,
        )
        (refl, refl, v)
]

-- No sequence of puts, nexts and peeks tells a ready history from the bounded queue of 16 entries.
pub ask_all_refines :
    (qs : List (Request TxHistoryData)) {t : TxHistory}
    → IsReady t
    → ask_all qs t ≡ serve_all 16 qs (entries t)
unfolding ask_all serve_all Answers
ask_all_refines [] v = refl
ask_all_refines (q ∷ qs) {t} v =
    let one = ask-Answers q v in rw (ask_all_refines qs (one.2), one.0, one.1) refl
