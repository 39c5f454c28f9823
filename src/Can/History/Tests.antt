-- ===== src/Can/History/Tests.antt =====
-- The theorem about the transmission history at one history.
use athrill_target_rh850f1x.Base.{ℕ, ◌≡◌, arith, refl, true, false, [], ◌∷◌, none, some}
use athrill_target_rh850f1x.Can.Types.{std_e_ok, std_e_limit}
use athrill_target_rh850f1x.Can.Queue.{put, next, peek, serve_all}
use athrill_target_rh850f1x.Can.History.{TxHistory, TxHistoryData, empty_entry}
use athrill_target_rh850f1x.Can.History.Refine.{IsReady, ask_all, ask_all_refines}

abbrev entry : ℕ → TxHistoryData
entry i = record { label = i; bufno = 0; buftype = 1 }

-- Fifteen entries, the first of them in the last place.
abbrev history : TxHistory
history = record {
  config = record {
    select_tx_buffer = false;
    select_intr_factor = false;
    enable_intr = true;
    enable_history = true;
  };
  status = record { thl_intr = true; thl_ovr = false; thl_full = false; thl_empty = false };
  control = record { count = 15; roff = 15; woff = 14 };
  buffer =
      entry 2
      ∷ entry 3
      ∷ entry 4
      ∷ entry 5
      ∷ entry 6
      ∷ entry 7
      ∷ entry 8
      ∷ entry 9
      ∷ entry 10
      ∷ entry 11
      ∷ entry 12
      ∷ entry 13
      ∷ entry 14
      ∷ entry 15
      ∷ empty_entry
      ∷ entry 1
      ∷ [];
}

history-IsReady : IsReady history
history-IsReady = record {
  on = refl;
  ring = record {
    small = omega arith;
    word = omega arith;
    roff_in = omega arith;
    count_in = omega arith;
    woff_at = refl;
  };
  full = refl;
  empty = refl;
}

ask_all_refines_example :
    ask_all (put (entry 16) ∷ put (entry 17) ∷ next ∷ peek ∷ []) history
    ≡ (std_e_ok, none) ∷ (std_e_limit, none) ∷ (std_e_ok, none) ∷ (std_e_ok, some (entry 2)) ∷ []
unfolding serve_all
ask_all_refines_example =
    ask_all_refines (put (entry 16) ∷ put (entry 17) ∷ next ∷ peek ∷ []) history-IsReady
