-- ===== src/Can/Queue.antt =====
-- The bounded queue, beside which the ring buffers of the CAN controller stand.
use athrill_target_rh850f1x.Base.{
  ℕ, ltb, if◌then◌else◌, List, [], ◌∷◌, ◌++◌, length, Option, none, some,
}
use athrill_target_rh850f1x.Can.Types.{StdReturn, std_e_ok, std_e_limit, std_e_noent}

pub data Request (A : Type 0) : Type 0 where
  put : A → Request A
  next : Request A
  peek : Request A

-- What a call returns: its status, and the message of a peek.
abbrev pub Reply : Type 0 → Type 0
Reply A = StdReturn × Option A

module _ {A : Type 0} where
  -- A full queue refuses a message; `next` drops the oldest message, and `peek` shows it.
  unfoldable pub serve : ℕ → Request A → List A → Reply A × List A
  serve most (put x) xs =
      if ltb (length xs) most then ((std_e_ok, none), xs ++ (x ∷ [])) else ((std_e_limit, none), xs)
  serve most next [] = ((std_e_noent, none), [])
  serve most next (x ∷ xs) = ((std_e_ok, none), xs)
  serve most peek [] = ((std_e_noent, none), [])
  serve most peek (x ∷ xs) = ((std_e_ok, some x), x ∷ xs)

  -- The replies to a sequence of calls.
  unfoldable pub serve_all : ℕ → List (Request A) → List A → List (Reply A)
  unfolding serve
  serve_all most [] xs = []
  serve_all most (q ∷ qs) xs = let (a, ys) = serve most q xs in a ∷ serve_all most qs ys
