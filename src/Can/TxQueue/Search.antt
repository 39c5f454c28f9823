-- ===== src/Can/TxQueue/Search.antt =====
-- The search for a buffer without a request, and the number of buffers with one.
use native.Mathlib.Decide.{dec_lt}
use athrill_target_rh850f1x.Base.{
  ℕ, zero, suc, ◌+◌, ◌-◌, ◌≤◌, ◌<◌, ◌^◌, ◌≡◌, arith, refl, ap, ap₂, ◌∙◌, Bool, true, false,
  Bool-cases, inl, inr, List, length, set, get_or-set_self, get_or-set_ne, some,
}
use athrill_target_rh850f1x.Can.TxQueue.{TxQueueData, slot, free_buffer, no_data}

abbrev pub one_if : Bool → ℕ
one_if true = 1
one_if false = 0

-- How many of the `n` buffers from `b` down have a request.
abbrev pub requested : ℕ → ℕ → List TxQueueData → ℕ
requested zero b qs = 0
requested (suc n) b qs = one_if ((slot qs b).tx_req) + requested n (b - 1) qs

pub requested-le : (n b : ℕ) (qs : List TxQueueData) → requested n b qs ≤ n
requested-le zero b qs = omega arith
requested-le (suc n) b qs = grind (arith, requested-le n (b - 1) qs)

-- Of `n` buffers from `b` down, the search finds `i`.
abbrev pub Finds : ℕ → ℕ → List TxQueueData → ℕ → Type 0
Finds n b qs i =
    (free_buffer n b qs ≡ some i) × ((slot qs i).tx_req ≡ false) × (i ≤ b) × (b < i + n)

step_down :
    (n b : ℕ) (qs : List TxQueueData)
    → (slot qs b).tx_req ≡ true
    → 0 < b
    → b < 2 ^ 32
    → free_buffer (suc n) b qs ≡ free_buffer n (b - 1) qs
unfolding free_buffer
step_down n b qs busy p w = rw busy (ap (λ k. free_buffer n k qs) (omega arith))

-- The search succeeds where fewer buffers have a request than there are.
pub free_buffer-Finds :
    (n b : ℕ) (qs : List TxQueueData)
    → n ≤ b + 1
    → b < 2 ^ 32
    → requested n b qs < n
    → (i : ℕ) × Finds n b qs i
unfolding free_buffer
free_buffer-Finds zero b qs h w r = elim r [ ]
free_buffer-Finds (suc n) b qs h w r = elim (Bool-cases ((slot qs b).tx_req)) [
  | inl busy ↦
      let r' : requested n (b - 1) qs < n = omega (arith, rw busy at r) in
      let pos_b : 0 < b = omega (arith, h, r') in
      let (i, (found, free, low, high)) =
        free_buffer-Finds n (b - 1) qs (omega (arith, h, pos_b)) (omega (arith, w)) r' in
      (
        i,
        (
          step_down n b qs busy pos_b w ∙ found,
          free,
          omega (arith, low),
          omega (arith, high, pos_b),
        ),
      )
  | inr idle ↦ (b, (rw idle refl, idle, omega arith, omega arith))
]

-- Writing a buffer above changes no count.
requested-set_above :
    (n b i : ℕ) (qs : List TxQueueData) (x : TxQueueData)
    → (0 < n → b < i)
    → requested n b (set qs i x) ≡ requested n b qs
requested-set_above zero b i qs x h = refl
requested-set_above (suc n) b i qs x h =
    ap₂ (λ (e : TxQueueData) r. one_if (e.tx_req) + r)
      (get_or-set_ne qs i b x _ (omega (arith, h (omega arith))))
      (requested-set_above n (b - 1) i qs x (λ _. omega (arith, h (omega arith))))

-- Writing a buffer among them trades its old request for its new one.
pub requested-set :
    (n b i : ℕ) (qs : List TxQueueData) (x : TxQueueData)
    → i < length qs
    → i ≤ b
    → b < i + n
    → n ≤ b + 1
    → requested n b (set qs i x) + one_if ((slot qs i).tx_req)
      ≡ requested n b qs + one_if (x.tx_req)
requested-set zero b i qs x inside low high h = absurd (omega arith)
requested-set (suc n) b i qs x inside low high h = elim (dec_lt i b) [
  | yes p ↦
      let rest =
        requested-set n (b - 1) i qs x inside (omega (arith, p)) (omega (arith, high, p))
          (omega (arith, h, p)) in
      let same =
        get_or-set_ne qs i b x (record { tx_req = false; message = no_data }) (omega (arith, p)) in
      rw same (omega (arith, rest))
  | no p ↦
      let e : i ≡ b = omega (arith, p, low) in
      let written = get_or-set_self qs i x (record { tx_req = false; message = no_data }) inside in
      let below = requested-set_above n (i - 1) i qs x (λ q. omega (arith, e, h, q)) in
      rw (← e, written) (omega (arith, below))
]
