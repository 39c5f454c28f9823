-- ===== src/Can/Ring.antt =====
-- The arithmetic of a ring of `cap` places that is kept by a count, a read and a write offset, and
-- the messages that it holds.
use athrill_target_rh850f1x.Base.{
  ℕ, zero, suc, ◌+◌, ◌-◌, ◌%◌, ◌^◌, ◌≤◌, ◌<◌, ◌≡◌, arith, refl, ap, ap₂, List, [], ◌∷◌, ◌++◌,
  length, get_or, set, get_or-set_self, get_or-set_ne, if◌then◌else◌, leb,
}
use mathlib.Core.List.{map}
use athrill_target_rh850f1x.Can.Types.{CanFifoControl}

-- `off++; if (off >= cap) off = 0;`
abbrev pub step_off : ℕ → ℕ → ℕ
step_off cap off = let next = (off + 1) % 2 ^ 32 in if leb cap next then 0 else next

-- `count++` and the step of `woff`.
abbrev pub put_control : ℕ → CanFifoControl → CanFifoControl
put_control cap k = record k { count = (k.count + 1) % 2 ^ 32; woff = step_off cap k.woff }

-- `count--` and the step of `roff`.
abbrev pub next_control : ℕ → CanFifoControl → CanFifoControl
next_control cap k = record k { count = k.count - 1; roff = step_off cap k.roff }

-- The place `n` places after `off`.
abbrev pub around : ℕ → ℕ → ℕ
around cap k = if leb cap k then k - cap else k

-- The offsets lie in the ring, and the write offset `count` places after the read offset.
pub record IsRing (cap size : ℕ) (k : CanFifoControl) : Type 0 where
  pub small : cap ≤ size
  pub word : size < 2 ^ 32
  pub roff_in : k.roff < cap
  pub count_in : k.count ≤ cap
  pub woff_at : k.woff ≡ around cap (k.roff + k.count)

pub put_control-IsRing :
    {cap size : ℕ} {k : CanFifoControl}
    → IsRing cap size k
    → k.count < cap
    → IsRing cap size (put_control cap k)
put_control-IsRing v h = ground arith

pub next_control-IsRing :
    {cap size : ℕ} {k : CanFifoControl}
    → IsRing cap size k
    → 0 < k.count
    → IsRing cap size (next_control cap k)
next_control-IsRing v h = ground arith

module _ {A : Type 0} (d : A) where
  -- The `n` messages from offset `h` on, oldest first.
  abbrev pub window : List A → ℕ → ℕ → ℕ → List A
  window buf cap h zero = []
  window buf cap h (suc n) = get_or buf h d ∷ window buf cap (step_off cap h) n

  pub length-window : (buf : List A) (cap h n : ℕ) → length (window buf cap h n) ≡ n
  length-window buf cap h zero = refl
  length-window buf cap h (suc n) = ap suc (length-window buf cap (step_off cap h) n)

  pub window-pos :
      (buf : List A) (cap h n : ℕ)
      → 0 < n
      → window buf cap h n ≡ get_or buf h d ∷ window buf cap (step_off cap h) (n - 1)
  window-pos buf cap h zero p = elim p [ ]
  window-pos buf cap h (suc n) p = ap (λ k. window buf cap h (suc k)) (omega arith)

  pub window-none : (buf : List A) (cap h n : ℕ) → n ≡ 0 → window buf cap h n ≡ []
  window-none buf cap h n e = ap (window buf cap h) e

  -- Writing the place after a window extends it at its end.
  pub window-set :
      (buf : List A) (cap h n i : ℕ) (x : A)
      → cap ≤ length buf
      → cap < 2 ^ 32
      → h < cap
      → n < cap
      → i ≡ around cap (h + n)
      → window (set buf i x) cap h (suc n) ≡ window buf cap h n ++ (x ∷ [])
  window-set buf cap h zero i x fits w hh hn e =
      let at : i ≡ h = ground arith in rw (at, get_or-set_self buf h x d (omega arith))
  window-set buf cap h (suc n) i x fits w hh hn e =
      ap₂ ◌∷◌ (get_or-set_ne buf i h x d (ground arith)) (
        window-set buf cap (step_off cap h) n i x fits w (ground arith) (omega arith)
          (ground arith))

  -- A view of the messages of a window has as many of them.
  pub length-map-window :
      {B : Type 0} (view : A → B) (buf : List A) (cap h n : ℕ)
      → length (map view (window buf cap h n)) ≡ n
  length-map-window view buf cap h zero = refl
  length-map-window view buf cap h (suc n) =
      ap suc (length-map-window view buf cap (step_off cap h) n)
