-- ===== src/Log/Replay.antt =====
-- Sequences of device writes: what a device holds after some of them.
use hyu_ele.Base.{ℕ, zero, suc, ◌+◌, ◌≡◌, ◌⊎◌, refl, List, [], ◌∷◌, ◌++◌, inl, inr}
use hyu_ele.Log.{Device, Write, put, perform}

abbrev pub replay : List Write → Device → Device
replay [] d = d
replay (w ∷ ws) d = replay ws (perform w d)

pub replay-append :
    (us ws : List Write) (d : Device) → replay (us ++ ws) d ≡ replay ws (replay us d)
replay-append [] ws d = refl
replay-append (u ∷ us) ws d = replay-append us ws (perform u d)

-- `us` is a beginning of `ws`.
abbrev pub Begins : List Write → List Write → Type 0
Begins us ws = (rest : List Write) × (ws ≡ us ++ rest)

-- A beginning of a sequence in two parts ends in the first or goes on into the second.
pub Begins-append :
    (us xs ys : List Write)
    → Begins us (xs ++ ys)
    → Begins us xs ⊎ ((vs : List Write) × (us ≡ xs ++ vs) × Begins vs ys)
Begins-append us [] ys b = inr (us, refl, b)
Begins-append [] (x ∷ xs) ys b = inl (x ∷ xs, refl)
Begins-append (u ∷ us) (x ∷ xs) ys (rest, e) = elim (Begins-append us xs ys (rest, tail_eq e)) [
  | inl (more, q) ↦ inl (more, cc (head_eq e))
  | inr (vs, q, b) ↦ inr (vs, cc (head_eq e), b)
]
  where
    tail_eq : x ∷ (xs ++ ys) ≡ u ∷ (us ++ rest) → xs ++ ys ≡ us ++ rest
    tail_eq q = cc

    head_eq : x ∷ (xs ++ ys) ≡ u ∷ (us ++ rest) → x ≡ u
    head_eq q = cc

-- The writes of the two copying loops.
abbrev pub log_writes : ℕ → ℕ → ℕ → (ℕ → ℕ) → (ℕ → ℕ) → List Write
log_writes zero tail start block value = []
log_writes (suc k) tail start block value =
    put (start + tail + 1) (value (block tail)) ∷ log_writes k (tail + 1) start block value

abbrev pub home_writes : ℕ → ℕ → (ℕ → ℕ) → (ℕ → ℕ) → List Write
home_writes zero tail block value = []
home_writes (suc k) tail block value =
    put (block tail) (value tail) ∷ home_writes k (tail + 1) block value
