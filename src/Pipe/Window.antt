-- ===== src/Pipe/Window.antt =====
-- The bytes that wait in a pipe, and what one step of each loop does to them.
use hyu_ele.Base.{
  ℕ, zero, suc, ◌+◌, ◌-◌, ◌%◌, ◌<◌, ◌≤◌, ◌≡◌, ◌≢◌, refl, ◌∙◌, ap, update, List, [], ◌∷◌, ◌++◌,
  length, arith,
}
use hyu_ele.Pipe.{Pipe, pipesize, uint_range, put_byte}

unfoldable pub window : (ℕ → ℕ) → ℕ → ℕ → List ℕ
window d a zero = []
window d a (suc k) = d (a % pipesize) ∷ window d ((a + 1) % uint_range) k

-- The number of bytes between the counters, which may have wrapped around.
abbrev pub waiting : Pipe → ℕ
waiting p = (p.nwrite + uint_range - p.nread) % uint_range

abbrev pub pending : Pipe → List ℕ
pending p = window p.data_at p.nread (waiting p)

abbrev pub InRange : Pipe → Type 0
InRange p = (p.nread < uint_range) × (p.nwrite < uint_range) × (waiting p ≤ pipesize)

window-put :
    (d : ℕ → ℕ) (a w c k : ℕ)
    → k < pipesize
    → a < uint_range
    → w ≡ (a + k) % uint_range
    → window (update d (w % pipesize) c) a (suc k) ≡ window d a k ++ c ∷ []
unfolding window
window-put d a w c zero h i e = ground arith
window-put d a w c (suc k) h i e =
    let ih = window-put d ((a + 1) % uint_range) w c k (omega arith) (omega arith) (omega arith) in
    let n : a % pipesize ≢ w % pipesize = omega arith in
    let first : update d (w % pipesize) c (a % pipesize) ≡ d (a % pipesize) = ground arith in
    ap (λ v. v ∷ window (update d (w % pipesize) c) ((a + 1) % uint_range) (suc k)) first
    ∙ ap (λ r. d (a % pipesize) ∷ r) ih

pub length-window : (d : ℕ → ℕ) (a k : ℕ) → length (window d a k) ≡ k
unfolding window
length-window d a zero = refl
length-window d a (suc k) = ap suc (length-window d ((a + 1) % uint_range) k)

pub length-pending : (p : Pipe) → length (pending p) ≡ waiting p
length-pending p = length-window p.data_at p.nread (waiting p)

-- A byte that is put goes behind those that wait.
pub put_byte-pending :
    (c : ℕ) (p : Pipe)
    → InRange p
    → waiting p < pipesize
    → (pending (put_byte c p) ≡ pending p ++ c ∷ []) × InRange (put_byte c p)
unfolding put_byte
put_byte-pending c p (r, w, _) h =
    let grows : ((p.nwrite + 1) % uint_range + uint_range - p.nread) % uint_range
        ≡ suc (waiting p) =
      omega arith in
    (
      ap (window (update p.data_at (p.nwrite % pipesize) c) p.nread) grows
          ∙ window-put p.data_at p.nread p.nwrite c (waiting p) h r (omega arith),
      (omega arith, omega arith, omega arith),
    )

abbrev pub take_byte : Pipe → Pipe
take_byte p = record p { nread = (p.nread + 1) % uint_range }

-- The byte at `nread` is the first that waits.
pub take_byte-pending :
    (p : Pipe)
    → InRange p
    → p.nread ≢ p.nwrite
    → (pending p ≡ p.data_at (p.nread % pipesize) ∷ pending (take_byte p))
      × InRange (take_byte p)
      × (waiting p ≡ suc (waiting (take_byte p)))
unfolding window
take_byte-pending p (r, w, l) n =
    let shrinks : waiting p ≡ suc (waiting (take_byte p)) = omega arith in
    (ap (window p.data_at p.nread) shrinks, (omega arith, omega arith, omega arith), shrinks)

pub pending_nothing : (p : Pipe) → InRange p → p.nread ≡ p.nwrite → pending p ≡ []
unfolding window
pending_nothing p i e = let none : waiting p ≡ 0 = omega arith in ap (window p.data_at p.nread) none
