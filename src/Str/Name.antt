-- ===== src/Str/Name.antt =====
-- strncmp, strncpy and safestrcpy on the strings that two buffers hold.
use hyu_ele.Base.{
  ℕ, zero, suc, ◌+◌, ◌<◌, ◌≡◌, ◌≢◌, ◌↔◌, refl, sym, ◌∙◌, ap, true, false, not, ◌==◌, ◌!=◌, ==_iff,
  !=_not, Bool-cases, if◌then◌else◌, update, arith, inl, inr, List, [], ◌∷◌,
}
use hyu_ele.Base.Int.{pos, sub_ℕ}
use hyu_ele.Str.{Memory, strncmp, strncpy, fill_zeros, safe_loop, safestrcpy, text}

cons_same : (a b : ℕ) (xs ys : List ℕ) → a ∷ xs ≡ b ∷ ys → (a ≡ b) × (xs ≡ ys)
cons_same a b xs ys e = (cc e, cc e)

sub_zero : (a b : ℕ) → sub_ℕ a b ≡ pos 0 → a ≡ b
sub_zero a b e = ground arith

-- strncmp returns 0 exactly where the two buffers hold the same string.
pub strncmp-text :
    (n : ℕ) (p : Memory) (i : ℕ) (q : Memory) (j : ℕ)
    → (strncmp n p i q j ≡ pos 0) ↔ (text n p i ≡ text n q j)
unfolding strncmp text
strncmp-text zero p i q j = (λ h. refl, λ h. refl)
strncmp-text (suc n) p i q j =
    let rest = strncmp-text n p (i + 1) q (j + 1) in
    elim (Bool-cases (p i == q j)) [
      | inr x ↦
          let apart : p i ≢ q j = (λ e. let y = (==_iff (p i) (q j)).1 e in cc (x, y)) in
          (λ h. ground arith, λ h. ground arith)
      | inl x ↦
          let same = (==_iff (p i) (q j)).0 x in
          (λ h. ground (arith, rest), λ h. ground (arith, rest))
    ]

-- Bytes in front of the written ones stay.
fill_zeros-before : (n : ℕ) (s : Memory) (i k : ℕ) → k < i → fill_zeros n s i k ≡ s k
unfolding fill_zeros
fill_zeros-before zero s i k h = refl
fill_zeros-before (suc n) s i k h =
    fill_zeros-before n (update s i 0) (i + 1) k (omega arith) ∙ ground arith

strncpy-before :
    (n : ℕ) (s : Memory) (i : ℕ) (t : Memory) (j k : ℕ) → k < i → strncpy n s i t j k ≡ s k
unfolding strncpy
strncpy-before zero s i t j k h = refl
strncpy-before (suc n) s i t j k h =
    let s' = update s i (t j) in
    let on = strncpy-before n s' (i + 1) t (j + 1) k (omega arith) in
    let off = fill_zeros-before n s' (i + 1) k (omega arith) in
    let same : s' k ≡ s k = ground arith in ground (arith, on, off)

safe_loop-before :
    (n : ℕ) (s : Memory) (i : ℕ) (t : Memory) (j k : ℕ) → k < i → safe_loop n s i t j k ≡ s k
unfolding safe_loop
safe_loop-before zero s i t j k h = ground arith
safe_loop-before (suc n) s i t j k h =
    let on = safe_loop-before n (update s i (t j)) (i + 1) t (j + 1) k (omega arith) in
    ground (arith, on)

text_at :
    (n : ℕ) (p : Memory) (i c : ℕ)
    → p i ≡ c
    → text (suc n) p i ≡ (if c == 0 then [] else c ∷ text n p (i + 1))
unfolding text
text_at n p i c e = rw e refl

-- The two ways on from a written byte, in one.
written :
    (n n' : ℕ) (on off t : Memory) (i j c : ℕ)
    → on i ≡ c
    → off i ≡ c
    → text n on (i + 1) ≡ text n' t (j + 1)
    → t j ≡ c
    → text (suc n) (if c != 0 then on else off) i ≡ text (suc n') t j
written n n' on off t i j c a b rest e = elim (Bool-cases (c == 0)) [
  | inl z ↦
      let test : (c != 0) ≡ false = !=_not c 0 ∙ ap not z in
      let left : text (suc n) off i ≡ [] = text_at n off i c b ∙ rw z refl in
      let right : text (suc n') t j ≡ [] = text_at n' t j c e ∙ rw z refl in
      rw test (left ∙ sym right)
  | inr z ↦
      let test : (c != 0) ≡ true = !=_not c 0 ∙ ap not z in
      let left : text (suc n) on i ≡ c ∷ text n on (i + 1) = text_at n on i c a ∙ rw z refl in
      let right : text (suc n') t j ≡ c ∷ text n' t (j + 1) = text_at n' t j c e ∙ rw z refl in
      rw test (left ∙ ap (λ l. c ∷ l) rest ∙ sym right)
]

-- strncpy leaves in the `n` bytes the string that the `n` bytes of its source hold.
pub text-strncpy :
    (n : ℕ) (s : Memory) (i : ℕ) (t : Memory) (j : ℕ) → text n (strncpy n s i t j) i ≡ text n t j
unfolding strncpy text
text-strncpy zero s i t j = refl
text-strncpy (suc n) s i t j =
    let s' = update s i (t j) in
    let new : s' i ≡ t j = ground arith in
    written n n (strncpy n s' (i + 1) t (j + 1)) (fill_zeros n s' (i + 1)) t i j (t j)
      (strncpy-before n s' (i + 1) t (j + 1) i (omega arith) ∙ new)
      (fill_zeros-before n s' (i + 1) i (omega arith) ∙ new) (text-strncpy n s' (i + 1) t (j + 1))
      refl

safe_loop-text :
    (n k : ℕ) (s : Memory) (i : ℕ) (t : Memory) (j : ℕ)
    → n < k
    → text k (safe_loop n s i t j) i ≡ text n t j
unfolding safe_loop text
safe_loop-text n zero s i t j h = absurd (omega arith)
safe_loop-text zero (suc k) s i t j h = ground arith
safe_loop-text (suc n) (suc k) s i t j h =
    let s' = update s i (t j) in
    let new : s' i ≡ t j = ground arith in
    written k n (safe_loop n s' (i + 1) t (j + 1)) (update s' (i + 1) 0) t i j (t j)
      (safe_loop-before n s' (i + 1) t (j + 1) i (omega arith) ∙ new) (ground arith)
      (safe_loop-text n k s' (i + 1) t (j + 1) (omega arith)) refl

-- safestrcpy with room for `n + 1` bytes leaves the string of the first `n` bytes of its source, and
-- ends it inside its room: a reader that looks at more bytes sees no more.
pub text-safestrcpy :
    (n k : ℕ) (s : Memory) (i : ℕ) (t : Memory) (j : ℕ)
    → n < k
    → text k (safestrcpy (suc n) s i t j) i ≡ text n t j
unfolding safestrcpy
text-safestrcpy n k s i t j h = safe_loop-text n k s i t j h

-- After strncpy of a name, strncmp finds the copy equal to it.
pub strncmp-strncpy :
    (n : ℕ) (s : Memory) (i : ℕ) (t : Memory) (j : ℕ) → strncmp n (strncpy n s i t j) i t j ≡ pos 0
strncmp-strncpy n s i t j = (strncmp-text n (strncpy n s i t j) i t j).1 (text-strncpy n s i t j)
