-- ===== src/Fs/Bytes.antt =====
-- Single bits of a byte, and the four bytes of a word.
use hyu_ele.Base.{ℕ, zero, suc, ◌+◌, ◌-◌, ◌<◌, ◌≡◌, ◌≢◌, true, false, ◌==◌, arith, if◌then◌else◌}
use hyu_ele.Fs.{has_bit, mask, word_of, put_word}

-- A property of the numbers below eight.
below_eight :
    (P : ℕ → Type 0) → P 0 → P 1 → P 2 → P 3 → P 4 → P 5 → P 6 → P 7 → (k : ℕ) → k < 8 → P k
below_eight P a b c d e f g h zero lt = a
below_eight P a b c d e f g h (suc zero) lt = b
below_eight P a b c d e f g h (suc (suc zero)) lt = c
below_eight P a b c d e f g h (suc (suc (suc zero))) lt = d
below_eight P a b c d e f g h (suc (suc (suc (suc zero)))) lt = e
below_eight P a b c d e f g h (suc (suc (suc (suc (suc zero))))) lt = f
below_eight P a b c d e f g h (suc (suc (suc (suc (suc (suc zero)))))) lt = g
below_eight P a b c d e f g h (suc (suc (suc (suc (suc (suc (suc zero))))))) lt = h
below_eight P a b c d e f g h (suc (suc (suc (suc (suc (suc (suc (suc n)))))))) lt =
    absurd (omega arith)

-- Adding the mask of a clear bit sets it, and no other; taking the mask of a set bit off clears it.
pub add_mask :
    (k : ℕ)
    → k < 8
    → (byte : ℕ) → has_bit byte k ≡ false
    → (j : ℕ) → j < 8
    → has_bit (byte + mask k) j ≡ (if j == k then true else has_bit byte j)
add_mask =
    below_eight _
      (λ byte h.
        below_eight _ (ground arith) (ground arith) (ground arith) (ground arith) (ground arith)
          (ground arith) (ground arith) (ground arith))
      (λ byte h.
        below_eight _ (ground arith) (ground arith) (ground arith) (ground arith) (ground arith)
          (ground arith) (ground arith) (ground arith))
      (λ byte h.
        below_eight _ (ground arith) (ground arith) (ground arith) (ground arith) (ground arith)
          (ground arith) (ground arith) (ground arith))
      (λ byte h.
        below_eight _ (ground arith) (ground arith) (ground arith) (ground arith) (ground arith)
          (ground arith) (ground arith) (ground arith))
      (λ byte h.
        below_eight _ (ground arith) (ground arith) (ground arith) (ground arith) (ground arith)
          (ground arith) (ground arith) (ground arith))
      (λ byte h.
        below_eight _ (ground arith) (ground arith) (ground arith) (ground arith) (ground arith)
          (ground arith) (ground arith) (ground arith))
      (λ byte h.
        below_eight _ (ground arith) (ground arith) (ground arith) (ground arith) (ground arith)
          (ground arith) (ground arith) (ground arith))
      (λ byte h.
        below_eight _ (ground arith) (ground arith) (ground arith) (ground arith) (ground arith)
          (ground arith) (ground arith) (ground arith))

pub sub_mask :
    (k : ℕ)
    → k < 8
    → (byte : ℕ) → has_bit byte k ≡ true
    → (j : ℕ) → j < 8
    → has_bit (byte - mask k) j ≡ (if j == k then false else has_bit byte j)
sub_mask =
    below_eight _
      (λ byte h.
        below_eight _ (ground arith) (ground arith) (ground arith) (ground arith) (ground arith)
          (ground arith) (ground arith) (ground arith))
      (λ byte h.
        below_eight _ (ground arith) (ground arith) (ground arith) (ground arith) (ground arith)
          (ground arith) (ground arith) (ground arith))
      (λ byte h.
        below_eight _ (ground arith) (ground arith) (ground arith) (ground arith) (ground arith)
          (ground arith) (ground arith) (ground arith))
      (λ byte h.
        below_eight _ (ground arith) (ground arith) (ground arith) (ground arith) (ground arith)
          (ground arith) (ground arith) (ground arith))
      (λ byte h.
        below_eight _ (ground arith) (ground arith) (ground arith) (ground arith) (ground arith)
          (ground arith) (ground arith) (ground arith))
      (λ byte h.
        below_eight _ (ground arith) (ground arith) (ground arith) (ground arith) (ground arith)
          (ground arith) (ground arith) (ground arith))
      (λ byte h.
        below_eight _ (ground arith) (ground arith) (ground arith) (ground arith) (ground arith)
          (ground arith) (ground arith) (ground arith))
      (λ byte h.
        below_eight _ (ground arith) (ground arith) (ground arith) (ground arith) (ground arith)
          (ground arith) (ground arith) (ground arith))

-- A word of 32 bits is read back as it was put, and the other words stay.
pub word_of-put_word : (d : ℕ → ℕ) (i v : ℕ) → v < 4294967296 → word_of (put_word d i v) i ≡ v
word_of-put_word d i v h = ground arith

pub word_of-put_word_other :
    (d : ℕ → ℕ) (i v j : ℕ) → j ≢ i → word_of (put_word d i v) j ≡ word_of d j
word_of-put_word_other d i v j h = ground arith
