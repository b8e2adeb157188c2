-- ===== src/Log/Copy.antt =====
-- The two copying loops of log.c: what they write, and what they leave on the device.
use hyu_ele.Base.{
  ℕ, zero, suc, ◌+◌, ◌<◌, ◌≡◌, ◌≢◌, refl, sym, ap, ◌∙◌, ◌++◌, arith, ==_iff, ==_of_ne, ℕ_discrete,
}
use mathlib.Core.List.{append-nil, append_assoc}
use hyu_ele.Log.{Log, copy_block, install_loop, write_log_loop}
use hyu_ele.Log.Replay.{replay, log_writes, home_writes}

-- The home blocks lie outside the `n` blocks of the log that follow `start`.
abbrev pub Apart : ℕ → ℕ → (ℕ → ℕ) → Type 0
Apart start n block = (t u : ℕ) → t < n → u < n → block t ≢ start + u + 1

-- The state of the log apart from what the loops change.
pub record Kept (s s' : Log) : Type 0 where
  pub lh : s'.lh ≡ s.lh
  pub start : s'.start ≡ s.start
  pub header : s'.dev.header ≡ s.dev.header

-- What the loop of write_log has done for the first `m` blocks, `g` being the contents to be logged.
pub record Logged (g : ℕ → ℕ) (m : ℕ) (s : Log) : Type 0 where
  pub on_disk : (t : ℕ) → t < m → s.dev.block (s.start + t + 1) ≡ g (s.lh.block t)
  pub in_view : (t : ℕ) → t < m → s.view (s.start + t + 1) ≡ g (s.lh.block t)

module _ (g : ℕ → ℕ) (n : ℕ) where
  pub write_log_loop-Logged :
      (k tail : ℕ) (s : Log)
      → tail + k ≡ n
      → Apart s.start n s.lh.block
      → ((t : ℕ) → t < n → s.view (s.lh.block t) ≡ g (s.lh.block t))
      → Logged g tail s
      → let s' = write_log_loop k tail s in
        Kept s s'
        × Logged g n s'
        × ((b : ℕ) → ((t : ℕ) → t < n → b ≢ s.start + t + 1) → s'.dev.block b ≡ s.dev.block b)
        × (s'.dev ≡ replay (log_writes k tail s.start s.lh.block g) s.dev)
        × (s'.trace ≡ s.trace ++ log_writes k tail s.start s.lh.block g)
  unfolding write_log_loop copy_block
  write_log_loop-Logged zero tail s e a v l =
      let e' : tail ≡ n = omega arith in
      (
        record { lh = refl; start = refl; header = refl },
        rw e' at l,
        (λ b h. refl),
        refl,
        sym (append-nil s.trace),
      )
  write_log_loop-Logged (suc k) tail s e a v l =
      let s1 = copy_block (s.start + tail + 1) (s.lh.block tail) s in
      let (kept, logged, rest, dev, trace) =
        write_log_loop-Logged k (tail + 1) s1 (omega arith) a
          (λ t lt.
            rw (==_of_ne (s.lh.block t) (s.start + tail + 1) (a t tail lt (omega arith))) (v t lt))
          (record {
            on_disk = λ t lt. elim (ℕ_discrete t tail) [
              | yes q ↦
                  rw (q, (==_iff (s.start + tail + 1) (s.start + tail + 1)).1 refl)
                    (v tail (omega arith))
              | no q ↦
                  rw (==_of_ne (s.start + t + 1) (s.start + tail + 1) (omega arith))
                    (l.on_disk t (omega arith))
            ];
            in_view = λ t lt. elim (ℕ_discrete t tail) [
              | yes q ↦
                  rw (q, (==_iff (s.start + tail + 1) (s.start + tail + 1)).1 refl)
                    (v tail (omega arith))
              | no q ↦
                  rw (==_of_ne (s.start + t + 1) (s.start + tail + 1) (omega arith))
                    (l.in_view t (omega arith))
            ];
          }) in
      (
        record { lh = kept.lh; start = kept.start; header = kept.header },
        logged,
        (λ b h. rest b h ∙ rw (==_of_ne b (s.start + tail + 1) (h tail (omega arith)))),
        rw (← v tail (omega arith)) dev,
        rw (← v tail (omega arith)) (trace ∙ append_assoc s.trace _ _),
      )

  pub install_loop-Installed :
      (k tail : ℕ) (s : Log)
      → tail + k ≡ n
      → Apart s.start n s.lh.block
      → ((t : ℕ) → t < n → s.view (s.start + t + 1) ≡ g (s.lh.block t))
      → ((t : ℕ) → t < tail → s.dev.block (s.lh.block t) ≡ g (s.lh.block t))
      → let s' = install_loop k tail s in
        Kept s s'
        × ((t : ℕ) → t < n → s'.dev.block (s.lh.block t) ≡ g (s.lh.block t))
        × ((b : ℕ) → ((t : ℕ) → t < n → b ≢ s.lh.block t) → s'.dev.block b ≡ s.dev.block b)
        × (s'.dev ≡ replay (home_writes k tail s.lh.block (λ t. g (s.lh.block t))) s.dev)
        × (s'.trace ≡ s.trace ++ home_writes k tail s.lh.block (λ t. g (s.lh.block t)))
  unfolding install_loop copy_block
  install_loop-Installed zero tail s e a v l =
      let e' : tail ≡ n = omega arith in
      (
        record { lh = refl; start = refl; header = refl },
        (λ t lt. l t (omega arith)),
        (λ b h. refl),
        refl,
        sym (append-nil s.trace),
      )
  install_loop-Installed (suc k) tail s e a v l =
      let home = s.lh.block tail in
      let s1 = copy_block home (s.start + tail + 1) s in
      let got = v tail (omega arith) in
      let (kept, done, rest, dev, trace) =
        install_loop-Installed k (tail + 1) s1 (omega arith) a
          (λ t lt.
            rw (==_of_ne (s.start + t + 1) home (λ q. a tail t (omega arith) lt (sym q))) (v t lt))
          (λ t lt. elim (ℕ_discrete (s.lh.block t) home) [
            | yes q ↦ rw (q, (==_iff home home).1 refl) got
            | no q ↦ rw (==_of_ne (s.lh.block t) home q) (l t (install_before t lt q))
          ]) in
      (
        record { lh = kept.lh; start = kept.start; header = kept.header },
        done,
        (λ b h. rest b h ∙ rw (==_of_ne b home (h tail (omega arith)))),
        rw (← got) dev,
        rw (← got) (trace ∙ append_assoc s.trace _ _),
      )
    where
      install_before : (t : ℕ) → t < tail + 1 → s.lh.block t ≢ s.lh.block tail → t < tail
      install_before t lt q = elim (ℕ_discrete t tail) [
        | yes e ↦ absurd (q (ap s.lh.block e))
        | no ne ↦ omega arith
      ]
