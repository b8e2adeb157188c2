-- ===== src/Locks/Nesting.antt =====
-- pushcli and popcli nest.
use hyu_ele.Base.{
  ℕ, zero, suc, ◌+◌, ◌-◌, ◌<◌, ◌≡◌, refl, sym, ◌∙◌, true, false, ◌==◌, arith, Bool-cases, inl, inr,
  ==_iff,
}
use hyu_ele.Base.Run.{M, ok, pure, ◌>>◌}
use hyu_ele.Locks.{Cpu, pushcli, popcli}

-- `n` calls of pushcli, and as many of popcli.
unfoldable pub nested : ℕ → M Cpu (Unit {0})
nested zero = pure tt
nested (suc n) = pushcli >> nested n >> popcli

-- Inside a section interrupts are off.
abbrev pub Masked : Cpu → Type 0
Masked c = 0 < c.ncli → c.interrupts ≡ false

pushed :
    (c : Cpu)
    → (c' : Cpu) × (pushcli c ≡ ok (tt, c'))
      × (c'.ncli ≡ c.ncli + 1)
      × (c'.interrupts ≡ false)
      × (c.ncli ≡ 0 → c'.intena ≡ c.interrupts)
      × (0 < c.ncli → c'.intena ≡ c.intena)
unfolding pushcli
pushed c = elim (Bool-cases (c.ncli == 0)) [
  | inl e ↦ (
    record { interrupts = false; ncli = c.ncli + 1; intena = c.interrupts },
    rw e refl,
    refl,
    refl,
    λ _. refl,
    λ h. absurd (ground arith),
  )
  | inr e ↦ (
    record { interrupts = false; ncli = c.ncli + 1; intena = c.intena },
    rw e refl,
    refl,
    refl,
    λ h. absurd (ground arith),
    λ _. refl,
  )
]

popped :
    (c : Cpu) (n : ℕ)
    → c.ncli ≡ suc n
    → c.interrupts ≡ false
    → (c' : Cpu) × (popcli c ≡ ok (tt, c'))
      × (c'.ncli ≡ n)
      × (c'.intena ≡ c.intena)
      × (n ≡ 0 → c'.interrupts ≡ c.intena)
      × (0 < n → c'.interrupts ≡ false)
unfolding popcli
popped c n e h =
    let some : (c.ncli == 0) ≡ false = ground arith in
    let less : c.ncli - 1 ≡ n = omega arith in
    elim (Bool-cases (n == 0)) [
      | inl z ↦ elim (Bool-cases c.intena) [
        | inl on ↦ (
          record { interrupts = true; ncli = n; intena = c.intena },
          rw (h, some, less, z, on) refl,
          refl,
          refl,
          λ _. sym on,
          λ q. absurd (ground arith),
        )
        | inr off ↦ (
          record { interrupts = c.interrupts; ncli = n; intena = c.intena },
          rw (h, some, less, z, off) refl,
          refl,
          refl,
          λ _. h ∙ sym off,
          λ q. absurd (ground arith),
        )
      ]
      | inr z ↦ (
        record { interrupts = c.interrupts; ncli = n; intena = c.intena },
        rw (h, some, less, z) refl,
        refl,
        refl,
        λ q. absurd (ground arith),
        λ _. h,
      )
    ]

-- Where interrupts are off inside every section, `n` calls of pushcli and as many of popcli do not
-- panic, and leave the interrupt flag and the depth as they were.
pub nested-restores :
    (n : ℕ) (c : Cpu)
    → Masked c
    → (c' : Cpu) × (nested n c ≡ ok (tt, c'))
      × (c'.interrupts ≡ c.interrupts)
      × (c'.ncli ≡ c.ncli)
      × (0 < c.ncli → c'.intena ≡ c.intena)
unfolding nested
nested-restores zero c m = (c, refl, refl, refl, λ _. refl)
nested-restores (suc n) c m =
    let (c1, run1, deep1, off1, first1, later1) = pushed c in
    let (c2, run2, same2, deep2, kept2) = nested-restores n c1 (λ _. off1) in
    let (c3, run3, deep3, kept3, last3, inner3) =
      popped c2 c.ncli (omega (arith, deep1, deep2)) (same2 ∙ off1) in
    let whole : c2.intena ≡ c1.intena = kept2 (omega (arith, deep1)) in
    (
      c3,
      rw (run1, run2) run3,
      elim (Bool-cases (c.ncli == 0)) [
        | inl z ↦ let e = (==_iff c.ncli 0).0 z in last3 e ∙ whole ∙ first1 e
        | inr z ↦ let e : 0 < c.ncli = ground arith in inner3 e ∙ sym (m e)
      ],
      deep3,
      λ e. kept3 ∙ whole ∙ later1 e,
    )
