-- ===== src/Locks/Progress.antt =====
-- A processor that spins can get the lock.
use mathlib.Core.Path.{subst}
use hyu_ele.Base.{ℕ, ◌≡◌, ◌≢◌, refl, sym, ◌∙◌, ap, true, some, none, inl, inr}
use hyu_ele.Locks.Spin.{
  Spinlock, Pc, outside, checking, spinning, taken, inside, looking, clearing, unlocking, panicked,
  Move, xchg_take, set_cpu, still_locked, mine, clear_cpu, unlock, System, start, after, Runs, stay,
  step,
}
use hyu_ele.Locks.Exclusion.{owns, at_self, at_other, recorded, Runs-Inv}

Runs-trans : (s t u : System) → Runs s t → Runs t u → Runs s u
Runs-trans s t u r stay = r
Runs-trans s t u r (step {t = v} r' a m) = step (Runs-trans s t v r r') a m

-- Processor `o` can give the lock back while the others stand still.
record Frees (s : System) (o : ℕ) : Type 0 where
  last : System
  runs : Runs s last
  unlocked : last.lock.locked ≡ 0
  others : (b : ℕ) → b ≢ o → last.at b ≡ s.at b

module _ (s : System) (o : ℕ) where
  first_step :
      (pc : Pc) (l : Spinlock) (pc' : Pc)
      → s.at o ≡ pc
      → Move o s.lock pc l pc'
      → Runs s (after s o l pc')
  first_step pc l pc' e m = step stay o (subst (λ c. Move o s.lock c l pc') (sym e) m)

  then-Frees :
      (pc : Pc) (l : Spinlock) (pc' : Pc)
      → s.at o ≡ pc
      → Move o s.lock pc l pc'
      → Frees (after s o l pc') o
      → Frees s o
  then-Frees pc l pc' e m f = record {
    last = f.last;
    runs = Runs-trans s (after s o l pc') f.last (first_step pc l pc' e m) f.runs;
    unlocked = f.unlocked;
    others = λ b n. f.others b n ∙ at_other s o l pc' b n;
  }

  unlocking-Frees : s.at o ≡ unlocking → Frees s o
  unlocking-Frees e = record {
    last = after s o (record s.lock { locked = 0 }) outside;
    runs = first_step unlocking (record s.lock { locked = 0 }) outside e unlock;
    unlocked = refl;
    others = at_other s o (record s.lock { locked = 0 }) outside;
  }

clearing-Frees : (s : System) (o : ℕ) → s.at o ≡ clearing → Frees s o
clearing-Frees s o e =
    let l : Spinlock = record s.lock { cpu = none } in
    then-Frees s o clearing l unlocking e clear_cpu
      (unlocking-Frees (after s o l unlocking) o (at_self s o l unlocking))

looking-Frees : (s : System) (o : ℕ) → s.at o ≡ looking → s.lock.cpu ≡ some o → Frees s o
looking-Frees s o e c =
    then-Frees s o looking s.lock clearing e (mine c)
      (clearing-Frees (after s o s.lock clearing) o (at_self s o s.lock clearing))

inside-Frees :
    (s : System) (o : ℕ) → s.at o ≡ inside → s.lock.locked ≢ 0 → s.lock.cpu ≡ some o → Frees s o
inside-Frees s o e z c =
    then-Frees s o inside s.lock looking e (still_locked z)
      (looking-Frees (after s o s.lock looking) o (at_self s o s.lock looking) c)

taken-Frees : (s : System) (o : ℕ) → s.at o ≡ taken → s.lock.locked ≢ 0 → Frees s o
taken-Frees s o e z =
    let l : Spinlock = record s.lock { cpu = some o } in
    then-Frees s o taken l inside e set_cpu
      (inside-Frees (after s o l inside) o (at_self s o l inside) z refl)

Held-Frees :
    (s : System) (o : ℕ) (pc : Pc)
    → s.at o ≡ pc
    → owns pc ≡ true
    → s.lock.locked ≢ 0
    → s.lock.cpu ≡ recorded o pc
    → Frees s o
Held-Frees s o taken e w z c = taken-Frees s o e z
Held-Frees s o inside e w z c = inside-Frees s o e z c
Held-Frees s o looking e w z c = looking-Frees s o e c
Held-Frees s o clearing e w z c = clearing-Frees s o e
Held-Frees s o unlocking e w z c = unlocking-Frees s o e
Held-Frees s o outside e w z c = absurd (cc w)
Held-Frees s o checking e w z c = absurd (cc w)
Held-Frees s o spinning e w z c = absurd (cc w)
Held-Frees s o panicked e w z c = absurd (cc w)

take_free :
    (s : System) (b : ℕ)
    → s.at b ≡ spinning
    → s.lock.locked ≡ 0
    → (s' : System) × Runs s s' × (s'.at b ≡ taken)
take_free s b e z =
    let l : Spinlock = record s.lock { locked = 1 } in
    (after s b l taken, first_step s b spinning l taken e (xchg_take z), at_self s b l taken)

-- From every state that the processors come to, there are further steps by which a processor that spins
-- takes the lock: no order of steps leads to a deadlock.
pub runs-progress :
    (s : System)
    → Runs start s
    → (b : ℕ) → s.at b ≡ spinning
    → (s' : System) × Runs s s' × (s'.at b ≡ taken)
runs-progress s r b e = elim (Runs-Inv s r) [
  | inl f ↦ take_free s b e f.unlocked
  | inr (o, h) ↦
      let f = Held-Frees s o (s.at o) refl h.owner h.locked h.field_cpu in
      let other : b ≢ o =
        (λ x. let w = h.owner in cc (w, ap owns (sym (ap (λ c. s.at c) x) ∙ e))) in
      let (s', r', t) = take_free f.last b (f.others b other ∙ e) f.unlocked in
      (s', Runs-trans s f.last s' f.runs r', t)
]
