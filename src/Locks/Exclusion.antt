-- ===== src/Locks/Exclusion.antt =====
-- Mutual exclusion and progress of the spin lock.
use hyu_ele.Base.{
  ℕ, ◌≡◌, ◌≢◌, refl, sym, ◌∙◌, ap, Bool, true, false, ==_iff, ==_of_ne, Option, some, none, ◌⊎◌,
  inl, inr, ℕ_discrete,
}
use hyu_ele.Locks.Spin.{
  Spinlock, Pc, outside, checking, spinning, taken, inside, looking, clearing, unlocking, panicked,
  Move, see_free, see_locked, not_mine, acquire_panic, xchg_fail, xchg_take, set_cpu, still_locked,
  free_panic, mine, release_panic, clear_cpu, unlock, System, start, after, Runs, stay, step,
}

-- From the xchg that takes the lock to the store that gives it back.
abbrev pub owns : Pc → Bool
owns taken = true
owns inside = true
owns looking = true
owns clearing = true
owns unlocking = true
owns _ = false

abbrev pub waits : Pc → Bool
waits outside = true
waits checking = true
waits spinning = true
waits _ = false

-- The `cpu` field while processor `me` owns the lock.
abbrev pub recorded : ℕ → Pc → Option ℕ
recorded me inside = some me
recorded me looking = some me
recorded me clearing = some me
recorded me _ = none

pub record Held (s : System) (o : ℕ) : Type 0 where
  pub locked : s.lock.locked ≢ 0
  pub owner : owns (s.at o) ≡ true
  pub field_cpu : s.lock.cpu ≡ recorded o (s.at o)
  pub others : (a : ℕ) → a ≢ o → waits (s.at a) ≡ true

pub record Free (s : System) : Type 0 where
  pub unlocked : s.lock.locked ≡ 0
  pub no_cpu : s.lock.cpu ≡ none
  pub all : (a : ℕ) → waits (s.at a) ≡ true

abbrev pub Inv : System → Type 0
Inv s = Free s ⊎ ((o : ℕ) × Held s o)

-- A step of a processor that waits, while the lock is free.
free-Move :
    {a : ℕ} {l l' : Spinlock} {pc pc' : Pc}
    → Move a l pc l' pc'
    → waits pc ≡ true
    → l.locked ≡ 0
    → l.cpu ≡ none
    → ((waits pc' ≡ true) × (l'.locked ≡ 0) × (l'.cpu ≡ none))
      ⊎ ((pc' ≡ taken) × (l'.locked ≢ 0) × (l'.cpu ≡ none))
free-Move (see_free _) w z n = inl (refl, z, n)
free-Move (see_locked h) w z n = absurd (h z)
free-Move (not_mine _) w z n = inl (refl, z, n)
free-Move (acquire_panic h) w z n = absurd (cc (h, n))
free-Move (xchg_fail h) w z n = absurd (h z)
free-Move (xchg_take _) w z n = inr (refl, (λ e. cc e), n)
free-Move set_cpu w z n = absurd (cc w)
free-Move (still_locked _) w z n = absurd (cc w)
free-Move (free_panic _) w z n = absurd (cc w)
free-Move (mine _) w z n = absurd (cc w)
free-Move (release_panic _) w z n = absurd (cc w)
free-Move clear_cpu w z n = absurd (cc w)
free-Move unlock w z n = absurd (cc w)

-- A step of a processor that waits, while another one owns the lock.
waiting-Move :
    {a : ℕ} {l l' : Spinlock} {pc pc' : Pc}
    → Move a l pc l' pc'
    → waits pc ≡ true
    → l.locked ≢ 0
    → l.cpu ≢ some a
    → (waits pc' ≡ true) × (l'.locked ≢ 0) × (l'.cpu ≡ l.cpu)
waiting-Move (see_free h) w z n = absurd (z h)
waiting-Move (see_locked _) w z n = (refl, z, refl)
waiting-Move (not_mine _) w z n = (refl, z, refl)
waiting-Move (acquire_panic h) w z n = absurd (n h)
waiting-Move (xchg_fail _) w z n = (refl, (λ e. cc e), refl)
waiting-Move (xchg_take h) w z n = absurd (z h)
waiting-Move set_cpu w z n = absurd (cc w)
waiting-Move (still_locked _) w z n = absurd (cc w)
waiting-Move (free_panic _) w z n = absurd (cc w)
waiting-Move (mine _) w z n = absurd (cc w)
waiting-Move (release_panic _) w z n = absurd (cc w)
waiting-Move clear_cpu w z n = absurd (cc w)
waiting-Move unlock w z n = absurd (cc w)

-- A step of the owner.
owner-Move :
    {a : ℕ} {l l' : Spinlock} {pc pc' : Pc}
    → Move a l pc l' pc'
    → owns pc ≡ true
    → l.locked ≢ 0
    → l.cpu ≡ recorded a pc
    → ((owns pc' ≡ true) × (l'.locked ≢ 0) × (l'.cpu ≡ recorded a pc'))
      ⊎ ((waits pc' ≡ true) × (l'.locked ≡ 0) × (l'.cpu ≡ none))
owner-Move (see_free _) o z n = absurd (cc o)
owner-Move (see_locked _) o z n = absurd (cc o)
owner-Move (not_mine _) o z n = absurd (cc o)
owner-Move (acquire_panic _) o z n = absurd (cc o)
owner-Move (xchg_fail _) o z n = absurd (cc o)
owner-Move (xchg_take _) o z n = absurd (cc o)
owner-Move set_cpu o z n = inl (refl, z, refl)
owner-Move (still_locked _) o z n = inl (refl, z, n)
owner-Move (free_panic h) o z n = absurd (z h)
owner-Move (mine _) o z n = inl (refl, z, n)
owner-Move (release_panic h) o z n = absurd (h n)
owner-Move clear_cpu o z n = inl (refl, z, refl)
owner-Move unlock o z n = inr (refl, refl, n)

recorded_owner : (o a : ℕ) (pc : Pc) → recorded o pc ≡ some a → a ≡ o
recorded_owner o a inside e = cc e
recorded_owner o a looking e = cc e
recorded_owner o a clearing e = cc e
recorded_owner o a outside e = absurd (cc e)
recorded_owner o a checking e = absurd (cc e)
recorded_owner o a spinning e = absurd (cc e)
recorded_owner o a taken e = absurd (cc e)
recorded_owner o a unlocking e = absurd (cc e)
recorded_owner o a panicked e = absurd (cc e)

-- The processors other than `b` wait, after a step of `a` too.
module _ (s : System) (a : ℕ) (l : Spinlock) (pc : Pc) where
  pub at_self : (after s a l pc).at a ≡ pc
  at_self = rw ((==_iff a a).1 refl) refl

  pub at_other : (b : ℕ) → b ≢ a → (after s a l pc).at b ≡ s.at b
  at_other b n = rw (==_of_ne b a n) refl

  all_wait :
      waits pc ≡ true
      → (b : ℕ) → (b ≢ a → waits (s.at b) ≡ true)
      → waits ((after s a l pc).at b) ≡ true
  all_wait w b h = elim (ℕ_discrete b a) [
    | yes e ↦ ap (λ c. waits ((after s a l pc).at c)) e ∙ ap waits at_self ∙ w
    | no n ↦ ap waits (at_other b n) ∙ h n
  ]

Inv-step :
    (s : System) (a : ℕ) (l : Spinlock) (pc : Pc)
    → Move a s.lock (s.at a) l pc
    → Inv s
    → Inv (after s a l pc)
Inv-step s a l pc m (inl f) = elim (free-Move m (f.all a) f.unlocked f.no_cpu) [
  | inl (w, z, n) ↦
      inl (record { unlocked = z; no_cpu = n; all = λ b. all_wait s a l pc w b (λ _. f.all b) })
  | inr (e, z, n) ↦ inr (
    a,
    record {
      locked = z;
      owner = ap owns (at_self s a l pc ∙ e);
      field_cpu = n ∙ sym (ap (recorded a) (at_self s a l pc ∙ e));
      others = λ b d. ap waits (at_other s a l pc b d) ∙ f.all b;
    },
  )
]
Inv-step s a l pc m (inr (o, h)) = elim (ℕ_discrete a o) [
  | yes e ↦
      elim (owner-Move m (rw e h.owner) h.locked
        (h.field_cpu ∙ ap (λ x. recorded x (s.at x)) (sym e))) [
          | inl (w, z, n) ↦ inr (
            a,
            record {
              locked = z;
              owner = ap owns (at_self s a l pc) ∙ w;
              field_cpu = n ∙ sym (ap (recorded a) (at_self s a l pc));
              others = λ b d. ap waits (at_other s a l pc b d) ∙ h.others b (λ x. d (x ∙ sym e));
            },
          )
          | inr (w, z, n) ↦ inl (record {
            unlocked = z;
            no_cpu = n;
            all = λ b. all_wait s a l pc w b (λ d. h.others b (λ x. d (x ∙ sym e)));
          })
        ]
  | no d ↦
      let (w, z, n) =
        waiting-Move m (h.others a d) h.locked
          (λ e. d (recorded_owner o a (s.at o) (sym h.field_cpu ∙ e))) in
      let stays = at_other s a l pc o (λ x. d (sym x)) in
      inr (
        o,
        record {
          locked = z;
          owner = ap owns stays ∙ h.owner;
          field_cpu = n ∙ h.field_cpu ∙ sym (ap (recorded o) stays);
          others = λ b x. all_wait s a l pc w b (λ _. h.others b x);
        },
      )
]

pub Runs-Inv : (s : System) → Runs start s → Inv s
Runs-Inv s stay = inl (record { unlocked = refl; no_cpu = refl; all = λ a. refl })
Runs-Inv s (step {t} {l} {pc} r a m) = Inv-step t a l pc m (Runs-Inv t r)

waits_own : (pc : Pc) → waits pc ≡ true → owns pc ≡ false
waits_own outside w = refl
waits_own checking w = refl
waits_own spinning w = refl
waits_own taken w = absurd (cc w)
waits_own inside w = absurd (cc w)
waits_own looking w = absurd (cc w)
waits_own clearing w = absurd (cc w)
waits_own unlocking w = absurd (cc w)
waits_own panicked w = absurd (cc w)

owner_is : (s : System) (o a : ℕ) → Held s o → owns (s.at a) ≡ true → a ≡ o
owner_is s o a h e = elim (ℕ_discrete a o) [
  | yes x ↦ x
  | no n ↦ let idle = waits_own (s.at a) (h.others a n) in absurd (cc (e, idle))
]

-- However the steps of the processors are ordered: at most one processor is between its xchg that took
-- the lock and its store that gives it back, `locked` is set all that time, and no call of acquire or
-- release panics.
pub runs-exclude :
    (s : System)
    → Runs start s
    → ((a b : ℕ) → owns (s.at a) ≡ true → owns (s.at b) ≡ true → a ≡ b)
      × ((a : ℕ) → owns (s.at a) ≡ true → s.lock.locked ≢ 0)
      × ((a : ℕ) → s.at a ≢ panicked)
runs-exclude s r = elim (Runs-Inv s r) [
  | inl f ↦ (
    (λ a b o _. let idle = waits_own (s.at a) (f.all a) in absurd (cc (o, idle))),
    (λ a o. let idle = waits_own (s.at a) (f.all a) in absurd (cc (o, idle))),
    λ a e. let w = f.all a in cc (e, w, ap waits e),
  )
  | inr (o, h) ↦ (
    (λ a b x y. owner_is s o a h x ∙ sym (owner_is s o b h y)),
    (λ a x. h.locked),
    λ a e. elim (ℕ_discrete a o) [
      | yes x ↦ let w = h.owner in cc (w, ap owns (sym (ap (λ c. s.at c) x) ∙ e))
      | no n ↦ let w = h.others a n in cc (w, ap waits e)
    ],
  )
]
