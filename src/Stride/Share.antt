-- ===== src/Stride/Share.antt =====
-- set_cpu_share called by a process that is scheduled by stride already.
use hyu_ele.Base.{ℕ, ◌≡◌, refl, false, true, Bool-cases, ==_iff, inl, inr, ◌⊎◌, ◌||◌, arith, update}
use hyu_ele.Base.Int.{ℤ, pos, ◌+ℤ◌, ◌-ℤ◌, ◌≤ℤ◌, leb_ℤ, ltb_ℤ, int_laws}
use hyu_ele.Base.Run.{ok}
use hyu_ele.Ptable.{Ptable, reserve, is_mlfq}
use hyu_ele.Threads.{main_thread}
use hyu_ele.Stride.{set_cpu_share, grant_share, fails}

minus_plus : (a b : ℤ) → a -ℤ b +ℤ b ≡ a
minus_plus a b = omega int_laws

leb_ℤ_le : (a b : ℤ) → leb_ℤ a b ≡ true → a ≤ℤ b
leb_ℤ_le a b h = ground arith

-- set_cpu_share of a stride process either returns -1 and changes nothing, or returns 0 and gives the
-- process the share. In both cases the tickets of MLFQ and of the process have the same sum as
-- before, and MLFQ still has its reserve if it had it.
pub set_cpu_share-conserves :
    (p main : ℕ) (share : ℤ) (t : Ptable)
    → main_thread p t ≡ ok (main, t)
    → is_mlfq (t.proc p).type ≡ false
    → (t' : Ptable) × (r : ℤ) × (set_cpu_share p share t ≡ ok (r, t'))
      × (((r ≡ fails) × (t' ≡ t)) ⊎ ((r ≡ pos 0) × ((t'.proc main).tickets ≡ share)))
      × (t'.mlfq_tickets +ℤ (t'.proc main).tickets ≡ t.mlfq_tickets +ℤ (t.proc main).tickets)
      × (reserve ≤ℤ t.mlfq_tickets → reserve ≤ℤ t'.mlfq_tickets)
unfolding set_cpu_share grant_share
set_cpu_share-conserves p main share t m s =
    elim (Bool-cases (ltb_ℤ share (pos 1) || ltb_ℤ (pos 100 -ℤ reserve) share)) [
      | inl e ↦ (t, fails, rw e refl, inl (refl, refl), refl, λ h. h)
      | inr e ↦
          let all = t.mlfq_tickets +ℤ (t.proc main).tickets in
          elim (Bool-cases (leb_ℤ reserve (all -ℤ share))) [
            | inl g ↦ (
              record t {
                mlfq_tickets = all -ℤ share;
                proc = update t.proc main (record (t.proc main) { tickets = share });
              },
              pos 0,
              rw (e, m, s, g) refl,
              inr (refl, rw ((==_iff main main).1 refl) refl),
              rw ((==_iff main main).1 refl) (minus_plus all share),
              λ _. leb_ℤ_le reserve (all -ℤ share) g,
            )
            | inr g ↦ (t, fails, rw (e, m, s, g) refl, inl (refl, refl), refl, λ h. h)
          ]
    ]
