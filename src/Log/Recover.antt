-- ===== src/Log/Recover.antt =====
-- Recovery of log.c after a restart, from a device with an empty and with a committed log.
use hyu_ele.Base.{
  ℕ, zero, suc, ◌+◌, ◌<◌, ◌≡◌, ◌≢◌, refl, ap, ◌∙◌, true, false, ltb, List, [], ◌∷◌, ◌++◌, arith,
  All, All-left, ==_iff, ==_of_ne, ℕ_discrete,
}
use mathlib.Core.Path.{subst}
use mathlib.Core.List.{append_assoc}
use hyu_ele.Log.{install_loop}
use hyu_ele.Log.{
  Log, LogHeader, Device, Write, put, head, perform, install_trans, write_head, read_head,
  copy_header, recover_from_log,
}
use hyu_ele.Log.Replay.{replay, log_writes, home_writes, Begins}
use hyu_ele.Log.Copy.{Apart, install_loop-Installed}

-- The kernel after a restart: nothing cached, nothing in the log's memory; then initlog's recovery.
abbrev pub reboot : Log → Device → Log
reboot s d = record s {
  outstanding = 0;
  committing = false;
  lh = record { n = 0; block = λ _. 0 };
  view = d.block;
  dev = d;
  trace = [];
}

unfoldable pub recovered : Log → Device → Device
recovered s d = (recover_from_log (reboot s d)).dev

-- `b` is not a block that the log keeps a copy in.
abbrev pub Outside : Log → ℕ → Type 0
Outside s b = (t : ℕ) → t < s.lh.n → b ≢ s.start + t + 1

-- All of the transaction: its blocks hold what the cache held, the others what the device held.
pub record AllNew (s : Log) (block : ℕ → ℕ) : Type 0 where
  pub written : (t : ℕ) → t < s.lh.n → block (s.lh.block t) ≡ s.view (s.lh.block t)
  pub others :
      (b : ℕ) → Outside s b → ((t : ℕ) → t < s.lh.n → b ≢ s.lh.block t) → block b ≡ s.dev.block b

-- None of it.
abbrev pub AllOld : Log → (ℕ → ℕ) → Type 0
AllOld s block = (b : ℕ) → Outside s b → block b ≡ s.dev.block b

-- Recovery from a device whose log is empty changes no block.
pub recovered-empty : (s : Log) (d : Device) → d.header.n ≡ 0 → (recovered s d).block ≡ d.block
unfolding recovered recover_from_log read_head install_trans write_head install_loop
recovered-empty s d e = rw (e, install_loop)

pub read_block : (h l : LogHeader) (t : ℕ) → t < h.n → (copy_header h l).block t ≡ h.block t
read_block h l t lt = ground arith

-- Recovery from a device whose log is committed installs the log, whatever the home blocks hold.
module _ (g : ℕ → ℕ) (s : Log) (d : Device) (apart : Apart s.start d.header.n d.header.block)
    (logged : (t : ℕ) → t < d.header.n → d.block (s.start + t + 1) ≡ g (d.header.block t)) where
  recovered-full :
      ((t : ℕ) → t < d.header.n → (recovered s d).block (d.header.block t) ≡ g (d.header.block t))
      × ((b : ℕ)
          → ((t : ℕ) → t < d.header.n → b ≢ d.header.block t)
          → (recovered s d).block b ≡ d.block b)
  unfolding recovered install_trans read_head recover_from_log write_head
  recovered-full =
      let s0 = read_head (reboot s d) in
      let at = read_block d.header (reboot s d).lh in
      let (kept, done, rest, dev, trace) =
        install_loop-Installed g d.header.n d.header.n 0 s0 (omega arith)
          (λ t u lt lu. rw (at t lt) (apart t u lt lu)) (λ t lt. rw (at t lt) (logged t lt))
          (λ t lt. absurd (omega arith)) in
      ((λ t lt. rw (at t lt) at (done t lt)), λ b h. rest b (λ t lt. rw (at t lt) (h t lt)))

-- The same where the header is known by an equation.
abbrev Installs : (ℕ → ℕ) → Log → Device → LogHeader → Type 0
Installs g s d h =
    Apart s.start h.n h.block
    → ((t : ℕ) → t < h.n → d.block (s.start + t + 1) ≡ g (h.block t))
    → ((t : ℕ) → t < h.n → (recovered s d).block (h.block t) ≡ g (h.block t))
      × ((b : ℕ) → ((t : ℕ) → t < h.n → b ≢ h.block t) → (recovered s d).block b ≡ d.block b)

pub recovered_by :
    (g : ℕ → ℕ) (s : Log) (d : Device) (h : LogHeader) → d.header ≡ h → Installs g s d h
recovered_by g s d h e = subst (Installs g s d) e (recovered-full g s d)

-- Writes of blocks alone, of those that `P` holds of.
abbrev pub PutsAt : (ℕ → Type 0) → Write → Type 0
PutsAt P (put b v) = P b
PutsAt P (head h) = ⊥

pub replay-PutsAt :
    (P : ℕ → Type 0) (ws : List Write) (d : Device)
    → All (PutsAt P) ws
    → ((replay ws d).header ≡ d.header)
      × ((b : ℕ) → ((c : ℕ) → P c → b ≢ c) → (replay ws d).block b ≡ d.block b)
replay-PutsAt P [] d a = (refl, λ b h. refl)
replay-PutsAt P (put c v ∷ ws) d a =
    let (same, rest) = replay-PutsAt P ws (perform (put c v) d) a.1 in
    (same, λ b h. rest b h ∙ rw (==_of_ne b c (h c a.0)))
replay-PutsAt P (head h ∷ ws) d a = absurd a.0

pub Begins-All : (P : Write → Type 0) (us ws : List Write) → Begins us ws → All P ws → All P us
Begins-All P us ws (rest, e) a = All-left P us rest (rw e at a)

abbrev pub InLog : ℕ → ℕ → ℕ → Type 0
InLog start n c = (t : ℕ) × (t < n) × (c ≡ start + t + 1)

abbrev pub AtHome : (ℕ → ℕ) → ℕ → ℕ → Type 0
AtHome block n c = (t : ℕ) × (t < n) × (c ≡ block t)

pub log_writes-InLog :
    (k tail n start : ℕ) (block value : ℕ → ℕ)
    → tail + k ≡ n
    → All (PutsAt (InLog start n)) (log_writes k tail start block value)
log_writes-InLog zero tail n start block value e = tt
log_writes-InLog (suc k) tail n start block value e =
    ((tail, omega arith, refl), log_writes-InLog k (tail + 1) n start block value (omega arith))

pub home_writes-AtHome :
    (k tail n : ℕ) (block value : ℕ → ℕ)
    → tail + k ≡ n
    → All (PutsAt (AtHome block n)) (home_writes k tail block value)
home_writes-AtHome zero tail n block value e = tt
home_writes-AtHome (suc k) tail n block value e =
    ((tail, omega arith, refl), home_writes-AtHome k (tail + 1) n block value (omega arith))

pub append-cancel : (xs ys zs : List Write) → xs ++ ys ≡ xs ++ zs → ys ≡ zs
append-cancel [] ys zs e = e
append-cancel (x ∷ xs) ys zs e = append-cancel xs ys zs (cc e)

pub regroup :
    (a l : List Write) (x : Write) (o e : List Write)
    → (((a ++ l) ++ x ∷ []) ++ o) ++ e ≡ a ++ (l ++ ((x ∷ o) ++ e))
regroup a l x o e = simp append_assoc

pub commit_runs : (s : Log) → 0 < s.lh.n → ltb 0 s.lh.n ≡ true
commit_runs s h = ground arith

pub nil_of_append : (xs ys : List Write) → [] ≡ xs ++ ys → xs ≡ []
nil_of_append [] ys e = refl
nil_of_append (x ∷ xs) ys e = cc

pub tail_of : (x y : Write) (xs ys : List Write) → x ∷ xs ≡ y ∷ ys → xs ≡ ys
tail_of x y xs ys e = cc

pub replay-home :
    (g block : ℕ → ℕ) (n k tail : ℕ) (d : Device)
    → tail + k ≡ n
    → ((t : ℕ) → t < tail → d.block (block t) ≡ g (block t))
    → (t : ℕ) → t < n
    → (replay (home_writes k tail block (λ u. g (block u))) d).block (block t) ≡ g (block t)
replay-home g block n zero tail d e l = λ t lt. l t (omega arith)
replay-home g block n (suc k) tail d e l =
    replay-home g block n k (tail + 1) (perform (put (block tail) (g (block tail))) d) (omega arith)
      (λ t lt. elim (ℕ_discrete (block t) (block tail)) [
        | yes q ↦ rw (q, (==_iff (block tail) (block tail)).1 refl)
        | no q ↦ rw (==_of_ne (block t) (block tail) q) (l t (before t lt q))
      ])
  where
    before : (t : ℕ) → t < tail + 1 → block t ≢ block tail → t < tail
    before t lt q = elim (ℕ_discrete t tail) [
      | yes e ↦ absurd (q (ap block e))
      | no ne ↦ omega arith
    ]
