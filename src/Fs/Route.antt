-- ===== src/Fs/Route.antt =====
-- bmap as a route of pointers from the inode to the block.
use mathlib.Core.Path.{subst}
use hyu_ele.Base.{
  ℕ, suc, ◌+◌, arith, ◌<◌, ◌≡◌, ◌≢◌, refl, sym, ◌∙◌, ap, false, Bool-cases, ◌==◌, ==_of_ne, ==_iff,
  if◌then◌else◌, inl, inr,
}
use hyu_ele.Base.Run.{◌>>=◌}
use hyu_ele.Fs.{Fs, D, word_at, nindirect, follow_addr, follow_entry}
use hyu_ele.Fs.Grow.{Grows, Grows-trans}
use hyu_ele.Fs.Tree.{height, Reaches, top, entry, Sound}
use hyu_ele.Fs.Unique.{Fine}
use hyu_ele.Fs.Keep.{idle_before, Keeps-trans}
use hyu_ele.Fs.Room.{Few-mono, Few-earlier, Takes-mono, Takes-trans}
use hyu_ele.Fs.Fetch.{Fetched, Gives, follow_addr-Fetched, follow_entry-Fetched}

-- `ip->addrs[k]`, or entry `i` of the block at the end of a route.
pub data Route : Type 0 where
  from : (k : ℕ) → Route
  then_entry : Route → (i : ℕ) → Route

-- The pointer at the end of a route; null from the first null pointer on.
abbrev pub value : Fs → ℕ → Route → ℕ
value s q (from k) = (s.inode q).addrs k
value s q (then_entry r i) = if value s q r == 0 then 0 else word_at s (value s q r) i

-- The route ends at height `l`.
abbrev pub EndsAt : Route → ℕ → Type 0
EndsAt (from k) l = (k < 13) × (l ≡ height k)
EndsAt (then_entry r i) l = EndsAt r (suc l) × (i < nindirect)

unfoldable pub fetch : ℕ → Route → D ℕ
fetch q (from k) = follow_addr q k
fetch q (then_entry r i) = do b ← fetch q r; follow_entry b i

pub value-Reaches :
    (s : Fs) (q : ℕ) (r : Route) (l : ℕ)
    → EndsAt r l
    → value s q r ≢ 0
    → Reaches s q l (value s q r)
value-Reaches s q (from k) l e n = top e.0 e.1 refl n
value-Reaches s q (then_entry r i) l e n = elim (Bool-cases (value s q r == 0)) [
  | inl z ↦ absurd (n (rw z refl))
  | inr z ↦
      let m : value s q r ≢ 0 = (λ x. n (rw ((==_iff (value s q r) 0).1 x) refl)) in
      let same : value s q (then_entry r i) ≡ word_at s (value s q r) i = rw z refl in
      entry (value-Reaches s q r (suc l) e.0 m) e.1 (sym same) n
]

-- No step takes a pointer back.
pub value-Grows :
    (s s' : Fs) (q : ℕ) (r : Route) (l : ℕ)
    → Grows s s'
    → Sound s
    → EndsAt r l
    → value s q r ≢ 0
    → value s' q r ≡ value s q r
value-Grows s s' q (from k) l g f e n = g.addrs q k n
value-Grows s s' q (then_entry r i) l g f e n = elim (Bool-cases (value s q r == 0)) [
  | inl z ↦ absurd (n (rw z refl))
  | inr z ↦
      let m : value s q r ≢ 0 = (λ x. n (rw ((==_iff (value s q r) 0).1 x) refl)) in
      let here = value-Grows s s' q r (suc l) g f e.0 m in
      let o = f q (suc l) (value s q r) (value-Reaches s q r (suc l) e.0 m) in
      let w : word_at s (value s q r) i ≢ 0 = (λ x. n (rw (z, x) refl)) in
      rw (here, z) (g.words (value s q r) i o w)
]

-- How many blocks of pointers a route goes through.
abbrev pub levels : Route → ℕ
levels (from k) = 0
levels (then_entry r i) = suc (levels r)

-- Fetching along a route.
abbrev pub AtEnd : Fs → ℕ → Route → ℕ → ℕ → Fs → Type 0
AtEnd s q r l v s' = Fetched (suc (levels r)) s s' q l (value s q r) v × (value s' q r ≡ v)

extend :
    (s s1 s2 : Fs) (q : ℕ) (r : Route) (i l b v : ℕ)
    → Sound s
    → EndsAt r (suc l)
    → Fetched (suc (levels r)) s s1 q (suc l) (value s q r) b
    → value s1 q r ≡ b
    → i < nindirect
    → Fetched 1 s1 s2 q l (word_at s1 b i) v
    → word_at s2 b i ≡ v
    → AtEnd s q (then_entry r i) l v s2
extend s s1 s2 q r i l b v f e g now h k last =
    let nb = g.nonzero in
    let kept : value s2 q r ≡ b =
      value-Grows s1 s2 q r (suc l) k.grows g.fine.sound e (λ z. nb (sym now ∙ z)) ∙ now in
    let b_set : (b == 0) ≡ false = ==_of_ne b 0 nb in
    let v_disk : v < s1.size = rw (sym k.grows.size) (k.fine.sound q l v k.reached).on_disk in
    (
      record {
        grows = Grows-trans s s1 s2 g.grows k.grows;
        keeps = Keeps-trans s s1 s2 g.grows k.grows f k.fine.sound g.keeps k.keeps;
        fine = k.fine;
        takes =
            Takes-mono (suc (levels r) + 1) (suc (suc (levels r))) s s2 (omega arith)
              (Takes-trans (suc (levels r)) 1 s s1 s2 g.takes k.takes);
        reached = k.reached;
        nonzero = k.nonzero;
        how = elim g.how [
          | inl (z, _, zeros) ↦ elim k.how [
            | inl (_, idle, zeros') ↦
                inl (rw z refl, idle_before s s1 v g.grows v_disk idle, zeros')
            | inr (w, _) ↦ absurd (k.nonzero (sym w ∙ zeros i h))
          ]
          | inr (same, stay) ↦
              let old : value s q (then_entry r i) ≡ word_at s1 b i =
                rw (same, b_set) (ap (λ t. word_at t b i) (sym stay)) in
              elim k.how [
                | inl (z, idle, zeros) ↦
                    inl (old ∙ z, idle_before s s1 v g.grows v_disk idle, zeros)
                | inr (w, stay') ↦ inr (old ∙ w, stay' ∙ stay)
              ]
        ];
      },
      rw (kept, b_set) last,
    )

-- Where the next pointer is null now, it was null before.
old_entry :
    (s s1 : Fs) (q : ℕ) (r : Route) (i l b : ℕ)
    → Fetched (suc (levels r)) s s1 q (suc l) (value s q r) b
    → word_at s1 b i ≡ 0
    → value s q (then_entry r i) ≡ 0
old_entry s s1 q r i l b g z = elim g.how [
  | inl (y, _, _) ↦ rw y refl
  | inr (same, stay) ↦ rw (same, ==_of_ne b 0 g.nonzero) (ap (λ t. word_at t b i) (sym stay) ∙ z)
]

pub fetch-AtEnd :
    (q : ℕ) (r : Route) (l : ℕ) (s : Fs)
    → EndsAt r l
    → Fine s
    → Gives (levels r) s (value s q r) (fetch q r s) (AtEnd s q r l)
unfolding fetch
fetch-AtEnd q (from k) l s e good =
    subst (λ m. Gives 0 s ((s.inode q).addrs k) (follow_addr q k s) (AtEnd s q (from k) m))
      (sym e.1) (follow_addr-Fetched q k s e.0 good)
fetch-AtEnd q (then_entry r i) l s e good = elim (fetch-AtEnd q r (suc l) s e.0 good) [
  | inl (z, few, run) ↦
      inl (rw z refl, Few-mono (levels r) (suc (levels r)) s (omega arith) few, rw run refl)
  | inr (b, s1, run, (g, now)) ↦ elim (follow_entry-Fetched q l b i s1 e.1 g.reached g.fine) [
    | inl (z, few, run') ↦ inl (
      old_entry s s1 q r i l b g z,
      Few-mono (suc (levels r) + 0) (suc (levels r)) s (omega arith)
          (Few-earlier (suc (levels r)) 0 s s1 g.takes few),
      rw (run, run') refl,
    )
    | inr (v, s2, run', (k, last)) ↦
        inr (v, s2, rw (run, run') refl, extend s s1 s2 q r i l b v good.sound e.0 g now e.1 k last)
  ]
]
