-- ===== src/Fs/Moves.antt =====
-- A step of reading or writing a file, and what it keeps of the disk.
use hyu_ele.Base.{
  ℕ, suc, ◌/◌, ◌%◌, ◌<◌, ◌≡◌, ◌≢◌, refl, sym, ◌∙◌, ap, Bool-cases, ◌==◌, ==_iff, ==_of_ne,
  if◌then◌else◌, inl, inr,
}
use hyu_ele.Fs.{Fs, bsize}
use hyu_ele.Fs.Bitmap.{in_use}
use hyu_ele.Fs.Grow.{Owned, Grows, Owned-Grows}
use hyu_ele.Fs.Keep.{Keeps, SameMeta, one_height}
use hyu_ele.Fs.Tree.{Reaches}
use hyu_ele.Fs.Unique.{Fine}
use hyu_ele.Fs.Route.{value-Grows}
use hyu_ele.Fs.Steady.{Only, Leaf, Reaches-back, Owned-on, value-on, Fine-on}
use hyu_ele.Fs.Bmap.{route_of, tree_size, block_of, route_of-EndsAt}
use hyu_ele.Fs.Content.{file_byte, byte_in}

-- Block `x` is in use, and no file has it: a block of inodes.
pub record Spare (s : Fs) (x : ℕ) : Type 0 where
  pub owned : Owned s x
  pub no_file : (q l b : ℕ) → Reaches s q l b → b ≢ x

pub record Moves (s s' : Fs) : Type 0 where
  pub fine : Fine s'
  pub meta : (q : ℕ) → SameMeta (s'.inode q) (s.inode q)
  pub start : s'.inodestart ≡ s.inodestart
  pub kept : (q n : ℕ) → n < tree_size → block_of s q n ≢ 0 → block_of s' q n ≡ block_of s q n
  pub spare : (x : ℕ) → Spare s x → Spare s' x

pub Moves-refl : (s : Fs) → Fine s → Moves s s
Moves-refl s good = record {
  fine = good;
  meta = λ q. (refl, refl, refl);
  start = refl;
  kept = λ q n h z. refl;
  spare = λ x p. p;
}

pub Moves-trans : (s t u : Fs) → Moves s t → Moves t u → Moves s u
Moves-trans s t u f g = record {
  fine = g.fine;
  meta = λ q. let (a, b, c) = f.meta q in let (a', b', c') = g.meta q in (a' ∙ a, b' ∙ b, c' ∙ c);
  start = g.start ∙ f.start;
  kept = λ q n h z. let e = f.kept q n h z in g.kept q n h (λ y. z (sym e ∙ y)) ∙ e;
  spare = λ x p. g.spare x (f.spare x p);
}

-- A block that is missing later was missing before.
pub null_before :
    (s t : Fs) (q n : ℕ) → Moves s t → n < tree_size → block_of t q n ≡ 0 → block_of s q n ≡ 0
null_before s t q n f h z = elim (Bool-cases (block_of s q n == 0)) [
  | inl y ↦ (==_iff (block_of s q n) 0).0 y
  | inr y ↦
      let w : block_of s q n ≢ 0 = (λ e. let e' = (==_iff (block_of s q n) 0).1 e in cc (e', y)) in
      absurd (w (sym (f.kept q n h w) ∙ z))
]

pub Grows-Moves : (s s' : Fs) → Grows s s' → Keeps s s' → Fine s → Fine s' → Moves s s'
Grows-Moves s s' g k good good' = record {
  fine = good';
  meta = k.meta;
  start = k.start;
  kept = λ q n h z. value-Grows s s' q (route_of n) 0 g good.sound (route_of-EndsAt n h) z;
  spare = λ x p. record {
    owned = Owned-Grows s s' x g p.owned;
    no_file = λ q l b r. elim (k.fresh q l b r) [
      | inl old ↦ p.no_file q l b old
      | inr (idle, _) ↦ λ e. let busy = p.owned.busy in cc (ap (in_use s) e, busy, idle)
    ];
  };
}

module _ (s s' : Fs) (x : ℕ) (only : Only s s' x) where
  pub Only-Moves :
      Leaf s x
      → 0 < s.size
      → Fine s
      → ((q : ℕ) → SameMeta (s'.inode q) (s.inode q))
      → s'.inodestart ≡ s.inodestart
      → Moves s s'
  Only-Moves leaf h good same from_same = record {
    fine = Fine-on s s' x only leaf h good;
    meta = same;
    start = from_same;
    kept = λ q n i z. value-on s s' x only leaf q (route_of n) 0 (route_of-EndsAt n i);
    spare = λ y p. record {
      owned = Owned-on s s' x only leaf y p.owned;
      no_file = λ q l b r. p.no_file q l b (Reaches-back s s' x only leaf q l b r);
    };
  }

  same_blocks : Leaf s x → (q n : ℕ) → n < tree_size → block_of s' q n ≡ block_of s q n
  same_blocks leaf q n i = value-on s s' x only leaf q (route_of n) 0 (route_of-EndsAt n i)

  -- The bytes of a file whose block is not `x` stay.
  pub away :
      (p k : ℕ)
      → Leaf s x
      → k / bsize < tree_size
      → block_of s p (k / bsize) ≢ x
      → file_byte s' p k ≡ file_byte s p k
  away p k leaf h n =
      ap (λ b. byte_in s' b (k % bsize)) (same_blocks leaf p (k / bsize) h)
      ∙ ap (λ d. if block_of s p (k / bsize) == 0 then 0 else d (k % bsize))
          (only.others (block_of s p (k / bsize)) n)

  pub here :
      (q k : ℕ)
      → Leaf s x
      → k / bsize < tree_size
      → block_of s q (k / bsize) ≡ x
      → x ≢ 0
      → file_byte s' q k ≡ s'.data_at x (k % bsize)
  here q k leaf h e n =
      ap (λ b. byte_in s' b (k % bsize)) (same_blocks leaf q (k / bsize) h ∙ e)
      ∙ rw (==_of_ne x 0 n) refl

pub Leaf-block : (s : Fs) (q b : ℕ) → Fine s → Reaches s q 0 b → Leaf s b
Leaf-block s q b good r = record {
  plain = (good.sound q 0 b r).plain;
  no_pointers =
      λ p l c r' e. let up = one_height s p q (suc l) 0 b good.unique (rw (sym e) r') r in cc up;
}

pub Leaf-Spare : (s : Fs) (x : ℕ) → Spare s x → Leaf s x
Leaf-Spare s x p = record {
  plain = p.owned.plain;
  no_pointers = λ q l b r. p.no_file q (suc l) b r;
}
