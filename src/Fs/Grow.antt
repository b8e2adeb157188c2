-- ===== src/Fs/Grow.antt =====
-- How the block tree of an inode grows: what no step of bmap takes back.
use mathlib.Core.List.{append-nil, append_assoc}
use hyu_ele.Base.{
  ℕ, ◌+◌, ◌*◌, ◌<◌, ◌≤◌, ◌≡◌, ◌≢◌, refl, sym, ◌∙◌, ap, true, false, Bool-cases, ◌==◌, ==_of_ne,
  ==_iff, ltb_of_lt, if◌then◌else◌, arith, ◌⊎◌, inl, inr, List, [], ◌∷◌, ◌++◌, NotIn, All-left,
  All-right,
}
use hyu_ele.Fs.{Fs, bblock, word_at, word_of, set_word}
use hyu_ele.Fs.Bytes.{word_of-put_word_other, word_of-put_word}
use hyu_ele.Fs.Bitmap.{in_use, taken}
use hyu_ele.Fs.Freemap.{Plain, in_use-taken}

true_ne_false : true ≢ false
true_ne_false h = cc h

-- The map marks every block of the map itself and block 0 as in use, and block numbers fit a uint.
pub record Laid (s : Fs) : Type 0 where
  pub small : s.size ≤ 4294967296
  pub plain : (c : ℕ) → c < s.size → in_use s c ≡ false → Plain s c
  pub boot : in_use s 0 ≡ true

-- A block that a file may own: on the disk, in use, and not of the map.
pub record Owned (s : Fs) (b : ℕ) : Type 0 where
  pub on_disk : b < s.size
  pub busy : in_use s b ≡ true
  pub plain : Plain s b

-- The blocks of `new` were logged, and no other changed.
pub record Logs (s s' : Fs) : Type 0 where
  pub new : List ℕ
  pub log : s'.logged ≡ s.logged ++ new
  pub others : (b i : ℕ) → NotIn b new → s'.data_at b i ≡ s.data_at b i

-- From `s` to `s'` no block is freed, no pointer that is set changes, and every block written is logged.
pub record Grows (s s' : Fs) : Type 0 where
  pub size : s'.size ≡ s.size
  pub start : s'.bmapstart ≡ s.bmapstart
  pub used : (c : ℕ) → c < s.size → in_use s c ≡ true → in_use s' c ≡ true
  pub words : (b i : ℕ) → Owned s b → word_at s b i ≢ 0 → word_at s' b i ≡ word_at s b i
  pub addrs : (q k : ℕ) → (s.inode q).addrs k ≢ 0 → (s'.inode q).addrs k ≡ (s.inode q).addrs k
  pub logs : Logs s s'

pub Plain-Grows : (s s' : Fs) (b : ℕ) → Grows s s' → Plain s b → Plain s' b
Plain-Grows s s' b g p e l = rw g.start (p e (rw (sym g.size) l))

pub Owned-Grows : (s s' : Fs) (b : ℕ) → Grows s s' → Owned s b → Owned s' b
Owned-Grows s s' b g o = record {
  on_disk = rw g.size o.on_disk;
  busy = g.used b o.on_disk o.busy;
  plain = Plain-Grows s s' b g o.plain;
}

pub Grows-refl : (s : Fs) → Grows s s
Grows-refl s = record {
  size = refl;
  start = refl;
  used = λ c l h. h;
  words = λ b i o n. refl;
  addrs = λ q k n. refl;
  logs = record { new = []; log = sym (append-nil s.logged); others = λ b i n. refl };
}

pub Grows-trans : (s t u : Fs) → Grows s t → Grows t u → Grows s u
Grows-trans s t u g h = record {
  size = h.size ∙ g.size;
  start = h.start ∙ g.start;
  used = λ c l e. h.used c (rw g.size l) (g.used c l e);
  words = λ b i o n.
      let e = g.words b i o n in h.words b i (Owned-Grows s t b g o) (λ z. n (sym e ∙ z)) ∙ e;
  addrs = λ q k n. let e = g.addrs q k n in h.addrs q k (λ z. n (sym e ∙ z)) ∙ e;
  logs = record {
    new = g.logs.new ++ h.logs.new;
    log =
        h.logs.log
        ∙ ap (λ r. r ++ h.logs.new) g.logs.log
        ∙ append_assoc s.logged g.logs.new h.logs.new;
    others = λ b i n.
        h.logs.others b i (All-right _ g.logs.new h.logs.new n)
        ∙ g.logs.others b i (All-left _ g.logs.new h.logs.new n);
  };
}

module _ (s : Fs) (c : ℕ) (l : Laid s) (h : c < s.size) (idle : in_use s c ≡ false) where
  pub marks : (e : ℕ) → e < s.size → in_use (taken c s) e ≡ (if e == c then true else in_use s e)
  marks = in_use-taken s c idle (l.plain c h idle)

  stays_used : (e : ℕ) → e < s.size → in_use s e ≡ true → in_use (taken c s) e ≡ true
  stays_used e i f = elim (Bool-cases (e == c)) [
    | inl p ↦ marks e i ∙ rw p refl
    | inr p ↦ marks e i ∙ rw p f
  ]

  was_idle : (e : ℕ) → e < s.size → in_use (taken c s) e ≡ false → in_use s e ≡ false
  was_idle e i f = elim (Bool-cases (in_use s e)) [
    | inl p ↦ absurd (true_ne_false (sym (stays_used e i p) ∙ f))
    | inr p ↦ p
  ]

  -- The other blocks stay, but for the block of the map.
  pub data-taken : (b : ℕ) → b ≢ c → b ≢ bblock s c → (taken c s).data_at b ≡ s.data_at b
  data-taken b p q = rw (==_of_ne b c p, ==_of_ne b (bblock s c) q) refl

  pub Owned-ne : (b : ℕ) → Owned s b → b ≢ c
  Owned-ne b o e = true_ne_false (sym o.busy ∙ ap (λ v. in_use s v) e ∙ idle)

  pub taken-Laid : Laid (taken c s)
  taken-Laid = record {
    small = l.small;
    plain = λ e i f. l.plain e i (was_idle e i f);
    boot = stays_used 0 (omega arith) l.boot;
  }

  pub taken-Owned : Owned (taken c s) c
  taken-Owned = record {
    on_disk = h;
    busy = marks c h ∙ rw ((==_iff c c).1 refl) refl;
    plain = l.plain c h idle;
  }

  pub taken-Grows : Grows s (taken c s)
  taken-Grows = record {
    size = refl;
    start = refl;
    used = stays_used;
    words = λ b i o n. ap (λ d. word_of d i) (data-taken b (Owned-ne b o) (o.plain c h));
    addrs = λ q k n. refl;
    logs = record {
      new = bblock s c ∷ c ∷ [];
      log = append_assoc s.logged (bblock s c ∷ []) (c ∷ []);
      others = λ b i n. ap (λ d. d i) (data-taken b n.1.0 n.0);
    };
  }

  -- The pointers in the new block are null.
  pub taken-zero : (i : ℕ) → i < 128 → word_at (taken c s) c i ≡ 0
  taken-zero i j =
      rw
        (
          (==_iff c c).1 refl,
          ltb_of_lt (i * 4) 512 (omega arith),
          ltb_of_lt (i * 4 + 1) 512 (omega arith),
          ltb_of_lt (i * 4 + 2) 512 (omega arith),
          ltb_of_lt (i * 4 + 3) 512 (omega arith),
        )
        refl

  pub not_zero : c ≢ 0
  not_zero e = true_ne_false (sym l.boot ∙ ap (λ v. in_use s v) (sym e) ∙ idle)

-- The assignment of an entry of an indirect block, with its log_write.
abbrev pub written : ℕ → ℕ → ℕ → Fs → Fs
written b i v s = record (set_word b i v s) { logged = s.logged ++ b ∷ [] }

module _ (s : Fs) (b i v : ℕ) (o : Owned s b) where
  pub data-written : (d : ℕ) → d ≢ b → (written b i v s).data_at d ≡ s.data_at d
  data-written d p = rw (==_of_ne d b p) refl

  pub in_use-written : (e : ℕ) → e < s.size → in_use (written b i v s) e ≡ in_use s e
  in_use-written e h = rw (==_of_ne (bblock s e) b (λ q. o.plain e h (sym q))) refl

  pub written-Laid : Laid s → Laid (written b i v s)
  written-Laid l = record {
    small = l.small;
    plain = λ e h f. l.plain e h (sym (in_use-written e h) ∙ f);
    boot = let h = o.on_disk in in_use-written 0 (omega arith) ∙ l.boot;
  }

  pub word-written : v < 4294967296 → word_at (written b i v s) b i ≡ v
  word-written h = rw ((==_iff b b).1 refl) (word_of-put_word (s.data_at b) i v h)

  pub word-written_other : (d j : ℕ) → d ≢ b ⊎ j ≢ i → word_at (written b i v s) d j ≡ word_at s d j
  word-written_other d j (inl n) = ap (λ m. word_of m j) (data-written d n)
  word-written_other d j (inr n) = elim (Bool-cases (d == b)) [
    | inl p ↦
        let e = (==_iff d b).0 p in
        rw p (word_of-put_word_other (s.data_at b) i v j n) ∙ ap (λ m. word_at s m j) (sym e)
    | inr p ↦ rw p refl
  ]

  pub written-Grows : word_at s b i ≡ 0 → Grows s (written b i v s)
  written-Grows z = record {
    size = refl;
    start = refl;
    used = λ e h f. in_use-written e h ∙ f;
    words = λ d j p n. word-written_other d j (elim (Bool-cases (d == b)) [
      | inr q ↦ inl (λ e. true_ne_false (sym ((==_iff d b).1 e) ∙ q))
      | inl q ↦ inr (λ e. n (ap (λ m. word_at s m j) ((==_iff d b).0 q) ∙ ap (word_at s b) e ∙ z))
    ]);
    addrs = λ q k n. refl;
    logs = record {
      new = b ∷ [];
      log = refl;
      others = λ d j n. ap (λ m. m j) (data-written d n.0);
    };
  }
