-- ===== src/Fs/Steady.antt =====
-- A change of one block that holds no pointers: the trees and the free map stay.
use hyu_ele.Base.{
  ℕ, suc, ◌+◌, ◌/◌, ◌%◌, ◌<◌, ◌≡◌, ◌≢◌, refl, sym, ◌∙◌, ap, Bool-cases, ◌==◌, ==_iff, inl, inr,
}
use hyu_ele.Fs.{Fs, word_at, word_of, has_bit, bpb, bblock}
use hyu_ele.Fs.Bitmap.{in_use}
use hyu_ele.Fs.Freemap.{Plain}
use hyu_ele.Fs.Grow.{Owned}
use hyu_ele.Fs.Tree.{Reaches, top, entry}
use hyu_ele.Fs.Unique.{Slot, Points, by_root, by_cell, Fine}
use hyu_ele.Fs.Route.{Route, from, then_entry, value, EndsAt, value-Reaches}

-- From `s` to `s'` only block `x` and fields of inodes other than their pointers may change.
pub record Only (s s' : Fs) (x : ℕ) : Type 0 where
  pub size : s'.size ≡ s.size
  pub start : s'.bmapstart ≡ s.bmapstart
  pub addrs : (q k : ℕ) → (s'.inode q).addrs k ≡ (s.inode q).addrs k
  pub others : (b : ℕ) → b ≢ x → s'.data_at b ≡ s.data_at b

-- Block `x` is no block of the map and holds no pointers.
pub record Leaf (s : Fs) (x : ℕ) : Type 0 where
  pub plain : Plain s x
  pub no_pointers : (q l b : ℕ) → Reaches s q (suc l) b → b ≢ x

module _ (s s' : Fs) (x : ℕ) (only : Only s s' x) (leaf : Leaf s x) where
  same_word : (q l b i : ℕ) → Reaches s q (suc l) b → word_at s' b i ≡ word_at s b i
  same_word q l b i r = ap (λ d. word_of d i) (only.others b (leaf.no_pointers q l b r))

  pub same_map : (c : ℕ) → c < s.size → in_use s' c ≡ in_use s c
  same_map c h =
      ap (λ n. has_bit (s'.data_at (c / bpb + n) (c % bpb / 8)) (c % bpb % 8)) only.start
      ∙ ap (λ d. has_bit (d (c % bpb / 8)) (c % bpb % 8))
          (only.others (bblock s c) (λ e. leaf.plain c h (sym e)))

  pub Reaches-back : (q l b : ℕ) → Reaches s' q l b → Reaches s q l b
  Reaches-back q l b (top {k} h e a n) = top h e (sym (only.addrs q k) ∙ a) n
  Reaches-back q l b (entry {c} {i} r h a n) =
      let old = Reaches-back q (suc l) c r in entry old h (sym (same_word q l c i old) ∙ a) n

  pub Reaches-on : (q l b : ℕ) → Reaches s q l b → Reaches s' q l b
  Reaches-on q l b (top {k} h e a n) = top h e (only.addrs q k ∙ a) n
  Reaches-on q l b (entry {c} {i} r h a n) =
      entry (Reaches-on q (suc l) c r) h (same_word q l c i r ∙ a) n

  Plain-on : (b : ℕ) → Plain s b → Plain s' b
  Plain-on b p e h = rw only.start (p e (rw (sym only.size) h))

  pub Owned-on : (b : ℕ) → Owned s b → Owned s' b
  Owned-on b o = record {
    on_disk = rw only.size o.on_disk;
    busy = same_map b o.on_disk ∙ o.busy;
    plain = Plain-on b o.plain;
  }

  Points-back : (y : Slot) (b : ℕ) → Points s' y b → Points s y b
  Points-back y b (by_root {q} {k} h a n) = by_root h (sym (only.addrs q k) ∙ a) n
  Points-back y b (by_cell {q} {l} {c} {i} r h a n) =
      let old = Reaches-back q (suc l) c r in by_cell old h (sym (same_word q l c i old) ∙ a) n

  pub Fine-on : 0 < s.size → Fine s → Fine s'
  Fine-on h good = record {
    laid =
        (let l = good.laid in
          let small = l.small in
          record {
            small = rw only.size small;
            plain = λ c i idle.
                let j : c < s.size = rw (sym only.size) i in
                Plain-on c (l.plain c j (sym (same_map c j) ∙ idle));
            boot = same_map 0 h ∙ l.boot;
          });
    sound = λ q l b r. Owned-on b (good.sound q l b (Reaches-back q l b r));
    unique = λ y z b p q. good.unique y z b (Points-back y b p) (Points-back z b q);
  }

  pub value-on : (q : ℕ) (r : Route) (l : ℕ) → EndsAt r l → value s' q r ≡ value s q r
  value-on q (from k) l e = only.addrs q k
  value-on q (then_entry r i) l e = elim (Bool-cases (value s q r == 0)) [
    | inl z ↦ rw (value-on q r (suc l) e.0, z) refl
    | inr z ↦
        let m : value s q r ≢ 0 = (λ w. let y = (==_iff (value s q r) 0).1 w in cc (y, z)) in
        rw (value-on q r (suc l) e.0, z)
          (same_word q l (value s q r) i (value-Reaches s q r (suc l) e.0 m))
  ]
