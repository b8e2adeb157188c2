-- ===== src/Mlfq/Concat.antt =====
-- concatqueue: the threads of a queue go behind those of another, and its pin with them.
use mathlib.Core.Path.{subst}
use hyu_ele.Base.{
  !=_not, All-left, ℕ, ◌≡◌, ◌≢◌, refl, sym, ◌∙◌, ap, true, false, Bool-cases, ◌==◌, ◌!=◌, ==_of_ne,
  not, if◌then◌else◌, update, arith, inl, inr, List, [], ◌∷◌, ◌++◌, Distinct, NotIn,
}
use hyu_ele.Base.Run.{ok}
use hyu_ele.Links.{Links, list_bulk_move_tail}
use hyu_ele.Links.Ring.{IsRing}
use hyu_ele.Links.Laws.{list_empty_iff}
use hyu_ele.Links.Move.{list_bulk_move_tail-IsRing, list_bulk_move_tail_rest}
use hyu_ele.Ptable.{Ptable, queue_head}
use hyu_ele.Mlfq.{concatqueue}

-- Queue `l` holds the nodes `xs`, and its pin is its head or one of them.
pub record IsQueue (t : Ptable) (l : ℕ) (xs : List ℕ) : Type 0 where
  pub ring : IsRing t.links (queue_head l) xs
  pub pinned : ¬ NotIn (t.pin l) (queue_head l ∷ xs)

-- The pin of the two queues together.
abbrev pub joint_pin : Ptable → ℕ → ℕ → List ℕ → ℕ
joint_pin t src dst [] = if t.pin src == queue_head src then t.pin dst else t.pin src
joint_pin t src dst (_ ∷ _) = t.pin dst

concatqueue-run :
    (src dst : ℕ) (t : Ptable) (ys : List ℕ)
    → src ≢ dst
    → IsRing t.links (queue_head dst) ys
    → (pin' : ℕ → ℕ) × (concatqueue src dst t
        ≡ ok (
          tt,
          record t {
            pin = pin';
            links = list_bulk_move_tail (queue_head src) (queue_head dst) t.links;
          },
        ))
      × (pin' src ≡ queue_head src)
      × (pin' dst ≡ joint_pin t src dst ys)
      × ((k : ℕ) → k ≢ src → k ≢ dst → pin' k ≡ t.pin k)
unfolding concatqueue
concatqueue-run src dst t [] n r =
    let e = (list_empty_iff (queue_head dst) t.links [] r).1 refl in
    elim (Bool-cases (t.pin src == queue_head src)) [
      | inl h ↦
          let u : (t.pin src != queue_head src) ≡ false = !=_not _ _ ∙ ap not h in
          (
            update t.pin src (queue_head src),
            rw (e, u) refl,
            ground arith,
            rw h (ground arith),
            λ k i j. ground arith,
          )
      | inr h ↦
          let u : (t.pin src != queue_head src) ≡ true = !=_not _ _ ∙ ap not h in
          (
            update (update t.pin dst (t.pin src)) src (queue_head src),
            rw (e, u) refl,
            ground arith,
            rw h (ground arith),
            λ k i j. ground arith,
          )
    ]
concatqueue-run src dst t (y ∷ ys) n r =
    let e =
      ==_of_ne (t.links.next (queue_head dst)) (queue_head dst)
        (λ q. r.distinct.0.0 (sym q ∙ r.linked.0)) in
    (
      update t.pin src (queue_head src),
      rw e refl,
      ground arith,
      ground arith,
      λ k i j. ground arith,
    )

joint_pin-inside :
    (src dst : ℕ) (t : Ptable) (xs ys : List ℕ)
    → IsQueue t src xs
    → IsQueue t dst ys
    → ¬ NotIn (joint_pin t src dst ys) (queue_head dst ∷ ys ++ xs)
joint_pin-inside src dst t xs [] p q h = elim (Bool-cases (t.pin src == queue_head src)) [
  | inl e ↦ q.pinned (subst (λ v. NotIn v (queue_head dst ∷ [])) (rw e refl) (h.0, tt))
  | inr e ↦ p.pinned (ground arith, subst (λ v. NotIn v xs) (rw e refl) h.1)
]
joint_pin-inside src dst t xs (y ∷ ys) p q h = q.pinned (All-left _ (queue_head dst ∷ y ∷ ys) xs h)

-- concatqueue of two well-formed queues without a common node appends the nodes of `src` to those of
-- `dst` and leaves `src` empty, with the pin at its head. The pin of `dst` stays, or becomes that of
-- `src` where `dst` was empty and `src` had a node pinned; both queues are well-formed again. No other
-- pin, no link of a node outside of the two queues, and no other part of the table changes.
pub concatqueue-IsQueue :
    (src dst : ℕ) (t : Ptable) (xs ys : List ℕ)
    → src ≢ dst
    → IsQueue t src xs
    → IsQueue t dst ys
    → Distinct ((queue_head dst ∷ ys) ++ queue_head src ∷ xs)
    → (pin' : ℕ → ℕ) × (links' : Links) × (concatqueue src dst t
        ≡ ok (tt, record t { pin = pin'; links = links' }))
      × IsQueue (record t { pin = pin'; links = links' }) src []
      × IsQueue (record t { pin = pin'; links = links' }) dst (ys ++ xs)
      × (pin' dst ≡ joint_pin t src dst ys)
      × ((k : ℕ) → k ≢ src → k ≢ dst → pin' k ≡ t.pin k)
      × ((y : ℕ)
          → NotIn y ((queue_head dst ∷ ys) ++ queue_head src ∷ xs)
          → (links'.next y ≡ t.links.next y) × (links'.prev y ≡ t.links.prev y))
concatqueue-IsQueue src dst t xs ys n p q d =
    let (pin', run, here, there, rest) = concatqueue-run src dst t ys n q.ring in
    let (emptied, filled) =
      list_bulk_move_tail-IsRing (queue_head src) (queue_head dst) t.links xs ys p.ring q.ring d in
    (
      pin',
      list_bulk_move_tail (queue_head src) (queue_head dst) t.links,
      run,
      record { ring = emptied; pinned = λ h. h.0 here },
      record {
        ring = filled;
        pinned = λ h.
            joint_pin-inside src dst t xs ys p q
              (subst (λ v. NotIn v (queue_head dst ∷ ys ++ xs)) there h);
      },
      there,
      rest,
      list_bulk_move_tail_rest (queue_head src) (queue_head dst) t.links xs ys p.ring q.ring d,
    )
