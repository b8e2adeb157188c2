-- ===== src/Threads/Walk.antt =====
-- What the walk over a thread ring does: the routine runs on every thread once, from the one behind
-- the given thread round to that thread itself, until it answers with a non-null pointer.
use hyu_ele.Base.{
  ℕ, zero, suc, ◌<◌, ◌≡◌, ◌≢◌, refl, sym, ◌∙◌, Bool, if◌then◌else◌, List, [], ◌∷◌, ◌++◌, map,
  length, length-append, NotIn, Bool-cases, ==_of_ne, arith, inl, inr,
}
use hyu_ele.Base.Run.{ok, pure, gets, ◌>>=◌, Run-cases}
use hyu_ele.Links.{Links}
use hyu_ele.Links.Ring.{IsRing, Seg}
use hyu_ele.Ptable.{K, Ptable, Proc, nproc_max, list_entry, thgroup_node}
use hyu_ele.Threads.{Routine, threads_loop, threads_apply}

-- The process of thread `p` has the threads `ts` besides, in the order of the ring from `p` on.
abbrev pub IsGroup : Ptable → ℕ → List ℕ → Type 0
IsGroup t p ts = IsRing t.links (thgroup_node p) (map thgroup_node ts) × (length ts < nproc_max)

-- Running a routine over a list of threads.
unfoldable pub apply_list : Routine → List ℕ → K ℕ
apply_list routine [] = pure 0
apply_list routine (x ∷ xs) = do
  stop ← routine x
  let rest = apply_list routine xs
  if stop then pure x else rest

-- The routine leaves the thread rings alone.
abbrev pub KeepsGroups : Routine → Type 0
KeepsGroups routine =
    (x : ℕ) (s s' : Ptable) (b : Bool)
    → routine x s ≡ ok (b, s')
    → (q : ℕ) → s'.links.next (thgroup_node q) ≡ s.links.next (thgroup_node q)

-- From `x` through `xs` the ring leads to `start`, which it does not meet before.
abbrev Leads : Links → ℕ → ℕ → List ℕ → Type 0
Leads m start x [] = m.next (thgroup_node x) ≡ start
Leads m start x (y ∷ xs) =
    (m.next (thgroup_node x) ≡ thgroup_node y) × (thgroup_node y ≢ start) × Leads m start y xs

Leads-frame :
    (m m' : Links) (start x : ℕ) (xs : List ℕ)
    → ((q : ℕ) → m'.next (thgroup_node q) ≡ m.next (thgroup_node q))
    → Leads m start x xs
    → Leads m' start x xs
Leads-frame m m' start x [] f l = f x ∙ l
Leads-frame m m' start x (y ∷ xs) f l = (f x ∙ l.0, l.1, Leads-frame m m' start y xs f l.2)

Leads-of_Seg :
    (m : Links) (start p x : ℕ) (xs : List ℕ)
    → Seg m (thgroup_node x) (map thgroup_node xs) (thgroup_node p)
    → NotIn start (map thgroup_node xs)
    → start ≢ thgroup_node p
    → m.next (thgroup_node p) ≡ start
    → Leads m start x (xs ++ p ∷ [])
Leads-of_Seg m start p x [] s n h e = (s.0, (λ q. h (sym q)), e)
Leads-of_Seg m start p x (y ∷ xs) s n h e =
    (s.0, (λ q. n.0 (sym q)), Leads-of_Seg m start p y xs s.2 n.1 h e)

list_entry-thgroup_node : (x : ℕ) → list_entry (thgroup_node x) ≡ x
list_entry-thgroup_node x = omega arith

module _ (routine : Routine) (keeps : KeepsGroups routine) (start : ℕ) where
  threads_loop-eq :
      (k x : ℕ) (xs : List ℕ) (t : Ptable)
      → length xs < k
      → Leads t.links start x xs
      → threads_loop k routine start (thgroup_node x) t ≡ apply_list routine (x ∷ xs) t
  unfolding threads_loop apply_list
  threads_loop-eq zero x xs t h l = absurd (omega arith)
  threads_loop-eq (suc k) x [] t h l =
      rw (list_entry-thgroup_node x, l)
        (elim (Run-cases (routine x t)) [
          | inl e ↦ rw e
          | inr (inl e) ↦ rw e
          | inr (inr (b, s, e)) ↦ rw e (ground arith)
        ])
  threads_loop-eq (suc k) x (y ∷ xs) t h l =
      rw (list_entry-thgroup_node x, l.0)
        (elim (Run-cases (routine x t)) [
          | inl e ↦ rw e
          | inr (inl e) ↦ rw e
          | inr (inr (b, s, e)) ↦
              rw (e, ==_of_ne _ _ l.1)
                (elim (Bool-cases b) [
                  | inl eb ↦ rw eb
                  | inr eb ↦ rw eb (
                      threads_loop-eq k y xs s (omega arith)
                        (Leads-frame t.links s.links start y xs (keeps x t s b e) l.2))
                ])
        ])

-- A walk visits the threads of the process in ring order and ends at the given thread.
pub threads_apply-eq :
    (routine : Routine) (p : ℕ) (ts : List ℕ) (t : Ptable)
    → KeepsGroups routine
    → IsGroup t p ts
    → threads_apply p routine t ≡ apply_list routine (ts ++ p ∷ []) t
unfolding threads_apply
threads_apply-eq routine p [] t keeps g =
    rw g.0.linked.0 (threads_loop-eq routine keeps _ nproc_max p [] t (omega arith) g.0.linked.0)
threads_apply-eq routine p (x ∷ xs) t keeps g =
    let r = g.0 in
    rw r.linked.0 (
      threads_loop-eq routine keeps _ nproc_max x (xs ++ p ∷ []) t
        (omega (arith, length-append xs (p ∷ []), g.1))
        (Leads-of_Seg t.links _ p x xs r.linked.2 r.distinct.1.0 (λ e. r.distinct.0.0 (sym e))
          r.linked.0))

-- The first of the threads whose entry passes the test, or null.
abbrev pub find : (ℕ → Bool) → List ℕ → ℕ
find test [] = 0
find test (x ∷ xs) = if test x then x else find test xs

pub apply_list-find :
    (test : Proc → Bool) (xs : List ℕ) (t : Ptable)
    → apply_list (λ th. gets (λ s. test (s.proc th))) xs t ≡ ok (find (λ x. test (t.proc x)) xs, t)
unfolding apply_list
apply_list-find test [] t = refl
apply_list-find test (x ∷ xs) t = ground (arith, apply_list-find test xs t)

abbrev pub query : (Proc → Bool) → Routine
query test th = gets (λ s. test (s.proc th))

pub query-KeepsGroups : (test : Proc → Bool) → KeepsGroups (query test)
query-KeepsGroups test x s s' b e q = ground arith

pub query-eq :
    (test : Proc → Bool) (p : ℕ) (ts : List ℕ) (t : Ptable)
    → IsGroup t p ts
    → threads_apply p (query test) t ≡ ok (find (λ x. test (t.proc x)) (ts ++ p ∷ []), t)
query-eq test p ts t g =
    threads_apply-eq (query test) p ts t (query-KeepsGroups test) g
    ∙ apply_list-find test (ts ++ p ∷ []) t
