-- ===== src/Threads/Queries.antt =====
-- The searches, the updates and the count over the threads of a process.
use hyu_ele.Base.{
  ℕ, zero, suc, ◌+◌, ◌<◌, ◌≡◌, refl, sym, ap, ◌∙◌, false, ◌==◌, List, [], ◌∷◌, ◌++◌, map, length,
  All, NotIn, Distinct, ==_of_ne, ==_iff, update, All-append, arith,
}
use hyu_ele.Base.Run.{ok, pure, ◌>>◌}
use hyu_ele.Links.{Links}
use hyu_ele.Links.Ring.{Seg}
use hyu_ele.Ptable.{Ptable, Proc, nproc_max, thgroup_node, set_proc, is_runnable, is_sleeping}
use hyu_ele.Threads.{
  Routine, threads_apply, get_thread, ready_thread, sleeping_thread, ready_or_running_thread,
  terminate_proc, size_loop, thread_size, is_ready_or_running,
}
use hyu_ele.Threads.Walk.{IsGroup, KeepsGroups, apply_list, threads_apply-eq, find, query-eq}

module _ (p : ℕ) (ts : List ℕ) (t : Ptable) (g : IsGroup t p ts) where
  -- On a well-formed thread ring the four searches change nothing and return the first thread, from
  -- the one behind `p` round to `p` itself, that is RUNNABLE, SLEEPING, RUNNABLE or RUNNING, or has
  -- the thread identifier; they return null if there is none.
  pub searches-find :
      (tid : ℕ)
      → (ready_thread p t ≡ ok (find (λ x. is_runnable (t.proc x).state) (ts ++ p ∷ []), t))
        × (sleeping_thread p t ≡ ok (find (λ x. is_sleeping (t.proc x).state) (ts ++ p ∷ []), t))
        × (ready_or_running_thread p t
            ≡ ok (find (λ x. is_ready_or_running (t.proc x)) (ts ++ p ∷ []), t))
        × (get_thread p tid t ≡ ok (find (λ x. (t.proc x).tid == tid) (ts ++ p ∷ []), t))
  unfolding ready_thread sleeping_thread ready_or_running_thread get_thread
  searches-find tid = (
    query-eq (λ q. is_runnable q.state) p ts t g,
    query-eq (λ q. is_sleeping q.state) p ts t g,
    query-eq is_ready_or_running p ts t g,
    query-eq (λ q. q.tid == tid) p ts t g,
  )

-- Changing the entries of a list of threads one after the other.
abbrev pub mapped : (Proc → Proc) → List ℕ → (ℕ → Proc) → ℕ → Proc
mapped f [] proc = proc
mapped f (x ∷ xs) proc = mapped f xs (update proc x (f (proc x)))

abbrev pub changing : (Proc → Proc) → Routine
changing f th = set_proc th f >> pure false

changing-KeepsGroups : (f : Proc → Proc) → KeepsGroups (changing f)
changing-KeepsGroups f x s s' b e q = ground arith

apply_list-mapped :
    (f : Proc → Proc) (xs : List ℕ) (t : Ptable)
    → apply_list (changing f) xs t ≡ ok (0, record t { proc = mapped f xs t.proc })
unfolding apply_list
apply_list-mapped f [] t = refl
apply_list-mapped f (x ∷ xs) t =
    apply_list-mapped f xs (record t { proc = update t.proc x (f (t.proc x)) })

pub mapped-outside :
    (f : Proc → Proc) (xs : List ℕ) (proc : ℕ → Proc) (q : ℕ)
    → NotIn q xs
    → mapped f xs proc q ≡ proc q
mapped-outside f [] proc q n = refl
mapped-outside f (x ∷ xs) proc q n =
    mapped-outside f xs (update proc x (f (proc x))) q n.1 ∙ rw (==_of_ne q x n.0)

mapped-inside :
    (f : Proc → Proc) (xs : List ℕ) (proc : ℕ → Proc)
    → Distinct xs
    → All (λ q. mapped f xs proc q ≡ f (proc q)) xs
mapped-inside f [] proc d = tt
mapped-inside f (x ∷ xs) proc d = (
  mapped-outside f xs (update proc x (f (proc x))) x d.0 ∙ rw ((==_iff x x).1 refl),
  rest xs d.0 (mapped-inside f xs (update proc x (f (proc x))) d.1),
)
  where
    rest :
        (ys : List ℕ)
        → NotIn x ys
        → All
            (λ q. mapped f xs (update proc x (f (proc x))) q ≡ f (update proc x (f (proc x)) q))
            ys
        → All (λ q. mapped f xs (update proc x (f (proc x))) q ≡ f (proc q)) ys
    rest [] n a = tt
    rest (y ∷ ys) n a = (a.0 ∙ rw (==_of_ne y x (λ e. n.0 (sym e))), rest ys n.1 a.1)

thgroup-NotIn : (x : ℕ) (xs : List ℕ) → NotIn (thgroup_node x) (map thgroup_node xs) → NotIn x xs
thgroup-NotIn x [] n = tt
thgroup-NotIn x (y ∷ ys) n = (λ e. n.0 (ap thgroup_node e), thgroup-NotIn x ys n.1)

thgroup-Distinct : (xs : List ℕ) → Distinct (map thgroup_node xs) → Distinct xs
thgroup-Distinct [] d = tt
thgroup-Distinct (x ∷ xs) d = (thgroup-NotIn x xs d.0, thgroup-Distinct xs d.1)

Distinct-rotate : (p : ℕ) (xs : List ℕ) → Distinct (p ∷ xs) → Distinct (xs ++ p ∷ [])
Distinct-rotate p [] d = d
Distinct-rotate p (x ∷ xs) d =
    (All-append _ xs (p ∷ []) d.1.0 (λ e. d.0.0 (sym e), tt), Distinct-rotate p xs (d.0.1, d.1.1))

pub changing-eq :
    (f : Proc → Proc) (p : ℕ) (ts : List ℕ) (t : Ptable)
    → IsGroup t p ts
    → (threads_apply p (changing f) t ≡ ok (0, record t { proc = mapped f (ts ++ p ∷ []) t.proc }))
      × All (λ q. mapped f (ts ++ p ∷ []) t.proc q ≡ f (t.proc q)) (ts ++ p ∷ [])
changing-eq f p ts t g = (
  threads_apply-eq (changing f) p ts t (changing-KeepsGroups f) g
      ∙ apply_list-mapped f (ts ++ p ∷ []) t,
  mapped-inside f (ts ++ p ∷ []) t.proc
      (Distinct-rotate p ts (thgroup-Distinct (p ∷ ts) g.0.distinct)),
)

-- `terminate_proc` marks every thread of the process as killed, changes nothing else of them, and
-- leaves all other entries and the rest of the table alone.
pub terminate_proc-marks :
    (p : ℕ) (ts : List ℕ) (t : Ptable)
    → IsGroup t p ts
    → (proc' : ℕ → Proc) × (terminate_proc p t ≡ ok (tt, record t { proc = proc' }))
      × All (λ q. proc' q ≡ record (t.proc q) { killed = 1 }) (ts ++ p ∷ [])
      × ((q : ℕ) → NotIn q (ts ++ p ∷ []) → proc' q ≡ t.proc q)
unfolding terminate_proc
terminate_proc-marks p ts t g =
    let kill : Proc → Proc = λ q. record q { killed = 1 } in
    let (run, inside) = changing-eq kill p ts t g in
    (mapped kill (ts ++ p ∷ []) t.proc, rw run, inside, mapped-outside kill (ts ++ p ∷ []) t.proc)

size_loop-eq :
    (k : ℕ) (m : Links) (a n : ℕ) (b : ℕ) (xs : List ℕ) (t : Ptable)
    → t.links ≡ m
    → length xs < k
    → Seg m a xs b
    → NotIn b xs
    → size_loop k b a n t ≡ ok (n + length xs + 1, t)
unfolding size_loop
size_loop-eq zero m a n b xs t e h s d = absurd (omega arith)
size_loop-eq (suc k) m a n b [] t e h s d =
    let at : t.links.next a ≡ b = ap (λ (l : Links). l.next a) e ∙ s.0 in ground arith
size_loop-eq (suc k) m a n b (x ∷ xs) t e h s d =
    let at : t.links.next a ≡ x = ap (λ (l : Links). l.next a) e ∙ s.0 in
    rw
      (
        at,
        ==_of_ne x b (λ q. d.0 (sym q)),
        size_loop-eq k m x (n + 1) b xs t e (omega arith) s.2 d.1,
      )
      (ap (λ r. ok (r, t)) (omega arith))

length-map : (xs : List ℕ) → length (map thgroup_node xs) ≡ length xs
length-map [] = refl
length-map (x ∷ xs) = ap suc (length-map xs)

-- `thread_size` counts the threads of the process.
pub thread_size-length :
    (p : ℕ) (ts : List ℕ) (t : Ptable) → IsGroup t p ts → thread_size p t ≡ ok (length ts + 1, t)
unfolding thread_size
thread_size-length p ts t g =
    size_loop-eq nproc_max t.links (thgroup_node p) 0 (thgroup_node p) (map thgroup_node ts) t refl
      (omega (arith, length-map ts, g.1)) g.0.linked g.0.distinct.0
    ∙ ap (λ r. ok (r, t)) (omega (arith, length-map ts))
