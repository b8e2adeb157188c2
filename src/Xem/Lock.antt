-- ===== src/Xem/Lock.antt =====
-- The semaphore of xem.c against a lock that hands itself to the longest-waiting thread.
use hyu_ele.Base.{
  ℕ, zero, suc, true, ap, ◌==◌, ==_iff, ==_of_ne, ◌-◌, ◌<◌, ◌≡◌, ◌⊎◌, refl, ◌∙◌, false, Option,
  none, some, List, [], ◌∷◌, ◌++◌, length, length-append, inl, inr, arith,
}
use hyu_ele.Base.Int.{ℤ, pos, ◌+ℤ◌, ◌-ℤ◌, leb_ℤ, pos_part, neg_part}
use hyu_ele.Xem.{
  take_guard, xem_wait_call, xem_unlock_call, Xem, Entry, acquired, waits, refused, xemqsz,
  xem_init, xem_wait, xem_unlock,
}
use hyu_ele.Xem.Queue.{
  contents, window, InRange, queue_add-contents, queue_remove-contents, queue_empty_lem,
}

-- The thread that has the lock, and those that wait for it, first come first.
pub record Lock : Type 0 where
  pub holder : Option ℤ
  pub waiting : List ℤ

abbrev pub free_lock : Lock
free_lock = record { holder = none; waiting = [] }

-- What a client of the lock sees of a call.
pub data Reply : Type 0 where
  granted : Reply
  queued : Reply
  woken : ℤ → Reply
  nobody : Reply

-- `inl tid` asks for the lock on behalf of a thread, `inr tt` gives it up.
abbrev pub Request : Type 0
Request = ℤ ⊎ Unit {0}

abbrev pub asked : ℤ → Option ℤ → List ℤ → Reply × Lock
asked tid none ws = (granted, record { holder = some tid; waiting = ws })
asked tid (some h) ws = (queued, record { holder = some h; waiting = ws ++ tid ∷ [] })

abbrev pub given : List ℤ → Reply × Lock
given [] = (nobody, free_lock)
given (w ∷ ws) = (woken w, record { holder = some w; waiting = ws })

unfoldable pub serve : Request → Lock → Reply × Lock
serve (inl tid) l = asked tid l.holder l.waiting
serve (inr _) l = given l.waiting

-- The same requests served by the code.
abbrev pub reply_of_entry : Entry × Xem → Reply × Xem
reply_of_entry (acquired, s) = (granted, s)
reply_of_entry (waits _, s) = (queued, s)
reply_of_entry (refused, s) = (nobody, s)

abbrev pub reply_of_wake : Option ℤ × Xem → Reply × Xem
reply_of_wake (none, s) = (nobody, s)
reply_of_wake (some w, s) = (woken w, s)

unfoldable pub call : Request → Xem → Reply × Xem
call (inl tid) s = reply_of_entry (xem_wait tid s)
call (inr _) s = reply_of_wake (xem_unlock s)

-- The count says who has the semaphore, the ring who waits.
abbrev CountOf : Option ℤ → List ℤ → ℤ → Type 0
CountOf none ws c = (ws ≡ []) × (c ≡ pos 1)
CountOf (some h) ws c = (pos_part c ≡ 0) × (neg_part c ≡ length ws)

pub record Represents (s : Xem) (l : Lock) : Type 0 where
  pub open_guard : s.guard ≡ 0
  pub in_range : InRange s.q
  pub queue : contents s.q ≡ l.waiting
  pub count : CountOf l.holder l.waiting s.count

-- A request that is allowed: nobody asks when the ring is full, and only a holder gives up.
abbrev pub Allowed : Request → Lock → Type 0
Allowed (inl tid) l = length l.waiting < xemqsz - 1
Allowed (inr _) l = (h : ℤ) × (l.holder ≡ some h)

pub xem_init-Represents : Represents xem_init free_lock
unfolding xem_init window
xem_init-Represents = record {
  open_guard = refl;
  in_range = omega arith;
  queue = refl;
  count = (refl, refl);
}

-- The two results of a call agree.
abbrev pub Agree : Reply × Xem → Reply × Lock → Type 0
Agree (r, s) (r', l) = (r ≡ r') × Represents s l

wait-Agree :
    (tid : ℤ) (s : Xem) (h : Option ℤ) (ws : List ℤ)
    → Represents s (record { holder = h; waiting = ws })
    → length ws < xemqsz - 1
    → Agree (call (inl tid) s) (asked tid h ws)
unfolding call xem_wait ◌-ℤ◌
wait-Agree tid s none ws r few = rw r.count.1 (
  refl,
  record {
    open_guard = refl;
    in_range = r.in_range;
    queue = r.queue;
    count = (refl, rw r.count.0);
  },
)
wait-Agree tid s (some h) ws r few =
    let (q', added, slot, held, v) = (queue_add-contents s.q tid r.in_range).0 (rw r.queue few) in
    let low : leb_ℤ (pos 0) (s.count -ℤ pos 1) ≡ false = ground (arith, r.count) in
    rw (low, added)
      (
        refl,
        record {
          open_guard = refl;
          in_range = v;
          queue = held ∙ rw r.queue;
          count = ground (arith, r.count, length-append ws (tid ∷ []));
        },
      )

unlock-Agree :
    (s : Xem) (h : ℤ) (ws : List ℤ)
    → Represents s (record { holder = some h; waiting = ws })
    → Agree (call (inr tt) s) (given ws)
unfolding call xem_unlock ◌+ℤ◌
unlock-Agree s h [] r = rw (queue_empty_lem s.q r.in_range r.queue) (
  refl,
  record {
    open_guard = refl;
    in_range = r.in_range;
    queue = r.queue;
    count = (refl, ground (arith, r.count));
  },
)
unlock-Agree s h (w ∷ ws) r =
    let (some_wait, first, rest, v) = queue_remove-contents s.q w ws r.in_range r.queue in
    rw (some_wait, first)
      (
        refl,
        record { open_guard = refl; in_range = v; queue = rest; count = ground (arith, r.count) },
      )

-- A semaphore that represents a lock answers an allowed request as the lock does, and represents the
-- lock that the request leaves: a request for a free lock is granted, other requests are queued in
-- order, and giving the lock up hands it to the first in the queue, whose thread is woken.
pub call-Agree :
    (op : Request) (s : Xem) (l : Lock)
    → Represents s l
    → Allowed op l
    → Agree (call op s) (serve op l)
unfolding serve
call-Agree (inl tid) s l r a = wait-Agree tid s l.holder l.waiting r a
call-Agree (inr u) s l r a = unlock-Agree s a.0 l.waiting (record {
  open_guard = r.open_guard;
  in_range = r.in_range;
  queue = r.queue;
  count = rw a.1 at r.count;
})

-- The replies to a sequence of requests.
unfoldable pub replies : List Request → Xem → List Reply
replies [] s = []
replies (op ∷ ops) s = let (r, s') = call op s in r ∷ replies ops s'

unfoldable pub served : List Request → Lock → List Reply
served [] l = []
served (op ∷ ops) l = let (r, l') = serve op l in r ∷ served ops l'

unfoldable pub AllAllowed : List Request → Lock → Type 0
AllAllowed [] l = Unit
AllAllowed (op ∷ ops) l = Allowed op l × AllAllowed ops (serve op l).1

-- No sequence of allowed requests tells the semaphore from the lock that it represents.
pub replies-eq-served :
    (ops : List Request) (s : Xem) (l : Lock)
    → Represents s l
    → AllAllowed ops l
    → replies ops s ≡ served ops l
unfolding replies served AllAllowed
replies-eq-served [] s l r a = refl
replies-eq-served (op ∷ ops) s l r a =
    let (same, r') = call-Agree op s l r a.0 in rw (same, replies-eq-served ops _ _ r' a.1)

refuses :
    (tid h : ℤ) (s : Xem) (ws : List ℤ)
    → Represents s (record { holder = some h; waiting = ws })
    → length ws ≡ xemqsz - 1
    → xem_wait tid (record s { guard = 1 })
      ≡ (refused, record s { guard = 1; count = s.count -ℤ pos 1 })
unfolding xem_wait ◌-ℤ◌
refuses tid h s ws r full =
    let low : leb_ℤ (pos 0) (s.count -ℤ pos 1) ≡ false = ground (arith, r.count) in
    rw (low, (queue_add-contents s.q tid r.in_range).1 (rw r.queue full))

take_guard_taken : (n : ℕ) (s : Xem) → s.guard ≡ 1 → take_guard n s ≡ none
unfolding take_guard
take_guard_taken zero s h = refl
take_guard_taken (suc n) s h =
    let test : (s.guard == 1) ≡ true = (==_iff s.guard 1).1 h in
    simp (test, take_guard_taken n (record s { guard = 1 }) refl) refl

take_guard_free :
    (n : ℕ) (s : Xem) → s.guard ≡ 0 → take_guard (suc n) s ≡ some (record s { guard = 1 })
unfolding take_guard
take_guard_free n s h =
    let test : (s.guard == 1) ≡ false = ==_of_ne s.guard 1 (λ e. omega arith) in simp test refl

wait_taken : (n : ℕ) (tid : ℤ) (s : Xem) → take_guard n s ≡ none → xem_wait_call n tid s ≡ none
unfolding xem_wait_call
wait_taken n tid s e =
    ap {A = Option Xem} (λ g. elim g [ none ↦ none | some held ↦ some (xem_wait tid held) ]) e

unlock_taken : (n : ℕ) (s : Xem) → take_guard n s ≡ none → xem_unlock_call n s ≡ none
unfolding xem_unlock_call
unlock_taken n s e =
    ap {A = Option Xem} (λ g. elim g [ none ↦ none | some held ↦ some (xem_unlock held) ]) e

wait_free :
    (n : ℕ) (tid : ℤ) (s held : Xem)
    → take_guard n s ≡ some held
    → xem_wait_call n tid s ≡ some (xem_wait tid held)
unfolding xem_wait_call
wait_free n tid s held e =
    ap {A = Option Xem} (λ g. elim g [ none ↦ none | some held ↦ some (xem_wait tid held) ]) e

-- When XEMQSZ - 1 threads wait already, xem_wait fails and leaves a semaphore on which no later call
-- of xem_wait or xem_unlock gets past the guard, in however many rounds of its loop.
pub xem_wait-stuck :
    (n : ℕ) (tid h : ℤ) (s : Xem) (ws : List ℤ)
    → Represents s (record { holder = some h; waiting = ws })
    → length ws ≡ xemqsz - 1
    → (s' : Xem) × (xem_wait_call (suc n) tid s ≡ some (refused, s'))
      × ((k : ℕ) (tid' : ℤ) → xem_wait_call k tid' s' ≡ none)
      × ((k : ℕ) → xem_unlock_call k s' ≡ none)
xem_wait-stuck n tid h s ws r full =
    let after : Xem = record s { guard = 1; count = s.count -ℤ pos 1 } in
    (
      after,
      wait_free (suc n) tid s (record s { guard = 1 }) (take_guard_free n s r.open_guard)
          ∙ ap some (refuses tid h s ws r full),
      (λ k tid'. wait_taken k tid' after (take_guard_taken k after refl)),
      λ k. unlock_taken k after (take_guard_taken k after refl),
    )
