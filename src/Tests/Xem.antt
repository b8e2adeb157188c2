-- ===== src/Tests/Xem.antt =====
-- The semaphore of xem.c with one holder and one waiting thread.
use hyu_ele.Base.{ℕ, none, ◌≡◌, refl, List, [], ◌∷◌, arith, if◌then◌else◌, ◌==◌, some, inl, inr}
use hyu_ele.Base.Int.{ℤ, pos, negsuc}
use hyu_ele.Xem.{xem_wait_call, xem_unlock_call, WaitQueue, Xem, refused, xem_init}
use hyu_ele.Xem.Queue.{contents, window, InRange}
use hyu_ele.Xem.Lock.{
  Represents, free_lock, Request, replies, served, serve, AllAllowed, replies-eq-served,
  xem_wait-stuck, xem_init-Represents,
}

abbrev ring : WaitQueue
ring = record { head = 63; rear = 1; queue = λ i. if i == 63 then pos 5 else pos 6 }

ring-InRange : InRange ring
ring-InRange = omega arith

ring-contents : contents ring ≡ pos 5 ∷ pos 6 ∷ []
unfolding window
ring-contents = refl

-- Thread 1 takes the semaphore, 2 and 3 wait, and it is handed on to 2 and to 3.
abbrev script : List Request
script = inl (pos 1) ∷ inl (pos 2) ∷ inl (pos 3) ∷ inr tt ∷ inr tt ∷ []

script-AllAllowed : AllAllowed script free_lock
unfolding AllAllowed serve
script-AllAllowed =
    (omega arith, (omega arith, (omega arith, ((pos 1, refl), ((pos 2, refl), tt)))))

replies-eq-served_example : replies script xem_init ≡ served script free_lock
replies-eq-served_example =
    replies-eq-served script xem_init free_lock xem_init-Represents script-AllAllowed

-- Sixty-three threads wait behind thread 1.
abbrev crowd : Xem
crowd = record {
  guard = 0;
  count = negsuc 62;
  q = record { head = 0; rear = 63; queue = λ _. pos 9 };
}

crowd-Represents : Represents crowd (record { holder = some (pos 1); waiting = contents crowd.q })
unfolding window
crowd-Represents = record {
  open_guard = refl;
  in_range = omega arith;
  queue = refl;
  count = (refl, refl);
}

xem_wait-stuck_example :
    (s' : Xem) × (xem_wait_call 1 (pos 2) crowd ≡ some (refused, s'))
    × ((k : ℕ) (tid' : ℤ) → xem_wait_call k tid' s' ≡ none)
    × ((k : ℕ) → xem_unlock_call k s' ≡ none)
unfolding window
xem_wait-stuck_example =
    xem_wait-stuck 0 (pos 2) (pos 1) crowd (contents crowd.q) crowd-Represents refl
