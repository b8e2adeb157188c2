-- ===== src/Tests/Kalloc.antt =====
-- A machine without a free page, and a page for it.
use hyu_ele.Base.{◌≡◌, refl, [], ◌∷◌, arith}
use hyu_ele.Base.Run.{ok}
use hyu_ele.Kalloc.{Kmem, kfree, kalloc}
use hyu_ele.Kalloc.Chain.{Free, kfree-Free}

abbrev bare : Kmem
bare = record { freelist = 0; next = λ _. 0 }

bare-Free : Free bare []
bare-Free = record { chain = refl; distinct = tt }

kfree-Free_example :
    (k' : Kmem) × (kfree 0x80100000 0x80200000 bare ≡ ok (tt, k'))
    × Free k' (0x80200000 ∷ [])
    × ((k'' : Kmem) × (kalloc k' ≡ ok (0x80200000, k'')) × Free k'' [])
kfree-Free_example =
    kfree-Free 0x80100000 0x80200000 bare [] bare-Free tt (omega arith) (omega arith) refl
      (omega arith)
