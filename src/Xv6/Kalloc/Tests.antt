-- ===== src/Xv6/Kalloc/Tests.antt =====
-- Asg02/xv6-2/kalloc.c: a free list of two pages.
use cs5460spring.Base.{ℕ, ◌≡◌, refl, List, [], ◌∷◌, some, false, arith, if◌then◌else◌, ◌==◌}
use cs5460spring.Xv6.Kalloc.{Kmem, kfree, freerange, freemem}
use cs5460spring.Xv6.Kalloc.Chain.{IsFreelist, kfree_frees}
use cs5460spring.Xv6.Kalloc.Count.{down_from, freemem_counts, freerange_lem}

abbrev kernel_end : ℕ
kernel_end = 0x80100000

abbrev two_pages : List ℕ
two_pages = 0x80102000 ∷ 0x80101000 ∷ []

abbrev two_free : Kmem
two_free = record {
  word = λ a. if a == 0x80102000 then 0x80101000 else 0;
  freelist = 0x80102000;
  use_lock = false;
}

two_free-IsFreelist : IsFreelist kernel_end two_free two_pages
two_free-IsFreelist = record {
  chain = (refl, omega arith, (refl, omega arith, refl));
  are_pages = (omega arith, (omega arith, tt));
  once = ((omega arith, tt), (tt, tt));
}

kfree_frees_example :
    (k' : Kmem) × (kfree kernel_end 0x80103000 two_free ≡ some k')
    × IsFreelist kernel_end k' (0x80103000 ∷ two_pages)
    × (k'.use_lock ≡ false)
kfree_frees_example =
    kfree_frees kernel_end 0x80103000 two_free two_pages (omega arith) (omega arith)
      (omega arith, (omega arith, tt)) two_free-IsFreelist

freemem_counts_example : freemem 60000 two_free ≡ some 8192
freemem_counts_example =
    freemem_counts kernel_end 60000 two_free two_pages (omega arith) two_free-IsFreelist
      (omega arith)

freerange_lem_example :
    (k' : Kmem) × (freerange kernel_end 0x80102100 0x80106000 two_free ≡ some k')
    × IsFreelist kernel_end k' (0x80105000 ∷ 0x80104000 ∷ 0x80103000 ∷ two_pages)
unfolding down_from
freerange_lem_example =
    freerange_lem kernel_end 0x80102100 0x80106000 two_free two_pages (omega arith) (omega arith)
      (omega arith) (omega arith) (omega arith, (omega arith, tt)) two_free-IsFreelist
