-- ===== src/Xv6/Vm/User.antt =====
-- Asg02/xv6-2/vm.c: whole address spaces: the kernel's part, growing, copying and freeing.
use cs5460spring.Base.{
  ℕ, zero, suc, ◌+◌, ◌-◌, ◌*◌, ◌/◌, ◌%◌, ◌^◌, List, [], ◌∷◌, Option, none, some, Bool, true, false,
  not, ◌&&◌, ◌||◌, if◌then◌else◌, ltb, leb, ◌==◌, bit_or,
}
use cs5460spring.Xv6.Kalloc.{Kmem, pg_size, kern_base, phys_stop, v2p, store_word, kfree, kalloc}
use cs5460spring.Xv6.Vm.{
  p2v, pground_down, pground_up, pte_w, pte_u, is_present, is_user, pte_addr, pte_flags, zeroed,
  walkpgdir, mapped, refused, panicked, mappages, Resized, resized, panics, no_rounds, deallocuvm,
}

abbrev pub ext_mem : ℕ
ext_mem = 0x100000

abbrev pub dev_space : ℕ
dev_space = 0xFE000000

abbrev pub kern_link : ℕ
kern_link = kern_base + ext_mem

-- `struct kmap`.
pub record Kmap : Type 0 where
  pub virt : ℕ
  pub phys_start : ℕ
  pub phys_end : ℕ
  pub perm : ℕ

-- What a call that answers a page leaves: the page or null, or a panic. Its calls of `deallocuvm` may
-- also run out of rounds.
pub data Paged : Type 0 where
  paged : ℕ → Kmem → Paged
  panicking : Paged
  unfinished : Paged

-- The word-wise `memmove(to, from, PGSIZE)` of two pages.
abbrev pub copied : ℕ → ℕ → (ℕ → ℕ) → ℕ → ℕ
copied to from word a = if leb to a && ltb a (to + pg_size) then word (from + (a - to)) else word a

-- The addresses `end` and `data` are the linker's.
module _ (end data_start : ℕ) where
  -- `kmap`.
  abbrev pub kmap : List Kmap
  kmap =
      record { virt = kern_base; phys_start = 0; phys_end = ext_mem; perm = pte_w }
      ∷ record { virt = kern_link; phys_start = v2p kern_link; phys_end = v2p data_start; perm = 0 }
      ∷ record {
        virt = data_start;
        phys_start = v2p data_start;
        phys_end = phys_stop;
        perm = pte_w;
      }
      ∷ record { virt = dev_space; phys_start = dev_space; phys_end = 0; perm = pte_w }
      ∷ []

  -- The loop of `freevm` over the directory, with entries left; `none` is a panic.
  pub free_tables : ℕ → ℕ → ℕ → Kmem → Option Kmem
  free_tables zero pgdir i k = some k
  free_tables (suc n) pgdir i k =
      let pde = k.word (pgdir + 4 * i) in
      elim (if is_present pde then kfree end (p2v (pte_addr pde)) k else some k) [
        | none ↦ none
        | some k' ↦ free_tables n pgdir (i + 1) k'
      ]

  -- The end of `freevm`.
  pub free_directory : ℕ → Kmem → Paged
  unfolding free_tables
  free_directory pgdir k = elim (free_tables 1024 pgdir 0 k) [
    | none ↦ panicking
    | some k' ↦ elim (kfree end pgdir k') [ none ↦ panicking | some k'' ↦ paged 0 k'' ]
  ]

  -- `freevm`, with the null that its callers return next.
  pub freevm : ℕ → Kmem → Paged
  unfolding free_directory
  freevm pgdir k = if pgdir == 0 then panicking else elim (deallocuvm end pgdir kern_base 0 k) [
    | panics ↦ panicking
    | no_rounds ↦ unfinished
    | resized sz k' ↦ free_directory pgdir k'
  ]

  -- The loop of `setupkvm`.
  pub map_kernel : ℕ → List Kmap → Kmem → Paged
  map_kernel pgdir [] k = paged pgdir k
  map_kernel pgdir (m ∷ ms) k =
      elim (mappages pgdir (m.virt) ((m.phys_end + 2 ^ 32 - m.phys_start) % 2 ^ 32) (m.phys_start)
        (m.perm) k) [
          | panicked ↦ panicking
          | refused k' ↦ freevm pgdir k'
          | mapped k' ↦ map_kernel pgdir ms k'
        ]

  -- `setupkvm`.
  pub setupkvm : Kmem → Paged
  unfolding map_kernel
  setupkvm k0 =
      let (pgdir, k) = kalloc k0 in
      if pgdir == 0
      then paged 0 k
      else if ltb dev_space (p2v phys_stop)
      then panicking
      else map_kernel pgdir kmap (record k { word = zeroed pgdir k.word })

  -- `inituvm`, with the program's words; `none` is a panic. It does not test the answers of `kalloc`
  -- and `mappages`.
  pub inituvm : ℕ → (ℕ → ℕ) → ℕ → Kmem → Option Kmem
  inituvm pgdir init sz k0 =
      if leb pg_size sz
      then none
      else (let (mem, k) = kalloc k0 in
          let placed : Kmem → Option Kmem = λ k'. some (record k' {
            word = λ a. if leb mem a && ltb a (mem + sz) then init (a - mem) else k'.word a;
          }) in
          elim (mappages pgdir 0 pg_size (v2p mem) (bit_or pte_w pte_u)
            (record k { word = zeroed mem k.word })) [
              | panicked ↦ none
              | refused k' ↦ placed k'
              | mapped k' ↦ placed k'
            ])

  -- The size that a failing `allocuvm` returns.
  abbrev pub give_up : Resized → Resized
  give_up panics = panics
  give_up no_rounds = no_rounds
  give_up (resized sz k) = resized 0 k

  -- The page that was not mapped goes back.
  abbrev pub give_back : ℕ → Resized → Resized
  give_back mem panics = panics
  give_back mem no_rounds = no_rounds
  give_back mem (resized sz k) = elim (kfree end mem k) [ none ↦ panics | some k' ↦ resized 0 k' ]

  -- The loop of `allocuvm` from `a` on, with rounds left.
  pub alloc_from : ℕ → ℕ → ℕ → ℕ → ℕ → Kmem → Resized
  alloc_from zero pgdir a oldsz newsz k = no_rounds
  alloc_from (suc n) pgdir a oldsz newsz k0 =
      let (mem, k) = kalloc k0 in
      let rest : Resized =
        elim (mappages pgdir a pg_size (v2p mem) (bit_or pte_w pte_u)
          (record k { word = zeroed mem k.word })) [
            | panicked ↦ panics
            | refused k' ↦ give_back mem (deallocuvm end pgdir newsz oldsz k')
            | mapped k' ↦ alloc_from n pgdir ((a + pg_size) % 2 ^ 32) oldsz newsz k'
          ] in
      if not (ltb a newsz)
      then resized newsz k0
      else if mem == 0
      then give_up (deallocuvm end pgdir newsz oldsz k)
      else rest

  -- One round more than there are pages below `newsz` is enough.
  pub allocuvm : ℕ → ℕ → ℕ → Kmem → Resized
  unfolding alloc_from
  allocuvm pgdir oldsz newsz k =
      if leb kern_base newsz
      then resized 0 k
      else if ltb newsz oldsz
      then resized oldsz k
      else alloc_from (newsz / pg_size + 2) pgdir (pground_up oldsz) oldsz newsz k

  -- `clearpteu`; `none` is its panic.
  pub clearpteu : ℕ → ℕ → Kmem → Option Kmem
  clearpteu pgdir uva k =
      let (pte, k') = walkpgdir pgdir uva false k in
      if pte == 0
      then none
      else some (record k' {
        word =
            store_word k'.word pte
              (if is_user (k'.word pte) then k'.word pte - pte_u else k'.word pte);
      })

  -- The loop of `copyuvm` at page `i`, with rounds left.
  pub copy_from : ℕ → ℕ → ℕ → ℕ → ℕ → Kmem → Paged
  copy_from zero pgdir d i sz k = unfinished
  copy_from (suc n) pgdir d i sz k0 =
      let pte = (walkpgdir pgdir i false k0).0 in
      let pa = pte_addr (k0.word pte) in
      let flags = pte_flags (k0.word pte) in
      let (mem, k) = kalloc k0 in
      let rest : Paged =
        elim (mappages d i pg_size (v2p mem) flags
          (record k { word = copied mem (p2v pa) k.word })) [
            | panicked ↦ panicking
            | refused k' ↦ elim (kfree end mem k') [ none ↦ panicking | some k'' ↦ freevm d k'' ]
            | mapped k' ↦ copy_from n pgdir d ((i + pg_size) % 2 ^ 32) sz k'
          ] in
      if not (ltb i sz)
      then paged d k0
      else if pte == 0 || not (is_present (k0.word pte))
      then panicking
      else if mem == 0
      then freevm d k
      else rest

  -- One round more than there are pages below `sz` is enough.
  pub copyuvm : ℕ → ℕ → Kmem → Paged
  unfolding copy_from setupkvm
  copyuvm pgdir sz k = elim (setupkvm k) [
    | panicking ↦ panicking
    | unfinished ↦ unfinished
    | paged d k' ↦ if d == 0 then paged 0 k' else copy_from (sz / pg_size + 2) pgdir d 0 sz k'
  ]

-- `uva2ka`. Without a table it reads the entry at the null address.
pub uva2ka : ℕ → ℕ → Kmem → ℕ
uva2ka pgdir uva k =
    let pte = k.word ((walkpgdir pgdir uva false k).0) in
    if not (is_present pte) then 0 else if not (is_user pte) then 0 else p2v (pte_addr pte)

-- The bytes that `copyout` stores, as pairs of a kernel address and the number of bytes, with rounds
-- left; and whether it returns 0. The entries do not change meanwhile.
pub copyout : ℕ → ℕ → ℕ → ℕ → Kmem → List (ℕ × ℕ) × Bool
unfolding uva2ka
copyout zero pgdir va len k = ([], false)
copyout (suc rounds) pgdir va len k =
    let va0 = pground_down va in
    let pa0 = uva2ka pgdir va0 k in
    let fits = pg_size - (va - va0) in
    let n = if ltb len fits then len else fits in
    let (stores, done) = copyout rounds pgdir ((va0 + pg_size) % 2 ^ 32) (len - n) k in
    if len == 0
    then ([], true)
    else if pa0 == 0
    then ([], false)
    else (((pa0 + (va - va0)) % 2 ^ 32, n) ∷ stores, done)
