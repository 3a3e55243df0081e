-- ===== src/Alloc/Tiling.antt =====
-- The blocks tile the array: each starts where the one before it ends, and the last ends with it.
use mazuki_os.Base.{
  ℕ, ◌+◌, ◌%◌, ◌^◌, ◌≤◌, ◌<◌, ◌≡◌, ◌≢◌, ◌⊎◌, inl, inr, refl, true, some, List, [], ◌∷◌, arith,
  Bool-cases, Option-cases, subst, ltb→lt, ◌==◌, ◌&&◌,
}
use mazuki_os.Alloc.{
  Block, Heap, zeroed, heap_size, header_size, initialize, align4, payload, splits, fits, carve,
  first_fit, alloc, mark_free, merge_from, merge, alloc_free,
}

-- The blocks fill the array from offset `o` to offset `end`, each payload a multiple of 4 long.
abbrev pub Tiles : ℕ → ℕ → List Block → Type 0
Tiles o end [] = o ≡ end
Tiles o end (b ∷ bs) = (b.offset ≡ o) × (b.size % 4 ≡ 0) × Tiles (o + header_size + b.size) end bs

abbrev pub IsTiled : Heap → Type 0
IsTiled h = (h.is_initialized ≡ true) × Tiles 0 heap_size h.free_list

pub Tiles-le : (o end : ℕ) (bs : List Block) → Tiles o end bs → o ≤ end
Tiles-le o end [] t = omega arith
Tiles-le o end (b ∷ bs) t = omega (arith, Tiles-le (o + header_size + b.size) end bs t.2)

Tiles-from : {o o' : ℕ} (end : ℕ) (bs : List Block) → o ≡ o' → Tiles o end bs → Tiles o' end bs
Tiles-from end bs e t = subst (λ x. Tiles x end bs) e t

-- A split that the code makes leaves a positive rest.
pub splits-lt :
    (b : Block) (size o end : ℕ) (bs : List Block)
    → size ≤ b.size
    → end ≤ heap_size
    → Tiles o end (b ∷ bs)
    → splits b size ≡ true
    → size + header_size + 4 < b.size
splits-lt b size o end bs le small t cut =
    let inside : o + header_size + b.size ≤ end = Tiles-le (o + header_size + b.size) end bs t.2 in
    let tested : (size + header_size + 4) % 2 ^ 32 < b.size = ltb→lt _ _ cut in omega arith

carve-Tiles :
    (b : Block) (size o end : ℕ) (bs : List Block)
    → size % 4 ≡ 0
    → size ≤ b.size
    → end ≤ heap_size
    → Tiles o end (b ∷ bs)
    → Tiles o end (carve b size bs)
unfolding carve
carve-Tiles b size o end bs m le small t = elim (Bool-cases (splits b size)) [
  | inl cut ↦
      let room : size + header_size + 4 < b.size = splits-lt b size o end bs le small t cut in
      rw cut (t.0, m, (omega arith, omega arith, Tiles-from end bs (omega arith) t.2))
  | inr whole ↦ rw whole t
]

pub align4-mod : (size : ℕ) → align4 size % 4 ≡ 0
unfolding align4
align4-mod size = omega arith

first_fit-Tiles :
    (size o end : ℕ) (bs : List Block)
    → size % 4 ≡ 0
    → end ≤ heap_size
    → Tiles o end bs
    → Tiles o end (first_fit size bs).1
unfolding first_fit
first_fit-Tiles size o end [] m small t = t
first_fit-Tiles size o end (b ∷ bs) m small t = elim (Bool-cases (fits b size)) [
  | inl fit ↦ rw fit (carve-Tiles b size o end bs m (ground arith) small t)
  | inr other ↦
      rw other (t.0, t.1, first_fit-Tiles size (o + header_size + b.size) end bs m small t.2)
]

-- What `header->is_free = 1` does to the first block, or to the rest of the chain.
pub mark_free_cases {ℓ} :
    (P : List Block → Type ℓ) (p : ℕ) (b : Block) (bs : List Block) {bs' : List Block}
    → mark_free p (b ∷ bs) ≡ some bs'
    → (payload b ≡ p → P (record b { is_free = true } ∷ bs))
    → ((cs : List Block) → payload b ≢ p → mark_free p bs ≡ some cs → P (b ∷ cs))
    → P bs'
unfolding mark_free
mark_free_cases P p b bs {bs'} e here later = elim (Bool-cases (payload b == p)) [
  | inl hit ↦
      let same : record b { is_free = true } ∷ bs ≡ bs' = ground arith in
      rw same at (here (ground arith))
  | inr miss ↦ elim (Option-cases (mark_free p bs)) [
    | inl lost ↦ absurd (ground arith)
    | inr (cs, found) ↦
        let same : b ∷ cs ≡ bs' = ground arith in rw same at (later cs (ground arith) found)
  ]
]

mark_free-Tiles :
    (p o end : ℕ) (bs : List Block) {bs' : List Block}
    → mark_free p bs ≡ some bs'
    → Tiles o end bs
    → Tiles o end bs'
unfolding mark_free
mark_free-Tiles p o end [] e t = absurd (ground arith)
mark_free-Tiles p o end (b ∷ bs) {bs'} e t =
    mark_free_cases (λ cs. Tiles o end cs) p b bs e (λ _. t)
      λ cs _ found. (t.0, t.1, mark_free-Tiles p (o + header_size + b.size) end bs found t.2)

merge_from-Tiles :
    (b : Block) (o end : ℕ) (bs : List Block) → Tiles o end (b ∷ bs) → Tiles o end (merge_from b bs)
unfolding merge_from
merge_from-Tiles b o end [] t = t
merge_from-Tiles b o end (c ∷ bs) (at, whole, next) = elim (Bool-cases (b.is_free && c.is_free)) [
  | inl both ↦ rw both (
      merge_from-Tiles (record b { size = b.size + (header_size + c.size) }) o end bs
        (at, omega arith, Tiles-from end bs (omega arith) next.2))
  | inr apart ↦ rw apart (at, whole, merge_from-Tiles c (o + header_size + b.size) end bs next)
]

merge-Tiles : (o end : ℕ) (bs : List Block) → Tiles o end bs → Tiles o end (merge bs)
unfolding merge
merge-Tiles o end [] t = t
merge-Tiles o end (b ∷ bs) t = merge_from-Tiles b o end bs t

-- `alloc` keeps the tiling, and its first call sets it up.
pub alloc-IsTiled : (size : ℕ) (h : Heap) → (h ≡ zeroed) ⊎ IsTiled h → IsTiled (alloc size h).1
unfolding alloc initialize
alloc-IsTiled size h (inl e) = rw e (
  refl,
  first_fit-Tiles (align4 size) 0 heap_size _ (align4-mod size) (omega arith) (omega arith),
)
alloc-IsTiled size h (inr (on, t)) =
    rw on (
      refl,
      first_fit-Tiles (align4 size) 0 heap_size h.free_list (align4-mod size) (omega arith) t,
    )

-- So does `alloc_free`, of any pointer that it takes.
pub alloc_free-IsTiled :
    (p : ℕ) (h : Heap) {h' : Heap} → alloc_free p h ≡ some h' → IsTiled h → IsTiled h'
unfolding alloc_free
alloc_free-IsTiled p h {h'} e (on, t) = elim (Option-cases (mark_free p h.free_list)) [
  | inl lost ↦ absurd (ground arith)
  | inr (bs, found) ↦
      let next : Heap = record h { free_list = merge bs } in
      let same : next ≡ h' = ground arith in
      subst IsTiled same
        (on, merge-Tiles 0 heap_size bs (mark_free-Tiles p 0 heap_size h.free_list found t))
]
