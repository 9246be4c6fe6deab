-- ===== src/Fs/Fat/Chains.antt =====
-- Chains of blocks in a FAT, and what free_chain does to one.
use cs4440proj3_final.Prelude.{
  ℕ, zero, suc, ◌+◌, ◌≤◌, ◌<◌, ◌≡◌, ◌≢◌, refl, ap, sym, ◌∙◌, some, List, [], ◌∷◌, length, set,
  get_elem?, arith, All, length-set, get_elem?-set_self, get_elem?-set_ne, lt_of_get_elem?,
}
use cs4440proj3_final.Fs.Fat.{fat_free_mark, fat_eof, free_chain}
use cs4440proj3_final.Fs.Fat.Tables.{free_count, free_count-set, free_count-le-length}

-- `blocks` are the blocks of the chain that begins at `head`: each entry names the next one, the
-- last one is FAT_EOF. An empty chain begins at FAT_EOF.
abbrev pub Chain : List ℕ → ℕ → List ℕ → Type 0
Chain v head [] = head ≡ fat_eof
Chain v head (b ∷ bs) =
    (head ≡ b) × (b ≢ fat_eof) × (nxt : ℕ) × (get_elem? v b ≡ some nxt) × Chain v nxt bs

-- not among the blocks
abbrev pub Avoids : ℕ → List ℕ → Type 0
Avoids b bs = All (λ x. b ≢ x) bs

abbrev pub Distinct : List ℕ → Type 0
Distinct [] = Unit
Distinct (b ∷ bs) = Avoids b bs × Distinct bs

-- A write elsewhere leaves a chain as it was.
pub Chain-set :
    (v : List ℕ) (b x : ℕ) (head : ℕ) (bs : List ℕ)
    → Avoids b bs
    → Chain v head bs
    → Chain (set v b x) head bs
Chain-set v b x head [] out c = c
Chain-set v b x head (h ∷ bs) out (e, ne, nxt, at, rest) =
    (e, ne, nxt, get_elem?-set_ne v b h x out.0 ∙ at, Chain-set v b x nxt bs out.1 rest)

-- every block of the list marked free
unfoldable pub clear : List ℕ → List ℕ → List ℕ
clear [] v = v
clear (b ∷ bs) v = clear bs (set v b fat_free_mark)

pub length-clear : (bs v : List ℕ) → length (clear bs v) ≡ length v
unfolding clear
length-clear [] v = refl
length-clear (b ∷ bs) v = length-clear bs (set v b fat_free_mark) ∙ length-set v b fat_free_mark

-- Entries of other blocks stay, those of the list are free.
pub get_elem?-clear_ne :
    (bs v : List ℕ) (i : ℕ) → Avoids i bs → get_elem? (clear bs v) i ≡ get_elem? v i
unfolding clear
get_elem?-clear_ne [] v i out = refl
get_elem?-clear_ne (b ∷ bs) v i out =
    get_elem?-clear_ne bs (set v b fat_free_mark) i out.1
    ∙ get_elem?-set_ne v b i fat_free_mark (λ e. out.0 (sym e))

-- A chain behind the first sector has no free entries: a free entry names block 0.
abbrev pub Data : List ℕ → Type 0
Data bs = All (λ b. 0 < b) bs

pub next-taken :
    (v : List ℕ) (nxt : ℕ) (bs : List ℕ) → Data bs → Chain v nxt bs → nxt ≢ fat_free_mark
next-taken v nxt [] d c = omega arith
next-taken v nxt (b ∷ bs) d c = omega (arith, c.0, d.0)

-- Clearing a chain gives back exactly its blocks.
free_count-clear :
    (v : List ℕ) (head : ℕ) (bs : List ℕ)
    → Chain v head bs
    → Distinct bs
    → Data bs
    → free_count (clear bs v) ≡ free_count v + length bs
unfolding clear
free_count-clear v head [] c u d = omega arith
free_count-clear v head (b ∷ bs) (e, ne, nxt, at, rest) u d =
    let v' = set v b fat_free_mark in
    let taken = next-taken v nxt bs d.1 rest in
    let one = free_count-set v b nxt fat_free_mark at in
    let more = free_count-clear v' nxt bs (Chain-set v b fat_free_mark nxt bs u.0 rest) u.1 d.1 in
    ground arith

-- So a chain is no longer than the table.
pub length-Chain :
    (v : List ℕ) (head : ℕ) (bs : List ℕ)
    → Chain v head bs
    → Distinct bs
    → Data bs
    → length bs ≤ length v
length-Chain v head bs c u d =
    omega (
      arith,
      free_count-clear v head bs c u d,
      free_count-le-length (clear bs v),
      length-clear bs v,
    )

pub free_chain-clear :
    (fuel : ℕ) (v : List ℕ) (head : ℕ) (bs : List ℕ)
    → Chain v head bs
    → Distinct bs
    → length bs < fuel
    → free_chain fuel head v ≡ some (clear bs v)
unfolding free_chain clear
free_chain-clear zero v head bs c u h = elim h [ ]
free_chain-clear (suc fuel) v head [] c u h = ground arith
free_chain-clear (suc fuel) v head (b ∷ []) (e, ne, nxt, at, rest) u h =
    let here : get_elem? v head ≡ some nxt = ap (get_elem? v) e ∙ at in ground arith
free_chain-clear (suc fuel) v head (b ∷ c ∷ bs) (e, ne, nxt, at, rest) u h =
    let v' = set v b fat_free_mark in
    let more =
      free_chain-clear fuel v' nxt (c ∷ bs) (Chain-set v b fat_free_mark nxt (c ∷ bs) u.0 rest) u.1
        (omega arith) in
    let go : nxt ≢ fat_eof = omega (arith, rest.0, rest.1) in
    let here : get_elem? v head ≡ some nxt = ap (get_elem? v) e ∙ at in ground arith

-- What freeing a chain does to the table.
pub record Freed (v : List ℕ) (bs : List ℕ) (v' : List ℕ) : Type 0 where
  pub free : All (λ b. get_elem? v' b ≡ some fat_free_mark) bs
  pub others : (i : ℕ) → Avoids i bs → get_elem? v' i ≡ get_elem? v i
  pub size : length v' ≡ length v
  pub count : free_count v' ≡ free_count v + length bs

clear-free :
    (v : List ℕ) (head : ℕ) (bs : List ℕ)
    → Chain v head bs
    → Distinct bs
    → All (λ b. get_elem? (clear bs v) b ≡ some fat_free_mark) bs
unfolding clear
clear-free v head [] c u = tt
clear-free v head (b ∷ bs) (e, ne, nxt, at, rest) u =
    let v' = set v b fat_free_mark in
    (
      get_elem?-clear_ne bs v' b u.0
          ∙ get_elem?-set_self v b fat_free_mark (lt_of_get_elem? v b at),
      clear-free v' nxt bs (Chain-set v b fat_free_mark nxt bs u.0 rest) u.1,
    )

-- On the head of a chain of different blocks, none of them block 0, free_chain ends within as many
-- rounds as the table is long; it marks every block of the chain free and changes no other entry,
-- and so raises the number of free entries by the length of the chain.
pub free_chain_lem :
    (v : List ℕ) (head : ℕ) (bs : List ℕ)
    → Chain v head bs
    → Distinct bs
    → Data bs
    → (v' : List ℕ) × (free_chain (suc (length v)) head v ≡ some v') × Freed v bs v'
free_chain_lem v head bs c u d = (
  clear bs v,
  free_chain-clear (suc (length v)) v head bs c u (omega (arith, length-Chain v head bs c u d)),
  record {
    free = clear-free v head bs c u;
    others = get_elem?-clear_ne bs v;
    size = length-clear bs v;
    count = free_count-clear v head bs c u d;
  },
)
