-- ===== src/Fs/Fat/Replace.antt =====
-- The FAT of fs_server.c when a file gets new contents: its old chain is freed, a new one is built,
-- and the chains of other files stay.
use cs4440proj3_final.Prelude.{
  ℕ, ◌+◌, ◌≤◌, ◌<◌, ◌≡◌, ◌∙◌, some, List, [], ◌∷◌, length, set, get_elem?, arith, All,
  lt_of_get_elem?,
}
use cs4440proj3_final.Fs.Fat.{fat_free_mark}
use cs4440proj3_final.Fs.Fat.Tables.{free_from, free_from-set}
use cs4440proj3_final.Fs.Fat.Chains.{
  Chain, Chain-set, Avoids, Distinct, Data, clear, next-taken, get_elem?-clear_ne,
}
use cs4440proj3_final.Fs.Fat.Hanging.{IsFresh, Avoids-fresh}
use cs4440proj3_final.Fs.Fat.Allocation.{Allocated}

-- no block in both lists
abbrev pub Disjoint : List ℕ → List ℕ → Type 0
Disjoint bs = All (λ b. Avoids b bs)

-- Freeing a chain behind `start` gives back as many blocks there as it has.
pub free_from-clear :
    (start : ℕ) (v : List ℕ) (head : ℕ) (bs : List ℕ)
    → 0 < start
    → Chain v head bs
    → Distinct bs
    → All (λ b. start ≤ b) bs
    → Data bs
    → free_from start (clear bs v) ≡ free_from start v + length bs
unfolding clear
free_from-clear start v head [] pos c u le d = omega arith
free_from-clear start v head (b ∷ bs) pos (e, ne, nxt, at, rest) u le d =
    let taken = next-taken v nxt bs d.1 rest in
    let one = free_from-set start v b nxt fat_free_mark le.0 at in
    let more =
      free_from-clear start (set v b fat_free_mark) nxt bs pos
        (Chain-set v b fat_free_mark nxt bs u.0 rest) u.1 le.1 d.1 in
    ground arith

pub behind-Data : (start : ℕ) (bs : List ℕ) → 0 < start → All (λ b. start ≤ b) bs → Data bs
behind-Data start [] pos le = tt
behind-Data start (b ∷ bs) pos le = (omega arith, behind-Data start bs pos le.1)

pub fresh-behind :
    (start : ℕ) (v : List ℕ) (bs : List ℕ) → All (IsFresh start v) bs → All (λ b. start ≤ b) bs
fresh-behind start v [] f = tt
fresh-behind start v (b ∷ bs) f = (f.0.0, fresh-behind start v bs f.1)

-- blocks that were free are in the table
pub fresh-lt :
    (start : ℕ) (v : List ℕ) (n : ℕ) (bs : List ℕ)
    → length v ≤ n
    → All (IsFresh start v) bs
    → All (λ b. b < n) bs
fresh-lt start v n [] le f = tt
fresh-lt start v n (b ∷ bs) le f =
    (omega (arith, lt_of_get_elem? v b f.0.1), fresh-lt start v n bs le f.1)

module _ (start : ℕ) (positive : 0 < start) where
  -- A chain of another file is not touched by freeing `old` and allocating `new`.
  pub other-Chain :
      (v : List ℕ) (old new : List ℕ) (v' : List ℕ) (k head : ℕ)
      → Allocated start positive (clear old v) k head new v'
      → (first : ℕ) (bs : List ℕ) → Chain v first bs
      → Data bs
      → Disjoint old bs
      → Chain v' first bs × Disjoint new bs
  other-Chain v old new v' k head a first [] c d out = (c, tt)
  other-Chain v old new v' k head a first (b ∷ bs) (e, ne, nxt, at, rest) d out =
      let kept : get_elem? (clear old v) b ≡ some nxt = get_elem?-clear_ne old v b out.0 ∙ at in
      let apart =
        Avoids-fresh start (clear old v) b nxt new kept (next-taken v nxt bs d.1 rest)
          a.taken.fresh in
      let (more, more_out) = other-Chain v old new v' k head a nxt bs rest d.1 out.1 in
      ((e, ne, nxt, a.others b apart ∙ kept, more), (apart, more_out))
