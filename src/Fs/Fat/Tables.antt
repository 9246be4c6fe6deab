-- ===== src/Fs/Fat/Tables.antt =====
-- Counting the free and the taken entries of a FAT, and what one write does to the counts.
use cs4440proj3_final.Prelude.{
  ℕ, zero, suc, ◌+◌, ◌-◌, ◌≤◌, ◌≡◌, refl, ap, sym, ◌∙◌, inl, inr, none, some, Bool-cases, List, [],
  ◌∷◌, length, take, drop, set, get_elem?, ◌==◌, if◌then◌else◌, arith,
}
use cs4440proj3_final.Fs.Fat.{first_free, find_free_block}

-- entries that mark a free block
unfoldable pub free_count : List ℕ → ℕ
free_count [] = 0
free_count (x ∷ v) = (if x == 0 then 1 else 0) + free_count v

-- One if the entry marks a free block.
abbrev is_free : ℕ → ℕ
is_free x = if x == 0 then 1 else 0

-- A write moves the count by what it takes away and puts in.
pub free_count-set :
    (v : List ℕ) (b x y : ℕ)
    → get_elem? v b ≡ some x
    → free_count (set v b y) + is_free x ≡ free_count v + is_free y
unfolding free_count
free_count-set [] b x y h = cc
free_count-set (z ∷ v) zero x y h = ground arith
free_count-set (z ∷ v) (suc b) x y h = omega (arith, free_count-set v b x y h)

pub free_count-le-length : (v : List ℕ) → free_count v ≤ length v
unfolding free_count
free_count-le-length [] = omega arith
free_count-le-length (x ∷ v) = ground (arith, free_count-le-length v)

-- From index `start` on.
unfoldable pub free_from : ℕ → List ℕ → ℕ
free_from start v = free_count (drop start v)

shift : (s i : ℕ) → suc (s + i) ≡ suc s + i
shift s i = omega arith

get_elem?-drop :
    (start : ℕ) (v : List ℕ) (i : ℕ) → get_elem? (drop start v) i ≡ get_elem? v (start + i)
get_elem?-drop zero v i = ap (get_elem? v) (omega arith)
get_elem?-drop (suc s) [] i = refl
get_elem?-drop (suc s) (x ∷ v) i = get_elem?-drop s v i ∙ ap (get_elem? (x ∷ v)) (shift s i)

drop-set :
    (start b : ℕ) (v : List ℕ) (y : ℕ)
    → start ≤ b
    → drop start (set v b y) ≡ set (drop start v) (b - start) y
drop-set zero b v y h = ap (λ k. set v k y) (omega arith)
drop-set (suc s) b [] y h = refl
drop-set (suc s) zero (x ∷ v) y h = absurd (omega arith)
drop-set (suc s) (suc b) (x ∷ v) y h =
    drop-set s b v y (omega arith) ∙ ap (λ k. set (drop s v) k y) (omega arith)

pub free_from-set :
    (start : ℕ) (v : List ℕ) (b x y : ℕ)
    → start ≤ b
    → get_elem? v b ≡ some x
    → free_from start (set v b y) + is_free x ≡ free_from start v + is_free y
unfolding free_from
free_from-set start v b x y h e = rw (drop-set start b v y h) (
    free_count-set (drop start v) (b - start) x y
      (get_elem?-drop start v (b - start) ∙ ap (get_elem? v) (omega arith) ∙ e))

sum_diff : (start b : ℕ) → start ≤ b → b ≡ start + (b - start)
sum_diff start b h = omega arith

zero_diff : (i b : ℕ) → i ≡ b → b - i ≡ 0
zero_diff i b e = omega arith

suc_diff : (i b : ℕ) → i + 1 ≤ b → b - i ≡ suc (b - (i + 1))
suc_diff i b h = omega arith

-- What the search for a free block finds.
first_free-some :
    (i : ℕ) (v : List ℕ) {b : ℕ}
    → first_free i v ≡ some b
    → (i ≤ b) × (get_elem? v (b - i) ≡ some 0)
unfolding first_free
first_free-some i [] h = cc
first_free-some i (x ∷ v) {b} h = elim (Bool-cases (x == 0)) [
  | inl free ↦
      let here : i ≡ b = ground arith in
      (omega arith, ap (get_elem? (x ∷ v)) (zero_diff i b here) ∙ ap some (ground arith))
  | inr taken ↦
      let (le, at) = first_free-some (i + 1) v {b = b} (rw taken at h) in
      (omega arith, ap (get_elem? (x ∷ v)) (suc_diff i b le) ∙ at)
]

first_free-none : (i : ℕ) (v : List ℕ) → first_free i v ≡ none → free_count v ≡ 0
unfolding first_free free_count
first_free-none i [] h = refl
first_free-none i (x ∷ v) h = ground (arith, first_free-none (i + 1) v)

take_all : (v : List ℕ) → take (length v) v ≡ v
take_all [] = refl
take_all (x ∷ v) = ap (λ l. x ∷ l) (take_all v)

-- find_free_block gives a block at or behind the start whose entry is free.
pub find_free_block-some :
    (v : List ℕ) (start : ℕ) {b : ℕ}
    → find_free_block (length v) start v ≡ some b
    → (start ≤ b) × (get_elem? v b ≡ some 0)
unfolding find_free_block
find_free_block-some v start {b} h =
    let (le, at) = first_free-some start (drop start v) {b = b} (rw take_all at h) in
    (le, ap (get_elem? v) (sum_diff start b le) ∙ sym (get_elem?-drop start v (b - start)) ∙ at)

-- It gives none only if no entry from there on is free.
pub find_free_block-none :
    (v : List ℕ) (start : ℕ) → find_free_block (length v) start v ≡ none → free_from start v ≡ 0
unfolding find_free_block free_from
find_free_block-none v start h = first_free-none start (drop start v) (rw take_all at h)
