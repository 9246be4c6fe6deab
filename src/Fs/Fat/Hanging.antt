-- ===== src/Fs/Fat/Hanging.antt =====
-- One step of the loop of write_whole_file that takes blocks: a free block is hung behind the chain.
use cs4440proj3_final.Prelude.{
  ℕ, suc, ◌≤◌, ◌<◌, ◌≡◌, ◌≢◌, ap, sym, ◌∙◌, inl, inr, some, Option-cases, List, [], ◌∷◌, length,
  set, get_elem?, arith, All, length-set, get_elem?-set_self, get_elem?-set_ne, lt_of_get_elem?,
}
use cs4440proj3_final.Fs.Fat.{fat_free_mark, fat_eof, find_free_block}
use cs4440proj3_final.Fs.Fat.Tables.{
  free_from, free_from-set, find_free_block-some, find_free_block-none,
}
use cs4440proj3_final.Fs.Fat.Chains.{Avoids, Distinct}

-- a block at or behind `start` that the table marks free
abbrev pub IsFresh : ℕ → List ℕ → ℕ → Type 0
IsFresh start v b = (start ≤ b) × (get_elem? v b ≡ some fat_free_mark)

-- The entry of `b` and a free entry are not the same.
pub Avoids-fresh :
    (start : ℕ) (v : List ℕ) (b x : ℕ) (bs : List ℕ)
    → get_elem? v b ≡ some x
    → x ≢ fat_free_mark
    → All (IsFresh start v) bs
    → Avoids b bs
Avoids-fresh start v b x [] e ne f = tt
Avoids-fresh start v b x (c ∷ bs) e ne f = (
  (λ same. ne (ground (arith, ap (get_elem? v) same, f.0.1))),
  Avoids-fresh start v b x bs e ne f.1,
)

-- What was free after a write elsewhere was free before it.
pub IsFresh-set :
    (start : ℕ) (v : List ℕ) (b x : ℕ) (bs : List ℕ)
    → Avoids b bs
    → All (IsFresh start (set v b x)) bs
    → All (IsFresh start v) bs
IsFresh-set start v b x [] out f = tt
IsFresh-set start v b x (c ∷ bs) out f =
    ((f.0.0, sym (get_elem?-set_ne v b c x out.0) ∙ f.0.1), IsFresh-set start v b x bs out.1 f.1)

-- What the loop has taken from `v`, leaving `v'`.
pub record Taken (start : ℕ) (v : List ℕ) (k : ℕ) (bs v' : List ℕ) : Type 0 where
  pub count : length bs ≡ k
  pub fresh : All (IsFresh start v) bs
  pub distinct : Distinct bs
  pub size : length v' ≡ length v

-- The search in a table with a free entry.
pub find_some :
    (v : List ℕ) (start : ℕ)
    → 0 < free_from start v
    → (b : ℕ) × (find_free_block (length v) start v ≡ some b) × IsFresh start v b
find_some v start h = elim (Option-cases (find_free_block (length v) start v)) [
  | inl e ↦ absurd (omega (arith, find_free_block-none v start e))
  | inr (b, e) ↦ (b, e, find_free_block-some v start {b = b} e)
]

-- The table after block `b` was taken and hung behind `prev`.
abbrev pub hung : List ℕ → ℕ → ℕ → List ℕ
hung v prev b = set (set v b fat_eof) prev b

module _ (start : ℕ) (positive : 0 < start) where
  pub record Hung (v : List ℕ) (prev b : ℕ) : Type 0 where
    pub tail : get_elem? (hung v prev b) b ≡ some fat_eof
    pub link : get_elem? (hung v prev b) prev ≡ some b
    pub left : suc (free_from start (hung v prev b)) ≡ free_from start v
    pub size : length (hung v prev b) ≡ length v
    pub apart : prev ≢ b

  pub Hung_lem :
      (v : List ℕ) (prev b : ℕ)
      → get_elem? v prev ≡ some fat_eof
      → start ≤ prev
      → IsFresh start v b
      → Hung v prev b
  Hung_lem v prev b at le f =
      let ne : prev ≢ b = λ e. ground (arith, ap (get_elem? v) e) in
      let v1 = set v b fat_eof in
      let at1 = get_elem?-set_ne v b prev fat_eof (λ e. ne (sym e)) ∙ at in
      record {
        tail =
            get_elem?-set_ne v1 prev b b ne
            ∙ get_elem?-set_self v b fat_eof (lt_of_get_elem? v b f.1);
        link = get_elem?-set_self v1 prev b (lt_of_get_elem? v1 prev at1);
        left = ground (
          arith,
          free_from-set start v b fat_free_mark fat_eof f.0 f.1,
          free_from-set start v1 prev fat_eof b le at1,
        );
        size = length-set v1 prev b ∙ length-set v b fat_eof;
        apart = ne;
      }

  -- What is free after a block was hung behind another was free before.
  pub IsFresh-before :
      (v : List ℕ) (prev b : ℕ) (bs : List ℕ)
      → Hung v prev b
      → start ≤ b
      → All (IsFresh start (hung v prev b)) bs
      → Avoids prev bs × Avoids b bs × All (IsFresh start v) bs
  IsFresh-before v prev b bs h le f =
      let out_prev = Avoids-fresh start (hung v prev b) prev b bs h.link (omega arith) f in
      let out_b = Avoids-fresh start (hung v prev b) b fat_eof bs h.tail (omega arith) f in
      (
        out_prev,
        out_b,
        IsFresh-set start v b fat_eof bs out_b
            (IsFresh-set start (set v b fat_eof) prev b bs out_prev f),
      )
