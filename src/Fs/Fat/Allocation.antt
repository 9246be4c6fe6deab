-- ===== src/Fs/Fat/Allocation.antt =====
-- The loop of write_whole_file that takes blocks: it succeeds exactly when there are enough free
-- ones, and then has built a chain of blocks that were free.
use cs4440proj3_final.Prelude.{
  ℕ, zero, suc, ◌≤◌, ◌<◌, ◌≡◌, ◌≢◌, refl, ap, sym, ◌∙◌, inl, inr, none, some, false, Option-cases,
  List, [], ◌∷◌, length, set, get_elem?, ◌==◌, arith, length-set, get_elem?-set_self,
  get_elem?-set_ne, lt_of_get_elem?,
}
use cs4440proj3_final.Fs.Fat.{fat_free_mark, fat_eof, find_free_block, Alloc, alloc_loop}
use cs4440proj3_final.Fs.Fat.Tables.{free_from, free_from-set, find_free_block-some}
use cs4440proj3_final.Fs.Fat.Chains.{Chain, Avoids}
use cs4440proj3_final.Fs.Fat.Hanging.{
  IsFresh, Avoids-fresh, IsFresh-set, Taken, find_some, hung, Hung_lem, IsFresh-before,
}

module _ (start : ℕ) (positive : 0 < start) where
  -- One round of the loop.
  alloc_step :
      (k : ℕ) (v : List ℕ) (prev head b : ℕ)
      → prev ≢ fat_eof
      → find_free_block (length v) start v ≡ some b
      → alloc_loop (length v) start (suc k) prev (record { head = head; table = v })
        ≡ alloc_loop (length v) start k b (record { head = head; table = hung v prev b })
  unfolding alloc_loop
  alloc_step k v prev head b ne found =
      let not_eof : (prev == fat_eof) ≡ false = ground arith in ground arith

  -- The loop with `prev` the end of the chain that is being built.
  record More (v : List ℕ) (prev k : ℕ) (bs v' : List ℕ) : Type 0 where
    taken : Taken start v k bs v'
    chain : Chain v' prev (prev ∷ bs)
    others : (i : ℕ) → Avoids i (prev ∷ bs) → get_elem? v' i ≡ get_elem? v i

  alloc-More :
      (k : ℕ) (v : List ℕ) (prev head : ℕ)
      → get_elem? v prev ≡ some fat_eof
      → start ≤ prev
      → length v ≤ fat_eof
      → k ≤ free_from start v
      → (bs v' : List ℕ) × (alloc_loop (length v) start k prev (record { head = head; table = v })
          ≡ (some head, v'))
        × More v prev k bs v'
  alloc-More zero v prev head at le small room = (
    [],
    v,
    unfold alloc_loop in refl,
    record {
      taken = record { count = refl; fresh = tt; distinct = tt; size = refl };
      chain = (refl, omega (arith, lt_of_get_elem? v prev at), fat_eof, at, refl);
      others = λ i out. refl;
    },
  )
  alloc-More (suc k) v prev head at le small room =
      let (b, found, f) = find_some v start (omega arith) in
      let h = Hung_lem start positive v prev b at le f in
      let v1 = hung v prev b in
      let (bs, v', e, m) =
        alloc-More k v1 b head h.tail f.0 (omega (arith, h.size)) (omega (arith, h.left)) in
      let (out_prev, out_b, fresh) =
        IsFresh-before start positive v prev b bs h f.0 m.taken.fresh in
      let ne : prev ≢ fat_eof = omega (arith, lt_of_get_elem? v prev at) in
      (
        b ∷ bs,
        v',
        alloc_step k v prev head b ne found
            ∙ ap (λ n. alloc_loop n start k b (record { head = head; table = v1 })) (sym h.size)
            ∙ e,
        record {
          taken = record {
            count = ap suc m.taken.count;
            fresh = (f, fresh);
            distinct = (out_b, m.taken.distinct);
            size = m.taken.size ∙ h.size;
          };
          chain = (refl, ne, b, m.others prev (h.apart, out_prev) ∙ h.link, m.chain);
          others = λ i out.
              m.others i out.1
              ∙ get_elem?-set_ne (set v b fat_eof) prev i b (λ e. out.0 (sym e))
              ∙ get_elem?-set_ne v b i fat_eof (λ e. out.1.0 (sym e));
        },
      )

  -- The first block that is taken.
  first_step :
      (k : ℕ) (v : List ℕ) (head b : ℕ)
      → find_free_block (length v) start v ≡ some b
      → alloc_loop (length v) start (suc k) fat_eof (record { head = head; table = v })
        ≡ alloc_loop (length v) start k b (record { head = b; table = set v b fat_eof })
  unfolding alloc_loop
  first_step k v head b found = ground arith

  left-first :
      (v : List ℕ) (b : ℕ)
      → IsFresh start v b
      → suc (free_from start (set v b fat_eof)) ≡ free_from start v
  left-first v b f = ground (arith, free_from-set start v b fat_free_mark fat_eof f.0 f.1)

  no_step :
      (k prev : ℕ) (v : List ℕ) (head : ℕ)
      → find_free_block (length v) start v ≡ none
      → (alloc_loop (length v) start (suc k) prev (record { head = head; table = v })).0 ≡ none
  unfolding alloc_loop
  no_step k prev v head e = ground arith

  -- Without enough free entries the loop ends with no space.
  none_more :
      (k : ℕ) (v : List ℕ) (prev head : ℕ)
      → get_elem? v prev ≡ some fat_eof
      → start ≤ prev
      → length v ≤ fat_eof
      → free_from start v < k
      → (alloc_loop (length v) start k prev (record { head = head; table = v })).0 ≡ none
  none_more zero v prev head at le small less = elim less [ ]
  none_more (suc k) v prev head at le small less =
      elim (Option-cases (find_free_block (length v) start v)) [
        | inl e ↦ no_step k prev v head e
        | inr (b, found) ↦
            let f = find_free_block-some v start {b = b} found in
            let h = Hung_lem start positive v prev b at le f in
            let v1 = hung v prev b in
            let ne : prev ≢ fat_eof = omega (arith, lt_of_get_elem? v prev at) in
            ap (λ r. r.0)
              (alloc_step k v prev head b ne found
                ∙ ap (λ n. alloc_loop n start k b (record { head = head; table = v1 }))
                    (sym h.size))
            ∙ none_more k v1 b head h.tail f.0 (omega (arith, h.size)) (omega (arith, h.left))
      ]

  -- What write_whole_file has after the loop: the head of a chain, or no space.
  pub record Allocated (v : List ℕ) (k head : ℕ) (bs v' : List ℕ) : Type 0 where
    pub taken : Taken start v k bs v'
    pub chain : Chain v' head bs
    pub others : (i : ℕ) → Avoids i bs → get_elem? v' i ≡ get_elem? v i

  abbrev pub empty : List ℕ → Alloc
  empty v = record { head = fat_eof; table = v }

  -- With at least `k` free entries from the start of the data on, in a table that is no longer than
  -- FAT_EOF, the loop takes `k` different blocks that were free, links them into a chain that ends
  -- with FAT_EOF, returns its head, and changes no other entry.
  pub alloc_loop-Allocated :
      (k : ℕ) (v : List ℕ)
      → length v ≤ fat_eof
      → k ≤ free_from start v
      → (head : ℕ) × (bs v' : List ℕ) × (alloc_loop (length v) start k fat_eof (empty v)
          ≡ (some head, v'))
        × Allocated v k head bs v'
  alloc_loop-Allocated zero v small room = (
    fat_eof,
    [],
    v,
    unfold alloc_loop in refl,
    record {
      taken = record { count = refl; fresh = tt; distinct = tt; size = refl };
      chain = refl;
      others = λ i out. refl;
    },
  )
  alloc_loop-Allocated (suc k) v small room =
      let (b, found, f) = find_some v start (omega arith) in
      let v1 = set v b fat_eof in
      let tail = get_elem?-set_self v b fat_eof (lt_of_get_elem? v b f.1) in
      let size = length-set v b fat_eof in
      let (bs, v', e, m) =
        alloc-More k v1 b b tail f.0 (omega (arith, size)) (omega (arith, left-first v b f)) in
      let out = Avoids-fresh start v1 b fat_eof bs tail (omega arith) m.taken.fresh in
      (
        b,
        b ∷ bs,
        v',
        first_step k v fat_eof b found
            ∙ ap (λ n. alloc_loop n start k b (record { head = b; table = v1 })) (sym size)
            ∙ e,
        record {
          taken = record {
            count = ap suc m.taken.count;
            fresh = (f, IsFresh-set start v b fat_eof bs out m.taken.fresh);
            distinct = (out, m.taken.distinct);
            size = m.taken.size ∙ size;
          };
          chain = m.chain;
          others = λ i o. m.others i o ∙ get_elem?-set_ne v b i fat_eof (λ e. o.0 (sym e));
        },
      )

  -- With fewer than `k` free entries from the start of the data on, in a table that is no longer than
  -- FAT_EOF, the loop ends with no space.
  pub alloc_loop-none :
      (k : ℕ) (v : List ℕ)
      → length v ≤ fat_eof
      → free_from start v < k
      → (alloc_loop (length v) start k fat_eof (empty v)).0 ≡ none
  alloc_loop-none zero v small less = elim less [ ]
  alloc_loop-none (suc k) v small less = elim (Option-cases (find_free_block (length v) start v)) [
    | inl e ↦ no_step k fat_eof v fat_eof e
    | inr (b, found) ↦
        let f = find_free_block-some v start {b = b} found in
        let v1 = set v b fat_eof in
        let tail = get_elem?-set_self v b fat_eof (lt_of_get_elem? v b f.1) in
        let size = length-set v b fat_eof in
        ap (λ r. r.0)
          (first_step k v fat_eof b found
            ∙ ap (λ n. alloc_loop n start k b (record { head = b; table = v1 })) (sym size))
        ∙ none_more k v1 b b tail f.0 (omega (arith, size)) (omega (arith, left-first v b f))
  ]
