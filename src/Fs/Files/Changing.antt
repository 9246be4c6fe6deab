-- ===== src/Fs/Files/Changing.antt =====
-- A change of one slot keeps the files consistent.
use mathlib.Core.Bool.{false≢true}
use mathlib.Core.Path.{subst}
use native.Mathlib.Decide.{ℕ_discrete}
use cs4440proj3_final.Prelude.{
  ℕ, ◌<◌, ◌≡◌, ◌≢◌, ap, sym, ◌∙◌, true, false, Option, none, some, List, [], ◌∷◌, Bytes, length,
  ◌==◌, All,
}
use cs4440proj3_final.Fs.Link.{Link}
use cs4440proj3_final.Fs.Link.Laws.{update, update_self, update_ne}
use cs4440proj3_final.Fs.Layout.{Layout}
use cs4440proj3_final.Fs.Dirent.{Dirent}
use cs4440proj3_final.Fs.State.{Fs, put_table}
use cs4440proj3_final.Fs.Fat.Chains.{Chain, Avoids}
use cs4440proj3_final.Fs.Fat.Replace.{Disjoint}
use cs4440proj3_final.Fs.File.Stored.{Stored-same, Covers}
use cs4440proj3_final.Fs.Directory.Entries.{entry_at}
use cs4440proj3_final.Fs.Directory.Search.{matches}
use cs4440proj3_final.Fs.Commands.Writing.{Mounted}
use cs4440proj3_final.Fs.Files.{IsName, Held, InUse, Has, IsConsistent, Agrees, Stands}

Avoids-sym : (b : ℕ) (cs : List ℕ) → Avoids b cs → All (λ c. c ≢ b) cs
Avoids-sym b [] h = tt
Avoids-sym b (c ∷ cs) h = ((λ e. h.0 (sym e)), Avoids-sym b cs h.1)

pub Disjoint-nil : (cs : List ℕ) → Disjoint [] cs
Disjoint-nil [] = tt
Disjoint-nil (c ∷ cs) = (tt, Disjoint-nil cs)

Disjoint-cons :
    (b : ℕ) (bs cs : List ℕ) → All (λ c. c ≢ b) cs → Disjoint bs cs → Disjoint (b ∷ bs) cs
Disjoint-cons b bs [] h d = tt
Disjoint-cons b bs (c ∷ cs) h d = ((h.0, d.0), Disjoint-cons b bs cs h.1 d.1)

Disjoint-sym : (bs cs : List ℕ) → Disjoint bs cs → Disjoint cs bs
Disjoint-sym bs [] d = Disjoint-nil bs
Disjoint-sym bs (c ∷ cs) d = Disjoint-cons c cs bs (Avoids-sym c bs d.0) (Disjoint-sym bs cs d.1)

-- A file whose entry, table entries and sectors are as they were.
Held-kept :
    {n : ℕ} {g : ℕ → Bytes} {l : Layout} {v : List ℕ} (i : ℕ) {bs : List ℕ} {bytes : Bytes}
    (g' : ℕ → Bytes) (v' : List ℕ)
    → Held n g l v i bs bytes
    → entry_at l g' i ≡ entry_at l g i
    → Chain v' (entry_at l g i).first bs
    → All (λ b. g' b ≡ g b) bs
    → Held n g' l v' i bs bytes
Held-kept {g} {v} i {bs} {bytes} g' v' h same chain stays = record {
  chain = subst (λ (e : Dirent). Chain v' e.first bs) (sym same) chain;
  distinct = h.distinct;
  behind = h.behind;
  in_disk = h.in_disk;
  stored = Stored-same g g' bs bytes 0 stays h.stored;
  len = ap (λ (e : Dirent). e.len) same ∙ h.len;
  covers = subst (λ (e : Dirent). Covers (length bs) e.len) (sym same) h.covers;
}

-- What a change of slot `i` of a consistent state does: the other slots, and the chains and sectors of
-- the other files, are as they were. The slot is not in use afterwards, or it is a new file with
-- blocks of its own and with names that no other slot has.
pub record Changed (n : ℕ) (g : ℕ → Bytes) (s : Fs) (c : IsConsistent n g s) (i : ℕ) (bs : List ℕ)
    (bytes : Bytes) (g' : ℕ → Bytes) (v' : List ℕ) (link' : Link) : Type 0 where
  pub mounted : Mounted n g' (record (put_table v' s) { link = link' })
  pub slots :
      (j : ℕ) → j < s.layout.dir_entries → j ≢ i → entry_at s.layout g' j ≡ entry_at s.layout g j
  pub others :
      (j : ℕ)
      → InUse s.layout g j
      → j ≢ i
      → Chain v' (entry_at s.layout g j).first (c.blocks j) × All (λ b. g' b ≡ g b) (c.blocks j)
  pub here : InUse s.layout g' i → Held n g' s.layout v' i bs bytes
  pub own : (j : ℕ) → InUse s.layout g j → j ≢ i → Disjoint bs (c.blocks j)
  pub names :
      (name : Bytes) (j : ℕ)
      → IsName name
      → matches name (entry_at s.layout g' i) ≡ true
      → Has s.layout g name j
      → j ≢ i
      → ⊥

module _ {n : ℕ} {g : ℕ → Bytes} {s : Fs} {c : IsConsistent n g s} {i : ℕ} {bs : List ℕ}
    {bytes : Bytes} {g' : ℕ → Bytes} {v' : List ℕ} {link' : Link}
    (ch : Changed n g s c i bs bytes g' v' link') where
  InUse-before : (j : ℕ) → InUse s.layout g' j → j ≢ i → InUse s.layout g j
  InUse-before j u ne = (u.0, ap (λ (e : Dirent). e.used == 0) (sym (ch.slots j u.0 ne)) ∙ u.1)

  had : (name : Bytes) (j : ℕ) → Has s.layout g' name j → j ≢ i → Has s.layout g name j
  had name j h ne = (h.0, ap (matches name) (sym (ch.slots j h.0 ne)) ∙ h.1)

  changed_held :
      (j : ℕ)
      → InUse s.layout g' j
      → Held n g' s.layout v' j (update c.blocks i bs j) (update c.bytes i bytes j)
  changed_held j u = elim (ℕ_discrete j i) [
    | yes e ↦
        rw (e, update_self c.blocks i bs, update_self c.bytes i bytes)
          (ch.here (subst (λ k. InUse s.layout g' k) e u))
    | no ne ↦
        let old = InUse-before j u ne in
        let kept = ch.others j old ne in
        rw (update_ne c.blocks i bs j ne, update_ne c.bytes i bytes j ne)
          (Held-kept j g' v' (c.held j old) (ch.slots j u.0 ne) kept.0 kept.1)
  ]

  changed_apart :
      (j k : ℕ)
      → InUse s.layout g' j
      → InUse s.layout g' k
      → j ≢ k
      → Disjoint (update c.blocks i bs j) (update c.blocks i bs k)
  changed_apart j k u w ne = elim (ℕ_discrete j i) [
    | yes e ↦
        let other : k ≢ i = λ e'. ne (e ∙ sym e') in
        rw (e, update_self c.blocks i bs, update_ne c.blocks i bs k other)
          (ch.own k (InUse-before k w other) other)
    | no nj ↦ elim (ℕ_discrete k i) [
      | yes e ↦
          rw (e, update_self c.blocks i bs, update_ne c.blocks i bs j nj)
            (Disjoint-sym bs (c.blocks j) (ch.own j (InUse-before j u nj) nj))
      | no nk ↦
          rw (update_ne c.blocks i bs j nj, update_ne c.blocks i bs k nk)
            (c.apart j k (InUse-before j u nj) (InUse-before k w nk) ne)
    ]
  ]

  changed_unique :
      (name : Bytes) (j k : ℕ)
      → IsName name
      → Has s.layout g' name j
      → Has s.layout g' name k
      → j ≡ k
  changed_unique name j k ok hj hk = elim (ℕ_discrete j i) [
    | yes e ↦ elim (ℕ_discrete k i) [
      | yes e' ↦ e ∙ sym e'
      | no nk ↦ absurd (
          ch.names name k ok (ap (λ m. matches name (entry_at s.layout g' m)) (sym e) ∙ hj.1)
            (had name k hk nk) nk)
    ]
    | no nj ↦ elim (ℕ_discrete k i) [
      | yes e ↦ absurd (
          ch.names name j ok (ap (λ m. matches name (entry_at s.layout g' m)) (sym e) ∙ hk.1)
            (had name j hj nj) nj)
      | no nk ↦ c.unique name j k ok (had name j hj nj) (had name k hk nk)
    ]
  ]

  Changed-IsConsistent : IsConsistent n g' (record (put_table v' s) { link = link' })
  Changed-IsConsistent = record {
    mounted = ch.mounted;
    blocks = update c.blocks i bs;
    bytes = update c.bytes i bytes;
    held = changed_held;
    apart = changed_apart;
    unique = changed_unique;
  }

  -- Names that the changed slot has neither before nor after mean what they meant.
  pub Agrees-kept :
      (name : Bytes) (o : Option Bytes)
      → matches name (entry_at s.layout g i) ≡ false
      → matches name (entry_at s.layout g' i) ≡ false
      → Agrees s.layout g c.bytes name o
      → Agrees s.layout g' (update c.bytes i bytes) name o
  Agrees-kept name none before after a = λ j lt. elim (ℕ_discrete j i) [
    | yes e ↦ ap (λ m. matches name (entry_at s.layout g' m)) e ∙ after
    | no ne ↦ ap (matches name) (ch.slots j lt ne) ∙ a j lt
  ]
  Agrees-kept name (some b) before after (j, h, e) =
      let ne : j ≢ i = λ same.
        false≢true (sym before ∙ ap (λ m. matches name (entry_at s.layout g m)) (sym same) ∙ h.1) in
      (j, (h.0, ap (matches name) (ch.slots j h.0 ne) ∙ h.1), update_ne c.bytes i bytes j ne ∙ e)

  pub Changed-Stands :
      {files : Bytes → Option Bytes}
      → ((x : Bytes) → IsName x → Agrees s.layout g' (update c.bytes i bytes) x (files x))
      → Stands n files (record (put_table v' s) { link = link' })
  unfolding Changed-IsConsistent
  Changed-Stands a = record { g = g'; consistent = Changed-IsConsistent; agrees = a }
