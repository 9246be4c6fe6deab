-- ===== src/Clients/Rand/Steady.antt =====
-- disk_rand.c against the disk server: every request is answered.
use mathlib.Core.Path.{subst}
use native.Mathlib.Nat.{mod-lt}
use cs4440proj3_final.Prelude.{
  ℕ, zero, suc, ◌+◌, ◌/◌, ◌%◌, ◌<◌, ◌≡◌, ◌≢◌, refl, ap, ◌∙◌, inl, inr, [], ◌∷◌, ◌++◌, Bytes, length,
  arith, Bool-cases, ==→eq, ◌==◌, if◌then◌else◌,
}
use cs4440proj3_final.Text.{newline}
use cs4440proj3_final.Fs.Exec.{ok, Runs, step}
use cs4440proj3_final.Fs.Link.{Link, blksz}
use cs4440proj3_final.Fs.Link.Laws.{Holds, update, receive_lem, receive_block}
use cs4440proj3_final.Clients.Exchanges.{length-sector, R-Answered, block-Answered, index}
use cs4440proj3_final.Clients.Rand.{
  Rand, putchar, rand, random_bytes, random_write, random_read, discard, tidy, one_request,
  requests,
}

-- what stands on stdout: letters, and newlines
abbrev letters : Bytes → ℕ
letters [] = 0
letters (c ∷ s) = (if c == newline then 0 else 1) + letters s

abbrev newlines : Bytes → ℕ
newlines [] = 0
newlines (c ∷ s) = (if c == newline then 1 else 0) + newlines s

pub letters-append : (s : Bytes) (c : ℕ) → letters (s ++ (c ∷ [])) ≡ letters s + letters (c ∷ [])
letters-append [] c = omega arith
letters-append (x ∷ s) c = omega (arith, letters-append s c)

pub newlines-append :
    (s : Bytes) (c : ℕ) → newlines (s ++ (c ∷ [])) ≡ newlines s + newlines (c ∷ [])
newlines-append [] c = omega arith
newlines-append (x ∷ s) c = omega (arith, newlines-append s c)

-- The state between two requests: the connection is at rest and holds sectors, on a disk of the given
-- geometry, and stdout has as many letters and newlines as are told.
pub record Steady (n cyl sec i lines : ℕ) (s : Rand) : Type 0 where
  pub g : ℕ → Bytes
  pub holds : Holds n g s.link
  pub cylinders : s.link.server.cyl ≡ cyl
  pub sectors : s.link.server.sec ≡ sec
  pub answered : letters s.out ≡ i
  pub breaks : newlines s.out ≡ lines

module _ (rands : ℕ → ℕ) where
  length-random_bytes :
      (k : ℕ) (s : Rand)
      → (b : Bytes) × (calls : ℕ) × (random_bytes rands k s ≡ (ok b, record s { calls = calls }))
        × (length b ≡ k)
  unfolding random_bytes rand
  length-random_bytes zero s = ([], s.calls, refl, refl)
  length-random_bytes (suc k) s =
      let (b, calls, e, size) = length-random_bytes k (record s { calls = suc s.calls }) in
      (rands s.calls % 256 ∷ b, calls, rw e, ap suc size)

  module _ {n cyl sec i lines c sc : ℕ} {s : Rand} (st : Steady n cyl sec i lines s) (hc : c < cyl)
      (hs : sc < sec) where
    random_write-Steady : Runs (random_write rands c sc) s tt (Steady n cyl sec (suc i) lines)
    unfolding random_write putchar
    random_write-Steady =
        let (buf, calls, e, size) = length-random_bytes blksz s in
        let a = block-Answered st.holds c sc (rw st.cylinders hc) (rw st.sectors hs) buf size in
        record {
          end = record { link = a.end; calls = calls; out = s.out ++ (b'w' ∷ []) };
          eq =
              rw (e, a.eq, receive_lem a.end (b'1' ∷ []) [])
                (ap
                  (λ (k : Link).
                    (ok tt, record { link = k; calls = calls; out = s.out ++ (b'w' ∷ []) }))
                  a.quiet);
          post = record {
            g = update st.g (index st.holds c sc (rw st.cylinders hc) (rw st.sectors hs)) buf;
            holds = a.post;
            cylinders = a.cyl ∙ st.cylinders;
            sectors = a.sec ∙ st.sectors;
            answered = omega (arith, letters-append s.out b'w', st.answered);
            breaks = omega (arith, newlines-append s.out b'w', st.breaks);
          };
        }

    random_read-Steady : Runs (random_read c sc) s tt (Steady n cyl sec (suc i) lines)
    unfolding random_read putchar discard
    random_read-Steady =
        let hc' : c < s.link.server.cyl = rw st.cylinders hc in
        let hs' : sc < s.link.server.sec = rw st.sectors hs in
        let a = R-Answered st.holds c sc hc' hs' in
        let b = st.g (index st.holds c sc hc' hs') in
        let size = length-sector st.holds c sc hc' hs' in
        record {
          end = record { link = a.end; calls = s.calls; out = s.out ++ (b'r' ∷ []) };
          eq =
              rw (a.eq, receive_lem a.end (b'1' ∷ []) b, receive_block a.end b size)
                (ap
                  (λ (k : Link).
                    (ok tt, record { link = k; calls = s.calls; out = s.out ++ (b'r' ∷ []) }))
                  a.quiet);
          post = record {
            g = st.g;
            holds = a.post;
            cylinders = a.cyl ∙ st.cylinders;
            sectors = a.sec ∙ st.sectors;
            answered = omega (arith, letters-append s.out b'r', st.answered);
            breaks = omega (arith, newlines-append s.out b'r', st.breaks);
          };
        }

-- A Runs from an equation of the whole and a run of what is left.
Steady-calls :
    {n cyl sec i lines : ℕ} {s : Rand} (k : ℕ)
    → Steady n cyl sec i lines s
    → Steady n cyl sec i lines (record s { calls = k })
Steady-calls k st = record {
  g = st.g;
  holds = st.holds;
  cylinders = st.cylinders;
  sectors = st.sectors;
  answered = st.answered;
  breaks = st.breaks;
}

module _ (rands : ℕ → ℕ) {n cyl sec : ℕ} (some_cyl : 0 < cyl) (some_sec : 0 < sec) where
  one_request-Steady :
      {i lines : ℕ} {s : Rand}
      → Steady n cyl sec i lines s
      → Runs (one_request rands cyl sec) s tt (Steady n cyl sec (suc i) lines)
  unfolding one_request rand
  one_request-Steady {s} st =
      let k = s.calls in
      let st' = Steady-calls (suc (suc (suc k))) st in
      let hc = mod-lt (rands k) some_cyl in
      let hs = mod-lt (rands (suc k)) some_sec in
      elim (Bool-cases (rands (suc (suc k)) % 2 == 1)) [
        | inl write ↦
            let r = random_write-Steady rands st' hc hs in
            record { end = r.end; eq = rw write r.eq; post = r.post }
        | inr read ↦
            let r = random_read-Steady rands st' hc hs in
            record { end = r.end; eq = rw read r.eq; post = r.post }
      ]

  tidy-Steady :
      {i : ℕ} {s : Rand}
      → Steady n cyl sec (suc i) (i / 64) s
      → Runs (tidy i) s tt (Steady n cyl sec (suc i) (suc i / 64))
  unfolding tidy putchar
  tidy-Steady {i} {s} st = elim (Bool-cases ((i + 1) % 64 == 0)) [
    | inl full ↦ record {
      end = record s { out = s.out ++ (newline ∷ []) };
      eq = rw full;
      post = record {
        g = st.g;
        holds = st.holds;
        cylinders = st.cylinders;
        sectors = st.sectors;
        answered = omega (arith, letters-append s.out newline, st.answered);
        breaks = omega (arith, newlines-append s.out newline, st.breaks, ==→eq _ _ full);
      };
    }
    | inr open_line ↦ record {
      end = s;
      eq = rw open_line;
      post = record {
        g = st.g;
        holds = st.holds;
        cylinders = st.cylinders;
        sectors = st.sectors;
        answered = st.answered;
        breaks = let ne : (i + 1) % 64 ≢ 0 = ground arith in omega (arith, st.breaks);
      };
    }
  ]

  pub requests-Steady :
      (k i : ℕ) {s : Rand}
      → Steady n cyl sec i (i / 64) s
      → Runs (requests rands cyl sec k i) s tt (Steady n cyl sec (i + k) ((i + k) / 64))
  unfolding requests
  requests-Steady zero i {s} st =
      let e : i ≡ i + 0 = omega arith in
      record { end = s; eq = refl; post = subst (λ j. Steady n cyl sec j (j / 64) s) e st }
  requests-Steady (suc k) i {s} st =
      let first = one_request-Steady st in
      let second = tidy-Steady first.post in
      let e : suc i ≡ i + 1 = omega arith in
      let rest =
        requests-Steady k (i + 1)
          (subst (λ j. Steady n cyl sec j (j / 64) second.end) e second.post) in
      let e' : i + 1 + k ≡ i + suc k = omega arith in
      record {
        end = rest.end;
        eq = step _ first.eq ∙ step _ second.eq ∙ rest.eq;
        post = subst (λ j. Steady n cyl sec j (j / 64) rest.end) e' rest.post;
      }
