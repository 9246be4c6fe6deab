-- ===== src/Dirs/Shell/Kept.antt =====
-- The current directory of fs_dirs.c stays canonical.
use mathlib.Core.Path.{subst}
use cs4440proj3_final.Prelude.{
  ℕ, zero, suc, ◌-◌, ◌≤◌, ◌≡◌, refl, ap, sym, inl, inr, Bool, true, false, Option, none, some,
  Bool-cases, Option-cases, [], ◌∷◌, Bytes, length, take, ◌==◌, if◌then◌else◌, arith, length-take,
}
use cs4440proj3_final.Dirs.{is_root, printed, joined, strip_slashes, join_path, path_to_fsname}
use cs4440proj3_final.Dirs.Canonical.{IsCanonical, join_path-IsCanonical}
use cs4440proj3_final.Dirs.Shell.{
  path_buf, code_of, name_line, Ending, silent, missing, internal, cd_ending, request_cd, cmd_cd,
}

length-strip_slashes : (k : ℕ) (out : Bytes) → length (strip_slashes k out) ≤ length out
unfolding strip_slashes
length-strip_slashes zero out = omega arith
length-strip_slashes (suc k) out =
    ground (arith, length-strip_slashes k (take k out), length-take k out)

take-le : (n : ℕ) (s : Bytes) → length s ≤ n → take n s ≡ s
take-le zero [] h = refl
take-le zero (x ∷ s) h = elim h [ ]
take-le (suc n) [] h = refl
take-le (suc n) (x ∷ s) h = ap (λ l. x ∷ l) (take-le n s (omega arith))

-- strncpy copies the whole path
copied :
    (cwd arg : Bytes)
    → take (path_buf - 1) (join_path cwd arg path_buf) ≡ join_path cwd arg path_buf
unfolding join_path
copied cwd arg =
    let out = printed path_buf (joined cwd arg) in
    take-le 1023 (strip_slashes (length out) out)
      (omega (arith, length-strip_slashes (length out) out, length-take 1023 (joined cwd arg)))

if-IsCanonical :
    {P : Type 0} (b : Bool) (x y : (Ending × Bytes) × P)
    → IsCanonical x.0.1
    → IsCanonical y.0.1
    → IsCanonical (if b then x else y).0.1
if-IsCanonical true x y hx hy = hx
if-IsCanonical false x y hx hy = hy

root-IsCanonical : IsCanonical (b'/' ∷ [])
root-IsCanonical = record { absolute = refl; plain = refl }

module _ {P : Type 0} (ask : Bytes → P → Option Bytes × P) where
  cd_ending-IsCanonical :
      (cwd arg : Bytes) (code : Option ℕ)
      → IsCanonical cwd
      → IsCanonical (cd_ending ask cwd (join_path cwd arg path_buf) code).1
  cd_ending-IsCanonical cwd arg none h = h
  cd_ending-IsCanonical cwd arg (some code) h =
      let path : IsCanonical (take (path_buf - 1) (join_path cwd arg path_buf)) =
        subst IsCanonical (sym (copied cwd arg))
          (join_path-IsCanonical cwd arg path_buf h.absolute (omega arith)) in
      elim (Bool-cases (code == 0)) [
        | inl e ↦ rw e path
        | inr e ↦ elim (Bool-cases (code == 1)) [ inl e' ↦ rw (e, e') h | inr e' ↦ rw (e, e') h ]
      ]

  request_cd-IsCanonical :
      (cwd arg fsname : Bytes) (p : P)
      → IsCanonical cwd
      → IsCanonical (request_cd ask cwd (join_path cwd arg path_buf) fsname p).0.1
  unfolding request_cd
  request_cd-IsCanonical cwd arg fsname p h =
      elim (Option-cases (ask (name_line b'R' fsname) p).0) [
        | inl e ↦ rw (request_cd, e) h
        | inr (r, e) ↦ rw (request_cd, e) (cd_ending-IsCanonical cwd arg (code_of r) h)
      ]

  -- From a canonical current directory, whatever the argument of cd is and whatever the filesystem
  -- server replies, the current directory is canonical afterwards.
  pub cmd_cd-IsCanonical :
      (cwd arg : Bytes) (p : P) → IsCanonical cwd → IsCanonical (cmd_cd ask cwd arg p).0.1
  unfolding cmd_cd
  cmd_cd-IsCanonical cwd arg p h =
      let path = join_path cwd arg path_buf in
      let fsname = path_to_fsname path path_buf in
      let asked : (Ending × Bytes) × P = request_cd ask cwd path fsname p in
      let named : (Ending × Bytes) × P =
        if length fsname == 0 then ((internal, cwd), p) else asked in
      let found : (Ending × Bytes) × P = if is_root path then ((silent, b'/' ∷ []), p) else named in
      let c = request_cd-IsCanonical cwd arg fsname p h in
      let b = if-IsCanonical (length fsname == 0) ((internal, cwd), p) asked h c in
      let a = if-IsCanonical (is_root path) ((silent, b'/' ∷ []), p) named root-IsCanonical b in
      if-IsCanonical (length arg == 0) ((missing, cwd), p) found h a
