-- ===== src/Dirs/Canonical.antt =====
-- join_path of fs_dirs.c gives canonical paths.
use cs4440proj3_final.Prelude.{
  ℕ, zero, suc, ◌-◌, ◌≤◌, ◌<◌, ◌≡◌, refl, ◌∙◌, inl, inr, Bool, false, ◌&&◌, Bool-cases, [], ◌∷◌,
  Bytes, length, take, get_or, ltb, ◌==◌, arith, length-take,
}
use cs4440proj3_final.Dirs.{slash, is_root, printed, strip_slashes, joined, join_path}

-- a path that begins with a slash and has no slash at its end, but for the root
abbrev trailing : Bytes → Bool
trailing p = ltb 1 (length p) && (get_or p (length p - 1) 0 == slash)

pub record IsCanonical (p : Bytes) : Type 0 where
  pub absolute : get_or p 0 0 ≡ slash
  pub plain : trailing p ≡ false

get_or-take : (k : ℕ) (s : Bytes) → 0 < k → get_or (take k s) 0 0 ≡ get_or s 0 0
get_or-take zero s h = elim h [ ]
get_or-take (suc k) [] h = refl
get_or-take (suc k) (c ∷ s) h = refl

strip-IsCanonical :
    (k : ℕ) (out : Bytes)
    → length out ≡ k
    → get_or out 0 0 ≡ slash
    → IsCanonical (strip_slashes k out)
unfolding strip_slashes
strip-IsCanonical zero out size first = record { absolute = first; plain = ground arith }
strip-IsCanonical (suc k) out size first =
    elim (Bool-cases (ltb 0 k && (get_or out k 0 == slash))) [
      | inl more ↦
          let some_left : 0 < k = ground arith in
          rw more (
            strip-IsCanonical k (take k out) (omega (arith, length-take k out))
              (get_or-take k out some_left ∙ first))
      | inr stop ↦
          let last : length out - 1 ≡ k = omega arith in
          let test : ltb 1 (length out) ≡ ltb 0 k = ground arith in
          rw stop (record { absolute = first; plain = rw (last, test) stop })
    ]

joined-absolute : (cwd name : Bytes) → get_or cwd 0 0 ≡ slash → get_or (joined cwd name) 0 0 ≡ slash
unfolding joined
joined-absolute [] name h = absurd (omega arith)
joined-absolute (c ∷ cwd) name h = elim (Bool-cases (get_or name 0 0 == slash)) [
  | inl e ↦ rw e (ground arith)
  | inr e ↦ elim (Bool-cases (is_root (c ∷ cwd))) [ inl r ↦ rw (e, r) refl | inr r ↦ rw (e, r) h ]
]

-- From a current directory that begins with a slash, join_path with a buffer of at least two bytes
-- gives a canonical path for every name, also where the buffer cuts the path off.
pub join_path-IsCanonical :
    (cwd name : Bytes) (out_sz : ℕ)
    → get_or cwd 0 0 ≡ slash
    → 2 ≤ out_sz
    → IsCanonical (join_path cwd name out_sz)
unfolding join_path
join_path-IsCanonical cwd name out_sz h room =
    let path = joined cwd name in
    strip-IsCanonical (length (printed out_sz path)) (printed out_sz path) refl
      (get_or-take (out_sz - 1) path (omega arith) ∙ joined-absolute cwd name h)
