-- ===== src/Fs/Files/Naming.antt =====
-- Which names an entry has: the array that cmd_create fills has one, and an entry in use is found under
-- its name alone.
use cs4440proj3_final.Prelude.{
  ℕ, zero, suc, ◌-◌, ◌<◌, ◌≡◌, refl, ap, sym, ◌∙◌, true, [], ◌∷◌, ◌++◌, Bytes, length, replicate,
  arith,
}
use cs4440proj3_final.Text.Strings.{NoNul}
use cs4440proj3_final.Fs.Dirent.{Dirent, max_name, name_array, strncmp_eq}
use cs4440proj3_final.Fs.Dirent.Names.{take-le, replicate-pos}
use cs4440proj3_final.Fs.Directory.Search.{matches}
use cs4440proj3_final.Fs.Commands.{new_entry}

-- Strings without a NUL that compare equal are equal.
strncmp_eq-injective :
    (n : ℕ) (a zs b : Bytes)
    → NoNul a
    → NoNul b
    → length a < n
    → length b < n
    → strncmp_eq n (a ++ (0 ∷ zs)) b ≡ true
    → b ≡ a
unfolding strncmp_eq
strncmp_eq-injective zero a zs b ha hb la lb h = elim la [ ]
strncmp_eq-injective (suc n) [] zs [] ha hb la lb h = refl
strncmp_eq-injective (suc n) [] zs (y ∷ b) ha hb la lb h = ground arith
strncmp_eq-injective (suc n) (x ∷ a) zs [] ha hb la lb h = ground arith
strncmp_eq-injective (suc n) (x ∷ a) zs (y ∷ b) ha hb la lb h =
    let e : x ≡ y = ground arith in
    let rest : b ≡ a =
      strncmp_eq-injective n a zs b ha.1 hb.1 (omega arith) (omega arith) (ground arith) in
    ap (λ k. k ∷ b) (sym e) ∙ ap (λ l. x ∷ l) rest

-- The entry that cmd_create makes for a name has no other name.
pub new_entry-injective :
    (name name' : Bytes)
    → NoNul name
    → NoNul name'
    → length name < max_name
    → length name' < max_name
    → matches name' (new_entry name) ≡ true
    → name' ≡ name
unfolding name_array
new_entry-injective name name' clean clean' short short' h =
    strncmp_eq-injective 32 name (replicate (32 - length name - 1) 0) name' clean clean' short
      short'
      (rw (take-le 31 name (omega arith), replicate-pos (32 - length name) (omega arith)) at h)

-- An array has at most one such name.
strncmp_eq-functional :
    (n : ℕ) (a x y : Bytes)
    → NoNul x
    → NoNul y
    → length x < n
    → length y < n
    → strncmp_eq n a x ≡ true
    → strncmp_eq n a y ≡ true
    → x ≡ y
unfolding strncmp_eq
strncmp_eq-functional zero a x y hx hy lx ly ex ey = elim lx [ ]
strncmp_eq-functional (suc n) [] [] [] hx hy lx ly ex ey = refl
strncmp_eq-functional (suc n) [] [] (d ∷ y) hx hy lx ly ex ey = ground arith
strncmp_eq-functional (suc n) [] (c ∷ x) y hx hy lx ly ex ey = ground arith
strncmp_eq-functional (suc n) (b ∷ a) [] [] hx hy lx ly ex ey = refl
strncmp_eq-functional (suc n) (b ∷ a) [] (d ∷ y) hx hy lx ly ex ey = ground arith
strncmp_eq-functional (suc n) (b ∷ a) (c ∷ x) [] hx hy lx ly ex ey = ground arith
strncmp_eq-functional (suc n) (b ∷ a) (c ∷ x) (d ∷ y) hx hy lx ly ex ey =
    let e : c ≡ d = ground arith in
    let rest : x ≡ y =
      strncmp_eq-functional n a x y hx.1 hy.1 (omega arith) (omega arith) (ground arith)
        (ground arith) in
    ap (λ k. k ∷ x) e ∙ ap (λ l. d ∷ l) rest

pub matches-functional :
    (e : Dirent) (x y : Bytes)
    → NoNul x
    → NoNul y
    → length x < max_name
    → length y < max_name
    → matches x e ≡ true
    → matches y e ≡ true
    → x ≡ y
matches-functional e x y hx hy lx ly ex ey =
    strncmp_eq-functional 32 e.name x y hx hy lx ly (ground arith) (ground arith)
