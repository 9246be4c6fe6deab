-- ===== src/Echo/Reversed.antt =====
-- The reply of server.c to a line is the line reversed.
use mathlib.Core.List.{reverse, reverse-cons}
use native.Mathlib.Decide.{dec_lt}
use cs4440proj3_final.Prelude.{
  ℕ, zero, suc, ◌+◌, ◌-◌, ◌<◌, ◌≡◌, refl, ap, sym, ◌∙◌, [], ◌∷◌, ◌++◌, Bytes, arith, length, take,
  get_or, length-append, ltb, lt→ltb, if◌then◌else◌,
}
use cs4440proj3_final.Text.{newline}
use cs4440proj3_final.Text.Strings.{NoNul, c_string-NoNul, NoNul-append}
use cs4440proj3_final.Net.Payload.{take-all}
use cs4440proj3_final.Echo.{buf_size, reverse_inplace, strip_newline, turned, reply}
use cs4440proj3_final.Echo.Reverse.{reverse_inplace-get_or}

-- Lists of one length with the same elements are equal.
list_ext :
    (s t : Bytes)
    → length s ≡ length t
    → ((k : ℕ) → k < length s → get_or s k 0 ≡ get_or t k 0)
    → s ≡ t
list_ext [] [] e h = refl
list_ext [] (y ∷ t) e h = absurd (omega arith)
list_ext (x ∷ s) [] e h = absurd (omega arith)
list_ext (x ∷ s) (y ∷ t) e h =
    let rest = list_ext s t (omega arith) (λ k lt. h (suc k) (omega arith)) in
    ap (λ a. a ∷ s) (h 0 (omega arith)) ∙ ap (λ l. y ∷ l) rest

get_or-append :
    (s t : Bytes) (k : ℕ)
    → get_or (s ++ t) k 0 ≡ (if ltb k (length s) then get_or s k 0 else get_or t (k - length s) 0)
get_or-append [] t k = ground arith
get_or-append (x ∷ s) t zero = ground arith
get_or-append (x ∷ s) t (suc k) = ground (arith, get_or-append s t k)

pub length-reverse : (s : Bytes) → length (reverse s) ≡ length s
length-reverse [] = refl
length-reverse (x ∷ s) =
    rw reverse-cons (omega (arith, length-append (reverse s) (x ∷ []), length-reverse s))

get_or-reverse :
    (s : Bytes) (k : ℕ) → k < length s → get_or (reverse s) k 0 ≡ get_or s (length s - 1 - k) 0
get_or-reverse [] k h = elim h [ ]
get_or-reverse (x ∷ s) k h =
    rw (reverse-cons, get_or-append, length-reverse)
      (elim (dec_lt k (length s)) [
        | yes below ↦ rw (lt→ltb k (length s) below) (
            get_or-reverse s k below
            ∙ (let e : suc (length s - 1 - k) ≡ suc (length s) - 1 - k = omega arith in
                ap (λ j. get_or (x ∷ s) j 0) e))
        | no last ↦ let e : k ≡ length s = omega arith in rw e (ground arith)
      ])

-- The first `n` bytes of an array that is `n` bytes long come out reversed.
reverse_inplace-reverse : (s : Bytes) → reverse_inplace s (length s) ≡ reverse s
reverse_inplace-reverse s =
    let (size, inside, outside) = reverse_inplace-get_or s (length s) (omega arith) in
    list_ext _ _ (size ∙ sym (length-reverse s))
      (λ k lt. inside k (omega (arith, size)) ∙ sym (get_or-reverse s k (omega (arith, size))))

pub NoNul-reverse : (s : Bytes) → NoNul s → NoNul (reverse s)
NoNul-reverse [] h = tt
NoNul-reverse (c ∷ s) h =
    rw reverse-cons (NoNul-append (reverse s) (c ∷ []) (NoNul-reverse s h.1) (h.0, tt))

take-line : (s t : Bytes) → take (length s) (s ++ t) ≡ s
take-line [] t = refl
take-line (c ∷ s) t = ap (λ l. c ∷ l) (take-line s t)

strip_newline-line : (s : Bytes) → strip_newline (s ++ (newline ∷ [])) ≡ length s
unfolding strip_newline
strip_newline-line s =
    ground (arith, length-append s (newline ∷ []), get_or-append s (newline ∷ []) (length s))

turned-line :
    (s : Bytes)
    → NoNul s
    → length s + 1 < buf_size
    → turned (s ++ (newline ∷ [])) ≡ reverse s ++ (newline ∷ [])
unfolding turned
turned-line s h fits =
    rw
      (
        strip_newline-line s,
        take-line s (newline ∷ []),
        reverse_inplace-reverse s,
        c_string-NoNul (reverse s) (NoNul-reverse s h),
        length-reverse s,
      )
      (ap (λ l. reverse s ++ l) (take-all (buf_size - length s - 1) (newline ∷ []) (omega arith)))

-- What a thread sends for a line without NULs that leaves room in its buffer.
pub reply-line :
    (s : Bytes)
    → NoNul s
    → length s + 1 < buf_size
    → reply (s ++ (newline ∷ [])) ≡ reverse s ++ (newline ∷ [])
unfolding reply
reply-line [] h fits = turned-line [] h fits
reply-line (c ∷ s) h fits = turned-line (c ∷ s) h fits
