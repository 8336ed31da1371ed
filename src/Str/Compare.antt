-- ===== src/Str/Compare.antt =====
-- libc/string.c: what strcmp and strstr find, against the texts of the strings.
use cool_frost.Prelude.{
  ℕ, zero, suc, ◌+◌, ◌-◌, ◌%◌, ◌<◌, ◌≡◌, refl, sym, ap, ◌∙◌, ◌≢◌, ◌↔◌, inl, inr, Bool, true, false,
  ◌&&◌, List, [], ◌∷◌, arith, ltb, leb, ◌==◌, Bool-cases, drop, ℤ, pos, negsuc, minus, difference,
  and_true, if_true, if_false, magnitude, ltb→lt, ==_iff,
}
use cool_frost.Str.{first, rest, strcmp, schar_diff, text}

-- every character of the string fits in a byte
unfoldable pub bytes : List ℕ → Bool
bytes [] = true
bytes (c ∷ s) = ltb c 256 && bytes s

test_false : (a b : ℕ) → a ≢ b → (a == b) ≡ false
test_false a b e = ground arith

test_true : (a b : ℕ) → a ≡ b → (a == b) ≡ true
test_true a b e = ground arith

text_nil : (s : List ℕ) → first s ≡ 0 → text s ≡ []
unfolding text
text_nil [] e = refl
text_nil (c ∷ s) e = rw e refl

text_cons : (s : List ℕ) → first s ≢ 0 → text s ≡ first s ∷ text (rest s)
unfolding text
text_cons [] e = absurd (e refl)
text_cons (c ∷ s) e = let h : (c == 0) ≡ false = test_false c 0 e in rw h refl

magnitude_minus : (n : ℕ) → minus n ≡ pos 0 → n ≡ 0
magnitude_minus zero e = refl
magnitude_minus (suc n) e = absurd (differ (ap is_negative e))
  where
    is_negative : ℤ → Bool
    is_negative (pos n) = false
    is_negative (negsuc n) = true

    differ : true ≢ false
    differ q = ground arith

difference_zero : (a b : ℕ) → difference a b ≡ pos 0 → a ≡ b
difference_zero a b e = elim (Bool-cases (leb b a)) [
  | inl h ↦
      let zero_left : a - b ≡ 0 =
        ap magnitude (sym (if_true (pos (a - b)) (minus (b - a)) h) ∙ e) in
      ground arith
  | inr h ↦
      let zero_left : b - a ≡ 0 =
        magnitude_minus (b - a) (sym (if_false (pos (a - b)) (minus (b - a)) h) ∙ e) in
      ground arith
]

schar_diff_zero : (a b : ℕ) → a < 256 → b < 256 → schar_diff a b ≡ pos 0 → a ≡ b
schar_diff_zero a b la lb e =
    let same = difference_zero ((a + 128) % 256) ((b + 128) % 256) e in omega arith

strcmp_end : (s1 s2 : List ℕ) → first s1 ≡ 0 → first s2 ≡ 0 → strcmp s1 s2 ≡ pos 0
unfolding strcmp
strcmp_end [] s2 e g = rw g refl
strcmp_end (c ∷ s1) s2 e g = rw (e, g) refl

strcmp_same :
    (c : ℕ) (s1 s2 : List ℕ) → c ≢ 0 → first s2 ≡ c → strcmp (c ∷ s1) s2 ≡ strcmp s1 (rest s2)
unfolding strcmp
strcmp_same c s1 s2 nz e =
    let same : (c == first s2) ≡ true = test_true c (first s2) (sym e) in
    let more : (c == 0) ≡ false = test_false c 0 nz in rw (same, more) refl

strcmp_differ :
    (s1 s2 : List ℕ) → first s1 ≢ first s2 → strcmp s1 s2 ≡ schar_diff (first s1) (first s2)
unfolding strcmp
strcmp_differ [] s2 ne =
    let differ : (0 == first s2) ≡ false = test_false 0 (first s2) ne in rw differ refl
strcmp_differ (c ∷ s1) s2 ne =
    let differ : (c == first s2) ≡ false = test_false c (first s2) ne in rw differ refl

first_text : (s : List ℕ) → first (text s) ≡ first s
unfolding text
first_text [] = refl
first_text (c ∷ s) = elim (Bool-cases (c == 0)) [
  | inl h ↦ rw h (sym (ground arith))
  | inr h ↦ rw h refl
]

bytes_first : (s : List ℕ) → bytes s ≡ true → first s < 256
unfolding bytes
bytes_first [] e = omega arith
bytes_first (c ∷ s) e = ltb→lt c 256 (and_true (ltb c 256) (bytes s) e).0

bytes_rest : (s : List ℕ) → bytes s ≡ true → bytes (rest s) ≡ true
unfolding bytes
bytes_rest [] e = refl
bytes_rest (c ∷ s) e = (and_true (ltb c 256) (bytes s) e).1

strcmp_both_end :
    (s1 s2 : List ℕ) → first s1 ≡ 0 → first s2 ≡ 0 → (strcmp s1 s2 ≡ pos 0) ↔ (text s1 ≡ text s2)
strcmp_both_end s1 s2 e g = (λ _. text_nil s1 e ∙ sym (text_nil s2 g), λ _. strcmp_end s1 s2 e g)

strcmp_both_go_on :
    (c : ℕ) (t s2 : List ℕ)
    → c ≢ 0
    → c ≡ first s2
    → ((strcmp t (rest s2) ≡ pos 0) ↔ (text t ≡ text (rest s2)))
    → (strcmp (c ∷ t) s2 ≡ pos 0) ↔ (text (c ∷ t) ≡ text s2)
strcmp_both_go_on c t s2 nz e (to, from) =
    let left : text (c ∷ t) ≡ c ∷ text t = text_cons (c ∷ t) nz in
    let right : text s2 ≡ c ∷ text (rest s2) =
      text_cons s2 (λ q. nz (e ∙ q)) ∙ ap (λ x. x ∷ text (rest s2)) (sym e) in
    let step = strcmp_same c t s2 nz (sym e) in
    (
      λ z. left ∙ ap (λ u. c ∷ u) (to (sym step ∙ z)) ∙ sym right,
      λ q. step ∙ from (ap (drop 1) (sym left ∙ q ∙ right)),
    )

test_differs : (a b : ℕ) → (a == b) ≡ false → a ≢ b
test_differs a b e q = ground arith

strcmp-first_differ :
    (s1 s2 : List ℕ)
    → bytes s1 ≡ true
    → bytes s2 ≡ true
    → first s1 ≢ first s2
    → (strcmp s1 s2 ≡ pos 0) ↔ (text s1 ≡ text s2)
strcmp-first_differ s1 s2 b1 b2 ne = (
  λ z. absurd (
      ne (
        schar_diff_zero (first s1) (first s2) (bytes_first s1 b1) (bytes_first s2 b2)
          (sym (strcmp_differ s1 s2 ne) ∙ z))),
  λ q. absurd (ne (sym (first_text s1) ∙ ap first q ∙ first_text s2)),
)

-- For arrays of bytes, strcmp returns 0 exactly if the two strings have the same characters before
-- their zero bytes.
pub strcmp_lem :
    (s1 s2 : List ℕ)
    → bytes s1 ≡ true
    → bytes s2 ≡ true
    → (strcmp s1 s2 ≡ pos 0) ↔ (text s1 ≡ text s2)
strcmp_lem [] s2 b1 b2 = elim (Bool-cases (0 == first s2)) [
  | inr e ↦ strcmp-first_differ [] s2 b1 b2 (test_differs 0 (first s2) e)
  | inl e ↦ strcmp_both_end [] s2 refl (sym ((==_iff 0 (first s2)).0 e))
]
strcmp_lem (c ∷ t) s2 b1 b2 = elim (Bool-cases (c == first s2)) [
  | inr e ↦ strcmp-first_differ (c ∷ t) s2 b1 b2 (test_differs c (first s2) e)
  | inl e ↦
      let same : c ≡ first s2 = (==_iff c (first s2)).0 e in
      elim (Bool-cases (c == 0)) [
        | inl z ↦
            let ends : c ≡ 0 = (==_iff c 0).0 z in strcmp_both_end (c ∷ t) s2 ends (sym same ∙ ends)
        | inr z ↦
            strcmp_both_go_on c t s2 (test_differs c 0 z) same
              (strcmp_lem t (rest s2) (bytes_rest (c ∷ t) b1) (bytes_rest s2 b2))
      ]
]
