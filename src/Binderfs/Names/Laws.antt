-- ===== src/Binderfs/Names/Laws.antt =====
-- The loop over the names of binder devices in binderfs.c: it ends, and splits what commas join.
use droid_kernal.Prelude.{
  ℕ, zero, suc, ◌≤◌, ◌<◌, ◌≡◌, ◌≢◌, inl, inr, refl, ap, sym, ◌∙◌, false, some, List, [], ◌∷◌, ◌++◌,
  arith, ◌==◌, length, take, drop, length-drop, length-append, append-nil, if_true, if_false, ne→==,
  Bool-cases,
}
use droid_kernal.Binderfs.Names.{comma, strcspn, skip_comma, rest_of, device_names}

strcspn-le : (s : List ℕ) → strcspn s ≤ length s
unfolding strcspn
strcspn-le [] = omega arith
strcspn-le (c ∷ cs) = ground (arith, strcspn-le cs)

length-skip_comma : (s : List ℕ) → length (skip_comma s) ≤ length s
length-skip_comma [] = omega arith
length-skip_comma (c ∷ cs) = ground arith

length-rest_of : (s : List ℕ) → strcspn s ≢ 0 → length (rest_of s) < length s
length-rest_of s h =
    omega
      (arith, length-skip_comma (drop (strcspn s) s), length-drop (strcspn s) s, strcspn-le s, h)

device_names_step :
    (fuel : ℕ) (s : List ℕ) (names : List (List ℕ))
    → (strcspn s == 0) ≡ false
    → device_names fuel (rest_of s) ≡ some names
    → device_names (suc fuel) s ≡ some (take (strcspn s) s ∷ names)
unfolding device_names
device_names_step fuel s names e rest = if_false (strcspn s == 0) _ _ e ∙ rw rest

-- Whatever the text is, as many rounds as it has bytes and one more end the loop.
pub device_names_total :
    (fuel : ℕ) (s : List ℕ)
    → length s < fuel
    → (names : List (List ℕ)) × (device_names fuel s ≡ some names)
unfolding device_names
device_names_total zero s h = absurd (omega arith)
device_names_total (suc fuel) s h = elim (Bool-cases (strcspn s == 0)) [
  | inl e ↦ ([], if_true (strcspn s == 0) _ _ e)
  | inr e ↦
      let less : length (rest_of s) < fuel =
        omega (arith, h, length-rest_of s (λ z. ground arith)) in
      let (names, rest) = device_names_total fuel (rest_of s) less in
      (take (strcspn s) s ∷ names, device_names_step fuel s names e rest)
]

-- A name that can stand in the list: not empty and without a comma.
abbrev NoComma : List ℕ → Type 0
NoComma [] = Unit {0}
NoComma (c ∷ cs) = (c ≢ comma) × NoComma cs

abbrev pub IsName : List ℕ → Type 0
IsName s = (s ≢ []) × NoComma s

abbrev pub AllNames : List (List ℕ) → Type 0
AllNames [] = Unit {0}
AllNames (n ∷ ns) = IsName n × AllNames ns

-- The names with commas between them.
abbrev pub join : List (List ℕ) → List ℕ
join [] = []
join (n ∷ []) = n
join (n ∷ m ∷ ns) = n ++ (comma ∷ join (m ∷ ns))

-- What follows a name: nothing, or a comma and more.
tail_of : List (List ℕ) → List ℕ
tail_of [] = []
tail_of (m ∷ ns) = comma ∷ join (m ∷ ns)

join-tail_of : (n : List ℕ) (ns : List (List ℕ)) → join (n ∷ ns) ≡ n ++ tail_of ns
unfolding tail_of
join-tail_of n [] = sym (append-nil n)
join-tail_of n (m ∷ ns) = refl

strcspn-tail_of :
    (n : List ℕ) (ns : List (List ℕ)) → NoComma n → strcspn (n ++ tail_of ns) ≡ length n
unfolding strcspn tail_of
strcspn-tail_of [] [] h = refl
strcspn-tail_of [] (m ∷ ns) h = refl
strcspn-tail_of (c ∷ cs) ns h =
    if_false (c == comma) _ _ (ne→== c comma h.0) ∙ ap suc (strcspn-tail_of cs ns h.1)

take-length-append : (n t : List ℕ) → take (length n) (n ++ t) ≡ n
take-length-append [] t = refl
take-length-append (c ∷ cs) t = ap (λ r. c ∷ r) (take-length-append cs t)

drop-length-append : (n t : List ℕ) → drop (length n) (n ++ t) ≡ t
drop-length-append [] t = refl
drop-length-append (c ∷ cs) t = drop-length-append cs t

skip_comma-tail_of : (ns : List (List ℕ)) → skip_comma (tail_of ns) ≡ join ns
unfolding tail_of
skip_comma-tail_of [] = refl
skip_comma-tail_of (m ∷ ns) = refl

length-ne : (n : List ℕ) → n ≢ [] → length n ≢ 0
length-ne [] h e = h refl
length-ne (c ∷ cs) h e = absurd (omega arith)

-- With enough rounds the loop passes exactly the names that commas join, in order, if none of them
-- is empty or has a comma in it.
pub device_names-join :
    (fuel : ℕ) (names : List (List ℕ))
    → AllNames names
    → length (join names) < fuel
    → device_names fuel (join names) ≡ some names
unfolding device_names strcspn
device_names-join zero names all h = absurd (omega arith)
device_names-join (suc fuel) [] all h = refl
device_names-join (suc fuel) (n ∷ ns) all h =
    let text = join-tail_of n ns in
    let at : strcspn (n ++ tail_of ns) ≡ length n = strcspn-tail_of n ns all.0.1 in
    let rest : rest_of (n ++ tail_of ns) ≡ join ns =
      ap (λ k. skip_comma (drop k (n ++ tail_of ns))) at
      ∙ ap skip_comma (drop-length-append n (tail_of ns))
      ∙ skip_comma-tail_of ns in
    let first : take (strcspn (n ++ tail_of ns)) (n ++ tail_of ns) ≡ n =
      ap (λ k. take k (n ++ tail_of ns)) at ∙ take-length-append n (tail_of ns) in
    let some_name : length n ≢ 0 = length-ne n all.0.0 in
    let less : length (join ns) < fuel = omega (
      arith,
      h,
      ap length text,
      length-append n (tail_of ns),
      ap length (skip_comma-tail_of ns),
      length-skip_comma (tail_of ns),
      some_name,
    ) in
    ap (device_names (suc fuel)) text
    ∙ device_names_step fuel (n ++ tail_of ns) ns (ne→== _ 0 (λ z. some_name (sym at ∙ z)))
        (ap (device_names fuel) rest ∙ device_names-join fuel ns all.1 less)
    ∙ ap (λ f. some (f ∷ ns)) first
