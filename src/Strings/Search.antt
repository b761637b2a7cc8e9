-- ===== src/Strings/Search.antt =====
-- kernel/lib/string.c: comparison, and the search for a char.
use makh.Prelude.{
  ℕ, zero, suc, ◌+◌, ◌≤◌, ◌<◌, ◌≡◌, ◌≢◌, ◌⊎◌, inl, inr, refl, sym, ◌∙◌, ap, false, not, ◌&&◌,
  Option, none, some, length, ◌==◌, arith, dec_lt, ℕ_discrete, subst,
}
use makh.Prelude.Int.{ℤ}
use makh.Strings.{Memory, byte_diff, compare_from, strcmp, find_char, strchr, find_last, strrchr}
use makh.Strings.Blocks.{byte}
use makh.Strings.Copy.{IsString, tail-IsString, first_char, empty_string}

-- Two strings are the same before index `i`, where they differ or both end.
pub record Parting (p a q b i : ℕ) (m : Memory) : Type 0 where
  pub in_first : i ≤ a
  pub in_second : i ≤ b
  pub same : (j : ℕ) → j < i → byte m (p + j) ≡ byte m (q + j)
  pub parts : ((i ≡ a) × (i ≡ b)) ⊎ (byte m (p + i) ≢ byte m (q + i))

head_byte : (m : Memory) (p : ℕ) → byte m (p + 0) ≡ byte m p
head_byte m p = ap (byte m) (omega arith)

next_byte : (m : Memory) (p j : ℕ) → byte m (p + suc j) ≡ byte m (p + 1 + j)
next_byte m p j = ap (byte m) (omega arith)

Parting-here :
    (p a q b : ℕ) (m : Memory) → ((0 ≡ a) × (0 ≡ b)) ⊎ (byte m p ≢ byte m q) → Parting p a q b 0 m
Parting-here p a q b m parts = record {
  in_first = omega arith;
  in_second = omega arith;
  same = λ j h. absurd (omega arith);
  parts = elim parts [
    | inl ends ↦ inl ends
    | inr differ ↦ inr (λ e. differ (sym (head_byte m p) ∙ e ∙ head_byte m q))
  ];
}

Parting-later :
    (p a q b i : ℕ) (m : Memory)
    → byte m p ≡ byte m q
    → Parting (p + 1) a (q + 1) b i m
    → Parting p (suc a) q (suc b) (suc i) m
Parting-later p a q b i m head d = record {
  in_first = omega (arith, d.in_first);
  in_second = omega (arith, d.in_second);
  same = agree;
  parts = elim d.parts [
    | inl (e, f) ↦ inl (ap suc e, ap suc f)
    | inr differ ↦ inr (λ e. differ (sym (next_byte m p i) ∙ e ∙ next_byte m q i))
  ];
}
  where
    agree : (j : ℕ) → j < suc i → byte m (p + j) ≡ byte m (q + j)
    agree zero h = head_byte m p ∙ head ∙ sym (head_byte m q)
    agree (suc j) h = next_byte m p j ∙ d.same j (omega arith) ∙ sym (next_byte m q j)

-- What a comparison of two strings returns.
abbrev pub Compared : ℕ → ℕ → ℕ → ℕ → Memory → Option ℤ → Type 0
Compared p a q b m out =
    (i : ℕ) × Parting p a q b i m × (out ≡ some (byte_diff (byte m (p + i)) (byte m (q + i))))

Compared-here :
    (p a q b fuel : ℕ) (m : Memory)
    → p < length m
    → q < length m
    → (not (byte m p == 0) && (byte m p == byte m q)) ≡ false
    → ((0 ≡ a) × (0 ≡ b)) ⊎ (byte m p ≢ byte m q)
    → Compared p a q b m (compare_from (suc fuel) p q m)
unfolding compare_from
Compared-here p a q b fuel m hp hq stops parts =
    (0, Parting-here p a q b m parts, ground (arith, head_byte m p, head_byte m q))

start-lt : {p k : ℕ} {m : Memory} → IsString p k m → p < length m
start-lt v = omega (arith, v.fits)

compare_from-Compared :
    (fuel p a q b : ℕ) (m : Memory)
    → IsString p a m
    → IsString q b m
    → a < fuel
    → Compared p a q b m (compare_from fuel p q m)
unfolding compare_from
compare_from-Compared zero p a q b m u v enough = absurd (omega arith)
compare_from-Compared (suc fuel) p zero q zero m u v enough =
    let (_, ends) = empty_string u in
    Compared-here p 0 q 0 fuel m (start-lt u) (start-lt v) (ground arith) (inl (refl, refl))
compare_from-Compared (suc fuel) p zero q (suc b) m u v enough =
    let (_, ends) = empty_string u in
    let (_, goes_on) = first_char v in
    Compared-here p 0 q (suc b) fuel m (start-lt u) (start-lt v) (ground arith)
      (inr (λ e. goes_on (sym e ∙ ends)))
compare_from-Compared (suc fuel) p (suc a) q zero m u v enough =
    let (_, ends) = empty_string v in
    let (_, goes_on) = first_char u in
    Compared-here p (suc a) q 0 fuel m (start-lt u) (start-lt v) (ground arith)
      (inr (λ e. goes_on (e ∙ ends)))
compare_from-Compared (suc fuel) p (suc a) q (suc b) m u v enough =
    elim (ℕ_discrete (byte m p) (byte m q)) [
      | no differ ↦
          Compared-here p (suc a) q (suc b) fuel m (start-lt u) (start-lt v) (ground arith)
            (inr differ)
      | yes head ↦
          let (i, d, run) =
            compare_from-Compared fuel (p + 1) a (q + 1) b m (tail-IsString u) (tail-IsString v)
              (omega arith) in
          let (inside, char) = first_char u in
          let inside' = start-lt v in
          (
            suc i,
            Parting-later p a q b i m head d,
            ground (arith, next_byte m p i, next_byte m q i),
          )
    ]

-- `strcmp` returns the difference of the bytes at the first index where the strings differ or both end.
pub strcmp-Compared :
    (p a q b : ℕ) (m : Memory) → IsString p a m → IsString q b m → Compared p a q b m (strcmp p q m)
unfolding strcmp
strcmp-Compared p a q b m u v =
    compare_from-Compared (length m) p a q b m u v (omega (arith, u.fits))

-- What a search for the first `c` finds: an index at which it stands, or none.
abbrev pub FirstFound : ℕ → ℕ → ℕ → Memory → Option (Option ℕ) → Type 0
FirstFound p k c m out =
    ((i : ℕ) × (i ≤ k)
      × (byte m (p + i) ≡ c)
      × ((j : ℕ) → j < i → byte m (p + j) ≢ c)
      × (out ≡ some (some (p + i))))
    ⊎ (((j : ℕ) → j ≤ k → byte m (p + j) ≢ c) × (out ≡ some none))

absent_before :
    (p c i : ℕ) (m : Memory)
    → byte m p ≢ c
    → ((j : ℕ) → j < i → byte m (p + 1 + j) ≢ c)
    → (j : ℕ) → j < suc i
    → byte m (p + j) ≢ c
absent_before p c i m absent first zero h e = absent (sym (head_byte m p) ∙ e)
absent_before p c i m absent first (suc j) h e = first j (omega arith) (sym (next_byte m p j) ∙ e)

absent_up_to :
    (p c k : ℕ) (m : Memory)
    → byte m p ≢ c
    → ((j : ℕ) → j ≤ k → byte m (p + 1 + j) ≢ c)
    → (j : ℕ) → j ≤ suc k
    → byte m (p + j) ≢ c
absent_up_to p c k m absent rest zero h e = absent (sym (head_byte m p) ∙ e)
absent_up_to p c k m absent rest (suc j) h e = rest j (omega arith) (sym (next_byte m p j) ∙ e)

at_terminator : (p k i : ℕ) (m : Memory) → IsString p k m → i ≤ k → byte m (p + i) ≡ 0 → i ≡ k
at_terminator p k i m v below there = elim (dec_lt i k) [
  | yes early ↦ absurd (v.chars i early there)
  | no end ↦ omega arith
]

find_char-FirstFound :
    (fuel p k c : ℕ) (m : Memory)
    → IsString p k m
    → k < fuel
    → FirstFound p k c m (find_char fuel p c m)
unfolding find_char
find_char-FirstFound zero p k c m v enough = absurd (omega arith)
find_char-FirstFound (suc fuel) p zero c m v enough =
    let (inside, ends) = empty_string v in
    elim (ℕ_discrete (byte m p) c) [
      | yes here ↦
          inl (0, omega arith, head_byte m p ∙ here, λ j h. absurd (omega arith), ground arith)
      | no absent ↦ inr (
        λ j h e. absent (sym (ap (byte m) (let z : p + j ≡ p = omega arith in z)) ∙ e),
        ground arith,
      )
    ]
find_char-FirstFound (suc fuel) p (suc k) c m v enough =
    let (inside, goes_on) = first_char v in
    elim (ℕ_discrete (byte m p) c) [
      | yes here ↦
          inl (0, omega arith, head_byte m p ∙ here, λ j h. absurd (omega arith), ground arith)
      | no absent ↦ elim (find_char-FirstFound fuel (p + 1) k c m (tail-IsString v) (omega arith)) [
        | inl (i, below, there, first, run) ↦ inl (
          suc i,
          omega arith,
          next_byte m p i ∙ there,
          absent_before p c i m absent first,
          (let here : p + suc i ≡ p + 1 + i = omega arith in ground arith),
        )
        | inr (none_there, run) ↦ inr (absent_up_to p c k m absent none_there, ground arith)
      ]
    ]

-- `strchr` of a char finds its first place in the string, the terminator included, or there is none.
pub strchr-FirstFound :
    (p k c : ℕ) (m : Memory) → IsString p k m → c < 256 → FirstFound p k c m (strchr p c m)
unfolding strchr
strchr-FirstFound p k c m v byte_sized =
    subst (λ (x : ℕ). FirstFound p k c m (find_char (length m) p x m)) (omega arith)
      (find_char-FirstFound (length m) p k c m v (omega (arith, v.fits)))

find_last-zero :
    (fuel p k : ℕ) (last : Option ℕ) (m : Memory)
    → IsString p k m
    → k < fuel
    → find_last fuel p 0 last m ≡ some last
unfolding find_last
find_last-zero zero p k last m v enough = absurd (omega arith)
find_last-zero (suc fuel) p zero last m v enough =
    let (inside, ends) = empty_string v in ground arith
find_last-zero (suc fuel) p (suc k) last m v enough =
    let (inside, goes_on) = first_char v in
    let rest = find_last-zero fuel (p + 1) k last m (tail-IsString v) (omega arith) in ground arith

-- `strrchr` of the terminator answers NULL on every string, where `strchr` answers its end.
pub strrchr_terminator :
    (p k : ℕ) (m : Memory)
    → IsString p k m
    → (strrchr p 0 m ≡ some none) × (strchr p 0 m ≡ some (some (p + k)))
unfolding strrchr
strrchr_terminator p k m v = (
  find_last-zero (length m) p k none m v (omega (arith, v.fits)),
  elim (strchr-FirstFound p k 0 m v (omega arith)) [
    | inr (absent, run) ↦ absurd (absent k (omega arith) v.terminated)
    | inl (i, below, there, first, run) ↦
        let end : i ≡ k = at_terminator p k i m v below there in
        run ∙ ap (λ x. some (some (p + x))) end
  ],
)
