-- ===== src/Vm/Label/Copies.antt =====
-- A copy of four bytes into the code: what it writes, and what it leaves as it was.
use polo_db.Prelude.{
  ◌⊎◌, ℕ, zero, suc, ◌+◌, ◌-◌, ◌≤◌, ◌<◌, ◌^◌, ◌≡◌, refl, sym, ap, ◌∙◌, arith, Bool-cases, inl, inr,
  List, [], ◌∷◌, ◌++◌, length, take, drop, leb, get_elem?, length-append,
}
use polo_db.Prelude.Bytes.{Bytes}
use polo_db.Errors.{ok}
use polo_db.Vm.Label.{copy_at, to_le_bytes}
use polo_db.Vm.Label.RoundTrip.{u32_at-to_le_bytes}
use polo_db.Vm.Machine.{u32_at}

length-take : {A : Type 0} (n : ℕ) (xs : List A) → n ≤ length xs → length (take n xs) ≡ n
length-take zero xs h = refl
length-take (suc n) [] h = absurd (omega (arith, h))
length-take (suc n) (x ∷ xs) h = omega (arith, length-take n xs (omega (arith, h)))

length-drop :
    {A : Type 0} (n : ℕ) (xs : List A) → n ≤ length xs → length (drop n xs) + n ≡ length xs
length-drop zero xs h = omega arith
length-drop (suc n) [] h = absurd (omega (arith, h))
length-drop (suc n) (x ∷ xs) h = omega (arith, length-drop n xs (omega (arith, h)))

take_before :
    {A : Type 0} (i n : ℕ) (xs ys : List A)
    → i < n
    → n ≤ length xs
    → get_elem? (take n xs ++ ys) i ≡ get_elem? xs i
take_before i zero xs ys h l = absurd (omega (arith, h))
take_before i (suc n) [] ys h l = absurd (omega (arith, l))
take_before zero (suc n) (x ∷ xs) ys h l = refl
take_before (suc i) (suc n) (x ∷ xs) ys h l =
    take_before i n xs ys (omega (arith, h)) (omega (arith, l))

-- A copy that fits.
pub copied :
    (code : Bytes) (at : ℕ) (out : Bytes) (n : ℕ)
    → copy_at code at (to_le_bytes n) ≡ ok out
    → (at + 4 ≤ length code) × (out ≡ take at code ++ (to_le_bytes n ++ drop (at + 4) code))
unfolding copy_at to_le_bytes
copied code at out n h = elim (Bool-cases (leb (at + 4) (length code))) [
  | inl fits ↦ (ground (arith, fits), let e = rw fits at h in cc)
  | inr large ↦ let e = rw large at h in absurd cc
]

behind :
    {A : Type 0} (xs ys : List A) (k : ℕ) → get_elem? (xs ++ ys) (length xs + k) ≡ get_elem? ys k
behind [] ys k = let e : 0 + k ≡ k = omega arith in ap (get_elem? ys) e
behind (x ∷ xs) ys k =
    let e : suc (length xs) + k ≡ suc (length xs + k) = omega arith in
    ap (get_elem? (x ∷ (xs ++ ys))) e ∙ behind xs ys k

drop_at : {A : Type 0} (n k : ℕ) (xs : List A) → get_elem? (drop n xs) k ≡ get_elem? xs (n + k)
drop_at zero k xs = let e : k ≡ 0 + k = omega arith in ap (get_elem? xs) e
drop_at (suc n) k [] = refl
drop_at (suc n) k (x ∷ xs) =
    let e : suc (n + k) ≡ suc n + k = omega arith in drop_at n k xs ∙ ap (get_elem? (x ∷ xs)) e

-- Behind the four bytes nothing changes.
after_four :
    (code bytes : Bytes) (at i : ℕ)
    → length bytes ≡ 4
    → at + 4 ≤ length code
    → at + 4 ≤ i
    → get_elem? (take at code ++ (bytes ++ drop (at + 4) code)) i ≡ get_elem? code i
after_four code bytes at i four fits later =
    let front = length-take at code (omega (arith, fits)) in
    let k = i - (at + 4) in
    let e1 : i ≡ length (take at code) + (length bytes + k) = omega (arith, front, four, later) in
    let e2 : at + 4 + k ≡ i = omega (arith, later) in
    ap (get_elem? (take at code ++ (bytes ++ drop (at + 4) code))) e1
    ∙ behind (take at code) (bytes ++ drop (at + 4) code) (length bytes + k)
    ∙ behind bytes (drop (at + 4) code) k
    ∙ drop_at (at + 4) k code
    ∙ ap (get_elem? code) e2

pub u32_at_same :
    (xs ys : Bytes) (at : ℕ)
    → ((i : ℕ) → at ≤ i → i < at + 4 → get_elem? xs i ≡ get_elem? ys i)
    → u32_at xs at ≡ u32_at ys at
unfolding u32_at
u32_at_same xs ys at same =
    let a = same at (omega arith) (omega arith) in
    let b = same (suc at) (omega arith) (omega arith) in
    let c = same (suc (suc at)) (omega arith) (omega arith) in
    let d = same (suc (suc (suc at))) (omega arith) (omega arith) in rw (a, b, c, d)

-- What a copy leaves as it was, and what it writes.
unfoldable pub Copy : Bytes → ℕ → ℕ → Bytes → Type 0
Copy code at n out =
    (at + 4 ≤ length code)
    × (length out ≡ length code)
    × (u32_at out at ≡ ok n)
    × ((i : ℕ) → (i < at) ⊎ (at + 4 ≤ i) → get_elem? out i ≡ get_elem? code i)

pub copy_lem :
    (code : Bytes) (at n : ℕ) (out : Bytes)
    → n < 2 ^ 32
    → copy_at code at (to_le_bytes n) ≡ ok out
    → Copy code at n out
unfolding Copy to_le_bytes
copy_lem code at n out small h =
    let (fits, same) = copied code at out n h in
    let front = length-take at code (omega (arith, fits)) in
    let rest = length-drop (at + 4) code fits in
    let bytes = to_le_bytes n in
    let made = take at code ++ (bytes ++ drop (at + 4) code) in
    let l1 = length-append (take at code) (bytes ++ drop (at + 4) code) in
    let l2 = length-append bytes (drop (at + 4) code) in
    let four : length bytes ≡ 4 = refl in
    let read : u32_at made (length (take at code)) ≡ ok n =
      u32_at-to_le_bytes (take at code) (drop (at + 4) code) n small in
    (
      fits,
      ap length same ∙ omega (arith, l1, l2, four, front, rest),
      ap (λ o. u32_at o at) same ∙ ap (u32_at made) (sym front) ∙ read,
      λ i outside.
          ap (λ o. get_elem? o i) same
          ∙ (elim outside as (λ _. get_elem? made i ≡ get_elem? code i) [
            | inl before ↦
                take_before i at code (bytes ++ drop (at + 4) code) before (omega (arith, fits))
            | inr later ↦ after_four code bytes at i refl fits later
          ]),
    )

pub copy-length :
    (code : Bytes) (at n : ℕ) (out : Bytes)
    → copy_at code at (to_le_bytes n) ≡ ok out
    → length out ≡ length code
unfolding to_le_bytes
copy-length code at n out h =
    let (fits, same) = copied code at out n h in
    let front = length-take at code (omega (arith, fits)) in
    let rest = length-drop (at + 4) code fits in
    let bytes = to_le_bytes n in
    let l1 = length-append (take at code) (bytes ++ drop (at + 4) code) in
    let l2 = length-append bytes (drop (at + 4) code) in
    let four : length bytes ≡ 4 = refl in ap length same ∙ omega (arith, l1, l2, four, front, rest)
