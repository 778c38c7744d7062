-- ===== src/Mesi/Top/Count.antt =====
-- Counting and searching a range of children.
use cache_sim.Base.{
  ℕ, ltb, leb, zero, suc, ◌+◌, ◌≤◌, ◌<◌, ◌≡◌, refl, ap, ◌≢◌, Bool, true, false, ◌&&◌, ◌||◌, arith,
  subst, ℕ_discrete,
}

abbrev pub bit : Bool → ℕ
bit true = 1
bit false = 0

-- How many of `c, …, c + n - 1` satisfy `f`, and whether any does.
unfoldable pub count : (ℕ → Bool) → ℕ → ℕ → ℕ
count f zero c = 0
count f (suc n) c = bit (f c) + count f n (suc c)

unfoldable pub any : (ℕ → Bool) → ℕ → ℕ → Bool
any f zero c = false
any f (suc n) c = f c || any f n (suc c)

abbrev pub within : ℕ → ℕ → ℕ → Bool
within c n j = leb c j && ltb j (c + n)

pub count-ext :
    (f g : ℕ → Bool) (n c : ℕ) → ((j : ℕ) → c ≤ j → f j ≡ g j) → count f n c ≡ count g n c
unfolding count
count-ext f g zero c h = refl
count-ext f g (suc n) c h =
    omega (arith, ap bit (h c (omega arith)), count-ext f g n (suc c) (λ j l. h j (omega arith)))

pub any-ext :
    (f g : ℕ → Bool) (n c : ℕ) → ((j : ℕ) → c ≤ j → j < c + n → f j ≡ g j) → any f n c ≡ any g n c
unfolding any
any-ext f g zero c h = refl
any-ext f g (suc n) c h = rw (
  h c (omega arith) (omega arith),
  any-ext f g n (suc c) (λ j l u. h j (omega arith) (omega arith)),
)

-- A function that gains one point of the range counts one more.
pub count-gain :
    (f g : ℕ → Bool) (i n c : ℕ)
    → c ≤ i
    → i < c + n
    → f i ≡ false
    → g i ≡ true
    → ((j : ℕ) → i ≢ j → f j ≡ g j)
    → count g n c ≡ count f n c + 1
unfolding count
count-gain f g i zero c lo hi off on same = absurd (omega arith)
count-gain f g i (suc n) c lo hi off on same = elim (ℕ_discrete i c) [
  | yes e ↦
      let off' : f c ≡ false = subst (λ k. f k ≡ false) e off in
      let on' : g c ≡ true = subst (λ k. g k ≡ true) e on in
      rw (off', on', count-ext f g n (suc c) (λ j l. same j (omega arith))) (omega arith)
  | no ne ↦ omega (
    arith,
    ap bit (same c ne),
    count-gain f g i n (suc c) (omega arith) (omega arith) off on same,
  )
]

pub count-pos : (f : ℕ → Bool) (i n c : ℕ) → c ≤ i → i < c + n → f i ≡ true → 0 < count f n c
unfolding count
count-pos f i zero c lo hi on = absurd (omega arith)
count-pos f i (suc n) c lo hi on = elim (ℕ_discrete i c) [
  | yes e ↦ let on' : f c ≡ true = subst (λ k. f k ≡ true) e on in rw on' (omega arith)
  | no ne ↦ omega (arith, count-pos f i n (suc c) (omega arith) (omega arith) on)
]

-- With a count of one, a point that counts is the only one.
pub count_unique :
    (f : ℕ → Bool) (i j n c : ℕ)
    → count f n c ≤ 1
    → c ≤ i
    → i < c + n
    → c ≤ j
    → j < c + n
    → f i ≡ true
    → f j ≡ true
    → i ≡ j
unfolding count
count_unique f i j zero c one ci hi cj hj fi fj = absurd (omega arith)
count_unique f i j (suc n) c one ci hi cj hj fi fj = elim (ℕ_discrete i c) [
  | yes ei ↦ elim (ℕ_discrete j c) [
    | yes ej ↦ omega arith
    | no nj ↦
        let on : f c ≡ true = subst (λ k. f k ≡ true) ei fi in
        absurd (omega (arith, ap bit on, count-pos f j n (suc c) (omega arith) (omega arith) fj))
  ]
  | no ni ↦ elim (ℕ_discrete j c) [
    | yes ej ↦
        let on : f c ≡ true = subst (λ k. f k ≡ true) ej fj in
        absurd (omega (arith, ap bit on, count-pos f i n (suc c) (omega arith) (omega arith) fi))
    | no nj ↦
        count_unique f i j n (suc c) (omega arith) (omega arith) (omega arith) (omega arith)
          (omega arith) fi fj
  ]
]

pub count-none :
    (f : ℕ → Bool) (n c : ℕ) → ((j : ℕ) → c ≤ j → j < c + n → f j ≡ false) → count f n c ≡ 0
unfolding count
count-none f zero c h = refl
count-none f (suc n) c h = omega (
  arith,
  ap bit (h c (omega arith) (omega arith)),
  count-none f n (suc c) (λ j l u. h j (omega arith) (omega arith)),
)

pub count-le : (f : ℕ → Bool) (n c : ℕ) → count f n c ≤ n
unfolding count
count-le f zero c = omega arith
count-le f (suc n) c = ground (arith, count-le f n (suc c))

pub any-none :
    (f : ℕ → Bool) (n c : ℕ) → ((j : ℕ) → c ≤ j → j < c + n → f j ≡ false) → any f n c ≡ false
unfolding any
any-none f zero c h = refl
any-none f (suc n) c h = rw (
  h c (omega arith) (omega arith),
  any-none f n (suc c) (λ j l u. h j (omega arith) (omega arith)),
)

pub any-some : (f : ℕ → Bool) (i n c : ℕ) → c ≤ i → i < c + n → f i ≡ true → any f n c ≡ true
unfolding any
any-some f i zero c lo hi on = absurd (omega arith)
any-some f i (suc n) c lo hi on = elim (ℕ_discrete i c) [
  | yes e ↦ let on' : f c ≡ true = subst (λ k. f k ≡ true) e on in rw on'
  | no ne ↦ ground (arith, any-some f i n (suc c) (omega arith) (omega arith) on)
]
