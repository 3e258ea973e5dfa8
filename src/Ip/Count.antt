-- ===== src/Ip/Count.antt =====
-- common/ip.go: `nextIP` as arithmetic on the number that an address spells.
use native.Mathlib.Nat.{pow-suc, mod_self, mod-eq_of_lt, mul-le-mul_right}
use masque_vpn.Prelude.{
  ℕ, ◌+◌, ◌*◌, ◌%◌, ◌^◌, ◌≤◌, ◌<◌, ◌≡◌, ◌≢◌, ◌↔◌, ◌⊎◌, refl, sym, ap, ap₂, subst, ◌∙◌, inl, inr,
  Bool, true, false, List, [], ◌∷◌, arith, length, All, ltb, ltb→lt, ltb-false, ◌==◌, ==_iff,
  Bool-cases, if◌then◌else◌,
}
use masque_vpn.Ip.Addr.{Addr, addr_from_slice, increment, next_ip, bytes_le}

abbrev pub IsBytes : List ℕ → Type 0
IsBytes = All (λ b. b < 256)

abbrev pub IsAddr : Addr → Type 0
IsAddr a = IsBytes a × ((length a ≡ 4) ⊎ (length a ≡ 16))

abbrev pub space : List ℕ → ℕ
space bytes = 256 ^ length bytes

-- The number that the bytes spell, high byte first.
abbrev pub value : List ℕ → ℕ
value [] = 0
value (b ∷ bytes) = b * space bytes + value bytes

space-suc : (b : ℕ) (bytes : List ℕ) → space (b ∷ bytes) ≡ 256 * space bytes
space-suc b bytes = omega (arith, pow-suc 256 (length bytes))

mul_step : (b w : ℕ) → (b + 1) * w ≡ b * w + w
mul_step b w = grind arith

byte_below : (b w v : ℕ) → b < 256 → v < w → b * w + v < 256 * w
byte_below b w v p q = grind arith

-- The first byte that differs decides.
high_byte_decides :
    (x y w u v t : ℕ) → w ≡ u → v < w → t < u → x ≢ y → (ltb x y ≡ true) ↔ (x * w + v ≤ y * u + t)
high_byte_decides x y w u v t e p q ne = (
  λ h.
      let less : x + 1 ≤ y = omega (arith, ltb→lt x y h) in
      let scaled : (x + 1) * w ≤ y * w = mul-le-mul_right w less in
      let moved : y * w ≡ y * u = ap (λ s. y * s) e in omega (arith, mul_step x w),
  λ h. elim (Bool-cases (ltb x y)) [
    | inl l ↦ l
    | inr l ↦
        let more : y + 1 ≤ x = omega (arith, ltb-false x y l) in
        let scaled : (y + 1) * u ≤ x * u = mul-le-mul_right u more in
        let moved : x * w ≡ x * u = ap (λ s. x * s) e in absurd (omega (arith, mul_step y u))
  ],
)

pub value-lt : (bytes : List ℕ) → IsBytes bytes → value bytes < space bytes
value-lt [] h = omega arith
value-lt (b ∷ bytes) h =
    omega
      (arith, space-suc b bytes, byte_below b (space bytes) (value bytes) h.0 (value-lt bytes h.1))

pub length-increment : (bytes : List ℕ) → length (increment bytes).0 ≡ length bytes
unfolding increment
length-increment [] = refl
length-increment (b ∷ bytes) = ground (arith, length-increment bytes)

pub increment-IsBytes : (bytes : List ℕ) → IsBytes bytes → IsBytes (increment bytes).0
unfolding increment
increment-IsBytes [] h = tt
increment-IsBytes (b ∷ bytes) h = elim (Bool-cases (increment bytes).1) [
  | inl c ↦ rw c (omega arith, increment-IsBytes bytes h.1)
  | inr c ↦ rw c (h.0, increment-IsBytes bytes h.1)
]

abbrev overflow : Bool → ℕ → ℕ
overflow c w = if c then w else 0

value-increment :
    (bytes : List ℕ)
    → IsBytes bytes
    → value (increment bytes).0 + overflow (increment bytes).1 (space bytes) ≡ value bytes + 1
unfolding increment
value-increment [] h = refl
value-increment (b ∷ bytes) h =
    let rest = (increment bytes).0 in
    let w = space bytes in
    let same : space rest ≡ w = ap (λ n. 256 ^ n) (length-increment bytes) in
    let ih = value-increment bytes h.1 in
    elim (Bool-cases (increment bytes).1) [
      | inl c ↦
          let carried : value rest + w ≡ value bytes + 1 =
            ap (λ t. value rest + overflow t w) (sym c) ∙ ih in
          elim (Bool-cases (((b + 1) % 256) == 0)) [
            | inl z ↦
                let top : b ≡ 255 = ground (arith, h.0) in
                let none_left : (b + 1) % 256 ≡ 0 = ground arith in
                rw (c, z, none_left, same)
                  (omega (arith, space-suc b bytes, ap (λ t. t * w) top, carried))
            | inr z ↦
                let next : (b + 1) % 256 ≡ b + 1 = ground (arith, h.0) in
                rw (c, z, next, same) (omega (arith, mul_step b w, carried))
          ]
      | inr c ↦
          let kept : value rest ≡ value bytes + 1 =
            omega (arith, ap (λ t. value rest + overflow t w) (sym c) ∙ ih) in
          rw (c, same) (omega (arith, kept))
    ]

wrapped_value :
    (c : Bool) (w v v' : ℕ) → v < w → v' < w → v' + overflow c w ≡ v + 1 → v' ≡ (v + 1) % w
wrapped_value true w v v' p q e =
    let all : v + 1 ≡ w = omega arith in
    (let zero_left : v' ≡ 0 = omega arith in zero_left) ∙ sym (ap (λ t. t % w) all ∙ mod_self w)
wrapped_value false w v v' p q e =
    let up : v' ≡ v + 1 = omega arith in up ∙ sym (mod-eq_of_lt (omega arith))

slice_of_addr : (a : Addr) → (length a ≡ 4) ⊎ (length a ≡ 16) → (addr_from_slice a).0 ≡ a
unfolding addr_from_slice
slice_of_addr a h = ground arith

-- For an IPv4 or IPv6 address, `nextIP` returns an address of the same kind, whose number is 1 more,
-- and 0 behind the highest address.
pub next_ip-value :
    (ip : Addr)
    → IsAddr ip
    → IsAddr (next_ip ip)
      × (length (next_ip ip) ≡ length ip)
      × (value (next_ip ip) ≡ (value ip + 1) % space ip)
unfolding next_ip
next_ip-value ip (bytes, kind) =
    let inc = (increment ip).0 in
    let len : length inc ≡ length ip = length-increment ip in
    let inc_bytes : IsBytes inc = increment-IsBytes ip bytes in
    let inc_kind : (length inc ≡ 4) ⊎ (length inc ≡ 16) = ground arith in
    let counted : value inc ≡ (value ip + 1) % space ip =
      wrapped_value (increment ip).1 (space ip) (value ip) (value inc) (value-lt ip bytes)
        (subst (λ n. value inc < 256 ^ n) len (value-lt inc inc_bytes))
        (value-increment ip bytes) in
    subst (λ a. IsAddr a × (length a ≡ length ip) × (value a ≡ (value ip + 1) % space ip))
      (sym (slice_of_addr inc inc_kind)) ((inc_bytes, inc_kind), len, counted)

-- Comparing two addresses of one length compares their numbers.
pub bytes_le-value :
    (a b : List ℕ)
    → IsBytes a
    → IsBytes b
    → length a ≡ length b
    → (bytes_le a b ≡ true) ↔ (value a ≤ value b)
unfolding bytes_le
bytes_le-value [] [] p q e = (λ h. omega arith, λ h. refl)
bytes_le-value [] (y ∷ b) p q e = absurd (omega arith)
bytes_le-value (x ∷ a) [] p q e = absurd (omega arith)
bytes_le-value (x ∷ a) (y ∷ b) p q e =
    let rest = bytes_le-value a b p.1 q.1 (omega arith) in
    let same : space a ≡ space b = ap (λ n. 256 ^ n) {x = length a} {y = length b} (omega arith) in
    elim (Bool-cases (x == y)) [
      | inl h ↦
          let heads : x ≡ y = (==_iff x y).0 h in
          let lead : x * space a ≡ y * space b = ap₂ (λ s t. s * t) heads same in
          rw h (
            λ k. let tails : value a ≤ value b = rest.0 k in omega arith,
            λ k. rest.1 (omega arith),
          )
      | inr h ↦ rw h (
          high_byte_decides x y (space a) (space b) (value a) (value b) same (value-lt a p.1)
            (value-lt b q.1) (λ r. ground arith))
    ]
