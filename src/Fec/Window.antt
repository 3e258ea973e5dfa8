-- ===== src/Fec/Window.antt =====
-- The packets that arrive of what was sent, and the block around a packet that does not.
use masque_vpn.Prelude.{
  ℕ, zero, suc, ◌+◌, ◌-◌, ◌/◌, ◌≤◌, ◌<◌, ◌≡◌, ◌≢◌, refl, sym, ap, ap₂, ◌∙◌, inl, inr, Bool, true,
  false, ◌||◌, Option, none, some, List, [], ◌∷◌, ◌++◌, arith, length, get_elem?, get_or, take,
  drop, take-drop-suc, Bool-cases, ==_iff, ==_false, ◌==◌, if◌then◌else◌,
}
use masque_vpn.Fec.Decoder.{available_packets}
use masque_vpn.Fec.Grouping.{losses_in}

abbrev pub contains : ℕ → List ℕ → Bool
contains i [] = false
contains i (l ∷ lost) = l == i || contains i lost

-- The receiver's slice, from index `i` on: nil at each lost index.
abbrev pub receive : ℕ → List ℕ → List (List ℕ) → List (Option (List ℕ))
receive i lost [] = []
receive i lost (p ∷ packets) =
    (if contains i lost then none else some p) ∷ receive (i + 1) lost packets

pub length-receive :
    (i : ℕ) (lost : List ℕ) (packets : List (List ℕ))
    → length (receive i lost packets) ≡ length packets
length-receive i lost [] = refl
length-receive i lost (p ∷ packets) = ap suc (length-receive (i + 1) lost packets)

receive_at :
    (i : ℕ) (lost : List ℕ) (packets : List (List ℕ)) (k : ℕ) (p : List ℕ)
    → get_elem? packets k ≡ some p
    → contains (i + k) lost ≡ false
    → get_elem? (receive i lost packets) k ≡ some (some p)
receive_at i lost [] k p e c = cc
receive_at i lost (q ∷ packets) zero p e c =
    let here : contains i lost ≡ false =
      ap (λ j. contains j lost) {x = i} {y = i + 0} (omega arith) ∙ c in
    rw here (ap some e)
receive_at i lost (q ∷ packets) (suc k) p e c =
    receive_at (i + 1) lost packets k p e
      (ap (λ j. contains j lost) {x = i + 1 + k} {y = i + suc k} (omega arith) ∙ c)

pub receive_kept :
    (lost : List ℕ) (packets : List (List ℕ)) (k : ℕ) (p : List ℕ)
    → get_elem? packets k ≡ some p
    → contains k lost ≡ false
    → get_elem? (receive 0 lost packets) k ≡ some (some p)
receive_kept lost packets k p e c =
    receive_at 0 lost packets k p e
      (ap (λ j. contains j lost) {x = 0 + k} {y = k} (omega arith) ∙ c)

-- An index that is lost is among the losses of its block.
contains-losses_in :
    (size j : ℕ) (lost : List ℕ)
    → contains j lost ≡ true
    → contains j (losses_in size (j / size) lost) ≡ true
contains-losses_in size j [] h = h
contains-losses_in size j (l ∷ lost) h = elim (Bool-cases (l == j)) [
  | inl e ↦
      let same : l ≡ j = (==_iff l j).0 e in
      let block : ((l / size) == (j / size)) ≡ true =
        (==_iff (l / size) (j / size)).1 (ap (λ k. k / size) same) in
      rw (block, e)
  | inr e ↦
      let later : contains j lost ≡ true = ground arith in
      ground (arith, contains-losses_in size j lost later)
]

pub only_loss :
    (size l j : ℕ) (lost : List ℕ)
    → losses_in size (j / size) lost ≡ l ∷ []
    → j ≢ l
    → contains j lost ≡ false
only_loss size l j lost e ne = elim (Bool-cases (contains j lost)) [
  | inl c ↦
      let found : contains j (l ∷ []) ≡ true =
        ap (contains j) (sym e) ∙ contains-losses_in size j lost c in
      absurd (ground arith)
  | inr c ↦ c
]

module _ (packets : List (Option (List ℕ))) (sent : List (List ℕ)) where
  -- The packets of `sent` from `i` up to `i + n` arrived, but for index `l`.
  abbrev pub Arrived : ℕ → ℕ → ℕ → Type 0
  Arrived l i n =
      (j : ℕ) → i ≤ j → j < i + n → j ≢ l → get_elem? packets j ≡ some (some (get_or sent j []))

  available_all :
      (l i n : ℕ)
      → i + n ≤ length sent
      → l < i
      → Arrived l i n
      → available_packets packets l i n ≡ take n (drop i sent)
  unfolding available_packets
  available_all l i zero h o a = refl
  available_all l i (suc n) h o a =
      rw (==_false i l (λ e. omega arith), a i (omega arith) (omega arith) (λ e. omega arith))
        (ap (◌∷◌ (get_or sent i [])) (
            available_all l (i + 1) n (omega arith) (omega arith)
              (λ j p q ne. a j (omega arith) (omega arith) ne))
          ∙ sym (take-drop-suc [] n i sent (omega arith)))

  pub available_around :
      (l i n : ℕ)
      → i + n ≤ length sent
      → i ≤ l
      → l < i + n
      → Arrived l i n
      → available_packets packets l i n
        ≡ take (l - i) (drop i sent) ++ take (i + n - l - 1) (drop (l + 1) sent)
  unfolding available_packets
  available_around l i zero h lo hi a = absurd (omega arith)
  available_around l i (suc n) h lo hi a = elim (Bool-cases (i == l)) [
    | inl e ↦
        let same : i ≡ l = (==_iff i l).0 e in
        rw e (
          available_all l (i + 1) n (omega arith) (omega arith)
            (λ j p q ne. a j (omega arith) (omega arith) ne)
          ∙ ap₂ (λ a b. take a (drop b sent)) {x = n} {y = i + suc n - l - 1} {u = i + 1}
              {v = l + 1} (omega arith) (omega arith)
          ∙ ap (λ k. take k (drop i sent) ++ take (i + suc n - l - 1) (drop (l + 1) sent)) {x = 0}
              {y = l - i} (omega arith))
    | inr e ↦
        let apart : i ≢ l = λ q. ground arith in
        rw (e, a i (omega arith) (omega arith) apart)
          (ap (◌∷◌ (get_or sent i [])) (
              available_around l (i + 1) n (omega arith) (omega arith) (omega arith)
                (λ j p q ne. a j (omega arith) (omega arith) ne))
            ∙ ap (λ t. t ++ take (i + 1 + n - l - 1) (drop (l + 1) sent))
                (sym (take-drop-suc [] (l - (i + 1)) i sent (omega arith)))
            ∙ ap₂ (λ a b. take a (drop i sent) ++ take b (drop (l + 1) sent))
                {x = suc (l - (i + 1))} {y = l - i} {u = i + 1 + n - l - 1} {v = i + suc n - l - 1}
                (omega arith) (omega arith))
  ]

pub window_split :
    (sent : List (List ℕ)) (l i n : ℕ)
    → i + n ≤ length sent
    → i ≤ l
    → l < i + n
    → take n (drop i sent)
      ≡ take (l - i) (drop i sent) ++ get_or sent l [] ∷ take (i + n - l - 1) (drop (l + 1) sent)
window_split sent l i zero h lo hi = absurd (omega arith)
window_split sent l i (suc n) h lo hi = elim (Bool-cases (i == l)) [
  | inl e ↦
      let same : i ≡ l = (==_iff i l).0 e in
      take-drop-suc [] n i sent (omega arith)
      ∙ ap₂ (λ a b. get_or sent a [] ∷ take n (drop b sent)) {x = i} {y = l} {u = i + 1} {v = l + 1}
          same (omega arith)
      ∙ ap₂ (λ a b. take a (drop i sent) ++ get_or sent l [] ∷ take b (drop (l + 1) sent)) {x = 0}
          {y = l - i} {u = n} {v = i + suc n - l - 1} (omega arith) (omega arith)
  | inr e ↦
      let apart : i ≢ l = λ q. ground arith in
      take-drop-suc [] n i sent (omega arith)
      ∙ ap (◌∷◌ (get_or sent i []))
          (window_split sent l (i + 1) n (omega arith) (omega arith) (omega arith))
      ∙ ap (λ t. t ++ get_or sent l [] ∷ take (i + 1 + n - l - 1) (drop (l + 1) sent))
          (sym (take-drop-suc [] (l - (i + 1)) i sent (omega arith)))
      ∙ ap₂ (λ a b. take a (drop i sent) ++ get_or sent l [] ∷ take b (drop (l + 1) sent))
          {x = suc (l - (i + 1))} {y = l - i} {u = i + 1 + n - l - 1} {v = i + suc n - l - 1}
          (omega arith) (omega arith)
]
