-- ===== src/Fec/Grouping.antt =====
-- common/fec/xor_fec.go: the losses by block, and what the loop over the blocks leaves at an index.
use masque_vpn.Prelude.{
  All-snoc, ℕ, ◌/◌, ◌<◌, ◌≡◌, ◌≢◌, refl, sym, ap, ◌∙◌, inl, inr, Option, none, some, List, [], ◌∷◌,
  ◌++◌, append_assoc, append-nil, arith, length, get_or, set, All, length-set, get_or-set_self,
  get_or-set_ne, Bool-cases, ==_iff, ==_false, ◌==◌, if◌then◌else◌,
}
use masque_vpn.Fec.Decoder.{
  Groups, Recovered, add_lost, group_lost, recover_lost, recover_block, recover_blocks,
}

-- The losses that a grouping lists for block `b`.
abbrev pub losses_of : ℕ → Groups → List ℕ
losses_of b [] = []
losses_of b ((c, idxs) ∷ groups) = if c == b then idxs else losses_of b groups

-- The losses in block `b`, in the order of `lost`.
abbrev pub losses_in : ℕ → ℕ → List ℕ → List ℕ
losses_in size b [] = []
losses_in size b (l ∷ lost) =
    if (l / size) == b then l ∷ losses_in size b lost else losses_in size b lost

abbrev pub Absent : ℕ → Groups → Type 0
Absent b = All (λ g. g.0 ≢ b)

-- Each block stands once, and lists indices of its own.
abbrev pub IsGrouped : ℕ → Groups → Type 0
IsGrouped size [] = Unit {0}
IsGrouped size ((b, idxs) ∷ groups) =
    All (λ l. l / size ≡ b) idxs × Absent b groups × IsGrouped size groups

losses_of-Absent : (b : ℕ) (groups : Groups) → Absent b groups → losses_of b groups ≡ []
losses_of-Absent b [] a = refl
losses_of-Absent b ((c, idxs) ∷ groups) a = rw (==_false c b a.0) (losses_of-Absent b groups a.1)

add_lost-Absent :
    (b c l : ℕ) (groups : Groups) → c ≢ b → Absent b groups → Absent b (add_lost c l groups)
unfolding add_lost
add_lost-Absent b c l [] h a = (h, tt)
add_lost-Absent b c l ((d, idxs) ∷ groups) h a = elim (Bool-cases (d == c)) [
  | inl e ↦ rw e (a.0, a.1)
  | inr e ↦ rw e (a.0, add_lost-Absent b c l groups h a.1)
]

losses_of-add_lost :
    (b c l : ℕ) (groups : Groups)
    → losses_of b (add_lost c l groups)
      ≡ (if c == b then losses_of b groups ++ l ∷ [] else losses_of b groups)
unfolding add_lost
losses_of-add_lost b c l [] = refl
losses_of-add_lost b c l ((d, idxs) ∷ groups) = ground (arith, losses_of-add_lost b c l groups)

add_lost-IsGrouped :
    (size l : ℕ) (groups : Groups)
    → IsGrouped size groups
    → IsGrouped size (add_lost (l / size) l groups)
unfolding add_lost
add_lost-IsGrouped size l [] g = ((refl, tt), tt, tt)
add_lost-IsGrouped size l ((b, idxs) ∷ groups) g = elim (Bool-cases (b == (l / size))) [
  | inl e ↦
      rw e (All-snoc (λ k. k / size ≡ b) idxs l g.0 (sym ((==_iff b (l / size)).0 e)), g.1, g.2)
  | inr e ↦ rw e (
    g.0,
    add_lost-Absent b (l / size) l groups (λ q. ground arith) g.1,
    add_lost-IsGrouped size l groups g.2,
  )
]

pub group_lost-IsGrouped :
    (size : ℕ) (lost : List ℕ) (groups : Groups)
    → IsGrouped size groups
    → IsGrouped size (group_lost size lost groups)
unfolding group_lost
group_lost-IsGrouped size [] groups g = g
group_lost-IsGrouped size (l ∷ lost) groups g =
    group_lost-IsGrouped size lost (add_lost (l / size) l groups)
      (add_lost-IsGrouped size l groups g)

pub losses_of-group_lost :
    (size b : ℕ) (lost : List ℕ) (groups : Groups)
    → losses_of b (group_lost size lost groups) ≡ losses_of b groups ++ losses_in size b lost
unfolding group_lost
losses_of-group_lost size b [] groups = sym (append-nil (losses_of b groups))
losses_of-group_lost size b (l ∷ lost) groups =
    losses_of-group_lost size b lost (add_lost (l / size) l groups)
    ∙ ap (λ t. t ++ losses_in size b lost) (losses_of-add_lost b (l / size) l groups)
    ∙ elim (Bool-cases ((l / size) == b)) [
      | inl e ↦ rw e (append_assoc (losses_of b groups) (l ∷ []) (losses_in size b lost))
      | inr e ↦ rw e
    ]

-- What a block with the losses `idxs` puts at index `j`; `none` where it leaves the index alone.
abbrev pub put_at : ℕ → List (Option (List ℕ)) → List ℕ → ℕ → Option (List ℕ)
put_at size packets [] j = none
put_at size packets (l ∷ []) j = if l == j then recover_lost size packets (j / size) l else none
put_at size packets (_ ∷ _ ∷ _) j = none

abbrev pub or_old : Option (List ℕ) → Option (List ℕ) → Option (List ℕ)
or_old none old = old
or_old (some p) old = some p

length-recover_block :
    (size : ℕ) (packets : List (Option (List ℕ))) (b : ℕ) (idxs : List ℕ) (recovered : Recovered)
    → length (recover_block size packets (b, idxs) recovered) ≡ length recovered
unfolding recover_block
length-recover_block size packets b [] recovered = refl
length-recover_block size packets b (l ∷ []) recovered = go (recover_lost size packets b l)
  where
    go :
        (o : Option (List ℕ))
        → length (elim o [ none ↦ recovered | some pkt ↦ set recovered l (some pkt) ])
          ≡ length recovered
    go none = refl
    go (some pkt) = length-set recovered l (some pkt)
length-recover_block size packets b (l ∷ m ∷ idxs) recovered = refl

pub length-recover_blocks :
    (size : ℕ) (packets : List (Option (List ℕ))) (groups : Groups) (recovered : Recovered)
    → length (recover_blocks size packets groups recovered) ≡ length recovered
unfolding recover_blocks
length-recover_blocks size packets [] recovered = refl
length-recover_blocks size packets ((b, idxs) ∷ groups) recovered =
    length-recover_blocks size packets groups (recover_block size packets (b, idxs) recovered)
    ∙ length-recover_block size packets b idxs recovered

recover_block_at :
    (size : ℕ) (packets : List (Option (List ℕ))) (b : ℕ) (idxs : List ℕ) (recovered : Recovered)
    (j : ℕ)
    → All (λ l. l / size ≡ b) idxs
    → j < length recovered
    → get_or (recover_block size packets (b, idxs) recovered) j none ≡ (
        if b == (j / size)
        then or_old (put_at size packets idxs j) (get_or recovered j none)
        else get_or recovered j none)
unfolding recover_block
recover_block_at size packets b [] recovered j a h = ground arith
recover_block_at size packets b (l ∷ []) recovered j a h = elim (Bool-cases (l == j)) [
  | inl e ↦
      let same : l ≡ j = (==_iff l j).0 e in
      let here : b ≡ j / size = sym a.0 ∙ ap (λ k. k / size) same in
      rw (e, (==_iff b (j / size)).1 here)
        (ap
            (λ c.
              get_or
                (elim (recover_lost size packets c l) [
                  | none ↦ recovered
                  | some pkt ↦ set recovered l (some pkt)
                ])
                j none)
            here
          ∙ placed (recover_lost size packets (j / size) l) same)
  | inr e ↦
      let other : l ≢ j = λ q. ground arith in
      rw e (kept (recover_lost size packets b l) other ∙ ground arith)
]
  where
    placed :
        (o : Option (List ℕ))
        → l ≡ j
        → get_or (elim o [ none ↦ recovered | some pkt ↦ set recovered l (some pkt) ]) j none
          ≡ or_old o (get_or recovered j none)
    placed none same = refl
    placed (some pkt) same =
        ap (λ k. get_or (set recovered k (some pkt)) j none) same
        ∙ get_or-set_self none recovered j (some pkt) h

    kept :
        (o : Option (List ℕ))
        → l ≢ j
        → get_or (elim o [ none ↦ recovered | some pkt ↦ set recovered l (some pkt) ]) j none
          ≡ get_or recovered j none
    kept none other = refl
    kept (some pkt) other = get_or-set_ne none recovered l j (some pkt) other
recover_block_at size packets b (l ∷ m ∷ idxs) recovered j a h = ground arith

-- Whatever stands at an index comes from the group of its own block.
pub recover_blocks_at :
    (size : ℕ) (packets : List (Option (List ℕ))) (groups : Groups) (recovered : Recovered) (j : ℕ)
    → IsGrouped size groups
    → j < length recovered
    → get_or (recover_blocks size packets groups recovered) j none
      ≡ or_old (put_at size packets (losses_of (j / size) groups) j) (get_or recovered j none)
unfolding recover_blocks
recover_blocks_at size packets [] recovered j g h = refl
recover_blocks_at size packets ((b, idxs) ∷ groups) recovered j g h =
    recover_blocks_at size packets groups (recover_block size packets (b, idxs) recovered) j g.2
      (omega (arith, length-recover_block size packets b idxs recovered))
    ∙ ap (or_old (put_at size packets (losses_of (j / size) groups) j))
        (recover_block_at size packets b idxs recovered j g.0 h)
    ∙ elim (Bool-cases (b == (j / size))) [
      | inl e ↦ rw (
        e,
        ap (λ c. losses_of c groups) (sym ((==_iff b (j / size)).0 e))
            ∙ losses_of-Absent b groups g.1,
      )
      | inr e ↦ rw e
    ]
