-- ===== src/Fec/Roundtrip.antt =====
-- common/fec/xor_fec.go: `Decode` after `Encode`.
use mathlib.Core.List.{Permᴰ}
use masque_vpn.Prelude.{
  ℕ, ◌/◌, ◌<◌, ◌≡◌, ◌≢◌, refl, sym, ap, subst, ◌∙◌, Option, none, some, List, [], ◌∷◌, arith,
  length, get_or, replicate, length-replicate, get_or-replicate, get_or_ext, ◌==◌, suc==zero,
  if◌then◌else◌,
}
use masque_vpn.Prelude.Int.{pos_part}
use masque_vpn.Fec.Decoder.{XorDecoder, Groups, Recovered, group_lost, recover_blocks, decode}
use masque_vpn.Fec.Grouping.{
  losses_of, losses_in, IsGrouped, Absent, put_at, or_old, recover_blocks_at, length-recover_blocks,
  group_lost-IsGrouped, losses_of-group_lost,
}

or_old-none : (o : Option (List ℕ)) → or_old o none ≡ o
or_old-none none = refl
or_old-none (some p) = refl

-- What `Decode` returns at index j is decided by the losses in the block of j alone.
pub decode_at :
    (d : XorDecoder) (packets : List (Option (List ℕ))) (lost : List ℕ) (j : ℕ)
    → j < length packets
    → let size = pos_part d.config.block_size in
      get_or (decode d packets lost) j none ≡ put_at size packets (losses_in size (j / size) lost) j
unfolding decode
decode_at d packets [] j h = refl
decode_at d packets (l ∷ lost) j h =
    let size = pos_part d.config.block_size in
    rw (suc==zero (length lost)) (
      recover_blocks_at size packets (group_lost size (l ∷ lost) [])
        (replicate (length packets) none) j (group_lost-IsGrouped size (l ∷ lost) [] tt)
        (omega (arith, length-replicate {A = Option (List ℕ)} (length packets) none))
      ∙ ap (or_old (put_at size packets (losses_of (j / size) (group_lost size (l ∷ lost) [])) j))
          (get_or-replicate none (length packets) j)
      ∙ or_old-none (put_at size packets (losses_of (j / size) (group_lost size (l ∷ lost) [])) j)
      ∙ ap (λ t. put_at size packets t j) (losses_of-group_lost size (j / size) (l ∷ lost) []))

-- Two orders of the same groups.
abbrev SameLosses : Groups → Groups → Type 0
SameLosses gs hs = (b : ℕ) → losses_of b gs ≡ losses_of b hs

perm-Absent : {gs hs : Groups} (b : ℕ) → Permᴰ gs hs → Absent b gs → Absent b hs
perm-Absent b Permᴰ.nil a = tt
perm-Absent b (Permᴰ.cons e p) a = (subst (λ g. g.0 ≢ b) e a.0, perm-Absent b p a.1)
perm-Absent b (Permᴰ.swap e f) a =
    (subst (λ g. g.0 ≢ b) f a.1.0, (subst (λ g. g.0 ≢ b) e a.0, a.1.1))
perm-Absent b (Permᴰ.trans p q) a = perm-Absent b q (perm-Absent b p a)

swap-IsGrouped :
    (size : ℕ) (g h : ℕ × List ℕ) (gs : Groups)
    → IsGrouped size (g ∷ h ∷ gs)
    → IsGrouped size (h ∷ g ∷ gs) × SameLosses (g ∷ h ∷ gs) (h ∷ g ∷ gs)
swap-IsGrouped size (b, is) (c, js) gs w = (
  (w.2.0, ((λ e. w.1.0 (sym e)), w.2.1), (w.0, w.1.1, w.2.2)),
  λ k. let apart : c ≢ b = w.1.0 in ground arith,
)

perm-IsGrouped :
    (size : ℕ) {gs hs : Groups}
    → Permᴰ gs hs
    → IsGrouped size gs
    → IsGrouped size hs × SameLosses gs hs
perm-IsGrouped size Permᴰ.nil w = (tt, λ b. refl)
perm-IsGrouped size (Permᴰ.cons {a = g} {l₁ = gs} {l₂ = hs} e p) w =
    let rest = perm-IsGrouped size p w.2 in
    subst (λ h. IsGrouped size (h ∷ hs) × SameLosses (g ∷ gs) (h ∷ hs)) e
      ((w.0, perm-Absent g.0 p w.1, rest.0), λ b. ap (λ t. if g.0 == b then g.1 else t) (rest.1 b))
perm-IsGrouped size (Permᴰ.swap {a = g} {b = h} {a' = h'} {b' = g'} {l = gs} e f) w =
    subst (λ k. IsGrouped size (h' ∷ k ∷ gs) × SameLosses (g ∷ h ∷ gs) (h' ∷ k ∷ gs)) e
      (subst (λ k. IsGrouped size (k ∷ g ∷ gs) × SameLosses (g ∷ h ∷ gs) (k ∷ g ∷ gs)) f
        (swap-IsGrouped size g h gs w))
perm-IsGrouped size (Permᴰ.trans p q) w =
    let first = perm-IsGrouped size p w in
    let second = perm-IsGrouped size q first.0 in (second.0, λ b. first.1 b ∙ second.1 b)

-- Go goes through a map in any order. For every order of the groups that `Decode` makes of the
-- losses, the loop over the blocks returns the same packets.
pub recover_blocks-perm :
    (size : ℕ) (packets : List (Option (List ℕ))) (lost : List ℕ) (order : Groups)
    → Permᴰ (group_lost size lost []) order
    → recover_blocks size packets order (replicate (length packets) none)
      ≡ recover_blocks size packets (group_lost size lost []) (replicate (length packets) none)
recover_blocks-perm size packets lost order p =
    let blank : Recovered = replicate (length packets) none in
    let groups = group_lost size lost [] in
    let w = group_lost-IsGrouped size lost [] tt in
    let moved = perm-IsGrouped size p w in
    get_or_ext none (recover_blocks size packets order blank)
      (recover_blocks size packets groups blank)
      (length-recover_blocks size packets order blank
        ∙ sym (length-recover_blocks size packets groups blank))
      (λ j h.
        let inside : j < length blank =
          omega (arith, length-recover_blocks size packets order blank) in
        recover_blocks_at size packets order blank j moved.0 inside
        ∙ ap (λ t. or_old (put_at size packets t j) (get_or blank j none))
            (sym (moved.1 (j / size)))
        ∙ sym (recover_blocks_at size packets groups blank j w inside))
