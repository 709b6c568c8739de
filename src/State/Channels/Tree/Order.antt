-- ===== src/State/Channels/Tree/Order.antt =====
-- `OrderedChildren` gives the children of a channel in the order of their chain.
use ts_cli.Prelude.{
  ℕ, zero, suc, false, Option, none, some, List, [], ◌∷◌, Result, ok, err, ◌>>=◌, ◌==◌, length, All,
  Bool-cases, Option-cases, Result-cases, ◌≡◌, ◌≢◌, ◌⊎◌, inl, inr, refl, ap, ◌∙◌, arith,
}
use ts_cli.Prelude.OrderedMap.{OrderedMap}
use ts_cli.State.Channels.{Channel}
use ts_cli.State.Channels.Tree.{
  TreeError, out_of_fuel, children_of, member, next_child, order_children, ordered_children,
}

-- Each channel stands behind the one before it, the first behind that of the given ID.
abbrev pub IsChain : ℕ → List Channel → Type 0
IsChain previous [] = Unit
IsChain previous (c ∷ cs) = (c.order_after_id ≡ previous) × IsChain c.id cs

-- No two channels have the same ID, and none has one of those given.
abbrev pub AreFresh : List ℕ → List Channel → Type 0
AreFresh ids [] = Unit
AreFresh ids (c ∷ cs) = (member c.id ids ≡ false) × AreFresh (c.id ∷ ids) cs

abbrev pub Among : Channel → List Channel → Type 0
Among c [] = ⊥
Among c (d ∷ ds) = (c ≡ d) ⊎ Among c ds

-- With a candidate found, a second one is refused.
next_child_found :
    (emitted : List ℕ) (previous : ℕ) (cs : List Channel) (d : Channel) {r : Option Channel}
    → next_child emitted previous cs (some d) ≡ ok r
    → r ≡ some d
unfolding next_child
next_child_found emitted previous [] d e = cc
next_child_found emitted previous (c ∷ cs) d {r} e =
    ground (arith, next_child_found emitted previous cs d {r = r})

next_child_sound :
    (emitted : List ℕ) (previous : ℕ) (cs : List Channel) {c : Channel}
    → next_child emitted previous cs none ≡ ok (some c)
    → Among c cs × (member c.id emitted ≡ false) × (c.order_after_id ≡ previous)
unfolding next_child
next_child_sound emitted previous [] e = cc
next_child_sound emitted previous (d ∷ ds) {c} e = elim (Bool-cases (member d.id emitted)) [
  | inl old ↦
      let (a, f, o) = next_child_sound emitted previous ds {c = c} (ground (arith, old, e)) in
      (inr a, f, o)
  | inr fresh ↦ elim (Bool-cases (d.order_after_id == previous)) [
    | inr elsewhere ↦
        let (a, f, o) =
          next_child_sound emitted previous ds {c = c} (ground (arith, fresh, elsewhere, e)) in
        (inr a, f, o)
    | inl here ↦
        let chosen : next_child emitted previous ds (some d) ≡ ok (some c) =
          ground (arith, fresh, here, e) in
        let same : some c ≡ some d = next_child_found emitted previous ds d chosen in
        let it : c ≡ d = cc in (inl it, rw it fresh, rw it (ground (arith, here)))
  ]
]

next_child_err :
    (emitted : List ℕ) (previous : ℕ) (cs : List Channel) (found : Option Channel)
    → next_child emitted previous cs found ≢ err out_of_fuel
unfolding next_child
next_child_err emitted previous [] found = ground arith
next_child_err emitted previous (c ∷ cs) none =
    ground
      (arith, next_child_err emitted previous cs none, next_child_err emitted previous cs (some c))
next_child_err emitted previous (c ∷ cs) (some d) =
    ground (arith, next_child_err emitted previous cs (some d))

-- What ordering children gives: a chain of fresh children of the number that is left.
abbrev pub IsOrdered : ℕ → List ℕ → ℕ → List Channel → Result TreeError (List Channel) → Type 0
IsOrdered left emitted previous children (ok cs) =
    IsChain previous cs × AreFresh emitted cs × All (λ c. Among c children) cs × (length cs ≡ left)
IsOrdered left emitted previous children (err e) = e ≢ out_of_fuel

IsOrdered-cons :
    (left : ℕ) (emitted : List ℕ) (previous : ℕ) (children : List Channel) (c : Channel)
    (r : Result TreeError (List Channel))
    → Among c children
    → member c.id emitted ≡ false
    → c.order_after_id ≡ previous
    → IsOrdered left (c.id ∷ emitted) c.id children r
    → IsOrdered (suc left) emitted previous children (r >>= λ cs. ok (c ∷ cs))
IsOrdered-cons left emitted previous children c (err e) among fresh behind i = i
IsOrdered-cons left emitted previous children c (ok cs) among fresh behind
      (chain, fresh', all, size) =
    ((behind, chain), (fresh, fresh'), (among, all), ap suc size)

order_children-IsOrdered :
    (left : ℕ) (emitted : List ℕ) (previous : ℕ) (children : List Channel)
    → IsOrdered left emitted previous children (order_children left emitted previous children)
unfolding order_children
order_children-IsOrdered zero emitted previous children = (tt, tt, tt, refl)
order_children-IsOrdered (suc left) emitted previous children =
    elim (Result-cases (next_child emitted previous children none)) [
      | inr (e, failed) ↦
          rw (IsOrdered, failed)
            (λ x. next_child_err emitted previous children none (failed ∙ ap err x))
      | inl (o, given) ↦ elim (Option-cases o) [
        | inl nothing ↦ rw (IsOrdered, given ∙ ap ok nothing) (λ x. cc)
        | inr (c, something) ↦
            let (among, fresh, behind) =
              next_child_sound emitted previous children {c = c} (given ∙ ap ok something) in
            rw (IsOrdered, given ∙ ap ok something)
              (IsOrdered-cons left emitted previous children c
                (order_children left (c.id ∷ emitted) c.id children) among fresh behind
                (order_children-IsOrdered left (c.id ∷ emitted) c.id children))
      ]
    ]

-- The children of a channel that `OrderedChildren` returns are all its children, each once, and each
-- stands behind the one before it, the first behind none. Where it throws, it is not for want of fuel.
pub ordered_children-IsOrdered :
    (parent : ℕ) (m : OrderedMap Channel)
    → IsOrdered
        (length (children_of parent m))
        []
        0
        (children_of parent m)
        (ordered_children parent m)
unfolding ordered_children
ordered_children-IsOrdered parent m =
    order_children-IsOrdered (length (children_of parent m)) [] 0 (children_of parent m)
