-- ===== src/Roaring/Btree/Valid.antt =====
-- What the containers of a B-tree bitmap keep: the cache of the last container agrees with the
-- tree, and every container is well-formed. Looking one up changes no set.
use mathlib.Core.Path.{subst}
use pilosa.Common.{
  ℕ, ◌≡◌, refl, sym, ap, ◌∙◌, [], Bool, true, false, ◌==◌, arith, Bool-cases, inl, inr,
  if◌then◌else◌, Option, none, some,
}
use pilosa.Roaring.Container.{Container, container_array}
use pilosa.Roaring.Container.Kinds.{IsContainer, members}
use pilosa.Roaring.Btree.{
  TreeOps, BtreeContainers, new_containers, remember, get_found, get_container, put_container,
  create_found, get_or_create, highbits, lowbits,
}

abbrev flat : Option (Option Container) → Option Container
flat none = none
flat (some c) = c

module _ {T : TreeOps} where
  -- The container that the tree holds at a key.
  abbrev pub lookup : BtreeContainers T → ℕ → Option Container
  lookup b key = flat (T.get b.tree key)

  abbrev pub IsValid : BtreeContainers T → Type 0
  IsValid b = (b.last_container ≡ lookup b b.last_key) × ((key : ℕ) → IsContainer (lookup b key))

  -- The set that the containers stand for.
  abbrev pub holds : BtreeContainers T → ℕ → Bool
  holds b v = members (lookup b (highbits v)) (lowbits v)

  pub lookup-put_container :
      (b : BtreeContainers T) (key : ℕ) (c : Option Container) (k : ℕ)
      → lookup (put_container b key c) k ≡ (if k == key then c else lookup b k)
  unfolding put_container
  lookup-put_container b key c k = elim (Bool-cases (k == key)) [
    | inl same ↦ rw (T.get-set b.tree key c k, same) refl
    | inr other ↦ rw (T.get-set b.tree key c k, other) refl
  ]

  pub put_container-IsValid :
      (b : BtreeContainers T) (key : ℕ) (c : Option Container)
      → IsValid b
      → IsContainer c
      → IsValid (put_container b key c)
  unfolding put_container
  put_container-IsValid b key c p q =
      let self : (key == key) ≡ true = ground arith in
      (
        sym (lookup-put_container b key c key ∙ rw self refl),
        λ k.
            subst (λ (x : Option Container). IsContainer x) (sym (lookup-put_container b key c k))
              (elim (Bool-cases (k == key)) [
                | inl same ↦ rw same q
                | inr other ↦ rw other (p.1 k)
              ]),
      )

  -- What looking for the container at a key gives: the set there, and no set changed.
  abbrev pub Opens : BtreeContainers T → ℕ → Option Container × BtreeContainers T → Type 0
  Opens b key (c, b') =
      ((u : ℕ) → members c u ≡ members (lookup b key) u)
      × IsContainer c
      × IsValid b'
      × ((k u : ℕ) → members (lookup b' k) u ≡ members (lookup b k) u)

  cached :
      (b : BtreeContainers T) (key : ℕ)
      → IsValid b
      → (key == b.last_key) ≡ true
      → Opens b key (b.last_container, b)
  cached b key p e =
      let eq : b.last_key ≡ key = ground arith in
      let at_key : b.last_container ≡ lookup b key = p.0 ∙ ap (λ (k : ℕ). lookup b k) eq in
      (
        λ u. ap (λ (c : Option Container). members c u) at_key,
        subst (λ (c : Option Container). IsContainer c) (sym at_key) (p.1 key),
        p,
        λ k u. refl,
      )

  found :
      (b : BtreeContainers T) (key : ℕ) (c : Option Container)
      → IsValid b
      → T.get b.tree key ≡ some c
      → Opens b key (c, remember b key c)
  found b key c p e =
      let at_key : c ≡ lookup b key = sym (ap flat e) in
      (
        λ u. ap (λ (x : Option Container). members x u) at_key,
        subst (λ (x : Option Container). IsContainer x) (sym at_key) (p.1 key),
        (at_key, p.1),
        λ k u. refl,
      )

  get_found-Opens :
      (b : BtreeContainers T) (key : ℕ) (o : Option (Option Container))
      → IsValid b
      → T.get b.tree key ≡ o
      → Opens b key (get_found b key o)
  unfolding get_found
  get_found-Opens b key none p e =
      let at_key : none ≡ lookup b key = sym (ap flat e) in
      (λ u. ap (λ (x : Option Container). members x u) at_key, tt, p, λ k u. refl)
  get_found-Opens b key (some c) p e = found b key c p e

  pub get_container-Opens :
      (b : BtreeContainers T) (key : ℕ) → IsValid b → Opens b key (get_container b key)
  unfolding get_container
  get_container-Opens b key p = elim (Bool-cases (key == b.last_key)) [
    | inl same ↦
        let made : get_container b key ≡ (b.last_container, b) = rw same refl in
        subst (λ (o : Option Container × BtreeContainers T). Opens b key o) (sym made)
          (cached b key p same)
    | inr other ↦
        let made : get_container b key ≡ get_found b key (T.get b.tree key) = rw other refl in
        subst (λ (o : Option Container × BtreeContainers T). Opens b key o) (sym made)
          (get_found-Opens b key (T.get b.tree key) p refl)
  ]

  -- A container created for a key that has none holds nothing yet.
  create_found-Opens :
      (b : BtreeContainers T) (key : ℕ) (o : Option (Option Container))
      → IsValid b
      → T.get b.tree key ≡ o
      → Opens b key (create_found b key o)
  unfolding create_found
  create_found-Opens b key none p e =
      let at_key : none ≡ lookup b key = sym (ap flat e) in
      let fresh : Option Container = some (container_array []) in
      let empty : IsContainer fresh = (tt, λ c m. absurd (ground arith)) in
      (
        λ u. ap (λ (x : Option Container). members x u) at_key,
        empty,
        put_container-IsValid b key fresh p empty,
        λ k u.
            ap (λ (x : Option Container). members x u) (lookup-put_container b key fresh k)
            ∙ elim (Bool-cases (k == key)) [
              | inl same ↦
                  let eq : k ≡ key = ground arith in
                  rw (same, eq) (ap (λ (x : Option Container). members x u) at_key)
              | inr other ↦ rw other refl
            ],
      )
  create_found-Opens b key (some c) p e = found b key c p e

  pub get_or_create-Opens :
      (b : BtreeContainers T) (key : ℕ) → IsValid b → Opens b key (get_or_create b key)
  unfolding get_or_create
  get_or_create-Opens b key p = elim (Bool-cases (key == b.last_key)) [
    | inl same ↦
        let made : get_or_create b key ≡ (b.last_container, b) = rw same refl in
        subst (λ (o : Option Container × BtreeContainers T). Opens b key o) (sym made)
          (cached b key p same)
    | inr other ↦
        let made : get_or_create b key ≡ create_found b key (T.get b.tree key) = rw other refl in
        subst (λ (o : Option Container × BtreeContainers T). Opens b key o) (sym made)
          (create_found-Opens b key (T.get b.tree key) p refl)
  ]

module _ (T : TreeOps) where
  pub new_containers-IsValid : IsValid (new_containers {T = T})
  unfolding new_containers
  new_containers-IsValid =
      let none_at : (key : ℕ) → flat (T.get T.tree_new key) ≡ none =
        λ key. ap flat (T.get-new key) in
      (
        sym (none_at 0),
        λ key. subst (λ (c : Option Container). IsContainer c) (sym (none_at key)) tt,
      )

  pub holds-new_containers : (v : ℕ) → holds (new_containers {T = T}) v ≡ false
  unfolding new_containers
  holds-new_containers v =
      ap (λ (c : Option Container). members c (lowbits v)) (ap flat (T.get-new (highbits v)))
