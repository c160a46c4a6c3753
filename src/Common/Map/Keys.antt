-- ===== src/Common/Map/Keys.antt =====
-- Maps whose keys occur once and are made from the values: what `range` visits, and what a loop that
-- indexes those values builds.
use Prim.Native.String.{String}
use mathlib.Core.Path.{◌≡◌, refl, sym, ap, ◌∙◌}
use mathlib.Core.Logic.{◌⊎◌, inl, inr}
use mathlib.Core.Logic.Or
use mathlib.Core.Option.{Option, none, some, some-injective}
use mathlib.Core.List.Perm
use mathlib.Core.List.{
  List, [], ◌∷◌, Mem, Perm, mem-cons, not-mem-nil, mem-cons_self, mem-cons_of_mem,
}
use native.Mathlib.Omega.{arith}
use jack_service.Common.Tests.{Bool-cases, Option-cases}
use jack_service.Common.Text.{◌==◌, eq_iff}
use jack_service.Common.Map.{
  Map, lookup, insert, delete, values, index_by, lookup-delete, lookup-insert,
}

module _ {ℓ} {V : Type ℓ} where
  abbrev pub NodupKeys : Map V → Type ℓ
  NodupKeys [] = Unit
  NodupKeys ((k, v) ∷ m) = (lookup k m ≡ none) × NodupKeys m

  delete-NodupKeys : (k : String) (m : Map V) → NodupKeys m → NodupKeys (delete k m)
  unfolding delete
  delete-NodupKeys k [] u = tt
  delete-NodupKeys k ((j, v) ∷ m) (fresh, u) =
      ground (arith, delete-NodupKeys k m u, lookup-delete k j m)

  pub insert-NodupKeys : (k : String) (v : V) (m : Map V) → NodupKeys m → NodupKeys (insert k v m)
  unfolding insert
  insert-NodupKeys k v m u = (rw lookup-delete (ground (arith, eq_iff k k)), delete-NodupKeys k m u)

  module _ (key : V → String) where
    -- Every entry stands under the key of its value.
    abbrev pub Keyed : Map V → Type ℓ
    Keyed m = (k : String) (v : V) → lookup k m ≡ some v → key v ≡ k

    pub insert-Keyed : (v : V) (m : Map V) → Keyed m → Keyed (insert (key v) v m)
    insert-Keyed v m keyed k u h =
        ground (arith, lookup-insert (key v) k v m, eq_iff (key v) k, keyed k u)

    pub index_by-NodupKeys : (l : List V) (m : Map V) → NodupKeys m → NodupKeys (index_by key l m)
    unfolding index_by
    index_by-NodupKeys [] m u = u
    index_by-NodupKeys (v ∷ l) m u = index_by-NodupKeys l _ (insert-NodupKeys (key v) v m u)

    pub index_by-Keyed : (l : List V) (m : Map V) → Keyed m → Keyed (index_by key l m)
    unfolding index_by
    index_by-Keyed [] m keyed = keyed
    index_by-Keyed (v ∷ l) m keyed = index_by-Keyed l _ (insert-Keyed v m keyed)

    -- A key that no value has keeps its entry.
    lookup-index_by_of_absent :
        (k : String) (l : List V) (m : Map V)
        → ((v : V) → Mem v l → key v ≡ k → ⊥)
        → lookup k (index_by key l m) ≡ lookup k m
    unfolding index_by
    lookup-index_by_of_absent k [] m absent = refl
    lookup-index_by_of_absent k (v ∷ l) m absent =
        lookup-index_by_of_absent k l _ (λ u there. absent u (mem-cons_of_mem v there))
        ∙ lookup-insert (key v) k v m
        ∙ ground (arith, absent v mem-cons_self, eq_iff (key v) k)

    module _ (V-set : IsSet (Option V)) where
      -- A key that one value alone has gets this value, from the list or from the map.
      lookup-index_by_of_only :
          (k : String) (v : V) (l : List V) (m : Map V)
          → ((u : V) → Mem u l → key u ≡ k → u ≡ v)
          → key v ≡ k
          → Mem v l ⊎ (lookup k m ≡ some v)
          → lookup k (index_by key l m) ≡ some v
      unfolding index_by
      lookup-index_by_of_only k v [] m only keyed (inl there) = absurd (not-mem-nil there)
      lookup-index_by_of_only k v [] m only keyed (inr there) = there
      lookup-index_by_of_only k v (x ∷ l) m only keyed place =
          let rest = λ (p : Mem v l ⊎ (lookup k (insert (key x) x m) ≡ some v)).
            lookup-index_by_of_only k v l (insert (key x) x m)
              (λ u there. only u (mem-cons_of_mem x there)) keyed p in
          elim (Bool-cases (key x == k)) [
            | inl same ↦ rest (
                inr (
                  lookup-insert (key x) k x m
                  ∙ rw same (ap some (only x mem-cons_self ((eq_iff (key x) k).0 same)))))
            | inr other ↦ elim place [
              | inl there ↦
                  Or.elim (V-set _ _) (mem-cons.0 there)
                    (λ e. absurd (cc (other, (eq_iff (key x) k).1 (ap key (sym e) ∙ keyed))))
                    (λ later. rest (inl later))
              | inr there ↦ rest (inr (lookup-insert (key x) k x m ∙ rw other there))
            ]
          ]

      tail-Keyed :
          (k : String) (v : V) (m : Map V) → lookup k m ≡ none → Keyed ((k, v) ∷ m) → Keyed m
      unfolding lookup
      tail-Keyed k v m fresh keyed j u h = keyed j u (ground (arith, eq_iff k j))

      pub mem-values_of_lookup :
          (k : String) (v : V) (m : Map V) → lookup k m ≡ some v → Mem v (values m)
      unfolding lookup
      mem-values_of_lookup k v [] h = absurd (cc)
      mem-values_of_lookup k v ((j, w) ∷ m) h = elim (Bool-cases (j == k)) [
        | inl same ↦ rw (some-injective _ _ (rw same at h)) mem-cons_self
        | inr other ↦ mem-cons_of_mem w (mem-values_of_lookup k v m (rw other at h))
      ]

      pub lookup_of_mem-values :
          (v : V) (m : Map V) → NodupKeys m → Keyed m → Mem v (values m) → lookup (key v) m ≡ some v
      unfolding lookup
      lookup_of_mem-values v [] u keyed there = absurd (not-mem-nil there)
      lookup_of_mem-values v ((j, w) ∷ m) (fresh, u) keyed there =
          let first = keyed j w (rw ((eq_iff j j).1 refl) refl) in
          Or.elim (V-set _ _) (mem-cons.0 there) (λ e. ground (arith, e, first, eq_iff j (key v)))
            (λ later.
              let found = lookup_of_mem-values v m u (tail-Keyed j w m fresh keyed) later in
              ground (arith, found, eq_iff j (key v)))

      -- What is indexed from the values, in any order, answers as the map that they come from.
      pub lookup-index_by :
          (k : String) (l : List V) (m : Map V)
          → Perm l (values m)
          → NodupKeys m
          → Keyed m
          → lookup k (index_by key l []) ≡ lookup k m
      unfolding lookup
      lookup-index_by k l m perm u keyed =
          let found = λ (v : V) (there : Mem v l).
            lookup_of_mem-values v m u keyed ((Perm.mem_iff perm).0 there) in
          elim (Option-cases (lookup k m)) [
            | inl none_there ↦
                lookup-index_by_of_absent k l []
                  (λ v there e. cc (sym none_there ∙ ap (λ j. lookup j m) (sym e) ∙ found v there))
                ∙ sym none_there
            | inr (v, there) ↦
                lookup-index_by_of_only k v l []
                  (λ u among e.
                    some-injective _ _ (sym (found u among) ∙ ap (λ j. lookup j m) e ∙ there))
                  (keyed k v there) (inl ((Perm.mem_iff perm).1 (mem-values_of_lookup k v m there)))
                ∙ sym there
          ]
