-- ===== src/Wire/Containers/Maps.antt =====
-- `BinaryData for HashMap<K, V>` is lawful on the entries of a map.
use phira_mp_plus.Common.{
  ◌≡◌, refl, sym, ◌∙◌, List, [], ◌∷◌, ◌++◌, append-nil, append_assoc, false, length, Eq, Bool-cases,
  inl, inr,
}
use phira_mp_plus.Wire.Reader.{Reads-map}
use phira_mp_plus.Wire.Codec.{BinaryData, Lawful}
use phira_mp_plus.Wire.Containers.{
  pair_data, read_times, write_each, insert, collect, read_map, map_data,
}
use phira_mp_plus.Wire.Containers.Laws.{
  pair_data-Lawful, IsVec, write_array-append, read_times-Reads, count_and_each,
}

-- A `HashMap` comes back with its entries: no key of theirs is met twice.
module _ {K : Type 0} ⦃e : Eq K⦄ where
  beq-sym : (j k : K) → e.beq j k ≡ false → e.beq k j ≡ false
  beq-sym j k h = elim (Bool-cases (e.beq k j)) [
    | inl same ↦ cc (h, (e.beq_iff j k).1 (sym ((e.beq_iff k j).0 same)))
    | inr other ↦ other
  ]

module _ {K V : Type 0} ⦃e : Eq K⦄ where
  abbrev pub IsFresh : K → List (K × V) → Type 0
  IsFresh k [] = Unit {0}
  IsFresh k ((j, w) ∷ m) = (e.beq j k ≡ false) × IsFresh k m

  abbrev pub IsMap : List (K × V) → Type 0
  IsMap [] = Unit {0}
  IsMap ((k, v) ∷ m) = IsFresh k m × IsMap m

  abbrev pub IsHashMap : (K → Type 0) → (V → Type 0) → List (K × V) → Type 0
  IsHashMap P Q m = IsVec (λ p. P p.0 × Q p.1) m × IsMap m

  insert-fresh :
      (k : K) (v : V) (m : List (K × V)) → IsFresh k m → insert k v m ≡ m ++ ((k, v) ∷ [])
  unfolding insert
  insert-fresh k v [] h = refl
  insert-fresh k v ((j, w) ∷ m) h = rw (h.0, insert-fresh k v m h.1)

  -- No key of `ps` is in `m`.
  abbrev AreFresh : List (K × V) → List (K × V) → Type 0
  AreFresh m [] = Unit {0}
  AreFresh m ((k, v) ∷ ps) = IsFresh k m × AreFresh m ps

  IsFresh-append :
      (k : K) (m : List (K × V)) (j : K) (w : V)
      → IsFresh k m
      → e.beq j k ≡ false
      → IsFresh k (m ++ ((j, w) ∷ []))
  IsFresh-append k [] j w h n = (n, tt)
  IsFresh-append k (p ∷ m) j w h n = (h.0, IsFresh-append k m j w h.1 n)

  AreFresh-append :
      (m : List (K × V)) (j : K) (w : V) (ps : List (K × V))
      → AreFresh m ps
      → IsFresh j ps
      → AreFresh (m ++ ((j, w) ∷ [])) ps
  AreFresh-append m j w [] h n = tt
  AreFresh-append m j w ((k, v) ∷ ps) h n =
      (IsFresh-append k m j w h.0 (beq-sym k j n.0), AreFresh-append m j w ps h.1 n.1)

  collect-append : (ps m : List (K × V)) → IsMap ps → AreFresh m ps → collect m ps ≡ m ++ ps
  unfolding collect
  collect-append [] m h n = sym (append-nil m)
  collect-append ((k, v) ∷ ps) m h n = rw (insert-fresh k v m n.0) (
      collect-append ps (m ++ ((k, v) ∷ [])) h.1 (AreFresh-append m k v ps n.1 h.0)
      ∙ append_assoc m ((k, v) ∷ []) ps)

  AreFresh-nil : (ps : List (K × V)) → AreFresh [] ps
  AreFresh-nil [] = tt
  AreFresh-nil (p ∷ ps) = (tt, AreFresh-nil ps)

  module _ {k : BinaryData K} {v : BinaryData V} {P : K → Type 0} {Q : V → Type 0} (lk : Lawful k P)
      (lv : Lawful v Q) where
    pub map_data-Lawful : Lawful (map_data k v) (IsHashMap P Q)
    unfolding read_map
    map_data-Lawful =
        let pairs = pair_data-Lawful lk lv in
        record {
          appends = write_array-append pairs;
          reads = λ m h. count_and_each pairs m _ h.0.1 (
              Reads-map (read_times (pair_data k v) (length m)) (collect [])
                (write_each (pair_data k v) m []) (read_times-Reads pairs m h.0.0)
                (collect-append m [] h.1 (AreFresh-nil m)));
        }
