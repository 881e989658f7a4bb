-- ===== src/Wire/Derive/Laws.antt =====
-- Derived implementations are lawful if those of the fields are and an enum has at most 256 variants.
use phira_mp_plus.Common.{
  ℕ, suc, ◌+◌, ◌%◌, ◌≤◌, ◌<◌, ◌≡◌, sym, true, false, ◌==◌, List, [], ◌∷◌, ◌++◌, append-nil, Option,
  none, some, length, arith, inl, inr, Option-cases,
}
use phira_mp_plus.Wire.Reader.{Reads, Reads-map}
use phira_mp_plus.Wire.Codec.{BinaryData, Lawful}
use phira_mp_plus.Wire.Containers.Laws.{write-tag}
use phira_mp_plus.Wire.Derive.{
  struct_data, Variant, variant, read_variant, write_variant, enum_data,
}

module _ {A F : Type 0} {fields : BinaryData F} {P : F → Type 0} (l : Lawful fields P) where
  pub struct_data-Lawful :
      (make : F → A) (split : A → F)
      → ((r : A) → make (split r) ≡ r)
      → Lawful (struct_data fields make split) (λ r. P (split r))
  struct_data-Lawful make split e = record {
    appends = λ r out. l.appends (split r) out;
    reads =
        λ r h. Reads-map fields.read make (fields.write (split r) []) (l.reads (split r) h) (e r);
  }

-- The values that the fields of each variant can hold.
abbrev pub FieldPredicates : {E : Type 0} → List (Variant E) → Type 1
FieldPredicates [] = Unit {1}
FieldPredicates (v ∷ vs) = (v.Fields → Type 0) × FieldPredicates vs

pub record LawfulVariant {E : Type 0} (v : Variant E) (IsOk : v.Fields → Type 0) : Type 0 where
  pub lawful : Lawful v.fields IsOk
  pub made : (x : E) (f : v.Fields) → v.fields_of x ≡ some f → v.make f ≡ x

abbrev pub AllLawful : {E : Type 0} → (vs : List (Variant E)) → FieldPredicates vs → Type 0
AllLawful [] ps = Unit {0}
AllLawful (v ∷ vs) ps = LawfulVariant v ps.0 × AllLawful vs ps.1

-- Some variant holds the value, and its fields can be written.
abbrev pub IsEnum : {E : Type 0} → (vs : List (Variant E)) → FieldPredicates vs → E → Type 0
IsEnum [] ps x = ⊥
IsEnum (v ∷ vs) ps x = elim (v.fields_of x) [ some f ↦ ps.0 f | none ↦ IsEnum vs ps.1 x ]

tag_hit : (i : ℕ) → i < 256 → (i == i % 256) ≡ true
tag_hit i h = ground arith

tag_miss : (tag i : ℕ) → i < tag → tag < 256 → (tag == i % 256) ≡ false
tag_miss tag i h n = ground arith

small_tag : (i : ℕ) → i < 256 → i % 256 ≡ i
small_tag i h = omega arith

module _ {E : Type 0} where
  write_variant-append :
      (i : ℕ) (vs : List (Variant E)) (ps : FieldPredicates vs)
      → AllLawful vs ps
      → (x : E) (out : List ℕ) → write_variant i vs x out ≡ out ++ write_variant i vs x []
  unfolding write_variant
  write_variant-append i [] ps ls x out = sym (append-nil out)
  write_variant-append i (v ∷ vs) ps ls x out = elim (Option-cases (v.fields_of x)) [
    | inl e ↦ rw e (write_variant-append (suc i) vs ps.1 ls.1 x out)
    | inr (f, e) ↦ rw e (write-tag ls.0.lawful (i % 256) f out)
  ]

  -- What is written from variant `i` on: a tag that no earlier variant has, and the fields.
  record Written (i : ℕ) (vs : List (Variant E)) (x : E) : Type 0 where
    tag : ℕ
    payload : List ℕ
    written : write_variant i vs x [] ≡ tag ∷ payload
    later : i ≤ tag
    fits : tag < 256
    reads : Reads (read_variant tag i vs) payload x

  written :
      (i : ℕ) (vs : List (Variant E)) (ps : FieldPredicates vs) (ls : AllLawful vs ps) (x : E)
      → i + length vs ≤ 256
      → IsEnum vs ps x
      → Written i vs x
  unfolding write_variant read_variant
  written i [] ps ls x n h = absurd h
  written i (v ∷ vs) ps ls x n h = elim (Option-cases (v.fields_of x)) [
    | inl e ↦
        let w = written (suc i) vs ps.1 ls.1 x (omega arith) (rw e at h) in
        record {
          tag = w.tag;
          payload = w.payload;
          written = rw e w.written;
          later = omega (arith, w.later);
          fits = w.fits;
          reads = λ rest. rw (tag_miss w.tag i w.later w.fits) (w.reads rest);
        }
    | inr (f, e) ↦ record {
      tag = i;
      payload = v.fields.write f [];
      written = rw e (rw (small_tag i (omega arith)) (ls.0.lawful.appends f (i ∷ [])));
      later = omega arith;
      fits = omega arith;
      reads = λ rest. rw (tag_hit i (omega arith)) (
          Reads-map v.fields.read v.make (v.fields.write f []) (ls.0.lawful.reads f (rw e at h))
            (ls.0.made x f e) rest);
    }
  ]

  -- A derived enum is read back from what was written.
  pub enum_data-Lawful :
      (vs : List (Variant E)) (ps : FieldPredicates vs)
      → AllLawful vs ps
      → length vs ≤ 256
      → Lawful (enum_data vs) (IsEnum vs ps)
  unfolding enum_data
  enum_data-Lawful vs ps ls n = record {
    appends = write_variant-append 0 vs ps ls;
    reads = λ x h rest. let w = written 0 vs ps ls x (omega arith) h in rw w.written (w.reads rest);
  }

pub lawful_variant :
    {E F : Type 0} {fields : BinaryData F} {make : F → E} {fields_of : E → Option F}
    {P : F → Type 0}
    → Lawful fields P
    → ((x : E) (f : F) → fields_of x ≡ some f → make f ≡ x)
    → LawfulVariant (variant fields make fields_of) P
lawful_variant l made = record { lawful = l; made = made }
