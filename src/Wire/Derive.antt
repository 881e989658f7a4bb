-- ===== src/Wire/Derive.antt =====
-- phira-mp/phira-mp-macros/src/lib.rs: the implementations that `#[derive(BinaryData)]` writes.
pub mod Laws
use phira_mp_plus.Common.{
  ℕ, zero, suc, ◌%◌, List, [], ◌∷◌, Option, none, some, ◌==◌, if◌then◌else◌, length,
}
use phira_mp_plus.Wire.Reader.{Reader, ◌>>=◌, pure, fail, byte, invalid_enum}
use phira_mp_plus.Wire.Codec.{BinaryData, u8_data}

-- A struct: `struct_read` and `struct_write` go through its fields in order. The fields are a
-- nest of pairs; `Vec` and `Arc` fields are read and written as `Vec` is, in `field_read`.
module _ {A F : Type 0} (fields : BinaryData F) (make : F → A) (split : A → F) where
  abbrev pub struct_data : BinaryData A
  struct_data = record {
    read = (do f ← fields.read; pure (make f));
    write = λ r out. fields.write (split r) out;
  }

-- A variant of an enum: its fields, its constructor, and its arm in the `match` of `write_binary`.
pub record Variant (E : Type 0) : Type 1 where
  pub Fields : Type 0
  pub fields : BinaryData Fields
  pub make : Fields → E
  pub fields_of : E → Option Fields

abbrev pub variant : {E F : Type 0} → BinaryData F → (F → E) → (E → Option F) → Variant E
variant fields make fields_of = record {
  Fields = _;
  fields = fields;
  make = make;
  fields_of = fields_of;
}

module _ {E : Type 0} where
  -- The arms of `read_binary`, from variant `i` on: the tag is `i as u8`.
  unfoldable pub read_variant : ℕ → ℕ → List (Variant E) → Reader E
  read_variant tag i [] = fail (invalid_enum tag)
  read_variant tag i (v ∷ vs) =
      let others = read_variant tag (suc i) vs in
      if tag == i % 256 then (do f ← v.fields.read; pure (v.make f)) else others

  -- The arms of `write_binary`; its `match` is exhaustive, so the list is never used up.
  unfoldable pub write_variant : ℕ → List (Variant E) → E → List ℕ → List ℕ
  write_variant i [] x out = out
  write_variant i (v ∷ vs) x out = elim (v.fields_of x) [
    | some f ↦ v.fields.write f (u8_data.write (i % 256) out)
    | none ↦ write_variant (suc i) vs x out
  ]

  unfoldable pub enum_data : List (Variant E) → BinaryData E
  enum_data vs = record {
    read = (do tag ← byte; read_variant tag 0 vs);
    write = write_variant 0 vs;
  }
