-- ===== src/Wire/Containers.antt =====
-- phira-mp/phira-mp-common/src/bin.rs: `BinaryData` for `String`, pairs, `Option`, `Result`, `Vec`,
-- `HashMap` and `Uuid`.
pub mod Laws
pub mod Maps
use phira_mp_plus.Common.{
  ℕ, zero, suc, ◌+◌, List, [], ◌∷◌, ◌++◌, Bool, true, false, Option, none, some, Result, ok, err,
  if◌then◌else◌, length, Eq,
}
use phira_mp_plus.Wire.Reader.{Reader, ◌>>=◌, pure, take_bytes}
use phira_mp_plus.Wire.Uleb.{read_uleb, write_uleb}
use phira_mp_plus.Wire.Codec.{BinaryData, bool_data, u64_data}
use phira_mp_plus.Wire.Text.{Text, as_bytes, from_utf8_lossy}

-- `uleb()? as usize` is the identity where `usize` has 64 bits.
abbrev pub string_data : BinaryData Text
string_data = record {
  read = (do len ← read_uleb; bs ← take_bytes len; pure (from_utf8_lossy bs));
  write = λ s out. write_uleb (length (as_bytes s)) out ++ as_bytes s;
}

module _ {A B : Type 0} (a : BinaryData A) (b : BinaryData B) where
  abbrev pub pair_data : BinaryData (A × B)
  pair_data = record {
    read = (do x ← a.read; y ← b.read; pure (x, y));
    write = λ p out. b.write p.1 (a.write p.0 out);
  }

  abbrev write_result : Result B A → List ℕ → List ℕ
  write_result (ok v) out = a.write v (bool_data.write true out)
  write_result (err e) out = b.write e (bool_data.write false out)

  -- `Result<A, B>`
  abbrev pub result_data : BinaryData (Result B A)
  result_data = record {
    read = (do
      good ← bool_data.read
      if good then (do v ← a.read; pure (ok v)) else (do e ← b.read; pure (err e)));
    write = write_result;
  }

module _ {A : Type 0} (a : BinaryData A) where
  abbrev write_option : Option A → List ℕ → List ℕ
  write_option (some v) out = a.write v (bool_data.write true out)
  write_option none out = bool_data.write false out

  abbrev pub option_data : BinaryData (Option A)
  option_data = record {
    read = (do
      present ← bool_data.read
      if present then (do v ← a.read; pure (some v)) else pure none);
    write = write_option;
  }

  -- `(0..n).map(|_| self.read()).collect()`
  unfoldable pub read_times : ℕ → Reader (List A)
  read_times zero = pure []
  read_times (suc n) = do x ← a.read; xs ← read_times n; pure (x ∷ xs)

  -- `BinaryReader::array`
  pub read_array : Reader (List A)
  read_array = do n ← read_uleb; read_times n

  unfoldable pub write_each : List A → List ℕ → List ℕ
  write_each [] out = out
  write_each (x ∷ xs) out = write_each xs (a.write x out)

  -- `BinaryWriter::array`
  pub write_array : List A → List ℕ → List ℕ
  write_array xs out = write_each xs (write_uleb (length xs) out)

  abbrev pub vec_data : BinaryData (List A)
  vec_data = record { read = read_array; write = write_array }

-- A `HashMap` is the list of its entries in the order in which it is iterated over, no key twice.
module _ {K V : Type 0} ⦃e : Eq K⦄ where
  -- `HashMap::insert`
  unfoldable pub insert : K → V → List (K × V) → List (K × V)
  insert k v [] = (k, v) ∷ []
  insert k v ((j, w) ∷ m) =
      let rest = insert k v m in if e.beq j k then (j, v) ∷ m else (j, w) ∷ rest

  -- `collect` into a `HashMap` inserts the pairs in turn.
  unfoldable pub collect : List (K × V) → List (K × V) → List (K × V)
  collect m [] = m
  collect m ((k, v) ∷ ps) = collect (insert k v m) ps

  module _ (k : BinaryData K) (v : BinaryData V) where
    pub read_map : Reader (List (K × V))
    read_map = do n ← read_uleb; ps ← read_times (pair_data k v) n; pure (collect [] ps)

    abbrev pub map_data : BinaryData (List (K × V))
    map_data = record { read = read_map; write = write_array (pair_data k v) }

-- A `Uuid` is its pair of a high and a low `u64`; the low one travels first.
pub record Uuid : Type 0 where
  pub high : ℕ
  pub low : ℕ

abbrev pub uuid_data : BinaryData Uuid
uuid_data = record {
  read = (do low ← u64_data.read; high ← u64_data.read; pure (record { high = high; low = low }));
  write = λ u out. u64_data.write u.high (u64_data.write u.low out);
}
