-- ===== src/Wire/Containers/Laws.antt =====
-- The implementations of `BinaryData` for containers are lawful if those of their parts are.
use phira_mp_plus.Common.{
  ℕ, ◌≡◌, refl, sym, ap, ◌∙◌, List, [], ◌∷◌, ◌++◌, append-nil, append_assoc, Option, none, some,
  Result, ok, err, length, All,
}
use phira_mp_plus.Wire.Reader.{
  Reader, ◌>>=◌, pure, take_bytes, Reads, Reads-bind, Reads-map, take_bytes-Reads,
}
use phira_mp_plus.Wire.Uleb.{IsU64, read_uleb, write_uleb}
use phira_mp_plus.Wire.Uleb.RoundTrip.{write_uleb-append, read_uleb-write_uleb}
use phira_mp_plus.Wire.Codec.{BinaryData, Lawful, u64_data}
use phira_mp_plus.Wire.Codec.Numbers.{le_data-Lawful}
use phira_mp_plus.Wire.Text.{Text, IsScalar, as_bytes, from_utf8_lossy}
use phira_mp_plus.Wire.Text.Laws.{from_utf8_lossy-as_bytes}
use phira_mp_plus.Wire.Containers.{
  string_data, pair_data, result_data, option_data, read_times, read_array, write_each, write_array,
  vec_data, uuid_data,
}

-- The values that can be written, by those of the parts.
abbrev pub IsResult : {A B : Type 0} → (A → Type 0) → (B → Type 0) → Result B A → Type 0
IsResult P Q (ok v) = P v
IsResult P Q (err e) = Q e

abbrev pub IsOption : {A : Type 0} → (A → Type 0) → Option A → Type 0
IsOption P (some v) = P v
IsOption P none = Unit {0}

abbrev pub IsVec : {A : Type 0} → (A → Type 0) → List A → Type 0
IsVec P xs = All P xs × IsU64 (length xs)

-- A tag byte in front of a value.
pub write-tag :
    {A : Type 0} {a : BinaryData A} {P : A → Type 0}
    → Lawful a P
    → (tag : ℕ) (v : A) (out : List ℕ) → a.write v (out ++ (tag ∷ [])) ≡ out ++ a.write v (tag ∷ [])
write-tag {a = a} la tag v out =
    la.appends v (out ++ (tag ∷ []))
    ∙ append_assoc out (tag ∷ []) (a.write v [])
    ∙ ap (◌++◌ out) (sym (la.appends v (tag ∷ [])))

module _ {A B : Type 0} {a : BinaryData A} {b : BinaryData B} {P : A → Type 0} {Q : B → Type 0}
    (la : Lawful a P) (lb : Lawful b Q) where
  -- Writing two values one after the other.
  write_then :
      (x : A) (y : B) (out : List ℕ)
      → b.write y (a.write x out) ≡ out ++ (a.write x [] ++ b.write y [])
  write_then x y out =
      lb.appends y (a.write x out)
      ∙ rw (la.appends x out) (append_assoc out (a.write x []) (b.write y []))

  appends_both :
      (x : A) (y : B) (out : List ℕ) → b.write y (a.write x out) ≡ out ++ b.write y (a.write x [])
  appends_both x y out = write_then x y out ∙ ap (◌++◌ out) (sym (write_then x y []))

  Reads-both :
      {C : Type 0} (x : A) (y : B) (f : A → Reader C) (g : B → C) {c : C}
      → P x
      → Q y
      → f x ≡ (b.read >>= λ y. pure (g y))
      → g y ≡ c
      → Reads (a.read >>= f) (b.write y (a.write x [])) c
  Reads-both x y f g hx hy e e' = rw (write_then x y []) (
      Reads-bind a.read f (a.write x []) (b.write y []) (la.reads x hx)
        (rw e (Reads-map b.read g (b.write y []) (lb.reads y hy) e')))

  pub pair_data-Lawful : Lawful (pair_data a b) (λ p. P p.0 × Q p.1)
  pair_data-Lawful = record {
    appends = λ p out. appends_both p.0 p.1 out;
    reads = λ p h. Reads-both p.0 p.1 _ (λ y. (p.0, y)) h.0 h.1 refl refl;
  }

  result_write-append :
      (r : Result B A) (out : List ℕ)
      → (result_data a b).write r out ≡ out ++ (result_data a b).write r []
  result_write-append (ok v) out = write-tag la 1 v out
  result_write-append (err e) out = write-tag lb 0 e out

  result-Reads :
      (r : Result B A)
      → IsResult P Q r
      → Reads (result_data a b).read ((result_data a b).write r []) r
  result-Reads (ok v) h rest =
      rw (la.appends v (1 ∷ [])) (Reads-map a.read ok (a.write v []) (la.reads v h) refl rest)
  result-Reads (err e) h rest =
      rw (lb.appends e (0 ∷ [])) (Reads-map b.read err (b.write e []) (lb.reads e h) refl rest)

  pub result_data-Lawful : Lawful (result_data a b) (IsResult P Q)
  result_data-Lawful = record { appends = result_write-append; reads = result-Reads }

module _ {A : Type 0} {a : BinaryData A} {P : A → Type 0} (la : Lawful a P) where
  option_write-append :
      (o : Option A) (out : List ℕ)
      → (option_data a).write o out ≡ out ++ (option_data a).write o []
  option_write-append (some v) out = write-tag la 1 v out
  option_write-append none out = refl

  option-Reads :
      (o : Option A) → IsOption P o → Reads (option_data a).read ((option_data a).write o []) o
  option-Reads (some v) h rest =
      rw (la.appends v (1 ∷ [])) (Reads-map a.read some (a.write v []) (la.reads v h) refl rest)
  option-Reads none h rest = refl

  pub option_data-Lawful : Lawful (option_data a) (IsOption P)
  option_data-Lawful = record { appends = option_write-append; reads = option-Reads }

  write_each-append : (xs : List A) (out : List ℕ) → write_each a xs out ≡ out ++ write_each a xs []
  unfolding write_each
  write_each-append [] out = sym (append-nil out)
  write_each-append (x ∷ xs) out =
      write_each-append xs (a.write x out)
      ∙ rw (la.appends x out) (append_assoc out (a.write x []) (write_each a xs []))
      ∙ ap (◌++◌ out) (sym (write_each-append xs (a.write x [])))

  pub read_times-Reads :
      (xs : List A) → All P xs → Reads (read_times a (length xs)) (write_each a xs []) xs
  unfolding read_times write_each
  read_times-Reads [] h = λ rest. refl
  read_times-Reads (x ∷ xs) h = rw (write_each-append xs (a.write x [])) (
      Reads-bind a.read _ (a.write x []) (write_each a xs []) (la.reads x h.0) (
        Reads-map (read_times a (length xs)) (◌∷◌ x) (write_each a xs []) (read_times-Reads xs h.1)
          refl))

  pub write_array-append :
      (xs : List A) (out : List ℕ) → write_array a xs out ≡ out ++ write_array a xs []
  unfolding write_array
  write_array-append xs out =
      write_each-append xs (write_uleb (length xs) out)
      ∙ rw (write_uleb-append (length xs) out)
          (append_assoc out (write_uleb (length xs) []) (write_each a xs []))
      ∙ ap (◌++◌ out) (sym (write_each-append xs (write_uleb (length xs) [])))

  -- What any reader does that takes the count and then the elements, as `array` and the map do.
  pub count_and_each :
      {B : Type 0} (xs : List A) (k : ℕ → Reader B) {b : B}
      → IsU64 (length xs)
      → Reads (k (length xs)) (write_each a xs []) b
      → Reads (read_uleb >>= k) (write_array a xs []) b
  unfolding write_array
  count_and_each xs k hn hk = rw (write_each-append xs (write_uleb (length xs) [])) (
      Reads-bind read_uleb k (write_uleb (length xs) []) (write_each a xs [])
        (read_uleb-write_uleb (length xs) hn) hk)

  pub vec_data-Lawful : Lawful (vec_data a) (IsVec P)
  unfolding read_array
  vec_data-Lawful = record {
    appends = write_array-append;
    reads = λ xs h. count_and_each xs (read_times a) h.1 (read_times-Reads xs h.0);
  }

-- A `String` that fits in memory.
abbrev pub IsText : Text → Type 0
IsText s = All IsScalar s × IsU64 (length (as_bytes s))

pub string_data-Lawful : Lawful string_data IsText
string_data-Lawful = record {
  appends = λ s out.
      rw (write_uleb-append (length (as_bytes s)) out)
        (append_assoc out (write_uleb (length (as_bytes s)) []) (as_bytes s));
  reads = λ s h.
      Reads-bind read_uleb _ (write_uleb (length (as_bytes s)) []) (as_bytes s)
        (read_uleb-write_uleb (length (as_bytes s)) h.1)
        (Reads-map (take_bytes (length (as_bytes s))) from_utf8_lossy (as_bytes s)
          (take_bytes-Reads _ (as_bytes s) refl) (from_utf8_lossy-as_bytes s h.0));
}

pub uuid_data-Lawful : Lawful uuid_data (λ u. IsU64 u.high × IsU64 u.low)
uuid_data-Lawful = record {
  appends = λ u out. append_assoc out (u64_data.write u.low []) (u64_data.write u.high []);
  reads =
      λ u h. Reads-both (le_data-Lawful 8) (le_data-Lawful 8) u.low u.high _ _ h.1 h.0 refl refl;
}
